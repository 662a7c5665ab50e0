-- ===== src/Talk/Acting.antt =====
-- What the client of nntp/connection.cc can do with one operation or one task under way, and how it
-- takes a whole reply.
use mathlib.Core.Path.{subst₂}
use post2usenet.Common.{
  true, false, length, drop, take_all, List, [], ◌∷◌, ◌++◌, append-nil, append_assoc, ◌≡◌, refl,
  sym, ap, ◌∙◌, arith, Bytes, some, ◌==◌, cr, lf, IsOneLine,
}
use post2usenet.Boost.{StringAlgorithms}
use post2usenet.Connection.{
  Connection, Heap, resolving, opening, writing, reading, Writer, Reader, Task, cancel_timer,
}
use post2usenet.Connection.Complete.{completed_write, completed_read, run_task, on_line}
use post2usenet.Connection.Posting.{OneOp, OneTask, IsIdle, one_op, one_task}
use post2usenet.DummyServer.{read_lines}
use post2usenet.DummyServer.Lines.{ended}
use post2usenet.Talk.{Acts, runs, resolves, opens, writes, reads}

pub nothing_in {ℓ} : {A : Type ℓ} (x : A) (before after : List A) → ¬ ([] ≡ before ++ x ∷ after)
nothing_in x [] after e = cc
nothing_in x (y ∷ before) after e = cc

pub drop_all {ℓ} : {A : Type ℓ} (xs : List A) → drop (length xs) xs ≡ []
drop_all [] = refl
drop_all (x ∷ xs) = drop_all xs

-- Of a line with its end, no shorter piece holds a whole line.
pub read_lines-whole :
    (before text arrived rest line : Bytes) (more : List Bytes)
    → IsOneLine text
    → ended text ≡ arrived ++ rest
    → read_lines false before arrived ≡ line ∷ more
    → (rest ≡ []) × (line ≡ before ++ ended text)
unfolding read_lines
read_lines-whole before text [] rest line more h e r = absurd (cc)
read_lines-whole before [] (x ∷ []) rest line more h e r = absurd (ground arith)
read_lines-whole before [] (x ∷ y ∷ z ∷ arrived) rest line more h e r = absurd (cc)
read_lines-whole before [] (x ∷ y ∷ []) rest line more h e r =
    let first : x ≡ cr = ground arith in
    let second : y ≡ lf = ground arith in
    let got : ◌≡◌ {A = List Bytes} (((before ++ cr ∷ []) ++ lf ∷ []) ∷ []) (line ∷ more) =
      rw (first, second) at r in
    (ground arith, ground (arith, got, append_assoc before (cr ∷ []) (lf ∷ [])))
read_lines-whole before (c ∷ text) (x ∷ arrived) rest line more h e r =
    let same : x ≡ c = ground arith in
    let plain : (x == cr) ≡ false = ground arith in
    let (none_left, l) =
      read_lines-whole (before ++ x ∷ []) text arrived rest line more h.1 (ground arith)
        (rw plain at r) in
    (none_left, l ∙ append_assoc before (x ∷ []) (ended text) ∙ rw same refl)

no_line :
    (arrived left line : Bytes) (more : List Bytes)
    → [] ≡ arrived ++ left
    → ¬ (read_lines false [] arrived ≡ line ∷ more)
unfolding read_lines
no_line [] left line more e = cc
no_line (x ∷ xs) left line more e = absurd (cc)

module _ (algo : StringAlgorithms) (heap : Heap) where
  pub idle_acts :
      (c c' : Connection) (input left : Bytes) (told : List Task)
      → IsIdle c
      → ¬ Acts algo heap c input c' left told
  idle_acts c c' input left told idle (runs before after t' e done kept) =
      nothing_in t' before after (sym idle.no_task ∙ e)
  idle_acts c c' input left told idle (resolves before after e d k q) =
      nothing_in resolving before after (sym idle.no_op ∙ e)
  idle_acts c c' input left told idle (opens before after e d k q) =
      nothing_in opening before after (sym idle.no_op ∙ e)
  idle_acts c c' input left told idle (writes before after h e d k q) =
      nothing_in (writing h) before after (sym idle.no_op ∙ e)
  idle_acts c c' input left told idle (reads before after h arrived line more e i l d q) =
      nothing_in (reading h) before after (sym idle.no_op ∙ e)

module _ (algo : StringAlgorithms) (heap : Heap) where
  pub task_acts :
      (c c' : Connection) (t : Task) (input left : Bytes) (told : List Task)
      → OneTask c t
      → Acts algo heap c input c' left told
      → (run_task (record c { posted = [] }) t ≡ (c', told)) × (left ≡ input)
  task_acts c c' t input left told one (runs before after t' e done kept) =
      let (same, b, f) = one_task t t' before after (sym one.task ∙ e) in
      let joined : before ++ after ≡ [] = rw (b, f) in
      (subst₂ (λ q ts. run_task (record c { posted = ts }) q ≡ (c', told)) same joined done, kept)
  task_acts c c' t input left told one (resolves before after e d k q) =
      absurd (nothing_in resolving before after (sym one.no_op ∙ e))
  task_acts c c' t input left told one (opens before after e d k q) =
      absurd (nothing_in opening before after (sym one.no_op ∙ e))
  task_acts c c' t input left told one (writes before after h e d k q) =
      absurd (nothing_in (writing h) before after (sym one.no_op ∙ e))
  task_acts c c' t input left told one (reads before after h arrived line more e i l d q) =
      absurd (nothing_in (reading h) before after (sym one.no_op ∙ e))

  pub write_acts :
      (c c' : Connection) (w : Writer) (input left : Bytes) (told : List Task)
      → OneOp c (writing w)
      → Acts algo heap c input c' left told
      → (c' ≡ completed_write true true w (record c { pending = [] }))
        × (left ≡ input)
        × (told ≡ [])
  write_acts c c' w input left told one (runs before after t e done kept) =
      absurd (nothing_in t before after (sym one.no_task ∙ e))
  write_acts c c' w input left told one (resolves before after e d k q) =
      let (same, b, f) = one_op (writing w) resolving before after (sym one.op ∙ e) in absurd (cc)
  write_acts c c' w input left told one (opens before after e d k q) =
      let (same, b, f) = one_op (writing w) opening before after (sym one.op ∙ e) in absurd (cc)
  write_acts c c' w input left told one (writes before after h e d k q) =
      let (same, b, f) = one_op (writing w) (writing h) before after (sym one.op ∙ e) in
      let joined : before ++ after ≡ [] = rw (b, f) in
      let this : h ≡ w = cc in
      (
        subst₂ (λ v os. c' ≡ completed_write true true v (record c { pending = os })) this joined d,
        k,
        q,
      )
  write_acts c c' w input left told one (reads before after h arrived line more e i l d q) =
      let (same, b, f) = one_op (writing w) (reading h) before after (sym one.op ∙ e) in absurd (cc)

  line_read :
      (c c' : Connection) (h : Reader) (line : Bytes)
      → completed_read algo heap h (some (line, length line)) c ≡ some c'
      → on_line algo heap h line (cancel_timer (record c { readbuf = [] })) ≡ some c'
  unfolding completed_read
  line_read c c' h line e = rw (take_all (length line) line (omega arith), drop_all line) at e

  read_acts :
      (c c' : Connection) (h : Reader) (input left : Bytes) (told : List Task)
      → OneOp c (reading h)
      → Acts algo heap c input c' left told
      → (arrived line : Bytes) × (more : List Bytes) × (input ≡ arrived ++ left)
        × (read_lines false [] (c.readbuf ++ arrived) ≡ line ∷ more)
        × (completed_read algo heap h
              (some (c.readbuf ++ arrived, length line))
              (record c { pending = [] })
            ≡ some c')
        × (told ≡ [])
  read_acts c c' h input left told one (runs before after t e done kept) =
      absurd (nothing_in t before after (sym one.no_task ∙ e))
  read_acts c c' h input left told one (resolves before after e d k q) =
      let (same, b, f) = one_op (reading h) resolving before after (sym one.op ∙ e) in absurd (cc)
  read_acts c c' h input left told one (opens before after e d k q) =
      let (same, b, f) = one_op (reading h) opening before after (sym one.op ∙ e) in absurd (cc)
  read_acts c c' h input left told one (writes before after w e d k q) =
      let (same, b, f) = one_op (reading h) (writing w) before after (sym one.op ∙ e) in absurd (cc)
  read_acts c c' h input left told one (reads before after g arrived line more e i l d q) =
      let (same, b, f) = one_op (reading h) (reading g) before after (sym one.op ∙ e) in
      let joined : before ++ after ≡ [] = rw (b, f) in
      let this : g ≡ h = cc in
      let done =
        subst₂
          (λ v os.
            completed_read algo heap v (some (c.readbuf ++ arrived, length line))
              (record c { pending = os })
            ≡ some c')
          this joined d in
      (arrived, line, more, i, l, done, q)

  -- Where the server has sent one line, that is what is read,
  pub reply_acts :
      (c c' : Connection) (h : Reader) (input text left : Bytes) (told : List Task)
      → OneOp c (reading h)
      → c.readbuf ≡ []
      → input ≡ ended text
      → IsOneLine text
      → Acts algo heap c input c' left told
      → (on_line algo heap h (ended text) (cancel_timer (record c { pending = []; readbuf = [] }))
          ≡ some c')
        × (left ≡ [])
        × (told ≡ [])
  reply_acts c c' h input text left told one empty sent plain act =
      let (arrived, line, more, i, l, done, q) = read_acts c c' h input left told one act in
      let i' : ended text ≡ arrived ++ left = sym sent ∙ i in
      let (nothing_left, whole) =
        read_lines-whole [] text arrived left line more plain i' (rw empty at l) in
      let all : arrived ≡ ended text =
        sym (append-nil arrived) ∙ ap (λ t. arrived ++ t) (sym nothing_left) ∙ sym i' in
      let buffered : c.readbuf ++ arrived ≡ ended text = rw empty all in
      (
        line_read (record c { pending = [] }) c' h (ended text) (rw (buffered, whole) at done),
        nothing_left,
        q,
      )

  -- and where it has sent nothing, no read completes.
  pub silence_acts :
      (c c' : Connection) (h : Reader) (input left : Bytes) (told : List Task)
      → OneOp c (reading h)
      → c.readbuf ≡ []
      → input ≡ []
      → ¬ Acts algo heap c input c' left told
  silence_acts c c' h input left told one empty sent act =
      let (arrived, line, more, i, l, done, q) = read_acts c c' h input left told one act in
      no_line arrived left line more (sym sent ∙ i) (rw empty at l)
