-- ===== src/Connection/Posted.antt =====
-- What nntp/connection.cc tells the owner of a connection about a post.
use mathlib.Core.Path.{subst, subst₂}
use post2usenet.Common.{
  ℕ, true, List, [], ◌∷◌, ◌++◌, ◌≡◌, ◌⊎◌, inl, inr, refl, sym, ◌∙◌, arith, Bytes, some,
}
use post2usenet.Boost.{StringAlgorithms}
use post2usenet.Connection.{
  Connection, Heap, Op, Task, run_post, tell_post, async_post, PostResult,
  connected_and_authenticated,
}
use post2usenet.Connection.Complete.{run_task}
use post2usenet.Connection.Step.{Serves, Completes, completes, runs}
use post2usenet.Connection.Posting.{
  OneOp, OneTask, IsIdle, IsAnswered, IsPosting, requested, commanding, texting, answering,
  PostStep, one_op, one_task, commanding-step, texting-step, run_post-step,
}

none_left {ℓ} : {A : Type ℓ} (x : A) (before after : List A) → ¬ ([] ≡ before ++ x ∷ after)
none_left x [] after e = cc
none_left x (y ∷ before) after e = cc

module _ (algo : StringAlgorithms) (heap : Heap) where
  -- A connection at rest makes no step.
  pub IsIdle-stays :
      (c c' : Connection) (told : List Task) → IsIdle c → ¬ Serves algo heap c c' told
  IsIdle-stays c c' told idle (completes before after o e done quiet) =
      none_left o before after (sym idle.no_op ∙ e)
  IsIdle-stays c c' told idle (runs before after t e done) =
      none_left t before after (sym idle.no_task ∙ e)

  -- The step from a connection with one operation, and from one with one task.
  pub op_step :
      (c c' : Connection) (o : Op) (told : List Task)
      → OneOp c o
      → Serves algo heap c c' told
      → Completes algo heap o (record c { pending = [] }) c' × (told ≡ [])
  op_step c c' o told one (completes before after o' e done quiet) =
      let (same, b, f) = one_op o o' before after (sym one.op ∙ e) in
      let joined : before ++ after ≡ [] = rw (b, f) in
      (
        subst₂ (λ q os. Completes algo heap q (record c { pending = os }) c') same joined done,
        quiet,
      )
  op_step c c' o told one (runs before after t e done) =
      absurd (none_left t before after (sym one.no_task ∙ e))

  pub task_step :
      (c c' : Connection) (t : Task) (told : List Task)
      → OneTask c t
      → Serves algo heap c c' told
      → run_task (record c { posted = [] }) t ≡ (c', told)
  task_step c c' t told one (completes before after o e done quiet) =
      absurd (none_left o before after (sym one.no_op ∙ e))
  task_step c c' t told one (runs before after t' e done) =
      let (same, b, f) = one_task t t' before after (sym one.task ∙ e) in
      let joined : before ++ after ≡ [] = rw (b, f) in
      subst₂ (λ q ts. run_task (record c { posted = ts }) q ≡ (c', told)) same joined done

  -- Steps of the io_service one after another, with all that is told.
  pub data Runs (c : Connection) : Connection → List Task → Type 0 where
    stop : Runs c c []
    go_on :
        {c' c'' : Connection} {told more : List Task}
        → Runs c c' told
        → Serves algo heap c' c'' more
        → Runs c c'' (told ++ more)

module _ (algo : StringAlgorithms) (heap : Heap) (a : ℕ) (log : List Bytes) where
  told_task-step :
      (c c' : Connection) (r : PostResult) (told : List Task)
      → IsAnswered algo heap a log c r
      → run_task (record c { posted = [] }) (tell_post (some a) r) ≡ (c', told)
      → c.pending ≡ []
      → PostStep algo heap a log c' told
  unfolding run_task
  told_task-step c c' r told v e p = inr (
    r,
    ground arith,
    ground arith,
    ground arith,
    record {
      ready = ground (arith, v.ready);
      forgotten = ground (arith, v.forgotten);
      whole = λ k. ground (arith, v.whole k);
    },
  )

  pub Serves-PostStep :
      (c c' : Connection) (told : List Task)
      → IsPosting algo heap a log c
      → Serves algo heap c c' told
      → PostStep algo heap a log c' told
  Serves-PostStep c c' told (requested one e sent) st =
      subst (λ (r : Connection × List Task). PostStep algo heap a log r.0 r.1)
        (task_step algo heap c c' run_post told one st)
        (run_post-step algo heap a log (record c { posted = [] })
          (record { no_op = one.no_op; no_task = refl }) e sent)
  Serves-PostStep c c' told (commanding o w one e sent) st =
      let (done, quiet) = op_step algo heap c c' o told one st in
      rw quiet (
        commanding-step algo heap a log o _ c' w (record { no_op = refl; no_task = one.no_task }) e
          sent done)
  Serves-PostStep c c' told (texting o w one e sent) st =
      let (done, quiet) = op_step algo heap c c' o told one st in
      rw quiet (
        texting-step algo heap a log o _ c' w (record { no_op = refl; no_task = one.no_task }) e
          sent done)
  Serves-PostStep c c' told (answering r one v) st =
      told_task-step c c' r told v (task_step algo heap c c' (tell_post (some a) r) told one st)
        one.no_op

-- The post is on its way and nothing has been told, or it has been answered by one message.
abbrev pub PostedState : StringAlgorithms → Heap → ℕ → List Bytes → Connection → List Task → Type 0
PostedState algo heap a log c told =
    (IsPosting algo heap a log c × (told ≡ []))
    ⊎ ((r : PostResult) × (told ≡ tell_post (some a) r ∷ [])
        × IsIdle c
        × IsAnswered algo heap a log c r)

Runs-PostedState :
    (algo : StringAlgorithms) (heap : Heap) (a : ℕ) (log : List Bytes) (c c' : Connection)
    (told : List Task)
    → IsPosting algo heap a log c
    → Runs algo heap c c' told
    → PostedState algo heap a log c' told
Runs-PostedState algo heap a log c c' told p stop = inl (p, refl)
Runs-PostedState algo heap a log c c' told p (go_on {c' = m} {told = t} {more = t'} h st) =
    elim (Runs-PostedState algo heap a log c m t p h) [
      | inl (q, none_told) ↦ elim (Serves-PostStep algo heap a log m c' t' q st) [
        | inl (q', quiet) ↦ inl (q', rw (none_told, quiet))
        | inr answered ↦
            let (r, e, no_op, no_task, v) = answered in
            inr (r, rw (none_told, e), record { no_op = no_op; no_task = no_task }, v)
      ]
      | inr (r, e, idle, v) ↦ absurd (IsIdle-stays algo heap m c' t' idle st)
    ]

-- A connection that is authenticated and has nothing under way takes a post. From then on, whatever
-- the network does, each step of the io_service either leaves the post on its way and tells nothing,
-- or it is the last one: it tells the owner one result about the article that was given, and leaves
-- the connection ready, with no article. The result is success only if POST and then the whole text
-- of the article have been handed to the network, and nothing else.
pub async_post-answered :
    (algo : StringAlgorithms) (heap : Heap) (a : ℕ) (c c' : Connection) (told : List Task)
    → c.state ≡ connected_and_authenticated
    → IsIdle c
    → Runs algo heap (async_post c a).0 c' told
    → ((async_post c a).1 ≡ true) × PostedState algo heap a c.sent c' told
unfolding async_post
async_post-answered algo heap a c c' told ready idle h = (
  ground arith,
  Runs-PostedState algo heap a c.sent _ c' told
      (requested (record { no_op = ground arith; task = ground arith }) (ground arith)
        (ground arith))
      h,
)
