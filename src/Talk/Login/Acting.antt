-- ===== src/Talk/Login/Acting.antt =====
-- What the client of nntp/connection.cc can do while it looks up its server, connects, or shakes hands.
use mathlib.Core.Path.{subst}
use post2usenet.Common.{List, [], ◌++◌, ◌≡◌, sym, ◌∙◌, true, Bytes}
use post2usenet.Boost.{StringAlgorithms}
use post2usenet.Connection.{
  Connection, Heap, resolving, opening, handshaking, writing, reading, Task,
}
use post2usenet.Connection.Complete.{completed_resolve, completed_connect}
use post2usenet.Connection.Posting.{OneOp, one_op}
use post2usenet.Talk.{Acts, runs, resolves, opens, writes, reads}
use post2usenet.Talk.Acting.{nothing_in}

module _ (algo : StringAlgorithms) (heap : Heap) where
  pub resolve_acts :
      (c c' : Connection) (input left : Bytes) (told : List Task)
      → OneOp c resolving
      → Acts algo heap c input c' left told
      → (c' ≡ completed_resolve true (record c { pending = [] })) × (left ≡ input) × (told ≡ [])
  resolve_acts c c' input left told one (runs before after t e done kept) =
      absurd (nothing_in t before after (sym one.no_task ∙ e))
  resolve_acts c c' input left told one (resolves before after e d k q) =
      let (same, b, f) = one_op resolving resolving before after (sym one.op ∙ e) in
      let joined : before ++ after ≡ [] = rw (b, f) in
      (subst (λ os. c' ≡ completed_resolve true (record c { pending = os })) joined d, k, q)
  resolve_acts c c' input left told one (opens before after e d k q) =
      let (same, b, f) = one_op resolving opening before after (sym one.op ∙ e) in absurd (cc)
  resolve_acts c c' input left told one (writes before after h e d k q) =
      let (same, b, f) = one_op resolving (writing h) before after (sym one.op ∙ e) in absurd (cc)
  resolve_acts c c' input left told one (reads before after h arrived line more e i l d q) =
      let (same, b, f) = one_op resolving (reading h) before after (sym one.op ∙ e) in absurd (cc)

  pub open_acts :
      (c c' : Connection) (input left : Bytes) (told : List Task)
      → OneOp c opening
      → Acts algo heap c input c' left told
      → (c' ≡ completed_connect true (record c { pending = [] })) × (left ≡ input) × (told ≡ [])
  open_acts c c' input left told one (runs before after t e done kept) =
      absurd (nothing_in t before after (sym one.no_task ∙ e))
  open_acts c c' input left told one (resolves before after e d k q) =
      let (same, b, f) = one_op opening resolving before after (sym one.op ∙ e) in absurd (cc)
  open_acts c c' input left told one (opens before after e d k q) =
      let (same, b, f) = one_op opening opening before after (sym one.op ∙ e) in
      let joined : before ++ after ≡ [] = rw (b, f) in
      (subst (λ os. c' ≡ completed_connect true (record c { pending = os })) joined d, k, q)
  open_acts c c' input left told one (writes before after h e d k q) =
      let (same, b, f) = one_op opening (writing h) before after (sym one.op ∙ e) in absurd (cc)
  open_acts c c' input left told one (reads before after h arrived line more e i l d q) =
      let (same, b, f) = one_op opening (reading h) before after (sym one.op ∙ e) in absurd (cc)

  -- The client alone does nothing while it shakes hands.
  pub shake_acts :
      (c c' : Connection) (input left : Bytes) (told : List Task)
      → OneOp c handshaking
      → ¬ Acts algo heap c input c' left told
  shake_acts c c' input left told one (runs before after t e done kept) =
      nothing_in t before after (sym one.no_task ∙ e)
  shake_acts c c' input left told one (resolves before after e d k q) =
      let (same, b, f) = one_op handshaking resolving before after (sym one.op ∙ e) in cc
  shake_acts c c' input left told one (opens before after e d k q) =
      let (same, b, f) = one_op handshaking opening before after (sym one.op ∙ e) in cc
  shake_acts c c' input left told one (writes before after h e d k q) =
      let (same, b, f) = one_op handshaking (writing h) before after (sym one.op ∙ e) in cc
  shake_acts c c' input left told one (reads before after h arrived line more e i l d q) =
      let (same, b, f) = one_op handshaking (reading h) before after (sym one.op ∙ e) in cc
