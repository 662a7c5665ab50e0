-- ===== src/Pool/Queues.antt =====
-- How the functions of nntp/usenet.cc that accept a command leave the pool over its connections.
use post2usenet.Common.{
  ℕ, ◌≤◌, Bool, false, not, List, [], ◌∷◌, ◌++◌, ◌≡◌, inl, inr, refl, arith, ◌==◌, Bool-cases,
  List-cases, ◌&&◌, ltb, leb, length,
}
use post2usenet.Common.Result.{Result, ok, err, ◌>>=◌}
use post2usenet.Boost.{StringAlgorithms}
use post2usenet.Connection.{Heap}
use post2usenet.Usenet.{
  Usenet, Fault, foreign_iterator, Command, done, dispatch, enqueue, finish_wait, dispatch_or_queue,
  take_out,
}
use post2usenet.Usenet.Lists.{tally}
use post2usenet.Pool.Sound.{Handling, Sound, Safe, safe, misplaced}
use post2usenet.Pool.{outcome}
use post2usenet.Pool.Hands.{same-Sound, dispatch-Safe}

pub tally_self : (it : ℕ) → tally it (it ∷ []) ≡ 1
unfolding tally
tally_self it = ground arith

pub take_out-there :
    (it : ℕ) (xs : List ℕ) → 1 ≤ tally it xs → (rest : List ℕ) × (take_out it xs ≡ ok rest)
unfolding tally take_out
take_out-there it [] there = absurd (omega arith)
take_out-there it (x ∷ xs) there = elim (Bool-cases (x == it)) [
  | inl same ↦ (xs, ground arith)
  | inr other ↦ let (rest, e) = take_out-there it xs (ground arith) in (x ∷ rest, ground arith)
]

pub take_out-missing :
    (it : ℕ) (xs : List ℕ) → tally it xs ≡ 0 → take_out it xs ≡ err foreign_iterator
unfolding tally take_out
take_out-missing it [] gone = refl
take_out-missing it (x ∷ xs) gone =
    let rest = take_out-missing it xs (ground arith) in
    let other : (x == it) ≡ false = ground arith in ground arith

module _ (algo : StringAlgorithms) (heap : Heap) where
  -- A command goes behind the queue.
  pub queued-Sound :
      (h : Handling) (u : Usenet) (queue : List Command)
      → Sound algo heap h u
      → Sound algo heap h (record u { queue = queue })
  queued-Sound h u queue sound = same-Sound algo heap h u _ refl refl refl refl sound

  outcome-dispatch :
      (h : Handling) (u : Usenet) (r : Result Fault Usenet)
      → Safe algo heap h r
      → Safe algo heap h (outcome u (r >>= λ v. ok (done v)))
  outcome-dispatch h u r (safe v e sound) = safe v (rw e refl) sound
  outcome-dispatch h u r (misplaced e) = misplaced (rw e refl)

  pub enqueue-Safe :
      (h : Handling) (u : Usenet) (cmd : Command) (bypass : Bool)
      → Sound algo heap h u
      → Safe algo heap h (outcome u (enqueue u cmd bypass))
  unfolding enqueue
  enqueue-Safe h u cmd bypass sound = elim (List-cases u.ready) [
    | inl none_ready ↦
        elim (Bool-cases (not bypass && (not (u.maxsize == 0) && leb u.maxsize (length u.queue)))) [
          | inl full ↦ safe u (ground arith) sound
          | inr room ↦
              safe (record u { queue = u.queue ++ cmd ∷ [] }) (ground arith)
                (queued-Sound h u _ sound)
        ]
    | inr (it, rest, at) ↦
        let e : enqueue u cmd bypass ≡ (dispatch u it rest cmd >>= λ v. ok (done v)) =
          ground arith in
        rw e (outcome-dispatch h u _ (dispatch-Safe algo heap h u it rest cmd sound at))
  ]

  pub finish_wait-Safe :
      (h : Handling) (u : Usenet) (cmd : Command)
      → Sound algo heap h u
      → Safe algo heap h (outcome u (ok (finish_wait u cmd)))
  unfolding finish_wait
  finish_wait-Safe h u cmd sound = elim (Bool-cases (ltb (length u.queue) u.maxsize)) [
    | inl room ↦
        safe (record u { queue = u.queue ++ cmd ∷ [] }) (ground arith) (queued-Sound h u _ sound)
    | inr full ↦ safe u (ground arith) sound
  ]

  pub dispatch_or_queue-Safe :
      (h : Handling) (u : Usenet) (cmd : Command) (front : Bool)
      → Sound algo heap h u
      → Safe algo heap h (dispatch_or_queue u cmd front)
  unfolding dispatch_or_queue
  dispatch_or_queue-Safe h u cmd front sound = elim (List-cases u.ready) [
    | inl none_ready ↦ elim (Bool-cases front) [
      | inl first ↦
          safe (record u { queue = cmd ∷ u.queue }) (ground arith) (queued-Sound h u _ sound)
      | inr last ↦
          safe (record u { queue = u.queue ++ cmd ∷ [] }) (ground arith) (queued-Sound h u _ sound)
    ]
    | inr (it, rest, at) ↦
        let e : dispatch_or_queue u cmd front ≡ dispatch u it rest cmd = ground arith in
        rw e (dispatch-Safe algo heap h u it rest cmd sound at)
  ]
