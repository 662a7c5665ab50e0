-- ===== src/Pool/Parks.antt =====
-- How nntp/usenet.cc treats a connection that has become ready.
use mathlib.Core.Path.{subst₂}
use post2usenet.Common.{
  ℕ, Bool, false, not, List, [], ◌∷◌, ◌++◌, ◌≡◌, inl, inr, refl, ap, ◌∙◌, arith, none, some, ◌==◌,
  Bool-cases, List-cases, Option-cases, if◌then◌else◌,
}
use post2usenet.Common.Result.{ok, err}
use post2usenet.Boost.{StringAlgorithms}
use post2usenet.Connection.{
  Connection, Heap, connected_and_authenticated, async_graceful_disconnect,
}
use post2usenet.Connection.Posting.{IsIdle}
use post2usenet.Usenet.{
  Usenet, assertion_failed, foreign_iterator, set_conn, run_command, take_out, park, shut_down,
  disconnect, on_conn_becomes_ready,
}
use post2usenet.Usenet.Lists.{tally, tally-append, tally-take_out}
use post2usenet.Usenet.Split.{Keeps-IsSplit}
use post2usenet.Pool.Sound.{Fits, Sound, Safe, safe, misplaced}
use post2usenet.Pool.Hands.{run_command-Safe}
use post2usenet.Pool.Queues.{tally_self, take_out-there, take_out-missing, queued-Sound}

leaves :
    (c : Connection)
    → c.state ≡ connected_and_authenticated
    → (c' : Connection) × (async_graceful_disconnect c ≡ some c')
unfolding async_graceful_disconnect
leaves c ready = elim (Option-cases (async_graceful_disconnect c)) [
  | inl refused ↦ absurd (ground arith)
  | inr (c', e) ↦ (c', e)
]

disconnected :
    (u : Usenet) (it : ℕ)
    → (u.conns it).state ≡ connected_and_authenticated
    → (u' : Usenet) × (disconnect u it ≡ ok u') × (u'.busy ≡ u.busy)
unfolding disconnect set_conn
disconnected u it ready =
    let (c, e) = leaves (u.conns it) ready in
    (
      set_conn u it c,
      ap (λ o. elim o [ none ↦ err assertion_failed | some x ↦ ok (set_conn u it x) ]) e,
      refl,
    )

if_not {ℓ} : {A : Type ℓ} (b : Bool) (x y : A) → b ≡ false → (if not b then x else y) ≡ x
if_not b x y e = rw e refl

-- A connection that is not in m_busy is taken out of it all the same.
shut_down-misplaced :
    (u : Usenet) (it : ℕ)
    → (u.conns it).state ≡ connected_and_authenticated
    → tally it u.busy ≡ 0
    → shut_down u it ≡ err foreign_iterator
unfolding shut_down
shut_down-misplaced u it ready gone =
    let (u', e, same) = disconnected u it ready in
    let missing = take_out-missing it u'.busy (rw same gone) in rw (e, missing) refl

module _ (algo : StringAlgorithms) (heap : Heap) where
  parked-Sound :
      (u : Usenet) (it : ℕ) (c : Connection) (busy' : List ℕ)
      → Sound algo heap (some (it, c)) u
      → IsIdle c
      → c.state ≡ connected_and_authenticated
      → take_out it u.busy ≡ ok busy'
      → Sound algo heap none (record u { ready = u.ready ++ it ∷ []; busy = busy' })
  unfolding tally
  parked-Sound u it c busy' sound idle ready out =
      let is : u.conns it ≡ c = sound.holding.1 in
      record {
        split =
            Keeps-IsSplit u _
              (record {
                held = λ j.
                    let taken = tally-take_out it j u.busy busy' out in
                    let added = tally-append j u.ready (it ∷ []) in omega arith;
                next = refl;
              })
              sound.split;
        fits = λ j made any.
            let taken = tally-take_out it j u.busy busy' out in
            let added = tally-append j u.ready (it ∷ []) in
            elim (Bool-cases (j == it)) [
              | inl same ↦
                  let e : j ≡ it = ground arith in
                  record {
                    at_rest = λ r. rw (e, is) (idle, ready);
                    at_work = λ b. absurd (ground (arith, sound.split.once j, b));
                    given_up = λ z. absurd (ground (arith, z));
                  }
              | inr differs ↦
                  let in_ready : tally j u.ready ≡ tally j (u.ready ++ it ∷ []) = ground arith in
                  let in_busy : tally j u.busy ≡ tally j busy' = ground arith in
                  subst₂ (λ r b. Fits algo heap (u.conns j) r b) in_ready in_busy
                    (sound.fits j made (λ e. ground arith))
            ];
        holding = tt;
      }

  -- The connection goes from m_busy to the end of m_ready.
  pub park-Safe :
      (u : Usenet) (it : ℕ) (c : Connection)
      → Sound algo heap (some (it, c)) u
      → IsIdle c
      → c.state ≡ connected_and_authenticated
      → Safe algo heap none (park u it)
  unfolding park
  park-Safe u it c sound idle ready =
      let (busy', out) = take_out-there it u.busy sound.holding.0 in
      let is : u.conns it ≡ c = sound.holding.1 in
      let parked = record u { ready = u.ready ++ it ∷ []; busy = busy' } in
      let taken = tally-take_out it it u.busy busy' out in
      let self = tally_self it in
      rw out (elim (Bool-cases u.work) [
        | inl works ↦ safe parked (ground arith) (parked-Sound u it c busy' sound idle ready out)
        | inr stopped ↦ misplaced (
            if_not u.work (shut_down parked it) (ok parked) stopped
            ∙ shut_down-misplaced parked it (rw is ready)
                (omega (arith, self, sound.split.once it, sound.holding.0, taken)))
      ])

  pub on_conn_becomes_ready-Safe :
      (u : Usenet) (it : ℕ) (c : Connection)
      → Sound algo heap (some (it, c)) u
      → IsIdle c
      → c.state ≡ connected_and_authenticated
      → Safe algo heap none (on_conn_becomes_ready u it)
  unfolding on_conn_becomes_ready
  on_conn_becomes_ready-Safe u it c sound idle ready = elim (List-cases u.queue) [
    | inl none_queued ↦
        let e : on_conn_becomes_ready u it ≡ park u it = ground arith in
        rw e (park-Safe u it c sound idle ready)
    | inr (cmd, rest, queued) ↦
        let left = record u { queue = rest } in
        let e : on_conn_becomes_ready u it ≡ run_command left it cmd = ground arith in
        rw e (
          run_command-Safe algo heap left it c cmd
            (queued-Sound algo heap (some (it, c)) u rest sound) idle ready)
  ]
