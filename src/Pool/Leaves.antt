-- ===== src/Pool/Leaves.antt =====
-- How nntp/usenet.cc gives a connection up, connects it again, and makes connections.
use mathlib.Core.Path.{subst}
use post2usenet.Common.{
  ℕ, zero, suc, Bool, false, List, [], ◌∷◌, ◌++◌, ◌≡◌, inl, inr, refl, arith, none, some, ◌==◌,
  Bool-cases, ◌&&◌, length,
}
use post2usenet.Common.Int.{ℤ}
use post2usenet.Common.Result.{ok}
use post2usenet.Boost.{StringAlgorithms}
use post2usenet.ConnectionInfo.{ConnectionInfo}
use post2usenet.Connection.{Connection, Heap, run_connect, make_connection, async_connect, close}
use post2usenet.Connection.Dialogue.{task, kind}
use post2usenet.Connection.Posting.{IsIdle}
use post2usenet.Usenet.{
  Usenet, set_conn, update, take_out, discard_connection, add_connection, add_connections,
}
use post2usenet.Usenet.Events.{reconnect}
use post2usenet.Usenet.Lists.{tally, tally-append, tally-take_out}
use post2usenet.Usenet.Split.{Keeps-IsSplit, add_connection-IsSplit}
use post2usenet.Pool.Busy.{IsBusy, talking}
use post2usenet.Pool.Sound.{Fits, Sound, Safe, safe, release-Sound}
use post2usenet.Pool.Hands.{same-Sound}
use post2usenet.Pool.Queues.{take_out-there}

module _ (algo : StringAlgorithms) (heap : Heap) where
  discarded-Sound :
      (u : Usenet) (it : ℕ) (c : Connection) (busy' : List ℕ)
      → Sound algo heap (some (it, c)) u
      → IsIdle c
      → take_out it u.busy ≡ ok busy'
      → Sound algo heap none (record u { busy = busy' })
  unfolding tally
  discarded-Sound u it c busy' sound idle out =
      let is : u.conns it ≡ c = sound.holding.1 in
      record {
        split =
            Keeps-IsSplit u _
              (record {
                held = λ j. let taken = tally-take_out it j u.busy busy' out in omega arith;
                next = refl;
              })
              sound.split;
        fits = λ j made any.
            let taken = tally-take_out it j u.busy busy' out in
            elim (Bool-cases (j == it)) [
              | inl same ↦
                  let e : j ≡ it = ground arith in
                  record {
                    at_rest = λ r. absurd (ground (arith, sound.split.once j, r));
                    at_work = λ b. absurd (ground (arith, sound.split.once j, b));
                    given_up = λ z. rw (e, is) idle;
                  }
              | inr differs ↦
                  let in_busy : tally j u.busy ≡ tally j busy' = ground arith in
                  subst (λ b. Fits algo heap (u.conns j) (tally j u.ready) b) in_busy
                    (sound.fits j made (λ e. ground arith))
            ];
        holding = tt;
      }

  reconnected-IsBusy :
      (shutdown_ok : Bool) (c : Connection)
      → IsIdle c
      → IsBusy algo heap (async_connect (close shutdown_ok c))
  unfolding async_connect close kind
  reconnected-IsBusy shutdown_ok c idle =
      talking (task run_connect) (λ k. cc) (λ k. cc)
        (record { no_op = ground (arith, idle.no_op); task = ground (arith, idle.no_task) })
        (record {
          connect = λ k. absurd (ground (arith, idle.no_task));
          stat = λ m r k. absurd (ground (arith, idle.no_task));
        })

  made-IsBusy :
      (conninfo : ConnectionInfo) (timeout : ℤ)
      → IsBusy algo heap (async_connect (make_connection conninfo timeout))
  unfolding async_connect make_connection kind
  made-IsBusy conninfo timeout =
      talking (task run_connect) (λ k. cc) (λ k. cc) (record { no_op = refl; task = refl })
        (record { connect = λ k. absurd (cc); stat = λ m r k. absurd (cc) })

  add_connection-Sound :
      (u : Usenet) (conninfo : ConnectionInfo)
      → Sound algo heap none u
      → Sound algo heap none (add_connection u conninfo)
  unfolding add_connection set_conn update tally
  add_connection-Sound u conninfo sound = record {
    split = add_connection-IsSplit u conninfo sound.split;
    fits = λ j made any.
        let added = tally-append j u.busy (u.next_conn ∷ []) in
        elim (Bool-cases (j == u.next_conn)) [
          | inl same ↦
              let e : j ≡ u.next_conn = ground arith in
              rw same (record {
                at_rest = λ r. absurd (ground (arith, sound.split.fresh j (omega arith), r));
                at_work = λ b. made-IsBusy conninfo u.optimeout;
                given_up = λ z. absurd (ground (arith, z, added));
              })
          | inr differs ↦
              let in_busy : tally j u.busy ≡ tally j (u.busy ++ u.next_conn ∷ []) = ground arith in
              rw differs (
                subst (λ b. Fits algo heap (u.conns j) (tally j u.ready) b) in_busy
                  (sound.fits j (ground arith) tt))
        ];
    holding = tt;
  }

  -- A connection that is given up leaves m_busy.
  pub discard_connection-Safe :
      (u : Usenet) (it : ℕ) (c : Connection)
      → Sound algo heap (some (it, c)) u
      → IsIdle c
      → Safe algo heap none (discard_connection u it)
  unfolding discard_connection
  discard_connection-Safe u it c sound idle =
      let (busy', out) = take_out-there it u.busy sound.holding.0 in
      let left = record u { busy = busy' } in
      let gone = discarded-Sound u it c busy' sound idle out in
      rw out (elim (Bool-cases (length busy' == 0 && length u.ready == 0)) [
        | inl last ↦
            safe (record left { work = false }) (ground arith)
              (same-Sound algo heap none left _ refl refl refl refl gone)
        | inr others ↦ safe left (ground arith) gone
      ])

  -- A connection is closed and connects again.
  pub reconnect-Sound :
      (shutdown_ok : Bool) (u : Usenet) (it : ℕ) (c : Connection)
      → Sound algo heap (some (it, c)) u
      → IsIdle c
      → Sound algo heap none (reconnect shutdown_ok u it)
  unfolding reconnect
  reconnect-Sound shutdown_ok u it c sound idle =
      let is : u.conns it ≡ c = sound.holding.1 in
      release-Sound algo heap u it c (async_connect (close shutdown_ok (u.conns it))) sound
        (rw is (reconnected-IsBusy shutdown_ok c idle))

  pub add_connections-Sound :
      (u : Usenet) (conninfo : ConnectionInfo) (n : ℕ)
      → Sound algo heap none u
      → Sound algo heap none (add_connections u conninfo n)
  unfolding add_connections
  add_connections-Sound u conninfo zero sound = sound
  add_connections-Sound u conninfo (suc n) sound =
      add_connections-Sound (add_connection u conninfo) conninfo n
        (add_connection-Sound u conninfo sound)
