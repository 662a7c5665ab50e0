-- ===== src/Tests/Usenet.antt =====
-- The theorems on nntp/usenet.cc at a pool of two connections.
use mathlib.Core.Path.{subst}
use post2usenet.Common.{true, false, [], ◌∷◌, ◌≡◌, inr, refl, arith, codes, none}
use post2usenet.Common.Int.{pos}
use post2usenet.Common.Result.{Result, ok, err}
use post2usenet.Connection.{
  Connection, make_connection, connected_and_authenticated, connect_success,
  async_graceful_disconnect, connection_error,
}
use post2usenet.Usenet.{
  Usenet, make_usenet, start_post, start_stat, Fault, foreign_iterator, done, waits, enqueue_post,
  enqueue_stat, finish_wait, on_conn_becomes_ready,
}
use post2usenet.Usenet.Events.{on_stat_finished, on_connected}
use post2usenet.Usenet.Ready.{IsAlert, became_ready, Locked-IsAlert}
use post2usenet.Usenet.Waits.{
  finish_wait-ready, on_stat_finished-ready, on_conn_becomes_ready-stopped,
}
use post2usenet.Usenet.Lists.{tally}
use post2usenet.Usenet.Split.{IsSplit}
use post2usenet.Usenet.Steps.{connected, SlotKeeps, Step-IsSplit}
use post2usenet.Tests.Data.{news_server}

abbrev idle : Connection
idle = record (make_connection news_server (pos 5)) { state = connected_and_authenticated }

-- Connection 0 is ready, connection 1 is busy, and one command at most may wait.
abbrev pub two : Usenet
two = record (make_usenet (λ j. idle) 1 1) {
  work = true;
  ready = 0 ∷ [];
  busy = 1 ∷ [];
  next_conn = 2;
}

abbrev both_ready : Usenet
both_ready = record two { ready = 0 ∷ 1 ∷ []; busy = [] }

becomes : on_conn_becomes_ready two 1 ≡ ok both_ready
unfolding on_conn_becomes_ready make_usenet
becomes = refl

two-IsAlert : IsAlert two
unfolding make_usenet
two-IsAlert = inr refl

Locked-IsAlert_example : IsAlert both_ready
Locked-IsAlert_example = Locked-IsAlert two both_ready (became_ready 1 becomes) two-IsAlert

-- Connection 1 is busy, and the queue is full.
abbrev full : Usenet
full = record two { ready = []; queue = start_post 3 ∷ [] }

finish_wait-ready_example :
    (u1 : Usenet) × (u2 : Usenet) × (u3 : Usenet) × (enqueue_post full 7 false
      ≡ ok (waits (start_post 7)))
    × (on_conn_becomes_ready full 1 ≡ ok u1)
    × (on_conn_becomes_ready u1 1 ≡ ok u2)
    × (finish_wait u2 (start_post 7) ≡ done u3)
    × (u3.queue ≡ start_post 7 ∷ [])
    × (u3.ready ≡ 1 ∷ [])
    × (u3.started ≡ (1, start_post 3) ∷ [])
unfolding make_usenet
finish_wait-ready_example = finish_wait-ready full 1 3 7 [] refl refl refl refl refl

on_stat_finished-ready_example :
    (u1 : Usenet) × (u2 : Usenet) × (enqueue_stat both_ready (codes "<1@a>") ≡ ok (done u1))
    × (on_stat_finished none true u1 0 (codes "<1@a>") connection_error ≡ ok u2)
    × (u2.queue ≡ start_stat (codes "<1@a>") ∷ [])
    × (u2.ready ≡ 1 ∷ [])
    × (u2.started ≡ (0, start_stat (codes "<1@a>")) ∷ [])
unfolding make_usenet
on_stat_finished-ready_example =
    on_stat_finished-ready none true both_ready 0 1 [] (codes "<1@a>") refl refl refl

-- The pool is to stop.
abbrev stopping : Usenet
stopping = record two { work = false }

on_conn_becomes_ready-stopped_example : on_conn_becomes_ready stopping 1 ≡ err foreign_iterator
unfolding make_usenet async_graceful_disconnect make_connection
on_conn_becomes_ready-stopped_example =
    on_conn_becomes_ready-stopped stopping 1 [] [] _ refl refl refl tt tt refl

two-IsSplit : IsSplit two
unfolding make_usenet tally
two-IsSplit = record { once = λ it. ground arith; fresh = λ it high. ground arith }

ok_inj : (u u' : Usenet) → ◌≡◌ {A = Result Fault Usenet} (ok u) (ok u') → u ≡ u'
ok_inj u u' e = cc

none-SlotKeeps : {A : Type 0} → SlotKeeps {A = A} none
none-SlotKeeps a u u' e split = subst (λ v. IsSplit v) (ok_inj u u' e) split

Step-IsSplit_example : IsSplit both_ready
unfolding on_connected
Step-IsSplit_example =
    Step-IsSplit none none none two both_ready none-SlotKeeps none-SlotKeeps none-SlotKeeps
      (connected 1 connect_success becomes) two-IsSplit
