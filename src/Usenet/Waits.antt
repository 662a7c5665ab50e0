-- ===== src/Usenet/Waits.antt =====
-- The two steps of nntp/usenet.cc that add to the queue without a look at m_ready, and the end of the
-- pool.
use post2usenet.Common.{
  ℕ, Bool, true, false, List, [], ◌∷◌, ◌++◌, ◌≡◌, ◌≢◌, refl, arith, Bytes, Option, some, All,
  All-append,
}
use post2usenet.Common.Result.{Result, ok, err}
use post2usenet.Connection.{
  Connection, async_graceful_disconnect, async_post, async_stat, post_task, run_stat,
  connection_error, StatResult, connected_and_authenticated,
}
use post2usenet.Usenet.{
  Usenet, start_post, start_stat, Fault, foreign_iterator, done, waits, enqueue, enqueue_post,
  enqueue_stat, dispatch, run_command, start_async_post, start_async_stat, finish_wait,
  on_conn_becomes_ready, park, shut_down, disconnect, set_conn, take_out,
}
use post2usenet.Usenet.Events.{on_stat_finished, reconnect}

take_out-Lacks :
    (it : ℕ) (xs : List ℕ) → All (λ x. x ≢ it) xs → take_out it xs ≡ err foreign_iterator
unfolding take_out
take_out-Lacks it [] lacks = refl
take_out-Lacks it (x ∷ xs) (other, lacks) = let rest = take_out-Lacks it xs lacks in ground arith

take_out-middle :
    (it : ℕ) (before after : List ℕ)
    → All (λ x. x ≢ it) before
    → take_out it (before ++ it ∷ after) ≡ ok (before ++ after)
unfolding take_out
take_out-middle it [] after lacks = ground arith
take_out-middle it (x ∷ before) after (other, lacks) =
    let rest = take_out-middle it before after lacks in ground arith

-- A pool with no ready connection and a full queue of one post. The producer of a second post waits;
-- the busy connection becomes ready and takes the first post, becomes ready again and, as the queue is
-- empty, is parked; then the producer goes on. All of this happens, and it ends with the second post in
-- the queue while that connection is ready and has not been given it.
pub finish_wait-ready :
    (u : Usenet) (it first msg : ℕ) (others : List ℕ)
    → u.work ≡ true
    → u.ready ≡ []
    → u.busy ≡ it ∷ others
    → u.maxsize ≡ 1
    → u.queue ≡ start_post first ∷ []
    → (u1 : Usenet) × (u2 : Usenet) × (u3 : Usenet) × (enqueue_post u msg false
        ≡ ok (waits (start_post msg)))
      × (on_conn_becomes_ready u it ≡ ok u1)
      × (on_conn_becomes_ready u1 it ≡ ok u2)
      × (finish_wait u2 (start_post msg) ≡ done u3)
      × (u3.queue ≡ start_post msg ∷ [])
      × (u3.ready ≡ it ∷ [])
      × (u3.started ≡ u.started ++ (it, start_post first) ∷ [])
unfolding enqueue_post enqueue on_conn_becomes_ready run_command start_async_post set_conn park
    finish_wait
finish_wait-ready u it first msg others works none_ready is_busy small full =
    let noted = record u { queue = []; started = u.started ++ (it, start_post first) ∷ [] } in
    let u1 = set_conn noted it (async_post (u.conns it) first).0 in
    let u2 = record u1 { ready = u1.ready ++ it ∷ []; busy = others } in
    let u3 = record u2 { queue = u2.queue ++ start_post msg ∷ [] } in
    let out : take_out it u.busy ≡ ok others = rw is_busy (take_out-middle it [] others tt) in
    (
      u1,
      u2,
      u3,
      ground arith,
      ground arith,
      ground arith,
      ground arith,
      refl,
      rw none_ready refl,
      refl,
    )

-- A stat that is asked for while two connections or more are ready, and nothing is queued, is given to
-- the first of them, which is authenticated. If that connection reports a connection error, the stat is
-- put in the queue, to be done again, while the other connections are still ready, and none of them has
-- been given it.
pub on_stat_finished-ready :
    (slot : Option (Bytes × StatResult → Usenet → Result Fault Usenet)) (shutdown_ok : Bool)
    (u : Usenet) (it next : ℕ) (rest : List ℕ) (msgid : Bytes)
    → u.ready ≡ it ∷ next ∷ rest
    → u.queue ≡ []
    → (u.conns it).state ≡ connected_and_authenticated
    → (u1 : Usenet) × (u2 : Usenet) × (enqueue_stat u msgid ≡ ok (done u1))
      × (on_stat_finished slot shutdown_ok u1 it msgid connection_error ≡ ok u2)
      × (u2.queue ≡ start_stat msgid ∷ [])
      × (u2.ready ≡ next ∷ rest)
      × (u2.started ≡ u.started ++ (it, start_stat msgid) ∷ [])
unfolding enqueue_stat enqueue dispatch run_command start_async_stat set_conn on_stat_finished
    reconnect async_stat
on_stat_finished-ready slot shutdown_ok u it next rest msgid are_ready none_queued authenticated =
    let taken = record u {
      ready = next ∷ rest;
      busy = it ∷ u.busy;
      started = u.started ++ (it, start_stat msgid) ∷ [];
    } in
    let u1 = set_conn taken it (post_task (record (u.conns it) { msgid = msgid }) run_stat) in
    let u2 = reconnect shutdown_ok (record u1 { queue = u1.queue ++ start_stat msgid ∷ [] }) it in
    (u1, u2, ground arith, refl, rw none_queued refl, refl, refl)

-- When a pool that is to stop parks a connection, and the queue is empty, the iterator of that
-- connection is erased through m_busy, which no longer holds it: the code then does what is undefined.
-- The connection is once in m_busy, and is in a state that async_graceful_disconnect allows.
pub on_conn_becomes_ready-stopped :
    (u : Usenet) (it : ℕ) (before after : List ℕ) (c : Connection)
    → u.work ≡ false
    → u.queue ≡ []
    → u.busy ≡ before ++ it ∷ after
    → All (λ x. x ≢ it) before
    → All (λ x. x ≢ it) after
    → async_graceful_disconnect (u.conns it) ≡ some c
    → on_conn_becomes_ready u it ≡ err foreign_iterator
unfolding on_conn_becomes_ready park shut_down disconnect set_conn
on_conn_becomes_ready-stopped u it before after c stopped no_queue is_busy none_before none_after
      says =
    let once = take_out-middle it before after none_before in
    let twice =
      take_out-Lacks it (before ++ after)
        (All-append (λ x. x ≢ it) before after none_before none_after) in
    ground arith
