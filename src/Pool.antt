-- ===== src/Pool.antt =====
-- nntp/usenet.cc over its connections, nntp/connection.cc: the functions of the pool, and the steps of
-- the connections that it has made, whose handlers it has set. One step is a call of a function of the
-- pool or a callback of the io_service, with the handler that it runs, from its beginning to its end; the
-- steps come in any order. What another thread does between two locks of m_bfm in one handler is not
-- modelled.
pub mod Says
pub mod Busy
pub mod Sound
pub mod Hands
pub mod Queues
pub mod Parks
pub mod Leaves
pub mod Safety
pub mod Runs
use post2usenet.Common.{
  ℕ, ◌<◌, Bool, true, false, List, [], ◌∷◌, ◌++◌, ◌≡◌, Bytes, Option, none, some,
}
use post2usenet.Common.Result.{Result, ok, err}
use post2usenet.Boost.{StringAlgorithms}
use post2usenet.ConnectionInfo.{ConnectionInfo}
use post2usenet.Connection.{
  Connection, Heap, Op, Reader, reading, Task, tell_connect, tell_post, tell_stat, StatResult,
}
use post2usenet.Connection.Complete.{fire_timer, completed_read}
use post2usenet.Connection.Step.{Serves}
use post2usenet.Usenet.{
  Usenet, Command, Fault, assertion_failed, timer_throws, Enqueued, done, waits, set_conn,
  enqueue_post, enqueue_stat, finish_wait, add_connections, stop, start,
}
use post2usenet.Usenet.Events.{on_connected, on_stat_finished, on_post_finished}

-- What a call of enqueue_post, enqueue_stat, or of the end of its wait, makes of the pool.
abbrev pub outcome : Usenet → Result Fault Enqueued → Result Fault Usenet
outcome u (ok (done u')) = ok u'
outcome u (ok (waits cmd)) = ok u
outcome u (err f) = err f

-- The slots that the client sets; finish_validate is neither set nor called.
pub record Slots : Type 0 where
  pub finish_stat : Option (Bytes × StatResult → Usenet → Result Fault Usenet)
  pub finish_post : Option (ℕ → Usenet → Result Fault Usenet)
  pub post_failed : Option (ℕ → Usenet → Result Fault Usenet)

unfoldable pub no_slots : Slots
no_slots = record { finish_stat = none; finish_post = none; post_failed = none }

unfoldable pub set_post_failed_callback : Slots → (ℕ → Usenet → Result Fault Usenet) → Slots
set_post_failed_callback slots func = record slots { post_failed = some func }

unfoldable pub set_post_finished_callback : Slots → (ℕ → Usenet → Result Fault Usenet) → Slots
set_post_finished_callback slots func = record slots { finish_post = some func }

unfoldable pub set_stat_finished_callback :
    Slots → (Bytes × StatResult → Usenet → Result Fault Usenet) → Slots
set_stat_finished_callback slots func = record slots { finish_stat = some func }

-- The handler of a connection is called with what the connection tells. A post that is told without an
-- article counts as a failed assertion, and so does what no handler is for.
unfoldable pub tell : Slots → Bool → Usenet → ℕ → Task → Result Fault Usenet
tell slots shutdown_ok u it (tell_connect r) = on_connected u it r
tell slots shutdown_ok u it (tell_post (some a) r) =
    on_post_finished slots.finish_post slots.post_failed shutdown_ok u it a r
tell slots shutdown_ok u it (tell_stat m r) =
    on_stat_finished slots.finish_stat shutdown_ok u it m r
tell slots shutdown_ok u it _ = err assertion_failed

module _ (algo : StringAlgorithms) (heap : Heap) (slots : Slots) where
  -- A step, with its result. A timer that expires when its socket is closed throws, and a read that is
  -- to send an article that is not there follows a null pointer, which counts as a failed assertion.
  pub data PoolStep (u : Usenet) (r : Result Fault Usenet) : Type 0 where
    serves :
        (it : ℕ) (c : Connection)
        → it < u.next_conn
        → Serves algo heap (u.conns it) c []
        → r ≡ ok (set_conn u it c)
        → PoolStep u r
    tells :
        (it : ℕ) (c : Connection) (shutdown_ok : Bool) (t : Task) (more : List Task)
        → it < u.next_conn
        → Serves algo heap (u.conns it) c (t ∷ more)
        → r ≡ tell slots shutdown_ok (set_conn u it c) it t
        → PoolStep u r
    fires :
        (it : ℕ) (c : Connection)
        → it < u.next_conn
        → fire_timer (u.conns it) ≡ some c
        → r ≡ ok (set_conn u it c)
        → PoolStep u r
    throws :
        (it : ℕ)
        → it < u.next_conn
        → (u.conns it).timer ≡ true
        → fire_timer (u.conns it) ≡ none
        → r ≡ err timer_throws
        → PoolStep u r
    reads_null :
        (it : ℕ) (before after : List Op) (h : Reader) (got : Option (Bytes × ℕ))
        → it < u.next_conn
        → (u.conns it).pending ≡ before ++ reading h ∷ after
        → completed_read algo heap h got (record (u.conns it) { pending = before ++ after }) ≡ none
        → r ≡ err assertion_failed
        → PoolStep u r
    posted : (msg : ℕ) (bypass : Bool) → r ≡ outcome u (enqueue_post u msg bypass) → PoolStep u r
    asked : (msgid : Bytes) → r ≡ outcome u (enqueue_stat u msgid) → PoolStep u r
    waited : (cmd : Command) → r ≡ outcome u (ok (finish_wait u cmd)) → PoolStep u r
    added :
        (conninfo : ConnectionInfo) (n : ℕ) → r ≡ ok (add_connections u conninfo n) → PoolStep u r
    stopped : r ≡ ok (stop u) → PoolStep u r
    started : r ≡ ok (start u) → PoolStep u r

  -- Steps from a pool, each from where the last has ended well, and the result of the last.
  pub data PoolRun (u : Usenet) : Result Fault Usenet → Type 0 where
    begin : PoolRun u (ok u)
    next : {v : Usenet} {r : Result Fault Usenet} → PoolRun u (ok v) → PoolStep v r → PoolRun u r
