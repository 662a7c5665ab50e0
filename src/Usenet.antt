-- ===== src/Usenet.antt =====
-- nntp/usenet.hpp and nntp/usenet.cc. A function that holds m_bfm is one step on the state below. An
-- iterator into m_ready or m_busy, and the connection behind it, is the number of the connection.
-- The threads of the pool are the order in which steps happen.
pub mod Ready
pub mod Events
pub mod Waits
pub mod Lists
pub mod Split
pub mod Steps
pub mod Acts
pub mod Order
pub mod Kept
use post2usenet.Common.{
  ℕ, zero, suc, ◌+◌, Bool, true, false, not, ◌&&◌, List, [], ◌∷◌, ◌++◌, Bytes, Option, none, some,
  length, ◌==◌, ltb, leb, if◌then◌else◌,
}
use post2usenet.Common.Int.{ℤ, pos}
use post2usenet.Common.Result.{Result, ok, err, ◌>>=◌}
use post2usenet.ConnectionInfo.{ConnectionInfo}
use post2usenet.Connection.{
  Connection, make_connection, async_connect, async_post, async_stat, async_graceful_disconnect,
}

-- queued_command: a bound start_async_post, with the address of its article, or start_async_stat.
pub data Command : Type 0 where
  start_post : ℕ → Command
  start_stat : Bytes → Command

-- What a step may run into: an iterator that is not in the list that it is taken from, which is
-- undefined behaviour, an assertion of the connection, and the exception of a timer that expires when
-- the socket is closed, which nothing catches in the thread of the io_service.
pub data Fault : Type 0 where
  foreign_iterator assertion_failed timer_throws : Fault

pub record Usenet : Type 0 where
  -- m_work is set.
  pub work : Bool
  pub ready : List ℕ
  pub busy : List ℕ
  pub maxsize : ℕ
  pub queue : List Command
  pub numthreads : ℕ
  pub optimeout : ℤ
  -- The connections that have been made, by number, and the next number.
  pub conns : ℕ → Connection
  pub next_conn : ℕ
  -- No state of the program: the commands that have been run, in order, each with its connection.
  pub started : List (ℕ × Command)

unfoldable pub make_usenet : (ℕ → Connection) → ℕ → ℕ → Usenet
make_usenet unmade iothreads max_queue_size = record {
  work = false;
  ready = [];
  busy = [];
  maxsize = max_queue_size;
  queue = [];
  numthreads = iothreads;
  optimeout = pos 0;
  conns = unmade;
  next_conn = 0;
  started = [];
}

unfoldable pub set_operation_timeout : Usenet → ℤ → Usenet
set_operation_timeout u seconds = record u { optimeout = seconds }

-- The connection with one number is replaced.
unfoldable pub update : (ℕ → Connection) → ℕ → Connection → ℕ → Connection
update conns it c j = if j == it then c else conns j

unfoldable pub set_conn : Usenet → ℕ → Connection → Usenet
unfolding update
set_conn u it c = record u { conns = update u.conns it c }

-- An iterator is taken out of a list, by splice or by erase.
unfoldable pub take_out : ℕ → List ℕ → Result Fault (List ℕ)
take_out it [] = err foreign_iterator
take_out it (x ∷ xs) =
    let more = take_out it xs >>= λ rest. ok (x ∷ rest) in if x == it then ok xs else more

-- The result of async_post is not looked at.
unfoldable pub start_async_post : Usenet → ℕ → ℕ → Usenet
unfolding set_conn
start_async_post u conn msg = set_conn u conn (async_post (u.conns conn) msg).0

unfoldable pub start_async_stat : Usenet → ℕ → Bytes → Result Fault Usenet
unfolding set_conn
start_async_stat u conn msgid = elim (async_stat (u.conns conn) msgid) [
  | none ↦ err assertion_failed
  | some c ↦ ok (set_conn u conn c)
]

-- The command is called with the connection.
unfoldable pub run_command : Usenet → ℕ → Command → Result Fault Usenet
unfolding start_async_post start_async_stat
run_command u conn cmd =
    let u' = record u { started = u.started ++ (conn, cmd) ∷ [] } in
    elim cmd [
      | start_post msg ↦ ok (start_async_post u' conn msg)
      | start_stat msgid ↦ start_async_stat u' conn msgid
    ]

-- A call that may wait for m_queuecv either is done or waits; what waits goes on in `finish_wait`.
pub data Enqueued : Type 0 where
  done : Usenet → Enqueued
  waits : Command → Enqueued

-- The first ready connection is moved to the front of m_busy and is given the command.
unfoldable pub dispatch : Usenet → ℕ → List ℕ → Command → Result Fault Usenet
unfolding run_command
dispatch u it rest cmd = run_command (record u { ready = rest; busy = it ∷ u.busy }) it cmd

-- enqueue_stat and enqueue_post are the same but for the command and the way round the wait.
unfoldable pub enqueue : Usenet → Command → Bool → Result Fault Enqueued
unfolding dispatch
enqueue u cmd bypass_wait = elim u.ready [
  | it ∷ rest ↦ dispatch u it rest cmd >>= λ u'. ok (done u')
  | [] ↦
      if not bypass_wait && (not (u.maxsize == 0) && leb u.maxsize (length u.queue))
      then ok (waits cmd)
      else ok (done (record u { queue = u.queue ++ cmd ∷ [] }))
]

unfoldable pub enqueue_post : Usenet → ℕ → Bool → Result Fault Enqueued
unfolding enqueue
enqueue_post u msg bypass_wait = enqueue u (start_post msg) bypass_wait

unfoldable pub enqueue_stat : Usenet → Bytes → Result Fault Enqueued
unfolding enqueue
enqueue_stat u msgid = enqueue u (start_stat msgid) false

-- The wait ends, with m_bfm held again, once the queue is below its limit: then the command is queued.
unfoldable pub finish_wait : Usenet → Command → Enqueued
finish_wait u cmd =
    if ltb (length u.queue) u.maxsize
    then done (record u { queue = u.queue ++ cmd ∷ [] })
    else waits cmd

-- async_graceful_disconnect of a connection that is then erased, and so no more used.
unfoldable pub disconnect : Usenet → ℕ → Result Fault Usenet
unfolding set_conn
disconnect u it = elim (async_graceful_disconnect (u.conns it)) [
  | none ↦ err assertion_failed
  | some c ↦ ok (set_conn u it c)
]

pub disconnect_all : Usenet → List ℕ → Result Fault Usenet
unfolding disconnect
disconnect_all u [] = ok (record u { ready = [] })
disconnect_all u (it ∷ rest) = disconnect u it >>= λ u'. disconnect_all u' rest

-- The connection that is to be no more is erased through m_busy, and the others through m_ready.
unfoldable pub shut_down : Usenet → ℕ → Result Fault Usenet
unfolding disconnect disconnect_all take_out
shut_down u connit = do
  u' ← disconnect u connit
  busy' ← take_out connit u'.busy
  disconnect_all (record u' { busy = busy' }) u'.ready

-- The connection goes from m_busy to the end of m_ready.
unfoldable pub park : Usenet → ℕ → Result Fault Usenet
unfolding shut_down take_out
park u connit = do
  busy' ← take_out connit u.busy
  let parked = record u { ready = u.ready ++ connit ∷ []; busy = busy' }
  if not u.work then shut_down parked connit else ok parked

unfoldable pub on_conn_becomes_ready : Usenet → ℕ → Result Fault Usenet
unfolding run_command park
on_conn_becomes_ready u connit = elim u.queue [
  | next_command ∷ rest ↦ run_command (record u { queue = rest }) connit next_command
  | [] ↦ park u connit
]

unfoldable pub dispatch_or_queue : Usenet → Command → Bool → Result Fault Usenet
unfolding dispatch
dispatch_or_queue u cmd front = elim u.ready [
  | it ∷ rest ↦ dispatch u it rest cmd
  | [] ↦
      if front
      then ok (record u { queue = cmd ∷ u.queue })
      else ok (record u { queue = u.queue ++ cmd ∷ [] })
]

unfoldable pub discard_connection : Usenet → ℕ → Result Fault Usenet
unfolding take_out
discard_connection u conn = do
  busy' ← take_out conn u.busy
  let left = record u { busy = busy' }
  ok (if length busy' == 0 && length u.ready == 0 then record left { work = false } else left)

unfoldable pub stop : Usenet → Usenet
stop u = record u { work = false }

unfoldable pub start : Usenet → Usenet
start u = record u { work = true }

unfoldable pub get_queue_size : Usenet → ℕ
get_queue_size u = length u.queue

-- One turn of the loop of add_connections.
unfoldable pub add_connection : Usenet → ConnectionInfo → Usenet
unfolding set_conn
add_connection u conninfo =
    let it = u.next_conn in
    let made = set_conn u it (async_connect (make_connection conninfo u.optimeout)) in
    record made { busy = u.busy ++ it ∷ []; next_conn = it + 1 }

unfoldable pub add_connections : Usenet → ConnectionInfo → ℕ → Usenet
unfolding add_connection
add_connections u conninfo zero = u
add_connections u conninfo (suc n) = add_connections (add_connection u conninfo) conninfo n
