-- ===== src/DummyServer/Threads.antt =====
-- main of misc/dummy_usenet/dummy_server.cc and the threads that it starts: each connection that is
-- accepted has a thread of its own, and the threads read their lines in any order. Setting up the port
-- and the certificate succeeds.
pub mod Alone
use post2usenet.Common.{
  ℕ, zero, suc, ◌+◌, ◌<◌, ◌%◌, ◌^◌, Bool, true, false, not, List, [], ◌∷◌, ◌++◌, length, get_elem?,
  set, ◌≡◌, ◌≢◌, inl, inr, refl, sym, ap, ◌∙◌, arith, Bytes, Option, none, some, ◌==◌,
  if◌then◌else◌, Bool-cases, length-append,
}
use post2usenet.Common.Decimal.{stoul}
use post2usenet.Boost.{StringAlgorithms}
use post2usenet.DummyServer.{
  Stage, terminated, Session, new_session, shake_hands, read_lines, on_request, on_requests,
  usenet_session,
}

-- How main begins: it prints the usage and returns 1, it ends by an exception of std::stoul, or it
-- listens on a port.
pub data Startup : Type 0 where
  shows_usage conversion_fails : Startup
  listens : ℕ → Startup

unfoldable pub main_of : List Bytes → Startup
main_of (name ∷ port ∷ more) = elim (stoul port) [
  | none ↦ conversion_fails
  | some number ↦ listens (number % 2 ^ 16)
]
main_of _ = shows_usage

-- The sessions, in the order in which their connections have been accepted, until std::terminate ends
-- the process.
pub record Server : Type 0 where
  pub sessions : List Session
  pub running : Bool

-- A connection is accepted, and its handshake ends well or not; or a session reads a line.
pub data Event : Type 0 where
  accepts : Bool → Event
  hears : ℕ → Bytes → Event

unfoldable pub is_terminated : Stage → Bool
is_terminated terminated = true
is_terminated _ = false

unfoldable pub on_event : StringAlgorithms → Server → Event → Server
unfolding is_terminated shake_hands
on_event algo server (accepts ok) =
    if server.running
    then record server { sessions = server.sessions ++ shake_hands ok new_session ∷ [] }
    else server
on_event algo server (hears k line) = elim (get_elem? server.sessions k) [
  | none ↦ server
  | some s ↦
      let s' = on_request algo s line in
      if server.running
      then record { sessions = set server.sessions k s'; running = not (is_terminated s'.stage) }
      else server
]

unfoldable pub on_events : StringAlgorithms → Server → List Event → Server
unfolding on_event
on_events algo server [] = server
on_events algo server (e ∷ es) = on_events algo (on_event algo server e) es

-- Before the first connection.
abbrev pub no_sessions : Server
no_sessions = record { sessions = []; running = true }

-- How many connections have been accepted, and the lines that one session reads.
abbrev pub connections : List Event → ℕ
connections [] = 0
connections (accepts ok ∷ es) = suc (connections es)
connections (hears k line ∷ es) = connections es

abbrev pub lines_of : ℕ → List Event → List Bytes
lines_of k [] = []
lines_of k (accepts ok ∷ es) = lines_of k es
lines_of k (hears j line ∷ es) = if j == k then line ∷ lines_of k es else lines_of k es
