-- ===== src/Connection/Step.antt =====
-- The connection of nntp/connection.cc among its environment: a step relation. What is posted to the io_service may run in
-- any order, and of the started operations any may complete, with any outcome.
use post2usenet.Common.{ℕ, Bool, true, false, List, [], ◌∷◌, ◌++◌, ◌≡◌, Bytes, Option, some}
use post2usenet.Boost.{StringAlgorithms}
use post2usenet.Connection.{
  Connection, State, Heap, Op, resolving, opening, handshaking, writing, reading, Writer, Reader,
  Task, async_connect, async_post, async_stat, async_graceful_disconnect, close,
}
use post2usenet.Connection.Complete.{
  completed_resolve, completed_handshake, completed_connect, completed_write, completed_read,
  fire_timer, run_task,
}
use post2usenet.Connection.Dialogue.{Kind, connects, posts, stats}

-- async_connect takes a request only where the connection is disconnected.
abbrev pub connect_grant : Connection → List Kind
connect_grant c = elim c.state [ State.disconnected ↦ connects ∷ [] | _ ↦ [] ]

-- A step of the timer or of the owner, with what the owner is granted an answer to.
pub data Asks (c c' : Connection) (granted : List Kind) : Type 0 where
  fires : c.timer ≡ true → fire_timer c ≡ some c' → granted ≡ [] → Asks c c' granted
  connect : c' ≡ async_connect c → granted ≡ connect_grant c → Asks c c' granted
  post : (a : ℕ) → async_post c a ≡ (c', true) → granted ≡ posts ∷ [] → Asks c c' granted
  post_refused : (a : ℕ) → async_post c a ≡ (c', false) → granted ≡ [] → Asks c c' granted
  stat : (m : Bytes) → async_stat c m ≡ some c' → granted ≡ stats ∷ [] → Asks c c' granted
  quit : async_graceful_disconnect c ≡ some c' → granted ≡ [] → Asks c c' granted
  closes : (shutdown_ok : Bool) → c' ≡ close shutdown_ok c → granted ≡ [] → Asks c c' granted

module _ (algo : StringAlgorithms) (heap : Heap) where
  -- An operation completes; `c` is the connection without it.
  pub data Completes (o : Op) (c c' : Connection) : Type 0 where
    resolved : (ok : Bool) → o ≡ resolving → c' ≡ completed_resolve ok c → Completes o c c'
    opened : (ok : Bool) → o ≡ opening → c' ≡ completed_connect ok c → Completes o c c'
    handshaken : (ok : Bool) → o ≡ handshaking → c' ≡ completed_handshake ok c → Completes o c c'
    written :
        (shutdown_ok ok : Bool) (h : Writer)
        → o ≡ writing h
        → c' ≡ completed_write shutdown_ok ok h c
        → Completes o c c'
    got :
        (h : Reader) (outcome : Option (Bytes × ℕ))
        → o ≡ reading h
        → completed_read algo heap h outcome c ≡ some c'
        → Completes o c c'

  -- A step of the io_service, with what the owner is told.
  pub data Serves (c c' : Connection) (told : List Task) : Type 0 where
    completes :
        (before after : List Op) (o : Op)
        → c.pending ≡ before ++ o ∷ after
        → Completes o (record c { pending = before ++ after }) c'
        → told ≡ []
        → Serves c c' told
    runs :
        (before after : List Task) (t : Task)
        → c.posted ≡ before ++ t ∷ after
        → run_task (record c { posted = before ++ after }) t ≡ (c', told)
        → Serves c c' told

  -- A history, with what has been granted and told in it.
  pub data History (c : Connection) : Connection → List Kind → List Task → Type 0 where
    here : History c c [] []
    asked :
        {c' c'' : Connection} {granted more : List Kind} {told : List Task}
        → History c c' granted told
        → Asks c' c'' more
        → History c c'' (granted ++ more) told
    served :
        {c' c'' : Connection} {granted : List Kind} {told more : List Task}
        → History c c' granted told
        → Serves c' c'' more
        → History c c'' granted (told ++ more)
