-- ===== src/Usenet/Ready.antt =====
-- The steps of nntp/usenet.cc against the comment on m_bfm in nntp/usenet.hpp, by which no work is to
-- wait while a connection is ready.
use mathlib.Core.Path.{subst}
use post2usenet.ConnectionInfo.{ConnectionInfo}
use post2usenet.Common.{
  zero, suc, ℕ, Bool, false, List, [], ◌∷◌, ◌++◌, ◌≡◌, ◌⊎◌, inl, inr, ◌∙◌, arith, Bytes, List-cases,
}
use post2usenet.Common.Result.{ok, >>=-ok}
use post2usenet.Usenet.{
  Usenet, Command, start_post, start_stat, done, set_conn, run_command, enqueue, enqueue_post,
  enqueue_stat, on_conn_becomes_ready, dispatch_or_queue, discard_connection, dispatch, park,
  shut_down, disconnect, disconnect_all, take_out, add_connection, add_connections,
}

-- There is no ready connection, or the queue is empty.
abbrev pub IsAlert : Usenet → Type 0
IsAlert u = (u.ready ≡ []) ⊎ (u.queue ≡ [])

-- A command that is run leaves the lists and the queue alone.
pub record SameLists (u u' : Usenet) : Type 0 where
  pub ready : u'.ready ≡ u.ready
  pub busy : u'.busy ≡ u.busy
  pub queue : u'.queue ≡ u.queue
  pub work : u'.work ≡ u.work
  pub maxsize : u'.maxsize ≡ u.maxsize
  pub next_conn : u'.next_conn ≡ u.next_conn

pub run_command-SameLists :
    (u u' : Usenet) (it : ℕ) (cmd : Command) → run_command u it cmd ≡ ok u' → SameLists u u'
unfolding run_command
run_command-SameLists u u' it (start_post msg) e = ground arith
run_command-SameLists u u' it (start_stat msgid) e = ground arith

pub dispatch-queue :
    (u u' : Usenet) (it : ℕ) (rest : List ℕ) (cmd : Command)
    → dispatch u it rest cmd ≡ ok u'
    → u'.queue ≡ u.queue
unfolding dispatch
dispatch-queue u u' it rest cmd e =
    (run_command-SameLists (record u { ready = rest; busy = it ∷ u.busy }) u' it cmd e).queue

disconnect-queue : (u u' : Usenet) (it : ℕ) → disconnect u it ≡ ok u' → u'.queue ≡ u.queue
unfolding disconnect set_conn
disconnect-queue u u' it e = ground arith

disconnect_all-queue :
    (u u' : Usenet) (its : List ℕ) → disconnect_all u its ≡ ok u' → u'.queue ≡ u.queue
unfolding disconnect_all
disconnect_all-queue u u' [] e = ground arith
disconnect_all-queue u u' (it ∷ rest) e =
    let (u1, at_it, at_rest) = >>=-ok (disconnect u it) (λ x. disconnect_all x rest) u' e in
    disconnect_all-queue u1 u' rest at_rest ∙ disconnect-queue u u1 it at_it

shut_down-queue : (u u' : Usenet) (it : ℕ) → shut_down u it ≡ ok u' → u'.queue ≡ u.queue
unfolding shut_down
shut_down-queue u u' it e =
    let (u1, gone, e1) = >>=-ok (disconnect u it) _ u' e in
    let (busy', _, e2) = >>=-ok (take_out it u1.busy) _ u' e1 in
    disconnect_all-queue (record u1 { busy = busy' }) u' u1.ready e2 ∙ disconnect-queue u u1 it gone

pub park-queue : (u u' : Usenet) (it : ℕ) → park u it ≡ ok u' → u'.queue ≡ u.queue
unfolding park
park-queue u u' it e =
    let (busy', _, parks) = >>=-ok (take_out it u.busy) _ u' e in
    let parked = record u { ready = u.ready ++ it ∷ []; busy = busy' } in
    let shuts = shut_down-queue parked u' it in ground arith

-- With a connection that is ready, nothing is queued.
pub nothing_queued :
    (u : Usenet) (it : ℕ) (rest : List ℕ) → IsAlert u → u.ready ≡ it ∷ rest → u.queue ≡ []
nothing_queued u it rest (inl none_ready) e = ground arith
nothing_queued u it rest (inr none_queued) e = none_queued

enqueue-IsAlert :
    (u u' : Usenet) (cmd : Command) (bypass : Bool)
    → IsAlert u
    → enqueue u cmd bypass ≡ ok (done u')
    → IsAlert u'
unfolding enqueue
enqueue-IsAlert u u' cmd bypass alert e = elim (List-cases u.ready) [
  | inl none_ready ↦ ground arith
  | inr (it, rest, is_ready) ↦
      let queued = nothing_queued u it rest alert is_ready in
      let keeps = dispatch-queue u u' it rest cmd in ground arith
]

-- The steps that hold m_bfm and end well, but for the two that queue without a look at m_ready.
pub data Locked (u u' : Usenet) : Type 0 where
  posted : (msg : ℕ) (bypass : Bool) → enqueue_post u msg bypass ≡ ok (done u') → Locked u u'
  asked : (msgid : Bytes) → enqueue_stat u msgid ≡ ok (done u') → Locked u u'
  became_ready : (it : ℕ) → on_conn_becomes_ready u it ≡ ok u' → Locked u u'
  put_back : (cmd : Command) (front : Bool) → dispatch_or_queue u cmd front ≡ ok u' → Locked u u'
  discarded : (it : ℕ) → discard_connection u it ≡ ok u' → Locked u u'
  added : (conninfo : ConnectionInfo) (n : ℕ) → add_connections u conninfo n ≡ u' → Locked u u'

on_conn_becomes_ready-IsAlert :
    (u u' : Usenet) (it : ℕ) → IsAlert u → on_conn_becomes_ready u it ≡ ok u' → IsAlert u'
unfolding on_conn_becomes_ready
on_conn_becomes_ready-IsAlert u u' it alert e = elim (List-cases u.queue) [
  | inl none_queued ↦ let keeps = park-queue u u' it in ground arith
  | inr (cmd, rest, queued) ↦
      let keeps = run_command-SameLists (record u { queue = rest }) u' it cmd in ground arith
]

dispatch_or_queue-IsAlert :
    (u u' : Usenet) (cmd : Command) (front : Bool)
    → IsAlert u
    → dispatch_or_queue u cmd front ≡ ok u'
    → IsAlert u'
unfolding dispatch_or_queue
dispatch_or_queue-IsAlert u u' cmd front alert e = elim (List-cases u.ready) [
  | inl none_ready ↦ ground arith
  | inr (it, rest, is_ready) ↦
      let queued = nothing_queued u it rest alert is_ready in
      let keeps = dispatch-queue u u' it rest cmd in ground arith
]

discard_connection-IsAlert :
    (u u' : Usenet) (it : ℕ) → IsAlert u → discard_connection u it ≡ ok u' → IsAlert u'
unfolding discard_connection
discard_connection-IsAlert u u' it alert e =
    let (busy', _, rest) = >>=-ok (take_out it u.busy) _ u' e in ground arith

add_connections-IsAlert :
    (u : Usenet) (conninfo : ConnectionInfo) (n : ℕ)
    → IsAlert u
    → IsAlert (add_connections u conninfo n)
unfolding add_connections add_connection set_conn
add_connections-IsAlert u conninfo zero alert = alert
add_connections-IsAlert u conninfo (suc n) alert =
    add_connections-IsAlert (add_connection u conninfo) conninfo n alert

-- There is no ready connection, or the queue is empty: each function of the pool that holds m_bfm and
-- ends well keeps this, but for the end of a wait and the retry of a stat.
pub Locked-IsAlert : (u u' : Usenet) → Locked u u' → IsAlert u → IsAlert u'
unfolding enqueue_post enqueue_stat
Locked-IsAlert u u' (posted msg bypass e) alert =
    enqueue-IsAlert u u' (start_post msg) bypass alert e
Locked-IsAlert u u' (asked msgid e) alert = enqueue-IsAlert u u' (start_stat msgid) false alert e
Locked-IsAlert u u' (became_ready it e) alert = on_conn_becomes_ready-IsAlert u u' it alert e
Locked-IsAlert u u' (put_back cmd front e) alert = dispatch_or_queue-IsAlert u u' cmd front alert e
Locked-IsAlert u u' (discarded it e) alert = discard_connection-IsAlert u u' it alert e
Locked-IsAlert u u' (added conninfo n e) alert =
    subst (λ v. IsAlert v) e (add_connections-IsAlert u conninfo n alert)
