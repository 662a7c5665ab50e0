-- ===== src/Usenet/Acts.antt =====
-- The steps of nntp/usenet.cc with what each of them accepts, and what they do to the queue and to the
-- commands that have been started.
use post2usenet.Common.{
  ℕ, zero, suc, Bool, false, List, [], ◌∷◌, ◌++◌, ◌≡◌, inl, inr, refl, sym, ap, ◌∙◌, arith, Bytes,
  Option, List-cases,
}
use post2usenet.Common.Result.{Result, ok, >>=-ok}
use post2usenet.ConnectionInfo.{ConnectionInfo}
use post2usenet.Connection.{StatResult, connection_error}
use post2usenet.Usenet.{
  Usenet, Command, start_post, start_stat, Fault, done, set_conn, run_command, enqueue,
  enqueue_post, enqueue_stat, finish_wait, on_conn_becomes_ready, dispatch_or_queue,
  discard_connection, add_connection, add_connections, dispatch, park, shut_down, disconnect,
  disconnect_all, take_out,
}
use post2usenet.Usenet.Events.{on_stat_finished, reconnect}
use post2usenet.Usenet.Ready.{run_command-SameLists, dispatch-queue, park-queue}

-- A step that ends well, with the commands that it accepts. dispatch_or_queue is only called for the
-- end of the queue.
pub data Acts (u u' : Usenet) (new : List Command) : Type 0 where
  posted :
      (msg : ℕ) (bypass : Bool)
      → enqueue_post u msg bypass ≡ ok (done u')
      → new ≡ start_post msg ∷ []
      → Acts u u' new
  asked :
      (msgid : Bytes)
      → enqueue_stat u msgid ≡ ok (done u')
      → new ≡ start_stat msgid ∷ []
      → Acts u u' new
  waited : (cmd : Command) → finish_wait u cmd ≡ done u' → new ≡ cmd ∷ [] → Acts u u' new
  retried :
      (slot : Option (Bytes × StatResult → Usenet → Result Fault Usenet)) (shutdown_ok : Bool)
      (conn : ℕ) (msgid : Bytes)
      → on_stat_finished slot shutdown_ok u conn msgid connection_error ≡ ok u'
      → new ≡ start_stat msgid ∷ []
      → Acts u u' new
  put_back :
      (cmd : Command) → dispatch_or_queue u cmd false ≡ ok u' → new ≡ cmd ∷ [] → Acts u u' new
  became_ready : (it : ℕ) → on_conn_becomes_ready u it ≡ ok u' → new ≡ [] → Acts u u' new
  discarded : (it : ℕ) → discard_connection u it ≡ ok u' → new ≡ [] → Acts u u' new
  reconnected :
      (shutdown_ok : Bool) (it : ℕ) → reconnect shutdown_ok u it ≡ u' → new ≡ [] → Acts u u' new
  added :
      (conninfo : ConnectionInfo) (n : ℕ)
      → add_connections u conninfo n ≡ u'
      → new ≡ []
      → Acts u u' new

-- What a step does: nothing, or it puts a command behind the queue, starts the first of the queue, or
-- starts what it accepts on a connection that is ready.
pub data Effect (u u' : Usenet) (new : List Command) : Type 0 where
  quiet : new ≡ [] → u'.queue ≡ u.queue → u'.started ≡ u.started → Effect u u' new
  queued :
      (cmd : Command)
      → new ≡ cmd ∷ []
      → u'.queue ≡ u.queue ++ cmd ∷ []
      → u'.started ≡ u.started
      → Effect u u' new
  served :
      (it : ℕ) (cmd : Command)
      → new ≡ []
      → u.queue ≡ cmd ∷ u'.queue
      → u'.started ≡ u.started ++ (it, cmd) ∷ []
      → Effect u u' new
  at_once :
      (it : ℕ) (cmd : Command) (rest : List ℕ)
      → u.ready ≡ it ∷ rest
      → new ≡ cmd ∷ []
      → u'.queue ≡ u.queue
      → u'.started ≡ u.started ++ (it, cmd) ∷ []
      → Effect u u' new

run_command-started :
    (u u' : Usenet) (it : ℕ) (cmd : Command)
    → run_command u it cmd ≡ ok u'
    → u'.started ≡ u.started ++ (it, cmd) ∷ []
unfolding run_command set_conn
run_command-started u u' it (start_post msg) e = ground arith
run_command-started u u' it (start_stat msgid) e = ground arith

dispatch-at_once :
    (u u' : Usenet) (it : ℕ) (rest : List ℕ) (cmd : Command)
    → u.ready ≡ it ∷ rest
    → dispatch u it rest cmd ≡ ok u'
    → Effect u u' (cmd ∷ [])
unfolding dispatch
dispatch-at_once u u' it rest cmd at e =
    at_once it cmd rest at refl (dispatch-queue u u' it rest cmd e)
      (run_command-started (record u { ready = rest; busy = it ∷ u.busy }) u' it cmd e)

disconnect-started : (u u' : Usenet) (it : ℕ) → disconnect u it ≡ ok u' → u'.started ≡ u.started
unfolding disconnect set_conn
disconnect-started u u' it e = ground arith

disconnect_all-started :
    (u u' : Usenet) (its : List ℕ) → disconnect_all u its ≡ ok u' → u'.started ≡ u.started
unfolding disconnect_all
disconnect_all-started u u' [] e = ground arith
disconnect_all-started u u' (it ∷ rest) e =
    let (u1, at_it, at_rest) = >>=-ok (disconnect u it) (λ x. disconnect_all x rest) u' e in
    disconnect_all-started u1 u' rest at_rest ∙ disconnect-started u u1 it at_it

shut_down-started : (u u' : Usenet) (it : ℕ) → shut_down u it ≡ ok u' → u'.started ≡ u.started
unfolding shut_down
shut_down-started u u' it e =
    let (u1, gone, e1) = >>=-ok (disconnect u it) _ u' e in
    let (busy', _, e2) = >>=-ok (take_out it u1.busy) _ u' e1 in
    disconnect_all-started (record u1 { busy = busy' }) u' u1.ready e2
    ∙ disconnect-started u u1 it gone

park-started : (u u' : Usenet) (it : ℕ) → park u it ≡ ok u' → u'.started ≡ u.started
unfolding park
park-started u u' it e =
    let (busy', _, parks) = >>=-ok (take_out it u.busy) _ u' e in
    let shuts = shut_down-started (record u { ready = u.ready ++ it ∷ []; busy = busy' }) u' it in
    ground arith

enqueue-Effect :
    (u u' : Usenet) (cmd : Command) (bypass : Bool)
    → enqueue u cmd bypass ≡ ok (done u')
    → Effect u u' (cmd ∷ [])
unfolding enqueue
enqueue-Effect u u' cmd bypass e = elim (List-cases u.ready) [
  | inl none_ready ↦ queued cmd refl (ground arith) (ground arith)
  | inr (it, rest, is_ready) ↦ dispatch-at_once u u' it rest cmd is_ready (ground arith)
]

dispatch_or_queue-Effect :
    (u u' : Usenet) (cmd : Command) → dispatch_or_queue u cmd false ≡ ok u' → Effect u u' (cmd ∷ [])
unfolding dispatch_or_queue
dispatch_or_queue-Effect u u' cmd e = elim (List-cases u.ready) [
  | inl none_ready ↦ queued cmd refl (ground arith) (ground arith)
  | inr (it, rest, is_ready) ↦ dispatch-at_once u u' it rest cmd is_ready (ground arith)
]

-- A connection that becomes ready is given the first command of the queue, if there is one.
pub on_conn_becomes_ready-serves :
    (u u' : Usenet) (it : ℕ) (cmd : Command) (rest : List Command)
    → u.queue ≡ cmd ∷ rest
    → on_conn_becomes_ready u it ≡ ok u'
    → (u'.queue ≡ rest) × (u'.started ≡ u.started ++ (it, cmd) ∷ [])
unfolding on_conn_becomes_ready
on_conn_becomes_ready-serves u u' it cmd rest queue e =
    let left = record u { queue = rest } in
    let run : run_command left it cmd ≡ ok u' = ground arith in
    ((run_command-SameLists left u' it cmd run).queue, run_command-started left u' it cmd run)

on_conn_becomes_ready-Effect :
    (u u' : Usenet) (it : ℕ) → on_conn_becomes_ready u it ≡ ok u' → Effect u u' []
unfolding on_conn_becomes_ready
on_conn_becomes_ready-Effect u u' it e = elim (List-cases u.queue) [
  | inl none_queued ↦
      let parks : park u it ≡ ok u' = ground arith in
      quiet refl (park-queue u u' it parks) (park-started u u' it parks)
  | inr (cmd, rest, queue) ↦
      let (left, starts) = on_conn_becomes_ready-serves u u' it cmd rest queue e in
      served it cmd refl (queue ∙ ap (λ cs. cmd ∷ cs) (sym left)) starts
]

add_connections-quiet :
    (u : Usenet) (conninfo : ConnectionInfo) (n : ℕ)
    → ((add_connections u conninfo n).queue ≡ u.queue)
      × ((add_connections u conninfo n).started ≡ u.started)
unfolding add_connections add_connection set_conn
add_connections-quiet u conninfo zero = (refl, refl)
add_connections-quiet u conninfo (suc n) =
    add_connections-quiet (add_connection u conninfo) conninfo n

discard_connection-Effect :
    (u u' : Usenet) (it : ℕ) → discard_connection u it ≡ ok u' → Effect u u' []
unfolding discard_connection
discard_connection-Effect u u' it e =
    let (busy', _, rest) = >>=-ok (take_out it u.busy) _ u' e in
    quiet refl (ground arith) (ground arith)

pub Acts-Effect : (u u' : Usenet) (new : List Command) → Acts u u' new → Effect u u' new
unfolding enqueue_post enqueue_stat finish_wait on_stat_finished reconnect set_conn
Acts-Effect u u' new (posted msg bypass e n) = rw n (enqueue-Effect u u' (start_post msg) bypass e)
Acts-Effect u u' new (asked msgid e n) = rw n (enqueue-Effect u u' (start_stat msgid) false e)
Acts-Effect u u' new (waited cmd e n) = rw n (queued cmd refl (ground arith) (ground arith))
Acts-Effect u u' new (retried slot b conn msgid e n) =
    rw n (queued (start_stat msgid) refl (ground arith) (ground arith))
Acts-Effect u u' new (put_back cmd e n) = rw n (dispatch_or_queue-Effect u u' cmd e)
Acts-Effect u u' new (became_ready it e n) = rw n (on_conn_becomes_ready-Effect u u' it e)
Acts-Effect u u' new (discarded it e n) = rw n (discard_connection-Effect u u' it e)
Acts-Effect u u' new (reconnected b it e n) = quiet n (ground arith) (ground arith)
Acts-Effect u u' new (added conninfo k e n) =
    let (q, s) = add_connections-quiet u conninfo k in
    quiet n (ap (λ (v : Usenet). v.queue) (sym e) ∙ q) (ap (λ (v : Usenet). v.started) (sym e) ∙ s)
