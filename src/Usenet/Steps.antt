-- ===== src/Usenet/Steps.antt =====
-- The whole of nntp/usenet.cc as steps: what the pool does in any order of its threads.
use mathlib.Core.Path.{subst}
use post2usenet.Common.{ℕ, Bool, false, [], ◌∷◌, ◌++◌, ◌≡◌, refl, arith, Bytes, Option}
use post2usenet.Common.Result.{Result, ok, ◌>>=◌, >>=-ok}
use post2usenet.ConnectionInfo.{ConnectionInfo}
use post2usenet.Connection.{
  close, ConnectResult, fatal_connect_error, invalid_credentials, connect_success, PostResult,
  post_success, posting_not_permitted, post_failure, post_failure_connection_error, StatResult,
  article_exists, invalid_article, connection_error,
}
use post2usenet.Usenet.{
  Usenet, Command, start_post, start_stat, Fault, done, set_conn, enqueue_post, enqueue_stat,
  finish_wait, on_conn_becomes_ready, discard_connection, add_connections, stop, start,
}
use post2usenet.Usenet.Events.{
  call_slot, on_connected, on_stat_finished, on_post_finished, reconnect,
}
use post2usenet.Usenet.Lists.{Keeps, Keeps-trans, Keeps-same}
use post2usenet.Usenet.Split.{
  IsSplit, Keeps-IsSplit, enqueue-Keeps, finish_wait-Keeps, on_conn_becomes_ready-Keeps,
  dispatch_or_queue-Keeps, discard_connection-Keeps, add_connections-IsSplit,
}

-- A slot of the client that leaves the lists split when it ends.
abbrev pub SlotKeeps {ℓ} : {A : Type ℓ} → Option (A → Usenet → Result Fault Usenet) → Type ℓ
SlotKeeps {A = A} slot =
    (a : A) (u u' : Usenet) → call_slot slot a u ≡ ok u' → IsSplit u → IsSplit u'

-- Every function of the pool that changes its state and ends well, whichever thread runs it.
pub data Step (stat_slot : Option (Bytes × StatResult → Usenet → Result Fault Usenet))
    (finish_slot failed_slot : Option (ℕ → Usenet → Result Fault Usenet)) (u u' : Usenet)
    : Type 0 where
  posted :
      (msg : ℕ) (bypass : Bool)
      → enqueue_post u msg bypass ≡ ok (done u')
      → Step stat_slot finish_slot failed_slot u u'
  asked :
      (msgid : Bytes)
      → enqueue_stat u msgid ≡ ok (done u')
      → Step stat_slot finish_slot failed_slot u u'
  waited :
      (cmd : Command) → finish_wait u cmd ≡ done u' → Step stat_slot finish_slot failed_slot u u'
  added :
      (conninfo : ConnectionInfo) (n : ℕ)
      → add_connections u conninfo n ≡ u'
      → Step stat_slot finish_slot failed_slot u u'
  connected :
      (it : ℕ) (result : ConnectResult)
      → on_connected u it result ≡ ok u'
      → Step stat_slot finish_slot failed_slot u u'
  stat_finished :
      (shutdown_ok : Bool) (it : ℕ) (msgid : Bytes) (result : StatResult)
      → on_stat_finished stat_slot shutdown_ok u it msgid result ≡ ok u'
      → Step stat_slot finish_slot failed_slot u u'
  post_finished :
      (shutdown_ok : Bool) (it msg : ℕ) (result : PostResult)
      → on_post_finished finish_slot failed_slot shutdown_ok u it msg result ≡ ok u'
      → Step stat_slot finish_slot failed_slot u u'
  stopped : stop u ≡ u' → Step stat_slot finish_slot failed_slot u u'
  started : start u ≡ u' → Step stat_slot finish_slot failed_slot u u'

reconnect-Keeps : (shutdown_ok : Bool) (u : Usenet) (it : ℕ) → Keeps u (reconnect shutdown_ok u it)
unfolding reconnect set_conn
reconnect-Keeps shutdown_ok u it = Keeps-same u _ refl refl refl

on_connected-IsSplit :
    (u u' : Usenet) (it : ℕ) (result : ConnectResult)
    → on_connected u it result ≡ ok u'
    → IsSplit u
    → IsSplit u'
unfolding on_connected
on_connected-IsSplit u u' it fatal_connect_error e =
    Keeps-IsSplit u u' (discard_connection-Keeps u u' it e)
on_connected-IsSplit u u' it invalid_credentials e =
    Keeps-IsSplit u u' (discard_connection-Keeps u u' it e)
on_connected-IsSplit u u' it connect_success e =
    Keeps-IsSplit u u' (on_conn_becomes_ready-Keeps u u' it e)

-- The connection is ready for the next command, and then the client is told.
ready_then-IsSplit :
    {A : Type 0} (slot : Option (A → Usenet → Result Fault Usenet)) (a : A) (u u' : Usenet) (it : ℕ)
    → SlotKeeps slot
    → (on_conn_becomes_ready u it >>= λ v. call_slot slot a v) ≡ ok u'
    → IsSplit u
    → IsSplit u'
ready_then-IsSplit slot a u u' it keeps e split =
    let (v, becomes, tells) = >>=-ok (on_conn_becomes_ready u it) (λ v. call_slot slot a v) u' e in
    keeps a v u' tells (Keeps-IsSplit u v (on_conn_becomes_ready-Keeps u v it becomes) split)

on_stat_finished-IsSplit :
    (slot : Option (Bytes × StatResult → Usenet → Result Fault Usenet)) (shutdown_ok : Bool)
    (u u' : Usenet) (it : ℕ) (msgid : Bytes) (result : StatResult)
    → SlotKeeps slot
    → on_stat_finished slot shutdown_ok u it msgid result ≡ ok u'
    → IsSplit u
    → IsSplit u'
unfolding on_stat_finished reconnect set_conn
on_stat_finished-IsSplit slot b u u' it msgid connection_error keeps e =
    let left = record u { queue = u.queue ++ start_stat msgid ∷ [] } in
    Keeps-IsSplit u u' (
      Keeps-trans u left u' (Keeps-same u left refl refl refl)
        (Keeps-same left u' (ground arith) (ground arith) (ground arith)))
on_stat_finished-IsSplit slot b u u' it msgid article_exists keeps e =
    ready_then-IsSplit slot (msgid, article_exists) u u' it keeps e
on_stat_finished-IsSplit slot b u u' it msgid invalid_article keeps e =
    ready_then-IsSplit slot (msgid, invalid_article) u u' it keeps e

on_post_finished-IsSplit :
    (finish_slot failed_slot : Option (ℕ → Usenet → Result Fault Usenet)) (shutdown_ok : Bool)
    (u u' : Usenet) (it msg : ℕ) (result : PostResult)
    → SlotKeeps finish_slot
    → SlotKeeps failed_slot
    → on_post_finished finish_slot failed_slot shutdown_ok u it msg result ≡ ok u'
    → IsSplit u
    → IsSplit u'
unfolding on_post_finished set_conn
on_post_finished-IsSplit finish_slot failed_slot b u u' it msg post_success keeps keeps' e split =
    ready_then-IsSplit finish_slot msg u u' it keeps e split
on_post_finished-IsSplit finish_slot failed_slot b u u' it msg posting_not_permitted keeps keeps' e
      split =
    let closed = set_conn u it (close b (u.conns it)) in
    let (v, discards, queues) = >>=-ok (discard_connection closed it) _ u' e in
    Keeps-IsSplit u u'
      (Keeps-trans u closed u' (Keeps-same u closed refl refl refl) (
        Keeps-trans closed v u' (discard_connection-Keeps closed v it discards)
          (dispatch_or_queue-Keeps v u' (start_post msg) false queues)))
      split
on_post_finished-IsSplit finish_slot failed_slot b u u' it msg post_failure keeps keeps' e split =
    let (v, tells, becomes) = >>=-ok (call_slot failed_slot msg u) _ u' e in
    Keeps-IsSplit v u' (on_conn_becomes_ready-Keeps v u' it becomes) (keeps' msg u v tells split)
on_post_finished-IsSplit finish_slot failed_slot b u u' it msg post_failure_connection_error keeps
      keeps' e split =
    keeps' msg (reconnect b u it) u' e (Keeps-IsSplit u _ (reconnect-Keeps b u it) split)

-- Every step of the pool that ends well keeps each connection in at most one of m_ready and m_busy,
-- once, and no number that has not been given out in either, provided that the slots of the client do.
pub Step-IsSplit :
    (stat_slot : Option (Bytes × StatResult → Usenet → Result Fault Usenet))
    (finish_slot failed_slot : Option (ℕ → Usenet → Result Fault Usenet)) (u u' : Usenet)
    → SlotKeeps stat_slot
    → SlotKeeps finish_slot
    → SlotKeeps failed_slot
    → Step stat_slot finish_slot failed_slot u u'
    → IsSplit u
    → IsSplit u'
unfolding enqueue_post enqueue_stat stop start
Step-IsSplit ss fs ds u u' hs hf hd (posted msg bypass e) =
    Keeps-IsSplit u u' (enqueue-Keeps u u' _ bypass e)
Step-IsSplit ss fs ds u u' hs hf hd (asked msgid e) =
    Keeps-IsSplit u u' (enqueue-Keeps u u' _ false e)
Step-IsSplit ss fs ds u u' hs hf hd (waited cmd e) =
    Keeps-IsSplit u u' (finish_wait-Keeps u u' cmd e)
Step-IsSplit ss fs ds u u' hs hf hd (added conninfo n e) =
    λ split. subst (λ v. IsSplit v) e (add_connections-IsSplit u conninfo n split)
Step-IsSplit ss fs ds u u' hs hf hd (connected it result e) = on_connected-IsSplit u u' it result e
Step-IsSplit ss fs ds u u' hs hf hd (stat_finished b it msgid result e) =
    on_stat_finished-IsSplit ss b u u' it msgid result hs e
Step-IsSplit ss fs ds u u' hs hf hd (post_finished b it msg result e) =
    on_post_finished-IsSplit fs ds b u u' it msg result hf hd e
Step-IsSplit ss fs ds u u' hs hf hd (stopped e) = λ split.
    subst (λ v. IsSplit v) e (Keeps-IsSplit u _ (Keeps-same u (stop u) refl refl refl) split)
Step-IsSplit ss fs ds u u' hs hf hd (started e) = λ split.
    subst (λ v. IsSplit v) e (Keeps-IsSplit u _ (Keeps-same u (start u) refl refl refl) split)
