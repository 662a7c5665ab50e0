-- ===== src/Usenet/Events.antt =====
-- What the handlers of nntp/usenet.cc do when a connection reports. The slots that the client of the
-- pool sets are arguments: a slot is given an article, or a message id, and the pool.
use post2usenet.Common.{ℕ, Bool, false, [], ◌∷◌, ◌++◌, Bytes, Option, none, some}
use post2usenet.Common.Result.{Result, ok, ◌>>=◌}
use post2usenet.Connection.{
  async_connect, close, ConnectResult, fatal_connect_error, invalid_credentials, connect_success,
  PostResult, post_success, posting_not_permitted, post_failure, post_failure_connection_error,
  StatResult, connection_error,
}
use post2usenet.Usenet.{
  Usenet, Fault, start_post, start_stat, set_conn, on_conn_becomes_ready, discard_connection,
  dispatch_or_queue,
}

-- A slot that the client has not set does nothing.
abbrev pub call_slot {ℓ} :
    {A : Type ℓ} → Option (A → Usenet → Result Fault Usenet) → A → Usenet → Result Fault Usenet
call_slot none a u = ok u
call_slot (some slot) a u = slot a u

unfoldable pub on_connected : Usenet → ℕ → ConnectResult → Result Fault Usenet
on_connected u connit fatal_connect_error = discard_connection u connit
on_connected u connit invalid_credentials = discard_connection u connit
on_connected u connit connect_success = on_conn_becomes_ready u connit

-- close(), then async_connect(); whether shutdown() throws is an argument.
unfoldable pub reconnect : Bool → Usenet → ℕ → Usenet
reconnect shutdown_ok u conn = set_conn u conn (async_connect (close shutdown_ok (u.conns conn)))

unfoldable pub on_stat_finished :
    Option (Bytes × StatResult → Usenet → Result Fault Usenet)
    → Bool
    → Usenet
    → ℕ
    → Bytes
    → StatResult
    → Result Fault Usenet
unfolding reconnect
on_stat_finished slot shutdown_ok u conn msgid connection_error =
    ok (reconnect shutdown_ok (record u { queue = u.queue ++ start_stat msgid ∷ [] }) conn)
on_stat_finished slot shutdown_ok u conn msgid result = do
  u' ← on_conn_becomes_ready u conn
  call_slot slot (msgid, result) u'

unfoldable pub on_post_finished :
    Option (ℕ → Usenet → Result Fault Usenet)
    → Option (ℕ → Usenet → Result Fault Usenet)
    → Bool
    → Usenet
    → ℕ
    → ℕ
    → PostResult
    → Result Fault Usenet
unfolding reconnect
on_post_finished finish_post post_failed shutdown_ok u connit msg posting_not_permitted = do
  let closed = set_conn u connit (close shutdown_ok (u.conns connit))
  u' ← discard_connection closed connit
  dispatch_or_queue u' (start_post msg) false
on_post_finished finish_post post_failed shutdown_ok u connit msg post_failure = do
  u' ← call_slot post_failed msg u
  on_conn_becomes_ready u' connit
on_post_finished finish_post post_failed shutdown_ok u connit msg post_failure_connection_error =
    call_slot post_failed msg (reconnect shutdown_ok u connit)
on_post_finished finish_post post_failed shutdown_ok u connit msg post_success = do
  u' ← on_conn_becomes_ready u connit
  call_slot finish_post msg u'
