-- ===== src/Connection/Complete.antt =====
-- The callbacks of nntp/connection.cc: what runs when an asynchronous operation completes, when the
-- timer fires, and when a posted task is run. `ok` says that there was no error.
use post2usenet.Common.{
  ℕ, Bool, true, false, not, List, [], ◌∷◌, Bytes, codes, Option, none, some, take, drop, ◌==◌,
  if◌then◌else◌,
}
use post2usenet.Boost.{StringAlgorithms}
use post2usenet.Connection.{
  Connection, Heap, opening, handshaking, Writer, username_cmd, password_cmd, post_cmd,
  article_text, stat_cmd, quit_cmd, Reader, greeting, username_reply, password_reply, post_reply,
  article_reply, stat_reply, Task, run_connect, run_post, run_stat, tell_connect, tell_post,
  tell_stat, fatal_connect_error, post_success, posting_not_permitted, post_failure,
  post_failure_connection_error, article_exists, invalid_article, connection_error,
  timeout_next_async_operation, cancel_timer, start_op, read_line, connect_handler_callback,
  post_handler_callback, stat_handler_callback, send_authinfo_username, send_authinfo_password,
  check_authinfo_result, do_authenticate, do_connect, do_post, do_stat, send_article, close,
  first_byte,
}

-- The completion of async_resolve, async_connect and async_handshake; `ok` is that there is no error.
unfoldable pub completed_resolve : Bool → Connection → Connection
unfolding connect_handler_callback timeout_next_async_operation start_op
completed_resolve ok c =
    if ok
    then start_op (timeout_next_async_operation (record c { socket_open = true })) opening
    else connect_handler_callback c fatal_connect_error

unfoldable pub completed_handshake : Bool → Connection → Connection
unfolding connect_handler_callback do_authenticate cancel_timer
completed_handshake ok c =
    if ok then do_authenticate (cancel_timer c) else connect_handler_callback c fatal_connect_error

unfoldable pub completed_connect : Bool → Connection → Connection
unfolding connect_handler_callback do_authenticate cancel_timer timeout_next_async_operation
    start_op
completed_connect ok c =
    if ok
    then (if c.sslstream
        then start_op (timeout_next_async_operation (cancel_timer c)) handshaking
        else do_authenticate (cancel_timer c))
    else connect_handler_callback c fatal_connect_error

-- The lambdas of write: first the timer is cancelled, whether there is an error or not.
unfoldable pub on_written : Bool → Bool → Writer → Connection → Connection
unfolding connect_handler_callback post_handler_callback stat_handler_callback read_line close
on_written shutdown_ok ok username_cmd c =
    if ok then read_line c username_reply else connect_handler_callback c fatal_connect_error
on_written shutdown_ok ok password_cmd c =
    if ok then read_line c password_reply else connect_handler_callback c fatal_connect_error
on_written shutdown_ok ok post_cmd c =
    if ok then read_line c post_reply else post_handler_callback c post_failure_connection_error
on_written shutdown_ok ok article_text c =
    if ok then read_line c article_reply else post_handler_callback c post_failure_connection_error
on_written shutdown_ok ok stat_cmd c =
    if ok then read_line c stat_reply else stat_handler_callback c connection_error
on_written shutdown_ok ok quit_cmd c = close shutdown_ok c

unfoldable pub completed_write : Bool → Bool → Writer → Connection → Connection
unfolding on_written cancel_timer
completed_write shutdown_ok ok handler c = on_written shutdown_ok ok handler (cancel_timer c)

-- The lambdas of read_line, given an error,
unfoldable pub on_read_error : Reader → Connection → Connection
unfolding connect_handler_callback post_handler_callback stat_handler_callback
on_read_error greeting c = connect_handler_callback c fatal_connect_error
on_read_error username_reply c = connect_handler_callback c fatal_connect_error
on_read_error password_reply c = connect_handler_callback c fatal_connect_error
on_read_error post_reply c = post_handler_callback c post_failure_connection_error
on_read_error article_reply c = post_handler_callback c post_failure_connection_error
on_read_error stat_reply c = stat_handler_callback c connection_error

-- and given a line.
unfoldable pub on_line : StringAlgorithms → Heap → Reader → Bytes → Connection → Option Connection
unfolding connect_handler_callback post_handler_callback stat_handler_callback
    send_authinfo_username send_authinfo_password check_authinfo_result send_article
on_line algo heap greeting line c =
    if not (first_byte line == b'2')
    then some (connect_handler_callback c fatal_connect_error)
    else some (send_authinfo_username c)
on_line algo heap username_reply line c =
    if algo.starts_with line (codes "381")
    then some (send_authinfo_password c)
    else some (check_authinfo_result c line)
on_line algo heap password_reply line c = some (check_authinfo_result c line)
on_line algo heap post_reply line c =
    if first_byte line == b'4'
    then some (post_handler_callback c posting_not_permitted)
    else send_article algo heap c
on_line algo heap article_reply line c =
    if first_byte line == b'2'
    then some (post_handler_callback c post_success)
    else some (post_handler_callback c post_failure)
on_line algo heap stat_reply line c =
    if first_byte line == b'2'
    then some (stat_handler_callback c article_exists)
    else some (stat_handler_callback c invalid_article)

-- What async_read_until hands over: an error, or the buffer and the number of bytes up to the line end.
-- The timer is cancelled only where there is no error.
unfoldable pub completed_read :
    StringAlgorithms → Heap → Reader → Option (Bytes × ℕ) → Connection → Option Connection
unfolding on_read_error on_line cancel_timer
completed_read algo heap handler none c = some (on_read_error handler c)
completed_read algo heap handler (some (buffer, bytes_read)) c =
    on_line algo heap handler (take bytes_read buffer)
      (cancel_timer (record c { readbuf = drop bytes_read buffer }))

-- The lambda of m_timer; `none`: m_sock.cancel() throws, since the socket is not open.
unfoldable pub fire_timer : Connection → Option Connection
fire_timer c = if c.socket_open then some (record c { timer = false }) else none

-- A posted task is run: the connection behind it, and what the owner's handlers are told.
unfoldable pub run_task : Connection → Task → Connection × List Task
unfolding do_connect do_post do_stat
run_task c run_connect = (do_connect c, [])
run_task c run_post = (do_post c, [])
run_task c run_stat = (do_stat c, [])
run_task c (tell_connect result) = (c, tell_connect result ∷ [])
run_task c (tell_post article result) = (c, tell_post article result ∷ [])
run_task c (tell_stat msgid result) = (c, tell_stat msgid result ∷ [])
