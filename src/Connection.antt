-- ===== src/Connection.antt =====
-- nntp/connection.hpp, nntp/connection.cc and util/asio_helpers.hpp. A callback that the program
-- leaves with boost::asio is a value of Op or Task, and the function that the callback runs is a case
-- of `completed_write`, `completed_read` and the functions beside them in Complete.
pub mod Complete
pub mod Timer
pub mod Posting
pub mod Posted
pub mod Dialogue
pub mod Step
pub mod Progress
pub mod Answers
pub mod Ending
pub mod Sent
use post2usenet.Common.{
  ℕ, Bool, true, false, not, List, [], ◌∷◌, ◌++◌, Bytes, codes, put, Option, none, some, take, drop,
  ◌==◌, if◌then◌else◌,
}
use post2usenet.Common.Int.{ℤ, lt_one}
use post2usenet.Boost.{StringAlgorithms}
use post2usenet.ConnectionInfo.{ConnectionInfo}
use post2usenet.Message.{Article, write_to, write_payload_asio_buffers}

pub data PostResult : Type 0 where
  post_success posting_not_permitted post_failure post_failure_connection_error : PostResult

pub data ConnectResult : Type 0 where
  fatal_connect_error invalid_credentials connect_success : ConnectResult

pub data StatResult : Type 0 where
  article_exists invalid_article connection_error : StatResult

pub data State : Type 0 where
  disconnected connecting connecting_authenticating connected_and_authenticated busy : State

-- The lambda that write, or read_line, has been given.
pub data Writer : Type 0 where
  username_cmd password_cmd post_cmd article_text stat_cmd quit_cmd : Writer

pub data Reader : Type 0 where
  greeting username_reply password_reply post_reply article_reply stat_reply : Reader

-- An asynchronous operation that has been started and has not completed.
pub data Op : Type 0 where
  resolving opening handshaking : Op
  writing : Writer → Op
  reading : Reader → Op

-- What has been posted to the io_service. A shared_ptr to an article is its address.
pub data Task : Type 0 where
  run_connect run_post run_stat : Task
  tell_connect : ConnectResult → Task
  tell_post : Option ℕ → PostResult → Task
  tell_stat : Bytes → StatResult → Task

pub record Connection : Type 0 where
  pub conninfo : ConnectionInfo
  pub state : State
  pub sslstream : Bool
  pub readbuf : Bytes
  -- m_sock has been opened, and not closed since.
  pub socket_open : Bool
  -- m_timer has been set and has neither been cancelled nor fired.
  pub timer : Bool
  pub timeout : ℤ
  pub article : Option ℕ
  pub msgid : Bytes
  -- Started operations and posted tasks, and every text handed to async_write.
  pub pending : List Op
  pub posted : List Task
  pub sent : List Bytes

unfoldable pub make_connection : ConnectionInfo → ℤ → Connection
make_connection conn timeout = record {
  conninfo = conn;
  state = disconnected;
  sslstream = conn.tls;
  readbuf = [];
  socket_open = false;
  timer = false;
  timeout = timeout;
  article = none;
  msgid = [];
  pending = [];
  posted = [];
  sent = [];
}

-- A new expiry time cancels the wait for the old one.
unfoldable pub timeout_next_async_operation : Connection → Connection
timeout_next_async_operation c = if lt_one c.timeout then c else record c { timer = true }

unfoldable pub cancel_timer : Connection → Connection
cancel_timer c = record c { timer = false }

unfoldable pub start_op : Connection → Op → Connection
start_op c op = record c { pending = c.pending ++ op ∷ [] }

unfoldable pub post_task : Connection → Task → Connection
post_task c task = record c { posted = c.posted ++ task ∷ [] }

unfoldable pub write : Connection → List Bytes → Writer → Connection
unfolding start_op timeout_next_async_operation
write c buffers handler =
    let timed = timeout_next_async_operation c in
    start_op (record timed { sent = timed.sent ++ put buffers ∷ [] }) (writing handler)

unfoldable pub read_line : Connection → Reader → Connection
unfolding start_op timeout_next_async_operation
read_line c handler = start_op (timeout_next_async_operation c) (reading handler)

unfoldable pub connect_handler_callback : Connection → ConnectResult → Connection
unfolding post_task
connect_handler_callback c result = post_task c (tell_connect result)

unfoldable pub post_handler_callback : Connection → PostResult → Connection
unfolding post_task
post_handler_callback c result =
    let told =
      post_task (record c { state = connected_and_authenticated }) (tell_post c.article result) in
    record told { article = none }

pub stat_handler_callback : Connection → StatResult → Connection
unfolding post_task
stat_handler_callback c result =
    let told =
      post_task (record c { state = connected_and_authenticated }) (tell_stat c.msgid result) in
    record told { msgid = [] }

pub send_authinfo_username : Connection → Connection
unfolding write
send_authinfo_username c =
    write c (codes "AUTHINFO USER " ∷ c.conninfo.username ∷ codes "\r\n" ∷ []) username_cmd

pub send_authinfo_password : Connection → Connection
unfolding write
send_authinfo_password c =
    write c (codes "AUTHINFO PASS " ∷ c.conninfo.password ∷ codes "\r\n" ∷ []) password_cmd

-- `line[0]`; of an empty std::string it is NUL.
abbrev pub first_byte : Bytes → ℕ
first_byte [] = 0
first_byte (c ∷ line) = c

unfoldable pub check_authinfo_result : Connection → Bytes → Connection
unfolding connect_handler_callback
check_authinfo_result c line =
    if first_byte line == b'2'
    then connect_handler_callback (record c { state = connected_and_authenticated }) connect_success
    else connect_handler_callback c invalid_credentials

pub do_authenticate : Connection → Connection
unfolding read_line
do_authenticate c = read_line c greeting

unfoldable pub do_connect : Connection → Connection
unfolding start_op
do_connect c = start_op (record c { state = connecting }) resolving

unfoldable pub do_post : Connection → Connection
unfolding write
do_post c = write (record c { state = busy }) (codes "POST\r\n" ∷ []) post_cmd

pub do_stat : Connection → Connection
unfolding write
do_stat c = write (record c { state = busy }) (codes "STAT " ∷ c.msgid ∷ codes "\r\n" ∷ []) stat_cmd

-- The articles that shared pointers lead to.
abbrev pub Heap : Type 0
Heap = ℕ → Article

-- What send_article hands to async_write.
unfoldable pub send_parts : StringAlgorithms → Article → List Bytes
send_parts algo a =
    write_to algo a.header ∷ codes "\r\n" ∷ (write_payload_asio_buffers a ++ codes "\r\n.\r\n" ∷ [])

-- `none`: m_article is null and is dereferenced.
unfoldable pub send_article : StringAlgorithms → Heap → Connection → Option Connection
unfolding write send_parts
send_article algo heap c = elim c.article [
  | none ↦ none
  | some a ↦ some (write c (send_parts algo (heap a)) article_text)
]

-- shutdown() may throw, and then m_sock.close() is not reached.
unfoldable pub close : Bool → Connection → Connection
close shutdown_ok c = elim c.state [
  | disconnected ↦ c
  | _ ↦ record c {
    socket_open = (if shutdown_ok then false else c.socket_open);
    readbuf = [];
    state = disconnected;
  }
]

unfoldable pub async_connect : Connection → Connection
unfolding post_task
async_connect c = elim c.state [ disconnected ↦ post_task c run_connect | _ ↦ c ]

unfoldable pub async_post : Connection → ℕ → Connection × Bool
unfolding post_task
async_post c message = elim c.state [
  | connected_and_authenticated ↦ (post_task (record c { article = some message }) run_post, true)
  | _ ↦ (c, false)
]

-- `none`: the assertion fails, here and in async_graceful_disconnect.
unfoldable pub async_stat : Connection → Bytes → Option Connection
unfolding post_task
async_stat c mid = elim c.state [
  | connected_and_authenticated ↦ some (post_task (record c { msgid = mid }) run_stat)
  | _ ↦ none
]

unfoldable pub async_graceful_disconnect : Connection → Option Connection
unfolding write
async_graceful_disconnect c = elim c.state [
  | connected_and_authenticated ↦
      some (write (record c { state = busy }) (codes "QUIT\r\n" ∷ []) quit_cmd)
  | _ ↦ none
]
