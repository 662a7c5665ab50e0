-- ===== src/Talk/Login.antt =====
-- How a connection of nntp/connection.cc logs in to misc/dummy_usenet/dummy_server.cc: where it stands,
-- and how many steps are left.
pub mod Acting
pub mod Turns
pub mod Steps
pub mod Replies
pub mod Ends
pub mod Moves
pub mod Whole
use post2usenet.Common.{
  ℕ, zero, suc, ◌+◌, List, [], ◌∷◌, ◌++◌, ◌≡◌, Bytes, codes, Bool, true, false, if◌then◌else◌,
}
use post2usenet.Connection.{
  Connection, resolving, opening, handshaking, reading, Writer, Reader, greeting, username_cmd,
  username_reply, password_cmd, password_reply, Task, run_connect, tell_connect, connect_success,
  connected_and_authenticated,
}
use post2usenet.Connection.Posting.{OneOp, OneTask, IsIdle}
use post2usenet.DummyServer.{
  Stage, wants_handshake, wants_user, wants_pass, wants_command, server_welcome, server_auth,
  server_auth_success,
}
use post2usenet.DummyServer.Lines.{ended}
use post2usenet.Talk.{Talk}
use post2usenet.Talk.Phase.{Exchange, Stands, Rests}

-- A line is on its way to the server, or the reply to it on its way back.
pub data Asks (t : Talk) (at next : Stage) (line reply : Bytes) : ℕ → Type 0 where
  unread :
      Stands t.server at []
      → t.to_server ≡ ended line
      → t.to_client ≡ []
      → Asks t at next line reply 1
  replied :
      Stands t.server next [] → t.to_server ≡ [] → t.to_client ≡ reply → Asks t at next line reply 0

-- The server waits for the handshake of a client that has sent nothing yet.
pub record Accepts (t : Talk) : Type 0 where
  pub stands : Stands t.server wants_handshake []
  pub to_server : t.to_server ≡ []
  pub to_client : t.to_client ≡ []

-- The server has welcomed a client that has sent nothing yet.
pub record Welcomes (t : Talk) : Type 0 where
  pub stands : Stands t.server wants_user []
  pub to_server : t.to_server ≡ []
  pub to_client : t.to_client ≡ server_welcome

abbrev pub user_line : Bytes → Bytes
user_line username = codes "AUTHINFO USER " ++ username

abbrev pub pass_line : Bytes → Bytes
pass_line password = codes "AUTHINFO PASS " ++ password

-- Who logs in, by TLS, and nothing that has been read is left over.
pub record Knows (c : Connection) (username password : Bytes) : Type 0 where
  pub name : c.conninfo.username ≡ username
  pub word : c.conninfo.password ≡ password
  pub by_tls : c.sslstream ≡ true
  pub nothing_buffered : c.readbuf ≡ []

module _ (username password : Bytes) where
  pub data LoginPhase (t : Talk) (left : ℕ) : Type 0 where
    requested :
        OneTask t.client run_connect
        → Knows t.client username password
        → Accepts t
        → left ≡ 12
        → LoginPhase t left
    looking_up :
        OneOp t.client resolving
        → Knows t.client username password
        → Accepts t
        → left ≡ 11
        → LoginPhase t left
    connecting :
        OneOp t.client opening
        → Knows t.client username password
        → Accepts t
        → left ≡ 10
        → LoginPhase t left
    shaking :
        OneOp t.client handshaking
        → Knows t.client username password
        → Accepts t
        → left ≡ 9
        → LoginPhase t left
    greeted :
        OneOp t.client (reading greeting)
        → Knows t.client username password
        → Welcomes t
        → left ≡ 8
        → LoginPhase t left
    naming :
        (m n : ℕ)
        → Exchange t.client username_cmd username_reply m
        → Knows t.client username password
        → Asks t wants_user wants_pass (user_line username) server_auth n
        → left ≡ 5 + m + n
        → LoginPhase t left
    proving :
        (m n : ℕ)
        → Exchange t.client password_cmd password_reply m
        → Knows t.client username password
        → Asks t wants_pass wants_command (pass_line password) server_auth_success n
        → left ≡ 2 + m + n
        → LoginPhase t left
    answering :
        OneTask t.client (tell_connect connect_success)
        → t.client.state ≡ connected_and_authenticated
        → t.client.readbuf ≡ []
        → Rests t []
        → left ≡ 1
        → LoginPhase t left
    answered :
        IsIdle t.client
        → t.client.state ≡ connected_and_authenticated
        → t.client.readbuf ≡ []
        → Rests t []
        → left ≡ 0
        → LoginPhase t left

-- What the owner has been told when so many steps are left.
unfoldable pub login_news : ℕ → List Task
login_news zero = tell_connect connect_success ∷ []
login_news (suc left) = []

-- A step is the next of those that were left.
pub record LoginNext (username password : Bytes) (t : Talk) (told : List Task) (left : ℕ)
    : Type 0 where
  pub fewer : ℕ
  pub one : left ≡ suc fewer
  pub phase : LoginPhase username password t fewer
  pub heard : told ≡ login_news fewer
