-- ===== src/Talk/Login/Turns.antt =====
-- What the client of nntp/connection.cc has under way after each of its turns while it logs in to a
-- server that lets it in.
use post2usenet.Common.{
  true, List, [], ◌∷◌, ◌++◌, append-nil, ◌≡◌, sym, arith, Bytes, codes, put, some, if◌then◌else◌,
}
use post2usenet.Boost.{StringAlgorithms}
use post2usenet.Connection.{
  Connection, Heap, Op, resolving, opening, handshaking, writing, reading, greeting, username_cmd,
  username_reply, password_cmd, password_reply, run_connect, tell_connect, connect_success,
  connected_and_authenticated, cancel_timer, check_authinfo_result,
}
use post2usenet.Connection.Complete.{
  completed_resolve, completed_connect, completed_handshake, completed_write, on_line, run_task,
}
use post2usenet.Connection.Posting.{OneOp, OneTask, IsIdle}
use post2usenet.DummyServer.{server_welcome, server_auth, server_auth_success}
use post2usenet.DummyServer.Lines.{begins}

-- An operation has been started that sends nothing.
pub record Starts (c c' : Connection) (o : Op) (sent : List Bytes) : Type 0 where
  pub op : OneOp c' o
  pub conninfo : c'.conninfo ≡ c.conninfo
  pub sslstream : c'.sslstream ≡ c.sslstream
  pub readbuf : c'.readbuf ≡ c.readbuf
  pub sent_more : c'.sent ≡ c.sent ++ sent

pub record LetsIn (c c' : Connection) : Type 0 where
  pub task : OneTask c' (tell_connect connect_success)
  pub ready : c'.state ≡ connected_and_authenticated
  pub readbuf : c'.readbuf ≡ c.readbuf
  pub sent : c'.sent ≡ c.sent

pub run_connect-Starts :
    (c : Connection) → IsIdle c → Starts c (run_task c run_connect).0 resolving []
unfolding run_task
run_connect-Starts c idle = record {
  op = record { op = ground arith; no_task = ground arith };
  conninfo = ground arith;
  sslstream = ground arith;
  readbuf = ground arith;
  sent_more = sym (append-nil c.sent);
}

pub resolve-Starts : (c : Connection) → IsIdle c → Starts c (completed_resolve true c) opening []
unfolding completed_resolve
resolve-Starts c idle = record {
  op = record { op = ground arith; no_task = ground arith };
  conninfo = ground arith;
  sslstream = ground arith;
  readbuf = ground arith;
  sent_more = ground (arith, append-nil c.sent);
}

pub connect-Starts :
    (c : Connection)
    → IsIdle c
    → Starts c (completed_connect true c) (if c.sslstream then handshaking else reading greeting) []
unfolding completed_connect
connect-Starts c idle = record {
  op = record { op = ground arith; no_task = ground arith };
  conninfo = ground arith;
  sslstream = ground arith;
  readbuf = ground arith;
  sent_more = ground (arith, append-nil c.sent);
}

pub handshake-Starts :
    (c : Connection) → IsIdle c → Starts c (completed_handshake true c) (reading greeting) []
unfolding completed_handshake
handshake-Starts c idle = record {
  op = record { op = ground arith; no_task = ground arith };
  conninfo = ground arith;
  sslstream = ground arith;
  readbuf = ground arith;
  sent_more = ground (arith, append-nil c.sent);
}

pub username_cmd-Starts :
    (c : Connection)
    → IsIdle c
    → Starts c (completed_write true true username_cmd c) (reading username_reply) []
unfolding completed_write
username_cmd-Starts c idle = record {
  op = record { op = ground arith; no_task = ground arith };
  conninfo = ground arith;
  sslstream = ground arith;
  readbuf = ground arith;
  sent_more = ground (arith, append-nil c.sent);
}

pub password_cmd-Starts :
    (c : Connection)
    → IsIdle c
    → Starts c (completed_write true true password_cmd c) (reading password_reply) []
unfolding completed_write
password_cmd-Starts c idle = record {
  op = record { op = ground arith; no_task = ground arith };
  conninfo = ground arith;
  sslstream = ground arith;
  readbuf = ground arith;
  sent_more = ground (arith, append-nil c.sent);
}

module _ (algo : StringAlgorithms) (heap : Heap) where
  pub greeting-Starts :
      (c c' : Connection)
      → IsIdle c
      → on_line algo heap greeting server_welcome (cancel_timer c) ≡ some c'
      → Starts c c'
          (writing username_cmd)
          (put (codes "AUTHINFO USER " ∷ c.conninfo.username ∷ codes "\r\n" ∷ []) ∷ [])
  unfolding on_line cancel_timer
  greeting-Starts c c' idle h = record {
    op = record { op = ground arith; no_task = ground arith };
    conninfo = ground arith;
    sslstream = ground arith;
    readbuf = ground arith;
    sent_more = ground arith;
  }

  pub username_reply-Starts :
      (c c' : Connection)
      → IsIdle c
      → on_line algo heap username_reply server_auth (cancel_timer c) ≡ some c'
      → Starts c c'
          (writing password_cmd)
          (put (codes "AUTHINFO PASS " ∷ c.conninfo.password ∷ codes "\r\n" ∷ []) ∷ [])
  unfolding on_line cancel_timer
  username_reply-Starts c c' idle h =
      let asks = begins algo (codes "381") (codes " PASS required\r\n") in
      record {
        op = record { op = ground (arith, asks); no_task = ground (arith, asks) };
        conninfo = ground (arith, asks);
        sslstream = ground (arith, asks);
        readbuf = ground (arith, asks);
        sent_more = ground (arith, asks);
      }

  pub password_reply-LetsIn :
      (c c' : Connection)
      → IsIdle c
      → on_line algo heap password_reply server_auth_success (cancel_timer c) ≡ some c'
      → LetsIn c c'
  unfolding on_line cancel_timer check_authinfo_result
  password_reply-LetsIn c c' idle h = record {
    task = record { no_op = ground arith; task = ground arith };
    ready = ground arith;
    readbuf = ground arith;
    sent = ground arith;
  }
