-- ===== src/Talk/Turns.antt =====
-- What the client of nntp/connection.cc has handed to the network, and what it waits for, after each of
-- its turns in a talk that goes well.
use post2usenet.Talk.{Talk, client_goes_on}
use post2usenet.Talk.Acting.{drop_all}
use post2usenet.Common.{
  drop-append, append-nil, ℕ, true, [], ◌∷◌, ◌++◌, ◌≡◌, arith, Bytes, codes, put, none, some,
}
use post2usenet.Boost.{StringAlgorithms}
use post2usenet.Connection.{
  Connection, Heap, writing, reading, Writer, Reader, post_cmd, article_text, post_reply,
  article_reply, Task, run_post, tell_post, post_success, connected_and_authenticated, send_parts,
  cancel_timer,
}
use post2usenet.Connection.Complete.{completed_write, on_line, run_task}
use post2usenet.Connection.Posting.{OneOp, OneTask, IsIdle}
use post2usenet.DummyServer.{server_send_article, server_article_posted}

-- A text has been handed to the network, and nothing else has changed that matters here.
pub record Sends (c c' : Connection) (w : Writer) (text : Bytes) : Type 0 where
  pub op : OneOp c' (writing w)
  pub article : c'.article ≡ c.article
  pub readbuf : c'.readbuf ≡ c.readbuf
  pub sent : c'.sent ≡ c.sent ++ text ∷ []

-- A reply is awaited.
pub record Awaits (c c' : Connection) (r : Reader) : Type 0 where
  pub op : OneOp c' (reading r)
  pub article : c'.article ≡ c.article
  pub readbuf : c'.readbuf ≡ c.readbuf
  pub sent : c'.sent ≡ c.sent

-- The owner is to be told, and the connection is ready and has no article.
pub record Answers (c c' : Connection) (t : Task) : Type 0 where
  pub task : OneTask c' t
  pub ready : c'.state ≡ connected_and_authenticated
  pub article : c'.article ≡ none
  pub readbuf : c'.readbuf ≡ c.readbuf
  pub sent : c'.sent ≡ c.sent

pub run_post-Sends :
    (c : Connection) → IsIdle c → Sends c (run_task c run_post).0 post_cmd (codes "POST\r\n")
unfolding run_task
run_post-Sends c idle = record {
  op = record { op = ground arith; no_task = ground arith };
  article = ground arith;
  readbuf = ground arith;
  sent = ground arith;
}

pub post_cmd-Awaits :
    (c : Connection) → IsIdle c → Awaits c (completed_write true true post_cmd c) post_reply
unfolding completed_write
post_cmd-Awaits c idle = record {
  op = record { op = ground arith; no_task = ground arith };
  article = ground arith;
  readbuf = ground arith;
  sent = ground arith;
}

pub article_text-Awaits :
    (c : Connection) → IsIdle c → Awaits c (completed_write true true article_text c) article_reply
unfolding completed_write
article_text-Awaits c idle = record {
  op = record { op = ground arith; no_task = ground arith };
  article = ground arith;
  readbuf = ground arith;
  sent = ground arith;
}

module _ (algo : StringAlgorithms) (heap : Heap) (a : ℕ) where
  pub post_reply-Sends :
      (c c' : Connection)
      → IsIdle c
      → c.article ≡ some a
      → on_line algo heap post_reply server_send_article (cancel_timer c) ≡ some c'
      → Sends c c' article_text (put (send_parts algo (heap a)))
  unfolding on_line cancel_timer
  post_reply-Sends c c' idle e h = record {
    op = record { op = ground arith; no_task = ground arith };
    article = ground arith;
    readbuf = ground arith;
    sent = ground arith;
  }

  pub article_reply-Answers :
      (c c' : Connection)
      → IsIdle c
      → c.article ≡ some a
      → on_line algo heap article_reply server_article_posted (cancel_timer c) ≡ some c'
      → Answers c c' (tell_post (some a) post_success)
  unfolding on_line cancel_timer
  article_reply-Answers c c' idle e h = record {
    task = record { no_op = ground arith; task = ground arith };
    ready = ground arith;
    article = ground arith;
    readbuf = ground arith;
    sent = ground arith;
  }

-- The state after the client has gone on.
abbrev pub client_at : Talk → Connection → Bytes → Talk
client_at t c input = record (client_goes_on t c) { to_client = input }

-- What is on its way to the server, where the client has sent nothing more, or one text.
pub quiet :
    (t : Talk) (c : Connection)
    → c.sent ≡ t.client.sent
    → (client_goes_on t c).to_server ≡ t.to_server
unfolding client_goes_on
quiet t c e = rw (e, drop_all t.client.sent) (append-nil t.to_server)

pub loud :
    (t : Talk) (c : Connection) (text : Bytes)
    → c.sent ≡ t.client.sent ++ text ∷ []
    → t.to_server ≡ []
    → (client_goes_on t c).to_server ≡ text
unfolding client_goes_on
loud t c text e none_yet = rw (e, drop-append t.client.sent (text ∷ []), none_yet) (append-nil text)
