-- ===== src/Talk.antt =====
-- nntp/connection.cc against misc/dummy_usenet/dummy_server.cc: one connection of the program and one
-- session of the server, with the bytes under way between them. The network loses nothing, keeps the
-- order, and hands over what has arrived in pieces of any size; no operation fails and no timer fires.
-- The server may read a text that the program has begun to write before or after that write completes.
pub mod Acting
pub mod Turns
pub mod Phase
pub mod Post
pub mod Reading
pub mod Whole
pub mod Moves
pub mod Ends
pub mod Login
use post2usenet.Common.{
  ℕ, suc, true, false, length, drop, List, [], ◌∷◌, ◌++◌, ◌≡◌, Bytes, put, some,
}
use post2usenet.Boost.{StringAlgorithms}
use post2usenet.Connection.{
  Connection, Heap, Op, resolving, opening, handshaking, writing, reading, Writer, Reader, Task,
}
use post2usenet.Connection.Complete.{
  completed_resolve, completed_connect, completed_handshake, completed_write, completed_read,
  run_task,
}
use post2usenet.DummyServer.{Session, wants_handshake, read_lines, on_request, shake_hands}

-- The two ends, and what each has been sent and has not taken yet.
pub record Talk : Type 0 where
  pub client : Connection
  pub server : Session
  pub to_server : Bytes
  pub to_client : Bytes

-- The client goes on, and what it has handed to async_write meanwhile is on its way.
unfoldable pub client_goes_on : Talk → Connection → Talk
client_goes_on t c = record t {
  client = c;
  to_server = t.to_server ++ put (drop (length t.client.sent) c.sent);
}

-- The server handles a line, which is taken from what it has been sent; what it writes is on its way.
unfoldable pub server_goes_on : StringAlgorithms → Talk → Bytes → Talk
server_goes_on algo t line =
    let s = on_request algo t.server line in
    record t {
      server = s;
      to_server = drop (length line) t.to_server;
      to_client = t.to_client ++ put (drop (length t.server.written) s.written);
    }

-- The server has ended its handshake well, and its welcome is on its way.
unfoldable pub server_welcomes : Talk → Talk
server_welcomes t =
    let s = shake_hands true t.server in
    record t {
      server = s;
      to_client = t.to_client ++ put (drop (length t.server.written) s.written);
    }

module _ (algo : StringAlgorithms) (heap : Heap) where
  -- What the client does alone: it runs a posted task, or an operation completes without an error. A read
  -- completes once what it has buffered and what has arrived hold a whole line. `left` of what it has
  -- been sent has not arrived yet.
  pub data Acts (c : Connection) (input : Bytes) (c' : Connection) (left : Bytes) (told : List Task)
      : Type 0 where
    runs :
        (before after : List Task) (task : Task)
        → c.posted ≡ before ++ task ∷ after
        → run_task (record c { posted = before ++ after }) task ≡ (c', told)
        → left ≡ input
        → Acts c input c' left told
    resolves :
        (before after : List Op)
        → c.pending ≡ before ++ resolving ∷ after
        → c' ≡ completed_resolve true (record c { pending = before ++ after })
        → left ≡ input
        → told ≡ []
        → Acts c input c' left told
    opens :
        (before after : List Op)
        → c.pending ≡ before ++ opening ∷ after
        → c' ≡ completed_connect true (record c { pending = before ++ after })
        → left ≡ input
        → told ≡ []
        → Acts c input c' left told
    writes :
        (before after : List Op) (h : Writer)
        → c.pending ≡ before ++ writing h ∷ after
        → c' ≡ completed_write true true h (record c { pending = before ++ after })
        → left ≡ input
        → told ≡ []
        → Acts c input c' left told
    reads :
        (before after : List Op) (h : Reader) (arrived line : Bytes) (more : List Bytes)
        → c.pending ≡ before ++ reading h ∷ after
        → input ≡ arrived ++ left
        → read_lines false [] (c.readbuf ++ arrived) ≡ line ∷ more
        → completed_read algo heap h
            (some (c.readbuf ++ arrived, length line))
            (record c { pending = before ++ after })
          ≡ some c'
        → told ≡ []
        → Acts c input c' left told

  -- A step of the one or of the other, or the end of the handshake between them, for which both must
  -- have begun it: a client without TLS waits in vain for a welcome.
  pub data Step (t t' : Talk) (told : List Task) : Type 0 where
    client_acts :
        (c' : Connection) (left : Bytes)
        → Acts t.client t.to_client c' left told
        → t' ≡ record (client_goes_on t c') { to_client = left }
        → Step t t' told
    server_reads :
        (line : Bytes) (more : List Bytes)
        → read_lines false [] t.to_server ≡ line ∷ more
        → t' ≡ server_goes_on algo t line
        → told ≡ []
        → Step t t' told
    hands_shaken :
        (before after : List Op) (c' : Connection)
        → t.client.pending ≡ before ++ handshaking ∷ after
        → t.server.stage ≡ wants_handshake
        → c' ≡ completed_handshake true (record t.client { pending = before ++ after })
        → t' ≡ server_welcomes (client_goes_on t c')
        → told ≡ []
        → Step t t' told

  -- Some steps, counted, with all that the owner of the connection is told in them.
  pub data Steps (t : Talk) : ℕ → Talk → List Task → Type 0 where
    stop : Steps t 0 t []
    go_on :
        {n : ℕ} {t' t'' : Talk} {told more : List Task}
        → Steps t n t' told
        → Step t' t'' more
        → Steps t (suc n) t'' (told ++ more)
