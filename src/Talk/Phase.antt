-- ===== src/Talk/Phase.antt =====
-- One post of nntp/connection.cc to misc/dummy_usenet/dummy_server.cc: where it stands, and how many
-- steps are left.
use post2usenet.Common.{
  ℕ, zero, suc, ◌+◌, length, List, [], ◌∷◌, ◌++◌, ◌≡◌, ◌≢◌, arith, Bytes, codes, Option, none, some,
  All,
}
use post2usenet.Connection.{
  Connection, writing, reading, Writer, Reader, post_cmd, article_text, post_reply, article_reply,
  Task, run_post, tell_post, post_success, connected_and_authenticated,
}
use post2usenet.Connection.Posting.{OneOp, OneTask, IsIdle}
use post2usenet.DummyServer.{
  Session, Stage, wants_handshake, wants_command, in_article, server_send_article,
  server_article_posted,
}
use post2usenet.DummyServer.Lines.{IsBodyLine, kept}
use post2usenet.Talk.{Talk}

-- A text is being written, or the reply to it is awaited.
pub data Exchange (c : Connection) (w : Writer) (r : Reader) : ℕ → Type 0 where
  being_written : OneOp c (writing w) → Exchange c w r 1
  awaited : OneOp c (reading r) → Exchange c w r 0

pub record Holds (c : Connection) (message : Option ℕ) : Type 0 where
  pub article : c.article ≡ message
  pub nothing_buffered : c.readbuf ≡ []

-- The stage of the server and the files that it has closed.
pub record Stands (s : Session) (stage : Stage) (files : List Bytes) : Type 0 where
  pub stage_is : s.stage ≡ stage
  pub files_are : s.files ≡ files

-- Nothing is under way: the server waits for a command.
pub record Rests (t : Talk) (files : List Bytes) : Type 0 where
  pub server : Stands t.server wants_command files
  pub to_server : t.to_server ≡ []
  pub to_client : t.to_client ≡ []

-- The command is on its way to the server, or the reply to it on its way back.
pub data CommandOut (t : Talk) (files : List Bytes) : ℕ → Type 0 where
  unread :
      Stands t.server wants_command files
      → t.to_server ≡ codes "POST\r\n"
      → t.to_client ≡ []
      → CommandOut t files 1
  invited :
      Stands t.server (in_article []) files
      → t.to_server ≡ []
      → t.to_client ≡ server_send_article
      → CommandOut t files 0

-- Some lines of the text are on their way to the server, or the reply on its way back.
pub data TextOut (t : Talk) (files body : List Bytes) : ℕ → Type 0 where
  keeps :
      (outfile : Bytes) (rest : List Bytes)
      → Stands t.server (in_article outfile) files
      → t.to_server ≡ kept rest
      → t.to_client ≡ []
      → All IsBodyLine rest
      → outfile ++ kept rest ≡ kept body
      → TextOut t files body (suc (length rest))
  has_kept :
      Stands t.server wants_command (files ++ kept body ∷ [])
      → t.to_server ≡ []
      → t.to_client ≡ server_article_posted
      → TextOut t files body 0

module _ (a : ℕ) (files body : List Bytes) where
  pub data Phase (t : Talk) (left : ℕ) : Type 0 where
    requested :
        OneTask t.client run_post
        → Holds t.client (some a)
        → Rests t files
        → left ≡ 8 + length body
        → Phase t left
    commanding :
        (m n : ℕ)
        → Exchange t.client post_cmd post_reply m
        → Holds t.client (some a)
        → CommandOut t files n
        → left ≡ 5 + length body + m + n
        → Phase t left
    texting :
        (m n : ℕ)
        → Exchange t.client article_text article_reply m
        → Holds t.client (some a)
        → TextOut t files body n
        → left ≡ 2 + m + n
        → Phase t left
    answering :
        OneTask t.client (tell_post (some a) post_success)
        → t.client.state ≡ connected_and_authenticated
        → Holds t.client none
        → Rests t (files ++ kept body ∷ [])
        → left ≡ 1
        → Phase t left
    answered :
        IsIdle t.client
        → t.client.state ≡ connected_and_authenticated
        → Holds t.client none
        → Rests t (files ++ kept body ∷ [])
        → left ≡ 0
        → Phase t left

  -- What the owner has been told of the post when so many steps are left.
  unfoldable pub news : ℕ → List Task
  news zero = tell_post (some a) post_success ∷ []
  news (suc left) = []

  -- A step is the next of those that were left.
  pub record Next (t : Talk) (told : List Task) (left : ℕ) : Type 0 where
    pub fewer : ℕ
    pub one : left ≡ suc fewer
    pub phase : Phase t fewer
    pub heard : told ≡ news fewer

  -- The server has shaken hands long ago.
  pub Phase-stage : (t : Talk) (left : ℕ) → Phase t left → t.server.stage ≢ wants_handshake
  Phase-stage t left (requested one has rests e) h =
      let at = rests.server.stage_is in absurd (ground arith)
  Phase-stage t left (commanding m n x has (unread s o i) e) h =
      let at = s.stage_is in absurd (ground arith)
  Phase-stage t left (commanding m n x has (invited s o i) e) h =
      let at = s.stage_is in absurd (ground arith)
  Phase-stage t left (texting m n x has (keeps outfile rest s o i b k) e) h =
      let at = s.stage_is in absurd (ground arith)
  Phase-stage t left (texting m n x has (has_kept s o i) e) h =
      let at = s.stage_is in absurd (ground arith)
  Phase-stage t left (answering one ready has rests e) h =
      let at = rests.server.stage_is in absurd (ground arith)
  Phase-stage t left (answered idle ready has rests e) h =
      let at = rests.server.stage_is in absurd (ground arith)
