-- ===== src/Talk/Moves.antt =====
-- A post of nntp/connection.cc to misc/dummy_usenet/dummy_server.cc never gets stuck.
use post2usenet.Common.{
  ℕ, suc, length, false, List, [], ◌∷◌, ◌++◌, append-nil, ◌≡◌, inl, inr, refl, sym, ap, ◌∙◌, arith,
  Bytes, codes, some, Option-cases,
}
use post2usenet.Boost.{StringAlgorithms}
use post2usenet.Connection.{
  Connection, Heap, reading, send_article, cancel_timer, Reader, post_reply, article_reply,
  post_cmd, article_text, Task, run_post,
}
use post2usenet.Connection.Complete.{completed_read, on_line}
use post2usenet.Connection.Posting.{OneOp, OneTask}
use post2usenet.DummyServer.{read_lines, server_send_article, server_article_posted}
use post2usenet.DummyServer.Lines.{ended, kept, kept-nil, kept-cons, read_lines-ended}
use post2usenet.Talk.{Talk, Acts, runs, writes, reads, Step, client_acts, server_reads}
use post2usenet.Talk.Phase.{
  Exchange, CommandOut, TextOut, being_written, awaited, Holds, unread, invited, keeps, has_kept,
  Phase, requested, commanding, texting, answering, answered,
}

module _ (algo : StringAlgorithms) (heap : Heap) where
  -- A step can be made.
  pub record Moves (t : Talk) : Type 0 where
    pub next : Talk
    pub told : List Task
    pub step : Step algo heap t next told

  pub acts :
      (t : Talk) (c' : Connection) (left : Bytes) (told : List Task)
      → Acts algo heap t.client t.to_client c' left told
      → Moves t
  acts t c' left told act = record { next = _; told = told; step = client_acts c' left act refl }

  pub hears :
      (t : Talk) (line : Bytes) (more : List Bytes)
      → read_lines false [] t.to_server ≡ line ∷ more
      → Moves t
  hears t line more r = record { next = _; told = []; step = server_reads line more r refl refl }

  pub task-Moves : (t : Talk) (task : Task) → OneTask t.client task → Moves t
  task-Moves t task one = acts t _ t.to_client _ (runs [] [] task one.task refl refl)

  pub reply-Moves :
      (t : Talk) (h : Reader) (reply : Bytes) (c' : Connection)
      → OneOp t.client (reading h)
      → t.client.readbuf ≡ []
      → t.to_client ≡ reply
      → read_lines false [] reply ≡ reply ∷ []
      → completed_read algo heap h (some (reply, length reply)) (record t.client { pending = [] })
        ≡ some c'
      → Moves t
  reply-Moves t h reply c' one empty e r done = acts t c' [] [] (
      reads [] [] h reply reply [] one.op (e ∙ sym (append-nil reply)) (rw empty r)
        (ap
            (λ b.
              completed_read algo heap h (some (b ++ reply, length reply))
                (record t.client { pending = [] }))
            empty
          ∙ done)
        refl)

  invitation-Moves :
      (t : Talk) (a : ℕ)
      → OneOp t.client (reading post_reply)
      → Holds t.client (some a)
      → t.to_client ≡ server_send_article
      → Moves t
  unfolding completed_read read_lines on_line send_article cancel_timer
  invitation-Moves t a one has e =
      let bare = record t.client { pending = [] } in
      let n = length server_send_article in
      elim (Option-cases
        (completed_read algo heap post_reply (some (server_send_article, n)) bare)) [
          | inl stuck ↦ absurd (ground (arith, stuck, has.article))
          | inr (c', done) ↦
              reply-Moves t post_reply server_send_article c' one has.nothing_buffered e refl done
        ]

  receipt-Moves :
      (t : Talk)
      → OneOp t.client (reading article_reply)
      → t.client.readbuf ≡ []
      → t.to_client ≡ server_article_posted
      → Moves t
  unfolding completed_read read_lines on_line cancel_timer
  receipt-Moves t one empty e =
      reply-Moves t article_reply server_article_posted _ one empty e refl refl

  module _ (a : ℕ) (files body : List Bytes) where
    CommandOut-Moves :
        (t : Talk) (m n : ℕ)
        → Exchange t.client post_cmd post_reply m
        → Holds t.client (some a)
        → CommandOut t files n
        → Moves t
    unfolding read_lines
    CommandOut-Moves t m n (being_written one) has command =
        acts t _ t.to_client [] (writes [] [] post_cmd one.op refl refl refl)
    CommandOut-Moves t m n (awaited one) has (unread s o i) =
        hears t (codes "POST\r\n") [] (rw o refl)
    CommandOut-Moves t m n (awaited one) has (invited s o i) = invitation-Moves t a one has i

    TextOut-Moves :
        (t : Talk) (m n : ℕ)
        → Exchange t.client article_text article_reply m
        → t.client.readbuf ≡ []
        → TextOut t files body n
        → Moves t
    unfolding read_lines
    TextOut-Moves t m n (being_written one) empty text =
        acts t _ t.to_client [] (writes [] [] article_text one.op refl refl refl)
    TextOut-Moves t m n (awaited one) empty (keeps outfile [] s o i h w) =
        hears t (codes ".\r\n") [] (rw (o, kept-nil) refl)
    TextOut-Moves t m n (awaited one) empty (keeps outfile (line ∷ rest) s o i h w) =
        hears t (ended line) (read_lines false [] (kept rest)) (
          ap (read_lines false []) (o ∙ kept-cons line rest)
          ∙ read_lines-ended line (kept rest) h.0.one_line)
    TextOut-Moves t m n (awaited one) empty (has_kept s o i) = receipt-Moves t one empty i

    pub Phase-Moves : (t : Talk) (left : ℕ) → Phase a files body t (suc left) → Moves t
    Phase-Moves t left (requested one has rests e) = task-Moves t run_post one
    Phase-Moves t left (commanding m n x has command e) = CommandOut-Moves t m n x has command
    Phase-Moves t left (texting m n x has texts e) =
        TextOut-Moves t m n x has.nothing_buffered texts
    Phase-Moves t left (answering one ready has rests e) = task-Moves t _ one
    Phase-Moves t left (answered idle ready has rests e) = absurd (omega arith)
