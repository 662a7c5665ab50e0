-- ===== src/Talk/Post.antt =====
-- The steps of one post of nntp/connection.cc to misc/dummy_usenet/dummy_server.cc.
use mathlib.Core.Path.{subst}
use post2usenet.Common.{
  ℕ, suc, ◌+◌, length, List, [], ◌∷◌, ◌++◌, ◌≡◌, refl, sym, ap, ◌∙◌, arith, Bytes, codes, put, none,
  some, All,
}
use post2usenet.Boost.{StringAlgorithms}
use post2usenet.Connection.{
  Connection, Heap, post_cmd, article_text, post_reply, article_reply, Task, run_post, tell_post,
  post_success, connected_and_authenticated, send_parts,
}
use post2usenet.Connection.Complete.{run_task}
use post2usenet.Connection.Posting.{OneTask}
use post2usenet.DummyServer.Lines.{IsBodyLine, kept}
use post2usenet.Talk.{Talk, client_goes_on, Acts}
use post2usenet.Talk.Acting.{task_acts, write_acts, reply_acts, silence_acts}
use post2usenet.Talk.Turns.{
  client_at, quiet, loud, Sends, Awaits, run_post-Sends, post_cmd-Awaits, article_text-Awaits,
  post_reply-Sends, article_reply-Answers,
}
use post2usenet.Talk.Phase.{
  Exchange, being_written, awaited, Holds, Rests, CommandOut, unread, invited, TextOut, keeps,
  has_kept, commanding, texting, answering, answered, news, Next,
}

module _ (algo : StringAlgorithms) (heap : Heap) (a : ℕ) (files body : List Bytes) where
  pub requested-Next :
      (t : Talk) (left : ℕ) (c' : Connection) (input : Bytes) (told : List Task)
      → OneTask t.client run_post
      → Holds t.client (some a)
      → Rests t files
      → left ≡ 8 + length body
      → Acts algo heap t.client t.to_client c' input told
      → Next a files body (client_at t c' input) told left
  unfolding client_goes_on news run_task
  requested-Next t left c' input told one has rests e act =
      let (done, kept_input) =
        task_acts algo heap t.client c' run_post t.to_client input told one act in
      let bare = record t.client { posted = [] } in
      let turn : Sends bare c' post_cmd (codes "POST\r\n") =
        subst (λ c. Sends bare c post_cmd (codes "POST\r\n")) (ap (λ p. p.0) done)
          (run_post-Sends bare (record { no_op = one.no_op; no_task = refl })) in
      record {
        fewer = suc (6 + length body);
        one = omega arith;
        phase =
            commanding 1 1 (being_written turn.op)
              (record {
                article = turn.article ∙ has.article;
                nothing_buffered = turn.readbuf ∙ has.nothing_buffered;
              })
              (unread rests.server (loud t c' (codes "POST\r\n") turn.sent rests.to_server)
                (kept_input ∙ rests.to_client))
              (omega arith);
        heard = sym (ap (λ p. p.1) done);
      }

  -- The client awaits a reply, and what goes to the server is as it was.
  CommandOut-stays :
      (t : Talk) (c' : Connection) (input : Bytes) (n : ℕ)
      → c'.sent ≡ t.client.sent
      → input ≡ t.to_client
      → CommandOut t files n
      → CommandOut (client_at t c' input) files n
  unfolding client_goes_on
  CommandOut-stays t c' input n e k (unread s o i) = unread s (quiet t c' e ∙ o) (k ∙ i)
  CommandOut-stays t c' input n e k (invited s o i) = invited s (quiet t c' e ∙ o) (k ∙ i)

  TextOut-stays :
      (t : Talk) (c' : Connection) (input : Bytes) (n : ℕ)
      → c'.sent ≡ t.client.sent
      → input ≡ t.to_client
      → TextOut t files body n
      → TextOut (client_at t c' input) files body n
  unfolding client_goes_on
  TextOut-stays t c' input n e k (keeps outfile rest s o i h w) =
      keeps outfile rest s (quiet t c' e ∙ o) (k ∙ i) h w
  TextOut-stays t c' input n e k (has_kept s o i) = has_kept s (quiet t c' e ∙ o) (k ∙ i)

  pub commanding-Next :
      (t : Talk) (left m n : ℕ) (c' : Connection) (input : Bytes) (told : List Task)
      → put (send_parts algo (heap a)) ≡ kept body
      → All IsBodyLine body
      → Exchange t.client post_cmd post_reply m
      → Holds t.client (some a)
      → CommandOut t files n
      → left ≡ 5 + length body + m + n
      → Acts algo heap t.client t.to_client c' input told
      → Next a files body (client_at t c' input) told left
  unfolding client_goes_on news
  commanding-Next t left m n c' input told text lines (being_written one) has command e act =
      let (done, kept_input, untold) =
        write_acts algo heap t.client c' post_cmd t.to_client input told one act in
      let bare = record t.client { pending = [] } in
      let turn : Awaits bare c' post_reply =
        subst (λ c. Awaits bare c post_reply) (sym done)
          (post_cmd-Awaits bare (record { no_op = refl; no_task = one.no_task })) in
      record {
        fewer = suc (4 + length body + n);
        one = omega arith;
        phase =
            commanding 0 n (awaited turn.op)
              (record {
                article = turn.article ∙ has.article;
                nothing_buffered = turn.readbuf ∙ has.nothing_buffered;
              })
              (CommandOut-stays t c' input n turn.sent kept_input command) (omega arith);
        heard = untold;
      }
  commanding-Next t left m n c' input told text lines (awaited one) has (unread s o i) e act =
      absurd (
        silence_acts algo heap t.client c' post_reply t.to_client input told one
          has.nothing_buffered i act)
  commanding-Next t left m n c' input told text lines (awaited one) has (invited s o i) e act =
      let (done, emptied, untold) =
        reply_acts algo heap t.client c' post_reply t.to_client
          (codes "381 Send article to be posted") input told one has.nothing_buffered i
          (omega arith) act in
      let bare = record t.client { pending = []; readbuf = [] } in
      let turn =
        post_reply-Sends algo heap a bare c' (record { no_op = refl; no_task = one.no_task })
          has.article done in
      record {
        fewer = suc (2 + length body + 1);
        one = omega arith;
        phase =
            texting 1 (suc (length body)) (being_written turn.op)
              (record { article = turn.article ∙ has.article; nothing_buffered = turn.readbuf })
              (keeps [] body s (loud t c' _ turn.sent o ∙ text) emptied lines refl) (omega arith);
        heard = untold;
      }

  pub texting-Next :
      (t : Talk) (left m n : ℕ) (c' : Connection) (input : Bytes) (told : List Task)
      → Exchange t.client article_text article_reply m
      → Holds t.client (some a)
      → TextOut t files body n
      → left ≡ 2 + m + n
      → Acts algo heap t.client t.to_client c' input told
      → Next a files body (client_at t c' input) told left
  unfolding client_goes_on news
  texting-Next t left m n c' input told (being_written one) has texts e act =
      let (done, kept_input, untold) =
        write_acts algo heap t.client c' article_text t.to_client input told one act in
      let bare = record t.client { pending = [] } in
      let turn : Awaits bare c' article_reply =
        subst (λ c. Awaits bare c article_reply) (sym done)
          (article_text-Awaits bare (record { no_op = refl; no_task = one.no_task })) in
      record {
        fewer = suc (1 + n);
        one = omega arith;
        phase =
            texting 0 n (awaited turn.op)
              (record {
                article = turn.article ∙ has.article;
                nothing_buffered = turn.readbuf ∙ has.nothing_buffered;
              })
              (TextOut-stays t c' input n turn.sent kept_input texts) (omega arith);
        heard = untold;
      }
  texting-Next t left m n c' input told (awaited one) has (keeps outfile rest s o i h w) e act =
      absurd (
        silence_acts algo heap t.client c' article_reply t.to_client input told one
          has.nothing_buffered i act)
  texting-Next t left m n c' input told (awaited one) has (has_kept s o i) e act =
      let (done, emptied, untold) =
        reply_acts algo heap t.client c' article_reply t.to_client (codes "200 Article posted")
          input told one has.nothing_buffered i (omega arith) act in
      let bare = record t.client { pending = []; readbuf = [] } in
      let turn =
        article_reply-Answers algo heap a bare c' (record { no_op = refl; no_task = one.no_task })
          has.article done in
      record {
        fewer = 1;
        one = omega arith;
        phase =
            answering turn.task turn.ready
              (record { article = turn.article; nothing_buffered = turn.readbuf })
              (record { server = s; to_server = quiet t c' turn.sent ∙ o; to_client = emptied })
              refl;
        heard = untold;
      }

  pub answering-Next :
      (t : Talk) (left : ℕ) (c' : Connection) (input : Bytes) (told : List Task)
      → OneTask t.client (tell_post (some a) post_success)
      → t.client.state ≡ connected_and_authenticated
      → Holds t.client none
      → Rests t (files ++ kept body ∷ [])
      → left ≡ 1
      → Acts algo heap t.client t.to_client c' input told
      → Next a files body (client_at t c' input) told left
  unfolding client_goes_on news run_task
  answering-Next t left c' input told one ready has rests e act =
      let (done, kept_input) =
        task_acts algo heap t.client c' (tell_post (some a) post_success) t.to_client input told one
          act in
      let same : record t.client { posted = [] } ≡ c' = ap (λ p. p.0) done in
      record {
        fewer = 0;
        one = e;
        phase =
            answered
              (record {
                no_op = sym (ap (λ c. c.pending) same) ∙ one.no_op;
                no_task = sym (ap (λ c. c.posted) same);
              })
              (sym (ap (λ c. c.state) same) ∙ ready)
              (record {
                article = sym (ap (λ c. c.article) same) ∙ has.article;
                nothing_buffered = sym (ap (λ c. c.readbuf) same) ∙ has.nothing_buffered;
              })
              (record {
                server = rests.server;
                to_server = quiet t c' (sym (ap (λ c. c.sent) same)) ∙ rests.to_server;
                to_client = kept_input ∙ rests.to_client;
              })
              refl;
        heard = sym (ap (λ p. p.1) done);
      }
