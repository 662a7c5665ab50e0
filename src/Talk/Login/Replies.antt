-- ===== src/Talk/Login/Replies.antt =====
-- The steps of a connection of nntp/connection.cc from the greeting of misc/dummy_usenet/dummy_server.cc on.
use mathlib.Core.Path.{subst}
use post2usenet.Talk.Phase.{Exchange, Rests, being_written, awaited}
use post2usenet.Connection.Posting.{OneTask, OneOp}
use post2usenet.Common.{
  ℕ, suc, ◌+◌, List, [], ◌∷◌, ◌++◌, append_assoc, ◌≡◌, refl, sym, ap, ◌∙◌, arith, Bytes, codes, put,
  cr, lf,
}
use post2usenet.Boost.{StringAlgorithms}
use post2usenet.Connection.{
  connected_and_authenticated, Connection, Heap, reading, greeting, username_cmd, username_reply,
  password_cmd, password_reply, Task, tell_connect, connect_success,
}
use post2usenet.Connection.Complete.{run_task}
use post2usenet.DummyServer.{
  server_auth, server_auth_success, wants_user, wants_pass, wants_command,
}
use post2usenet.DummyServer.Lines.{ended}
use post2usenet.Talk.{Talk, client_goes_on, Acts}
use post2usenet.Talk.Acting.{task_acts, write_acts, reply_acts, silence_acts, idle_acts}
use post2usenet.Talk.Turns.{client_at, quiet, loud}
use post2usenet.Talk.Login.{
  user_line, pass_line, Asks, unread, replied, Welcomes, Knows, LoginPhase, requested, looking_up,
  connecting, shaking, greeted, naming, proving, answering, answered, login_news, LoginNext,
}
use post2usenet.Talk.Login.Turns.{
  Starts, username_cmd-Starts, password_cmd-Starts, greeting-Starts, username_reply-Starts,
  password_reply-LetsIn,
}
use post2usenet.Talk.Login.Acting.{shake_acts}
use post2usenet.Talk.Login.Steps.{
  started-Knows, without_op, after_read, waits-Asks, requested-LoginNext, looking_up-LoginNext,
  connecting-LoginNext,
}

-- A command that is sent in three pieces is one line.
put-ended : (name value : Bytes) → put (name ∷ value ∷ codes "\r\n" ∷ []) ≡ ended (name ++ value)
put-ended name value = sym (append_assoc name value (cr ∷ lf ∷ []))

module _ (username password : Bytes) where
  module _ (algo : StringAlgorithms) (heap : Heap) where
    greeted-LoginNext :
        (t : Talk) (left : ℕ) (c' : Connection) (input : Bytes) (told : List Task)
        → OneOp t.client (reading greeting)
        → Knows t.client username password
        → Welcomes t
        → left ≡ 8
        → Acts algo heap t.client t.to_client c' input told
        → LoginNext username password (client_at t c' input) told left
    unfolding client_goes_on login_news run_task
    greeted-LoginNext t left c' input told one knows w e act =
        let (done, emptied, untold) =
          reply_acts algo heap t.client c' greeting t.to_client
            (codes "200 Some Generic Welcome Message (Posting Allowed)") input told one
            knows.nothing_buffered w.to_client (omega arith) act in
        let bare = record t.client { pending = []; readbuf = [] } in
        let turn =
          greeting-Starts algo heap bare c' (record { no_op = refl; no_task = one.no_task }) done in
        record {
          fewer = suc (6);
          one = omega arith;
          phase =
              naming 1 1 (being_written turn.op)
                (started-Knows username password bare c' _ _ turn
                  (after_read username password t.client knows))
                (unread w.stands
                  (loud t c' _ turn.sent_more w.to_server
                    ∙ put-ended (codes "AUTHINFO USER ") t.client.conninfo.username
                    ∙ ap (λ x. ended (codes "AUTHINFO USER " ++ x)) knows.name)
                  emptied)
                (omega arith);
          heard = untold;
        }

    naming-LoginNext :
        (t : Talk) (left : ℕ) (m n : ℕ) (c' : Connection) (input : Bytes) (told : List Task)
        → Exchange t.client username_cmd username_reply m
        → Knows t.client username password
        → Asks t wants_user wants_pass (user_line username) server_auth n
        → left ≡ 5 + m + n
        → Acts algo heap t.client t.to_client c' input told
        → LoginNext username password (client_at t c' input) told left
    unfolding client_goes_on login_news run_task
    naming-LoginNext t left m n c' input told (being_written one) knows asks e act =
        let (done, kept, untold) =
          write_acts algo heap t.client c' username_cmd t.to_client input told one act in
        let bare = record t.client { pending = [] } in
        let turn : Starts bare c' (reading username_reply) [] =
          subst (λ c. Starts bare c (reading username_reply) []) (sym done)
            (username_cmd-Starts bare (record { no_op = refl; no_task = one.no_task })) in
        record {
          fewer = suc (4 + n);
          one = omega arith;
          phase =
              naming 0 n (awaited turn.op)
                (started-Knows username password bare c' _ _ turn
                  (without_op username password t.client knows))
                (waits-Asks username password t c' input _ bare _ _ _ _ n refl turn kept asks)
                (omega arith);
          heard = untold;
        }
    naming-LoginNext t left m n c' input told (awaited one) knows (unread s o i) e act = absurd (
        silence_acts algo heap t.client c' username_reply t.to_client input told one
          knows.nothing_buffered i act)
    naming-LoginNext t left m n c' input told (awaited one) knows (replied s o i) e act =
        let (done, emptied, untold) =
          reply_acts algo heap t.client c' username_reply t.to_client (codes "381 PASS required")
            input told one knows.nothing_buffered i (omega arith) act in
        let bare = record t.client { pending = []; readbuf = [] } in
        let turn =
          username_reply-Starts algo heap bare c' (record { no_op = refl; no_task = one.no_task })
            done in
        record {
          fewer = suc (3);
          one = omega arith;
          phase =
              proving 1 1 (being_written turn.op)
                (started-Knows username password bare c' _ _ turn
                  (after_read username password t.client knows))
                (unread s
                  (loud t c' _ turn.sent_more o
                    ∙ put-ended (codes "AUTHINFO PASS ") t.client.conninfo.password
                    ∙ ap (λ x. ended (codes "AUTHINFO PASS " ++ x)) knows.word)
                  emptied)
                (omega arith);
          heard = untold;
        }

    proving-LoginNext :
        (t : Talk) (left : ℕ) (m n : ℕ) (c' : Connection) (input : Bytes) (told : List Task)
        → Exchange t.client password_cmd password_reply m
        → Knows t.client username password
        → Asks t wants_pass wants_command (pass_line password) server_auth_success n
        → left ≡ 2 + m + n
        → Acts algo heap t.client t.to_client c' input told
        → LoginNext username password (client_at t c' input) told left
    unfolding client_goes_on login_news run_task
    proving-LoginNext t left m n c' input told (being_written one) knows asks e act =
        let (done, kept, untold) =
          write_acts algo heap t.client c' password_cmd t.to_client input told one act in
        let bare = record t.client { pending = [] } in
        let turn : Starts bare c' (reading password_reply) [] =
          subst (λ c. Starts bare c (reading password_reply) []) (sym done)
            (password_cmd-Starts bare (record { no_op = refl; no_task = one.no_task })) in
        record {
          fewer = suc (1 + n);
          one = omega arith;
          phase =
              proving 0 n (awaited turn.op)
                (started-Knows username password bare c' _ _ turn
                  (without_op username password t.client knows))
                (waits-Asks username password t c' input _ bare _ _ _ _ n refl turn kept asks)
                (omega arith);
          heard = untold;
        }
    proving-LoginNext t left m n c' input told (awaited one) knows (unread s o i) e act = absurd (
        silence_acts algo heap t.client c' password_reply t.to_client input told one
          knows.nothing_buffered i act)
    proving-LoginNext t left m n c' input told (awaited one) knows (replied s o i) e act =
        let (done, emptied, untold) =
          reply_acts algo heap t.client c' password_reply t.to_client (codes "281 Posting allowed")
            input told one knows.nothing_buffered i (omega arith) act in
        let bare = record t.client { pending = []; readbuf = [] } in
        let turn =
          password_reply-LetsIn algo heap bare c' (record { no_op = refl; no_task = one.no_task })
            done in
        record {
          fewer = 1;
          one = omega arith;
          phase =
              answering turn.task turn.ready turn.readbuf
                (record { server = s; to_server = quiet t c' turn.sent ∙ o; to_client = emptied })
                refl;
          heard = untold;
        }

    answering-LoginNext :
        (t : Talk) (left : ℕ) (c' : Connection) (input : Bytes) (told : List Task)
        → OneTask t.client (tell_connect connect_success)
        → t.client.state ≡ connected_and_authenticated
        → t.client.readbuf ≡ []
        → Rests t []
        → left ≡ 1
        → Acts algo heap t.client t.to_client c' input told
        → LoginNext username password (client_at t c' input) told left
    unfolding client_goes_on login_news run_task
    answering-LoginNext t left c' input told one ready empty rests e act =
        let (done, kept) =
          task_acts algo heap t.client c' (tell_connect connect_success) t.to_client input told one
            act in
        let same : record t.client { posted = [] } ≡ c' = ap (λ p. p.0) done in
        record {
          fewer = 0;
          one = e;
          phase =
              answered
                (record {
                  no_op = sym (ap (λ c. c.pending) same) ∙ one.no_op;
                  no_task = sym (ap (λ c. c.posted) same);
                })
                (sym (ap (λ c. c.state) same) ∙ ready) (sym (ap (λ c. c.readbuf) same) ∙ empty)
                (record {
                  server = rests.server;
                  to_server = quiet t c' (sym (ap (λ c. c.sent) same)) ∙ rests.to_server;
                  to_client = kept ∙ rests.to_client;
                })
                refl;
          heard = sym (ap (λ p. p.1) done);
        }

    pub client-LoginNext :
        (t : Talk) (left : ℕ) (c' : Connection) (input : Bytes) (told : List Task)
        → LoginPhase username password t left
        → Acts algo heap t.client t.to_client c' input told
        → LoginNext username password (client_at t c' input) told left
    client-LoginNext t left c' input told (requested one knows w e) act =
        requested-LoginNext username password algo heap t left c' input told one knows w e act
    client-LoginNext t left c' input told (looking_up one knows w e) act =
        looking_up-LoginNext username password algo heap t left c' input told one knows w e act
    client-LoginNext t left c' input told (connecting one knows w e) act =
        connecting-LoginNext username password algo heap t left c' input told one knows w e act
    client-LoginNext t left c' input told (shaking one knows w e) act =
        absurd (shake_acts algo heap t.client c' t.to_client input told one act)
    client-LoginNext t left c' input told (greeted one knows w e) act =
        greeted-LoginNext t left c' input told one knows w e act
    client-LoginNext t left c' input told (naming m n x knows asks e) act =
        naming-LoginNext t left m n c' input told x knows asks e act
    client-LoginNext t left c' input told (proving m n x knows asks e) act =
        proving-LoginNext t left m n c' input told x knows asks e act
    client-LoginNext t left c' input told (answering one ready empty rests e) act =
        answering-LoginNext t left c' input told one ready empty rests e act
    client-LoginNext t left c' input told (answered idle ready empty rests e) act =
        absurd (idle_acts algo heap t.client c' t.to_client input told idle act)
