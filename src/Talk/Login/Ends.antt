-- ===== src/Talk/Login/Ends.antt =====
-- That a login of nntp/connection.cc to misc/dummy_usenet/dummy_server.cc comes to its end.
use post2usenet.Common.{
  ℕ, suc, ◌+◌, true, false, List, [], ◌∷◌, ◌++◌, append-nil, ◌≡◌, refl, sym, ◌∙◌, arith, Bytes,
  codes, IsOneLine, All-append,
}
use post2usenet.Boost.{StringAlgorithms}
use post2usenet.Connection.{Connection, Heap, Op, resolving, opening, handshaking, Task}
use post2usenet.Connection.Complete.{completed_handshake}
use post2usenet.Connection.Posting.{one_op}
use post2usenet.Talk.Acting.{nothing_in}
use post2usenet.Talk.Login.Steps.{shaking-LoginNext}
use post2usenet.DummyServer.{
  Stage, wants_handshake, wants_user, wants_pass, wants_command, read_lines, on_request,
  server_auth, server_auth_success,
}
use post2usenet.DummyServer.Lines.{ended, begins}
use post2usenet.Talk.{
  Talk, Step, client_acts, server_reads, hands_shaken, server_goes_on, client_goes_on,
  server_welcomes,
}
use post2usenet.Talk.Reading.{nothing_read, handled, line-Reads, replying}
use post2usenet.Talk.Login.{
  Asks, unread, replied, user_line, pass_line, LoginPhase, requested, looking_up, connecting,
  shaking, greeted, naming, proving, answering, answered, login_news, LoginNext,
}
use post2usenet.Talk.Login.Replies.{client-LoginNext}

module _ (algo : StringAlgorithms) where
  -- The server takes the line, where it replies to it.
  Asks-reads :
      (t : Talk) (at next : Stage) (text reply : Bytes) (n : ℕ) (line : Bytes) (more : List Bytes)
      → IsOneLine text
      → ((written : List Bytes)
          → on_request algo (record { stage = at; written = written; files = [] }) (ended text)
            ≡ record { stage = next; written = written ++ reply ∷ []; files = [] })
      → Asks t at next text reply n
      → read_lines false [] t.to_server ≡ line ∷ more
      → (n ≡ 1) × Asks (server_goes_on algo t line) at next text reply 0
  unfolding server_goes_on
  Asks-reads t at next text reply n line more plain replies (unread s o i) r =
      let got = line-Reads t line text [] more plain (o ∙ sym (append-nil (ended text))) r in
      let does =
        handled algo [] t.server line at next [] (reply ∷ []) s
          (rw got.this (replies t.server.written)) in
      (refl, replied does.stands got.left (replying algo [] t line reply does.writes i))
  Asks-reads t at next text reply n line more plain replies (replied s o i) r =
      absurd (nothing_read t.to_server line more o r)

  on_request-names :
      (name : Bytes) (written : List Bytes)
      → on_request algo
          (record { stage = wants_user; written = written; files = [] })
          (ended (user_line name))
        ≡ record { stage = wants_pass; written = written ++ server_auth ∷ []; files = [] }
  unfolding on_request
  on_request-names name written =
      rw (begins algo (codes "AUTHINFO USER") (codes " " ++ ended name)) refl

  on_request-proves :
      (word : Bytes) (written : List Bytes)
      → on_request algo
          (record { stage = wants_pass; written = written; files = [] })
          (ended (pass_line word))
        ≡ record {
          stage = wants_command;
          written = written ++ server_auth_success ∷ [];
          files = [];
        }
  unfolding on_request
  on_request-proves word written =
      rw (begins algo (codes "AUTHINFO PASS") (codes " " ++ ended word)) refl

pub user_line-IsOneLine : (name : Bytes) → IsOneLine name → IsOneLine (user_line name)
user_line-IsOneLine name h = All-append _ (codes "AUTHINFO USER ") name (omega arith) h

pub pass_line-IsOneLine : (word : Bytes) → IsOneLine word → IsOneLine (pass_line word)
pass_line-IsOneLine word h = All-append _ (codes "AUTHINFO PASS ") word (omega arith) h

module _ (algo : StringAlgorithms) (heap : Heap) (username password : Bytes) where
  server-LoginNext :
      (t : Talk) (left : ℕ) (line : Bytes) (more : List Bytes)
      → IsOneLine username
      → IsOneLine password
      → LoginPhase username password t left
      → read_lines false [] t.to_server ≡ line ∷ more
      → LoginNext username password (server_goes_on algo t line) [] left
  unfolding login_news server_goes_on
  server-LoginNext t left line more user pass (requested one knows w e) r =
      absurd (nothing_read t.to_server line more w.to_server r)
  server-LoginNext t left line more user pass (looking_up one knows w e) r =
      absurd (nothing_read t.to_server line more w.to_server r)
  server-LoginNext t left line more user pass (connecting one knows w e) r =
      absurd (nothing_read t.to_server line more w.to_server r)
  server-LoginNext t left line more user pass (shaking one knows w e) r =
      absurd (nothing_read t.to_server line more w.to_server r)
  server-LoginNext t left line more user pass (greeted one knows w e) r =
      absurd (nothing_read t.to_server line more w.to_server r)
  server-LoginNext t left line more user pass (naming m n x knows asks e) r =
      let (one, next) =
        Asks-reads algo t wants_user wants_pass (user_line username) server_auth n line more
          (user_line-IsOneLine username user) (on_request-names algo username) asks r in
      record {
        fewer = suc (4 + m);
        one = omega arith;
        phase =
            naming m 0 x
              (record {
                name = knows.name;
                word = knows.word;
                by_tls = knows.by_tls;
                nothing_buffered = knows.nothing_buffered;
              })
              next (omega arith);
        heard = refl;
      }
  server-LoginNext t left line more user pass (proving m n x knows asks e) r =
      let (one, next) =
        Asks-reads algo t wants_pass wants_command (pass_line password) server_auth_success n line
          more (pass_line-IsOneLine password pass) (on_request-proves algo password) asks r in
      record {
        fewer = suc (1 + m);
        one = omega arith;
        phase =
            proving m 0 x
              (record {
                name = knows.name;
                word = knows.word;
                by_tls = knows.by_tls;
                nothing_buffered = knows.nothing_buffered;
              })
              next (omega arith);
        heard = refl;
      }
  server-LoginNext t left line more user pass (answering one ready empty rests e) r =
      absurd (nothing_read t.to_server line more rests.to_server r)
  server-LoginNext t left line more user pass (answered idle ready empty rests e) r =
      absurd (nothing_read t.to_server line more rests.to_server r)

  shaken-LoginNext :
      (t : Talk) (left : ℕ) (before after : List Op) (c' : Connection)
      → LoginPhase username password t left
      → t.client.pending ≡ before ++ handshaking ∷ after
      → t.server.stage ≡ wants_handshake
      → c' ≡ completed_handshake true (record t.client { pending = before ++ after })
      → LoginNext username password (server_welcomes (client_goes_on t c')) [] left
  shaken-LoginNext t left before after c' (requested one knows w e) at stage done =
      absurd (nothing_in handshaking before after (sym one.no_op ∙ at))
  shaken-LoginNext t left before after c' (looking_up one knows w e) at stage done =
      let (same, b, f) = one_op resolving handshaking before after (sym one.op ∙ at) in absurd (cc)
  shaken-LoginNext t left before after c' (connecting one knows w e) at stage done =
      let (same, b, f) = one_op opening handshaking before after (sym one.op ∙ at) in absurd (cc)
  shaken-LoginNext t left before after c' (shaking one knows w e) at stage done =
      shaking-LoginNext username password algo heap t left before after c' one knows w e at done
  shaken-LoginNext t left before after c' (greeted one knows w e) at stage done =
      let is = w.stands.stage_is in absurd (ground arith)
  shaken-LoginNext t left before after c' (naming m n x knows (unread s o i) e) at stage done =
      let is = s.stage_is in absurd (ground arith)
  shaken-LoginNext t left before after c' (naming m n x knows (replied s o i) e) at stage done =
      let is = s.stage_is in absurd (ground arith)
  shaken-LoginNext t left before after c' (proving m n x knows (unread s o i) e) at stage done =
      let is = s.stage_is in absurd (ground arith)
  shaken-LoginNext t left before after c' (proving m n x knows (replied s o i) e) at stage done =
      let is = s.stage_is in absurd (ground arith)
  shaken-LoginNext t left before after c' (answering one ready empty rests e) at stage done =
      let is = rests.server.stage_is in absurd (ground arith)
  shaken-LoginNext t left before after c' (answered idle ready empty rests e) at stage done =
      let is = rests.server.stage_is in absurd (ground arith)

  pub Step-LoginNext :
      (t t' : Talk) (left : ℕ) (told : List Task)
      → IsOneLine username
      → IsOneLine password
      → LoginPhase username password t left
      → Step algo heap t t' told
      → LoginNext username password t' told left
  Step-LoginNext t t' left told user pass p (client_acts c' input act e) =
      rw e (client-LoginNext username password algo heap t left c' input told p act)
  Step-LoginNext t t' left told user pass p (server_reads line more r e quiet) =
      rw (e, quiet) (server-LoginNext t left line more user pass p r)
  Step-LoginNext t t' left told user pass p (hands_shaken before after c' at stage done e quiet) =
      rw (e, quiet) (shaken-LoginNext t left before after c' p at stage done)
