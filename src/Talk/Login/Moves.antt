-- ===== src/Talk/Login/Moves.antt =====
-- A login of nntp/connection.cc to misc/dummy_usenet/dummy_server.cc never gets stuck.
use post2usenet.Common.{
  ℕ, suc, false, [], ◌∷◌, append-nil, ◌≡◌, refl, sym, ap, ◌∙◌, inl, inr, arith, Bytes, codes,
  IsOneLine, Option-cases, some, length,
}
use post2usenet.Boost.{StringAlgorithms}
use post2usenet.Connection.{
  Heap, run_connect, greeting, username_cmd, username_reply, password_cmd, password_reply, reading,
  cancel_timer,
}
use post2usenet.Connection.Complete.{completed_read, on_line}
use post2usenet.Connection.Posting.{OneOp}
use post2usenet.DummyServer.{read_lines, server_welcome, server_auth, server_auth_success}
use post2usenet.DummyServer.Lines.{ended, begins, read_lines-ended}
use post2usenet.Talk.{Talk, resolves, opens, writes, hands_shaken}
use post2usenet.Talk.Phase.{being_written, awaited}
use post2usenet.Talk.Moves.{Moves, acts, hears, task-Moves, reply-Moves}
use post2usenet.Talk.Login.{
  unread, replied, user_line, pass_line, LoginPhase, requested, looking_up, connecting, shaking,
  greeted, naming, proving, answering, answered,
}
use post2usenet.Talk.Login.Ends.{user_line-IsOneLine, pass_line-IsOneLine}

one_line_read : (line : Bytes) → IsOneLine line → read_lines false [] (ended line) ≡ ended line ∷ []
unfolding read_lines
one_line_read line plain =
    ap (read_lines false []) (sym (append-nil (ended line))) ∙ read_lines-ended line [] plain

module _ (algo : StringAlgorithms) (heap : Heap) where
  greeting-Moves :
      (t : Talk)
      → OneOp t.client (reading greeting)
      → t.client.readbuf ≡ []
      → t.to_client ≡ server_welcome
      → Moves algo heap t
  unfolding completed_read read_lines on_line cancel_timer
  greeting-Moves t one empty e =
      reply-Moves algo heap t greeting server_welcome _ one empty e refl refl

  username_reply-Moves :
      (t : Talk)
      → OneOp t.client (reading username_reply)
      → t.client.readbuf ≡ []
      → t.to_client ≡ server_auth
      → Moves algo heap t
  unfolding completed_read read_lines on_line cancel_timer
  username_reply-Moves t one empty e =
      let asks = begins algo (codes "381") (codes " PASS required\r\n") in
      let bare = record t.client { pending = [] } in
      elim (Option-cases
        (completed_read algo heap username_reply (some (server_auth, length server_auth)) bare)) [
          | inl stuck ↦ absurd (ground (arith, stuck, asks))
          | inr (c', done) ↦
              reply-Moves algo heap t username_reply server_auth c' one empty e refl done
        ]

  password_reply-Moves :
      (t : Talk)
      → OneOp t.client (reading password_reply)
      → t.client.readbuf ≡ []
      → t.to_client ≡ server_auth_success
      → Moves algo heap t
  unfolding completed_read read_lines on_line cancel_timer
  password_reply-Moves t one empty e =
      reply-Moves algo heap t password_reply server_auth_success _ one empty e refl refl

  module _ (username password : Bytes) where
    pub LoginPhase-Moves :
        (t : Talk) (left : ℕ)
        → IsOneLine username
        → IsOneLine password
        → LoginPhase username password t (suc left)
        → Moves algo heap t
    LoginPhase-Moves t left user pass (requested one knows w e) =
        task-Moves algo heap t run_connect one
    LoginPhase-Moves t left user pass (looking_up one knows w e) =
        acts algo heap t _ t.to_client [] (resolves [] [] one.op refl refl refl)
    LoginPhase-Moves t left user pass (connecting one knows w e) =
        acts algo heap t _ t.to_client [] (opens [] [] one.op refl refl refl)
    LoginPhase-Moves t left user pass (shaking one knows w e) = record {
      next = _;
      told = [];
      step = hands_shaken [] [] _ one.op w.stands.stage_is refl refl refl;
    }
    LoginPhase-Moves t left user pass (greeted one knows w e) =
        greeting-Moves t one knows.nothing_buffered w.to_client
    LoginPhase-Moves t left user pass (naming m n (being_written one) knows asks e) =
        acts algo heap t _ t.to_client [] (writes [] [] username_cmd one.op refl refl refl)
    LoginPhase-Moves t left user pass (naming m n (awaited one) knows (unread s o i) e) =
        hears algo heap t (ended (user_line username)) [] (
          ap (read_lines false []) o
          ∙ one_line_read (user_line username) (user_line-IsOneLine username user))
    LoginPhase-Moves t left user pass (naming m n (awaited one) knows (replied s o i) e) =
        username_reply-Moves t one knows.nothing_buffered i
    LoginPhase-Moves t left user pass (proving m n (being_written one) knows asks e) =
        acts algo heap t _ t.to_client [] (writes [] [] password_cmd one.op refl refl refl)
    LoginPhase-Moves t left user pass (proving m n (awaited one) knows (unread s o i) e) =
        hears algo heap t (ended (pass_line password)) [] (
          ap (read_lines false []) o
          ∙ one_line_read (pass_line password) (pass_line-IsOneLine password pass))
    LoginPhase-Moves t left user pass (proving m n (awaited one) knows (replied s o i) e) =
        password_reply-Moves t one knows.nothing_buffered i
    LoginPhase-Moves t left user pass (answering one ready empty rests e) =
        task-Moves algo heap t _ one
    LoginPhase-Moves t left user pass (answered idle ready empty rests e) = absurd (omega arith)
