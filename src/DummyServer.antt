-- ===== src/DummyServer.antt =====
-- misc/dummy_usenet/dummy_server.cc: one session, as what it does at each line that it reads. A read that
-- fails, at the end of the input or once the stream has been shut down, ends the session where it is;
-- how the TLS handshake ends is an argument, and the writes succeed.
pub mod Lines
pub mod Sessions
pub mod Threads
use post2usenet.Common.{
  ℕ, Bool, true, false, ◌&&◌, ◌||◌, List, [], ◌∷◌, ◌++◌, Bytes, codes, ◌==◌, if◌then◌else◌, cr, lf,
}
use post2usenet.Boost.{StringAlgorithms}

abbrev pub server_welcome : Bytes
server_welcome = codes "200 Some Generic Welcome Message (Posting Allowed)\r\n"

abbrev pub server_auth : Bytes
server_auth = codes "381 PASS required\r\n"

abbrev pub server_auth_success : Bytes
server_auth_success = codes "281 Posting allowed\r\n"

abbrev pub server_send_article : Bytes
server_send_article = codes "381 Send article to be posted\r\n"

abbrev pub server_article_posted : Bytes
server_article_posted = codes "200 Article posted\r\n"

-- The handshake is under way, or which read_line comes next: in the loop of an article it has what has been written to the file. Or the
-- stream has been shut down, the session has returned, or the process has been terminated.
pub data Stage : Type 0 where
  wants_handshake wants_user wants_pass wants_command : Stage
  in_article : Bytes → Stage
  shut_down returned terminated : Stage

-- What has been written to the client, and the files that have been closed.
pub record Session : Type 0 where
  pub stage : Stage
  pub written : List Bytes
  pub files : List Bytes

-- The thread of a connection that has been accepted, in front of the handshake.
abbrev pub new_session : Session
new_session = record { stage = wants_handshake; written = []; files = [] }

-- The handshake has ended: if well, the client is welcomed; if not, the exception ends the session.
unfoldable pub shake_hands : Bool → Session → Session
shake_hands ok s = elim s.stage [
  | wants_handshake ↦
      if ok
      then record s { stage = wants_user; written = s.written ++ server_welcome ∷ [] }
      else record s { stage = returned }
  | _ ↦ s
]

-- The lines that read_line gives of an input, with their ends; `line` has been read of the next one,
-- and a CR at its end is marked. What is no whole line at the end is not given.
unfoldable pub read_lines : Bool → Bytes → Bytes → List Bytes
read_lines after_cr line [] = []
read_lines after_cr line (c ∷ input) =
    let whole = read_lines false [] input in
    let longer = read_lines (c == cr) (line ++ c ∷ []) input in
    if after_cr && c == lf then (line ++ c ∷ []) ∷ whole else longer

unfoldable pub has_null : Bytes → Bool
has_null [] = false
has_null (c ∷ line) = c == 0 || has_null line

unfoldable pub is_end : Bytes → Bool
is_end (a ∷ b ∷ c ∷ []) = a == b'.' && (b == cr && c == lf)
is_end _ = false

unfoldable pub on_request : StringAlgorithms → Session → Bytes → Session
unfolding has_null is_end
on_request algo s line = elim s.stage [
  | wants_user ↦
      if algo.starts_with line (codes "AUTHINFO USER")
      then record s { stage = wants_pass; written = s.written ++ server_auth ∷ [] }
      else record s { stage = returned }
  | wants_pass ↦
      if algo.starts_with line (codes "AUTHINFO PASS")
      then record s { stage = wants_command; written = s.written ++ server_auth_success ∷ [] }
      else record s { stage = returned }
  | wants_command ↦
      if algo.starts_with line (codes "POST")
      then record s { stage = in_article []; written = s.written ++ server_send_article ∷ [] }
      else if algo.starts_with line (codes "QUIT")
      then record s { stage = shut_down }
      else s
  | in_article outfile ↦
      if has_null line
      then record s { stage = terminated }
      else if is_end line
      then record s {
        stage = wants_command;
        written = s.written ++ server_article_posted ∷ [];
        files = s.files ++ (outfile ++ line) ∷ [];
      }
      else record s { stage = in_article (outfile ++ line) }
  | _ ↦ s
]

pub on_requests : StringAlgorithms → Session → List Bytes → Session
unfolding on_request
on_requests algo s [] = s
on_requests algo s (line ∷ rest) = on_requests algo (on_request algo s line) rest

-- A session, given how the handshake ends and all that the client sends behind it.
pub usenet_session : StringAlgorithms → Bool → Bytes → Session
unfolding on_requests read_lines shake_hands
usenet_session algo ok input =
    on_requests algo (shake_hands ok new_session) (read_lines false [] input)
