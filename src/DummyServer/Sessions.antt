-- ===== src/DummyServer/Sessions.antt =====
-- Whole sessions of misc/dummy_usenet/dummy_server.cc.
use mathlib.Core.List.{map-append}
use post2usenet.Common.{
  ℕ, zero, suc, true, length, List, [], ◌∷◌, ◌++◌, map, append_assoc, append-nil, ◌≡◌, refl, sym,
  ap, ◌∙◌, arith, Bytes, codes, put, All, All-append, All-mono, IsOneLine,
}
use post2usenet.Boost.{StringAlgorithms}
use post2usenet.DummyServer.Lines.{
  ended, IsBodyLine, read_lines-put, kept, on_request-body, begins, on_request-post,
}
use post2usenet.DummyServer.{
  wants_user, wants_command, wants_pass, in_article, Session, has_null, is_end, on_request,
  on_requests, shake_hands, usenet_session, server_welcome, server_auth, server_auth_success,
  server_send_article, server_article_posted,
}

-- The lines of a post, without their ends.
pub post_lines : List Bytes → List Bytes
post_lines body = codes "POST" ∷ (body ++ codes "." ∷ [])

session_same :
    {w w' f f' : List Bytes}
    → w ≡ w'
    → f ≡ f'
    → ◌≡◌ {A = Session}
        (record { stage = wants_command; written = w; files = f })
        (record { stage = wants_command; written = w'; files = f' })
session_same e e' = rw (e, e') refl

module _ (algo : StringAlgorithms) where
  -- The server reads the body of an article, and goes on behind it.
  on_requests-body :
      (body : List Bytes) (outfile : Bytes) (written files : List Bytes) (more : List Bytes)
      → All IsBodyLine body
      → on_requests algo
          (record { stage = in_article outfile; written = written; files = files })
          (map ended (body ++ codes "." ∷ []) ++ more)
        ≡ on_requests algo
            (record {
              stage = wants_command;
              written = written ++ server_article_posted ∷ [];
              files = files ++ (outfile ++ kept body) ∷ [];
            })
            more
  unfolding on_requests on_request kept has_null is_end
  on_requests-body [] outfile written files more h = refl
  on_requests-body (line ∷ body) outfile written files more (is_body, h) =
      ap (λ t. on_requests algo t (map ended (body ++ codes "." ∷ []) ++ more))
        (on_request-body algo line outfile written files is_body)
      ∙ on_requests-body body (outfile ++ ended line) written files more h
      ∙ ap
          (λ text.
            on_requests algo
              (record {
                stage = wants_command;
                written = written ++ server_article_posted ∷ [];
                files = files ++ text ∷ [];
              })
              more)
          (append_assoc outfile (ended line) (kept body))

  -- The lines of some posts, and the replies to them.
  pub all_lines : List (List Bytes) → List Bytes
  all_lines [] = []
  all_lines (body ∷ bodies) = post_lines body ++ all_lines bodies

  pub replies : ℕ → List Bytes
  replies zero = []
  replies (suc n) = server_send_article ∷ server_article_posted ∷ replies n

  on_requests-posts :
      (bodies : List (List Bytes)) (written files : List Bytes)
      → All (All IsBodyLine) bodies
      → on_requests algo
          (record { stage = wants_command; written = written; files = files })
          (map ended (all_lines bodies))
        ≡ record {
          stage = wants_command;
          written = written ++ replies (length bodies);
          files = files ++ map kept bodies;
        }
  unfolding on_requests on_request all_lines replies post_lines
  on_requests-posts [] written files h =
      session_same (sym (append-nil written)) (sym (append-nil files))
  on_requests-posts (body ∷ bodies) written files (first, h) =
      let sent = written ++ server_send_article ∷ [] in
      let done = sent ++ server_article_posted ∷ [] in
      ap (λ t. on_requests algo t (map ended ((body ++ codes "." ∷ []) ++ all_lines bodies)))
        (on_request-post algo written files)
      ∙ ap (on_requests algo (record { stage = in_article []; written = sent; files = files }))
          (map-append ended (body ++ codes "." ∷ []) (all_lines bodies))
      ∙ on_requests-body body [] sent files (map ended (all_lines bodies)) first
      ∙ on_requests-posts bodies done (files ++ kept body ∷ []) h
      ∙ session_same
          (append_assoc sent (server_article_posted ∷ []) (replies (length bodies))
            ∙ append_assoc written (server_send_article ∷ [])
                (server_article_posted ∷ replies (length bodies)))
          (append_assoc files (kept body ∷ []) (map kept bodies))

  all_lines-IsOneLine :
      (bodies : List (List Bytes)) → All (All IsBodyLine) bodies → All IsOneLine (all_lines bodies)
  unfolding all_lines post_lines
  all_lines-IsOneLine [] h = tt
  all_lines-IsOneLine (body ∷ bodies) (first, h) = (
    omega arith,
    All-append IsOneLine (body ++ codes "." ∷ []) (all_lines bodies)
        (All-append IsOneLine body (codes "." ∷ [])
          (All-mono IsBodyLine IsOneLine (λ line is_body. is_body.one_line) body first)
          (omega arith, tt))
        (all_lines-IsOneLine bodies h),
  )

  on_request-user :
      (name : Bytes)
      → on_request algo
          (record { stage = wants_user; written = server_welcome ∷ []; files = [] })
          (ended (codes "AUTHINFO USER " ++ name))
        ≡ record { stage = wants_pass; written = server_welcome ∷ server_auth ∷ []; files = [] }
  unfolding on_request
  on_request-user name = rw (begins algo (codes "AUTHINFO USER") (codes " " ++ ended name)) refl

  on_request-pass :
      (word : Bytes)
      → on_request algo
          (record { stage = wants_pass; written = server_welcome ∷ server_auth ∷ []; files = [] })
          (ended (codes "AUTHINFO PASS " ++ word))
        ≡ record {
          stage = wants_command;
          written = server_welcome ∷ server_auth ∷ server_auth_success ∷ [];
          files = [];
        }
  unfolding on_request
  on_request-pass word = rw (begins algo (codes "AUTHINFO PASS") (codes " " ++ ended word)) refl

  -- What a client sends that logs in and posts some articles.
  pub client_lines : Bytes → Bytes → List (List Bytes) → List Bytes
  client_lines username password bodies =
      (codes "AUTHINFO USER " ++ username) ∷ (codes "AUTHINFO PASS " ++ password) ∷ all_lines bodies

  -- A session with a client whose handshake goes well, and which logs in and posts some articles: the server replies to each line that
  -- asks for a reply, in order, and keeps of each article the text that it has been sent, the single dot
  -- at its end included; then it waits for the next command. No line holds a NUL or a line end, and none
  -- within an article is a single dot.
  pub usenet_session-posts :
      (username password : Bytes) (bodies : List (List Bytes))
      → IsOneLine username
      → IsOneLine password
      → All (All IsBodyLine) bodies
      → usenet_session algo true (put (map ended (client_lines username password bodies)))
        ≡ record {
          stage = wants_command;
          written = server_welcome ∷ server_auth ∷ server_auth_success ∷ replies (length bodies);
          files = map kept bodies;
        }
  unfolding usenet_session client_lines shake_hands
  usenet_session-posts username password bodies user pass h =
      let lines = client_lines username password bodies in
      let rest = map ended (all_lines bodies) in
      let one_lines : All IsOneLine lines = (
        All-append _ (codes "AUTHINFO USER ") username (omega arith) user,
        (
          All-append _ (codes "AUTHINFO PASS ") password (omega arith) pass,
          all_lines-IsOneLine bodies h,
        ),
      ) in
      ap
        (on_requests algo
          (record { stage = wants_user; written = server_welcome ∷ []; files = [] }))
        (read_lines-put lines one_lines)
      ∙ ap (λ t. on_requests algo t (ended (codes "AUTHINFO PASS " ++ password) ∷ rest))
          (on_request-user username)
      ∙ ap (λ t. on_requests algo t rest) (on_request-pass password)
      ∙ on_requests-posts bodies (server_welcome ∷ server_auth ∷ server_auth_success ∷ []) [] h
