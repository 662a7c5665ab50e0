-- ===== src/Tests/Talk.antt =====
-- The theorems on a talk of nntp/connection.cc and misc/dummy_usenet/dummy_server.cc at one article.
use post2usenet.Common.{
  List, [], ◌∷◌, ◌≡◌, refl, arith, Bytes, codes, put, All, IsOneLine, ◌≢◌, some, true,
}
use post2usenet.Connection.{
  make_connection, send_parts, tell_post, post_success, tell_connect, connect_success,
}
use post2usenet.Message.{write_to, write_payload_asio_buffers}
use post2usenet.DummyServer.{wants_command, server_welcome, server_auth, server_auth_success}
use post2usenet.DummyServer.Lines.{IsBodyLine, kept}
use post2usenet.Talk.{Talk, Steps}
use post2usenet.Talk.Ends.{AtRest, asked, PostAfter, async_post-PostAfter, async_post-ends}
use post2usenet.Common.Int.{pos}
use post2usenet.DummyServer.{new_session}
use post2usenet.ConnectionInfo.{ConnectionInfo}
use post2usenet.Talk.Login.Whole.{
  JustMade, asked_in, LoginAfter, async_connect-LoginAfter, async_connect-ends,
}
use post2usenet.Tests.Data.{boost_algorithm, news_server}
use post2usenet.Tests.Connection.{test_heap, idle_connection}

abbrev talk : Talk
talk = record {
  client = record idle_connection { sslstream = true };
  server = record {
    stage = wants_command;
    written = server_welcome ∷ server_auth ∷ server_auth_success ∷ [];
    files = [];
  };
  to_server = [];
  to_client = [];
}

abbrev article_lines : List Bytes
article_lines =
    codes "From: poster"
    ∷ codes "Newsgroups: alt.a,alt.b"
    ∷ codes "Subject: one"
    ∷ codes "Message-ID: <1@a>"
    ∷ codes "X-A: b"
    ∷ []
    ∷ codes "one line"
    ∷ []
    ∷ []

talk-AtRest : AtRest talk []
unfolding make_connection
talk-AtRest = record {
  ready = refl;
  idle = record { no_op = refl; no_task = refl };
  nothing_buffered = refl;
  waits = refl;
  files_are = refl;
  to_server = refl;
  to_client = refl;
}

text_is_lines : put (send_parts boost_algorithm (test_heap 7)) ≡ kept article_lines
unfolding send_parts write_to kept write_payload_asio_buffers
text_is_lines = refl

body_line :
    (line : Bytes) → IsOneLine line → All (λ c. c ≢ 0) line → line ≢ codes "." → IsBodyLine line
body_line line one plain other = record { one_line = one; no_null = plain; no_end = other }

article_lines-IsBodyLine : All IsBodyLine article_lines
article_lines-IsBodyLine = (
  body_line _ (omega arith) (omega arith) (λ e. ground arith),
  (
    body_line _ (omega arith) (omega arith) (λ e. ground arith),
    (
      body_line _ (omega arith) (omega arith) (λ e. ground arith),
      (
        body_line _ (omega arith) (omega arith) (λ e. ground arith),
        (
          body_line _ (omega arith) (omega arith) (λ e. ground arith),
          (
            body_line _ (omega arith) (omega arith) (λ e. ground arith),
            (
              body_line _ (omega arith) (omega arith) (λ e. ground arith),
              (body_line _ (omega arith) (omega arith) (λ e. ground arith), tt),
            ),
          ),
        ),
      ),
    ),
  ),
)

abbrev end : Talk
end =
    (async_post-ends boost_algorithm test_heap 7 [] article_lines talk talk-AtRest text_is_lines
      article_lines-IsBodyLine).0

whole_talk :
    Steps boost_algorithm test_heap (asked talk 7) 16 end (tell_post (some 7) post_success ∷ [])
whole_talk =
    (async_post-ends boost_algorithm test_heap 7 [] article_lines talk talk-AtRest text_is_lines
      article_lines-IsBodyLine).1

async_post-PostAfter_example :
    PostAfter boost_algorithm test_heap 7 [] article_lines end 16
      (tell_post (some 7) post_success ∷ [])
async_post-PostAfter_example =
    async_post-PostAfter boost_algorithm test_heap 7 [] article_lines talk end 16
      (tell_post (some 7) post_success ∷ []) talk-AtRest text_is_lines article_lines-IsBodyLine
      whole_talk

async_post-ends_example :
    (end : Talk) × Steps boost_algorithm test_heap
      (asked talk 7)
      16
      end
      (tell_post (some 7) post_success ∷ [])
    × AtRest end (kept article_lines ∷ [])
async_post-ends_example =
    async_post-ends boost_algorithm test_heap 7 [] article_lines talk talk-AtRest text_is_lines
      article_lines-IsBodyLine

-- A connection by TLS that has just been made.
abbrev tls_server : ConnectionInfo
tls_server = record news_server { tls = true }

abbrev new_talk : Talk
new_talk = record {
  client = make_connection tls_server (pos 5);
  server = new_session;
  to_server = [];
  to_client = [];
}

new_talk-JustMade : JustMade new_talk tls_server (pos 5)
new_talk-JustMade = record { client = refl; server = refl; to_server = refl; to_client = refl }

abbrev logged_in_talk : Talk
logged_in_talk =
    (async_connect-ends boost_algorithm test_heap new_talk tls_server (pos 5) new_talk-JustMade refl
      (omega arith) (omega arith)).0

whole_login :
    Steps boost_algorithm test_heap
      (asked_in new_talk)
      12
      logged_in_talk
      (tell_connect connect_success ∷ [])
whole_login =
    (async_connect-ends boost_algorithm test_heap new_talk tls_server (pos 5) new_talk-JustMade refl
      (omega arith) (omega arith)).1

async_connect-LoginAfter_example :
    LoginAfter boost_algorithm test_heap tls_server.username tls_server.password logged_in_talk 12
      (tell_connect connect_success ∷ [])
async_connect-LoginAfter_example =
    async_connect-LoginAfter boost_algorithm test_heap new_talk logged_in_talk tls_server (pos 5) 12
      (tell_connect connect_success ∷ []) new_talk-JustMade refl (omega arith) (omega arith)
      whole_login
