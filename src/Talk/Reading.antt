-- ===== src/Talk/Reading.antt =====
-- The steps of the server of misc/dummy_usenet/dummy_server.cc in one post of nntp/connection.cc.
use post2usenet.Common.{
  ℕ, suc, length, drop, drop-append, false, List, [], ◌∷◌, ◌++◌, append-nil, append_assoc, ◌≡◌,
  refl, sym, ap, ◌∙◌, arith, Bytes, codes, IsOneLine,
}
use post2usenet.Boost.{StringAlgorithms}
use post2usenet.DummyServer.{
  Session, Stage, wants_command, in_article, read_lines, on_request, server_send_article,
  server_article_posted,
}
use post2usenet.DummyServer.Lines.{
  ended, kept, kept-nil, kept-cons, read_lines-ended, on_request-body, on_request-post,
  on_request-end,
}
use post2usenet.Talk.{Talk, server_goes_on}
use post2usenet.Talk.Acting.{drop_all}
use post2usenet.Talk.Phase.{Stands, CommandOut, unread, invited, TextOut, keeps, has_kept}

-- Where nothing is on its way, the server reads nothing.
pub nothing_read :
    (input line : Bytes) (more : List Bytes)
    → input ≡ []
    → ¬ (read_lines false [] input ≡ line ∷ more)
unfolding read_lines
nothing_read input line more e r = let r' = rw e at r in absurd (cc)

-- A line is read: of what is on its way to the server, what follows it is left.
pub record Reads (t : Talk) (line text rest : Bytes) : Type 0 where
  pub this : line ≡ ended text
  pub left : drop (length line) t.to_server ≡ rest

pub line-Reads :
    (t : Talk) (line text rest : Bytes) (more : List Bytes)
    → IsOneLine text
    → t.to_server ≡ ended text ++ rest
    → read_lines false [] t.to_server ≡ line ∷ more
    → Reads t line text rest
line-Reads t line text rest more plain e r =
    let r' = rw e at r in
    let lines = read_lines-ended text rest plain in
    let this : line ≡ ended text = cc in
    record { this = this; left = rw (this, e) (drop-append (ended text) rest) }

module _ (algo : StringAlgorithms) (files : List Bytes) where
  -- What is on its way to the client, where the server writes nothing, or one reply.
  silent :
      (t : Talk) (line : Bytes)
      → (on_request algo t.server line).written ≡ t.server.written
      → (server_goes_on algo t line).to_client ≡ t.to_client
  unfolding server_goes_on
  silent t line e = rw (e, drop_all t.server.written) (append-nil t.to_client)

  pub replying :
      (t : Talk) (line reply : Bytes)
      → (on_request algo t.server line).written ≡ t.server.written ++ reply ∷ []
      → t.to_client ≡ []
      → (server_goes_on algo t line).to_client ≡ reply
  unfolding server_goes_on
  replying t line reply e none_yet =
      rw (e, drop-append t.server.written (reply ∷ []), none_yet) (append-nil reply)

  -- How the server handles a line: its stage and files behind it, and what it writes.
  pub record Handles (s : Session) (line : Bytes) (stage : Stage) (files' written : List Bytes)
      : Type 0 where
    pub stands : Stands (on_request algo s line) stage files'
    pub writes : (on_request algo s line).written ≡ s.written ++ written

  pub handled :
      (s : Session) (line : Bytes) (at next : Stage) (files' written : List Bytes)
      → Stands s at files
      → on_request algo (record { stage = at; written = s.written; files = files }) line
        ≡ record { stage = next; written = s.written ++ written; files = files' }
      → Handles s line next files' written
  handled s line at next files' written stands e =
      let whole : on_request algo s line
          ≡ record { stage = next; written = s.written ++ written; files = files' } =
        ap (λ x. on_request algo x line)
          (λ i. record {
            stage = stands.stage_is i;
            written = s.written;
            files = stands.files_are i;
          })
        ∙ e in
      record {
        stands = record { stage_is = ap (λ x. x.stage) whole; files_are = ap (λ x. x.files) whole };
        writes = ap (λ x. x.written) whole;
      }

  -- The server takes the command.
  pub CommandOut-reads :
      (t : Talk) (n : ℕ) (line : Bytes) (more : List Bytes)
      → CommandOut t files n
      → read_lines false [] t.to_server ≡ line ∷ more
      → (n ≡ 1) × CommandOut (server_goes_on algo t line) files 0
  unfolding server_goes_on
  CommandOut-reads t n line more (unread s o i) r =
      let got = line-Reads t line (codes "POST") [] more (omega arith) o r in
      let does =
        handled t.server line wants_command (in_article []) files (server_send_article ∷ []) s
          (rw got.this (on_request-post algo t.server.written files)) in
      (refl, invited does.stands got.left (replying t line server_send_article does.writes i))
  CommandOut-reads t n line more (invited s o i) r = absurd (nothing_read t.to_server line more o r)

  -- The server takes a line of the text.
  pub TextOut-reads :
      (t : Talk) (n : ℕ) (body : List Bytes) (line : Bytes) (more : List Bytes)
      → TextOut t files body n
      → read_lines false [] t.to_server ≡ line ∷ more
      → (m : ℕ) × (n ≡ suc m) × TextOut (server_goes_on algo t line) files body m
  unfolding server_goes_on
  TextOut-reads t n body line more (keeps outfile [] s o i h w) r =
      let got = line-Reads t line (codes ".") [] more (omega arith) (o ∙ kept-nil) r in
      let all : outfile ++ codes ".\r\n" ≡ kept body = ap (λ x. outfile ++ x) (sym kept-nil) ∙ w in
      let does =
        handled t.server line (in_article outfile) wants_command (files ++ kept body ∷ [])
          (server_article_posted ∷ []) s
          (rw got.this (
            on_request-end algo outfile t.server.written files
            ∙ ap
                (λ x. record {
                  stage = wants_command;
                  written = t.server.written ++ server_article_posted ∷ [];
                  files = files ++ x ∷ [];
                })
                all)) in
      (0, refl, has_kept does.stands got.left (replying t line server_article_posted does.writes i))
  TextOut-reads t n body line more (keeps outfile (next ∷ rest) s o i h w) r =
      let got = line-Reads t line next (kept rest) more h.0.one_line (o ∙ kept-cons next rest) r in
      let does =
        handled t.server line (in_article outfile) (in_article (outfile ++ ended next)) files [] s (
          rw (got.this, append-nil t.server.written)
            (on_request-body algo next outfile t.server.written files h.0)) in
      (
        suc (length rest),
        refl,
        keeps (outfile ++ ended next) rest does.stands got.left
            (silent t line (does.writes ∙ append-nil t.server.written) ∙ i) h.1
            (append_assoc outfile (ended next) (kept rest)
              ∙ ap (λ x. outfile ++ x) (sym (kept-cons next rest))
              ∙ w),
      )
  TextOut-reads t n body line more (has_kept s o i) r =
      absurd (nothing_read t.to_server line more o r)
