-- ===== src/DummyServer/Lines.antt =====
-- The lines of an article as misc/dummy_usenet/dummy_server.cc reads them, one by one.
use post2usenet.Common.{
  true, false, List, [], ◌∷◌, ◌++◌, map, append_assoc, ◌≡◌, ◌≢◌, inl, inr, refl, ap, ◌∙◌, arith,
  Bytes, codes, put, All, IsOneLine, ◌==◌, cr, lf, Bool-cases,
}
use post2usenet.Boost.{StringAlgorithms}
use post2usenet.DummyServer.{
  wants_command, in_article, read_lines, has_null, is_end, on_request, server_send_article,
  server_article_posted,
}

-- A line with its end.
abbrev pub ended : Bytes → Bytes
ended line = line ++ cr ∷ lf ∷ []

pub read_lines-line :
    (before line rest : Bytes)
    → IsOneLine line
    → read_lines false before (line ++ cr ∷ lf ∷ rest)
      ≡ (before ++ (line ++ cr ∷ lf ∷ [])) ∷ read_lines false [] rest
unfolding read_lines
read_lines-line before [] rest h =
    ap (λ t. t ∷ read_lines false [] rest) (append_assoc before (cr ∷ []) (lf ∷ []))
read_lines-line before (c ∷ line) rest h =
    let more = read_lines-line (before ++ c ∷ []) line rest h.1 in
    let plain : (c == cr) ≡ false = ground arith in
    rw plain (
      more
      ∙ ap (λ t. t ∷ read_lines false [] rest)
          (append_assoc before (c ∷ []) (line ++ cr ∷ lf ∷ [])))

-- A line of an article: one line, with no NUL, and not a single dot.
pub record IsBodyLine (line : Bytes) : Type 0 where
  pub one_line : IsOneLine line
  pub no_null : All (λ c. c ≢ 0) line
  pub no_end : line ≢ codes "."

pub read_lines-put :
    (lines : List Bytes)
    → All IsOneLine lines
    → read_lines false [] (put (map ended lines)) ≡ map ended lines
unfolding read_lines
read_lines-put [] h = refl
read_lines-put (line ∷ lines) h = rw (append_assoc line (cr ∷ lf ∷ []) (put (map ended lines))) (
    read_lines-line [] line (put (map ended lines)) h.0
    ∙ ap (λ ls. ended line ∷ ls) (read_lines-put lines h.1))

-- The text that the server keeps of an article: its lines, and the single dot at the end.
unfoldable pub kept : List Bytes → Bytes
kept body = put (map ended (body ++ codes "." ∷ []))

pub kept-nil : kept [] ≡ codes ".\r\n"
unfolding kept
kept-nil = refl

pub kept-cons : (line : Bytes) (body : List Bytes) → kept (line ∷ body) ≡ ended line ++ kept body
unfolding kept
kept-cons line body = refl

pub read_lines-ended :
    (line rest : Bytes)
    → IsOneLine line
    → read_lines false [] (ended line ++ rest) ≡ ended line ∷ read_lines false [] rest
read_lines-ended line rest h =
    rw (append_assoc line (cr ∷ lf ∷ []) rest) (read_lines-line [] line rest h)

has_null-ended : (line : Bytes) → All (λ c. c ≢ 0) line → has_null (ended line) ≡ false
unfolding has_null
has_null-ended [] h = ground arith
has_null-ended (c ∷ line) h = let more = has_null-ended line h.1 in ground arith

is_end-ended : (line : Bytes) → line ≢ codes "." → is_end (ended line) ≡ false
unfolding is_end
is_end-ended [] h = ground arith
is_end-ended (a ∷ []) h = elim (Bool-cases (a == b'.')) [
  | inl same ↦ let dot : a ≡ b'.' = ground arith in absurd (h (ap (λ x. x ∷ []) dot))
  | inr other ↦ ground arith
]
is_end-ended (a ∷ b ∷ []) h = ground arith
is_end-ended (a ∷ b ∷ c ∷ []) h = ground arith
is_end-ended (a ∷ b ∷ c ∷ d ∷ line) h = ground arith

module _ (algo : StringAlgorithms) where
  pub on_request-body :
      (line outfile : Bytes) (written files : List Bytes)
      → IsBodyLine line
      → on_request algo
          (record { stage = in_article outfile; written = written; files = files })
          (ended line)
        ≡ record { stage = in_article (outfile ++ ended line); written = written; files = files }
  unfolding on_request
  on_request-body line outfile written files is_body =
      rw (has_null-ended line is_body.no_null) (rw (is_end-ended line is_body.no_end) refl)

  pub begins : (prefix rest : Bytes) → algo.starts_with (prefix ++ rest) prefix ≡ true
  begins prefix rest = (algo.starts_with_iff (prefix ++ rest) prefix).1 (rest, refl)

  pub on_request-post :
      (written files : List Bytes)
      → on_request algo
          (record { stage = wants_command; written = written; files = files })
          (codes "POST\r\n")
        ≡ record {
          stage = in_article [];
          written = written ++ server_send_article ∷ [];
          files = files;
        }
  unfolding on_request
  on_request-post written files = rw (begins (codes "POST") (codes "\r\n")) refl

  pub on_request-end :
      (outfile : Bytes) (written files : List Bytes)
      → on_request algo
          (record { stage = in_article outfile; written = written; files = files })
          (codes ".\r\n")
        ≡ record {
          stage = wants_command;
          written = written ++ server_article_posted ∷ [];
          files = files ++ (outfile ++ codes ".\r\n") ∷ [];
        }
  unfolding on_request has_null is_end
  on_request-end outfile written files = refl
