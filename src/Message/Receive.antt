-- ===== src/Message/Receive.antt =====
-- The receiving side of POST, written from RFC 3977 and not from the program: the text of an article
-- runs up to a line that is a single dot, and of a line that begins with a dot the dot is dropped.
use mathlib.Core.Option
use post2usenet.Common.{
  List, [], ◌∷◌, ◌++◌, append_assoc, append-nil, ◌≡◌, ◌≢◌, refl, sym, ap, ◌∙◌, Option, none, some,
  arith, Bytes, codes, put, put-line_end, IsOneLine-put, All, IsOneLine, ◌==◌, if◌then◌else◌, cr,
  lf,
}

-- Where the reader stands: at the start of a line, behind a dot there, behind that dot and a CR, in a
-- line, or in a line behind a CR.
data Place : Type 0 where
  start dot dot_cr inside inside_cr : Place

abbrev prepend : Bytes → Option (Bytes × Bytes) → Option (Bytes × Bytes)
prepend s = Option.map (λ r. (s ++ r.0, r.1))

-- The text of the article, and what follows it; `none` if the end has not come.
receive_from : Place → Bytes → Option (Bytes × Bytes)
receive_from start [] = none
receive_from _ [] = none
receive_from start (c ∷ s) =
    let hidden = receive_from dot s in
    let ending = prepend (c ∷ []) (receive_from inside_cr s) in
    let more = prepend (c ∷ []) (receive_from inside s) in
    if c == b'.' then hidden else if c == cr then ending else more
receive_from dot (c ∷ s) =
    let ending = receive_from dot_cr s in
    let more = prepend (c ∷ []) (receive_from inside s) in if c == cr then ending else more
receive_from dot_cr (c ∷ s) =
    let more = prepend (cr ∷ c ∷ []) (receive_from inside s) in
    if c == lf then some ([], s) else more
receive_from inside (c ∷ s) =
    let ending = prepend (c ∷ []) (receive_from inside_cr s) in
    let more = prepend (c ∷ []) (receive_from inside s) in if c == cr then ending else more
receive_from inside_cr (c ∷ s) =
    let next = prepend (c ∷ []) (receive_from start s) in
    let ending = prepend (c ∷ []) (receive_from inside_cr s) in
    let more = prepend (c ∷ []) (receive_from inside s) in
    if c == lf then next else if c == cr then ending else more

pub receive : Bytes → Option (Bytes × Bytes)
unfolding receive_from
receive s = receive_from start s

-- A text of whole lines that the reader passes on as it is.
pub record Passes (s : Bytes) : Type 0 where
  pub pass : (rest : Bytes) → receive (s ++ rest) ≡ prepend s (receive rest)

prepend-prepend :
    (s t : Bytes) (o : Option (Bytes × Bytes)) → prepend s (prepend t o) ≡ prepend (s ++ t) o
prepend-prepend s t none = refl
prepend-prepend s t (some r) = ap (λ (u : Bytes). some (u, r.1)) (sym (append_assoc s t r.0))

prepend-nil : (o : Option (Bytes × Bytes)) → o ≡ prepend [] o
prepend-nil none = refl
prepend-nil (some r) = refl

pub Passes-nil : Passes []
Passes-nil = record { pass = λ rest. prepend-nil (receive rest) }

pub Passes-append : (s t : Bytes) → Passes s → Passes t → Passes (s ++ t)
Passes-append s t hs ht = record {
  pass = λ rest.
      rw append_assoc
        (hs.pass (t ++ rest) ∙ ap (prepend s) (ht.pass rest) ∙ prepend-prepend s t (receive rest));
}

pub Passes-put : (texts : List Bytes) → All Passes texts → Passes (put texts)
Passes-put [] h = Passes-nil
Passes-put (s ∷ texts) h = Passes-append s (put texts) h.0 (Passes-put texts h.1)

-- A line that does not begin with a dot.
abbrev pub NoDot : Bytes → Type 0
NoDot [] = Unit {0}
NoDot (c ∷ s) = c ≢ b'.'

receive-inside :
    (line rest : Bytes)
    → IsOneLine line
    → receive_from inside (line ++ cr ∷ lf ∷ rest)
      ≡ prepend (line ++ cr ∷ lf ∷ []) (receive_from start rest)
unfolding receive_from
receive-inside [] rest h = prepend-prepend (cr ∷ []) (lf ∷ []) (receive_from start rest)
receive-inside (c ∷ line) rest h = ground (
  arith,
  receive-inside line rest h.1,
  prepend-prepend (c ∷ []) (line ++ cr ∷ lf ∷ []) (receive_from start rest),
)

receive-line :
    (line rest : Bytes)
    → IsOneLine line
    → NoDot line
    → receive ((line ++ cr ∷ lf ∷ []) ++ rest) ≡ prepend (line ++ cr ∷ lf ∷ []) (receive rest)
unfolding receive receive_from
receive-line [] rest h n = prepend-prepend (cr ∷ []) (lf ∷ []) (receive_from start rest)
receive-line (c ∷ line) rest h n = rw append_assoc (
    ground (
      arith,
      receive-inside line rest h.1,
      prepend-prepend (c ∷ []) (line ++ cr ∷ lf ∷ []) (receive_from start rest),
    ))

pub Passes-line : (line : Bytes) → IsOneLine line → NoDot line → Passes (line ++ cr ∷ lf ∷ [])
Passes-line line h n = record { pass = λ rest. receive-line line rest h n }

-- A line that is written piece by piece.
pub Passes-put_line :
    (texts : List Bytes)
    → All IsOneLine texts
    → NoDot (put texts)
    → Passes (put (texts ++ codes "\r\n" ∷ []))
Passes-put_line texts h n = rw put-line_end (Passes-line (put texts) (IsOneLine-put texts h) n)

-- The single dot ends the text.
pub receive_end :
    (s rest : Bytes) → Passes s → receive (s ++ codes ".\r\n" ++ rest) ≡ some (s, rest)
unfolding receive receive_from
receive_end s rest h =
    rw append_assoc
      (h.pass (codes ".\r\n" ++ rest) ∙ ap (λ (t : Bytes). some (t, rest)) (append-nil s))
