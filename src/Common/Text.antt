-- ===== src/Common/Text.antt =====
-- Texts as lists of bytes.
use Prim.Native.Nat.{ℕ, ◌<◌}
use Prim.Native.Char.{code}
use Prim.Native.String.{String}
use mathlib.Core.Logic.{◌≢◌}
use post2usenet.Common.Lists.{All, All-append}
use mathlib.Core.List.{List, [], ◌∷◌, ◌++◌, append_assoc}
use mathlib.Core.Path.{◌≡◌, refl, ap, sym, ◌∙◌}

-- std::string and std::vector<char>, one number for each byte.
abbrev pub Bytes : Type 0
Bytes = List ℕ

-- The bytes of an ASCII literal.
abbrev pub codes : String → Bytes
codes String.[] = []
codes (String.◌∷◌ c s) = code c ∷ codes s

abbrev pub cr : ℕ
cr = 13

abbrev pub lf : ℕ
lf = 10

abbrev pub IsByte : ℕ → Type 0
IsByte c = c < 256

-- No line ends within the text.
abbrev pub IsOneLine : Bytes → Type 0
IsOneLine = All (λ c. (c ≢ cr) × (c ≢ lf))

-- What `stream << a << b << …` writes.
abbrev pub put : List Bytes → Bytes
put [] = []
put (s ∷ texts) = s ++ put texts

pub put-line_end :
    (texts : List Bytes) → put (texts ++ codes "\r\n" ∷ []) ≡ put texts ++ cr ∷ lf ∷ []
put-line_end [] = refl
put-line_end (s ∷ texts) =
    ap (◌++◌ s) (put-line_end texts) ∙ sym (append_assoc s (put texts) (cr ∷ lf ∷ []))

pub IsOneLine-put : (texts : List Bytes) → All IsOneLine texts → IsOneLine (put texts)
IsOneLine-put [] h = tt
IsOneLine-put (s ∷ texts) h = All-append _ s (put texts) h.0 (IsOneLine-put texts h.1)
