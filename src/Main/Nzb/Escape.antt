-- ===== src/Main/Nzb/Escape.antt =====
-- ghetto_xml_escape of main.cc, against an escape that goes byte by byte.
use mathlib.Core.Path.{subst}
use post2usenet.Common.{
  ℕ, ◌≢◌, Bool, true, not, ◌&&◌, ◌||◌, [], ◌∷◌, ◌++◌, append_assoc, ◌≡◌, inl, inr, refl, sym, ap,
  ◌∙◌, arith, Bytes, codes, ◌==◌, if◌then◌else◌, All, All-append, Bool-cases,
}
use post2usenet.Boost.{Replacing}
use post2usenet.Main.Nzb.{ghetto_xml_escape}

-- What a byte is written as.
pub escape_byte : ℕ → Bytes
escape_byte c =
    if c == b'"'
    then codes "&quot;"
    else if c == b'\''
    then codes "&apos;"
    else if c == b'<'
    then codes "&lt;"
    else if c == b'>'
    then codes "&gt;"
    else c ∷ []

unfoldable pub escape_bytes : Bytes → Bytes
unfolding escape_byte
escape_bytes [] = []
escape_bytes (c ∷ s) = escape_byte c ++ escape_bytes s

-- One replacement, byte by byte.
substitute : ℕ → Bytes → Bytes → Bytes
substitute c format [] = []
substitute c format (d ∷ s) =
    let more = substitute c format s in if d == c then format ++ more else d ∷ more

replace_all-substitute :
    (rep : Replacing) (c : ℕ) (format s : Bytes)
    → rep.replace_all s (c ∷ []) format ≡ substitute c format s
unfolding substitute
replace_all-substitute rep c format [] = rep.replace_nil c format
replace_all-substitute rep c format (d ∷ s) =
    let more = replace_all-substitute rep c format s in
    elim (Bool-cases (d == c)) [
      | inl same ↦
          let at = rep.replace_at c s format in
          let this : d ≡ c = ground arith in rw (this, at, more) (ground arith)
      | inr other ↦
          let past = rep.replace_ne c d s format (ground arith) in rw (past, more) (ground arith)
    ]

-- The five replacements.
substitutions : Bytes → Bytes
unfolding substitute
substitutions s = substitute b'>' (codes "&amp;") (
    substitute b'>' (codes "&gt;") (
      substitute b'<' (codes "&lt;")
        (substitute b'\'' (codes "&apos;") (substitute b'"' (codes "&quot;") s))))

ghetto_xml_escape-substitutions :
    (rep : Replacing) (s : Bytes) → ghetto_xml_escape rep s ≡ substitutions s
unfolding substitutions ghetto_xml_escape
ghetto_xml_escape-substitutions rep s =
    let r = replace_all-substitute rep in
    rw (ghetto_xml_escape, r b'"' (codes "&quot;") s)
      (rw (r b'\'' (codes "&apos;") _)
        (rw (r b'<' (codes "&lt;") _) (rw (r b'>' (codes "&gt;") _) (r b'>' (codes "&amp;") _))))

substitutions-escape_bytes : (s : Bytes) → substitutions s ≡ escape_bytes s
unfolding substitutions substitute escape_bytes
substitutions-escape_bytes [] = refl
substitutions-escape_bytes (c ∷ s) =
    let more = substitutions-escape_bytes s in
    let case : (d : ℕ)
        → c ≡ d
        → substitutions (d ∷ s) ≡ escape_bytes (d ∷ s)
        → substitutions (c ∷ s) ≡ escape_bytes (c ∷ s) =
      λ d e at. subst (λ x. substitutions (x ∷ s) ≡ escape_bytes (x ∷ s)) (sym e) at in
    elim (Bool-cases (c == b'"')) [
      | inl quot ↦ case b'"' (ground arith) (ap (λ t. codes "&quot;" ++ t) more)
      | inr quot ↦ elim (Bool-cases (c == b'\'')) [
        | inl apos ↦ case b'\'' (ground arith) (ap (λ t. codes "&apos;" ++ t) more)
        | inr apos ↦ elim (Bool-cases (c == b'<')) [
          | inl lt ↦ case b'<' (ground arith) (ap (λ t. codes "&lt;" ++ t) more)
          | inr lt ↦ elim (Bool-cases (c == b'>')) [
            | inl gt ↦ case b'>' (ground arith) (ap (λ t. codes "&gt;" ++ t) more)
            | inr gt ↦ ground arith
          ]
        ]
      ]
    ]

-- ghetto_xml_escape writes each byte by itself: a quotation mark, an apostrophe and an angle bracket as
-- their entities, and every other byte as it is.
pub ghetto_xml_escape-escape_bytes :
    (rep : Replacing) (s : Bytes) → ghetto_xml_escape rep s ≡ escape_bytes s
ghetto_xml_escape-escape_bytes rep s =
    ghetto_xml_escape-substitutions rep s ∙ substitutions-escape_bytes s

escape_bytes-append : (s t : Bytes) → escape_bytes (s ++ t) ≡ escape_bytes s ++ escape_bytes t
unfolding escape_bytes
escape_bytes-append [] t = refl
escape_bytes-append (c ∷ s) t =
    ap (λ u. escape_byte c ++ u) (escape_bytes-append s t)
    ∙ sym (append_assoc (escape_byte c) (escape_bytes s) (escape_bytes t))

-- A byte that may stand in an attribute of an element, between marks of either kind.
pub record IsPlain (c : ℕ) : Type 0 where
  pub quot : c ≢ b'"'
  pub apos : c ≢ b'\''
  pub lower : c ≢ b'<'
  pub upper : c ≢ b'>'

plain : Bytes → Bool
plain [] = true
plain (c ∷ s) = not (c == b'"' || c == b'\'' || c == b'<' || c == b'>') && plain s

plain-All : (s : Bytes) → plain s ≡ true → All IsPlain s
unfolding plain
plain-All [] e = tt
plain-All (c ∷ s) e = (
  record { quot = ground arith; apos = ground arith; lower = ground arith; upper = ground arith },
  plain-All s (ground arith),
)

plain-escape_byte : (c : ℕ) → plain (escape_byte c) ≡ true
unfolding plain escape_byte
plain-escape_byte c = elim (Bool-cases (c == b'"')) [
  | inl quot ↦ ground arith
  | inr quot ↦ elim (Bool-cases (c == b'\'')) [
    | inl apos ↦ ground arith
    | inr apos ↦ elim (Bool-cases (c == b'<')) [
      | inl lower ↦ ground arith
      | inr lower ↦ elim (Bool-cases (c == b'>')) [
        | inl upper ↦ ground arith
        | inr upper ↦ ground arith
      ]
    ]
  ]
]

escape_bytes-IsPlain : (s : Bytes) → All IsPlain (escape_bytes s)
unfolding escape_bytes
escape_bytes-IsPlain [] = tt
escape_bytes-IsPlain (c ∷ s) =
    All-append IsPlain (escape_byte c) (escape_bytes s)
      (plain-All (escape_byte c) (plain-escape_byte c)) (escape_bytes-IsPlain s)

-- What ghetto_xml_escape writes ends no attribute and opens no element: it holds no quotation mark, no
-- apostrophe and no angle bracket, whatever it is given.
pub ghetto_xml_escape-IsPlain :
    (rep : Replacing) (s : Bytes) → All IsPlain (ghetto_xml_escape rep s)
ghetto_xml_escape-IsPlain rep s = rw (ghetto_xml_escape-escape_bytes rep s) (escape_bytes-IsPlain s)

differ : (s t : Bytes) → ¬ (s ++ (codes "<" ++ t) ≡ s ++ (codes "&lt;" ++ t))
differ [] t e = ground arith
differ (c ∷ s) t e = differ s t (ground arith)

-- An ampersand is not escaped, so a text with an angle bracket and the text with the entity in its
-- place, which are different, are written as the same: a reader cannot get both back.
pub ampersand_kept :
    (rep : Replacing) (s t : Bytes)
    → (s ++ codes "<" ++ t ≢ s ++ codes "&lt;" ++ t)
      × (ghetto_xml_escape rep (s ++ codes "<" ++ t)
          ≡ ghetto_xml_escape rep (s ++ codes "&lt;" ++ t))
unfolding escape_bytes escape_byte
ampersand_kept rep s t = (
  λ same. differ s t (sym (append_assoc s (codes "<") t) ∙ same ∙ append_assoc s (codes "&lt;") t),
  rw (ghetto_xml_escape-escape_bytes rep (s ++ codes "<" ++ t)) (
      rw (ghetto_xml_escape-escape_bytes rep (s ++ codes "&lt;" ++ t)) (
        rw
          (
            escape_bytes-append (s ++ codes "<") t,
            escape_bytes-append (s ++ codes "&lt;") t,
            escape_bytes-append s (codes "<"),
            escape_bytes-append s (codes "&lt;"),
          )
          refl)),
)
