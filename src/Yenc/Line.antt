-- ===== src/Yenc/Line.antt =====
-- One line that encode_next_line of yenc/yenc.hpp writes: its bytes, its ends and its length.
use post2usenet.Common.{
  ℕ, ◌+◌, ◌%◌, ◌≤◌, ◌<◌, Bool, true, false, ◌⊎◌, inl, inr, [], ◌∷◌, ◌++◌, ◌≡◌, ◌≢◌, refl, arith,
  Bytes, length, length-append, All, All-append, IsByte, Bool-cases, add_size, size_mod,
  if◌then◌else◌, cr, lf,
}
use post2usenet.Yenc.{needs_escaping, emitted, plain_byte, plain_byte_at_start}

-- A byte that may stand in a line of an article.
abbrev pub IsClean : ℕ → Type 0
IsClean c = IsByte c × (c ≢ 0) × (c ≢ cr) × (c ≢ lf)

-- The byte that a text ends with, `d` if it is empty.
abbrev pub last_byte : ℕ → Bytes → ℕ
last_byte d [] = d
last_byte d (c ∷ s) = last_byte c s

abbrev pub IsBlank : ℕ → Type 0
IsBlank c = (c ≡ b' ') ⊎ (c ≡ b'\t')

-- A line of one byte or more that begins neither with a dot nor with a blank.
abbrev pub BeginsWell : Bytes → Type 0
BeginsWell [] = ⊥
BeginsWell (c ∷ rest) = (c ≢ b'.') × ¬ IsBlank c

-- A line that is no control line of the format: it does not begin with "=y".
abbrev pub NotControl : Bytes → Type 0
NotControl [] = Unit {0}
NotControl (c ∷ []) = Unit {0}
NotControl (c ∷ d ∷ rest) = (c ≡ b'=') → (d ≢ b'y')

-- A line of the encoder: clean bytes, one byte over the length at most, no dot and no blank in
-- front, and no control line; a line that fills the length does not end in a blank.
pub record IsLine (l : ℕ) (line : Bytes) : Type 0 where
  pub clean : All IsClean line
  pub begins : BeginsWell line
  pub no_control : NotControl line
  pub short : length line ≤ l + 1
  pub no_end : l ≤ length line → ¬ IsBlank (last_byte 0 line)

-- The seven bytes that are ever escaped.
abbrev pub IsCritical : ℕ → Type 0
IsCritical c = (c ≡ 0) ⊎ (c ≡ cr) ⊎ (c ≡ lf) ⊎ (c ≡ b'=') ⊎ (c ≡ b' ') ⊎ (c ≡ b'\t') ⊎ (c ≡ b'.')

pub escaped_byte : (c p l : ℕ) → needs_escaping c p l ≡ true → IsCritical c
unfolding needs_escaping
escaped_byte c p l h = ground arith

pub critical-IsClean :
    (c : ℕ) → IsCritical c → IsClean ((c + 64) % 256) × ¬ IsBlank ((c + 64) % 256)
critical-IsClean c h = omega arith

pub emitted-IsClean : (c p l : ℕ) → IsByte c → All IsClean (emitted (needs_escaping c p l) c)
unfolding emitted
emitted-IsClean c p l h = elim (Bool-cases (needs_escaping c p l)) [
  | inl e ↦ rw e (omega arith, ((critical-IsClean c (escaped_byte c p l e)).0, tt))
  | inr e ↦ let (z, r, n, _) = plain_byte c p l e in rw e (omega arith)
]

pub plain_end :
    (c p l : ℕ) → p < l → l < size_mod → l ≤ p + 1 → needs_escaping c p l ≡ false → ¬ IsBlank c
unfolding needs_escaping
plain_end c p l h fits full e b = ground arith

-- The last column of a line is never an unescaped blank.
pub emitted-end :
    (c p l d : ℕ)
    → p < l
    → l < size_mod
    → l ≤ p + length (emitted (needs_escaping c p l) c)
    → ¬ IsBlank (last_byte d (emitted (needs_escaping c p l) c))
unfolding emitted
emitted-end c p l d h fits full = elim (Bool-cases (needs_escaping c p l)) [
  | inl e ↦ rw e ((critical-IsClean c (escaped_byte c p l e)).1)
  | inr e ↦ rw e (plain_end c p l h fits (rw e at full) e)
]

pub length-emitted : (e : Bool) (c : ℕ) → length (emitted e c) ≡ (if e then 2 else 1)
unfolding emitted
length-emitted true c = refl
length-emitted false c = refl

pub last_byte-append :
    (d : ℕ) (xs ys : Bytes) → last_byte d (xs ++ ys) ≡ last_byte (last_byte d xs) ys
last_byte-append d [] ys = refl
last_byte-append d (x ∷ xs) ys = last_byte-append x xs ys

-- What the loop writes from column `p` on.
pub record IsTail (l p : ℕ) (written rest : Bytes) : Type 0 where
  pub clean : All IsClean written
  pub bound : p + length written ≤ l + 1
  pub filled : rest ≢ [] → l ≤ p + length written
  pub no_end : (d : ℕ) → l ≤ p + length written → ¬ IsBlank (last_byte d written)

-- The column behind what is written for a byte.
pub next_column :
    (c p l : ℕ)
    → p < l
    → l + 1 < size_mod
    → (if needs_escaping c p l then add_size p 2 else add_size p 1)
      ≡ p + length (emitted (needs_escaping c p l) c)
next_column c p l h fits = ground (arith, length-emitted (needs_escaping c p l) c)

pub IsTail-append :
    (l p p' : ℕ) (piece more rest : Bytes)
    → All IsClean piece
    → p' ≡ p + length piece
    → IsTail l p' more rest
    → IsTail l p (piece ++ more) rest
IsTail-append l p p' piece more rest clean e t = record {
  clean = All-append IsClean piece more clean t.clean;
  bound = omega (arith, length-append piece more, t.bound);
  filled = λ left. omega (arith, length-append piece more, t.filled left);
  no_end = λ d full.
      rw (last_byte-append d piece more)
        (t.no_end (last_byte d piece) (omega (arith, length-append piece more)));
}

pub emitted-BeginsWell :
    (c l : ℕ) (more : Bytes) → BeginsWell (emitted (needs_escaping c 0 l) c ++ more)
unfolding emitted
emitted-BeginsWell c l more = elim (Bool-cases (needs_escaping c 0 l)) [
  | inl e ↦ rw e (omega arith)
  | inr e ↦ let (dot, space, tab) = plain_byte_at_start c l e in rw e (omega arith)
]
