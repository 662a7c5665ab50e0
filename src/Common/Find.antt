-- ===== src/Common/Find.antt =====
-- std::string::find of a character and std::string::substr, on positions of type size_t.
use post2usenet.Common.{
  ℕ, ◌+◌, ◌-◌, [], ◌∷◌, ◌++◌, ◌≡◌, ◌≢◌, Option, none, some, arith, Bytes, length, length-append,
  take, drop, drop-append, take-append, All, ltb, ◌==◌, if◌then◌else◌, size_mod,
}

abbrev pub npos : ℕ
npos = size_mod - 1

-- The position of the first `c`, if the text begins at position `i`.
find_from : ℕ → Bytes → ℕ → ℕ
find_from c [] i = npos
find_from c (x ∷ s) i = if x == c then i else find_from c s (i + 1)

pub find : ℕ → Bytes → ℕ → ℕ
unfolding find_from
find c s position = find_from c (drop position s) position

-- `none` is out_of_range.
pub substr : Bytes → ℕ → ℕ → Option Bytes
substr s position count =
    if ltb (length s) position then none else some (take count (drop position s))

abbrev pub Lacks : ℕ → Bytes → Type 0
Lacks c = All (λ x. x ≢ c)

find_from-Lacks :
    (c : ℕ) (s rest : Bytes) (i : ℕ) → Lacks c s → find_from c (s ++ c ∷ rest) i ≡ i + length s
unfolding find_from
find_from-Lacks c [] rest i h = ground arith
find_from-Lacks c (x ∷ s) rest i h = ground (arith, find_from-Lacks c s rest (i + 1) h.1)

-- Behind `before`, the first `c` stands where it is first written.
pub find-Lacks :
    (c : ℕ) (before s rest : Bytes) (i : ℕ)
    → Lacks c s
    → i ≡ length before
    → find c (before ++ (s ++ c ∷ rest)) i ≡ i + length s
unfolding find
find-Lacks c before s rest i h e =
    rw (e, drop-append before (s ++ c ∷ rest)) (find_from-Lacks c s rest (length before) h)

pub substr_lem :
    (before s rest : Bytes) (i n : ℕ)
    → i ≡ length before
    → n ≡ length s
    → substr (before ++ (s ++ rest)) i n ≡ some s
unfolding substr
substr_lem before s rest i n e e' =
    rw (e, e', drop-append before (s ++ rest), take-append s rest)
      (ground (arith, length-append before (s ++ rest)))
