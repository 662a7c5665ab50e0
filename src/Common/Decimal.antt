-- ===== src/Common/Decimal.antt =====
-- The decimal notation that std::ostream writes for a size_t and that std::stoul reads.
use post2usenet.Common.{
  ℕ, zero, suc, ◌+◌, ◌-◌, ◌*◌, ◌/◌, ◌%◌, ◌≤◌, ◌<◌, Bool, true, false, ◌&&◌, ◌||◌, [], ◌∷◌, ◌≡◌, ◌≢◌,
  refl, Option, none, some, arith, Bytes, ltb, leb, ◌==◌, if◌then◌else◌, All, All-mono, IsOneLine,
  size_mod, sub_size,
}

-- The digits of `n` in front of `out`. On fuel; one more than `n` is enough.
digits : ℕ → ℕ → Bytes → Bytes
digits zero n out = out
digits (suc fuel) n out =
    let more = digits fuel (n / 10) ((b'0' + n % 10) ∷ out) in
    if ltb n 10 then (b'0' + n) ∷ out else more

-- `stream << n`
unfoldable pub to_decimal : ℕ → Bytes
unfolding digits
to_decimal n = digits (suc n) n []

abbrev pub is_digit : ℕ → Bool
is_digit c = leb b'0' c && leb c b'9'

-- isspace in the C locale.
is_space : ℕ → Bool
is_space c = c == b' ' || (leb 9 c && leb c 13)

-- The number that the digits in front spell behind `n`.
read_digits : ℕ → Bytes → ℕ
read_digits n [] = n
read_digits n (c ∷ s) =
    let more = read_digits (n * 10 + (c - b'0')) s in if is_digit c then more else n

-- The digits behind the sign: none is invalid_argument, too large a number is out_of_range.
read_magnitude : Bool → Bytes → Option ℕ
unfolding read_digits
read_magnitude minus [] = none
read_magnitude minus (c ∷ s) =
    let n = read_digits 0 (c ∷ s) in
    if is_digit c
    then (if ltb n size_mod then some (if minus then sub_size 0 n else n) else none)
    else none

read_signed : Bytes → Option ℕ
unfolding read_magnitude
read_signed [] = none
read_signed (c ∷ s) =
    if c == b'-'
    then read_magnitude true s
    else if c == b'+'
    then read_magnitude false s
    else read_magnitude false (c ∷ s)

-- std::stoul with base 10; `none` is an exception.
pub stoul : Bytes → Option ℕ
unfolding is_space read_signed
stoul [] = none
stoul (c ∷ s) = let more = stoul s in if is_space c then more else read_signed (c ∷ s)

-- Reading the digits that are written for `n` goes on behind them with `n`.
read_digits-digits :
    (fuel n : ℕ) (out : Bytes) → n < fuel → read_digits 0 (digits fuel n out) ≡ read_digits n out
unfolding read_digits digits
read_digits-digits zero n out h = absurd (omega arith)
read_digits-digits (suc fuel) n out h =
    ground (arith, read_digits-digits fuel (n / 10) ((b'0' + n % 10) ∷ out))

abbrev pub IsDigit : ℕ → Type 0
IsDigit c = (b'0' ≤ c) × (c ≤ b'9')

abbrev pub IsNumber : Bytes → Type 0
IsNumber s = All IsDigit s × (s ≢ [])

digits-IsNumber :
    (fuel n : ℕ) (out : Bytes) → n < fuel → All IsDigit out → IsNumber (digits fuel n out)
unfolding digits
digits-IsNumber zero n out h d = absurd (omega arith)
digits-IsNumber (suc fuel) n out h d =
    ground (arith, digits-IsNumber fuel (n / 10) ((b'0' + n % 10) ∷ out))

-- What is written for a number is one digit or more.
pub to_decimal-IsNumber : (n : ℕ) → IsNumber (to_decimal n)
unfolding to_decimal
to_decimal-IsNumber n = digits-IsNumber (suc n) n [] (omega arith) tt

pub to_decimal-IsOneLine : (n : ℕ) → IsOneLine (to_decimal n)
to_decimal-IsOneLine n =
    All-mono IsDigit _ (λ c h. omega arith) (to_decimal n) (to_decimal-IsNumber n).0

stoul-read_digits :
    (s : Bytes) → IsNumber s → read_digits 0 s < size_mod → stoul s ≡ some (read_digits 0 s)
unfolding stoul
stoul-read_digits [] h fits = absurd (h.1 refl)
stoul-read_digits (c ∷ s) h fits = ground arith

-- std::stoul reads back every size_t that a stream has written.
pub stoul-to_decimal : (n : ℕ) → n < size_mod → stoul (to_decimal n) ≡ some n
unfolding to_decimal read_digits
stoul-to_decimal n h =
    let e : read_digits 0 (digits (suc n) n []) ≡ n =
      read_digits-digits (suc n) n [] (omega arith) in
    rw (stoul-read_digits (digits (suc n) n []) (to_decimal-IsNumber n) (omega (arith, e)), e)
