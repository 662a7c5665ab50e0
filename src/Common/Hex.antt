-- ===== src/Common/Hex.antt =====
-- What a stream writes for a number under std::hex and std::uppercase.
use post2usenet.Common.{
  ℕ, zero, suc, ◌+◌, ◌-◌, ◌/◌, ◌%◌, [], ◌∷◌, Bytes, ltb, if◌then◌else◌, IsOneLine, arith,
}

hex_digit : ℕ → ℕ
hex_digit d = if ltb d 10 then b'0' + d else b'A' + (d - 10)

-- On fuel; one more than `n` is enough.
hex_digits : ℕ → ℕ → Bytes → Bytes
unfolding hex_digit
hex_digits zero n out = out
hex_digits (suc fuel) n out =
    let more = hex_digits fuel (n / 16) (hex_digit (n % 16) ∷ out) in
    if ltb n 16 then hex_digit n ∷ out else more

pub to_hex : ℕ → Bytes
unfolding hex_digits
to_hex n = hex_digits (suc n) n []

-- The digits hold no line end.
hex_digits-IsOneLine :
    (fuel n : ℕ) (out : Bytes) → IsOneLine out → IsOneLine (hex_digits fuel n out)
unfolding hex_digits
hex_digits-IsOneLine zero n out h = h
hex_digits-IsOneLine (suc fuel) n out h =
    ground (arith, hex_digits-IsOneLine fuel (n / 16) (hex_digit (n % 16) ∷ out))

pub to_hex-IsOneLine : (n : ℕ) → IsOneLine (to_hex n)
unfolding to_hex
to_hex-IsOneLine n = hex_digits-IsOneLine (suc n) n [] tt
