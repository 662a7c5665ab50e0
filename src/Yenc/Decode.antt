-- ===== src/Yenc/Decode.antt =====
-- A yEnc decoder, written from the yEnc format and not from the encoder.
use post2usenet.Common.{
  ℕ, zero, suc, ◌+◌, ◌%◌, ◌≤◌, Bool, inl, inr, ◌≢◌, true, false, ◌||◌, [], ◌∷◌, ◌++◌, append_assoc,
  ◌≡◌, refl, ap, ◌∙◌, Option, none, some, arith, Bytes, length, All, IsByte, Bool-cases, add_size,
  leb, ◌==◌, if◌then◌else◌, cr, lf,
}
use mathlib.Core.Option
use post2usenet.Yenc.{needs_escaping, emitted, encode_loop, encode_lines, encode_block, plain_byte}

-- Line ends are skipped; '=' announces a byte that is shifted by 64 more; every other byte is shifted
-- by 42. The Boolean is true behind '='.
decode_from : Bool → Bytes → Option Bytes
decode_from true [] = none
decode_from false [] = some []
decode_from true (c ∷ s) = Option.map (λ r. (c + 150) % 256 ∷ r) (decode_from false s)
decode_from false (c ∷ s) =
    let skip = decode_from false s in
    let escape = decode_from true s in
    let plain = Option.map (λ r. (c + 214) % 256 ∷ r) (decode_from false s) in
    if c == cr || c == lf then skip else if c == b'=' then escape else plain

pub decode : Bytes → Option Bytes
unfolding decode_from
decode s = decode_from false s

-- Two shifts that undo one another on bytes.
shift_back : (c : ℕ) → IsByte c → ((c + 42) % 256 + 214) % 256 ≡ c
shift_back c h = omega arith

escape_back : (c : ℕ) → IsByte c → (((c + 42) % 256 + 64) % 256 + 150) % 256 ≡ c
escape_back c h = omega arith

decode_plain :
    (b c : ℕ) (rest : Bytes)
    → (b ≢ cr) × (b ≢ lf) × (b ≢ b'=')
    → (b + 214) % 256 ≡ c
    → decode_from false (b ∷ rest) ≡ Option.map (λ r. c ∷ r) (decode_from false rest)
unfolding decode_from
decode_plain b c rest h e = rw (← e) (ground arith)

decode_escape :
    (b c : ℕ) (rest : Bytes)
    → (b + 150) % 256 ≡ c
    → decode_from false (b'=' ∷ b ∷ rest) ≡ Option.map (λ r. c ∷ r) (decode_from false rest)
unfolding decode_from
decode_escape b c rest e = rw e

-- One byte as it is written is read back, whatever the position in the line decides.
decode-emitted :
    (c p l : ℕ) (rest : Bytes)
    → IsByte c
    → decode_from false (emitted (needs_escaping ((c + 42) % 256) p l) ((c + 42) % 256) ++ rest)
      ≡ Option.map (λ r. c ∷ r) (decode_from false rest)
unfolding emitted
decode-emitted c p l rest h = elim (Bool-cases (needs_escaping ((c + 42) % 256) p l)) [
  | inl e ↦ rw e (decode_escape _ c rest (escape_back c h))
  | inr e ↦
      let (_, a, b, d) = plain_byte _ p l e in
      rw e (decode_plain _ c rest (a, b, d) (shift_back c h))
]

-- Where the decoder turns what follows a line into the bytes that the line left, it turns the line
-- and what follows into all the bytes.
decode-encode_loop :
    (l p : ℕ) (input rest : Bytes)
    → All IsByte input
    → decode_from false rest ≡ some (encode_loop l p input).0
    → decode_from false ((encode_loop l p input).1 ++ rest) ≡ some input
unfolding encode_loop
decode-encode_loop l p [] rest h e = e
decode-encode_loop l p (c ∷ input) rest (hc, h) e =
    let byte : ℕ = (c + 42) % 256 in
    let escape : Bool = needs_escaping byte p l in
    let p' : ℕ = if escape then add_size p 2 else add_size p 1 in
    elim (Bool-cases (leb l p')) [
      | inl full ↦
          rw full (decode-emitted c p l rest hc ∙ ap (Option.map (λ r. c ∷ r)) (rw full at e))
      | inr open_line ↦
          rw (open_line, append_assoc)
            (decode-emitted c p l ((encode_loop l p' input).1 ++ rest) hc
              ∙ ap (Option.map (λ r. c ∷ r))
                  (decode-encode_loop l p' input rest h (rw open_line at e)))
    ]

-- A line leaves a tail of what it was given: no longer, shorter if there was a byte, and of bytes.
encode_loop-le : (l p : ℕ) (input : Bytes) → length (encode_loop l p input).0 ≤ length input
unfolding encode_loop
encode_loop-le l p [] = omega arith
encode_loop-le l p (c ∷ input) =
    let p' : ℕ = if needs_escaping ((c + 42) % 256) p l then add_size p 2 else add_size p 1 in
    elim (Bool-cases (leb l p')) [
      | inl full ↦ rw full (omega arith)
      | inr open_line ↦ rw open_line (omega (arith, encode_loop-le l p' input))
    ]

pub encode_loop-shorter :
    (l p c : ℕ) (input : Bytes) → length (encode_loop l p (c ∷ input)).0 ≤ length input
unfolding encode_loop
encode_loop-shorter l p c input =
    let p' : ℕ = if needs_escaping ((c + 42) % 256) p l then add_size p 2 else add_size p 1 in
    elim (Bool-cases (leb l p')) [
      | inl full ↦ rw full (omega arith)
      | inr open_line ↦ rw open_line (encode_loop-le l p' input)
    ]

encode_loop-IsByte :
    (l p : ℕ) (input : Bytes) → All IsByte input → All IsByte (encode_loop l p input).0
unfolding encode_loop
encode_loop-IsByte l p [] h = tt
encode_loop-IsByte l p (c ∷ input) h =
    let p' : ℕ = if needs_escaping ((c + 42) % 256) p l then add_size p 2 else add_size p 1 in
    elim (Bool-cases (leb l p')) [
      | inl full ↦ rw full h.1
      | inr open_line ↦ rw open_line (encode_loop-IsByte l p' input h.1)
    ]

decode_line_end : (rest : Bytes) → decode_from false (cr ∷ lf ∷ rest) ≡ decode_from false rest
unfolding decode_from
decode_line_end rest = refl

-- With the length of the input as fuel, the loop of encode_block reads all of it.
pub encode_lines_all :
    (fuel l : ℕ) (input : Bytes) → length input ≤ fuel → (encode_lines fuel l input).0 ≡ []
unfolding encode_lines
encode_lines_all fuel l [] h = refl
encode_lines_all zero l (c ∷ input) h = absurd (omega arith)
encode_lines_all (suc fuel) l (c ∷ input) h =
    encode_lines_all fuel l (encode_loop l 0 (c ∷ input)).0
      (omega (arith, encode_loop-shorter l 0 c input))

decode-encode_lines :
    (fuel l : ℕ) (input : Bytes)
    → All IsByte input
    → length input ≤ fuel
    → decode_from false (encode_lines fuel l input).1 ≡ some input
unfolding encode_lines decode_from
decode-encode_lines fuel l [] h fits = refl
decode-encode_lines zero l (c ∷ input) h fits = absurd (omega arith)
decode-encode_lines (suc fuel) l (c ∷ input) h fits =
    let rest : Bytes = (encode_loop l 0 (c ∷ input)).0 in
    rw append_assoc (
      decode-encode_loop l 0 (c ∷ input) _ h (
        decode-encode_lines fuel l rest (encode_loop-IsByte l 0 (c ∷ input) h)
          (omega (arith, encode_loop-shorter l 0 c input))))

-- Whatever the line length, 0 included, a decoder that knows nothing of lines reads an encoded block
-- back: for every input of bytes, the decoder succeeds and returns the input.
pub decode-encode_block :
    (l : ℕ) (input : Bytes) → All IsByte input → decode (encode_block l input) ≡ some input
unfolding decode encode_block
decode-encode_block l input h = decode-encode_lines (length input) l input h (omega arith)
