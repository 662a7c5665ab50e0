-- ===== src/Yenc.antt =====
-- yenc/yenc.cc and yenc/yenc.hpp. The generic iterators are lists: a routine returns the input that
-- it has not read and the bytes that it has written. `char` is read as a byte below 256.
pub mod Decode
pub mod Line
pub mod Lines
use post2usenet.Common.{
  ℕ, zero, suc, ◌+◌, ◌%◌, Bool, ◌&&◌, ◌||◌, [], ◌∷◌, ◌++◌, ◌≡◌, ◌≢◌, false, arith, Bytes, length,
  leb, ◌==◌, if◌then◌else◌, add_size, sub_size, cr, lf,
}

-- `linepos` and `linelength` are size_t, so `linelength - 1` wraps at 0.
pub needs_escaping : ℕ → ℕ → ℕ → Bool
needs_escaping c linepos linelength =
    c == 0
    || c == cr
    || c == lf
    || c == b'='
    || (c == b' ' && (linepos == 0 || linepos == sub_size linelength 1))
    || (c == b'\t' && (linepos == 0 || linepos == sub_size linelength 1))
    || (c == b'.' && linepos == 0)

-- What one round of the loop writes for a byte that has been shifted by 42.
pub emitted : Bool → ℕ → Bytes
emitted escape byte = if escape then b'=' ∷ (byte + 64) % 256 ∷ [] else byte ∷ []

-- The for loop of encode_next_line: the rest of the input, and the bytes written.
pub encode_loop : ℕ → ℕ → Bytes → Bytes × Bytes
unfolding emitted
encode_loop linelength linepos [] = ([], [])
encode_loop linelength linepos (c ∷ input) =
    let byte = (c + 42) % 256 in
    let escape = needs_escaping byte linepos linelength in
    let linepos' = if escape then add_size linepos 2 else add_size linepos 1 in
    let written = emitted escape byte in
    let more = encode_loop linelength linepos' input in
    if leb linelength linepos' then (input, written) else (more.0, written ++ more.1)

pub encode_next_line : ℕ → Bytes → Bytes × Bytes
unfolding encode_loop
encode_next_line linelength input =
    let line = encode_loop linelength 0 input in (line.0, line.1 ++ cr ∷ lf ∷ [])

-- The for loop of encode_block, on fuel: the input that is left, and the bytes written.
pub encode_lines : ℕ → ℕ → Bytes → Bytes × Bytes
unfolding encode_next_line
encode_lines fuel linelength [] = ([], [])
encode_lines zero linelength (c ∷ input) = (c ∷ input, [])
encode_lines (suc fuel) linelength (c ∷ input) =
    let line = encode_next_line linelength (c ∷ input) in
    let more = encode_lines fuel linelength line.0 in (more.0, line.1 ++ more.1)

-- Every line takes at least one byte, so the length of the input is fuel enough.
pub encode_block : ℕ → Bytes → Bytes
unfolding encode_lines
encode_block linelength input = (encode_lines (length input) linelength input).1

-- What a byte that is written as it is cannot be.
pub plain_byte :
    (c p l : ℕ) → needs_escaping c p l ≡ false → (c ≢ 0) × (c ≢ cr) × (c ≢ lf) × (c ≢ b'=')
unfolding needs_escaping
plain_byte c p l h = ground arith

pub plain_byte_at_start :
    (c l : ℕ) → needs_escaping c 0 l ≡ false → (c ≢ b'.') × (c ≢ b' ') × (c ≢ b'\t')
unfolding needs_escaping
plain_byte_at_start c l h = ground arith
