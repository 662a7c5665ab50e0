-- ===== src/Yenc/Lines.antt =====
-- The lines that encode_block of yenc/yenc.hpp writes: their length, and the bytes that they hold.
use mathlib.Core.List.{flat_map}
use post2usenet.Common.{
  ℕ, zero, suc, ◌+◌, ◌%◌, ◌≤◌, ◌<◌, inl, inr, List, [], ◌∷◌, ◌++◌, append-nil, ◌≡◌, ◌≢◌, refl, ap,
  arith, Bytes, length, All, AllButLast, AllButLast-cons, Bool-cases, leb→le, lt_of_leb, add_size,
  leb, size_mod, if◌then◌else◌, cr, lf,
}
use post2usenet.Yenc.Decode.{encode_loop-shorter}
use post2usenet.Yenc.{needs_escaping, emitted, encode_loop, encode_lines, encode_block, plain_byte}
use post2usenet.Yenc.Line.{
  IsClean, BeginsWell, NotControl, IsLine, IsCritical, escaped_byte, emitted-IsClean, emitted-end,
  length-emitted, IsTail, next_column, IsTail-append, emitted-BeginsWell,
}

module _ (l : ℕ) (fits : l + 1 < size_mod) where
  encode_loop-IsTail :
      (p : ℕ) (input : Bytes)
      → p < l
      → IsTail l p (encode_loop l p input).1 (encode_loop l p input).0
  unfolding encode_loop
  encode_loop-IsTail p [] h = record {
    clean = tt;
    bound = omega arith;
    filled = λ e. absurd (e refl);
    no_end = λ d full. absurd (omega arith);
  }
  encode_loop-IsTail p (c ∷ input) h =
      let byte : ℕ = (c + 42) % 256 in
      let piece : Bytes = emitted (needs_escaping byte p l) byte in
      let p' : ℕ = if needs_escaping byte p l then add_size p 2 else add_size p 1 in
      let clean : All IsClean piece = emitted-IsClean byte p l (omega arith) in
      elim (Bool-cases (leb l p')) [
        | inl full ↦
            let enough : l ≤ p + length piece =
              omega (arith, leb→le l p' full, next_column byte p l h fits) in
            rw full (record {
              clean = clean;
              bound = ground (arith, length-emitted (needs_escaping byte p l) byte);
              filled = λ _. enough;
              no_end = λ d _. emitted-end byte p l d h (omega arith) enough;
            })
        | inr open_line ↦ rw open_line (
            IsTail-append l p p' piece _ _ clean (next_column byte p l h fits)
              (encode_loop-IsTail p' input (lt_of_leb l p' open_line)))
      ]

encode_loop-BeginsWell : (l c : ℕ) (input : Bytes) → BeginsWell (encode_loop l 0 (c ∷ input)).1
unfolding encode_loop
encode_loop-BeginsWell l c input =
    let byte : ℕ = (c + 42) % 256 in
    let p' : ℕ = if needs_escaping byte 0 l then add_size 0 2 else add_size 0 1 in
    elim (Bool-cases (leb l p')) [
      | inl full ↦
          rw (full, ← append-nil (emitted (needs_escaping byte 0 l) byte))
            (emitted-BeginsWell byte l [])
      | inr open_line ↦ rw open_line (emitted-BeginsWell byte l _)
    ]

emitted-NotControl :
    (c l : ℕ) (more : Bytes) → NotControl (emitted (needs_escaping c 0 l) c ++ more)
unfolding emitted
emitted-NotControl c l more = elim (Bool-cases (needs_escaping c 0 l)) [
  | inl e ↦ rw e (λ _. critical-ne-y c (escaped_byte c 0 l e))
  | inr e ↦ let (_, _, _, ne) = plain_byte c 0 l e in rw e (NotControl-cons c more ne)
]
  where
    critical-ne-y : (b : ℕ) → IsCritical b → (b + 64) % 256 ≢ b'y'
    critical-ne-y b h = omega arith

    NotControl-cons : (b : ℕ) (s : Bytes) → b ≢ b'=' → NotControl (b ∷ s)
    NotControl-cons b [] ne = tt
    NotControl-cons b (d ∷ s) ne = λ e. absurd (ne e)

encode_loop-NotControl : (l c : ℕ) (input : Bytes) → NotControl (encode_loop l 0 (c ∷ input)).1
unfolding encode_loop
encode_loop-NotControl l c input =
    let byte : ℕ = (c + 42) % 256 in
    let p' : ℕ = if needs_escaping byte 0 l then add_size 0 2 else add_size 0 1 in
    elim (Bool-cases (leb l p')) [
      | inl full ↦
          rw (full, ← append-nil (emitted (needs_escaping byte 0 l) byte))
            (emitted-NotControl byte l [])
      | inr open_line ↦ rw open_line (emitted-NotControl byte l _)
    ]

IsLine-of_tail :
    (l : ℕ) (line rest : Bytes)
    → IsTail l 0 line rest
    → BeginsWell line
    → NotControl line
    → IsLine l line
IsLine-of_tail l line rest t b n = record {
  clean = t.clean;
  begins = b;
  no_control = n;
  short = omega (arith, t.bound);
  no_end = λ full. t.no_end 0 (omega arith);
}

-- Lines, each with its end.
unfoldable pub join_lines : List Bytes → Bytes
unfolding flat_map
join_lines = flat_map (λ line. line ++ cr ∷ lf ∷ [])

-- A text that is lines of the encoder, of which all but the last fill the length.
pub record IsBlock (l : ℕ) (text : Bytes) (lines : List Bytes) : Type 0 where
  pub spelled : text ≡ join_lines lines
  pub each : All (IsLine l) lines
  pub full : AllButLast (λ line. l ≤ length line) lines

encode_lines-IsBlock :
    (l fuel : ℕ) (input : Bytes)
    → 0 < l
    → l + 1 < size_mod
    → length input ≤ fuel
    → (lines : List Bytes) × IsBlock l (encode_lines fuel l input).1 lines
      × (input ≡ [] → lines ≡ [])
unfolding encode_lines join_lines
encode_lines-IsBlock l fuel [] pos fits enough =
    ([], record { spelled = refl; each = tt; full = tt }, λ _. refl)
encode_lines-IsBlock l zero (c ∷ input) pos fits enough = absurd (omega arith)
encode_lines-IsBlock l (suc fuel) (c ∷ input) pos fits enough =
    let line : Bytes = (encode_loop l 0 (c ∷ input)).1 in
    let rest : Bytes = (encode_loop l 0 (c ∷ input)).0 in
    let t : IsTail l 0 line rest = encode_loop-IsTail l fits 0 (c ∷ input) pos in
    let (lines, block, empty) =
      encode_lines-IsBlock l fuel rest pos fits (omega (arith, encode_loop-shorter l 0 c input)) in
    (
      line ∷ lines,
      record {
        spelled = ap (λ (s : Bytes). (line ++ cr ∷ lf ∷ []) ++ s) block.spelled;
        each = (
          IsLine-of_tail l line rest t (encode_loop-BeginsWell l c input)
              (encode_loop-NotControl l c input),
          block.each,
        );
        full =
            AllButLast-cons _ line lines (λ more. omega (arith, t.filled (λ e. more (empty e))))
              block.full;
      },
      λ e. cc,
    )

-- What encode_block writes is lines that each end in CR LF. No line holds a NUL, a CR or a LF, begins
-- with a dot, a space, a tab or "=y", or is longer than the line length by more than one byte; all lines
-- but the last have at least the line length, and a line that does ends in no space or tab. The line
-- length is positive and two less than 2^64 at most.
pub encode_block-IsBlock :
    (l : ℕ) (input : Bytes)
    → 0 < l
    → l + 1 < size_mod
    → (lines : List Bytes) × IsBlock l (encode_block l input) lines
unfolding encode_block
encode_block-IsBlock l input pos fits =
    let (lines, block, _) = encode_lines-IsBlock l (length input) input pos fits (omega arith) in
    (lines, block)
