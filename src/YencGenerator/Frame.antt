-- ===== src/YencGenerator/Frame.antt =====
-- A part of util/yencgenerator.cc as a yEnc reader sees it.
use post2usenet.Common.{
  ℕ, ◌+◌, ◌<◌, List, [], ◌∷◌, ◌++◌, append_assoc, append-nil, sym, ◌≡◌, refl, ap, ◌∙◌, Option, some,
  arith, Bytes, codes, put, length, All, add_size, IsByte, IsOneLine, ◌==◌, if◌then◌else◌, size_mod,
  cr, lf,
}
use post2usenet.Common.Decimal.{to_decimal, to_decimal-IsOneLine}
use post2usenet.Common.Hex.{to_hex, to_hex-IsOneLine}
use post2usenet.Boost.{FileSystem}
use post2usenet.Yenc.{encode_block}
use post2usenet.Yenc.Decode.{decode, decode-encode_block}
use post2usenet.Yenc.Line.{IsLine, IsClean, NotControl}
use post2usenet.Yenc.Lines.{join_lines, encode_block-IsBlock}
use post2usenet.YencGenerator.{YencGenerator, ybegin, ypart, yend, frame, num_parts}

-- Where the reader stands: at the start of a line, behind a '=' there, in a line, or in a control
-- line, which begins with "=y".
data Place : Type 0 where
  start equals body control : Place

-- The text without its control lines.
strip : Place → Bytes → Bytes
strip equals [] = b'=' ∷ []
strip _ [] = []
strip start (c ∷ s) =
    let wait = strip equals s in
    let ended = c ∷ strip start s in
    let go = c ∷ strip body s in if c == b'=' then wait else if c == lf then ended else go
strip equals (c ∷ s) =
    let skip = strip control s in
    let ended = b'=' ∷ c ∷ strip start s in
    let go = b'=' ∷ c ∷ strip body s in if c == b'y' then skip else if c == lf then ended else go
strip body (c ∷ s) =
    let ended = c ∷ strip start s in let go = c ∷ strip body s in if c == lf then ended else go
strip control (c ∷ s) =
    let ended = strip start s in let go = strip control s in if c == lf then ended else go

-- The reader: control lines are dropped, and the rest is decoded.
pub decode_part : Bytes → Option Bytes
unfolding strip
decode_part s = decode (strip start s)

-- The text ends the control line that it stands in.
abbrev EndsControl : Bytes → Type 0
EndsControl s = (rest : Bytes) → strip control (s ++ rest) ≡ strip start rest

EndsControl-append : (xs ys : Bytes) → IsOneLine xs → EndsControl ys → EndsControl (xs ++ ys)
unfolding strip
EndsControl-append [] ys h e rest = e rest
EndsControl-append (c ∷ xs) ys h e rest = ground (arith, EndsControl-append xs ys h.1 e rest)

EndsControl-end : EndsControl (codes "\r\n")
unfolding strip
EndsControl-end rest = refl

strip-body :
    (line rest : Bytes)
    → All IsClean line
    → strip body (line ++ cr ∷ lf ∷ rest) ≡ line ++ cr ∷ lf ∷ strip start rest
unfolding strip
strip-body [] rest h = refl
strip-body (c ∷ line) rest h = ground (arith, strip-body line rest h.1)

-- A line that is no control line stays.
strip-line :
    (line rest : Bytes)
    → All IsClean line
    → NotControl line
    → strip start (line ++ cr ∷ lf ∷ rest) ≡ line ++ cr ∷ lf ∷ strip start rest
unfolding strip
strip-line [] rest h n = refl
strip-line (c ∷ []) rest h n = ground arith
strip-line (c ∷ d ∷ line) rest h n = ground (arith, strip-body line rest h.1.1)

strip-join_lines :
    (l : ℕ) (lines : List Bytes) (rest : Bytes)
    → All (IsLine l) lines
    → strip start (join_lines lines ++ rest) ≡ join_lines lines ++ strip start rest
unfolding join_lines
strip-join_lines l [] rest h = refl
strip-join_lines l (line ∷ lines) rest h = simp append_assoc (
    strip-line line (join_lines lines ++ rest) h.0.clean h.0.no_control
    ∙ ap (λ (s : Bytes). line ++ cr ∷ lf ∷ s) (strip-join_lines l lines rest h.1))

EndsControl-put :
    (texts : List Bytes) → All IsOneLine texts → EndsControl (put (texts ++ codes "\r\n" ∷ []))
unfolding strip
EndsControl-put [] h = EndsControl-end
EndsControl-put (s ∷ texts) h = EndsControl-append s _ h.0 (EndsControl-put texts h.1)

strip-ybegin :
    (fs : FileSystem) (g : YencGenerator) (i : ℕ) (rest : Bytes)
    → IsOneLine (fs.filename g.filepath)
    → strip start (ybegin fs g i ++ rest) ≡ strip start rest
unfolding ybegin strip
strip-ybegin fs g i rest name =
    EndsControl-put
      (codes "begin part="
        ∷ to_decimal (add_size i 1)
        ∷ codes " total="
        ∷ to_decimal (num_parts g)
        ∷ codes " line="
        ∷ to_decimal g.linesize
        ∷ codes " size="
        ∷ to_decimal g.filesize
        ∷ codes " name="
        ∷ fs.filename g.filepath
        ∷ [])
      (
        omega arith,
        (
          number _,
          (
            omega arith,
            (
              number _,
              (omega arith, (number _, (omega arith, (number _, (omega arith, (name, tt)))))),
            ),
          ),
        ),
      )
      rest
  where
    number : (n : ℕ) → IsOneLine (to_decimal n)
    number = to_decimal-IsOneLine

strip-ypart :
    (offset n : ℕ) (rest : Bytes) → strip start (ypart offset n ++ rest) ≡ strip start rest
unfolding ypart strip
strip-ypart offset n rest =
    EndsControl-put
      (codes "part begin="
        ∷ to_decimal (add_size offset 1)
        ∷ codes " end="
        ∷ to_decimal (add_size offset n)
        ∷ [])
      (omega arith, (to_decimal-IsOneLine _, (omega arith, (to_decimal-IsOneLine _, tt)))) rest

strip-yend : (n i sum : ℕ) (rest : Bytes) → strip start (yend n i sum ++ rest) ≡ strip start rest
unfolding yend strip
strip-yend n i sum rest =
    EndsControl-put
      (codes "end size="
        ∷ to_decimal n
        ∷ codes " part="
        ∷ to_decimal (add_size i 1)
        ∷ codes " pcrc32="
        ∷ to_hex sum
        ∷ [])
      (
        omega arith,
        (
          to_decimal-IsOneLine _,
          (omega arith, (to_decimal-IsOneLine _, (omega arith, (to_hex-IsOneLine _, tt)))),
        ),
      )
      rest

strip-encode_block :
    (l : ℕ) (buf rest : Bytes)
    → 0 < l
    → l + 1 < size_mod
    → strip start (encode_block l buf ++ rest) ≡ encode_block l buf ++ strip start rest
strip-encode_block l buf rest pos fits =
    let (lines, block) = encode_block-IsBlock l buf pos fits in
    rw block.spelled (strip-join_lines l lines rest block.each)

strip_nil : strip start [] ≡ []
unfolding strip
strip_nil = refl

-- A reader that drops the control lines, which begin with "=y", and decodes the rest finds in every
-- part exactly the bytes that get_part has read from the file. The file name holds no line end, and
-- the line size is positive and two less than 2^64 at most.
pub decode_part-frame :
    (fs : FileSystem) (crc32 : Bytes → ℕ) (g : YencGenerator) (i offset : ℕ) (buf : Bytes)
    → IsOneLine (fs.filename g.filepath)
    → 0 < g.linesize
    → g.linesize + 1 < size_mod
    → All IsByte buf
    → decode_part (frame fs crc32 g i offset buf) ≡ some buf
unfolding decode_part frame
decode_part-frame fs crc32 g i offset buf name pos fits bytes =
    let n : ℕ = length buf in
    let end : Bytes = yend n i (crc32 buf) in
    let coded : Bytes = encode_block g.linesize buf in
    let nothing : strip start end ≡ [] =
      ap (strip start) (sym (append-nil end)) ∙ strip-yend n i (crc32 buf) [] ∙ strip_nil in
    let bare : strip start (frame fs crc32 g i offset buf) ≡ coded =
      strip-ybegin fs g i (ypart offset n ++ (coded ++ end)) name
      ∙ strip-ypart offset n (coded ++ end)
      ∙ strip-encode_block g.linesize buf end pos fits
      ∙ ap (◌++◌ coded) nothing
      ∙ append-nil coded in
    ap decode bare ∙ decode-encode_block g.linesize buf bytes
