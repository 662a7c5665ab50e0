-- ===== src/YencGenerator/Passes.antt =====
-- A part of util/yencgenerator.cc as the receiver of an article sees it.
use post2usenet.Common.{
  ℕ, ◌+◌, ◌<◌, List, [], ◌∷◌, ◌++◌, arith, Bytes, codes, length, All, All-mono, IsOneLine, size_mod,
  add_size, cr, lf,
}
use post2usenet.Common.Decimal.{to_decimal, to_decimal-IsOneLine}
use post2usenet.Common.Hex.{to_hex, to_hex-IsOneLine}
use post2usenet.Boost.{FileSystem}
use post2usenet.Yenc.{encode_block}
use post2usenet.Yenc.Line.{IsLine, IsClean, BeginsWell}
use post2usenet.Yenc.Lines.{join_lines, encode_block-IsBlock}
use post2usenet.Message.Receive.{
  Passes, Passes-append, Passes-nil, Passes-line, Passes-put_line, NoDot,
}
use post2usenet.YencGenerator.{YencGenerator, ybegin, ypart, yend, frame, num_parts}

ybegin-Passes :
    (fs : FileSystem) (g : YencGenerator) (i : ℕ)
    → IsOneLine (fs.filename g.filepath)
    → Passes (ybegin fs g i)
unfolding ybegin
ybegin-Passes fs g i name =
    Passes-put_line
      (codes "=ybegin part="
        ∷ to_decimal (add_size i 1)
        ∷ codes " total="
        ∷ to_decimal (num_parts g)
        ∷ codes " line="
        ∷ to_decimal g.linesize
        ∷ codes " size="
        ∷ to_decimal g.filesize
        ∷ codes " name="
        ∷ fs.filename g.filepath
        ∷ [])
      (
        omega arith,
        (
          number _,
          (
            omega arith,
            (
              number _,
              (omega arith, (number _, (omega arith, (number _, (omega arith, (name, tt)))))),
            ),
          ),
        ),
      )
      (omega arith)
  where
    number : (n : ℕ) → IsOneLine (to_decimal n)
    number = to_decimal-IsOneLine

ypart-Passes : (offset n : ℕ) → Passes (ypart offset n)
unfolding ypart
ypart-Passes offset n =
    Passes-put_line
      (codes "=ypart begin="
        ∷ to_decimal (add_size offset 1)
        ∷ codes " end="
        ∷ to_decimal (add_size offset n)
        ∷ [])
      (omega arith, (to_decimal-IsOneLine _, (omega arith, (to_decimal-IsOneLine _, tt))))
      (omega arith)

yend-Passes : (n i sum : ℕ) → Passes (yend n i sum)
unfolding yend
yend-Passes n i sum =
    Passes-put_line
      (codes "=yend size="
        ∷ to_decimal n
        ∷ codes " part="
        ∷ to_decimal (add_size i 1)
        ∷ codes " pcrc32="
        ∷ to_hex sum
        ∷ [])
      (
        omega arith,
        (
          to_decimal-IsOneLine _,
          (omega arith, (to_decimal-IsOneLine _, (omega arith, (to_hex-IsOneLine _, tt)))),
        ),
      )
      (omega arith)

begins-NoDot : (line : Bytes) → BeginsWell line → NoDot line
begins-NoDot [] b = tt
begins-NoDot (c ∷ line) b = b.0

join_lines-Passes : (l : ℕ) (lines : List Bytes) → All (IsLine l) lines → Passes (join_lines lines)
unfolding join_lines
join_lines-Passes l [] h = Passes-nil
join_lines-Passes l (line ∷ lines) h =
    Passes-append (line ++ cr ∷ lf ∷ []) (join_lines lines)
      (Passes-line line (All-mono IsClean _ (λ c k. (k.2, k.3)) line h.0.clean)
        (begins-NoDot line h.0.begins))
      (join_lines-Passes l lines h.1)

encode_block-Passes : (l : ℕ) (buf : Bytes) → 0 < l → l + 1 < size_mod → Passes (encode_block l buf)
encode_block-Passes l buf pos fits =
    let (lines, block) = encode_block-IsBlock l buf pos fits in
    rw block.spelled (join_lines-Passes l lines block.each)

-- A receiver that ends an article at a line of a single dot, and takes a leading dot off every other
-- line, passes every part on as it is and reads on behind it. The file name holds no line end, and
-- the line size is positive and two less than 2^64 at most.
pub frame-Passes :
    (fs : FileSystem) (crc32 : Bytes → ℕ) (g : YencGenerator) (i offset : ℕ) (buf : Bytes)
    → IsOneLine (fs.filename g.filepath)
    → 0 < g.linesize
    → g.linesize + 1 < size_mod
    → Passes (frame fs crc32 g i offset buf)
unfolding frame
frame-Passes fs crc32 g i offset buf name pos fits = Passes-append _ _ (ybegin-Passes fs g i name) (
    Passes-append _ _ (ypart-Passes offset (length buf)) (
      Passes-append _ _ (encode_block-Passes g.linesize buf pos fits)
        (yend-Passes (length buf) i (crc32 buf))))
