-- ===== src/YencGenerator/Stream.antt =====
-- The std::ifstream that util/yencgenerator.cc reads: as much of the standard library as it uses.
use post2usenet.Common.{
  ℕ, ◌+◌, Bool, true, false, [], Bytes, length, take, drop, ltb, if◌then◌else◌,
}

-- `failed` is failbit or badbit. eofbit is not kept: seekg clears it, and a read that sets it sets
-- failbit too.
pub record InStream : Type 0 where
  pub content : Bytes
  pub position : ℕ
  pub failed : Bool

unfoldable pub open_stream : Bytes → InStream
open_stream content = record { content = content; position = 0; failed = false }

-- 2 ^ 63 - 1, the greatest streamoff and streamsize.
abbrev pub max_offset : ℕ
max_offset = 9223372036854775807

-- A stream that has failed stays where it is. A size_t above the greatest streamoff becomes a negative
-- offset, which fails.
unfoldable pub seekg : InStream → ℕ → InStream
seekg s position =
    if s.failed
    then s
    else if ltb max_offset position
    then record s { failed = true }
    else record s { position = position }

-- The stream behind the read, and the bytes that are read: gcount() is their number. A read that
-- meets the end of the file sets failbit.
unfoldable pub read : InStream → ℕ → InStream × Bytes
read s n =
    let got = take n (drop s.position s.content) in
    if s.failed
    then (s, [])
    else (record s { position = s.position + length got; failed = ltb (length got) n }, got)
