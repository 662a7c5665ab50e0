-- ===== src/Tests/Yenc.antt =====
-- The theorems on yenc and util/yencgenerator at a small file.
use post2usenet.Common.{
  ◌+◌, ◌*◌, ◌<◌, ◌≤◌, List, [], ◌∷◌, ◌≡◌, arith, Bytes, codes, some, All, IsByte,
}
use post2usenet.Yenc.{encode_block}
use post2usenet.Yenc.Decode.{decode, decode-encode_block}
use post2usenet.Yenc.Lines.{IsBlock, encode_block-IsBlock}
use post2usenet.YencGenerator.{YencGenerator, count_parts, frame}
use post2usenet.YencGenerator.Stream.{open_stream}
use post2usenet.YencGenerator.Read.{count_parts-bounds}
use post2usenet.YencGenerator.Frame.{decode_part, decode_part-frame}
use post2usenet.YencGenerator.Passes.{frame-Passes}
use post2usenet.Message.Receive.{Passes}
use post2usenet.Tests.Data.{file_text, one_file, no_crc}

-- Bytes that are escaped, 19, and bytes that are escaped at the start of a line, 223 and 4.
abbrev input : Bytes
input = 223 ∷ 19 ∷ 214 ∷ 4 ∷ 7 ∷ []

input-IsByte : All IsByte input
input-IsByte = omega arith

decode-encode_block_example : decode (encode_block 2 input) ≡ some input
decode-encode_block_example = decode-encode_block 2 input input-IsByte

encode_block-IsBlock_example : (lines : List Bytes) × IsBlock 2 (encode_block 2 input) lines
encode_block-IsBlock_example = encode_block-IsBlock 2 input (omega arith) (omega arith)

count_parts-bounds_example : (18 ≤ count_parts 18 5 * 5) × (count_parts 18 5 * 5 < 18 + 5)
count_parts-bounds_example = count_parts-bounds 18 5 (omega arith) (omega arith)

abbrev opened : YencGenerator
opened = record {
  filepath = codes "/a.txt";
  articlesize = 5;
  linesize = 4;
  numparts = 4;
  filesize = 17;
  file = open_stream file_text;
}

decode_part-frame_example : decode_part (frame one_file no_crc opened 1 5 input) ≡ some input
decode_part-frame_example =
    decode_part-frame one_file no_crc opened 1 5 input (omega arith) (omega arith) (omega arith)
      input-IsByte

frame-Passes_example : Passes (frame one_file no_crc opened 1 5 input)
frame-Passes_example =
    frame-Passes one_file no_crc opened 1 5 input (omega arith) (omega arith) (omega arith)
