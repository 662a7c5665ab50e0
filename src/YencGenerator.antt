-- ===== src/YencGenerator.antt =====
-- util/yencgenerator.hpp and util/yencgenerator.cc. The file system is the record FileSystem, and the
-- CRC of boost/crc.hpp is an argument of get_part. The file does not change while it is open.
pub mod Stream
pub mod Read
pub mod Frame
pub mod Passes
use post2usenet.Common.{
  ℕ, ◌+◌, ◌*◌, ◌/◌, ◌%◌, Bool, ◌||◌, ◌&&◌, not, leb, [], ◌∷◌, ◌++◌, Bytes, codes, put, Option, none,
  some, length, ◌==◌, if◌then◌else◌, add_size, size_mod,
}
use post2usenet.Common.Decimal.{to_decimal}
use post2usenet.Common.Hex.{to_hex}
use post2usenet.Common.Result.{Result, ok, err}
use post2usenet.Boost.{FileSystem}
use post2usenet.Yenc.{encode_block}
use Stream.{InStream, max_offset, open_stream, seekg, read}

pub record YencGenerator : Type 0 where
  pub filepath : Bytes
  pub articlesize : ℕ
  pub linesize : ℕ
  pub numparts : ℕ
  pub filesize : ℕ
  pub file : InStream

-- The two exceptions of the constructor, and the division by an article size of 0.
pub data GeneratorError : Type 0 where
  invalid_filename could_not_open zero_article_size : GeneratorError

-- The rounded up quotient, as the constructor computes it.
unfoldable pub count_parts : ℕ → ℕ → ℕ
count_parts filesize articlesize =
    let parts = filesize / articlesize in
    if filesize % articlesize == 0 then parts else add_size parts 1

unfoldable pub make_generator : FileSystem → Bytes → ℕ → ℕ → Result GeneratorError YencGenerator
unfolding count_parts
make_generator fs path articlesize linesize =
    if not (fs.exists path) || not (fs.is_regular path)
    then err invalid_filename
    else elim (fs.contents path) [
      | none ↦ err could_not_open
      | some content ↦
          if articlesize == 0
          then err zero_article_size
          else ok (record {
            filepath = path;
            articlesize = articlesize;
            linesize = linesize;
            numparts = count_parts (fs.file_size path) articlesize;
            filesize = fs.file_size path;
            file = open_stream content;
          })
    ]

unfoldable pub num_parts : YencGenerator → ℕ
num_parts g = g.numparts

-- The control lines of a part.
pub ybegin : FileSystem → YencGenerator → ℕ → Bytes
unfolding num_parts
ybegin fs g partnumber = put (
    codes "=ybegin part="
    ∷ to_decimal (add_size partnumber 1)
    ∷ codes " total="
    ∷ to_decimal (num_parts g)
    ∷ codes " line="
    ∷ to_decimal g.linesize
    ∷ codes " size="
    ∷ to_decimal g.filesize
    ∷ codes " name="
    ∷ fs.filename g.filepath
    ∷ codes "\r\n"
    ∷ [])

pub ypart : ℕ → ℕ → Bytes
ypart part_offset bytes_read = put (
    codes "=ypart begin="
    ∷ to_decimal (add_size part_offset 1)
    ∷ codes " end="
    ∷ to_decimal (add_size part_offset bytes_read)
    ∷ codes "\r\n"
    ∷ [])

pub yend : ℕ → ℕ → ℕ → Bytes
yend bytes_read partnumber checksum = put (
    codes "=yend size="
    ∷ to_decimal bytes_read
    ∷ codes " part="
    ∷ to_decimal (add_size partnumber 1)
    ∷ codes " pcrc32="
    ∷ to_hex checksum
    ∷ codes "\r\n"
    ∷ [])

-- What get_part returns once `buf` has been read at `part_offset`.
pub frame : FileSystem → (Bytes → ℕ) → YencGenerator → ℕ → ℕ → Bytes → Bytes
unfolding ybegin ypart yend
frame fs crc32 g partnumber part_offset buf =
    ybegin fs g partnumber
    ++ (ypart part_offset (length buf)
        ++ (encode_block g.linesize buf ++ yend (length buf) partnumber (crc32 buf)))

-- What get_part does once both vectors have their storage: the generator with its stream moved on, and
-- the part. The bytes are read into storage that has been reserved only; they are taken to stay there.
unfoldable pub read_part : FileSystem → (Bytes → ℕ) → YencGenerator → ℕ → YencGenerator × Bytes
unfolding frame seekg read
read_part fs crc32 g partnumber =
    let part_offset = (partnumber * g.articlesize) % size_mod in
    let (file', buf) = read (seekg g.file part_offset) g.articlesize in
    (record g { file = file' }, frame fs crc32 g partnumber part_offset buf)

-- A vector of bytes can reserve so much, and half as much again for the part: no more than 2 ^ 63 - 1.
unfoldable pub can_reserve : ℕ → Bool
can_reserve articlesize = leb articlesize max_offset && leb (articlesize * 3 / 2) max_offset

-- `none`: reserve throws std::length_error.
unfoldable pub get_part :
    FileSystem → (Bytes → ℕ) → YencGenerator → ℕ → Option (YencGenerator × Bytes)
unfolding can_reserve read_part
get_part fs crc32 g partnumber =
    if can_reserve g.articlesize then some (read_part fs crc32 g partnumber) else none
