-- ===== src/Fileset.antt =====
-- fileset.hpp and fileset.cc.
pub mod MessageId
pub mod Keys
pub mod Chunks
use post2usenet.Common.{
  ℕ, zero, suc, ◌+◌, Bool, true, false, not, List, [], ◌∷◌, ◌++◌, Bytes, codes, put, Option, none,
  some, length, get_elem?, set, ltb, ◌==◌, ◌>>=◌, if◌then◌else◌, add_size, sub_size,
}
use mathlib.Core.Option
use post2usenet.Common.Decimal.{to_decimal, stoul}
use post2usenet.Common.Find.{find, substr, npos}
use post2usenet.Common.Result.{Result, ok, err}
use post2usenet.Boost.{FileSystem}
use post2usenet.YencGenerator.{YencGenerator, GeneratorError, make_generator, num_parts, get_part}

pub record FilepieceKey : Type 0 where
  pub file_index : ℕ
  pub piece_index : ℕ

-- FilepieceKey::operator<
pub key_lt : FilepieceKey → FilepieceKey → Bool
key_lt a b =
    if ltb a.file_index b.file_index
    then true
    else if ltb b.file_index a.file_index
    then false
    else ltb a.piece_index b.piece_index

pub record Fileset : Type 0 where
  pub files : List Bytes
  pub filehandles : List YencGenerator
  pub articlesize : ℕ

unfoldable pub make_fileset : ℕ → Fileset
make_fileset article_size = record { files = []; filehandles = []; articlesize = article_size }

-- The path is kept before the generator is made, so it stays where the constructor throws.
unfoldable pub add_file : FileSystem → Fileset → Bytes → Fileset × Result GeneratorError Bool
add_file fs s p =
    if not (fs.is_regular p) then (s, ok false) else elim (make_generator fs p s.articlesize 128) [
      | err e ↦ (record s { files = s.files ++ p ∷ [] }, err e)
      | ok g ↦
          (record s { files = s.files ++ p ∷ []; filehandles = s.filehandles ++ g ∷ [] }, ok true)
    ]

-- `none` is out_of_range, here and below.
unfoldable pub get_file_name : FileSystem → Fileset → ℕ → Option Bytes
get_file_name fs s index = Option.map fs.filename (get_elem? s.files index)

unfoldable pub get_num_pieces : Fileset → ℕ → Option ℕ
get_num_pieces s index = Option.map num_parts (get_elem? s.filehandles index)

unfoldable pub get_num_files : Fileset → ℕ
get_num_files s = length s.files

-- Reading a piece moves the stream of its generator. `none`: at() throws std::out_of_range, or get_part
-- throws std::length_error.
unfoldable pub get_chunk : FileSystem → (Bytes → ℕ) → Fileset → ℕ → ℕ → Option (Fileset × Bytes)
get_chunk fs crc32 s fileindex pieceindex = elim (get_elem? s.filehandles fileindex) [
  | none ↦ none
  | some g ↦ do
    (g', chunk) ← get_part fs crc32 g pieceindex
    some (record s { filehandles = set s.filehandles fileindex g' }, chunk)
]

unfoldable pub get_usenet_subject : FileSystem → Fileset → Bytes → ℕ → ℕ → Option Bytes
unfolding get_num_files get_file_name get_num_pieces
get_usenet_subject fs s subject file_index piece_index = do
  name ← get_file_name fs s file_index
  pieces ← get_num_pieces s file_index
  some (
      put (
        subject
        ∷ codes " ["
        ∷ to_decimal (add_size file_index 1)
        ∷ codes "/"
        ∷ to_decimal (get_num_files s)
        ∷ codes "] - \""
        ∷ name
        ∷ codes "\" yEnc ("
        ∷ to_decimal (add_size piece_index 1)
        ∷ codes "/"
        ∷ to_decimal pieces
        ∷ codes ")"
        ∷ []))

unfoldable pub get_usenet_message_id : Bytes → Bytes → ℕ → ℕ → Bytes
get_usenet_message_id nonce domain file_index piece_index = put (
    codes "<"
    ∷ nonce
    ∷ codes "."
    ∷ to_decimal file_index
    ∷ codes "."
    ∷ to_decimal piece_index
    ∷ codes "@"
    ∷ domain
    ∷ codes ">"
    ∷ [])

unfoldable pub total_from : ℕ → List YencGenerator → ℕ
total_from ret [] = ret
total_from ret (file ∷ rest) = total_from (add_size ret (num_parts file)) rest

unfoldable pub get_total_pieces : Fileset → ℕ
unfolding total_from
get_total_pieces s = total_from 0 s.filehandles

-- `none`: an assertion fails, or substr or stoul throws.
pub get_key_from_message_id : Bytes → Option FilepieceKey
get_key_from_message_id msgid =
    let first_dot = find b'.' msgid 0 in
    let second_dot = find b'.' msgid (add_size first_dot 1) in
    let atsep = find b'@' msgid (add_size second_dot 1) in
    if first_dot == npos then none else if second_dot == npos then none else do
      file ← substr msgid (add_size first_dot 1) (sub_size second_dot (add_size first_dot 1))
      file_index ← stoul file
      piece ← substr msgid (add_size second_dot 1) (sub_size atsep (add_size second_dot 1))
      piece_index ← stoul piece
      some (record { file_index = file_index; piece_index = piece_index })
