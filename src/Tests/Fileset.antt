-- ===== src/Tests/Fileset.antt =====
-- The theorems on fileset and nntp/connection_info at small data.
use post2usenet.Common.{
  ℕ, ◌+◌, ◌<◌, Bool, true, false, not, ◌&&◌, ◌||◌, ◌≡◌, ◌⊎◌, refl, arith, codes, some, length,
}
use post2usenet.Common.Decimal.{to_decimal}
use post2usenet.Common.Result.{ok, err}
use post2usenet.Common.Find.{npos}
use post2usenet.YencGenerator.{GeneratorError}
use post2usenet.Fileset.{
  FilepieceKey, key_lt, Fileset, make_fileset, add_file, get_usenet_message_id,
  get_key_from_message_id,
}
use post2usenet.Fileset.MessageId.{get_key-get_usenet_message_id}
use post2usenet.Fileset.Keys.{key_lt_strict_order, IsAligned, add_file_alignment}
use post2usenet.Tests.Data.{one_file}

short_id : length (get_usenet_message_id (codes "nonce") (codes "a.org") 12 3) < npos
unfolding get_usenet_message_id to_decimal
short_id = omega arith

get_key-get_usenet_message_id_example :
    get_key_from_message_id (get_usenet_message_id (codes "nonce") (codes "a.org") 12 3)
    ≡ some (record { file_index = 12; piece_index = 3 })
get_key-get_usenet_message_id_example =
    get_key-get_usenet_message_id (codes "nonce") (codes "a.org") 12 3 (omega arith) (omega arith)
      (omega arith) short_id

abbrev key : ℕ → ℕ → FilepieceKey
key i j = record { file_index = i; piece_index = j }

key_lt_strict_order_example :
    (key_lt (key 1 9) (key 1 9) ≡ false)
    × (not (key_lt (key 1 9) (key 2 0) && key_lt (key 2 0) (key 2 4)) || key_lt (key 1 9) (key 2 4)
        ≡ true)
    × ((key 1 9 ≡ key 2 0)
        ⊎ (key_lt (key 1 9) (key 2 0) ≡ true)
        ⊎ (key_lt (key 2 0) (key 1 9) ≡ true))
key_lt_strict_order_example = key_lt_strict_order (key 1 9) (key 2 0) (key 2 4)

-- No file yet, and an article size of 5.
abbrev empty_set : Fileset
empty_set = make_fileset 5

empty_set-IsAligned : IsAligned empty_set
unfolding make_fileset
empty_set-IsAligned = refl

add_file_alignment_example :
    (((b : Bool) × ((add_file one_file empty_set (codes "/a.txt")).1 ≡ ok b))
      × IsAligned (add_file one_file empty_set (codes "/a.txt")).0)
    ⊎ (((e : GeneratorError) × ((add_file one_file empty_set (codes "/a.txt")).1 ≡ err e))
        × (length (add_file one_file empty_set (codes "/a.txt")).0.files
            ≡ length (add_file one_file empty_set (codes "/a.txt")).0.filehandles + 1))
add_file_alignment_example =
    add_file_alignment one_file empty_set (codes "/a.txt") empty_set-IsAligned
