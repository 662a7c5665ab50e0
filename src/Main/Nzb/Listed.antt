-- ===== src/Main/Nzb/Listed.antt =====
-- The segments that write_nzb of main.cc writes, against the articles that the loops have made.
use post2usenet.Common.{ℕ, ◌+◌, List, [], ◌∷◌, ◌++◌, ◌≡◌, Bytes, none, some, length, put}
use post2usenet.Common.Result.{ok}
use post2usenet.Boost.{Replacing}
use post2usenet.Message.{Article}
use post2usenet.Fileset.{Fileset, FilepieceKey, get_num_pieces, get_usenet_message_id}
use post2usenet.Main.Loop.{Loop}
use post2usenet.Main.{lookup}
use post2usenet.Main.Nzb.{segment, bare_id, write_segments}

-- The id that an article is listed under: its own, but for a piece that has been given another nonce.
abbrev pub listed_id : Bytes → List (FilepieceKey × Bytes) → ℕ → ℕ → Article → Bytes
listed_id domain exceptions i j a =
    elim (lookup (record { file_index = i; piece_index = j }) exceptions) [
      | none ↦ a.header.msgid
      | some given ↦ get_usenet_message_id given domain i j
    ]

module _ (rep : Replacing) (domain nonce : Bytes) (exceptions : List (FilepieceKey × Bytes)) where
  -- A segment for each article of the file with an index: its size, its number and its id.
  pub listing : ℕ → ℕ → List Article → Bytes
  listing i j [] = []
  listing i j (a ∷ articles) =
      segment (bare_id rep (listed_id domain exceptions i j a)) j (length (put a.payload))
      ++ listing i (j + 1) articles

-- Groups of articles, one for each file from file `i` on, with as many articles as get_num_pieces says:
-- given the sizes of the file, write_segments writes one segment for each article of the group.
abbrev pub Lists :
    Replacing
    → Fileset
    → Bytes
    → Bytes
    → List (FilepieceKey × Bytes)
    → ℕ
    → List (List Article)
    → List (List (ℕ × ℕ))
    → Type 0
Lists rep items domain nonce exceptions i [] sizes = sizes ≡ []
Lists rep items domain nonce exceptions i (g ∷ groups) [] = ⊥
Lists rep items domain nonce exceptions i (g ∷ groups) (s ∷ sizes) =
    (get_num_pieces items i ≡ some (length g))
    × (write_segments rep domain nonce exceptions s i (length g) 0
        ≡ ok (listing rep domain nonce exceptions i 0 g))
    × Lists rep items domain nonce exceptions (i + 1) groups sizes
