-- ===== src/Main/Report/Counted.antt =====
-- What the slot for finished posts of main.cc counts.
use mathlib.Core.List.{Permᴰ}
use post2usenet.Common.{
  ℕ, zero, suc, ◌+◌, ◌%◌, List, [], ◌∷◌, ◌≡◌, refl, ap, ◌∙◌, arith, Bytes, length, ◌<◌,
  length-append, size_mod, add_size, sub_size,
}
use post2usenet.Common.Int.{ℤ, pos}
use post2usenet.Common.Result.{ok}
use post2usenet.Boost.{FileSystem}
use post2usenet.Config.{ProgConfig}
use post2usenet.Message.{Article}
use post2usenet.YencGenerator.{YencGenerator, num_parts, read_part}
use post2usenet.YencGenerator.Read.{read_parts}
use post2usenet.Fileset.{Fileset, get_num_files, get_total_pieces, total_from}
use post2usenet.Fileset.Keys.{IsAligned}
use post2usenet.Main.Loop.{Schedule, Loop, post_files}
use post2usenet.Main.Loop.Carried.{CarryParts, CarryFiles, post_files-CarryFiles}
use post2usenet.Main.Report.{Progress, on_post_done}

length-Permᴰ {ℓ} : {A : Type ℓ} {xs ys : List A} → Permᴰ xs ys → length xs ≡ length ys
length-Permᴰ Permᴰ.nil = refl
length-Permᴰ (Permᴰ.cons _ p) = ap suc (length-Permᴰ p)
length-Permᴰ (Permᴰ.swap _ _) = refl
length-Permᴰ (Permᴰ.trans p q) = length-Permᴰ p ∙ length-Permᴰ q

length-read_parts :
    (fs : FileSystem) (crc32 : Bytes → ℕ) (n j : ℕ) (g : YencGenerator)
    → length (read_parts fs crc32 n j g) ≡ n
unfolding read_parts
length-read_parts fs crc32 zero j g = refl
length-read_parts fs crc32 (suc n) j g =
    omega (arith, length-read_parts fs crc32 n (j + 1) (read_part fs crc32 g j).0)

-- The parts of all files.
all_parts : List YencGenerator → ℕ
all_parts [] = 0
all_parts (g ∷ gs) = num_parts g + all_parts gs

total_from-all_parts :
    (ret : ℕ) (gs : List YencGenerator)
    → total_from ret gs % size_mod ≡ (ret + all_parts gs) % size_mod
unfolding total_from all_parts
total_from-all_parts ret [] = omega arith
total_from-all_parts ret (g ∷ gs) =
    omega (arith, total_from-all_parts ((ret + num_parts g) % size_mod) gs)

module _ (fs : FileSystem) (crc32 : Bytes → ℕ) (cfg : ProgConfig) (run_nonce : Bytes) where
  length-CarryParts :
      (s : Fileset) (i j : ℕ) (parts : List Bytes) (made : List Article)
      → CarryParts fs crc32 cfg run_nonce s i j parts made
      → length made ≡ length parts
  length-CarryParts s i j [] [] h = refl
  length-CarryParts s i j [] (a ∷ made) h = absurd h
  length-CarryParts s i j (p ∷ parts) [] h = absurd h
  length-CarryParts s i j (p ∷ parts) (a ∷ made) h =
      ap suc (length-CarryParts s i (j + 1) parts made h.1)

  length-CarryFiles :
      (s : Fileset) (i : ℕ) (gs : List YencGenerator) (made : List Article)
      → CarryFiles fs crc32 cfg run_nonce s i gs made
      → length made ≡ all_parts gs
  unfolding all_parts
  length-CarryFiles s i [] made h = ap length h
  length-CarryFiles s i (g ∷ gs) made (mine, rest, e, parts, files) = omega (
    arith,
    ap length e,
    length-append mine rest,
    length-CarryParts s i 0 _ mine parts,
    length-read_parts fs crc32 (num_parts g) 0 g,
    length-CarryFiles s (i + 1) gs rest files,
  )

-- The slot is called for one article after the other; `elapsed` is the clock.
pub count_posts : (ℕ → ℕ → ℤ) → ℕ → (ℕ → ℕ) → List Article → Progress → Progress
count_posts percentage total elapsed [] p = p
count_posts percentage total elapsed (a ∷ articles) p =
    count_posts percentage total elapsed articles
      (on_post_done percentage total (elapsed p.num_posted) a p).0

count_posts-num_posted :
    (percentage : ℕ → ℕ → ℤ) (total : ℕ) (elapsed : ℕ → ℕ) (articles : List Article) (p : Progress)
    → (count_posts percentage total elapsed articles p).num_posted % size_mod
      ≡ (p.num_posted + length articles) % size_mod
unfolding count_posts on_post_done
count_posts-num_posted percentage total elapsed [] p = omega arith
count_posts-num_posted percentage total elapsed (a ∷ articles) p = omega (
  arith,
  count_posts-num_posted percentage total elapsed articles
      (on_post_done percentage total (elapsed p.num_posted) a p).0,
)

remaining_none :
    (total n : ℕ)
    → total % size_mod ≡ (n + 1) % size_mod
    → total < size_mod
    → sub_size total (add_size n 1) ≡ 0
remaining_none total n e fits = omega (arith, e, fits)

total_from-lt : (ret : ℕ) (gs : List YencGenerator) → ret < size_mod → total_from ret gs < size_mod
unfolding total_from
total_from-lt ret [] h = h
total_from-lt ret (g ∷ gs) h = total_from-lt (add_size ret (num_parts g)) gs (omega arith)

-- Where the slot has been called for all articles that the loops have made, once for each and in
-- whatever order, the last call says that no piece remains and that all of the work is done, 100 percent,
-- whatever the percentage comes to in floating point. Each path has its generator.
pub last_post-Status :
    (fs : FileSystem) (crc32 : Bytes → ℕ) (cfg : ProgConfig) (run_nonce : Bytes) (others : Schedule)
    (l l' : Loop) (percentage : ℕ → ℕ → ℤ) (elapsed : ℕ → ℕ) (seconds : ℕ) (before : List Article)
    (last : Article)
    → IsAligned l.postitems
    → l.made ≡ []
    → post_files fs crc32 cfg run_nonce others (get_num_files l.postitems) 0 l ≡ ok l'
    → Permᴰ (last ∷ before) l'.made
    → let total = get_total_pieces l.postitems in
      let none_posted : Progress = record { num_posted = 0; bytes_posted = 0 } in
      let p = count_posts percentage total elapsed before none_posted in
      let shown = (on_post_done percentage total seconds last p).1 in
      (shown.pieces_remaining ≡ 0) × (shown.percentage_complete ≡ pos 100)
unfolding on_post_done get_total_pieces
last_post-Status fs crc32 cfg run_nonce others l l' percentage elapsed seconds before last aligned
      none_made e done =
    let gs = l.postitems.filehandles in
    let total = total_from 0 gs in
    let p =
      count_posts percentage total elapsed before (record { num_posted = 0; bytes_posted = 0 }) in
    let carry = post_files-CarryFiles fs crc32 cfg run_nonce others l l' aligned none_made e in
    let many = length-CarryFiles fs crc32 cfg run_nonce l.postitems 0 gs l'.made carry in
    let each = length-Permᴰ done in
    let parts = total_from-all_parts 0 gs in
    let counted =
      count_posts-num_posted percentage total elapsed before
        (record { num_posted = 0; bytes_posted = 0 }) in
    let none_left : sub_size total (add_size p.num_posted 1) ≡ 0 =
      remaining_none total p.num_posted (omega arith) (total_from-lt 0 gs (omega arith)) in
    (none_left, ground arith)
