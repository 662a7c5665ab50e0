-- ===== src/Main/Loop/Whole.antt =====
-- What the readers of the articles of main.cc get.
use mathlib.Core.List.{flatten}
use mathlib.Core.Path.{subst}
use post2usenet.Common.{
  ℕ, ◌+◌, ◌*◌, ◌<◌, List, [], ◌∷◌, ◌++◌, append-nil, ◌≡◌, refl, sym, ap, ◌∙◌, arith, Bytes, Option,
  some, length, put, All, All-append_left, All-append_right, IsByte, IsOneLine, size_mod, ◌>>=◌,
}
use post2usenet.Common.Result.{ok}
use post2usenet.Boost.{FileSystem}
use post2usenet.Config.{ProgConfig}
use post2usenet.Message.{Article}
use post2usenet.YencGenerator.{YencGenerator, make_generator, frame}
use post2usenet.YencGenerator.Read.{frames, read_parts-cover}
use post2usenet.YencGenerator.Frame.{decode_part, decode_part-frame}
use post2usenet.Fileset.{Fileset, get_num_files}
use post2usenet.Main.Loop.{Schedule, Loop, post_files}
use post2usenet.Main.Loop.Carried.{CarryParts, CarryFiles, post_files-CarryFiles}

-- A reader that decodes the articles of a file and puts them together.
pub reassemble : List Article → Option Bytes
reassemble [] = some []
reassemble (a ∷ articles) = do
  piece ← decode_part (put a.payload)
  rest ← reassemble articles
  some (piece ++ rest)

-- The files that generators have been made for, with their contents; no name holds a line end.
abbrev pub Opened : FileSystem → ℕ → List YencGenerator → List Bytes → Type 0
Opened fs a [] [] = Unit
Opened fs a [] (c ∷ contents) = ⊥
Opened fs a (g ∷ gs) [] = ⊥
Opened fs a (g ∷ gs) (c ∷ contents) =
    ((fs.contents g.filepath ≡ some c)
      × (length c < size_mod)
      × All IsByte c
      × IsOneLine (fs.filename g.filepath)
      × (make_generator fs g.filepath a 128 ≡ ok g))
    × Opened fs a gs contents

-- The articles in groups, of which each is put together to one of the contents.
abbrev pub Reassembles : List Bytes → List (List Article) → Type 0
Reassembles [] [] = Unit
Reassembles [] (g ∷ groups) = ⊥
Reassembles (c ∷ contents) [] = ⊥
Reassembles (c ∷ contents) (g ∷ groups) = (reassemble g ≡ some c) × Reassembles contents groups

make_generator-linesize :
    (fs : FileSystem) (p : Bytes) (a l : ℕ) (g : YencGenerator)
    → make_generator fs p a l ≡ ok g
    → g.linesize ≡ l
unfolding make_generator
make_generator-linesize fs p a l g e = ground arith

module _ (fs : FileSystem) (crc32 : Bytes → ℕ) (cfg : ProgConfig) (run_nonce : Bytes) where
  reassemble-frames :
      (s : Fileset) (i j n : ℕ) (g : YencGenerator) (pieces : List Bytes) (mine : List Article)
      → IsOneLine (fs.filename g.filepath)
      → 0 < g.linesize
      → g.linesize + 1 < size_mod
      → All IsByte (flatten pieces)
      → CarryParts fs crc32 cfg run_nonce s i j (frames fs crc32 g n pieces) mine
      → reassemble mine ≡ some (flatten pieces)
  unfolding reassemble flatten frames
  reassemble-frames s i j n g [] [] name pos fits bytes carry = refl
  reassemble-frames s i j n g [] (a ∷ mine) name pos fits bytes carry = absurd carry
  reassemble-frames s i j n g (d ∷ pieces) [] name pos fits bytes carry = absurd carry
  reassemble-frames s i j n g (d ∷ pieces) (a ∷ mine) name pos fits bytes (carries, carry) =
      let part : Bytes = frame fs crc32 g n (n * g.articlesize) d in
      let payload : put a.payload ≡ part = ap put carries.payload ∙ append-nil part in
      let decodes : decode_part (put a.payload) ≡ some d =
        ap decode_part payload
        ∙ decode_part-frame fs crc32 g n (n * g.articlesize) d name pos fits
            (All-append_left IsByte d (flatten pieces) bytes) in
      let rest =
        reassemble-frames s i (j + 1) (n + 1) g pieces mine name pos fits
          (All-append_right IsByte d (flatten pieces) bytes) carry in
      rw (decodes, rest) refl

  CarryFiles-Reassembles :
      (s : Fileset) (i a : ℕ) (gs : List YencGenerator) (contents : List Bytes)
      (made : List Article)
      → Opened fs a gs contents
      → CarryFiles fs crc32 cfg run_nonce s i gs made
      → (groups : List (List Article)) × (made ≡ flatten groups) × Reassembles contents groups
  unfolding flatten
  CarryFiles-Reassembles s i a [] [] made h e = ([], e, tt)
  CarryFiles-Reassembles s i a [] (c ∷ contents) made h e = absurd h
  CarryFiles-Reassembles s i a (g ∷ gs) [] made h e = absurd h
  CarryFiles-Reassembles s i a (g ∷ gs) (c ∷ contents) made ((there, fits, bytes, name, opened), h)
        (mine, rest, e, carry, more) =
      let (pieces, parts, v) = read_parts-cover fs crc32 g.filepath a 128 c there fits g opened in
      let line = make_generator-linesize fs g.filepath a 128 g opened in
      let whole : reassemble mine ≡ some (flatten pieces) =
        reassemble-frames s i 0 0 g pieces mine name (omega arith) (omega arith)
          (subst (All IsByte) (sym v.whole) bytes)
          (subst (λ ps. CarryParts fs crc32 cfg run_nonce s i 0 ps mine) parts carry) in
      let (groups, e', r) = CarryFiles-Reassembles s (i + 1) a gs contents rest h more in
      (
        mine ∷ groups,
        e ∙ ap (λ (as' : List Article). mine ++ as') e',
        (whole ∙ ap (λ (t : Bytes). some t) v.whole, r),
      )

  -- Where the loops end well, the articles that they have made, in order, are one group for each file,
  -- and a reader that decodes a group and puts it together gets that file, byte for byte, whatever the
  -- other threads do in between. The files are shorter than 2^64 bytes, no name holds a line end, and
  -- each path has its generator, as the constructor has made it.
  pub post_files-Reassembles :
      (others : Schedule) (l l' : Loop) (contents : List Bytes)
      → length l.postitems.files ≡ length l.postitems.filehandles
      → Opened fs l.postitems.articlesize l.postitems.filehandles contents
      → l.made ≡ []
      → post_files fs crc32 cfg run_nonce others (get_num_files l.postitems) 0 l ≡ ok l'
      → (groups : List (List Article)) × (l'.made ≡ flatten groups) × Reassembles contents groups
  post_files-Reassembles others l l' contents aligned opened none_yet e =
      CarryFiles-Reassembles l.postitems 0 l.postitems.articlesize l.postitems.filehandles contents
        l'.made opened (post_files-CarryFiles fs crc32 cfg run_nonce others l l' aligned none_yet e)
