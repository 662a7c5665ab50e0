-- ===== src/YencGenerator/Read.antt =====
-- The parts that get_part of util/yencgenerator.cc returns when it is called for every part in order, as main does.
use mathlib.Core.List.{flatten}
use mathlib.Core.Option
use post2usenet.Common.{
  ℕ, zero, suc, ◌+◌, ◌-◌, ◌*◌, ◌%◌, ◌≤◌, ◌<◌, false, List, [], ◌∷◌, ◌++◌, ◌≡◌, ◌≢◌, refl, ap, ◌∙◌,
  sym, none, some, Option, arith, Bytes, length, take, drop, take-append-drop, length-take,
  length-drop, drop-drop, All, AllButLast, AllButLast-cons, ltb, size_mod,
}
use mathlib.Core.Path.{subst, subst₂}
use native.Mathlib.Nat.{mod-eq_of_lt}
use post2usenet.Common.Result.{ok}
use post2usenet.Boost.{FileSystem}
use post2usenet.YencGenerator.Stream.{max_offset, InStream, open_stream, seekg, read}
use post2usenet.YencGenerator.{
  YencGenerator, make_generator, count_parts, num_parts, frame, read_part, get_part,
}

-- The number of parts is the rounded up quotient: enough parts, and none of them empty. The article
-- size is positive, and the file is shorter than 2^64 bytes.
pub count_parts-bounds :
    (n a : ℕ) → 0 < a → n < size_mod → (n ≤ count_parts n a * a) × (count_parts n a * a < n + a)
unfolding count_parts
count_parts-bounds n a pos fits = grind arith

-- Pieces of a text: put together they are the text, none is empty or longer than `a` bytes, and all
-- but the last have `a` bytes.
pub record IsPieces (a : ℕ) (text : Bytes) (pieces : List Bytes) : Type 0 where
  pub whole : flatten pieces ≡ text
  pub each : All (λ p. (0 < length p) × (length p ≤ a)) pieces
  pub full : AllButLast (λ p. length p ≡ a) pieces

IsPieces-cons :
    (a : ℕ) (text : Bytes) (pieces : List Bytes)
    → 0 < a
    → 0 < length text
    → (pieces ≢ [] → a ≤ length text)
    → IsPieces a (drop a text) pieces
    → IsPieces a text (take a text ∷ pieces)
unfolding flatten
IsPieces-cons a text pieces pos some_byte more v = record {
  whole = ap (◌++◌ (take a text)) v.whole ∙ take-append-drop a text;
  each = (omega (arith, length-take a text), v.each);
  full =
      AllButLast-cons (λ p. length p ≡ a) (take a text) pieces
        (λ e. omega (arith, length-take a text, more e)) v.full;
}

empty_of_length : (xs : Bytes) → length xs ≤ 0 → [] ≡ xs
empty_of_length [] h = refl
empty_of_length (x ∷ xs) h = absurd (omega arith)

drop-next : (i a : ℕ) (xs : Bytes) → drop ((i + 1) * a) xs ≡ drop a (drop (i * a) xs)
drop-next i a xs = sym (drop-drop (i * a) a xs ∙ ap (λ (n : ℕ). drop n xs) (omega arith))

-- Where a part is left, the piece in front of it has the full length.
more_left : (a left : ℕ) (rest : Bytes) → left ≢ 0 → left * a < length rest → a ≤ length rest
more_left a left rest e h = grind arith

not_short :
    (a left : ℕ) (rest : Bytes)
    → left ≢ 0
    → left * a < length rest
    → ltb (length (take a rest)) a ≡ false
not_short a left rest e h = ground (arith, length-take a rest, more_left a left rest e h)

module _ (fs : FileSystem) (crc32 : Bytes → ℕ) where
  -- The calls of read_part for `left` parts from part `i` on.
  unfoldable pub read_parts : ℕ → ℕ → YencGenerator → List Bytes
  read_parts zero i g = []
  read_parts (suc left) i g =
      let (g', part) = read_part fs crc32 g i in part ∷ read_parts left (i + 1) g'

  -- The parts that carry given pieces of a file, numbered from `i` on.
  unfoldable pub frames : YencGenerator → ℕ → List Bytes → List Bytes
  frames g i [] = []
  frames g i (d ∷ ds) = frame fs crc32 g i (i * g.articlesize) d ∷ frames g (i + 1) ds

  -- A part behind which nothing of the file is skipped, and whose piece is read whole.
  frame_of_read :
      (g : YencGenerator) (i : ℕ)
      → g.file.failed ≡ false
      → i * g.articlesize ≤ max_offset
      → let piece = take g.articlesize (drop (i * g.articlesize) g.file.content) in
        read_part fs crc32 g i ≡ (
          record g {
            file = record {
              content = g.file.content;
              position = i * g.articlesize + length piece;
              failed = ltb (length piece) g.articlesize;
            };
          },
          frame fs crc32 g i (i * g.articlesize) piece,
        )
  unfolding read_part frame seekg read
  frame_of_read g i good fits =
      let e : (i * g.articlesize) % size_mod ≡ i * g.articlesize = mod-eq_of_lt (omega arith) in
      let near : ltb max_offset (i * g.articlesize) ≡ false = ground arith in
      rw (e, good, near) refl

  frames-file :
      (g : YencGenerator) (f : InStream) (i : ℕ) (ds : List Bytes)
      → frames (record g { file = f }) i ds ≡ frames g i ds
  unfolding frames frame
  frames-file g f i [] = refl
  frames-file g f i (d ∷ ds) =
      ap (◌∷◌ (frame fs crc32 g i (i * g.articlesize) d)) (frames-file g f (i + 1) ds)

  read_parts-IsPieces :
      (left i : ℕ) (g : YencGenerator)
      → let rest = drop (i * g.articlesize) g.file.content in
        0 < g.articlesize
        → length g.file.content ≤ max_offset
        → (left ≢ 0 → g.file.failed ≡ false)
        → length rest ≤ left * g.articlesize
        → left * g.articlesize < length rest + g.articlesize
        → (pieces : List Bytes) × (read_parts left i g ≡ frames g i pieces)
          × IsPieces g.articlesize rest pieces
          × (left ≡ 0 → pieces ≡ [])
  unfolding read_parts frames flatten
  read_parts-IsPieces zero i g pos fits good most least = (
    [],
    refl,
    record { whole = empty_of_length _ (omega arith); each = tt; full = tt },
    λ _. refl,
  )
  read_parts-IsPieces (suc left) i g pos fits good most least =
      let a : ℕ = g.articlesize in
      let content : Bytes = g.file.content in
      let rest : Bytes = drop (i * a) content in
      let piece : Bytes = take a rest in
      let file' : InStream = record {
        content = content;
        position = i * a + length piece;
        failed = ltb (length piece) a;
      } in
      let next : drop ((i + 1) * a) content ≡ drop a rest = drop-next i a content in
      let left_over : length (drop ((i + 1) * a) content) ≡ length rest - a =
        ap length next ∙ length-drop a rest in
      let inside : i * a ≤ max_offset = omega (arith, length-drop (i * a) content) in
      let good' : left ≢ 0 → ltb (length piece) a ≡ false =
        (λ e. not_short a left rest e (omega arith)) in
      let (pieces, parts, v, empty) =
        read_parts-IsPieces left (i + 1) (record g { file = file' }) pos fits good' (omega arith)
          (omega arith) in
      (
        piece ∷ pieces,
        rw (frame_of_read g i (good (λ e. cc)) inside) (
            ap (◌∷◌ (frame fs crc32 g i (i * a) piece))
              (parts ∙ frames-file g file' (i + 1) pieces)),
        IsPieces-cons a rest pieces pos (omega arith)
            (λ e. more_left a left rest (λ z. e (empty z)) (omega arith))
            (subst (λ (t : Bytes). IsPieces a t pieces) next v),
        λ e. cc,
      )

-- What the constructor leaves behind.
record IsOpened (a : ℕ) (content : Bytes) (g : YencGenerator) : Type 0 where
  size : g.articlesize ≡ a
  positive : 0 < g.articlesize
  text : g.file.content ≡ content
  good : g.file.failed ≡ false
  parts : g.numparts ≡ count_parts (length content) g.articlesize

make_generator-IsOpened :
    (fs : FileSystem) (path : Bytes) (a l : ℕ) (content : Bytes) (g : YencGenerator)
    → fs.contents path ≡ some content
    → make_generator fs path a l ≡ ok g
    → IsOpened a content g
unfolding make_generator open_stream
make_generator-IsOpened fs path a l content g opened made =
    ground (arith, fs.file_size-contents path content opened)

-- What get_part reads, where it does not throw, for each part in order.
pub read_parts-cover :
    (fs : FileSystem) (crc32 : Bytes → ℕ) (path : Bytes) (a l : ℕ) (content : Bytes)
    → fs.contents path ≡ some content
    → length content < size_mod
    → (g : YencGenerator) → make_generator fs path a l ≡ ok g
    → (pieces : List Bytes) × (read_parts fs crc32 (num_parts g) 0 g ≡ frames fs crc32 g 0 pieces)
      × IsPieces a content pieces
unfolding make_generator num_parts
read_parts-cover fs crc32 path a l content opened fits g made =
    let o : IsOpened a content g = make_generator-IsOpened fs path a l content g opened made in
    let n : ℕ = g.numparts in
    let start : 0 * g.articlesize ≡ 0 = omega arith in
    let whole : drop (0 * g.articlesize) g.file.content ≡ content =
      ap (λ (k : ℕ). drop k g.file.content) start ∙ o.text in
    let size : length (drop (0 * g.articlesize) g.file.content) ≡ length content =
      ap length whole in
    let short : length content ≤ max_offset = omega (arith, fs.contents-fit path content opened) in
    let fit : length g.file.content ≤ max_offset = omega (arith, ap length o.text) in
    let (most, least) = count_parts-bounds (length content) g.articlesize o.positive fits in
    let (pieces, parts, v, _) =
      read_parts-IsPieces fs crc32 n 0 g o.positive fit (λ _. o.good)
        (omega (arith, ap (λ (k : ℕ). k * g.articlesize) o.parts))
        (omega (arith, ap (λ (k : ℕ). k * g.articlesize) o.parts)) in
    (pieces, parts, subst₂ (λ k t. IsPieces k t pieces) o.size whole v)

module _ (fs : FileSystem) (crc32 : Bytes → ℕ) where
  -- The calls of get_part for `left` parts from part `i` on, up to one that throws.
  unfoldable pub get_parts : ℕ → ℕ → YencGenerator → Option (List Bytes)
  get_parts zero i g = some []
  get_parts (suc left) i g = elim (get_part fs crc32 g i) [
    | none ↦ none
    | some (g', part) ↦ Option.map (λ rest. part ∷ rest) (get_parts left (i + 1) g')
  ]
