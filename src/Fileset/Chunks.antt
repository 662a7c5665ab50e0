-- ===== src/Fileset/Chunks.antt =====
-- fileset.cc: what get_chunk moves, and what get_usenet_subject depends on.
use post2usenet.Common.{
  ℕ, zero, suc, ◌≢◌, List, [], ◌∷◌, ◌≡◌, refl, ap, arith, Bytes, some, get_elem?, set, Option-cases,
  Bool-cases, inl, inr, ◌==◌,
}
use post2usenet.Boost.{FileSystem}
use post2usenet.YencGenerator.{YencGenerator, can_reserve, read_part, get_part, num_parts}
use post2usenet.Fileset.{
  Fileset, get_chunk, get_usenet_subject, get_file_name, get_num_pieces, get_num_files,
}

pub get_elem?-set_self {ℓ} :
    {A : Type ℓ} (xs : List A) (i : ℕ) (v w : A)
    → get_elem? xs i ≡ some w
    → get_elem? (set xs i v) i ≡ some v
get_elem?-set_self [] i v w h = absurd (ground arith)
get_elem?-set_self (x ∷ xs) zero v w h = refl
get_elem?-set_self (x ∷ xs) (suc i) v w h = get_elem?-set_self xs i v w h

pub get_elem?-set_ne {ℓ} :
    {A : Type ℓ} (xs : List A) (i j : ℕ) (v : A) → i ≢ j → get_elem? (set xs i v) j ≡ get_elem? xs j
get_elem?-set_ne [] i j v h = refl
get_elem?-set_ne (x ∷ xs) zero zero v h = absurd (h refl)
get_elem?-set_ne (x ∷ xs) zero (suc j) v h = refl
get_elem?-set_ne (x ∷ xs) (suc i) zero v h = refl
get_elem?-set_ne (x ∷ xs) (suc i) (suc j) v h = get_elem?-set_ne xs i j v (λ e. h (ap suc e))

-- The handle that get_chunk reads from is replaced, and the part is what read_part gives.
pub get_chunk-at :
    (fs : FileSystem) (crc32 : Bytes → ℕ) (s : Fileset) (i j : ℕ) (g : YencGenerator)
    (got : Fileset × Bytes)
    → get_elem? s.filehandles i ≡ some g
    → get_chunk fs crc32 s i j ≡ some got
    → got ≡ (
      record s { filehandles = set s.filehandles i (read_part fs crc32 g j).0 },
      (read_part fs crc32 g j).1,
    )
unfolding get_chunk get_part
get_chunk-at fs crc32 s i j g got at e = elim (Bool-cases (can_reserve g.articlesize)) [
  | inl room ↦ ground (arith, at, e, room)
  | inr full ↦ absurd (ground (arith, at, e, full))
]

pub get_num_pieces-at :
    (s : Fileset) (i : ℕ) (g : YencGenerator)
    → get_elem? s.filehandles i ≡ some g
    → get_num_pieces s i ≡ some (num_parts g)
unfolding get_num_pieces num_parts
get_num_pieces-at s i g at = rw at refl

-- A subject depends on the paths and on the number of parts of its file.
pub subject_same :
    (fs : FileSystem) (subject : Bytes) (s now : Fileset) (i j : ℕ) (g h : YencGenerator)
    → now.files ≡ s.files
    → get_elem? s.filehandles i ≡ some g
    → get_elem? now.filehandles i ≡ some h
    → h.numparts ≡ g.numparts
    → get_usenet_subject fs now subject i j ≡ get_usenet_subject fs s subject i j
unfolding get_usenet_subject get_file_name get_num_pieces get_num_files num_parts
subject_same fs subject s now i j g h files at now_at parts = rw (files, at, now_at, parts) refl

pub read_part-numparts :
    (fs : FileSystem) (crc32 : Bytes → ℕ) (g : YencGenerator) (j : ℕ)
    → (read_part fs crc32 g j).0.numparts ≡ g.numparts
unfolding read_part
read_part-numparts fs crc32 g j = refl

get_chunk-some :
    (fs : FileSystem) (crc32 : Bytes → ℕ) (s : Fileset) (i j : ℕ) (got : Fileset × Bytes)
    → get_chunk fs crc32 s i j ≡ some got
    → (g h : YencGenerator) × (get_elem? s.filehandles i ≡ some g)
      × (got.0 ≡ record s { filehandles = set s.filehandles i h })
      × (h.numparts ≡ g.numparts)
unfolding get_chunk
get_chunk-some fs crc32 s i j got e = elim (Option-cases (get_elem? s.filehandles i)) [
  | inl missing ↦ absurd (ground arith)
  | inr (g, at) ↦ (
    g,
    (read_part fs crc32 g j).0,
    at,
    ap (λ (r : Fileset × Bytes). r.0) (get_chunk-at fs crc32 s i j g got at e),
    read_part-numparts fs crc32 g j,
  )
]

-- What get_chunk moves has as many pieces as before.
pub get_num_pieces-get_chunk :
    (fs : FileSystem) (crc32 : Bytes → ℕ) (s : Fileset) (i j k : ℕ) (got : Fileset × Bytes)
    → get_chunk fs crc32 s i j ≡ some got
    → get_num_pieces got.0 k ≡ get_num_pieces s k
unfolding get_num_pieces num_parts
get_num_pieces-get_chunk fs crc32 s i j k got e =
    let (g, h, at, moved, parts) = get_chunk-some fs crc32 s i j got e in
    elim (Bool-cases (k == i)) [
      | inl same ↦
          let e' : k ≡ i = ground arith in
          rw (moved, e', get_elem?-set_self s.filehandles i h g at, at, parts) refl
      | inr differs ↦
          let apart : i ≢ k = ground arith in
          rw (moved, get_elem?-set_ne s.filehandles i k h apart) refl
    ]
