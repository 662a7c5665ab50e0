-- ===== src/Fileset/Keys.antt =====
-- fileset.cc: the order of the keys, and the two lists of add_file.
use post2usenet.Common.{
  ◌+◌, Bool, true, false, not, ◌&&◌, ◌||◌, [], ◌∷◌, ◌≡◌, refl, ◌⊎◌, inl, inr, arith, Bytes, length,
  length-append, Bool-cases,
}
use post2usenet.Common.Result.{ok, err, Result-cases}
use post2usenet.Boost.{FileSystem}
use post2usenet.YencGenerator.{GeneratorError, make_generator}
use post2usenet.Fileset.{FilepieceKey, key_lt, Fileset, add_file}

-- operator< on the keys is a strict total order, as std::map requires: no key is below itself, the
-- order is transitive, and of two different keys one is below the other.
pub key_lt_strict_order :
    (a b c : FilepieceKey)
    → (key_lt a a ≡ false)
      × (not (key_lt a b && key_lt b c) || key_lt a c ≡ true)
      × ((a ≡ b) ⊎ (key_lt a b ≡ true) ⊎ (key_lt b a ≡ true))
unfolding key_lt
key_lt_strict_order a b c = (ground arith, ground arith, ground arith)

-- A path for each generator.
abbrev pub IsAligned : Fileset → Type 0
IsAligned s = length s.files ≡ length s.filehandles

-- add_file keeps a path for each generator, but where the constructor of the generator throws: then
-- the path is there and its generator is not.
pub add_file_alignment :
    (fs : FileSystem) (s : Fileset) (p : Bytes)
    → IsAligned s
    → (((b : Bool) × ((add_file fs s p).1 ≡ ok b)) × IsAligned (add_file fs s p).0)
      ⊎ (((e : GeneratorError) × ((add_file fs s p).1 ≡ err e))
          × (length (add_file fs s p).0.files ≡ length (add_file fs s p).0.filehandles + 1))
unfolding add_file
add_file_alignment fs s p h = elim (Bool-cases (fs.is_regular p)) [
  | inr other ↦ rw other (inl ((false, refl), h))
  | inl regular ↦ elim (Result-cases (make_generator fs p s.articlesize 128)) [
    | inl (e, thrown) ↦
        rw (regular, thrown) (inr ((e, refl), omega (arith, length-append s.files (p ∷ []))))
    | inr (g, made) ↦
        rw (regular, made)
          (inl (
            (true, refl),
            omega (arith, length-append s.files (p ∷ []), length-append s.filehandles (g ∷ [])),
          ))
  ]
]
