-- ===== src/Main/Program/Collect.antt =====
-- Which files main of main.cc posts.
use mathlib.Core.Path.{subst}
use post2usenet.Common.{
  ℕ, ◌+◌, ◌%◌, ◌^◌, true, List, [], ◌∷◌, ◌++◌, append_assoc, append-nil, ◌≡◌, inl, inr, refl, sym,
  ap, ◌∙◌, arith, Bytes, Bool-cases, if◌then◌else◌,
}
use post2usenet.Common.Result.{Result, ok, ◌>>=◌, >>=-ok, Result-cases}
use post2usenet.Boost.{FileSystem}
use post2usenet.YencGenerator.{YencGenerator, GeneratorError, make_generator}
use post2usenet.Fileset.{make_fileset, add_file}
use post2usenet.Main.Program.{Collected, add_postitem, collect_directory, collect}

-- The regular files among some paths, in order.
pub regular_files : FileSystem → List Bytes → List Bytes
regular_files fs [] = []
regular_files fs (path ∷ rest) =
    let more = regular_files fs rest in if fs.is_regular path then path ∷ more else more

-- The files that paths stand for: a directory for the regular files below it, and any other path for
-- itself, if it is a regular file.
unfoldable pub expand : FileSystem → (Bytes → List Bytes) → List Bytes → List Bytes
unfolding regular_files
expand fs walk [] = []
expand fs walk (path ∷ rest) =
    regular_files fs (if fs.is_directory path then walk path else path ∷ []) ++ expand fs walk rest

unfoldable pub total_size : FileSystem → List Bytes → ℕ
total_size fs [] = 0
total_size fs (path ∷ rest) = fs.file_size path + total_size fs rest

-- Generators that have been made for paths, in order.
abbrev pub Made : FileSystem → ℕ → List Bytes → List YencGenerator → Type 0
Made fs a [] [] = Unit
Made fs a [] (g ∷ gs) = ⊥
Made fs a (p ∷ paths) [] = ⊥
Made fs a (p ∷ paths) (g ∷ gs) = (make_generator fs p a 128 ≡ ok g) × Made fs a paths gs

-- What some files add to what has been collected.
pub record Adds (fs : FileSystem) (c : Collected) (new : List Bytes) (c' : Collected) : Type 0 where
  pub gens : List YencGenerator
  pub made : Made fs c.postitems.articlesize new gens
  pub files : c'.postitems.files ≡ c.postitems.files ++ new
  pub filehandles : c'.postitems.filehandles ≡ c.postitems.filehandles ++ gens
  pub articlesize : c'.postitems.articlesize ≡ c.postitems.articlesize
  pub total_bytes : c'.total_bytes % 2 ^ 64 ≡ (c.total_bytes + total_size fs new) % 2 ^ 64

Adds-nothing : (fs : FileSystem) (c : Collected) → Adds fs c [] c
unfolding total_size
Adds-nothing fs c = record {
  gens = [];
  made = tt;
  files = sym (append-nil _);
  filehandles = sym (append-nil _);
  articlesize = refl;
  total_bytes = omega arith;
}

add_postitem-Adds :
    (fs : FileSystem) (c c' : Collected) (path : Bytes)
    → fs.is_regular path ≡ true
    → add_postitem fs c path ≡ ok c'
    → Adds fs c (path ∷ []) c'
unfolding add_postitem add_file total_size
add_postitem-Adds fs c c' path regular e =
    elim (Result-cases (make_generator fs path c.postitems.articlesize 128)) [
      | inl (x, bad) ↦ absurd (ground arith)
      | inr (g, good) ↦
          let sum : c'.total_bytes ≡ (c.total_bytes + fs.file_size path) % 2 ^ 64 = ground arith in
          record {
            gens = g ∷ [];
            made = (good, tt);
            files = ground arith;
            filehandles = ground arith;
            articlesize = ground arith;
            total_bytes = omega arith;
          }
    ]

Made-append :
    (fs : FileSystem) (a : ℕ) (ps qs : List Bytes) (gs hs : List YencGenerator)
    → Made fs a ps gs
    → Made fs a qs hs
    → Made fs a (ps ++ qs) (gs ++ hs)
Made-append fs a [] qs [] hs m n = n
Made-append fs a [] qs (g ∷ gs) hs m n = absurd m
Made-append fs a (p ∷ ps) qs [] hs m n = absurd m
Made-append fs a (p ∷ ps) qs (g ∷ gs) hs m n = (m.0, Made-append fs a ps qs gs hs m.1 n)

total_size-append :
    (fs : FileSystem) (ps qs : List Bytes)
    → total_size fs (ps ++ qs) ≡ total_size fs ps + total_size fs qs
unfolding total_size
total_size-append fs [] qs = omega arith
total_size-append fs (p ∷ ps) qs = omega (arith, total_size-append fs ps qs)

Adds-trans :
    (fs : FileSystem) (c d e : Collected) (ps qs : List Bytes)
    → Adds fs c ps d
    → Adds fs d qs e
    → Adds fs c (ps ++ qs) e
Adds-trans fs c d e ps qs x y = record {
  gens = x.gens ++ y.gens;
  made =
      Made-append fs _ ps qs x.gens y.gens x.made
        (subst (λ a. Made fs a qs y.gens) x.articlesize y.made);
  files = y.files ∙ ap (λ fs'. fs' ++ qs) x.files ∙ append_assoc _ ps qs;
  filehandles =
      y.filehandles ∙ ap (λ gs. gs ++ y.gens) x.filehandles ∙ append_assoc _ x.gens y.gens;
  articlesize = y.articlesize ∙ x.articlesize;
  total_bytes = omega (arith, x.total_bytes, y.total_bytes, total_size-append fs ps qs);
}

same_inj : (c d : Collected) → ◌≡◌ {A = Result GeneratorError Collected} (ok c) (ok d) → d ≡ c
same_inj c d e = cc

collect_directory-Adds :
    (fs : FileSystem) (c c' : Collected) (paths : List Bytes)
    → collect_directory fs c paths ≡ ok c'
    → Adds fs c (regular_files fs paths) c'
unfolding collect_directory regular_files
collect_directory-Adds fs c c' [] e = rw (same_inj c c' e) (Adds-nothing fs c)
collect_directory-Adds fs c c' (path ∷ rest) e =
    let (d, first, more) =
      >>=-ok (if fs.is_regular path then add_postitem fs c path else ok c) _ c' e in
    let others = collect_directory-Adds fs d c' rest more in
    elim (Bool-cases (fs.is_regular path)) [
      | inl regular ↦
          let this = add_postitem-Adds fs c d path regular (ground arith) in
          rw regular (Adds-trans fs c d c' (path ∷ []) (regular_files fs rest) this others)
      | inr other ↦
          let same = same_inj c d (ground arith) in
          rw other (subst (λ x. Adds fs x (regular_files fs rest) c') same others)
    ]

pub collect-Adds :
    (fs : FileSystem) (walk : Bytes → List Bytes) (c c' : Collected) (paths : List Bytes)
    → collect fs walk c paths ≡ ok c'
    → Adds fs c (expand fs walk paths) c'
unfolding collect expand
collect-Adds fs walk c c' [] e = rw (same_inj c c' e) (Adds-nothing fs c)
collect-Adds fs walk c c' (path ∷ rest) e =
    let (d, first, more) =
      >>=-ok
        (if fs.is_directory path
          then collect_directory fs c (walk path)
          else if fs.is_regular path
          then add_postitem fs c path
          else ok c)
        _ c' e in
    let others = collect-Adds fs walk d c' rest more in
    let this : Adds fs c (regular_files fs (if fs.is_directory path then walk path else path ∷ []))
        d =
      elim (Bool-cases (fs.is_directory path)) [
        | inl directory ↦ rw directory (collect_directory-Adds fs c d (walk path) (ground arith))
        | inr other ↦ rw other (
            let alone : (if fs.is_regular path then add_postitem fs c path else ok c) ≡ ok d =
              ground arith in
            collect_directory-Adds fs c d (path ∷ []) (ap (λ r. r >>= λ x. ok x) alone))
      ] in
    Adds-trans fs c d c' _ (expand fs walk rest) this others

-- What main collects from nothing is the regular files that the paths stand for, in order, a path to a
-- directory for those below it, and a generator with lines of 128 bytes for each; total_bytes is the sum
-- of their sizes, as a uint64_t. Nothing has thrown.
pub collect-expand :
    (fs : FileSystem) (walk : Bytes → List Bytes) (article_size : ℕ) (paths : List Bytes)
    (c : Collected)
    → collect fs walk (record { postitems = make_fileset article_size; total_bytes = 0 }) paths
      ≡ ok c
    → (c.postitems.files ≡ expand fs walk paths)
      × Made fs article_size (expand fs walk paths) c.postitems.filehandles
      × (c.total_bytes % 2 ^ 64 ≡ total_size fs (expand fs walk paths) % 2 ^ 64)
unfolding make_fileset
collect-expand fs walk article_size paths c e =
    let adds = collect-Adds fs walk _ c paths e in
    (
      adds.files,
      subst (λ gs. Made fs article_size (expand fs walk paths) gs) (sym adds.filehandles) adds.made,
      omega (arith, adds.total_bytes),
    )
