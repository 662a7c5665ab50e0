-- ===== src/Main/Program/Posted.antt =====
-- main of main.cc from the configuration to the exit code: what has been posted when it ends well.
use mathlib.Core.List.{flatten}
use mathlib.Core.Path.{subst}
use post2usenet.Common.{
  ℕ, suc, ◌<◌, not, ◌&&◌, List, [], ◌∷◌, ◌≡◌, inl, inr, refl, sym, ap, ◌∙◌, arith, Bytes, some,
  length, All, IsByte, IsOneLine, size_mod, Bool-cases, List-cases, Option-cases, ◌==◌,
}
use post2usenet.Common.Result.{Result, ok, err, ◌>>=◌, >>=-ok}
use post2usenet.Boost.{FileSystem, Replacing}
use post2usenet.Config.{ProgConfig}
use post2usenet.Message.{Article}
use post2usenet.YencGenerator.{YencGenerator, GeneratorError, make_generator}
use post2usenet.Fileset.{Fileset, make_fileset, get_num_files}
use post2usenet.Main.{Poster}
use post2usenet.Usenet.{stop}
use post2usenet.Main.Loop.{LoopFault, Loop, post_files}
use post2usenet.Main.Loop.Whole.{Opened, Reassembles, post_files-Reassembles}
use post2usenet.Main.Program.{
  choose_subject, choose_output, Collected, collect, Exit, Run, in_a_loop, make_poster, run_pool,
  generator_failed, run_main, validate, finish, Crash,
}
use post2usenet.Main.Program.Collect.{expand, Made, Adds, collect-Adds}

-- Files with their contents, of bytes and shorter than 2^64, whose names hold no line end.
abbrev pub HasContents : FileSystem → List Bytes → List Bytes → Type 0
HasContents fs [] [] = Unit
HasContents fs [] (c ∷ contents) = ⊥
HasContents fs (p ∷ paths) [] = ⊥
HasContents fs (p ∷ paths) (c ∷ contents) =
    ((fs.contents p ≡ some c) × (length c < size_mod) × All IsByte c × IsOneLine (fs.filename p))
    × HasContents fs paths contents

make_generator-filepath :
    (fs : FileSystem) (p : Bytes) (a l : ℕ) (g : YencGenerator)
    → make_generator fs p a l ≡ ok g
    → g.filepath ≡ p
unfolding make_generator
make_generator-filepath fs p a l g e = ground arith

Made-Opened :
    (fs : FileSystem) (a : ℕ) (paths : List Bytes) (gs : List YencGenerator) (contents : List Bytes)
    → Made fs a paths gs
    → HasContents fs paths contents
    → Opened fs a gs contents × (length paths ≡ length gs)
Made-Opened fs a [] [] [] made h = (tt, refl)
Made-Opened fs a [] [] (c ∷ contents) made h = absurd h
Made-Opened fs a [] (g ∷ gs) contents made h = absurd made
Made-Opened fs a (p ∷ paths) [] contents made h = absurd made
Made-Opened fs a (p ∷ paths) (g ∷ gs) [] made h = absurd h
Made-Opened fs a (p ∷ paths) (g ∷ gs) (c ∷ contents) (first, made) (file, h) =
    let (opened, many) = Made-Opened fs a paths gs contents made h in
    let at : p ≡ g.filepath = sym (make_generator-filepath fs p a 128 g first) in
    (
      (
        subst
            (λ q.
              (fs.contents q ≡ some c)
              × (length c < size_mod)
              × All IsByte c
              × IsOneLine (fs.filename q)
              × (make_generator fs q a 128 ≡ ok g))
            at (file.0, file.1, file.2, file.3, first),
        opened,
      ),
      ap suc many,
    )

-- The choices leave the files and the article size alone.
record SameFiles (cfg cfg' : ProgConfig) : Type 0 where
  files : cfg'.files ≡ cfg.files
  article_size : cfg'.article_size ≡ cfg.article_size

choose_subject-SameFiles :
    (fs : FileSystem) (cfg cfg' : ProgConfig)
    → choose_subject fs cfg ≡ some cfg'
    → SameFiles cfg cfg'
unfolding choose_subject
choose_subject-SameFiles fs cfg cfg' e = elim (Bool-cases (length cfg.subject == 0)) [
  | inr given ↦ record { files = ground arith; article_size = ground arith }
  | inl missing ↦ elim (List-cases cfg.files) [
    | inl no_file ↦ absurd (ground arith)
    | inr (path, rest, starts) ↦ elim (List-cases rest) [
      | inl alone ↦ record { files = ground arith; article_size = ground arith }
      | inr (next, more, others) ↦ absurd (ground arith)
    ]
  ]
]

choose_output-SameFiles :
    (fs : FileSystem) (join_path : Bytes → Bytes → Bytes) (cfg : ProgConfig)
    → SameFiles cfg (choose_output fs join_path cfg)
unfolding choose_output
choose_output-SameFiles fs join_path cfg =
    elim (Bool-cases (not (length cfg.nzboutput == 0) && fs.is_directory cfg.nzboutput)) [
      | inl directory ↦ rw directory (record { files = refl; article_size = refl })
      | inr other ↦ rw other (record { files = refl; article_size = refl })
    ]

in_a_loop-ok {ℓ} : {A : Type ℓ} (x : Result LoopFault A) (a : A) → in_a_loop x ≡ ok a → x ≡ ok a
unfolding in_a_loop
in_a_loop-ok (ok b) a e = ground arith
in_a_loop-ok (err f) a e = absurd (ground arith)

generator_failed-ok :
    (x : Result GeneratorError Collected) (c : Collected) → generator_failed x ≡ ok c → x ≡ ok c
unfolding generator_failed
generator_failed-ok (ok b) c e = ground arith
generator_failed-ok (err f) c e = absurd (ground arith)

module _ (fs : FileSystem) (rep : Replacing) (crc32 : Bytes → ℕ) (walk : Bytes → List Bytes)
    (join_path : Bytes → Bytes → Bytes) (r : Run) where
  -- The variables of the loops when they start.
  abbrev pub first_loop : ProgConfig → Fileset → Loop
  first_loop cfg postitems = record {
    postitems = postitems;
    poster = (make_poster fs rep crc32 walk join_path r cfg).0;
    made = [];
    piece_sizes = [];
  }

  abbrev pub nonce_of : ProgConfig → Bytes
  nonce_of cfg = (make_poster fs rep crc32 walk join_path r cfg).1

  -- How a run comes to its end: the loops have posted, the stats have been asked for, the other threads
  -- have run until join() ends, and the program has finished.
  pub record Posted (cfg : ProgConfig) (postitems : Fileset) (exit : Exit) : Type 0 where
    pub at_end : Loop
    pub asked : Poster
    pub posts :
        post_files fs crc32 cfg
          (nonce_of cfg)
          r.posting
          (get_num_files postitems)
          0
          (first_loop cfg postitems)
        ≡ ok at_end
    pub asks : validate cfg (nonce_of cfg) at_end.postitems r.asking at_end.poster ≡ ok asked
    pub exits :
        exit
        ≡ finish fs rep cfg r.epoch_time
            (nonce_of cfg)
            r.opens
            (record at_end { poster = r.joined (record asked { usenet = stop asked.usenet }) })

  exit_inj : (a b : Exit) → ◌≡◌ {A = Result Crash Exit} (ok a) (ok b) → b ≡ a
  exit_inj a b e = cc

  run_pool-Posted :
      (cfg : ProgConfig) (postitems : Fileset) (exit : Exit)
      → run_pool fs rep crc32 walk join_path r cfg postitems ≡ ok exit
      → Posted cfg postitems exit
  unfolding run_pool
  run_pool-Posted cfg postitems exit e =
      let run =
        post_files fs crc32 cfg (nonce_of cfg) r.posting (get_num_files postitems) 0
          (first_loop cfg postitems) in
      let (l', posts, rest) = >>=-ok (in_a_loop run) _ exit e in
      let asking = validate cfg (nonce_of cfg) l'.postitems r.asking l'.poster in
      let (asked, asks, ends) = >>=-ok (in_a_loop asking) _ exit rest in
      record {
        at_end = l';
        asked = asked;
        posts = in_a_loop-ok run l' posts;
        asks = in_a_loop-ok asking asked asks;
        exits = exit_inj _ exit ends;
      }

  -- A run that returns 0 has collected the files and posted them.
  run_main-Posted :
      (loaded : ProgConfig) (exit : Exit)
      → run_main fs rep crc32 walk join_path r (some loaded) ≡ ok exit
      → exit.code ≡ 0
      → (named : ProgConfig) × (choose_subject fs loaded ≡ some named)
        × (c : Collected) × Adds fs
            (record { postitems = make_fileset loaded.article_size; total_bytes = 0 })
            (expand fs walk loaded.files)
            c
        × Posted (choose_output fs join_path named) c.postitems exit
  unfolding run_main
  run_main-Posted loaded exit e well = elim (Option-cases (choose_subject fs loaded)) [
    | inl refused ↦ absurd (ground arith)
    | inr (named, chosen) ↦
        let cfg = choose_output fs join_path named in
        let start : Collected = record {
          postitems = make_fileset cfg.article_size;
          total_bytes = 0;
        } in
        let run : generator_failed (collect fs walk start cfg.files)
              >>= (λ c. run_pool fs rep crc32 walk join_path r cfg c.postitems)
            ≡ ok exit =
          ground arith in
        let (c, collects, runs) =
          >>=-ok (generator_failed (collect fs walk start cfg.files)) _ exit run in
        let adds = collect-Adds fs walk start c cfg.files (generator_failed-ok _ c collects) in
        let a = choose_subject-SameFiles fs loaded named chosen in
        let b = choose_output-SameFiles fs join_path named in
        let same : Adds fs
            (record { postitems = make_fileset loaded.article_size; total_bytes = 0 })
            (expand fs walk loaded.files) c =
          subst
            (λ n.
              Adds fs (record { postitems = make_fileset n; total_bytes = 0 })
                (expand fs walk loaded.files) c)
            (b.article_size ∙ a.article_size)
            (subst (λ ps. Adds fs start (expand fs walk ps) c) (b.files ∙ a.files) adds) in
        (named, chosen, c, same, run_pool-Posted cfg c.postitems exit runs)
  ]

  -- A run of main that returns 0 has chosen its subject and its output, has collected the regular
  -- files that the paths of the configuration stand for, and has come to its end behind the loops that
  -- post, started on these files. The articles that these loops have made, in order, are one group for
  -- each of the files, and a reader that decodes a group and puts it together gets that file, byte for
  -- byte, whatever the other threads do in between. The files are shorter than 2^64 bytes, and no name
  -- holds a line end.
  pub run_main-Reassembles :
      (loaded : ProgConfig) (exit : Exit) (contents : List Bytes)
      → run_main fs rep crc32 walk join_path r (some loaded) ≡ ok exit
      → exit.code ≡ 0
      → HasContents fs (expand fs walk loaded.files) contents
      → (named : ProgConfig) × (choose_subject fs loaded ≡ some named)
        × (c : Collected) × (c.postitems.files ≡ expand fs walk loaded.files)
        × (p : Posted (choose_output fs join_path named) c.postitems exit) × (groups : List
            (List Article))
        × (p.at_end.made ≡ flatten groups)
        × Reassembles contents groups
  unfolding make_fileset
  run_main-Reassembles loaded exit contents e well has =
      let (named, chosen, c, adds, p) = run_main-Posted loaded exit e well in
      let cfg = choose_output fs join_path named in
      let paths = expand fs walk loaded.files in
      let gens : c.postitems.filehandles ≡ adds.gens = adds.filehandles in
      let files : c.postitems.files ≡ paths = adds.files in
      let (opened, many) =
        Made-Opened fs loaded.article_size paths adds.gens contents adds.made has in
      let aligned : length c.postitems.files ≡ length c.postitems.filehandles =
        ap length files ∙ many ∙ ap length (sym gens) in
      let opened' : Opened fs c.postitems.articlesize c.postitems.filehandles contents =
        subst (λ gs. Opened fs c.postitems.articlesize gs contents) (sym gens)
          (subst (λ n. Opened fs n adds.gens contents) (sym adds.articlesize) opened) in
      let (groups, made, whole) =
        post_files-Reassembles fs crc32 cfg (nonce_of cfg) r.posting (first_loop cfg c.postitems)
          p.at_end contents aligned opened' refl p.posts in
      (named, chosen, c, files, p, groups, made, whole)
