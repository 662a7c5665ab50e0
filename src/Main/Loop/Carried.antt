-- ===== src/Main/Loop/Carried.antt =====
-- Which articles the loops of main.cc make.
use mathlib.Core.Path.{subst}
use post2usenet.Common.{
  ℕ, zero, suc, ◌+◌, ◌≤◌, List, [], ◌∷◌, ◌++◌, append_assoc, append-nil, ◌≡◌, refl, sym, ap, ◌∙◌,
  arith, Bytes, Option, none, some, length, get_elem?, set, some_inj,
}
use post2usenet.Common.Result.{Result, ok, >>=-ok}
use post2usenet.Boost.{FileSystem}
use post2usenet.Config.{ProgConfig}
use post2usenet.Message.{Article, make_article, add_payload_piece}
use post2usenet.YencGenerator.{YencGenerator, read_part, num_parts}
use post2usenet.YencGenerator.Read.{read_parts}
use post2usenet.Fileset.{
  Fileset, get_chunk, get_num_pieces, get_file_name, get_num_files, get_usenet_subject,
  get_usenet_message_id,
}
use post2usenet.Fileset.Chunks.{
  get_elem?-set_self, get_elem?-set_ne, get_chunk-at, get_num_pieces-at, subject_same,
  read_part-numparts,
}
use post2usenet.Main.Loop.{
  LoopFault, Schedule, Loop, in_range, post_article, piece_article, post_chunk, post_piece,
  post_pieces, post_file, post_files,
}

in_range-ok {ℓ} : {A : Type ℓ} (o : Option A) (a : A) → in_range o ≡ ok a → o ≡ some a
in_range-ok none a e = absurd (ground arith)
in_range-ok (some b) a e = ground arith

module _ (fs : FileSystem) (crc32 : Bytes → ℕ) (cfg : ProgConfig) (run_nonce : Bytes) where
  -- An article that carries a part of the file with an index: all of its fields.
  pub record Carries (s : Fileset) (i j : ℕ) (part : Bytes) (a : Article) : Type 0 where
    pub from : a.header.from ≡ cfg.from
    pub newsgroups : a.header.newsgroups ≡ cfg.groups
    pub subject : get_usenet_subject fs s cfg.subject i j ≡ some a.header.subject
    pub msgid : a.header.msgid ≡ get_usenet_message_id run_nonce cfg.msgiddomain i j
    pub additional : a.header.additional ≡ []
    pub payload : a.payload ≡ part ∷ []

  -- Articles that carry parts in order, from part `j` on.
  abbrev pub CarryParts : Fileset → ℕ → ℕ → List Bytes → List Article → Type 0
  CarryParts s i j [] [] = Unit
  CarryParts s i j [] (a ∷ more) = ⊥
  CarryParts s i j (part ∷ parts) [] = ⊥
  CarryParts s i j (part ∷ parts) (a ∷ more) =
      Carries s i j part a × CarryParts s i (j + 1) parts more

  -- Before file `i` only streams of earlier files have moved.
  record Untouched (s : Fileset) (i : ℕ) (now : Fileset) : Type 0 where
    files : now.files ≡ s.files
    later : (k : ℕ) → i ≤ k → get_elem? now.filehandles k ≡ get_elem? s.filehandles k

  loop_inj : (a b : Loop) → ◌≡◌ {A = Result LoopFault Loop} (ok a) (ok b) → b ≡ a
  loop_inj a b e = cc

  piece_article-Carries :
      (s : Fileset) (i j : ℕ) (subject chunk : Bytes)
      → get_usenet_subject fs s cfg.subject i j ≡ some subject
      → Carries s i j chunk (piece_article fs crc32 cfg run_nonce i j subject chunk)
  unfolding piece_article make_article add_payload_piece
  piece_article-Carries s i j text chunk e = record {
    from = refl;
    newsgroups = refl;
    subject = e;
    msgid = refl;
    additional = refl;
    payload = refl;
  }

  -- One turn of the inner loop.
  post_chunk-Carries :
      (others : Schedule) (s : Fileset) (i j : ℕ) (l l' : Loop) (items : Fileset) (chunk : Bytes)
      → get_usenet_subject fs items cfg.subject i j ≡ get_usenet_subject fs s cfg.subject i j
      → post_chunk fs crc32 cfg run_nonce others i j l items chunk ≡ ok l'
      → (a : Article) × (l'.made ≡ l.made ++ a ∷ [])
        × Carries s i j chunk a
        × (l'.postitems ≡ items)
  unfolding post_chunk
  post_chunk-Carries others s i j l l' items chunk same e =
      let (subject, e1, e2) =
        >>=-ok (in_range (get_usenet_subject fs items cfg.subject i j)) _ l' e in
      let article = piece_article fs crc32 cfg run_nonce i j subject chunk in
      let (poster, _, e3) = >>=-ok (post_article others (length l.made) article l.poster) _ l' e2 in
      let after = loop_inj _ l' e3 in
      (
        article,
        ap (λ (m : Loop). m.made) after,
        piece_article-Carries s i j subject chunk (sym same ∙ in_range-ok _ subject e1),
        ap (λ (m : Loop). m.postitems) after,
      )

  post_piece-Carries :
      (others : Schedule) (s : Fileset) (i j : ℕ) (g h : YencGenerator) (l l' : Loop)
      → Untouched s (i + 1) l.postitems
      → get_elem? s.filehandles i ≡ some g
      → get_elem? l.postitems.filehandles i ≡ some h
      → h.numparts ≡ g.numparts
      → post_piece fs crc32 cfg run_nonce others i j l ≡ ok l'
      → (a : Article) × (l'.made ≡ l.made ++ a ∷ [])
        × Carries s i j (read_part fs crc32 h j).1 a
        × Untouched s (i + 1) l'.postitems
        × (get_elem? l'.postitems.filehandles i ≡ some (read_part fs crc32 h j).0)
  unfolding post_piece
  post_piece-Carries others s i j g h l l' same at now_at parts e =
      let now : Fileset = l.postitems in
      let h' : YencGenerator = (read_part fs crc32 h j).0 in
      let moved : Fileset = record now { filehandles = set now.filehandles i h' } in
      let self = get_elem?-set_self now.filehandles i h' h now_at in
      let (got, chunk, body) = >>=-ok (in_range (get_chunk fs crc32 now i j)) _ l' e in
      let read = get_chunk-at fs crc32 now i j h got now_at (in_range-ok _ got chunk) in
      let e' : post_chunk fs crc32 cfg run_nonce others i j l moved (read_part fs crc32 h j).1
          ≡ ok l' =
        subst (λ r. post_chunk fs crc32 cfg run_nonce others i j l r.0 r.1 ≡ ok l') read body in
      let (a, made, carries, items) =
        post_chunk-Carries others s i j l l' moved (read_part fs crc32 h j).1
          (subject_same fs cfg.subject s moved i j g h' same.files at self
            (read_part-numparts fs crc32 h j ∙ parts))
          e' in
      (
        a,
        made,
        carries,
        rw items (record {
          files = same.files;
          later =
              λ k above. get_elem?-set_ne now.filehandles i k h' (omega arith) ∙ same.later k above;
        }),
        rw items self,
      )

  -- The inner loop: it makes the articles of the parts that are left.
  post_pieces-CarryParts :
      (others : Schedule) (s : Fileset) (i : ℕ) (g : YencGenerator)
      → get_elem? s.filehandles i ≡ some g
      → (left j : ℕ) (h : YencGenerator) (l l' : Loop) → Untouched s (i + 1) l.postitems
      → get_elem? l.postitems.filehandles i ≡ some h
      → h.numparts ≡ g.numparts
      → post_pieces fs crc32 cfg run_nonce others i left j l ≡ ok l'
      → (new : List Article) × (l'.made ≡ l.made ++ new)
        × CarryParts s i j (read_parts fs crc32 left j h) new
        × Untouched s (i + 1) l'.postitems
  unfolding post_pieces read_parts
  post_pieces-CarryParts others s i g at zero j h l l' same now_at parts e =
      let after = loop_inj l l' e in ([], rw after (sym (append-nil l.made)), tt, rw after same)
  post_pieces-CarryParts others s i g at (suc left) j h l l' same now_at parts e =
      let (m, turn, more) = >>=-ok (post_piece fs crc32 cfg run_nonce others i j l) _ l' e in
      let (a, made, carries, same', at') =
        post_piece-Carries others s i j g h l m same at now_at parts turn in
      let (new, made', carry, same'') =
        post_pieces-CarryParts others s i g at left (j + 1) (read_part fs crc32 h j).0 m l' same'
          at' (read_part-numparts fs crc32 h j ∙ parts) more in
      (
        a ∷ new,
        made' ∙ ap (λ (as' : List Article). as' ++ new) made ∙ append_assoc l.made (a ∷ []) new,
        (carries, carry),
        same'',
      )

  -- Articles that carry the parts of files in order, from file `i` on.
  abbrev pub CarryFiles : Fileset → ℕ → List YencGenerator → List Article → Type 0
  CarryFiles s i [] made = made ≡ []
  CarryFiles s i (g ∷ gs) made =
      (mine : List Article) × (rest : List Article) × (made ≡ mine ++ rest)
      × CarryParts s i 0 (read_parts fs crc32 (num_parts g) 0 g) mine
      × CarryFiles s (i + 1) gs rest

  post_file-CarryParts :
      (others : Schedule) (s : Fileset) (i : ℕ) (g : YencGenerator) (l l' : Loop)
      → get_elem? s.filehandles i ≡ some g
      → Untouched s i l.postitems
      → post_file fs crc32 cfg run_nonce others i l ≡ ok l'
      → (new : List Article) × (l'.made ≡ l.made ++ new)
        × CarryParts s i 0 (read_parts fs crc32 (num_parts g) 0 g) new
        × Untouched s (i + 1) l'.postitems
  unfolding post_file
  post_file-CarryParts others s i g l l' at same e =
      let now_at = same.later i (omega arith) ∙ at in
      let start : Loop = record l { piece_sizes = l.piece_sizes ++ [] ∷ [] } in
      let (n, e1, e2) = >>=-ok (in_range (get_num_pieces l.postitems i)) _ l' e in
      let (name, _, e3) = >>=-ok (in_range (get_file_name fs l.postitems i)) _ l' e2 in
      let number : num_parts g ≡ n =
        some_inj (num_parts g) n
          (sym (get_num_pieces-at l.postitems i g now_at) ∙ in_range-ok _ n e1) in
      let loops : post_pieces fs crc32 cfg run_nonce others i (num_parts g) 0 start ≡ ok l' =
        subst (λ k. post_pieces fs crc32 cfg run_nonce others i k 0 start ≡ ok l') (sym number)
          e3 in
      post_pieces-CarryParts others s i g at (num_parts g) 0 g start l'
        (record { files = same.files; later = λ k above. same.later k (omega arith) }) now_at refl
        loops

  post_files-CarryFiles_from :
      (others : Schedule) (s : Fileset) (gs : List YencGenerator) (i : ℕ) (l l' : Loop)
      → ((k : ℕ) → get_elem? s.filehandles (i + k) ≡ get_elem? gs k)
      → Untouched s i l.postitems
      → post_files fs crc32 cfg run_nonce others (length gs) i l ≡ ok l'
      → (new : List Article) × (l'.made ≡ l.made ++ new) × CarryFiles s i gs new
  unfolding post_files
  post_files-CarryFiles_from others s [] i l l' handles same e =
      ([], rw (loop_inj l l' e) (sym (append-nil l.made)), refl)
  post_files-CarryFiles_from others s (g ∷ gs) i l l' handles same e =
      let (m, turn, more) = >>=-ok (post_file fs crc32 cfg run_nonce others i l) _ l' e in
      let at : get_elem? s.filehandles i ≡ some g =
        ap (get_elem? s.filehandles) (omega arith) ∙ handles 0 in
      let (mine, made, carry, same') = post_file-CarryParts others s i g l m at same turn in
      let (rest, made', carry') =
        post_files-CarryFiles_from others s gs (i + 1) m l'
          (λ k. ap (get_elem? s.filehandles) (omega arith) ∙ handles (suc k)) same' more in
      (
        mine ++ rest,
        made' ∙ ap (λ (as' : List Article). as' ++ rest) made ∙ append_assoc l.made mine rest,
        (mine, rest, refl, carry, carry'),
      )

  -- Where the loops end well they have made one article for each part of each file, in order, whatever
  -- the other threads do in between: its payload is the part, its sender and groups are those of the
  -- configuration, its message id holds the nonce of the run and both indices, and its subject is that
  -- of the file set. Each path has its generator.
  pub post_files-CarryFiles :
      (others : Schedule) (l l' : Loop)
      → length l.postitems.files ≡ length l.postitems.filehandles
      → l.made ≡ []
      → post_files fs crc32 cfg run_nonce others (get_num_files l.postitems) 0 l ≡ ok l'
      → CarryFiles l.postitems 0 l.postitems.filehandles l'.made
  unfolding get_num_files
  post_files-CarryFiles others l l' aligned none_yet e =
      let s : Fileset = l.postitems in
      let (new, made, carry) =
        post_files-CarryFiles_from others s s.filehandles 0 l l'
          (λ k. ap (get_elem? s.filehandles) (omega arith))
          (record { files = refl; later = λ k _. refl })
          (subst (λ n. post_files fs crc32 cfg run_nonce others n 0 l ≡ ok l') aligned e) in
      subst (CarryFiles s 0 s.filehandles)
        (sym (made ∙ ap (λ (as' : List Article). as' ++ new) none_yet)) carry
