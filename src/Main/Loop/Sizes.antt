-- ===== src/Main/Loop/Sizes.antt =====
-- What the loops of main.cc note of the articles that they make.
use mathlib.Core.List.{flatten}
use post2usenet.Common.{
  ℕ, zero, suc, ◌+◌, List, [], ◌∷◌, ◌++◌, map, append_assoc, append-nil, ◌≡◌, refl, sym, ap, ◌∙◌,
  Bytes, length, put, arith, Option, none, some,
}
use post2usenet.Common.Result.{Result, ok, >>=-ok}
use post2usenet.Boost.{FileSystem}
use post2usenet.Config.{ProgConfig}
use post2usenet.Message.{Article, make_article, add_payload_piece}
use post2usenet.Fileset.{
  Fileset, get_num_pieces, get_file_name, get_chunk, get_usenet_subject, get_usenet_message_id,
}
use post2usenet.Fileset.Chunks.{get_num_pieces-get_chunk}
use post2usenet.Main.Loop.{
  LoopFault, Schedule, Loop, in_range, post_article, add_size_entry, piece_article, post_chunk,
  post_piece, post_pieces, post_file, post_files,
}

-- The sizes of the articles of a file, by their indices from `j` on.
unfoldable pub entries : ℕ → List Article → List (ℕ × ℕ)
entries j [] = []
entries j (a ∷ articles) = (j, length (put a.payload)) ∷ entries (j + 1) articles

add_size_entry-last :
    (sizes : List (List (ℕ × ℕ))) (last : List (ℕ × ℕ)) (j n : ℕ)
    → add_size_entry (sizes ++ last ∷ []) j n ≡ sizes ++ (last ++ (j, n) ∷ []) ∷ []
unfolding add_size_entry
add_size_entry-last [] last j n = refl
add_size_entry-last (s ∷ []) last j n = refl
add_size_entry-last (s ∷ t ∷ sizes) last j n = ap (◌∷◌ s) (add_size_entry-last (t ∷ sizes) last j n)

-- Articles of file `i` from piece `j` on have the message ids of their indices.
abbrev pub HaveIds : Bytes → Bytes → ℕ → ℕ → List Article → Type 0
HaveIds domain nonce i j [] = Unit
HaveIds domain nonce i j (a ∷ articles) =
    (a.header.msgid ≡ get_usenet_message_id nonce domain i j)
    × HaveIds domain nonce i (j + 1) articles

-- Groups of articles, one for each file from file `i` on: as many articles as get_num_pieces says, with
-- the message ids of their indices.
abbrev pub FillFiles : Fileset → Bytes → Bytes → ℕ → List (List Article) → Type 0
FillFiles items domain nonce i [] = Unit
FillFiles items domain nonce i (g ∷ groups) =
    (get_num_pieces items i ≡ some (length g))
    × HaveIds domain nonce i 0 g
    × FillFiles items domain nonce (i + 1) groups

FillFiles-same :
    (items now : Fileset) (domain nonce : Bytes) (i : ℕ) (groups : List (List Article))
    → ((k : ℕ) → get_num_pieces now k ≡ get_num_pieces items k)
    → FillFiles now domain nonce i groups
    → FillFiles items domain nonce i groups
FillFiles-same items now domain nonce i [] same fill = tt
FillFiles-same items now domain nonce i (g ∷ groups) same (size, ids, fill) =
    (sym (same i) ∙ size, ids, FillFiles-same items now domain nonce (i + 1) groups same fill)

in_range-ok {ℓ} : {A : Type ℓ} (o : Option A) (a : A) → in_range o ≡ ok a → o ≡ some a
in_range-ok none a e = absurd (ground arith)
in_range-ok (some b) a e = ground arith

module _ (fs : FileSystem) (crc32 : Bytes → ℕ) (cfg : ProgConfig) (run_nonce : Bytes) where
  loop_inj : (a b : Loop) → ◌≡◌ {A = Result LoopFault Loop} (ok a) (ok b) → b ≡ a
  loop_inj a b e = cc

  -- What a turn of the inner loop makes, and what it notes of it.
  post_chunk-entry :
      (others : Schedule) (i j : ℕ) (l l' : Loop) (items : Fileset) (chunk : Bytes)
      → post_chunk fs crc32 cfg run_nonce others i j l items chunk ≡ ok l'
      → (a : Article) × (l'.made ≡ l.made ++ a ∷ [])
        × (l'.piece_sizes ≡ add_size_entry l.piece_sizes j (length (put a.payload)))
        × (a.header.msgid ≡ get_usenet_message_id run_nonce cfg.msgiddomain i j)
        × (l'.postitems ≡ items)
  unfolding post_chunk piece_article make_article add_payload_piece
  post_chunk-entry others i j l l' items chunk e =
      let (subject, _, e2) =
        >>=-ok (in_range (get_usenet_subject fs items cfg.subject i j)) _ l' e in
      let article = piece_article fs crc32 cfg run_nonce i j subject chunk in
      let (poster, _, e3) = >>=-ok (post_article others (length l.made) article l.poster) _ l' e2 in
      let after = loop_inj _ l' e3 in
      (
        article,
        ap (λ (m : Loop). m.made) after,
        ap (λ (m : Loop). m.piece_sizes) after
            ∙ ap (λ t. add_size_entry l.piece_sizes j (length t)) (sym (append-nil chunk)),
        refl,
        ap (λ (m : Loop). m.postitems) after,
      )

  post_pieces-entries :
      (others : Schedule) (i left j : ℕ) (sizes : List (List (ℕ × ℕ))) (last : List (ℕ × ℕ))
      (l l' : Loop)
      → l.piece_sizes ≡ sizes ++ last ∷ []
      → post_pieces fs crc32 cfg run_nonce others i left j l ≡ ok l'
      → (new : List Article) × (l'.made ≡ l.made ++ new)
        × (length new ≡ left)
        × (l'.piece_sizes ≡ sizes ++ (last ++ entries j new) ∷ [])
        × HaveIds cfg.msgiddomain run_nonce i j new
        × ((k : ℕ) → get_num_pieces l'.postitems k ≡ get_num_pieces l.postitems k)
  unfolding post_pieces post_piece entries
  post_pieces-entries others i zero j sizes last l l' at e =
      let after = loop_inj l l' e in
      (
        [],
        rw after (sym (append-nil l.made)),
        refl,
        rw after (at ∙ ap (λ es. sizes ++ es ∷ []) (sym (append-nil last))),
        tt,
        λ k. rw after refl,
      )
  post_pieces-entries others i (suc left) j sizes last l l' at e =
      let (m, turn, more) = >>=-ok (post_piece fs crc32 cfg run_nonce others i j l) _ l' e in
      let (got, reads, body) = >>=-ok (in_range (get_chunk fs crc32 l.postitems i j)) _ m turn in
      let chunk = in_range-ok _ got reads in
      let (a, made, noted, id, items) = post_chunk-entry others i j l m got.0 got.1 body in
      let size = length (put a.payload) in
      let (new, made', many, noted', ids, same) =
        post_pieces-entries others i left (j + 1) sizes (last ++ (j, size) ∷ []) m l'
          (noted ∙ ap (λ s. add_size_entry s j size) at ∙ add_size_entry-last sizes last j size)
          more in
      (
        a ∷ new,
        made' ∙ ap (λ as'. as' ++ new) made ∙ append_assoc l.made (a ∷ []) new,
        ap suc many,
        noted'
            ∙ ap (λ es. sizes ++ es ∷ [])
                (append_assoc last ((j, size) ∷ []) (entries (j + 1) new)),
        (id, ids),
        λ k.
            same k
            ∙ ap (λ (f : Fileset). get_num_pieces f k) items
            ∙ get_num_pieces-get_chunk fs crc32 l.postitems i j k got chunk,
      )

  -- Each file adds a map of sizes, of the articles that are made for it, one for each of its pieces.
  pub post_files-entries :
      (others : Schedule) (left i : ℕ) (l l' : Loop)
      → post_files fs crc32 cfg run_nonce others left i l ≡ ok l'
      → (groups : List (List Article)) × (l'.made ≡ l.made ++ flatten groups)
        × (length groups ≡ left)
        × (l'.piece_sizes ≡ l.piece_sizes ++ map (entries 0) groups)
        × FillFiles l.postitems cfg.msgiddomain run_nonce i groups
  unfolding post_files post_file flatten
  post_files-entries others zero i l l' e =
      let after = loop_inj l l' e in
      ([], rw after (sym (append-nil l.made)), refl, rw after (sym (append-nil l.piece_sizes)), tt)
  post_files-entries others (suc left) i l l' e =
      let (m, turn, more) = >>=-ok (post_file fs crc32 cfg run_nonce others i l) _ l' e in
      let start : Loop = record l { piece_sizes = l.piece_sizes ++ [] ∷ [] } in
      let (n, counted, e2) = >>=-ok (in_range (get_num_pieces l.postitems i)) _ m turn in
      let (name, _, e3) = >>=-ok (in_range (get_file_name fs l.postitems i)) _ m e2 in
      let (mine, made, size, noted, ids, same) =
        post_pieces-entries others i n 0 l.piece_sizes [] start m refl e3 in
      let (groups, made', many, noted', fill) = post_files-entries others left (i + 1) m l' more in
      (
        mine ∷ groups,
        made' ∙ ap (λ as'. as' ++ flatten groups) made ∙ append_assoc l.made mine (flatten groups),
        ap suc many,
        noted'
            ∙ ap (λ s. s ++ map (entries 0) groups) noted
            ∙ append_assoc l.piece_sizes (entries 0 mine ∷ []) (map (entries 0) groups),
        (
          in_range-ok _ n counted ∙ ap some (sym size),
          ids,
          FillFiles-same l.postitems m.postitems cfg.msgiddomain run_nonce (i + 1) groups same fill,
        ),
      )
