-- ===== src/Main/Loop.antt =====
-- The loops of main.cc that make the articles and hand them to the pool. What the other threads do in
-- between is an argument: the schedule.
pub mod Carried
pub mod Whole
pub mod Sizes
use post2usenet.Common.{
  ℕ, zero, suc, ◌+◌, Bool, false, List, [], ◌∷◌, ◌++◌, Bytes, Option, none, some, length,
}
use post2usenet.Common.Result.{Result, ok, err, ◌>>=◌}
use post2usenet.Boost.{FileSystem}
use post2usenet.Config.{ProgConfig}
use post2usenet.Message.{Header, Article, make_article, add_payload_piece}
use post2usenet.Fileset.{
  Fileset, get_num_pieces, get_file_name, get_chunk, get_usenet_subject, get_usenet_message_id,
}
use post2usenet.Usenet.{Fault, Enqueued, done, waits, Command, enqueue_post, finish_wait}
use post2usenet.Main.{Poster, update_article}

-- What ends the loops: an exception, which is std::out_of_range or the std::length_error of get_part, a
-- fault of the pool, or a wait that is never over.
pub data LoopFault : Type 0 where
  out_of_range still_waiting : LoopFault
  pool_fault : Fault → LoopFault

-- What the other threads do before the article with a number is enqueued, and while that call waits.
pub record Schedule : Type 0 where
  pub before : ℕ → Poster → Poster
  pub waiting : ℕ → Poster → Poster

-- The variables of the loops. The articles that have been made are kept, in order: an article's place
-- is its address. A std::map of sizes is the list of its entries, by rising keys.
pub record Loop : Type 0 where
  pub postitems : Fileset
  pub poster : Poster
  pub made : List Article
  pub piece_sizes : List (List (ℕ × ℕ))

unfoldable pub enqueue_waiting : Schedule → ℕ → Poster → Enqueued → Result LoopFault Poster
enqueue_waiting others address p (done u) = ok (record p { usenet = u })
enqueue_waiting others address p (waits cmd) =
    let q = others.waiting address p in
    elim (finish_wait q.usenet cmd) [
      | done u ↦ ok (record q { usenet = u })
      | waits _ ↦ err still_waiting
    ]

-- An article is made at the next address and enqueued.
pub post_article : Schedule → ℕ → Article → Poster → Result LoopFault Poster
unfolding enqueue_waiting
post_article others address article poster =
    let p = others.before address poster in
    let p' = record p { heap = update_article p.heap address article } in
    elim (enqueue_post p'.usenet address false) [
      | ok called ↦ enqueue_waiting others address p' called
      | err fault ↦ err (pool_fault fault)
    ]

-- `piece_sizes[fileIndex][pieceIndex] = …`, where fileIndex is that of the last map.
pub add_size_entry : List (List (ℕ × ℕ)) → ℕ → ℕ → List (List (ℕ × ℕ))
add_size_entry [] piece_index size = []
add_size_entry (sizes ∷ []) piece_index size = (sizes ++ (piece_index, size) ∷ []) ∷ []
add_size_entry (sizes ∷ next ∷ rest) piece_index size =
    sizes ∷ add_size_entry (next ∷ rest) piece_index size

abbrev pub in_range {ℓ} : {A : Type ℓ} → Option A → Result LoopFault A
in_range none = err out_of_range
in_range (some a) = ok a

module _ (fs : FileSystem) (crc32 : Bytes → ℕ) (cfg : ProgConfig) (run_nonce : Bytes) where
  -- The article of a piece.
  pub piece_article : ℕ → ℕ → Bytes → Bytes → Article
  piece_article file_index piece_index subject chunk =
      add_payload_piece
        (make_article (record {
          from = cfg.from;
          newsgroups = cfg.groups;
          subject = subject;
          msgid = get_usenet_message_id run_nonce cfg.msgiddomain file_index piece_index;
          additional = [];
        }))
        chunk

  -- The body of the inner loop, once the chunk has been made.
  pub post_chunk : Schedule → ℕ → ℕ → Loop → Fileset → Bytes → Result LoopFault Loop
  unfolding piece_article add_size_entry post_article
  post_chunk others file_index piece_index l postitems chunk = do
    let piece_sizes = add_size_entry l.piece_sizes piece_index (length chunk)
    subject ← in_range (get_usenet_subject fs postitems cfg.subject file_index piece_index)
    let article = piece_article file_index piece_index subject chunk
    poster ← post_article others (length l.made) article l.poster
    ok (record {
      postitems = postitems;
      poster = poster;
      made = l.made ++ article ∷ [];
      piece_sizes = piece_sizes;
    })

  pub post_piece : Schedule → ℕ → ℕ → Loop → Result LoopFault Loop
  unfolding post_chunk
  post_piece others file_index piece_index l =
      in_range (get_chunk fs crc32 l.postitems file_index piece_index) >>= λ (postitems, chunk).
      post_chunk others file_index piece_index l postitems chunk

  -- The pieces of a file that are left.
  pub post_pieces : Schedule → ℕ → ℕ → ℕ → Loop → Result LoopFault Loop
  unfolding post_piece
  post_pieces others file_index zero piece_index l = ok l
  post_pieces others file_index (suc left) piece_index l =
      post_piece others file_index piece_index l >>= λ l'.
      post_pieces others file_index left (piece_index + 1) l'

  -- The body of the outer loop.
  pub post_file : Schedule → ℕ → Loop → Result LoopFault Loop
  unfolding post_pieces
  post_file others file_index l = do
    num_pieces ← in_range (get_num_pieces l.postitems file_index)
    cur_file_name ← in_range (get_file_name fs l.postitems file_index)
    post_pieces others file_index num_pieces 0 (record l { piece_sizes = l.piece_sizes ++ [] ∷ [] })

  unfoldable pub post_files : Schedule → ℕ → ℕ → Loop → Result LoopFault Loop
  unfolding post_file
  post_files others zero file_index l = ok l
  post_files others (suc left) file_index l =
      post_file others file_index l >>= λ l'. post_files others left (file_index + 1) l'
