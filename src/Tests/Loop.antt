-- ===== src/Tests/Loop.antt =====
-- The theorems on the loops of main.cc at one file of three pieces.
use mathlib.Core.Path.{subst}
use mathlib.Core.List.{flatten, Permᴰ}
use mathlib.Core.List.Permᴰ
use post2usenet.Common.{
  ℕ, ◌%◌, ◌^◌, false, List, [], ◌∷◌, ◌≡◌, refl, sym, arith, Bytes, codes, get_elem?, none, some,
  ◌*◌, ◌/◌,
}
use post2usenet.Common.Int.{ℤ, pos}
use post2usenet.Common.Result.{Result, ok, err}
use post2usenet.Config.{ProgConfig}
use post2usenet.Message.{Article}
use post2usenet.YencGenerator.{get_part, make_generator, GeneratorError, num_parts}
use post2usenet.Fileset.{
  make_fileset, add_file, get_num_pieces, get_chunk, get_usenet_subject, get_file_name,
  get_num_files, get_total_pieces,
}
use post2usenet.Fileset.Keys.{IsAligned}
use post2usenet.Usenet.{enqueue_post, make_usenet}
use post2usenet.Main.Loop.{Schedule, Loop, LoopFault, post_files}
use post2usenet.Main.Loop.Carried.{CarryFiles, post_files-CarryFiles}
use post2usenet.Main.Loop.Whole.{Opened, Reassembles, post_files-Reassembles}
use post2usenet.Main.Program.{Collected, collect}
use post2usenet.Main.Report.{on_post_done}
use post2usenet.Main.Program.Collect.{expand, total_size, Made, collect-expand}
use post2usenet.Main.Report.Counted.{count_posts, last_post-Status}
use post2usenet.Tests.Data.{one_file, no_crc, file_text, news_server}
use post2usenet.Tests.Usenet.{two}
use post2usenet.Tests.Main.{first_poster, failing}

abbrev pub config : ProgConfig
config = record {
  from = codes "poster";
  servers = (news_server, pos 1) ∷ [];
  subject = codes "one";
  msgiddomain = codes "a.org";
  article_size = 8;
  io_threads = 1;
  queue_size = 10;
  operation_timeout = pos 30;
  validate_posts = false;
  raw = false;
  files = codes "a.txt" ∷ [];
  groups = codes "alt.a" ∷ [];
  nzboutput = [];
}

abbrev nothing_yet : Collected
nothing_yet = record { postitems = make_fileset 8; total_bytes = 0 }

abbrev collected : Result GeneratorError Collected → Collected
collected (ok c) = c
collected (err e) = nothing_yet

abbrev pub walk_none : Bytes → List Bytes
walk_none path = []

abbrev items : Collected
items = collected (collect one_file walk_none nothing_yet config.files)

collects : collect one_file walk_none nothing_yet config.files ≡ ok items
unfolding collect add_file make_generator make_fileset
collects = refl

collect-expand_example :
    (items.postitems.files ≡ expand one_file walk_none config.files)
    × Made one_file 8 (expand one_file walk_none config.files) items.postitems.filehandles
    × (items.total_bytes % 2 ^ 64
        ≡ total_size one_file (expand one_file walk_none config.files) % 2 ^ 64)
collect-expand_example = collect-expand one_file walk_none 8 config.files items collects

abbrev pub quiet : Schedule
quiet = record { before = λ n p. p; waiting = λ n p. p }

abbrev at_start : Loop
at_start = record {
  postitems = items.postitems;
  poster = record first_poster { usenet = record two { maxsize = 10 } };
  made = [];
  piece_sizes = [];
}

abbrev looped : Result LoopFault Loop → Loop
looped (ok l) = l
looped (err e) = at_start

abbrev at_end : Loop
at_end = looped (post_files one_file no_crc config (codes "nonce") quiet 1 0 at_start)

posts :
    post_files one_file no_crc config
      (codes "nonce")
      quiet
      (get_num_files items.postitems)
      0
      at_start
    ≡ ok at_end
unfolding post_files collect get_num_files make_fileset add_file make_generator get_num_pieces
    get_chunk get_part get_usenet_subject get_file_name num_parts enqueue_post make_usenet
posts = refl

post_files-CarryFiles_example :
    CarryFiles one_file no_crc config
      (codes "nonce")
      items.postitems
      0
      items.postitems.filehandles
      at_end.made
unfolding collect make_fileset add_file make_generator
post_files-CarryFiles_example =
    post_files-CarryFiles one_file no_crc config (codes "nonce") quiet at_start at_end refl refl
      posts

opened : Opened one_file 8 items.postitems.filehandles (file_text ∷ [])
unfolding collect make_fileset add_file make_generator
opened = ((refl, omega arith, omega arith, omega arith, refl), tt)

post_files-Reassembles_example :
    (groups : List (List Article)) × (at_end.made ≡ flatten groups)
    × Reassembles (file_text ∷ []) groups
unfolding collect make_fileset add_file make_generator
post_files-Reassembles_example =
    post_files-Reassembles one_file no_crc config (codes "nonce") quiet at_start at_end
      (file_text ∷ []) refl opened refl posts

abbrev piece : ℕ → Article
piece n = elim (get_elem? at_end.made n) [ none ↦ failing | some a ↦ a ]

abbrev float_percentage : ℕ → ℕ → ℤ
float_percentage n total = pos (n * 100 / total)

made_three : at_end.made ≡ piece 0 ∷ piece 1 ∷ piece 2 ∷ []
unfolding post_files collect get_num_files make_fileset add_file make_generator get_num_pieces
    get_chunk get_part get_usenet_subject get_file_name num_parts enqueue_post make_usenet
made_three = refl

in_order : Permᴰ (piece 0 ∷ piece 1 ∷ piece 2 ∷ []) at_end.made
in_order =
    subst (λ as'. Permᴰ (piece 0 ∷ piece 1 ∷ piece 2 ∷ []) as') (sym made_three) (Permᴰ.refl _)

aligned : IsAligned items.postitems
unfolding collect make_fileset add_file make_generator
aligned = refl

last_post-Status_example :
    let total = get_total_pieces items.postitems in
    let p =
      count_posts float_percentage total
        (λ n. n)
        (piece 1 ∷ piece 2 ∷ [])
        (record { num_posted = 0; bytes_posted = 0 }) in
    let shown = (on_post_done float_percentage total 3 (piece 0) p).1 in
    (shown.pieces_remaining ≡ 0) × (shown.percentage_complete ≡ pos 100)
last_post-Status_example =
    last_post-Status one_file no_crc config (codes "nonce") quiet at_start at_end float_percentage
      (λ n. n) 3 (piece 1 ∷ piece 2 ∷ []) (piece 0) aligned refl posts in_order
