-- ===== src/Main/Program.antt =====
-- main of main.cc: what it does before the loops that post, the loop that asks for the articles, and how
-- it ends. What is printed is left out.
pub mod Collect
pub mod Posted
use post2usenet.Common.{
  ℕ, zero, suc, ◌+◌, ◌-◌, ◌*◌, ◌/◌, ◌%◌, ◌^◌, Bool, true, false, not, ◌&&◌, ◌||◌, List, [], ◌∷◌,
  ◌++◌, Bytes, codes, Option, none, some, length, ◌==◌, ltb, if◌then◌else◌, size_mod, add_size,
  sub_size,
}
use post2usenet.Common.Int.{ℤ, pos, negsuc}
use post2usenet.Common.Result.{Result, ok, err, ◌>>=◌}
use post2usenet.Boost.{FileSystem, Replacing}
use post2usenet.ConnectionInfo.{ConnectionInfo}
use post2usenet.Config.{ProgConfig, size_of_int}
use post2usenet.Message.{Article, get_payload_size}
use post2usenet.YencGenerator.{GeneratorError}
use post2usenet.Fileset.{
  Fileset, make_fileset, add_file, get_num_files, get_num_pieces, get_usenet_message_id,
}
use post2usenet.Connection.{Connection, Heap}
use post2usenet.Usenet.{
  Usenet, make_usenet, set_operation_timeout, add_connections, start, stop, get_queue_size,
  enqueue_stat,
}
use post2usenet.Main.{Poster, get_run_nonce, nonce_length}
use post2usenet.Main.Loop.{
  LoopFault, Schedule, Loop, in_range, pool_fault, enqueue_waiting, post_files,
}
use post2usenet.Main.Nzb.{NzbFault, write_nzb}

-- `none`: there are several files and no subject, and the program returns 1.
pub choose_subject : FileSystem → ProgConfig → Option ProgConfig
choose_subject fs cfg =
    if not (length cfg.subject == 0)
    then some cfg
    else elim cfg.files [ path ∷ [] ↦ some (record cfg { subject = fs.filename path }) | _ ↦ none ]

-- The `/` of paths, with generic_string(), is an argument.
pub choose_output : FileSystem → (Bytes → Bytes → Bytes) → ProgConfig → ProgConfig
choose_output fs join_path cfg =
    if not (length cfg.nzboutput == 0) && fs.is_directory cfg.nzboutput
    then record cfg { nzboutput = join_path cfg.nzboutput (cfg.subject ++ codes ".nzb") }
    else cfg

-- postitems and total_bytes, a uint64_t.
pub record Collected : Type 0 where
  pub postitems : Fileset
  pub total_bytes : ℕ

pub add_postitem : FileSystem → Collected → Bytes → Result GeneratorError Collected
add_postitem fs c path =
    let (postitems, result) = add_file fs c.postitems path in
    result >>= λ added.
    ok
      (record { postitems = postitems; total_bytes = (c.total_bytes + fs.file_size path) % 2 ^ 64 })

-- The paths that a recursive_directory_iterator goes through.
pub collect_directory : FileSystem → Collected → List Bytes → Result GeneratorError Collected
unfolding add_postitem
collect_directory fs c [] = ok c
collect_directory fs c (path ∷ rest) =
    (if fs.is_regular path then add_postitem fs c path else ok c) >>= λ c'.
    collect_directory fs c' rest

-- `walk` gives the paths below a directory.
unfoldable pub collect :
    FileSystem → (Bytes → List Bytes) → Collected → List Bytes → Result GeneratorError Collected
unfolding collect_directory add_postitem
collect fs walk c [] = ok c
collect fs walk c (path ∷ rest) =
    (if fs.is_directory path
      then collect_directory fs c (walk path)
      else if fs.is_regular path
      then add_postitem fs c path
      else ok c)
    >>= λ c'. collect fs walk c' rest

pub add_servers : Usenet → List (ConnectionInfo × ℤ) → Usenet
add_servers u [] = u
add_servers u ((conninfo, n) ∷ rest) = add_servers (add_connections u conninfo (size_of_int n)) rest

module _ (cfg : ProgConfig) (run_nonce : Bytes) (postitems : Fileset) (others : Schedule) where
  -- The stat with a number is enqueued.
  pub ask : ℕ → ℕ → ℕ → Poster → Result LoopFault Poster
  ask number file_index piece_index poster =
      let p = others.before number poster in
      let msgid = get_usenet_message_id run_nonce cfg.msgiddomain file_index piece_index in
      elim (enqueue_stat p.usenet msgid) [
        | ok called ↦ enqueue_waiting others number p called
        | err fault ↦ err (pool_fault fault)
      ]

  -- The number of the next stat goes with the poster.
  pub ask_pieces : ℕ → ℕ → ℕ → ℕ × Poster → Result LoopFault (ℕ × Poster)
  unfolding ask
  ask_pieces file_index zero piece_index s = ok s
  ask_pieces file_index (suc left) piece_index (number, poster) =
      ask number file_index piece_index poster >>= λ p.
      ask_pieces file_index left (piece_index + 1) (number + 1, p)

  pub ask_files : ℕ → ℕ → ℕ × Poster → Result LoopFault (ℕ × Poster)
  unfolding ask_pieces
  ask_files zero file_index s = ok s
  ask_files (suc left) file_index s = do
    num_pieces ← in_range (get_num_pieces postitems file_index)
    s' ← ask_pieces file_index num_pieces 0 s
    ask_files left (file_index + 1) s'

  pub validate : Poster → Result LoopFault Poster
  unfolding ask_files
  validate poster =
      if cfg.validate_posts
      then (ask_files (get_num_files postitems) 0 (0, poster) >>= λ (number, p). ok p)
      else ok poster

-- What main returns, and what it writes to the file for the nzb, if it does.
pub record Exit : Type 0 where
  pub code : ℕ
  pub nzb : Option (Result NzbFault Bytes)

-- `opens`: the file for the nzb can be opened.
pub finish : FileSystem → Replacing → ProgConfig → Bytes → Bytes → (Bytes → Bool) → Loop → Exit
finish fs rep cfg epoch_time run_nonce opens l =
    if get_queue_size l.poster.usenet == 0
    then record {
      code = 0;
      nzb =
          (if not (length cfg.nzboutput == 0) && opens cfg.nzboutput
            then some (
                write_nzb fs rep cfg epoch_time run_nonce l.postitems l.piece_sizes
                  l.poster.msgid_exceptions)
            else none);
    }
    else record { code = 1; nzb = none }

-- What ends the program other than by a return: an exception of a generator, or what ends a loop.
pub data Crash : Type 0 where
  bad_file : GeneratorError → Crash
  in_loop : LoopFault → Crash

in_a_loop {ℓ} : {A : Type ℓ} → Result LoopFault A → Result Crash A
in_a_loop (ok a) = ok a
in_a_loop (err fault) = err (in_loop fault)

unfoldable generator_failed : Result GeneratorError Collected → Result Crash Collected
generator_failed (ok c) = ok c
generator_failed (err e) = err (bad_file e)

-- What main runs on: the numbers of `rng`, what the memory holds before an article or a connection is
-- made, whether a dump can be opened, what the other threads do in each of the two loops, and what they
-- do until join() ends.
pub record Run : Type 0 where
  pub rng : ℕ → ℕ
  pub heap : Heap
  pub unmade : ℕ → Connection
  pub dump_opens : Bool
  pub posting : Schedule
  pub asking : Schedule
  pub joined : Poster → Poster
  pub epoch_time : Bytes
  pub opens : Bytes → Bool

module _ (fs : FileSystem) (rep : Replacing) (crc32 : Bytes → ℕ) (walk : Bytes → List Bytes)
    (join_path : Bytes → Bytes → Bytes) (r : Run) where
  -- The pool that the configuration asks for, and the nonce of the run.
  pub make_poster : ProgConfig → Poster × Bytes
  unfolding add_servers
  make_poster cfg =
      let u =
        set_operation_timeout (make_usenet r.unmade cfg.io_threads cfg.queue_size)
          cfg.operation_timeout in
      let (at, run_nonce) = get_run_nonce r.rng 0 nonce_length in
      (
        record {
          heap = r.heap;
          usenet = start (add_servers u cfg.servers);
          rng_at = at;
          dump_opens = r.dump_opens;
          msgid_retries = [];
          msgid_exceptions = [];
        },
        run_nonce,
      )

  -- From the start of the pool to the end of the program.
  pub run_pool : ProgConfig → Fileset → Result Crash Exit
  unfolding make_poster in_a_loop validate finish
  run_pool cfg postitems =
      let (poster, run_nonce) = make_poster cfg in
      let l : Loop = record {
        postitems = postitems;
        poster = poster;
        made = [];
        piece_sizes = [];
      } in
      in_a_loop (post_files fs crc32 cfg run_nonce r.posting (get_num_files postitems) 0 l)
      >>= λ posted.
          in_a_loop (validate cfg run_nonce posted.postitems r.asking posted.poster) >>= λ asked.
          ok (
            finish fs rep cfg r.epoch_time run_nonce r.opens
              (record posted { poster = r.joined (record asked { usenet = stop asked.usenet }) }))

  -- main, once the configuration has been loaded, or not.
  unfoldable pub run_main : Option ProgConfig → Result Crash Exit
  unfolding choose_subject choose_output collect generator_failed run_pool
  run_main none = ok (record { code = 1; nzb = none })
  run_main (some loaded) = elim (choose_subject fs loaded) [
    | none ↦ ok (record { code = 1; nzb = none })
    | some named ↦
        let cfg = choose_output fs join_path named in
        let none_yet : Collected = record {
          postitems = make_fileset cfg.article_size;
          total_bytes = 0;
        } in
        generator_failed (collect fs walk none_yet cfg.files) >>= λ c. run_pool cfg c.postitems
  ]
