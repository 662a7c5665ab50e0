-- ===== src/Tests/Program.antt =====
-- The theorem on main of main.cc at one file, where the queue is empty when join() ends.
use mathlib.Core.List.{flatten}
use post2usenet.Common.{true, List, [], ◌∷◌, ◌≡◌, refl, arith, Bytes, codes, none, some}
use post2usenet.Common.Int.{pos}
use post2usenet.Common.Result.{ok}
use post2usenet.Message.{Article}
use post2usenet.Connection.{make_connection}
use post2usenet.Main.Loop.Whole.{Reassembles}
use post2usenet.Main.Program.{Collected, Exit, Run, run_main, choose_subject, choose_output}
use post2usenet.Main.Program.Collect.{expand}
use post2usenet.Main.Program.Posted.{HasContents, Posted, run_main-Reassembles}
use post2usenet.YencGenerator.{get_part, make_generator, num_parts}
use post2usenet.Fileset.{
  add_file, make_fileset, get_num_files, get_num_pieces, get_file_name, get_chunk,
  get_usenet_subject,
}
use post2usenet.Usenet.{
  enqueue_post, start, stop, get_queue_size, set_operation_timeout, add_connections, make_usenet,
}
use post2usenet.Config.{ProgConfig, size_of_int}
use post2usenet.Main.Loop.{post_files}
use post2usenet.Tests.Data.{one_file, no_crc, file_text, news_server}
use post2usenet.Tests.Escape.{boost_replacing}
use post2usenet.Tests.Main.{failing, numbers}
use post2usenet.Tests.Loop.{config, walk_none, quiet}

abbrev one_run : Run
one_run = record {
  rng = numbers;
  heap = λ a. failing;
  unmade = λ j. make_connection news_server (pos 5);
  dump_opens = true;
  posting = quiet;
  asking = quiet;
  joined = λ p. record p { usenet = record p.usenet { queue = [] } };
  epoch_time = codes "0";
  opens = λ path. true;
}

abbrev beside : Bytes → Bytes → Bytes
beside directory name = name

abbrev all_well : Exit
all_well = record { code = 0; nzb = none }

runs : run_main one_file boost_replacing no_crc walk_none beside one_run (some config) ≡ ok all_well
unfolding run_main add_file make_generator make_fileset post_files get_num_files get_num_pieces
    get_file_name num_parts get_chunk get_part get_usenet_subject enqueue_post start stop
    get_queue_size set_operation_timeout add_connections make_usenet size_of_int
runs = refl

contents : HasContents one_file (expand one_file walk_none config.files) (file_text ∷ [])
unfolding expand
contents = ((refl, omega arith, omega arith, omega arith), tt)

run_main-Reassembles_example :
    (named : ProgConfig) × (choose_subject one_file config ≡ some named)
    × (c : Collected) × (c.postitems.files ≡ expand one_file walk_none config.files)
    × (p : Posted one_file boost_replacing no_crc walk_none beside one_run
        (choose_output one_file beside named)
        c.postitems
        all_well)
    × (groups : List (List Article)) × (p.at_end.made ≡ flatten groups)
    × Reassembles (file_text ∷ []) groups
run_main-Reassembles_example =
    run_main-Reassembles one_file boost_replacing no_crc walk_none beside one_run config all_well
      (file_text ∷ []) runs refl contents
