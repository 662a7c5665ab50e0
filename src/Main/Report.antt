-- ===== src/Main/Report.antt =====
-- The slot of main.cc for finished posts, which reports the progress.
pub mod Counted
use post2usenet.Common.{
  ℕ, zero, suc, ◌+◌, ◌-◌, ◌*◌, ◌/◌, ◌%◌, ◌^◌, Bool, true, false, not, ◌&&◌, ◌||◌, List, [], ◌∷◌,
  ◌++◌, Bytes, codes, Option, none, some, length, ◌==◌, ltb, if◌then◌else◌, size_mod, add_size,
  sub_size,
}
use post2usenet.Common.Int.{ℤ, pos, negsuc}
use post2usenet.Common.Result.{Result, ok, err, ◌>>=◌}
use post2usenet.Boost.{FileSystem, Replacing}
use post2usenet.ConnectionInfo.{ConnectionInfo}
use post2usenet.Config.{ProgConfig, size_of_int}
use post2usenet.Message.{Article, get_payload_size}
use post2usenet.YencGenerator.{GeneratorError}
use post2usenet.Fileset.{
  Fileset, make_fileset, add_file, get_num_files, get_num_pieces, get_usenet_message_id,
}
use post2usenet.Connection.{Connection, Heap}
use post2usenet.Usenet.{
  Usenet, make_usenet, set_operation_timeout, add_connections, start, stop, get_queue_size,
  enqueue_stat,
}
use post2usenet.Main.{Poster, get_run_nonce, nonce_length}
use post2usenet.Main.Loop.{
  LoopFault, Schedule, Loop, in_range, pool_fault, enqueue_waiting, post_files,
}
use post2usenet.Main.Nzb.{NzbFault, write_nzb}

-- The variables of the slot for finished posts, and what it prints. The percentage is computed in
-- floating point, by an argument.
pub record Progress : Type 0 where
  pub num_posted : ℕ
  pub bytes_posted : ℕ

pub record Status : Type 0 where
  pub percentage_complete : ℤ
  pub pieces_remaining : ℕ
  pub speed_kb : ℕ

exceeds_100 : ℤ → Bool
exceeds_100 (pos n) = ltb 100 n
exceeds_100 (negsuc n) = false

-- The seconds since the start are no negative number here.
unfoldable pub on_post_done : (ℕ → ℕ → ℤ) → ℕ → ℕ → Article → Progress → Progress × Status
unfolding exceeds_100
on_post_done percentage total_parts seconds_elapsed article p =
    let num_posted = add_size p.num_posted 1 in
    let bytes_posted = add_size p.bytes_posted (get_payload_size article) in
    let percentage_complete = percentage num_posted total_parts in
    let pieces_remaining = sub_size total_parts num_posted in
    (
      record { num_posted = num_posted; bytes_posted = bytes_posted },
      record {
        percentage_complete =
            (if exceeds_100 percentage_complete || pieces_remaining == 0
              then pos 100
              else percentage_complete);
        pieces_remaining = pieces_remaining;
        speed_kb = (if seconds_elapsed == 0 then 0 else bytes_posted / seconds_elapsed / 1024);
      },
    )
