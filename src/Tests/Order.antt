-- ===== src/Tests/Order.antt =====
-- The theorems on the runs of nntp/usenet.cc, at a pool that is given two posts: the first is started at
-- once, the second once the other connection is ready.
use mathlib.Core.List.{Permᴰ, Memᴰ}
use post2usenet.Common.{ℕ, false, [], ◌∷◌, ◌++◌, ◌≡◌, inr, refl, arith}
use post2usenet.Common.Result.{Result, ok, err}
use post2usenet.Usenet.{
  Usenet, make_usenet, start_post, Fault, Enqueued, done, enqueue_post, on_conn_becomes_ready,
}
use post2usenet.Usenet.Acts.{posted, became_ready}
use post2usenet.Usenet.Order.{Run, rest, step, line, Run-Fifo}
use post2usenet.Usenet.Order.Queueing.{Fifo}
use post2usenet.Usenet.Kept.{commands, Run-commands, queued-started}
use post2usenet.Tests.Usenet.{two}

abbrev went : Result Fault Usenet → Usenet
went (ok u) = u
went (err x) = two

abbrev entered : Result Fault Enqueued → Usenet
entered (ok (done u)) = u
entered _ = two

abbrev one_started : Usenet
one_started = entered (enqueue_post two 5 false)

abbrev one_queued : Usenet
one_queued = entered (enqueue_post one_started 6 false)

abbrev both_started : Usenet
both_started = went (on_conn_becomes_ready one_queued 1)

first_post : enqueue_post two 5 false ≡ ok (done one_started)
unfolding enqueue_post make_usenet
first_post = refl

second_post : enqueue_post one_started 6 false ≡ ok (done one_queued)
unfolding enqueue_post make_usenet
second_post = refl

comes_up : on_conn_becomes_ready one_queued 1 ≡ ok both_started
unfolding enqueue_post on_conn_becomes_ready make_usenet
comes_up = refl

abbrev second_started : Run one_queued [] both_started
second_started =
    step one_queued both_started both_started [] [] (became_ready 1 comes_up refl)
      (rest both_started)

abbrev both_posts : Run two (start_post 5 ∷ start_post 6 ∷ []) both_started
both_posts =
    step two one_started both_started (start_post 5 ∷ []) (start_post 6 ∷ [])
      (posted 5 false first_post refl)
      (step one_started one_queued both_started (start_post 6 ∷ []) []
        (posted 6 false second_post refl) second_started)

Run-Fifo_example : Fifo (line two) (start_post 5 ∷ start_post 6 ∷ []) (line both_started)
unfolding make_usenet
Run-Fifo_example =
    Run-Fifo two both_started (start_post 5 ∷ start_post 6 ∷ []) both_posts (inr refl) refl

Run-commands_example :
    Permᴰ (commands both_started) (commands two ++ start_post 5 ∷ start_post 6 ∷ [])
Run-commands_example = Run-commands two both_started (start_post 5 ∷ start_post 6 ∷ []) both_posts

queued-started_example : (it : ℕ) × Memᴰ (it, start_post 6) both_started.started
unfolding enqueue_post make_usenet
queued-started_example =
    queued-started one_queued both_started [] second_started [] [] (start_post 6) refl (omega arith)
