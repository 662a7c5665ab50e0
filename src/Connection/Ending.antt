-- ===== src/Connection/Ending.antt =====
-- How many steps of the io_service are left to what is under way in nntp/connection.cc.
use post2usenet.Common.{
  ℕ, suc, ◌+◌, ◌≤◌, ◌<◌, false, List, [], ◌∷◌, ◌≡◌, ◌⊎◌, inl, inr, refl, ap, arith, none,
}
use post2usenet.Boost.{StringAlgorithms}
use post2usenet.Connection.{
  Connection, Heap, Op, resolving, opening, handshaking, writing, reading, username_cmd,
  password_cmd, post_cmd, article_text, stat_cmd, quit_cmd, greeting, username_reply,
  password_reply, post_reply, article_reply, stat_reply, Task, run_connect, run_post, run_stat,
  tell_connect, tell_post, tell_stat,
}
use post2usenet.Connection.Complete.{
  completed_resolve, completed_connect, completed_handshake, completed_write, completed_read,
  on_read_error, run_task,
}
use post2usenet.Connection.Dialogue.{
  Item, op, task, kind, connects, posts, stats, Follows, connect_resolve, resolve_open,
  open_handshake, open_greet, handshake_greet, greet_user, user_answer, user_pass, pass_answer,
  post_command, post_answer, post_text, text_answer, stat_command, stat_answer, connect_told,
  post_told, stat_told,
}
use post2usenet.Connection.Step.{
  Serves, Completes, resolved, opened, handshaken, written, got, completes, runs,
}
use post2usenet.Connection.Progress.{
  weigh, weigh_ops, weigh_tasks, weigh-Grown, Ends, quit_end, connect_end, post_end, stat_end,
  Serves-Progress,
}

-- How many steps an item may still lead to, itself included.
rank_of_op : Op → ℕ
rank_of_op resolving = 9
rank_of_op opening = 8
rank_of_op handshaking = 7
rank_of_op (reading greeting) = 6
rank_of_op (writing username_cmd) = 5
rank_of_op (reading username_reply) = 4
rank_of_op (writing password_cmd) = 3
rank_of_op (reading password_reply) = 2
rank_of_op (writing post_cmd) = 5
rank_of_op (reading post_reply) = 4
rank_of_op (writing article_text) = 3
rank_of_op (reading article_reply) = 2
rank_of_op (writing stat_cmd) = 3
rank_of_op (reading stat_reply) = 2
rank_of_op (writing quit_cmd) = 1

rank_of_task : Task → ℕ
rank_of_task run_connect = 10
rank_of_task run_post = 6
rank_of_task run_stat = 4
rank_of_task (tell_connect r) = 1
rank_of_task (tell_post a r) = 1
rank_of_task (tell_stat m r) = 1

rank : Item → ℕ
unfolding rank_of_op rank_of_task
rank (op o) = rank_of_op o
rank (task t) = rank_of_task t

-- The steps that the io_service may still make, by a count from above.
pub steps_left : Connection → ℕ
unfolding rank
steps_left c = weigh rank c

answer_rank :
    (o : Op)
    → (kind (op o) ≡ connects) ⊎ (kind (op o) ≡ posts) ⊎ (kind (op o) ≡ stats)
    → 1 < rank (op o)
unfolding rank kind
answer_rank resolving h = omega arith
answer_rank opening h = omega arith
answer_rank handshaking h = omega arith
answer_rank (reading greeting) h = omega arith
answer_rank (reading username_reply) h = omega arith
answer_rank (reading password_reply) h = omega arith
answer_rank (reading post_reply) h = omega arith
answer_rank (reading article_reply) h = omega arith
answer_rank (reading stat_reply) h = omega arith
answer_rank (writing username_cmd) h = omega arith
answer_rank (writing password_cmd) h = omega arith
answer_rank (writing post_cmd) h = omega arith
answer_rank (writing article_text) h = omega arith
answer_rank (writing stat_cmd) h = omega arith
answer_rank (writing quit_cmd) h = ground arith

Follows-rank : {i j : Item} → Follows i j → rank j < rank i
unfolding rank
Follows-rank connect_resolve = omega arith
Follows-rank resolve_open = omega arith
Follows-rank open_handshake = omega arith
Follows-rank open_greet = omega arith
Follows-rank handshake_greet = omega arith
Follows-rank greet_user = omega arith
Follows-rank user_answer = omega arith
Follows-rank user_pass = omega arith
Follows-rank pass_answer = omega arith
Follows-rank post_command = omega arith
Follows-rank post_answer = omega arith
Follows-rank post_text = omega arith
Follows-rank text_answer = omega arith
Follows-rank stat_command = omega arith
Follows-rank stat_answer = omega arith
Follows-rank (connect_told o r e) = answer_rank o (inl e)
Follows-rank (post_told o a r e) = answer_rank o (inr (inl e))
Follows-rank (stat_told o m r e) = answer_rank o (inr (inr e))

Ends-rank : {i : Item} {told : List Task} → Ends i told → 0 < rank i
unfolding rank
Ends-rank quit_end = omega arith
Ends-rank (connect_end r) = omega arith
Ends-rank (post_end a r) = omega arith
Ends-rank (stat_end m r) = omega arith

Serves-steps_left :
    (algo : StringAlgorithms) (heap : Heap) (c c' : Connection) (told : List Task)
    → Serves algo heap c c' told
    → steps_left c' < steps_left c
unfolding steps_left
Serves-steps_left algo heap c c' told st =
    let (i, c0, taken, progress) = Serves-Progress algo heap c c' told st in
    elim progress [
      | inl (led, quiet) ↦
          let (j, follows, grown) = led in
          omega (arith, taken.weighs rank, weigh-Grown rank c0 c' j grown, Follows-rank follows)
      | inr (p, q, ends) ↦
          omega (
            arith,
            taken.weighs rank,
            ap (weigh_ops rank) p,
            ap (weigh_tasks rank) q,
            Ends-rank ends,
          )
    ]

-- `n` steps of the io_service one after another.
pub data Served (algo : StringAlgorithms) (heap : Heap) (c : Connection)
    : ℕ → Connection → Type 0 where
  none_yet : Served algo heap c 0 c
  one_more :
      {n : ℕ} {c' c'' : Connection} (told : List Task)
      → Served algo heap c n c'
      → Serves algo heap c' c'' told
      → Served algo heap c (suc n) c''

-- Every operation may fail, and the connection then goes on.
fail_op :
    (algo : StringAlgorithms) (heap : Heap) (o : Op) (c : Connection)
    → (c' : Connection) × Completes algo heap o c c'
unfolding completed_read
fail_op algo heap resolving c = (completed_resolve false c, resolved false refl refl)
fail_op algo heap opening c = (completed_connect false c, opened false refl refl)
fail_op algo heap handshaking c = (completed_handshake false c, handshaken false refl refl)
fail_op algo heap (writing h) c = (completed_write false false h c, written false false h refl refl)
fail_op algo heap (reading h) c = (on_read_error h c, got h none refl refl)

abbrev IsIdle : Connection → Type 0
IsIdle c = (c.pending ≡ []) × (c.posted ≡ [])

next_step :
    (algo : StringAlgorithms) (heap : Heap) (c : Connection) (os : List Op) (ts : List Task)
    → c.pending ≡ os
    → c.posted ≡ ts
    → IsIdle c ⊎ ((c' : Connection) × (told : List Task) × Serves algo heap c c' told)
next_step algo heap c [] [] p q = inl (p, q)
next_step algo heap c (o ∷ os) ts p q =
    let (c', done) = fail_op algo heap o (record c { pending = os }) in
    inr (c', [], completes [] os o p done refl)
next_step algo heap c [] (t ∷ ts) p q =
    let r : Connection × List Task = run_task (record c { posted = ts }) t in
    inr (r.0, r.1, runs [] ts t q refl)

-- The connection comes to rest: the io_service makes no more steps than `steps_left` counts, and makes
-- one as long as an operation has not completed or a task has not been run.
pub comes_to_rest :
    (algo : StringAlgorithms) (heap : Heap) (n : ℕ) (c c' : Connection)
    → Served algo heap c n c'
    → (n + steps_left c' ≤ steps_left c)
      × (IsIdle c' ⊎ ((c'' : Connection) × (told : List Task) × Serves algo heap c' c'' told))
comes_to_rest algo heap n c c' h =
    (bound n c' h, next_step algo heap c' c'.pending c'.posted refl refl)
  where
    bound : (m : ℕ) (d : Connection) → Served algo heap c m d → m + steps_left d ≤ steps_left c
    bound m d none_yet = omega arith
    bound m d (one_more {n = k} {c' = e} told s st) =
        omega (arith, bound k e s, Serves-steps_left algo heap e d told st)
