-- ===== src/Connection/Progress.antt =====
-- What a step of the io_service takes off, and adds to, what is under way in nntp/connection.cc.
use post2usenet.Common.{
  ℕ, ◌+◌, Bool, List, [], ◌∷◌, ◌++◌, ◌≡◌, ◌⊎◌, inl, inr, refl, ap, arith, Bytes, Option, none, some,
  some_inj,
}
use mathlib.Core.Path.{subst}
use post2usenet.Boost.{StringAlgorithms}
use post2usenet.Connection.{
  Connection, Heap, Op, resolving, writing, reading, Writer, username_cmd, password_cmd, post_cmd,
  article_text, stat_cmd, quit_cmd, Reader, Task, run_connect, run_post, run_stat, tell_connect,
  tell_post, tell_stat, ConnectResult, PostResult, StatResult,
}
use post2usenet.Connection.Complete.{completed_write, completed_read, run_task}
use post2usenet.Connection.Dialogue.{
  Item, op, task, Grown, LeadsOn, completed_resolve-LeadsOn, completed_handshake-LeadsOn,
  completed_connect-LeadsOn, completed_write-LeadsOn, on_read_error-LeadsOn, on_line-LeadsOn,
  connect_resolve, post_command, stat_command,
}
use post2usenet.Connection.Step.{
  Completes, Serves, resolved, opened, handshaken, written, got, completes, runs,
}

module _ (w : Item → ℕ) where
  abbrev pub weigh_ops : List Op → ℕ
  weigh_ops [] = 0
  weigh_ops (o ∷ os) = w (op o) + weigh_ops os

  abbrev pub weigh_tasks : List Task → ℕ
  weigh_tasks [] = 0
  weigh_tasks (t ∷ ts) = w (task t) + weigh_tasks ts

  pub weigh_ops-append : (xs ys : List Op) → weigh_ops (xs ++ ys) ≡ weigh_ops xs + weigh_ops ys
  weigh_ops-append [] ys = omega arith
  weigh_ops-append (x ∷ xs) ys = omega (arith, weigh_ops-append xs ys)

  pub weigh_tasks-append :
      (xs ys : List Task) → weigh_tasks (xs ++ ys) ≡ weigh_tasks xs + weigh_tasks ys
  weigh_tasks-append [] ys = omega arith
  weigh_tasks-append (x ∷ xs) ys = omega (arith, weigh_tasks-append xs ys)

-- What is under way, weighed.
abbrev pub weigh : (Item → ℕ) → Connection → ℕ
weigh w c = weigh_ops w c.pending + weigh_tasks w c.posted

pub weigh-Grown :
    (w : Item → ℕ) (c c' : Connection) (i : Item) → Grown c c' i → weigh w c' ≡ weigh w c + w i
weigh-Grown w c c' (op o) g = omega (
  arith,
  ap (weigh_ops w) g.started,
  ap (weigh_tasks w) g.queued,
  weigh_ops-append w c.pending (o ∷ []),
)
weigh-Grown w c c' (task t) g = omega (
  arith,
  ap (weigh_ops w) g.started,
  ap (weigh_tasks w) g.queued,
  weigh_tasks-append w c.posted (t ∷ []),
)

-- The last item of a request, and what the owner is told by it.
pub data Ends : Item → List Task → Type 0 where
  quit_end : Ends (op (writing quit_cmd)) []
  connect_end : (r : ConnectResult) → Ends (task (tell_connect r)) (tell_connect r ∷ [])
  post_end : (a : Option ℕ) (r : PostResult) → Ends (task (tell_post a r)) (tell_post a r ∷ [])
  stat_end : (m : Bytes) (r : StatResult) → Ends (task (tell_stat m r)) (tell_stat m r ∷ [])

-- The item leads on, or it is the last one.
abbrev pub Progress : Item → Connection → Connection → List Task → Type 0
Progress i c c' told =
    (LeadsOn i c c' × (told ≡ []))
    ⊎ ((c'.pending ≡ c.pending) × (c'.posted ≡ c.posted) × Ends i told)

run_task-Progress :
    (t : Task) (c : Connection) → Progress (task t) c (run_task c t).0 (run_task c t).1
unfolding run_task
run_task-Progress run_connect c = inl ((op resolving, connect_resolve, ground arith), refl)
run_task-Progress run_post c = inl ((op (writing post_cmd), post_command, ground arith), refl)
run_task-Progress run_stat c = inl ((op (writing stat_cmd), stat_command, ground arith), refl)
run_task-Progress (tell_connect r) c = inr (refl, refl, connect_end r)
run_task-Progress (tell_post a r) c = inr (refl, refl, post_end a r)
run_task-Progress (tell_stat m r) c = inr (refl, refl, stat_end m r)

completed_write-Progress :
    (shutdown_ok ok : Bool) (h : Writer) (c : Connection)
    → Progress (op (writing h)) c (completed_write shutdown_ok ok h c) []
unfolding completed_write
completed_write-Progress s ok quit_cmd c = inr (ground arith, ground arith, quit_end)
completed_write-Progress s ok username_cmd c =
    inl (completed_write-LeadsOn s ok username_cmd c (λ e. cc), refl)
completed_write-Progress s ok password_cmd c =
    inl (completed_write-LeadsOn s ok password_cmd c (λ e. cc), refl)
completed_write-Progress s ok post_cmd c =
    inl (completed_write-LeadsOn s ok post_cmd c (λ e. cc), refl)
completed_write-Progress s ok article_text c =
    inl (completed_write-LeadsOn s ok article_text c (λ e. cc), refl)
completed_write-Progress s ok stat_cmd c =
    inl (completed_write-LeadsOn s ok stat_cmd c (λ e. cc), refl)

completed_read-LeadsOn :
    (algo : StringAlgorithms) (heap : Heap) (h : Reader) (r : Option (Bytes × ℕ))
    (c c' : Connection)
    → completed_read algo heap h r c ≡ some c'
    → LeadsOn (op (reading h)) c c'
unfolding completed_read
completed_read-LeadsOn algo heap h none c c' e =
    subst (LeadsOn (op (reading h)) c) (some_inj _ c' e) (on_read_error-LeadsOn h c)
completed_read-LeadsOn algo heap h (some (buffer, n)) c c' e =
    let (j, f, g) = on_line-LeadsOn algo heap h _ _ c' e in
    (j, f, record { started = g.started; queued = g.queued })

pub Completes-Progress :
    (algo : StringAlgorithms) (heap : Heap) (o : Op) (c c' : Connection)
    → Completes algo heap o c c'
    → Progress (op o) c c' []
Completes-Progress algo heap o c c' (resolved ok e e') =
    rw (e, e') (inl (completed_resolve-LeadsOn ok c, refl))
Completes-Progress algo heap o c c' (opened ok e e') =
    rw (e, e') (inl (completed_connect-LeadsOn ok c, refl))
Completes-Progress algo heap o c c' (handshaken ok e e') =
    rw (e, e') (inl (completed_handshake-LeadsOn ok c, refl))
Completes-Progress algo heap o c c' (written s ok h e e') =
    rw (e, e') (completed_write-Progress s ok h c)
Completes-Progress algo heap o c c' (got h r e e') =
    rw e (inl (completed_read-LeadsOn algo heap h r c c' e', refl))

-- Where a step begins: an item is taken from what is under way.
pub record Taken (c c0 : Connection) (i : Item) : Type 0 where
  pub weighs : (w : Item → ℕ) → weigh w c ≡ weigh w c0 + w i

pub Serves-Progress :
    (algo : StringAlgorithms) (heap : Heap) (c c' : Connection) (told : List Task)
    → Serves algo heap c c' told
    → (i : Item) × (c0 : Connection) × Taken c c0 i × Progress i c0 c' told
Serves-Progress algo heap c c' told (completes before after o e done quiet) = (
  op o,
  record c { pending = before ++ after },
  record {
    weighs = λ w. omega (
      arith,
      ap (weigh_ops w) e,
      weigh_ops-append w before (o ∷ after),
      weigh_ops-append w before after,
    );
  },
  rw quiet (Completes-Progress algo heap o _ c' done),
)
Serves-Progress algo heap c c' told (runs before after t e done) = (
  task t,
  record c { posted = before ++ after },
  record {
    weighs = λ w. omega (
      arith,
      ap (weigh_tasks w) e,
      weigh_tasks-append w before (t ∷ after),
      weigh_tasks-append w before after,
    );
  },
  subst
      (λ (r : Connection × List Task).
        Progress (task t) (record c { posted = before ++ after }) r.0 r.1)
      done (run_task-Progress t (record c { posted = before ++ after })),
)
