-- ===== src/Pool/Busy.antt =====
-- A connection of nntp/connection.cc while it works for the pool of nntp/usenet.cc: exactly one item of
-- one request is under way, until its owner is told the result.
use mathlib.Core.Path.{subst}
use post2usenet.Common.{
  ℕ, false, List, [], ◌∷◌, ◌++◌, ◌≡◌, ◌≢◌, inl, inr, refl, sym, ap, ◌∙◌, arith, Bytes, Option, none,
  some, Bool-cases, codes, take,
}
use post2usenet.Boost.{StringAlgorithms}
use post2usenet.Connection.{
  Connection, Heap, Op, Reader, reading, greeting, username_reply, password_reply, post_reply,
  article_reply, stat_reply, cancel_timer, resolving, writing, stat_cmd, Task, run_connect,
  run_post, run_stat, tell_connect, tell_post, tell_stat, ConnectResult, connect_success,
  PostResult, StatResult, connected_and_authenticated,
}
use post2usenet.Connection.Complete.{run_task, completed_read, on_line}
use post2usenet.Connection.Dialogue.{Item, op, task, posts, quits, kind, Grown}
use post2usenet.Connection.Progress.{Completes-Progress, Ends, quit_end}
use post2usenet.Connection.Answers.{Follows-kind}
use post2usenet.Connection.Step.{Completes, Serves}
use post2usenet.Connection.Posting.{
  OneOp, OneTask, one_op, IsIdle, IsPosting, requested, commanding, texting, answering,
}
use post2usenet.Connection.Posted.{op_step, task_step, Serves-PostStep}
use post2usenet.Pool.Says.{SaysReady, Completes-SaysReady}

-- One item is under way.
abbrev pub OneItem : Connection → Item → Type 0
OneItem c (op o) = OneOp c o
OneItem c (task t) = OneTask c t

pub nothing_pending : (o : Op) (before after : List Op) → [] ≢ before ++ o ∷ after
nothing_pending o [] after e = ground arith
nothing_pending o (x ∷ before) after e = ground arith

-- What the pool is told, and that the connection is then ready, unless it could not connect. A post is
-- always told with its article.
pub data Says (c : Connection) : Task → Type 0 where
  of_connect :
      (r : ConnectResult)
      → (r ≡ connect_success → c.state ≡ connected_and_authenticated)
      → Says c (tell_connect r)
  of_post :
      (a : ℕ) (r : PostResult)
      → c.state ≡ connected_and_authenticated
      → Says c (tell_post (some a) r)
  of_stat :
      (m : Bytes) (r : StatResult) → c.state ≡ connected_and_authenticated → Says c (tell_stat m r)

module _ (algo : StringAlgorithms) (heap : Heap) where
  -- A request is under way.
  pub data IsBusy (c : Connection) : Type 0 where
    talking : (i : Item) → kind i ≢ posts → kind i ≢ quits → OneItem c i → SaysReady c → IsBusy c
    posting : (a : ℕ) (log : List Bytes) → IsPosting algo heap a log c → IsBusy c

  -- What a step of a busy connection leads to: it is still busy and nothing is told, or it has told one
  -- result and is at rest.
  pub data BusyStep (c : Connection) (told : List Task) : Type 0 where
    goes_on : IsBusy c → told ≡ [] → BusyStep c told
    ends : (t : Task) → told ≡ t ∷ [] → IsIdle c → Says c t → BusyStep c told

  Grown-OneItem : (c c' : Connection) (j : Item) → IsIdle c → Grown c c' j → OneItem c' j
  Grown-OneItem c c' (op o) idle g = record {
    op = g.started ∙ ap (λ os. os ++ o ∷ []) idle.no_op;
    no_task = g.queued ∙ idle.no_task;
  }
  Grown-OneItem c c' (task t) idle g = record {
    no_op = g.started ∙ idle.no_op;
    task = g.queued ∙ ap (λ ts. ts ++ t ∷ []) idle.no_task;
  }

  no_end : (o : Op) → kind (op o) ≢ quits → ¬ Ends (op o) []
  unfolding kind
  no_end o not_quit quit_end = not_quit refl

  op-BusyStep :
      (c c' : Connection) (o : Op)
      → kind (op o) ≢ posts
      → kind (op o) ≢ quits
      → IsIdle c
      → Completes algo heap o c c'
      → BusyStep c' []
  unfolding kind
  op-BusyStep c c' o not_post not_quit idle done = elim (Completes-Progress algo heap o c c' done) [
    | inl ((j, follows, grown), quiet) ↦
        let same = Follows-kind follows in
        goes_on
          (talking j (λ e. not_post (sym same ∙ e)) (λ e. not_quit (sym same ∙ e))
            (Grown-OneItem c c' j idle grown) (Completes-SaysReady algo heap o c c' idle done))
          refl
    | inr (p, q, end) ↦ absurd (no_end o not_quit end)
  ]

  -- A posted task of a busy connection is run.
  task-BusyStep :
      (c : Connection) (t : Task)
      → kind (task t) ≢ posts
      → SaysReady (record c { posted = t ∷ [] })
      → IsIdle c
      → BusyStep (run_task c t).0 (run_task c t).1
  unfolding kind run_task
  task-BusyStep c run_connect not_post says idle =
      goes_on
        (talking (op resolving) (λ e. cc) (λ e. cc)
          (record { op = ground arith; no_task = ground arith })
          (record { connect = λ e. absurd (ground arith); stat = λ m r e. absurd (ground arith) }))
        refl
  task-BusyStep c run_stat not_post says idle =
      goes_on
        (talking (op (writing stat_cmd)) (λ e. cc) (λ e. cc)
          (record { op = ground arith; no_task = ground arith })
          (record { connect = λ e. absurd (ground arith); stat = λ m r e. absurd (ground arith) }))
        refl
  task-BusyStep c run_post not_post says idle = absurd (not_post refl)
  task-BusyStep c (tell_post a r) not_post says idle = absurd (not_post refl)
  task-BusyStep c (tell_connect r) not_post says idle =
      ends _ refl idle (of_connect r (λ e. says.connect (rw e refl)))
  task-BusyStep c (tell_stat m r) not_post says idle =
      ends _ refl idle (of_stat m r (says.stat m r refl))

  -- A busy connection makes a step.
  pub IsBusy-BusyStep :
      (c c' : Connection) (told : List Task)
      → IsBusy c
      → Serves algo heap c c' told
      → BusyStep c' told
  IsBusy-BusyStep c c' told (talking (op o) not_post not_quit one says) st =
      let (done, quiet) = op_step algo heap c c' o told one st in
      rw quiet (
        op-BusyStep (record c { pending = [] }) c' o not_post not_quit
          (record { no_op = refl; no_task = one.no_task }) done)
  IsBusy-BusyStep c c' told (talking (task t) not_post not_quit one says) st =
      subst (λ (r : Connection × List Task). BusyStep r.0 r.1)
        (task_step algo heap c c' t told one st)
        (task-BusyStep (record c { posted = [] }) t not_post
          (record {
            connect = λ e. says.connect (one.task ∙ e);
            stat = λ m r e. says.stat m r (one.task ∙ e);
          })
          (record { no_op = one.no_op; no_task = refl }))
  IsBusy-BusyStep c c' told (posting a log p) st =
      elim (Serves-PostStep algo heap a log c c' told p st) [
        | inl (q, quiet) ↦ goes_on (posting a log q) quiet
        | inr (r, e, no_op, no_task, v) ↦
            ends (tell_post (some a) r) e (record { no_op = no_op; no_task = no_task })
              (of_post a r v.ready)
      ]

  -- Only the reply to POST looks at the article.
  null_read :
      (h : Reader) (r : Option (Bytes × ℕ)) (c : Connection)
      → completed_read algo heap h r c ≡ none
      → (h ≡ post_reply) × (c.article ≡ none)
  unfolding completed_read on_line cancel_timer
  null_read greeting none c e = absurd (ground arith)
  null_read username_reply none c e = absurd (ground arith)
  null_read password_reply none c e = absurd (ground arith)
  null_read post_reply none c e = absurd (ground arith)
  null_read article_reply none c e = absurd (ground arith)
  null_read stat_reply none c e = absurd (ground arith)
  null_read greeting (some x) c e = absurd (ground arith)
  null_read username_reply (some (line, n)) c e =
      elim (Bool-cases (algo.starts_with (take n line) (codes "381"))) [
        | inl more ↦ absurd (ground arith)
        | inr last ↦ absurd (ground arith)
      ]
  null_read password_reply (some x) c e = absurd (ground arith)
  null_read post_reply (some x) c e = (refl, ground arith)
  null_read article_reply (some x) c e = absurd (ground arith)
  null_read stat_reply (some x) c e = absurd (ground arith)

  -- A busy connection has the article that it is to send.
  pub IsBusy-has_article :
      (c : Connection) (before after : List Op) (h : Reader) (r : Option (Bytes × ℕ))
      → IsBusy c
      → c.pending ≡ before ++ reading h ∷ after
      → completed_read algo heap h r (record c { pending = before ++ after }) ≢ none
  unfolding kind
  IsBusy-has_article c before after h r (talking (op o) np nq one says) at e =
      let (same, b, f) = one_op o (reading h) before after (sym one.op ∙ at) in
      let (is, gone) = null_read h r (record c { pending = before ++ after }) e in
      let this : o ≡ reading post_reply = sym same ∙ ap reading is in np (rw this refl)
  IsBusy-has_article c before after h r (talking (task t) np nq one says) at e =
      nothing_pending (reading h) before after (sym one.no_op ∙ at)
  IsBusy-has_article c before after h r (posting a log (requested one there s)) at e =
      nothing_pending (reading h) before after (sym one.no_op ∙ at)
  IsBusy-has_article c before after h r (posting a log (commanding o w one there s)) at e =
      let (is, gone) = null_read h r (record c { pending = before ++ after }) e in
      absurd (ground arith)
  IsBusy-has_article c before after h r (posting a log (texting o (inl w) one there s)) at e =
      let (is, gone) = null_read h r (record c { pending = before ++ after }) e in
      absurd (ground arith)
  IsBusy-has_article c before after h r (posting a log (texting o (inr w) one there s)) at e =
      let (is, gone) = null_read h r (record c { pending = before ++ after }) e in
      absurd (ground arith)
  IsBusy-has_article c before after h r (posting a log (answering result one v)) at e =
      nothing_pending (reading h) before after (sym one.no_op ∙ at)

  -- A timer that fires leaves what is under way as it is.
  fired-OneItem : (c : Connection) (i : Item) → OneItem c i → OneItem (record c { timer = false }) i
  fired-OneItem c (op o) one = record { op = one.op; no_task = one.no_task }
  fired-OneItem c (task t) one = record { no_op = one.no_op; task = one.task }

  fired-IsPosting :
      (c : Connection) (a : ℕ) (log : List Bytes)
      → IsPosting algo heap a log c
      → IsPosting algo heap a log (record c { timer = false })
  fired-IsPosting c a log (requested one e s) = requested (fired-OneItem c (task run_post) one) e s
  fired-IsPosting c a log (commanding o w one e s) = commanding o w (fired-OneItem c (op o) one) e s
  fired-IsPosting c a log (texting o w one e s) = texting o w (fired-OneItem c (op o) one) e s
  fired-IsPosting c a log (answering r one v) =
      answering r (fired-OneItem c (task (tell_post (some a) r)) one)
        (record { ready = v.ready; forgotten = v.forgotten; whole = v.whole })

  pub fired-IsBusy : (c : Connection) → IsBusy c → IsBusy (record c { timer = false })
  fired-IsBusy c (talking i np nq one says) =
      talking i np nq (fired-OneItem c i one) (record { connect = says.connect; stat = says.stat })
  fired-IsBusy c (posting a log p) = posting a log (fired-IsPosting c a log p)
