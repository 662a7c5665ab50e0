-- ===== src/Connection/Posting.antt =====
-- One post of nntp/connection.cc from its request to its answer.
use post2usenet.Common.{
  ℕ, Bool, true, false, List, [], ◌∷◌, ◌++◌, append_assoc, ◌≡◌, ◌⊎◌, inl, inr, refl, arith, Bytes,
  codes, put, Option, none, some, Bool-cases, ◌==◌, take,
}
use post2usenet.Boost.{StringAlgorithms}
use post2usenet.Connection.{
  Connection, Heap, Op, writing, reading, post_cmd, article_text, post_reply, article_reply, Task,
  run_post, tell_post, connected_and_authenticated, send_parts, PostResult, post_success,
  posting_not_permitted, post_failure, post_failure_connection_error, first_byte,
}
use post2usenet.Connection.Complete.{
  completed_write, completed_read, run_task, on_line, on_read_error,
}
use post2usenet.Connection.Step.{Completes, resolved, opened, handshaken, written, got}

-- One operation is under way, or one task.
pub record OneOp (c : Connection) (o : Op) : Type 0 where
  pub op : c.pending ≡ o ∷ []
  pub no_task : c.posted ≡ []

pub record OneTask (c : Connection) (t : Task) : Type 0 where
  pub no_op : c.pending ≡ []
  pub task : c.posted ≡ t ∷ []

module _ (algo : StringAlgorithms) (heap : Heap) (a : ℕ) (log : List Bytes) where
  -- What has been handed to async_write behind `log`: the command, and the command and the text.
  abbrev pub command_sent : List Bytes
  command_sent = log ++ codes "POST\r\n" ∷ []

  abbrev pub text_sent : List Bytes
  text_sent = log ++ codes "POST\r\n" ∷ put (send_parts algo (heap a)) ∷ []

  -- An answer about the article; success is told only of an article whose text has been sent whole.
  pub record IsAnswered (c : Connection) (r : PostResult) : Type 0 where
    pub ready : c.state ≡ connected_and_authenticated
    pub forgotten : c.article ≡ none
    pub whole : r ≡ post_success → c.sent ≡ text_sent

  pub data IsPosting (c : Connection) : Type 0 where
    requested : OneTask c run_post → c.article ≡ some a → c.sent ≡ log → IsPosting c
    commanding :
        (o : Op)
        → (o ≡ writing post_cmd) ⊎ (o ≡ reading post_reply)
        → OneOp c o
        → c.article ≡ some a
        → c.sent ≡ command_sent
        → IsPosting c
    texting :
        (o : Op)
        → (o ≡ writing article_text) ⊎ (o ≡ reading article_reply)
        → OneOp c o
        → c.article ≡ some a
        → c.sent ≡ text_sent
        → IsPosting c
    answering : (r : PostResult) → OneTask c (tell_post (some a) r) → IsAnswered c r → IsPosting c

  -- What a step leads to: the post goes on and nothing is told, or its one answer is told.
  abbrev pub PostStep : Connection → List Task → Type 0
  PostStep c told =
      (IsPosting c × (told ≡ []))
      ⊎ ((r : PostResult) × (told ≡ tell_post (some a) r ∷ [])
          × (c.pending ≡ [])
          × (c.posted ≡ [])
          × IsAnswered c r)

pub one_op :
    (o o' : Op) (before after : List Op)
    → o ∷ [] ≡ before ++ o' ∷ after
    → (o' ≡ o) × (before ≡ []) × (after ≡ [])
one_op o o' [] after e = (cc, refl, cc)
one_op o o' (x ∷ []) after e = absurd (cc)
one_op o o' (x ∷ y ∷ before) after e = absurd (cc)

pub one_task :
    (t t' : Task) (before after : List Task)
    → t ∷ [] ≡ before ++ t' ∷ after
    → (t' ≡ t) × (before ≡ []) × (after ≡ [])
one_task t t' [] after e = (cc, refl, cc)
one_task t t' (x ∷ []) after e = absurd (cc)
one_task t t' (x ∷ y ∷ before) after e = absurd (cc)

-- Nothing is under way.
pub record IsIdle (c : Connection) : Type 0 where
  pub no_op : c.pending ≡ []
  pub no_task : c.posted ≡ []

module _ (algo : StringAlgorithms) (heap : Heap) (a : ℕ) (log : List Bytes) where
  -- A post that has failed, or been refused, is answered.
  tells :
      (c c' : Connection) (r : PostResult)
      → c'.pending ≡ []
      → c'.posted ≡ tell_post (some a) r ∷ []
      → c'.state ≡ connected_and_authenticated
      → c'.article ≡ none
      → (r ≡ post_success → c'.sent ≡ text_sent algo heap a log)
      → PostStep algo heap a log c' []
  tells c c' r p q s n w = inl (
    answering r (record { no_op = p; task = q }) (record { ready = s; forgotten = n; whole = w }),
    refl,
  )

  post_cmd-step :
      (s ok : Bool) (c : Connection)
      → IsIdle c
      → c.article ≡ some a
      → c.sent ≡ command_sent algo heap a log
      → PostStep algo heap a log (completed_write s ok post_cmd c) []
  unfolding completed_write
  post_cmd-step s false c idle e sent =
      tells c _ post_failure_connection_error (ground arith) (ground arith) refl refl (λ k. cc)
  post_cmd-step s true c idle e sent = inl (
    commanding (reading post_reply) (inr refl)
        (record { op = ground arith; no_task = ground arith }) (ground arith) (ground arith),
    refl,
  )

  article_text-step :
      (s ok : Bool) (c : Connection)
      → IsIdle c
      → c.article ≡ some a
      → c.sent ≡ text_sent algo heap a log
      → PostStep algo heap a log (completed_write s ok article_text c) []
  unfolding completed_write
  article_text-step s false c idle e sent =
      tells c _ post_failure_connection_error (ground arith) (ground arith) refl refl (λ k. cc)
  article_text-step s true c idle e sent = inl (
    texting (reading article_reply) (inr refl)
        (record { op = ground arith; no_task = ground arith }) (ground arith) (ground arith),
    refl,
  )

  post_reply-step :
      (r : Option (Bytes × ℕ)) (c c' : Connection)
      → IsIdle c
      → c.article ≡ some a
      → c.sent ≡ command_sent algo heap a log
      → completed_read algo heap post_reply r c ≡ some c'
      → PostStep algo heap a log c' []
  unfolding completed_read on_line on_read_error
  post_reply-step none c c' idle e sent h =
      tells c c' post_failure_connection_error (ground arith) (ground arith) (ground arith)
        (ground arith) (λ k. cc)
  post_reply-step (some (buffer, n)) c c' idle e sent h =
      elim (Bool-cases (first_byte (take n buffer) == b'4')) [
        | inl refused ↦
            tells c c' posting_not_permitted (ground arith) (ground arith) (ground arith)
              (ground arith) (λ k. cc)
        | inr accepted ↦ inl (
          texting (writing article_text) (inl refl)
              (record { op = ground arith; no_task = ground arith }) (ground arith)
              (ground (
                arith,
                append_assoc log (codes "POST\r\n" ∷ []) (put (send_parts algo (heap a)) ∷ []),
              )),
          refl,
        )
      ]

  article_reply-step :
      (r : Option (Bytes × ℕ)) (c c' : Connection)
      → IsIdle c
      → c.article ≡ some a
      → c.sent ≡ text_sent algo heap a log
      → completed_read algo heap article_reply r c ≡ some c'
      → PostStep algo heap a log c' []
  unfolding completed_read on_line on_read_error
  article_reply-step none c c' idle e sent h =
      tells c c' post_failure_connection_error (ground arith) (ground arith) (ground arith)
        (ground arith) (λ k. cc)
  article_reply-step (some (buffer, n)) c c' idle e sent h =
      elim (Bool-cases (first_byte (take n buffer) == b'2')) [
        | inl good ↦
            tells c c' post_success (ground arith) (ground arith) (ground arith) (ground arith)
              (λ k. ground arith)
        | inr bad ↦
            tells c c' post_failure (ground arith) (ground arith) (ground arith) (ground arith)
              (λ k. cc)
      ]

  -- The operation that completes is the one that is under way.
  pub commanding-step :
      (o : Op) (c c' : Connection)
      → (o ≡ writing post_cmd) ⊎ (o ≡ reading post_reply)
      → IsIdle c
      → c.article ≡ some a
      → c.sent ≡ command_sent algo heap a log
      → Completes algo heap o c c'
      → PostStep algo heap a log c' []
  commanding-step o c c' w idle e sent (resolved ok p q) = absurd (ground arith)
  commanding-step o c c' w idle e sent (opened ok p q) = absurd (ground arith)
  commanding-step o c c' w idle e sent (handshaken ok p q) = absurd (ground arith)
  commanding-step o c c' (inl k) idle e sent (written s ok h p q) =
      let same : h ≡ post_cmd = cc in rw (q, same) (post_cmd-step s ok c idle e sent)
  commanding-step o c c' (inr k) idle e sent (written s ok h p q) = absurd (cc)
  commanding-step o c c' (inl k) idle e sent (got h r p q) = absurd (cc)
  commanding-step o c c' (inr k) idle e sent (got h r p q) =
      let same : h ≡ post_reply = cc in post_reply-step r c c' idle e sent (rw same at q)

  pub texting-step :
      (o : Op) (c c' : Connection)
      → (o ≡ writing article_text) ⊎ (o ≡ reading article_reply)
      → IsIdle c
      → c.article ≡ some a
      → c.sent ≡ text_sent algo heap a log
      → Completes algo heap o c c'
      → PostStep algo heap a log c' []
  texting-step o c c' w idle e sent (resolved ok p q) = absurd (ground arith)
  texting-step o c c' w idle e sent (opened ok p q) = absurd (ground arith)
  texting-step o c c' w idle e sent (handshaken ok p q) = absurd (ground arith)
  texting-step o c c' (inl k) idle e sent (written s ok h p q) =
      let same : h ≡ article_text = cc in rw (q, same) (article_text-step s ok c idle e sent)
  texting-step o c c' (inr k) idle e sent (written s ok h p q) = absurd (cc)
  texting-step o c c' (inl k) idle e sent (got h r p q) = absurd (cc)
  texting-step o c c' (inr k) idle e sent (got h r p q) =
      let same : h ≡ article_reply = cc in article_reply-step r c c' idle e sent (rw same at q)

  pub run_post-step :
      (c : Connection)
      → IsIdle c
      → c.article ≡ some a
      → c.sent ≡ log
      → PostStep algo heap a log (run_task c run_post).0 (run_task c run_post).1
  unfolding run_task
  run_post-step c idle e sent = inl (
    commanding (writing post_cmd) (inl refl) (record { op = ground arith; no_task = ground arith })
        (ground arith) (ground arith),
    refl,
  )
