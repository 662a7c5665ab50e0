-- ===== src/Connection/Answers.antt =====
-- The requests that a connection of nntp/connection.cc takes, and the answers that it gives.
use post2usenet.Common.{
  ℕ, ◌+◌, Bool, true, false, List, [], ◌∷◌, ◌++◌, ◌≡◌, ◌≢◌, ◌⊎◌, inl, inr, refl, sym, ap, arith,
  Bytes, some,
}
use post2usenet.Boost.{StringAlgorithms}
use post2usenet.Connection.{
  Connection, Heap, writing, quit_cmd, Task, run_connect, run_post, run_stat,
}
use post2usenet.Connection.Complete.{fire_timer}
use post2usenet.Connection.{
  State, disconnected, connecting, connecting_authenticating, connected_and_authenticated, busy,
  async_connect, async_post, async_stat, async_graceful_disconnect, close,
}
use post2usenet.Connection.Dialogue.{
  Item, op, task, Kind, connects, posts, stats, quits, kind, Follows, Grown, connect_resolve,
  resolve_open, open_handshake, open_greet, handshake_greet, greet_user, user_answer, user_pass,
  pass_answer, post_command, post_answer, post_text, text_answer, stat_command, stat_answer,
  connect_told, post_told, stat_told,
}
use post2usenet.Connection.Step.{
  Serves, Asks, History, connect_grant, fires, connect, post, post_refused, stat, quit, closes,
  here, asked, served,
}
use post2usenet.Connection.Progress.{
  weigh_ops, weigh_tasks, weigh_tasks-append, weigh, weigh-Grown, Ends, quit_end, connect_end,
  post_end, stat_end, Serves-Progress,
}

-- 1 for the items of a kind.
abbrev pub same_kind : Kind → Kind → ℕ
same_kind connects connects = 1
same_kind posts posts = 1
same_kind stats stats = 1
same_kind quits quits = 1
same_kind _ _ = 0

abbrev pub of_kind : Kind → Item → ℕ
of_kind k i = same_kind k (kind i)

-- The requests of a kind that are still to be answered.
pub owed : Kind → Connection → ℕ
owed k c = weigh (of_kind k) c

-- The answers of a kind among what is told, and the requests of a kind among what is granted.
pub answers : Kind → List Task → ℕ
answers k told = weigh_tasks (of_kind k) told

pub requests : Kind → List Kind → ℕ
requests k [] = 0
requests k (g ∷ granted) = same_kind k g + requests k granted

pub Follows-kind : {i j : Item} → Follows i j → kind j ≡ kind i
unfolding kind
Follows-kind connect_resolve = refl
Follows-kind resolve_open = refl
Follows-kind open_handshake = refl
Follows-kind open_greet = refl
Follows-kind handshake_greet = refl
Follows-kind greet_user = refl
Follows-kind user_answer = refl
Follows-kind user_pass = refl
Follows-kind pass_answer = refl
Follows-kind post_command = refl
Follows-kind post_answer = refl
Follows-kind post_text = refl
Follows-kind text_answer = refl
Follows-kind stat_command = refl
Follows-kind stat_answer = refl
Follows-kind (connect_told o r e) = sym e
Follows-kind (post_told o a r e) = sym e
Follows-kind (stat_told o m r e) = sym e

no_quit : (k : Kind) → k ≢ quits → same_kind k quits ≡ 0
no_quit connects n = refl
no_quit posts n = refl
no_quit stats n = refl
no_quit quits n = absurd (n refl)

quit_weight : (k : Kind) → k ≢ quits → of_kind k (op (writing quit_cmd)) ≡ 0
unfolding kind
quit_weight k n = no_quit k n

Ends-answers :
    (k : Kind) (i : Item) (told : List Task)
    → k ≢ quits
    → Ends i told
    → answers k told ≡ of_kind k i
unfolding answers kind
Ends-answers k i told n quit_end = sym (no_quit k n)
Ends-answers k i told n (connect_end r) = omega arith
Ends-answers k i told n (post_end a r) = omega arith
Ends-answers k i told n (stat_end m r) = omega arith

answers_none : (k : Kind) → answers k [] ≡ 0
unfolding answers
answers_none k = refl

-- A step of the io_service answers what it takes off what is owed, and nothing else.
pub Serves-owed :
    (algo : StringAlgorithms) (heap : Heap) (k : Kind) (c c' : Connection) (told : List Task)
    → k ≢ quits
    → Serves algo heap c c' told
    → owed k c' + answers k told ≡ owed k c
unfolding owed
Serves-owed algo heap k c c' told n st =
    let (i, c0, taken, progress) = Serves-Progress algo heap c c' told st in
    elim progress [
      | inl (led, quiet) ↦
          let (j, follows, grown) = led in
          omega (
            arith,
            taken.weighs (of_kind k),
            weigh-Grown (of_kind k) c0 c' j grown,
            ap (same_kind k) (Follows-kind follows),
            ap (answers k) quiet,
            answers_none k,
          )
      | inr (p, q, ends) ↦ omega (
        arith,
        taken.weighs (of_kind k),
        ap (weigh_ops (of_kind k)) p,
        ap (weigh_tasks (of_kind k)) q,
        Ends-answers k i told n ends,
      )
    ]

requests-append :
    (k : Kind) (xs ys : List Kind) → requests k (xs ++ ys) ≡ requests k xs + requests k ys
unfolding requests
requests-append k [] ys = omega arith
requests-append k (x ∷ xs) ys = omega (arith, requests-append k xs ys)

answers-append : (k : Kind) (xs ys : List Task) → answers k (xs ++ ys) ≡ answers k xs + answers k ys
unfolding answers
answers-append k xs ys = weigh_tasks-append (of_kind k) xs ys

-- What a call of the owner adds: nothing, or the first item of a request.
abbrev Calls : Connection → Connection → List Kind → Type 0
Calls c c' granted =
    ((c'.pending ≡ c.pending) × (c'.posted ≡ c.posted) × (granted ≡ []))
    ⊎ ((i : Item) × Grown c c' i × (granted ≡ kind i ∷ []))
    ⊎ (Grown c c' (op (writing quit_cmd)) × (granted ≡ []))

async_connect-Calls : (c : Connection) → Calls c (async_connect c) (connect_grant c)
unfolding async_connect kind
async_connect-Calls c = on_state c.state refl
  where
    on_state : (s : State) → c.state ≡ s → Calls c (async_connect c) (connect_grant c)
    on_state disconnected e = inr (inl (task run_connect, ground arith, ground arith))
    on_state connecting e = inl (ground arith, ground arith, ground arith)
    on_state connecting_authenticating e = inl (ground arith, ground arith, ground arith)
    on_state connected_and_authenticated e = inl (ground arith, ground arith, ground arith)
    on_state busy e = inl (ground arith, ground arith, ground arith)

post-Calls : (c c' : Connection) (a : ℕ) → async_post c a ≡ (c', true) → Calls c c' (posts ∷ [])
unfolding async_post kind
post-Calls c c' a e = inr (inl (task run_post, ground arith, refl))

post_refused-Calls : (c c' : Connection) (a : ℕ) → async_post c a ≡ (c', false) → Calls c c' []
unfolding async_post
post_refused-Calls c c' a e = inl (ground arith, ground arith, refl)

stat-Calls : (c c' : Connection) (m : Bytes) → async_stat c m ≡ some c' → Calls c c' (stats ∷ [])
unfolding async_stat kind
stat-Calls c c' m e = inr (inl (task run_stat, ground arith, refl))

quit-Calls : (c c' : Connection) → async_graceful_disconnect c ≡ some c' → Calls c c' []
unfolding async_graceful_disconnect
quit-Calls c c' e = inr (inr (ground arith, refl))

close-Calls : (c : Connection) (shutdown_ok : Bool) → Calls c (close shutdown_ok c) []
unfolding close
close-Calls c shutdown_ok = inl (ground arith, ground arith, refl)

fires-Calls : (c c' : Connection) → fire_timer c ≡ some c' → Calls c c' []
unfolding fire_timer
fires-Calls c c' e = inl (ground arith, ground arith, refl)

Asks-Calls : (c c' : Connection) (granted : List Kind) → Asks c c' granted → Calls c c' granted
Asks-Calls c c' granted (fires t e g) = rw g (fires-Calls c c' e)
Asks-Calls c c' granted (connect e g) = rw (e, g) (async_connect-Calls c)
Asks-Calls c c' granted (post a e g) = rw g (post-Calls c c' a e)
Asks-Calls c c' granted (post_refused a e g) = rw g (post_refused-Calls c c' a e)
Asks-Calls c c' granted (stat m e g) = rw g (stat-Calls c c' m e)
Asks-Calls c c' granted (quit e g) = rw g (quit-Calls c c' e)
Asks-Calls c c' granted (closes s e g) = rw (e, g) (close-Calls c s)

Calls-owed :
    (k : Kind) (c c' : Connection) (granted : List Kind)
    → k ≢ quits
    → Calls c c' granted
    → owed k c' ≡ owed k c + requests k granted
unfolding owed requests
Calls-owed k c c' granted n (inl (p, q, g)) =
    rw g (omega (arith, ap (weigh_ops (of_kind k)) p, ap (weigh_tasks (of_kind k)) q))
Calls-owed k c c' granted n (inr (inl (i, grown, g))) =
    rw g (omega (arith, weigh-Grown (of_kind k) c c' i grown))
Calls-owed k c c' granted n (inr (inr (grown, g))) =
    rw g
      (omega (arith, weigh-Grown (of_kind k) c c' (op (writing quit_cmd)) grown, quit_weight k n))

-- In every history of the connection, whatever the owner calls, whatever the network does and in
-- whatever order, the requests to connect, to post and to stat that have been granted are those that
-- have been answered and those that are still under way.
pub History-owed :
    (algo : StringAlgorithms) (heap : Heap) (k : Kind) (c c' : Connection) (granted : List Kind)
    (told : List Task)
    → k ≢ quits
    → History algo heap c c' granted told
    → owed k c' + answers k told ≡ owed k c + requests k granted
unfolding requests
History-owed algo heap k c c' granted told n here = omega (arith, answers_none k)
History-owed algo heap k c c' granted told n (asked {c' = m} {granted = g} {more = g'} h a) =
    omega (
      arith,
      History-owed algo heap k c m g told n h,
      Calls-owed k m c' g' n (Asks-Calls m c' g' a),
      requests-append k g g',
    )
History-owed algo heap k c c' granted told n (served {c' = m} {told = t} {more = t'} h s) = omega (
  arith,
  History-owed algo heap k c m granted t n h,
  Serves-owed algo heap k m c' t' n s,
  answers-append k t t',
)
