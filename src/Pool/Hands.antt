-- ===== src/Pool/Hands.antt =====
-- How nntp/usenet.cc hands commands to its connections, and takes connections out of its lists.
use mathlib.Core.Path.{subst₂}
use post2usenet.Common.{
  ℕ, ◌+◌, ◌≤◌, ◌<◌, false, List, [], ◌∷◌, ◌++◌, ◌≡◌, inl, inr, refl, sym, ap, arith, Bytes, none,
  some, ◌==◌, Bool-cases, ltb,
}
use post2usenet.Common.Result.{ok, err}
use post2usenet.Boost.{StringAlgorithms}
use post2usenet.Connection.{
  Connection, Heap, run_stat, connected_and_authenticated, async_post, async_stat,
}
use post2usenet.Connection.Dialogue.{task, kind}
use post2usenet.Connection.Posting.{IsIdle, requested}
use post2usenet.Usenet.{
  Usenet, assertion_failed, Command, start_post, start_stat, set_conn, start_async_post,
  start_async_stat, update, run_command, dispatch,
}
use post2usenet.Usenet.Lists.{tally, Keeps-same, dispatch-Keeps}
use post2usenet.Usenet.Split.{IsSplit, Keeps-IsSplit}
use post2usenet.Pool.Busy.{IsBusy, talking, posting}
use post2usenet.Pool.Sound.{Handling, Other, Holding, Fits, Sound, Safe, safe, release-Sound}

same-Holding :
    (h : Handling) (u u' : Usenet)
    → u'.busy ≡ u.busy
    → u'.conns ≡ u.conns
    → Holding h u
    → Holding h u'
unfolding tally
same-Holding none u u' b c holding = tt
same-Holding (some (it, x)) u u' b c holding = (rw b holding.0, rw c holding.1)

made_in :
    (u : Usenet) (it : ℕ) → IsSplit u → 1 ≤ tally it u.ready + tally it u.busy → it < u.next_conn
made_in u it split there = elim (Bool-cases (ltb it u.next_conn)) [
  | inl below ↦ ground arith
  | inr above ↦
      let high : u.next_conn ≤ it = ground arith in absurd (omega (arith, split.fresh it high))
]

module _ (algo : StringAlgorithms) (heap : Heap) where
  -- A command that has been run.
  pub record Runs (u : Usenet) (it : ℕ) (cmd : Command) : Type 0 where
    pub now : Connection
    pub busy : IsBusy algo heap now
    pub is :
        run_command u it cmd
        ≡ ok (set_conn (record u { started = u.started ++ (it, cmd) ∷ [] }) it now)

  -- A connection that is authenticated and has nothing under way takes any command.
  taken_post-IsBusy :
      (c : Connection) (msg : ℕ)
      → IsIdle c
      → c.state ≡ connected_and_authenticated
      → IsBusy algo heap (async_post c msg).0
  unfolding async_post
  taken_post-IsBusy c msg idle ready = posting msg c.sent (
      requested (record { no_op = ground (arith, idle.no_op); task = ground (arith, idle.no_task) })
        (ground arith) (ground arith))

  taken_stat-IsBusy :
      (c : Connection) (msgid : Bytes)
      → IsIdle c
      → c.state ≡ connected_and_authenticated
      → (c' : Connection) × (async_stat c msgid ≡ some c') × IsBusy algo heap c'
  unfolding async_stat kind
  taken_stat-IsBusy c msgid idle ready = (
    record c { msgid = msgid; posted = c.posted ++ run_stat ∷ [] },
    rw ready refl,
    talking (task run_stat) (λ k. cc) (λ k. cc)
        (record { no_op = idle.no_op; task = rw idle.no_task refl })
        (record { connect = λ k. absurd (ground arith); stat = λ m r k. absurd (ground arith) }),
  )

  pub run_command-Runs :
      (u : Usenet) (it : ℕ) (cmd : Command)
      → IsIdle (u.conns it)
      → (u.conns it).state ≡ connected_and_authenticated
      → Runs u it cmd
  unfolding run_command start_async_post start_async_stat
  run_command-Runs u it (start_post msg) idle ready = record {
    now = (async_post (u.conns it) msg).0;
    busy = taken_post-IsBusy (u.conns it) msg idle ready;
    is = refl;
  }
  run_command-Runs u it (start_stat msgid) idle ready =
      let (c, e, busy) = taken_stat-IsBusy (u.conns it) msgid idle ready in
      let noted = record u { started = u.started ++ (it, start_stat msgid) ∷ [] } in
      record {
        now = c;
        busy = busy;
        is = ap (λ o. elim o [ none ↦ err assertion_failed | some x ↦ ok (set_conn noted it x) ]) e;
      }

  pub same-Sound :
      (h : Handling) (u u' : Usenet)
      → u'.ready ≡ u.ready
      → u'.busy ≡ u.busy
      → u'.conns ≡ u.conns
      → u'.next_conn ≡ u.next_conn
      → Sound algo heap h u
      → Sound algo heap h u'
  same-Sound h u u' r b c n sound = record {
    split = Keeps-IsSplit u u' (Keeps-same u u' r b n) sound.split;
    fits = λ j made other. rw (c, r, b) (sound.fits j (rw n at made) other);
    holding = same-Holding h u u' b c sound.holding;
  }

  -- The connection whose handler is running is given a command.
  pub run_command-Safe :
      (u : Usenet) (it : ℕ) (c : Connection) (cmd : Command)
      → Sound algo heap (some (it, c)) u
      → IsIdle c
      → c.state ≡ connected_and_authenticated
      → Safe algo heap none (run_command u it cmd)
  run_command-Safe u it c cmd sound idle ready =
      let is : u.conns it ≡ c = sound.holding.1 in
      let runs = run_command-Runs u it cmd (rw is idle) (rw is ready) in
      let noted = record u { started = u.started ++ (it, cmd) ∷ [] } in
      safe _ runs.is (
        release-Sound algo heap noted it c runs.now
          (same-Sound (some (it, c)) u noted refl refl refl refl sound) runs.busy)

  held-Other :
      (h : Handling) (u : Usenet) (it : ℕ)
      → IsSplit u
      → 1 ≤ tally it u.ready
      → Holding h u
      → Other h it
  held-Other none u it split there holding = tt
  held-Other (some (k, c)) u it split there holding = λ e.
      let in_ready : 1 ≤ tally k u.ready = rw (sym e) there in
      absurd (omega (arith, split.once k, holding.0))

  dispatched-Holding :
      (h : Handling) (u u' : Usenet) (it : ℕ) (now : Connection)
      → Other h it
      → u'.busy ≡ it ∷ u.busy
      → u'.conns ≡ update u.conns it now
      → Holding h u
      → Holding h u'
  unfolding tally update
  dispatched-Holding none u u' it now other b c holding = tt
  dispatched-Holding (some (k, x)) u u' it now other b c holding =
      let differs : (k == it) ≡ false = ground arith in
      (rw b (omega (arith, holding.0)), rw (c, differs) holding.1)

  -- A ready connection is given a command.
  pub dispatch-Safe :
      (h : Handling) (u : Usenet) (it : ℕ) (rest : List ℕ) (cmd : Command)
      → Sound algo heap h u
      → u.ready ≡ it ∷ rest
      → Safe algo heap h (dispatch u it rest cmd)
  unfolding dispatch tally set_conn update
  dispatch-Safe h u it rest cmd sound at =
      let there : 1 ≤ tally it u.ready = rw at (ground arith) in
      let made : it < u.next_conn = made_in u it sound.split (omega arith) in
      let counts : tally it u.ready ≡ 1 + tally it rest = rw at (ground arith) in
      let other = held-Other h u it sound.split there sound.holding in
      let fit = sound.fits it made other in
      let (idle, ready) = fit.at_rest there in
      let moved = record u { ready = rest; busy = it ∷ u.busy } in
      let runs = run_command-Runs moved it cmd idle ready in
      let split' = Keeps-IsSplit u _ (dispatch-Keeps u _ it rest cmd at runs.is) sound.split in
      safe _ runs.is (record {
        split = split';
        fits = λ j made' other'. elim (Bool-cases (j == it)) [
          | inl same ↦
              let e : j ≡ it = ground arith in
              rw (same, e)
                (record {
                  at_rest = λ r. absurd (omega (arith, sound.split.once it, counts));
                  at_work = λ b. runs.busy;
                  given_up = λ z. absurd (ground (arith, z));
                })
          | inr differs ↦
              let in_ready : tally j u.ready ≡ tally j rest = rw at (ground arith) in
              let in_busy : tally j u.busy ≡ tally j (it ∷ u.busy) = ground arith in
              rw differs (
                subst₂ (λ r b. Fits algo heap (u.conns j) r b) in_ready in_busy
                  (sound.fits j made' other'))
        ];
        holding = dispatched-Holding h u _ it runs.now other refl refl sound.holding;
      })
