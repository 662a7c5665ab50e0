-- ===== src/Usenet/Kept.antt =====
-- Runs of the steps of nntp/usenet.cc: what becomes of a command once the pool has it.
use mathlib.Core.Path.{subst}
use mathlib.Core.List.{Permᴰ, Memᴰ}
use mathlib.Core.List.Permᴰ
use mathlib.Core.List.Memᴰ
use post2usenet.Common.{
  ℕ, suc, ◌<◌, List, [], ◌∷◌, ◌++◌, append-nil, append_assoc, ◌≡◌, inl, inr, refl, sym, ap, ◌∙◌,
  arith, length, List-cases,
}
use post2usenet.Common.Result.{ok}
use post2usenet.Usenet.{Usenet, Command, on_conn_becomes_ready}
use post2usenet.Usenet.Acts.{Acts, Effect, Acts-Effect, on_conn_becomes_ready-serves}
use post2usenet.Usenet.Order.{Run, started_commands, started_commands-append}

-- The commands that the pool has: those it has started, and those that it still queues.
abbrev pub commands : Usenet → List Command
commands u = started_commands u ++ u.queue

-- A command that is put before the queue, against one put behind it.
overtakes :
    (before after : List Command) (cmd : Command)
    → Permᴰ ((before ++ cmd ∷ []) ++ after) ((before ++ after) ++ cmd ∷ [])
overtakes before after cmd = rw (append_assoc before (cmd ∷ []) after) (
    rw (append_assoc before after (cmd ∷ []))
      (Permᴰ.append_left before (Permᴰ.append_comm (cmd ∷ []) after)))

Effect-commands :
    (u u' : Usenet) (new : List Command) → Effect u u' new → Permᴰ (commands u') (commands u ++ new)
Effect-commands u u' new (Effect.quiet n q s) =
    let end = append-nil (commands u) in
    let same : commands u' ≡ commands u ++ [] = cc in rw n (rw same (Permᴰ.refl _))
Effect-commands u u' new (Effect.queued cmd n q s) =
    let assoc = append_assoc (started_commands u) u.queue (cmd ∷ []) in
    let same : commands u' ≡ commands u ++ cmd ∷ [] = cc in rw n (rw same (Permᴰ.refl _))
Effect-commands u u' new (Effect.served it cmd n q s) =
    let more = started_commands-append u u' it cmd s in
    let assoc = append_assoc (started_commands u) (cmd ∷ []) u'.queue in
    let end = append-nil (commands u) in
    let same : commands u' ≡ commands u ++ [] = cc in rw n (rw same (Permᴰ.refl _))
Effect-commands u u' new (Effect.at_once it cmd others r n q s) =
    let more = started_commands-append u u' it cmd s in
    let same : commands u' ≡ (started_commands u ++ cmd ∷ []) ++ u.queue = cc in
    rw n (rw same (overtakes (started_commands u) u.queue cmd))

-- Whatever steps are taken, in whatever order: what the pool has started and what it queues is, but for
-- its order, what it had started and queued before with the commands that it has accepted since. So a
-- command is neither lost nor started twice.
pub Run-commands :
    (u w : Usenet) (cs : List Command) → Run u cs w → Permᴰ (commands w) (commands u ++ cs)
Run-commands u w cs (Run.rest _) = rw (append-nil (commands u)) (Permᴰ.refl (commands u))
Run-commands u w cs (Run.step _ v _ new later act run) =
    rw (sym (append_assoc (commands u) new later)) (
      Permᴰ.trans (Run-commands v w later run)
        (Permᴰ.append_right later (Effect-commands u v new (Acts-Effect u v new act))))

-- How often a connection becomes ready: one more for such a step.
abbrev pub one_more : (u u' : Usenet) (new : List Command) → Acts u u' new → ℕ → ℕ
one_more u u' new (Acts.became_ready it e eq) n = suc n
one_more u u' new _ n = n

abbrev pub ready_steps : (u w : Usenet) (cs : List Command) → Run u cs w → ℕ
ready_steps u w cs (Run.rest _) = 0
ready_steps u w cs (Run.step _ v _ new later act run) =
    one_more u v new act (ready_steps v w later run)

-- A command that has been started, or that fewer than n others wait before.
data Awaits (u : Usenet) (cmd : Command) (n : ℕ) : Type 0 where
  begun : (it : ℕ) → Memᴰ (it, cmd) u.started → Awaits u cmd n
  queued :
      (before after : List Command)
      → u.queue ≡ before ++ cmd ∷ after
      → length before < n
      → Awaits u cmd n

begun_still :
    (u u' : Usenet) (it : ℕ) (cmd : Command) (more : List (ℕ × Command))
    → u'.started ≡ u.started ++ more
    → Memᴰ (it, cmd) u.started
    → Memᴰ (it, cmd) u'.started
begun_still u u' it cmd more e m = rw e (Memᴰ.append_left more m)

just_begun :
    (u u' : Usenet) (it : ℕ) (cmd : Command)
    → u'.started ≡ u.started ++ (it, cmd) ∷ []
    → Memᴰ (it, cmd) u'.started
just_begun u u' it cmd e = rw e (Memᴰ.append_right u.started (Memᴰ.head refl))

-- The first of the queue is started.
served-Awaits :
    (u u' : Usenet) (it : ℕ) (first cmd : Command) (n : ℕ)
    → u.queue ≡ first ∷ u'.queue
    → u'.started ≡ u.started ++ (it, first) ∷ []
    → Awaits u cmd (suc n)
    → Awaits u' cmd n
served-Awaits u u' it first cmd n q s (begun on m) = begun on (begun_still u u' on cmd _ s m)
served-Awaits u u' it first cmd n q s (queued [] after e l) =
    let same : first ≡ cmd = ground arith in
    begun it (subst (λ c. Memᴰ (it, c) u'.started) same (just_begun u u' it first s))
served-Awaits u u' it first cmd n q s (queued (x ∷ before) after e l) =
    queued before after (ground arith) (ground arith)

weaken : (u : Usenet) (cmd : Command) (n : ℕ) → Awaits u cmd n → Awaits u cmd (suc n)
weaken u cmd n (begun it m) = begun it m
weaken u cmd n (queued before after e l) = queued before after e (ground arith)

Effect-Awaits :
    (u u' : Usenet) (new : List Command) (cmd : Command) (n : ℕ)
    → Effect u u' new
    → Awaits u cmd n
    → Awaits u' cmd n
Effect-Awaits u u' new cmd n (Effect.quiet _ q s) (begun it m) = begun it (rw s m)
Effect-Awaits u u' new cmd n (Effect.quiet _ q s) (queued before after e l) =
    queued before after (q ∙ e) l
Effect-Awaits u u' new cmd n (Effect.queued _ _ q s) (begun it m) = begun it (rw s m)
Effect-Awaits u u' new cmd n (Effect.queued c _ q s) (queued before after e l) =
    queued before (after ++ c ∷ [])
      (q ∙ ap (λ cs. cs ++ c ∷ []) e ∙ append_assoc before (cmd ∷ after) (c ∷ [])) l
Effect-Awaits u u' new cmd n (Effect.served it c _ q s) waiting =
    served-Awaits u u' it c cmd n q s (weaken u cmd n waiting)
Effect-Awaits u u' new cmd n (Effect.at_once it c others r _ q s) (begun on m) =
    begun on (begun_still u u' on cmd _ s m)
Effect-Awaits u u' new cmd n (Effect.at_once it c others r _ q s) (queued before after e l) =
    queued before after (q ∙ e) l

nonempty : (before after : List Command) (cmd : Command) → ¬ (before ++ cmd ∷ after ≡ [])
nonempty [] after cmd e = ground arith
nonempty (x ∷ before) after cmd e = ground arith

became_ready-Awaits :
    (u u' : Usenet) (it : ℕ) (cmd : Command) (n : ℕ)
    → on_conn_becomes_ready u it ≡ ok u'
    → Awaits u cmd (suc n)
    → Awaits u' cmd n
became_ready-Awaits u u' it cmd n e waiting = elim (List-cases u.queue) [
  | inl none_queued ↦ elim waiting [
    | begun on m ↦
        Effect-Awaits u u' [] cmd n (Acts-Effect u u' [] (Acts.became_ready it e refl)) (begun on m)
    | queued before after queue l ↦ absurd (nonempty before after cmd (sym queue ∙ none_queued))
  ]
  | inr (first, left, queue) ↦
      let (q, s) = on_conn_becomes_ready-serves u u' it first left queue e in
      served-Awaits u u' it first cmd n (queue ∙ ap (λ cs. first ∷ cs) (sym q)) s waiting
]

Acts-Awaits :
    (u u' : Usenet) (new : List Command) (cmd : Command) (n : ℕ) (act : Acts u u' new)
    → Awaits u cmd (one_more u u' new act n)
    → Awaits u' cmd n
Acts-Awaits u u' new cmd n (Acts.posted msg bypass e eq) waiting =
    Effect-Awaits u u' new cmd n (Acts-Effect u u' new (Acts.posted msg bypass e eq)) waiting
Acts-Awaits u u' new cmd n (Acts.asked msgid e eq) waiting =
    Effect-Awaits u u' new cmd n (Acts-Effect u u' new (Acts.asked msgid e eq)) waiting
Acts-Awaits u u' new cmd n (Acts.waited c e eq) waiting =
    Effect-Awaits u u' new cmd n (Acts-Effect u u' new (Acts.waited c e eq)) waiting
Acts-Awaits u u' new cmd n (Acts.retried slot b conn msgid e eq) waiting =
    Effect-Awaits u u' new cmd n (Acts-Effect u u' new (Acts.retried slot b conn msgid e eq))
      waiting
Acts-Awaits u u' new cmd n (Acts.put_back c e eq) waiting =
    Effect-Awaits u u' new cmd n (Acts-Effect u u' new (Acts.put_back c e eq)) waiting
Acts-Awaits u u' new cmd n (Acts.became_ready it e eq) waiting =
    became_ready-Awaits u u' it cmd n e waiting
Acts-Awaits u u' new cmd n (Acts.discarded it e eq) waiting =
    Effect-Awaits u u' new cmd n (Acts-Effect u u' new (Acts.discarded it e eq)) waiting
Acts-Awaits u u' new cmd n (Acts.reconnected b it e eq) waiting =
    Effect-Awaits u u' new cmd n (Acts-Effect u u' new (Acts.reconnected b it e eq)) waiting
Acts-Awaits u u' new cmd n (Acts.added conninfo k e eq) waiting =
    Effect-Awaits u u' new cmd n (Acts-Effect u u' new (Acts.added conninfo k e eq)) waiting

Run-Awaits :
    (u w : Usenet) (cs : List Command) (run : Run u cs w) (cmd : Command)
    → Awaits u cmd (ready_steps u w cs run)
    → Awaits w cmd 0
Run-Awaits u w cs (Run.rest _) cmd waiting = waiting
Run-Awaits u w cs (Run.step _ v _ new later act run) cmd waiting =
    Run-Awaits v w later run cmd (Acts-Awaits u v new cmd (ready_steps v w later run) act waiting)

-- A command with n others before it in the queue has been started once connections have become ready
-- more than n times, whatever else has happened.
pub queued-started :
    (u w : Usenet) (cs : List Command) (run : Run u cs w) (before after : List Command)
    (cmd : Command)
    → u.queue ≡ before ++ cmd ∷ after
    → length before < ready_steps u w cs run
    → (it : ℕ) × Memᴰ (it, cmd) w.started
queued-started u w cs run before after cmd queue often =
    elim (Run-Awaits u w cs run cmd (queued before after queue often)) [
      | begun it m ↦ (it, m)
      | queued _ _ _ l ↦ absurd (ground arith)
    ]
