-- ===== src/Usenet/Order.antt =====
-- Runs of the steps of nntp/usenet.cc against a plain line: in which order the commands that the pool
-- accepts are started. A run leaves out the calls that wait and those that end in a fault.
pub mod Queueing
use mathlib.Core.List.{map-append}
use mathlib.Core.Path.{subst}
use post2usenet.Common.{
  ℕ, Bool, true, false, ◌&&◌, List, [], ◌∷◌, ◌++◌, map, append-nil, ◌≡◌, inl, inr, refl, sym, ap,
  ◌∙◌, arith,
}
use post2usenet.Usenet.{Usenet, Command, set_conn}
use post2usenet.Usenet.Ready.{IsAlert, Locked, Locked-IsAlert, nothing_queued}
use post2usenet.Usenet.Events.{reconnect}
use post2usenet.Usenet.Acts.{Acts, Effect, Acts-Effect}
use post2usenet.Usenet.Order.Queueing.{Line, Fifo, Fifo-trans}

-- A run of steps, with all the commands that its steps accept, in their order.
pub data Run : Usenet → List Command → Usenet → Type 0 where
  rest : (u : Usenet) → Run u [] u
  step :
      (u v w : Usenet) (new later : List Command)
      → Acts u v new
      → Run v later w
      → Run u (new ++ later) w

-- The commands that have been started.
abbrev pub started_commands : Usenet → List Command
started_commands u = map (λ (p : ℕ × Command). p.1) u.started

-- What the client sees of the pool: what it has started, and what it still queues.
abbrev pub line : Usenet → Line
line u = record { served = started_commands u; pending = u.queue }

pub started_commands-append :
    (u u' : Usenet) (it : ℕ) (cmd : Command)
    → u'.started ≡ u.started ++ (it, cmd) ∷ []
    → started_commands u' ≡ started_commands u ++ cmd ∷ []
started_commands-append u u' it cmd e =
    ap (map (λ (p : ℕ × Command). p.1)) e
    ∙ map-append (λ (p : ℕ × Command). p.1) u.started ((it, cmd) ∷ [])

Effect-Fifo :
    (u u' : Usenet) (new : List Command) → Effect u u' new → IsAlert u → Fifo (line u) new (line u')
Effect-Fifo u u' new (Effect.quiet n q s) alert =
    let still : line u' ≡ line u = cc in rw n (rw still (Fifo.idle (line u)))
Effect-Fifo u u' new (Effect.queued cmd n q s) alert =
    let longer : line u' ≡ record (line u) { pending = u.queue ++ cmd ∷ [] } = cc in
    rw n (rw longer (Fifo.submit _ _ cmd [] (Fifo.idle _)))
Effect-Fifo u u' new (Effect.served it cmd n q s) alert =
    let more = started_commands-append u u' it cmd s in
    let moved : line u' ≡ record { served = started_commands u ++ cmd ∷ []; pending = u'.queue } =
      cc in
    rw n (rw moved (Fifo.serve _ _ cmd u'.queue [] q (Fifo.idle _)))
Effect-Fifo u u' new (Effect.at_once it cmd others r n q s) alert =
    let more = started_commands-append u u' it cmd s in
    let none_queued = nothing_queued u it others alert r in
    let moved : line u' ≡ record { served = started_commands u ++ cmd ∷ []; pending = [] } = cc in
    let first : u.queue ++ cmd ∷ [] ≡ cmd ∷ [] = ap (λ cs. cs ++ cmd ∷ []) none_queued in
    rw n (rw moved (Fifo.submit _ _ cmd [] (Fifo.serve _ _ cmd [] [] first (Fifo.idle _))))

-- The steps whose place in the line is theirs: all but the end of a wait and the retry of a stat, which
-- queue without a look at m_ready.
abbrev pub looks : (u u' : Usenet) (new : List Command) → Acts u u' new → Bool
looks u u' new (Acts.waited cmd e n) = false
looks u u' new (Acts.retried slot shutdown_ok conn msgid e n) = false
looks u u' new _ = true

abbrev pub all_look : (u w : Usenet) (cs : List Command) → Run u cs w → Bool
all_look u w cs (Run.rest _) = true
all_look u w cs (Run.step _ v _ new later act run) = looks u v new act && all_look v w later run

Acts-IsAlert :
    (u u' : Usenet) (new : List Command) (act : Acts u u' new)
    → looks u u' new act ≡ true
    → IsAlert u
    → IsAlert u'
unfolding reconnect set_conn
Acts-IsAlert u u' new (Acts.posted msg bypass e n) l alert =
    Locked-IsAlert u u' (Locked.posted msg bypass e) alert
Acts-IsAlert u u' new (Acts.asked msgid e n) l alert =
    Locked-IsAlert u u' (Locked.asked msgid e) alert
Acts-IsAlert u u' new (Acts.waited cmd e n) l alert = ground arith
Acts-IsAlert u u' new (Acts.retried slot b conn msgid e n) l alert = ground arith
Acts-IsAlert u u' new (Acts.put_back cmd e n) l alert =
    Locked-IsAlert u u' (Locked.put_back cmd false e) alert
Acts-IsAlert u u' new (Acts.became_ready it e n) l alert =
    Locked-IsAlert u u' (Locked.became_ready it e) alert
Acts-IsAlert u u' new (Acts.discarded it e n) l alert =
    Locked-IsAlert u u' (Locked.discarded it e) alert
Acts-IsAlert u u' new (Acts.reconnected b it e n) l alert =
    subst (λ (v : Usenet). IsAlert v) e alert
Acts-IsAlert u u' new (Acts.added conninfo k e n) l alert =
    Locked-IsAlert u u' (Locked.added conninfo k e) alert

-- Posts, stats, connections that become ready, are given up, connect again or are added, and commands
-- that are put back, in any order, from a pool with no ready connection or an empty queue: what the
-- pool has started and what it queues is what a line comes to that takes the accepted commands at its
-- end, and starts them from its front.
pub Run-Fifo :
    (u w : Usenet) (cs : List Command) (run : Run u cs w)
    → IsAlert u
    → all_look u w cs run ≡ true
    → Fifo (line u) cs (line w)
Run-Fifo u w cs (Run.rest _) alert looking = Fifo.idle (line u)
Run-Fifo u w cs (Run.step _ v _ new later act run) alert looking =
    Fifo-trans (line u) (line v) (line w) new later
      (Effect-Fifo u v new (Acts-Effect u v new act) alert)
      (Run-Fifo v w later run (Acts-IsAlert u v new act (ground arith) alert) (ground arith))
