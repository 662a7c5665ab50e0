-- ===== src/Tests/Pool.antt =====
-- The theorem on nntp/usenet.cc over its connections at a connection that cannot be opened.
use post2usenet.Common.{ℕ, true, false, [], ◌∷◌}
use post2usenet.Common.Result.{Result}
use post2usenet.Connection.{Connection, do_connect}
use post2usenet.Connection.Complete.{completed_resolve}
use post2usenet.Usenet.{
  Usenet, Fault, start_post, make_usenet, set_conn, enqueue_post, add_connections, start,
}
use post2usenet.Pool.{Slots, no_slots, set_post_failed_callback, posted, outcome}
use post2usenet.Tests.Data.{news_server}
use post2usenet.Tests.Connection.{idle_connection}

-- A failed post is queued again.
abbrev try_again : ℕ → Usenet → Result Fault Usenet
try_again msg u = outcome u (enqueue_post u msg true)

abbrev test_slots : Slots
test_slots = set_post_failed_callback no_slots try_again

abbrev made : Usenet
made = make_usenet (λ it. idle_connection) 1 5

abbrev running : Usenet
running = add_connections (start made) news_server 1

abbrev waiting : Usenet
waiting = record running { queue = start_post 7 ∷ [] }

abbrev connecting : Connection
connecting = do_connect (record (waiting.conns 0) { posted = [] })

abbrev resolving_pool : Usenet
resolving_pool = set_conn waiting 0 connecting

abbrev failed : Connection
failed = completed_resolve false (record connecting { pending = [] })

abbrev failing_pool : Usenet
failing_pool = set_conn resolving_pool 0 failed

abbrev told_of : Connection
told_of = record failed { posted = [] }
