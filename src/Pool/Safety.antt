-- ===== src/Pool/Safety.antt =====
-- What nntp/usenet.cc does when its connections, nntp/connection.cc, report to it, and all its steps.
use mathlib.Core.Path.{subst}
use post2usenet.Common.{
  ℕ, ◌≤◌, ◌<◌, Bool, false, List, [], ◌∷◌, ◌++◌, ◌≡◌, ◌≢◌, inl, inr, refl, sym, ◌∙◌, arith, Bytes,
  Option, none, some, Bool-cases, ltb,
}
use post2usenet.Common.Result.{Result, ◌>>=◌}
use post2usenet.Boost.{StringAlgorithms}
use post2usenet.Connection.{
  Connection, Heap, Op, Reader, reading, Task, ConnectResult, fatal_connect_error,
  invalid_credentials, connect_success, PostResult, post_success, posting_not_permitted,
  post_failure, post_failure_connection_error, StatResult, article_exists, invalid_article,
  connection_error, connected_and_authenticated, close,
}
use post2usenet.Connection.Complete.{completed_read}
use post2usenet.Connection.Step.{Serves}
use post2usenet.Connection.Posting.{IsIdle}
use post2usenet.Connection.Posted.{IsIdle-stays}
use post2usenet.Usenet.{
  Usenet, Fault, start_post, start_stat, set_conn, on_conn_becomes_ready, dispatch_or_queue,
  discard_connection,
}
use post2usenet.Usenet.Events.{
  call_slot, on_connected, on_stat_finished, on_post_finished, reconnect,
}
use post2usenet.Usenet.Lists.{tally}
use post2usenet.Pool.{Slots, tell}
use post2usenet.Pool.Busy.{
  goes_on, ends, IsBusy-BusyStep, nothing_pending, IsBusy-has_article, Says, of_connect, of_post,
  of_stat,
}
use post2usenet.Pool.Sound.{
  Handling, Sound, Safe, safe, bind-Safe, put-Sound, hold-Sound, busy-Fits,
}
use post2usenet.Pool.Queues.{queued-Sound, dispatch_or_queue-Safe}
use post2usenet.Pool.Parks.{on_conn_becomes_ready-Safe}
use post2usenet.Pool.Leaves.{discard_connection-Safe, reconnect-Sound}

module _ (algo : StringAlgorithms) (heap : Heap) where
  -- A slot that leaves the pool sound, whichever handler calls it, and leaves the connection of that
  -- handler alone.
  abbrev pub SlotSafe {ℓ} : {A : Type ℓ} → Option (A → Usenet → Result Fault Usenet) → Type ℓ
  SlotSafe {A = A} slot =
      (a : A) (h : Handling) (u : Usenet)
      → Sound algo heap h u
      → Safe algo heap h (call_slot slot a u)

  on_connected-Safe :
      (u : Usenet) (it : ℕ) (c : Connection) (r : ConnectResult)
      → Sound algo heap (some (it, c)) u
      → IsIdle c
      → (r ≡ connect_success → c.state ≡ connected_and_authenticated)
      → Safe algo heap none (on_connected u it r)
  unfolding on_connected
  on_connected-Safe u it c fatal_connect_error sound idle ready =
      discard_connection-Safe algo heap u it c sound idle
  on_connected-Safe u it c invalid_credentials sound idle ready =
      discard_connection-Safe algo heap u it c sound idle
  on_connected-Safe u it c connect_success sound idle ready =
      on_conn_becomes_ready-Safe algo heap u it c sound idle (ready refl)

  -- The connection is ready for the next command, and then the client is told.
  ready_then-Safe :
      {A : Type 0} (slot : Option (A → Usenet → Result Fault Usenet)) (a : A) (u : Usenet) (it : ℕ)
      (c : Connection)
      → SlotSafe slot
      → Sound algo heap (some (it, c)) u
      → IsIdle c
      → c.state ≡ connected_and_authenticated
      → Safe algo heap none (on_conn_becomes_ready u it >>= λ v. call_slot slot a v)
  ready_then-Safe slot a u it c keeps sound idle ready =
      bind-Safe algo heap none none (on_conn_becomes_ready u it) (λ v. call_slot slot a v)
        (on_conn_becomes_ready-Safe algo heap u it c sound idle ready) (λ v. keeps a none v)

  on_stat_finished-Safe :
      (slot : Option (Bytes × StatResult → Usenet → Result Fault Usenet)) (shutdown_ok : Bool)
      (u : Usenet) (it : ℕ) (c : Connection) (m : Bytes) (r : StatResult)
      → SlotSafe slot
      → Sound algo heap (some (it, c)) u
      → IsIdle c
      → c.state ≡ connected_and_authenticated
      → Safe algo heap none (on_stat_finished slot shutdown_ok u it m r)
  unfolding on_stat_finished
  on_stat_finished-Safe slot b u it c m connection_error keeps sound idle ready =
      let queue = u.queue ++ start_stat m ∷ [] in
      safe _ refl (
        reconnect-Sound algo heap b (record u { queue = queue }) it c
          (queued-Sound algo heap (some (it, c)) u queue sound) idle)
  on_stat_finished-Safe slot b u it c m article_exists keeps sound idle ready =
      ready_then-Safe slot (m, article_exists) u it c keeps sound idle ready
  on_stat_finished-Safe slot b u it c m invalid_article keeps sound idle ready =
      ready_then-Safe slot (m, invalid_article) u it c keeps sound idle ready

  closed-IsIdle : (b : Bool) (c : Connection) → IsIdle c → IsIdle (close b c)
  unfolding close
  closed-IsIdle b c idle = record {
    no_op = ground (arith, idle.no_op);
    no_task = ground (arith, idle.no_task);
  }

  on_post_finished-Safe :
      (finish_slot failed_slot : Option (ℕ → Usenet → Result Fault Usenet)) (shutdown_ok : Bool)
      (u : Usenet) (it : ℕ) (c : Connection) (a : ℕ) (r : PostResult)
      → SlotSafe finish_slot
      → SlotSafe failed_slot
      → Sound algo heap (some (it, c)) u
      → IsIdle c
      → c.state ≡ connected_and_authenticated
      → Safe algo heap none (on_post_finished finish_slot failed_slot shutdown_ok u it a r)
  unfolding on_post_finished
  on_post_finished-Safe fs ds b u it c a post_success keeps keeps' sound idle ready =
      ready_then-Safe fs a u it c keeps sound idle ready
  on_post_finished-Safe fs ds b u it c a posting_not_permitted keeps keeps' sound idle ready =
      let is : u.conns it ≡ c = sound.holding.1 in
      let shut = close b (u.conns it) in
      bind-Safe algo heap none none (discard_connection (set_conn u it shut) it)
        (λ v. dispatch_or_queue v (start_post a) false)
        (discard_connection-Safe algo heap (set_conn u it shut) it shut
          (hold-Sound algo heap u it shut sound.split sound.fits sound.holding.0)
          (closed-IsIdle b (u.conns it) (rw is idle)))
        (λ v sound'. dispatch_or_queue-Safe algo heap none v (start_post a) false sound')
  on_post_finished-Safe fs ds b u it c a post_failure keeps keeps' sound idle ready =
      bind-Safe algo heap (some (it, c)) none (call_slot ds a u) (λ v. on_conn_becomes_ready v it)
        (keeps' a (some (it, c)) u sound)
        (λ v sound'. on_conn_becomes_ready-Safe algo heap v it c sound' idle ready)
  on_post_finished-Safe fs ds b u it c a post_failure_connection_error keeps keeps' sound idle
        ready =
      keeps' a none (reconnect b u it) (reconnect-Sound algo heap b u it c sound idle)

  -- Which slots the client has set.
  pub record SlotsSafe (slots : Slots) : Type 0 where
    pub finish_stat : SlotSafe slots.finish_stat
    pub finish_post : SlotSafe slots.finish_post
    pub post_failed : SlotSafe slots.post_failed

  tell-Safe :
      (slots : Slots) (b : Bool) (u : Usenet) (it : ℕ) (c : Connection) (t : Task)
      → SlotsSafe slots
      → Sound algo heap (some (it, c)) u
      → IsIdle c
      → Says c t
      → Safe algo heap none (tell slots b u it t)
  unfolding tell
  tell-Safe slots b u it c t keeps sound idle (of_connect r ready) =
      on_connected-Safe u it c r sound idle ready
  tell-Safe slots b u it c t keeps sound idle (of_post a r ready) =
      on_post_finished-Safe slots.finish_post slots.post_failed b u it c a r keeps.finish_post
        keeps.post_failed sound idle ready
  tell-Safe slots b u it c t keeps sound idle (of_stat m r ready) =
      on_stat_finished-Safe slots.finish_stat b u it c m r keeps.finish_stat sound idle ready

  -- Of the connections of a sound pool only those in m_busy make a step.
  only_busy :
      (u : Usenet) (it : ℕ) (c : Connection) (told : List Task)
      → Sound algo heap none u
      → it < u.next_conn
      → Serves algo heap (u.conns it) c told
      → 1 ≤ tally it u.busy
  only_busy u it c told sound made st =
      let fit = sound.fits it made tt in
      let stays = IsIdle-stays algo heap (u.conns it) c told in
      elim (Bool-cases (ltb 0 (tally it u.busy))) [
        | inl there ↦ ground arith
        | inr not_busy ↦ elim (Bool-cases (ltb 0 (tally it u.ready))) [
          | inl rests ↦ absurd (stays (fit.at_rest (ground arith)).0 st)
          | inr not_ready ↦ absurd (stays (fit.given_up (ground arith)) st)
        ]
      ]

  -- No connection of a sound pool is to send an article that is not there.
  pub has_article :
      (u : Usenet) (it : ℕ) (before after : List Op) (h : Reader) (r : Option (Bytes × ℕ))
      → Sound algo heap none u
      → it < u.next_conn
      → (u.conns it).pending ≡ before ++ reading h ∷ after
      → completed_read algo heap h r (record (u.conns it) { pending = before ++ after }) ≢ none
  has_article u it before after h r sound made at =
      let fit = sound.fits it made tt in
      let c = u.conns it in
      elim (Bool-cases (ltb 0 (tally it u.busy))) [
        | inl there ↦
            IsBusy-has_article algo heap c before after h r (fit.at_work (ground arith)) at
        | inr not_busy ↦ elim (Bool-cases (ltb 0 (tally it u.ready))) [
          | inl rests ↦
              let idle = (fit.at_rest (ground arith)).0 in
              absurd (nothing_pending (reading h) before after (sym idle.no_op ∙ at))
          | inr not_ready ↦
              let idle = fit.given_up (ground arith) in
              absurd (nothing_pending (reading h) before after (sym idle.no_op ∙ at))
        ]
      ]

  pub Serves-Safe :
      (u : Usenet) (it : ℕ) (c : Connection)
      → Sound algo heap none u
      → it < u.next_conn
      → Serves algo heap (u.conns it) c []
      → Sound algo heap none (set_conn u it c)
  Serves-Safe u it c sound made st =
      let there = only_busy u it c [] sound made st in
      let busy = (sound.fits it made tt).at_work there in
      elim (IsBusy-BusyStep algo heap (u.conns it) c [] busy st) [
        | goes_on busy' quiet ↦
            put-Sound algo heap u it c sound.split (λ j m o. sound.fits j m tt)
              (busy-Fits algo heap u it c sound.split there busy')
        | ends t told idle says ↦ absurd (cc)
      ]

  pub tells-Safe :
      (slots : Slots) (b : Bool) (u : Usenet) (it : ℕ) (c : Connection) (t : Task)
      (more : List Task)
      → SlotsSafe slots
      → Sound algo heap none u
      → it < u.next_conn
      → Serves algo heap (u.conns it) c (t ∷ more)
      → Safe algo heap none (tell slots b (set_conn u it c) it t)
  tells-Safe slots b u it c t more keeps sound made st =
      let there = only_busy u it c (t ∷ more) sound made st in
      let busy = (sound.fits it made tt).at_work there in
      elim (IsBusy-BusyStep algo heap (u.conns it) c (t ∷ more) busy st) [
        | goes_on busy' quiet ↦ absurd (cc)
        | ends t' told idle says ↦
            let same : t' ≡ t = cc in
            tell-Safe slots b (set_conn u it c) it c t keeps
              (hold-Sound algo heap u it c sound.split (λ j m o. sound.fits j m tt) there) idle
              (subst (Says c) same says)
      ]
