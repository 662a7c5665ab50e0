-- ===== src/Usenet/Split.antt =====
-- m_ready and m_busy of nntp/usenet.cc: in which of the two a connection is.
use post2usenet.Common.{
  ℕ, zero, suc, ◌+◌, ◌≤◌, Bool, [], ◌∷◌, ◌≡◌, inl, inr, refl, arith, List-cases,
}
use post2usenet.Common.Result.{ok, >>=-ok}
use post2usenet.ConnectionInfo.{ConnectionInfo}
use post2usenet.Usenet.{
  Usenet, Command, done, set_conn, enqueue, finish_wait, on_conn_becomes_ready, dispatch_or_queue,
  discard_connection, take_out, add_connection, add_connections,
}
use post2usenet.Usenet.Lists.{
  tally, tally-append, Keeps, Keeps-trans, Keeps-same, run_command-Keeps, dispatch-Keeps,
  taken-Keeps, park-Keeps,
}

-- Each connection that has been made is in at most one of the two lists, and there once; no list
-- holds a number that has not been given out.
pub record IsSplit (u : Usenet) : Type 0 where
  pub once : (it : ℕ) → tally it u.ready + tally it u.busy ≤ 1
  pub fresh : (it : ℕ) → u.next_conn ≤ it → tally it u.ready + tally it u.busy ≡ 0

pub Keeps-IsSplit : (u u' : Usenet) → Keeps u u' → IsSplit u → IsSplit u'
Keeps-IsSplit u u' keeps split = record {
  once = λ it. let held = keeps.held it in let old = split.once it in omega arith;
  fresh = λ it high.
      let held = keeps.held it in let old = split.fresh it (rw keeps.next at high) in omega arith;
}

pub enqueue-Keeps :
    (u u' : Usenet) (cmd : Command) (bypass : Bool)
    → enqueue u cmd bypass ≡ ok (done u')
    → Keeps u u'
unfolding enqueue
enqueue-Keeps u u' cmd bypass e = elim (List-cases u.ready) [
  | inl none_ready ↦ Keeps-same u u' (ground arith) (ground arith) (ground arith)
  | inr (it, rest, is_ready) ↦ dispatch-Keeps u u' it rest cmd is_ready (ground arith)
]

pub finish_wait-Keeps : (u u' : Usenet) (cmd : Command) → finish_wait u cmd ≡ done u' → Keeps u u'
unfolding finish_wait
finish_wait-Keeps u u' cmd e = Keeps-same u u' (ground arith) (ground arith) (ground arith)

pub on_conn_becomes_ready-Keeps :
    (u u' : Usenet) (it : ℕ) → on_conn_becomes_ready u it ≡ ok u' → Keeps u u'
unfolding on_conn_becomes_ready
on_conn_becomes_ready-Keeps u u' it e = elim (List-cases u.queue) [
  | inl none_queued ↦ park-Keeps u u' it (ground arith)
  | inr (cmd, rest, queued) ↦
      let left = record u { queue = rest } in
      Keeps-trans u left u' (Keeps-same u left refl refl refl)
        (run_command-Keeps left u' it cmd (ground arith))
]

pub dispatch_or_queue-Keeps :
    (u u' : Usenet) (cmd : Command) (front : Bool)
    → dispatch_or_queue u cmd front ≡ ok u'
    → Keeps u u'
unfolding dispatch_or_queue
dispatch_or_queue-Keeps u u' cmd front e = elim (List-cases u.ready) [
  | inl none_ready ↦ Keeps-same u u' (ground arith) (ground arith) (ground arith)
  | inr (it, rest, is_ready) ↦ dispatch-Keeps u u' it rest cmd is_ready (ground arith)
]

pub discard_connection-Keeps :
    (u u' : Usenet) (it : ℕ) → discard_connection u it ≡ ok u' → Keeps u u'
unfolding discard_connection
discard_connection-Keeps u u' it e =
    let (busy', out, rest) = >>=-ok (take_out it u.busy) _ u' e in
    let left = record u { busy = busy' } in
    Keeps-trans u left u' (taken-Keeps u it busy' out)
      (Keeps-same left u' (ground arith) (ground arith) (ground arith))

pub add_connection-IsSplit :
    (u : Usenet) (conninfo : ConnectionInfo) → IsSplit u → IsSplit (add_connection u conninfo)
unfolding add_connection set_conn tally
add_connection-IsSplit u conninfo split = record {
  once = λ it.
      let added = tally-append it u.busy (u.next_conn ∷ []) in
      let old = split.once it in let unmade = split.fresh it in ground arith;
  fresh = λ it high.
      let added = tally-append it u.busy (u.next_conn ∷ []) in
      let unmade = split.fresh it (omega arith) in ground arith;
}

pub add_connections-IsSplit :
    (u : Usenet) (conninfo : ConnectionInfo) (n : ℕ)
    → IsSplit u
    → IsSplit (add_connections u conninfo n)
unfolding add_connections
add_connections-IsSplit u conninfo zero split = split
add_connections-IsSplit u conninfo (suc n) split =
    add_connections-IsSplit (add_connection u conninfo) conninfo n
      (add_connection-IsSplit u conninfo split)
