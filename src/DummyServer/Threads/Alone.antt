-- ===== src/DummyServer/Threads/Alone.antt =====
-- That the threads of misc/dummy_usenet/dummy_server.cc do not disturb each other.
use post2usenet.Common.{
  ℕ, zero, suc, ◌+◌, Bool, true, false, List, [], ◌∷◌, ◌++◌, length, get_elem?, set, ◌≡◌, ◌≢◌, inl,
  inr, refl, sym, ap, ◌∙◌, arith, Bytes, some, ◌==◌, Bool-cases, Option-cases, length-append,
}
use post2usenet.Boost.{StringAlgorithms}
use post2usenet.DummyServer.{
  Session, new_session, shake_hands, read_lines, on_request, on_requests, usenet_session,
}
use post2usenet.DummyServer.Threads.{
  Server, Event, accepts, hears, on_event, on_events, no_sessions, connections, lines_of,
}

get_elem?-set :
    {A : Type 0} (xs : List A) (i : ℕ) (x v : A)
    → get_elem? xs i ≡ some x
    → get_elem? (set xs i v) i ≡ some v
get_elem?-set [] i x v e = absurd (cc)
get_elem?-set (y ∷ ys) zero x v e = refl
get_elem?-set (y ∷ ys) (suc i) x v e = get_elem?-set ys i x v e

get_elem?-set_other :
    {A : Type 0} (xs : List A) (i j : ℕ) (v : A) → j ≢ i → get_elem? (set xs i v) j ≡ get_elem? xs j
get_elem?-set_other [] i j v other = refl
get_elem?-set_other (y ∷ ys) zero zero v other = absurd (other refl)
get_elem?-set_other (y ∷ ys) zero (suc j) v other = refl
get_elem?-set_other (y ∷ ys) (suc i) zero v other = refl
get_elem?-set_other (y ∷ ys) (suc i) (suc j) v other =
    get_elem?-set_other ys i j v (λ e. other (ap suc e))

get_elem?-append :
    {A : Type 0} (xs ys : List A) (i : ℕ) (x : A)
    → get_elem? xs i ≡ some x
    → get_elem? (xs ++ ys) i ≡ some x
get_elem?-append [] ys i x e = absurd (cc)
get_elem?-append (y ∷ xs) ys zero x e = e
get_elem?-append (y ∷ xs) ys (suc i) x e = get_elem?-append xs ys i x e

get_elem?-last : {A : Type 0} (xs : List A) (x : A) → get_elem? (xs ++ x ∷ []) (length xs) ≡ some x
get_elem?-last [] x = refl
get_elem?-last (y ∷ xs) x = get_elem?-last xs x

length-set : {A : Type 0} (xs : List A) (i : ℕ) (v : A) → length (set xs i v) ≡ length xs
length-set [] i v = refl
length-set (x ∷ xs) zero v = refl
length-set (x ∷ xs) (suc i) v = ap suc (length-set xs i v)

refl_test : (k : ℕ) → (k == k) ≡ true
refl_test k = ground arith

connections-cons :
    (e : Event) (es : List Event) → connections (e ∷ es) ≡ connections (e ∷ []) + connections es
connections-cons (accepts ok) es = omega arith
connections-cons (hears k line) es = omega arith

module _ (algo : StringAlgorithms) where
  -- A process that has been terminated stays so.
  on_event-dead :
      (server : Server) (e : Event)
      → server.running ≡ false
      → (on_event algo server e).running ≡ false
  unfolding on_event
  on_event-dead server (accepts ok) dead = ground arith
  on_event-dead server (hears k line) dead = elim (Option-cases (get_elem? server.sessions k)) [
    | inl missing ↦ ground arith
    | inr (s, there) ↦ ground arith
  ]

  on_events-dead :
      (server : Server) (es : List Event)
      → server.running ≡ false
      → (on_events algo server es).running ≡ false
  unfolding on_events
  on_events-dead server [] dead = dead
  on_events-dead server (e ∷ es) dead =
      on_events-dead (on_event algo server e) es (on_event-dead server e dead)

  -- What is running at the end has been running before.
  ran :
      (server : Server) (es : List Event)
      → (on_events algo server es).running ≡ true
      → server.running ≡ true
  ran server es alive = elim (Bool-cases server.running) [
    | inl e ↦ e
    | inr dead ↦ let d = on_events-dead server es dead in absurd (cc)
  ]

  -- A session that stands there stays where it is, and reads the line if it is its own.
  after_accepts :
      (server : Server) (ok : Bool) (k : ℕ) (s : Session)
      → get_elem? server.sessions k ≡ some s
      → get_elem? (on_event algo server (accepts ok)).sessions k ≡ some s
  unfolding on_event
  after_accepts server ok k s there =
      let more = get_elem?-append server.sessions ((shake_hands ok new_session) ∷ []) k s there in
      ground arith

  after_own :
      (server : Server) (k : ℕ) (s : Session) (line : Bytes)
      → server.running ≡ true
      → get_elem? server.sessions k ≡ some s
      → get_elem? (on_event algo server (hears k line)).sessions k ≡ some (on_request algo s line)
  unfolding on_event
  after_own server k s line runs there =
      let more = get_elem?-set server.sessions k s (on_request algo s line) there in
      ground (arith, more, there, runs)

  after_other :
      (server : Server) (j k : ℕ) (s : Session) (line : Bytes)
      → j ≢ k
      → get_elem? server.sessions k ≡ some s
      → get_elem? (on_event algo server (hears j line)).sessions k ≡ some s
  unfolding on_event
  after_other server j k s line other there = elim (Option-cases (get_elem? server.sessions j)) [
    | inl missing ↦ ground (arith, missing, there)
    | inr (r, e) ↦
        let more =
          get_elem?-set_other server.sessions j k (on_request algo r line)
            (λ same. other (sym same)) in
        ground (arith, more, there, e)
  ]

  -- A session reads on as if it were alone.
  on_events-session :
      (es : List Event) (server : Server) (k : ℕ) (s : Session)
      → (on_events algo server es).running ≡ true
      → get_elem? server.sessions k ≡ some s
      → get_elem? (on_events algo server es).sessions k ≡ some (on_requests algo s (lines_of k es))
  unfolding on_events on_requests
  on_events-session [] server k s alive there = there
  on_events-session (accepts ok ∷ es) server k s alive there =
      on_events-session es (on_event algo server (accepts ok)) k s alive
        (after_accepts server ok k s there)
  on_events-session (hears j line ∷ es) server k s alive there = elim (Bool-cases (j == k)) [
    | inl same ↦
        let e : j ≡ k = ground arith in
        let runs = ran server (hears j line ∷ es) alive in
        let own = after_own server k s line runs there in
        rw (e, refl_test k)
          (on_events-session es (on_event algo server (hears k line)) k (on_request algo s line)
            (rw e at alive) own)
    | inr differs ↦ rw differs (
        on_events-session es (on_event algo server (hears j line)) k s alive
          (after_other server j k s line (λ e. ground arith) there))
  ]

  -- As many sessions as connections have been accepted.
  on_event-length :
      (server : Server) (e : Event)
      → server.running ≡ true
      → length (on_event algo server e).sessions ≡ length server.sessions + connections (e ∷ [])
  unfolding on_event
  on_event-length server (accepts ok) runs =
      let longer = length-append server.sessions ((shake_hands ok new_session) ∷ []) in
      ground (arith, longer, runs)
  on_event-length server (hears k line) runs = elim (Option-cases (get_elem? server.sessions k)) [
    | inl missing ↦ ground (arith, missing)
    | inr (s, there) ↦
        let same = length-set server.sessions k (on_request algo s line) in
        ground (arith, same, runs, there)
  ]

  on_events-length :
      (es : List Event) (server : Server)
      → (on_events algo server es).running ≡ true
      → length (on_events algo server es).sessions ≡ length server.sessions + connections es
  unfolding on_events
  on_events-length [] server alive = omega arith
  on_events-length (e ∷ es) server alive =
      let next = on_event algo server e in
      let first = on_event-length server e (ran server (e ∷ es) alive) in
      let rest = on_events-length es next alive in omega (arith, first, rest, connections-cons e es)

  on_events-append :
      (xs ys : List Event) (server : Server)
      → on_events algo server (xs ++ ys) ≡ on_events algo (on_events algo server xs) ys
  unfolding on_events
  on_events-append [] ys server = refl
  on_events-append (x ∷ xs) ys server = on_events-append xs ys (on_event algo server x)

  accepted_last :
      (server : Server) (ok : Bool)
      → server.running ≡ true
      → get_elem? (on_event algo server (accepts ok)).sessions (length server.sessions)
        ≡ some (shake_hands ok new_session)
  unfolding on_event
  accepted_last server ok runs =
      let last = get_elem?-last server.sessions (shake_hands ok new_session) in
      ground (arith, last, runs)

  -- As long as no session has terminated the process, each client is served as by a session that is
  -- alone, whatever the other clients send and in whatever order the threads go: the connection that is
  -- accepted behind `before` has the session that usenet_session has of the end of its handshake and of all that this client
  -- sends, if its thread has read all the lines.
  pub on_events-usenet_session :
      (before after : List Event) (ok : Bool) (input : Bytes)
      → (on_events algo no_sessions (before ++ accepts ok ∷ after)).running ≡ true
      → lines_of (connections before) after ≡ read_lines false [] input
      → get_elem?
          (on_events algo no_sessions (before ++ accepts ok ∷ after)).sessions
          (connections before)
        ≡ some (usenet_session algo ok input)
  unfolding on_events usenet_session
  on_events-usenet_session before after ok input alive lines =
      let mid = on_events algo no_sessions before in
      let split = on_events-append before (accepts ok ∷ after) no_sessions in
      let alive' : (on_events algo mid (accepts ok ∷ after)).running ≡ true = rw split at alive in
      let runs = ran mid (accepts ok ∷ after) alive' in
      let count : length mid.sessions ≡ connections before =
        omega (arith, on_events-length before no_sessions runs) in
      let there = rw count at (accepted_last mid ok runs) in
      let whole =
        on_events-session after (on_event algo mid (accepts ok)) (connections before)
          (shake_hands ok new_session) alive' there in
      rw split (whole ∙ ap (λ ls. some (on_requests algo (shake_hands ok new_session) ls)) lines)
