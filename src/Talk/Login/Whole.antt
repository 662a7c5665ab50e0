-- ===== src/Talk/Login/Whole.antt =====
-- A whole login of nntp/connection.cc to misc/dummy_usenet/dummy_server.cc.
use mathlib.Core.Path.{subst}
use post2usenet.Common.{
  ℕ, zero, suc, ◌+◌, ◌<◌, true, List, [], ◌∷◌, ◌++◌, ◌≡◌, refl, sym, ap, ◌∙◌, arith, Bytes,
  IsOneLine,
}
use post2usenet.Common.Int.{ℤ}
use post2usenet.Boost.{StringAlgorithms}
use post2usenet.ConnectionInfo.{ConnectionInfo}
use post2usenet.Connection.{
  Heap, Task, tell_connect, connect_success, async_connect, make_connection,
}
use post2usenet.DummyServer.Lines.{ended}
use post2usenet.DummyServer.{new_session}
use post2usenet.Talk.{Talk, Steps, stop, go_on}
use post2usenet.Talk.Moves.{Moves}
use post2usenet.Talk.Ends.{AtRest}
use post2usenet.Talk.Login.{
  LoginPhase, requested, looking_up, connecting, shaking, greeted, naming, proving, answering,
  answered, login_news,
}
use post2usenet.Talk.Login.Ends.{Step-LoginNext}
use post2usenet.Talk.Login.Moves.{LoginPhase-Moves}

-- A client that has just been made, and a server that has just accepted its connection.
pub record JustMade (t : Talk) (conninfo : ConnectionInfo) (timeout : ℤ) : Type 0 where
  pub client : t.client ≡ make_connection conninfo timeout
  pub server : t.server ≡ new_session
  pub to_server : t.to_server ≡ []
  pub to_client : t.to_client ≡ []

-- The owner asks for a connection.
pub asked_in : Talk → Talk
asked_in t = record t { client = async_connect t.client }

module _ (algo : StringAlgorithms) (heap : Heap) where
  module _ (username password : Bytes) where
    LoginPhase-AtRest : (t : Talk) → LoginPhase username password t 0 → AtRest t []
    LoginPhase-AtRest t (requested one knows w e) = absurd (omega arith)
    LoginPhase-AtRest t (looking_up one knows w e) = absurd (omega arith)
    LoginPhase-AtRest t (connecting one knows w e) = absurd (omega arith)
    LoginPhase-AtRest t (shaking one knows w e) = absurd (omega arith)
    LoginPhase-AtRest t (greeted one knows w e) = absurd (omega arith)
    LoginPhase-AtRest t (naming m n x knows asks e) = absurd (omega arith)
    LoginPhase-AtRest t (proving m n x knows asks e) = absurd (omega arith)
    LoginPhase-AtRest t (answering one ready empty rests e) = absurd (omega arith)
    LoginPhase-AtRest t (answered idle ready empty rests e) = record {
      ready = ready;
      idle = idle;
      nothing_buffered = empty;
      waits = rests.server.stage_is;
      files_are = rests.server.files_are;
      to_server = rests.to_server;
      to_client = rests.to_client;
    }

    -- Where a login stands after some steps.
    pub data LoginAfter (t : Talk) (done : ℕ) (told : List Task) : Type 0 where
      under_way : done < 12 → told ≡ [] → Moves algo heap t → LoginAfter t done told
      logged_in :
          done ≡ 12
          → told ≡ tell_connect connect_success ∷ []
          → AtRest t []
          → LoginAfter t done told

    LoginPhase-LoginAfter :
        (t : Talk) (done left : ℕ) (told : List Task)
        → IsOneLine username
        → IsOneLine password
        → done + left ≡ 12
        → LoginPhase username password t left
        → told ≡ login_news left
        → LoginAfter t done told
    unfolding login_news
    LoginPhase-LoginAfter t done zero told user pass sum phase heard =
        logged_in (omega (arith, sum)) heard (LoginPhase-AtRest t phase)
    LoginPhase-LoginAfter t done (suc left) told user pass sum phase heard =
        under_way (omega (arith, sum)) heard
          (LoginPhase-Moves algo heap username password t left user pass phase)

    record Reaches (t : Talk) (done total : ℕ) (told : List Task) : Type 0 where
      left : ℕ
      sum : done + left ≡ total
      phase : LoginPhase username password t left
      heard : told ≡ login_news left

    Steps-Reaches :
        (t t' : Talk) (n left : ℕ) (told : List Task)
        → IsOneLine username
        → IsOneLine password
        → LoginPhase username password t (suc left)
        → Steps algo heap t n t' told
        → Reaches t' n (suc left) told
    unfolding login_news
    Steps-Reaches t t' n left told user pass p stop = record {
      left = suc left;
      sum = omega arith;
      phase = p;
      heard = refl;
    }
    Steps-Reaches t t' n left told user pass p
          (go_on {n = m} {t' = t1} {told = before} {more = more} h st) =
        let so_far = Steps-Reaches t t1 m left before user pass p h in
        let next =
          Step-LoginNext algo heap username password t1 t' so_far.left more user pass so_far.phase
            st in
        let untold : before ≡ [] = so_far.heard ∙ ap login_news next.one in
        record {
          left = next.fewer;
          sum = omega (arith, so_far.sum, next.one);
          phase = next.phase;
          heard = rw untold next.heard;
        }

  asked_in-LoginPhase :
      (t : Talk) (conninfo : ConnectionInfo) (timeout : ℤ)
      → JustMade t conninfo timeout
      → conninfo.tls ≡ true
      → LoginPhase conninfo.username conninfo.password (asked_in t) 12
  unfolding asked_in async_connect make_connection
  asked_in-LoginPhase t conninfo timeout made by_tls =
      subst
        (λ c.
          LoginPhase conninfo.username conninfo.password (record t { client = async_connect c }) 12)
        (sym made.client)
        (requested (record { no_op = refl; task = refl })
          (record { name = refl; word = refl; by_tls = by_tls; nothing_buffered = refl })
          (record {
            stands = record {
              stage_is = ap (λ s. s.stage) made.server;
              files_are = ap (λ s. s.files) made.server;
            };
            to_server = made.to_server;
            to_client = made.to_client;
          })
          refl)

  -- A connection that has just been made, to be by TLS, logs in to a server that has just accepted it and
  -- waits for the handshake. As long as the network and the handshake work, whichever end goes first and
  -- whatever the pieces are in which a reply arrives: before 12 steps the owner has been told nothing and
  -- a step can be made; after 12 the owner has been told once, that the connection has been made, and
  -- both ends are at rest, ready for a post, with no file closed. The user name and the password hold no
  -- line end.
  pub async_connect-LoginAfter :
      (t t' : Talk) (conninfo : ConnectionInfo) (timeout : ℤ) (done : ℕ) (told : List Task)
      → JustMade t conninfo timeout
      → conninfo.tls ≡ true
      → IsOneLine conninfo.username
      → IsOneLine conninfo.password
      → Steps algo heap (asked_in t) done t' told
      → LoginAfter conninfo.username conninfo.password t' done told
  async_connect-LoginAfter t t' conninfo timeout done told made by_tls user pass h =
      let name = conninfo.username in
      let word = conninfo.password in
      let start =
        subst (LoginPhase name word (asked_in t)) (omega arith)
          (asked_in-LoginPhase t conninfo timeout made by_tls) in
      let r = Steps-Reaches name word (asked_in t) t' done 11 told user pass start h in
      LoginPhase-LoginAfter name word t' done r.left told user pass (omega (arith, r.sum)) r.phase
        r.heard

  login_goes_on :
      (t t' : Talk) (conninfo : ConnectionInfo) (timeout : ℤ) (done more : ℕ) (told : List Task)
      → JustMade t conninfo timeout
      → conninfo.tls ≡ true
      → IsOneLine conninfo.username
      → IsOneLine conninfo.password
      → done + more ≡ 12
      → Steps algo heap (asked_in t) done t' told
      → (end : Talk) × (all : List Task) × Steps algo heap (asked_in t) 12 end all
  login_goes_on t t' conninfo timeout done zero told made by_tls user pass e h =
      (t', told, subst (λ n. Steps algo heap (asked_in t) n t' told) (omega arith) h)
  login_goes_on t t' conninfo timeout done (suc more) told made by_tls user pass e h =
      elim (async_connect-LoginAfter t t' conninfo timeout done told made by_tls user pass h) [
        | under_way fewer untold moves ↦
            login_goes_on t moves.next conninfo timeout (suc done) more (told ++ moves.told) made
              by_tls user pass (omega (arith, e)) (go_on h moves.step)
        | logged_in all heard ended ↦ absurd (omega (arith, e))
      ]

  -- Such a login can be gone through to its end.
  pub async_connect-ends :
      (t : Talk) (conninfo : ConnectionInfo) (timeout : ℤ)
      → JustMade t conninfo timeout
      → conninfo.tls ≡ true
      → IsOneLine conninfo.username
      → IsOneLine conninfo.password
      → (end : Talk) × Steps algo heap (asked_in t) 12 end (tell_connect connect_success ∷ [])
        × AtRest end []
  async_connect-ends t conninfo timeout made by_tls user pass =
      let (end, all, h) =
        login_goes_on t (asked_in t) conninfo timeout 0 12 [] made by_tls user pass (omega arith)
          stop in
      elim (async_connect-LoginAfter t end conninfo timeout 12 all made by_tls user pass h) [
        | under_way fewer untold moves ↦ absurd (omega arith)
        | logged_in whole heard ended ↦
            (end, subst (Steps algo heap (asked_in t) 12 end) heard h, ended)
      ]
