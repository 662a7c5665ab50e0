-- ===== src/Talk/Login/Steps.antt =====
-- The steps of a connection of nntp/connection.cc up to the greeting of misc/dummy_usenet/dummy_server.cc.
use mathlib.Core.Path.{subst}
use post2usenet.Connection.Posting.{OneTask, OneOp}
use post2usenet.Common.{
  ℕ, suc, true, length, drop, drop-append, put, List, [], ◌∷◌, ◌++◌, append-nil, ◌≡◌, refl, sym, ap,
  ◌∙◌, arith, Bytes, if◌then◌else◌,
}
use post2usenet.Boost.{StringAlgorithms}
use post2usenet.Connection.{
  Connection, Heap, Op, resolving, opening, handshaking, reading, greeting, Task, run_connect,
}
use post2usenet.Connection.Complete.{run_task, completed_handshake}
use post2usenet.DummyServer.{
  Stage, Session, wants_handshake, wants_user, shake_hands, server_welcome,
}
use post2usenet.Talk.Phase.{Stands}
use post2usenet.Connection.Posting.{one_op}
use post2usenet.Talk.{Talk, client_goes_on, server_welcomes, Acts}
use post2usenet.Talk.Acting.{task_acts}
use post2usenet.Talk.Turns.{client_at, quiet}
use post2usenet.Talk.Login.{
  Asks, unread, replied, Accepts, Knows, looking_up, connecting, shaking, greeted, login_news,
  LoginNext,
}
use post2usenet.Talk.Login.Acting.{resolve_acts, open_acts}
use post2usenet.Talk.Login.Turns.{
  Starts, run_connect-Starts, resolve-Starts, connect-Starts, handshake-Starts,
}

module _ (username password : Bytes) where
  pub started-Knows :
      (c c' : Connection) (o : Op) (sent : List Bytes)
      → Starts c c' o sent
      → Knows c username password
      → Knows c' username password
  started-Knows c c' o sent turn knows = record {
    name = ap (λ x. x.username) turn.conninfo ∙ knows.name;
    word = ap (λ x. x.password) turn.conninfo ∙ knows.word;
    by_tls = turn.sslstream ∙ knows.by_tls;
    nothing_buffered = turn.readbuf ∙ knows.nothing_buffered;
  }

  pub without_op :
      (c : Connection)
      → Knows c username password
      → Knows (record c { pending = [] }) username password
  without_op c k = record {
    name = k.name;
    word = k.word;
    by_tls = k.by_tls;
    nothing_buffered = k.nothing_buffered;
  }

  pub after_read :
      (c : Connection)
      → Knows c username password
      → Knows (record c { pending = []; readbuf = [] }) username password
  after_read c k = record {
    name = k.name;
    word = k.word;
    by_tls = k.by_tls;
    nothing_buffered = refl;
  }

  record Welcomed (s s' : Session) : Type 0 where
    stands : Stands s' wants_user []
    written : s'.written ≡ s.written ++ server_welcome ∷ []

  shake_hands-Welcomed :
      (s : Session) → Stands s wants_handshake [] → Welcomed s (shake_hands true s)
  unfolding shake_hands
  shake_hands-Welcomed s at =
      let stage = at.stage_is in
      let files = at.files_are in
      record {
        stands = record { stage_is = ground arith; files_are = ground arith };
        written = ground arith;
      }

  -- Nothing is sent.
  pub still :
      (t : Talk) (c' : Connection) (o : Op) (c : Connection)
      → c.sent ≡ t.client.sent
      → Starts c c' o []
      → (client_goes_on t c').to_server ≡ t.to_server
  still t c' o c same turn = quiet t c' (turn.sent_more ∙ append-nil c.sent ∙ same)

  pub waits-Accepts :
      (t : Talk) (c' : Connection) (input : Bytes) (o : Op) (c : Connection)
      → c.sent ≡ t.client.sent
      → Starts c c' o []
      → input ≡ t.to_client
      → Accepts t
      → Accepts (client_at t c' input)
  unfolding client_goes_on
  waits-Accepts t c' input o c same turn kept w = record {
    stands = w.stands;
    to_server = still t c' o c same turn ∙ w.to_server;
    to_client = kept ∙ w.to_client;
  }

  pub waits-Asks :
      (t : Talk) (c' : Connection) (input : Bytes) (o : Op) (c : Connection) (at next : Stage)
      (line reply : Bytes) (n : ℕ)
      → c.sent ≡ t.client.sent
      → Starts c c' o []
      → input ≡ t.to_client
      → Asks t at next line reply n
      → Asks (client_at t c' input) at next line reply n
  unfolding client_goes_on
  waits-Asks t c' input o c at next line reply n same turn kept (unread s p q) =
      unread s (still t c' o c same turn ∙ p) (kept ∙ q)
  waits-Asks t c' input o c at next line reply n same turn kept (replied s p q) =
      replied s (still t c' o c same turn ∙ p) (kept ∙ q)

  module _ (algo : StringAlgorithms) (heap : Heap) where
    pub requested-LoginNext :
        (t : Talk) (left : ℕ) (c' : Connection) (input : Bytes) (told : List Task)
        → OneTask t.client run_connect
        → Knows t.client username password
        → Accepts t
        → left ≡ 12
        → Acts algo heap t.client t.to_client c' input told
        → LoginNext username password (client_at t c' input) told left
    unfolding client_goes_on login_news run_task
    requested-LoginNext t left c' input told one knows w e act =
        let (done, kept) =
          task_acts algo heap t.client c' run_connect t.to_client input told one act in
        let bare = record t.client { posted = [] } in
        let turn : Starts bare c' resolving [] =
          subst (λ c. Starts bare c resolving []) (ap (λ p. p.0) done)
            (run_connect-Starts bare (record { no_op = one.no_op; no_task = refl })) in
        record {
          fewer = suc (10);
          one = omega arith;
          phase =
              looking_up turn.op
                (started-Knows bare c' _ _ turn (record {
                  name = knows.name;
                  word = knows.word;
                  by_tls = knows.by_tls;
                  nothing_buffered = knows.nothing_buffered;
                }))
                (waits-Accepts t c' input resolving bare refl turn kept w) (omega arith);
          heard = sym (ap (λ p. p.1) done);
        }

    pub looking_up-LoginNext :
        (t : Talk) (left : ℕ) (c' : Connection) (input : Bytes) (told : List Task)
        → OneOp t.client resolving
        → Knows t.client username password
        → Accepts t
        → left ≡ 11
        → Acts algo heap t.client t.to_client c' input told
        → LoginNext username password (client_at t c' input) told left
    unfolding client_goes_on login_news run_task
    looking_up-LoginNext t left c' input told one knows w e act =
        let (done, kept, untold) =
          resolve_acts algo heap t.client c' t.to_client input told one act in
        let bare = record t.client { pending = [] } in
        let turn : Starts bare c' opening [] =
          subst (λ c. Starts bare c opening []) (sym done)
            (resolve-Starts bare (record { no_op = refl; no_task = one.no_task })) in
        record {
          fewer = suc 9;
          one = omega arith;
          phase =
              connecting turn.op (started-Knows bare c' _ _ turn (without_op t.client knows))
                (waits-Accepts t c' input _ bare refl turn kept w) (omega arith);
          heard = untold;
        }

    pub connecting-LoginNext :
        (t : Talk) (left : ℕ) (c' : Connection) (input : Bytes) (told : List Task)
        → OneOp t.client opening
        → Knows t.client username password
        → Accepts t
        → left ≡ 10
        → Acts algo heap t.client t.to_client c' input told
        → LoginNext username password (client_at t c' input) told left
    unfolding client_goes_on login_news run_task
    connecting-LoginNext t left c' input told one knows w e act =
        let (done, kept, untold) = open_acts algo heap t.client c' t.to_client input told one act in
        let bare = record t.client { pending = [] } in
        let o = if t.client.sslstream then handshaking else reading greeting in
        let turn : Starts bare c' o [] =
          subst (λ c. Starts bare c o []) (sym done)
            (connect-Starts bare (record { no_op = refl; no_task = one.no_task })) in
        let knows' = started-Knows bare c' o [] turn (without_op t.client knows) in
        let welcomes' = waits-Accepts t c' input o bare refl turn kept w in
        let is : o ≡ handshaking = rw knows.by_tls refl in
        record {
          fewer = suc 8;
          one = omega arith;
          phase = shaking (subst (OneOp c') is turn.op) knows' welcomes' refl;
          heard = untold;
        }

    -- Both ends end their handshake.
    pub shaking-LoginNext :
        (t : Talk) (left : ℕ) (before after : List Op) (c' : Connection)
        → OneOp t.client handshaking
        → Knows t.client username password
        → Accepts t
        → left ≡ 9
        → t.client.pending ≡ before ++ handshaking ∷ after
        → c' ≡ completed_handshake true (record t.client { pending = before ++ after })
        → LoginNext username password (server_welcomes (client_goes_on t c')) [] left
    unfolding client_goes_on login_news server_welcomes
    shaking-LoginNext t left before after c' one knows w e at done =
        let (same, b, f) = one_op handshaking handshaking before after (sym one.op ∙ at) in
        let joined : before ++ after ≡ [] = rw (b, f) in
        let done' =
          subst (λ os. c' ≡ completed_handshake true (record t.client { pending = os })) joined
            done in
        let bare = record t.client { pending = [] } in
        let turn : Starts bare c' (reading greeting) [] =
          subst (λ c. Starts bare c (reading greeting) []) (sym done')
            (handshake-Starts bare (record { no_op = refl; no_task = one.no_task })) in
        let welcomed = shake_hands-Welcomed t.server w.stands in
        let says : drop (length t.server.written) (shake_hands true t.server).written
            ≡ server_welcome ∷ [] =
          ap (drop (length t.server.written)) welcomed.written
          ∙ drop-append t.server.written (server_welcome ∷ []) in
        record {
          fewer = suc 7;
          one = omega arith;
          phase =
              greeted turn.op (started-Knows bare c' _ _ turn (without_op t.client knows))
                (record {
                  stands = welcomed.stands;
                  to_server = still t c' _ bare refl turn ∙ w.to_server;
                  to_client =
                      ap (λ x. t.to_client ++ put x) says
                      ∙ ap (λ x. x ++ put (server_welcome ∷ [])) w.to_client;
                })
                refl;
          heard = refl;
        }
