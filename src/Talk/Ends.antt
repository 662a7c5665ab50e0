-- ===== src/Talk/Ends.antt =====
-- That a post of nntp/connection.cc to misc/dummy_usenet/dummy_server.cc comes to its end.
use mathlib.Core.Path.{subst}
use post2usenet.Common.{
  ℕ, zero, suc, ◌+◌, ◌<◌, length, List, [], ◌∷◌, ◌++◌, ◌≡◌, refl, arith, Bytes, put, some, All,
}
use post2usenet.Boost.{StringAlgorithms}
use post2usenet.Connection.{
  Heap, Task, tell_post, post_success, connected_and_authenticated, send_parts, async_post,
}
use post2usenet.Connection.Posting.{IsIdle}
use post2usenet.DummyServer.{wants_command}
use post2usenet.DummyServer.Lines.{IsBodyLine, ended, kept}
use post2usenet.Talk.{Talk, Steps, stop, go_on}
use post2usenet.Talk.Phase.{Phase, requested, commanding, texting, answering, answered, news}
use post2usenet.Talk.Moves.{Moves, Phase-Moves}
use post2usenet.Talk.Whole.{Steps-Reached}

-- At rest: the connection is ready and has nothing under way, and so has the server, which has closed
-- these files.
pub record AtRest (t : Talk) (files : List Bytes) : Type 0 where
  pub ready : t.client.state ≡ connected_and_authenticated
  pub idle : IsIdle t.client
  pub nothing_buffered : t.client.readbuf ≡ []
  pub waits : t.server.stage ≡ wants_command
  pub files_are : t.server.files ≡ files
  pub to_server : t.to_server ≡ []
  pub to_client : t.to_client ≡ []

-- The owner asks for a post.
pub asked : Talk → ℕ → Talk
asked t a = record t { client = (async_post t.client a).0 }

module _ (algo : StringAlgorithms) (heap : Heap) (a : ℕ) (files body : List Bytes) where
  asked-Phase : (t : Talk) → AtRest t files → Phase a files body (asked t a) (8 + length body)
  unfolding asked async_post
  asked-Phase t rest =
      requested
        (record {
          no_op = ground (arith, rest.idle.no_op);
          task = ground (arith, rest.idle.no_task, rest.ready);
        })
        (record {
          article = ground (arith, rest.ready);
          nothing_buffered = ground (arith, rest.ready, rest.nothing_buffered);
        })
        (record {
          server = record { stage_is = rest.waits; files_are = rest.files_are };
          to_server = rest.to_server;
          to_client = rest.to_client;
        })
        refl

  Phase-AtRest : (t : Talk) → Phase a files body t 0 → AtRest t (files ++ kept body ∷ [])
  Phase-AtRest t (requested one has rests e) = absurd (omega arith)
  Phase-AtRest t (commanding m n x has command e) = absurd (omega arith)
  Phase-AtRest t (texting m n x has texts e) = absurd (omega arith)
  Phase-AtRest t (answering one ready has rests e) = absurd (omega arith)
  Phase-AtRest t (answered idle ready has rests e) = record {
    ready = ready;
    idle = idle;
    nothing_buffered = has.nothing_buffered;
    waits = rests.server.stage_is;
    files_are = rests.server.files_are;
    to_server = rests.to_server;
    to_client = rests.to_client;
  }

  -- Where a post stands after some steps: it has told nothing and a step can be made, or it has ended.
  pub data PostAfter (t : Talk) (done : ℕ) (told : List Task) : Type 0 where
    under_way : done < 8 + length body → told ≡ [] → Moves algo heap t → PostAfter t done told
    ended_well :
        done ≡ 8 + length body
        → told ≡ tell_post (some a) post_success ∷ []
        → AtRest t (files ++ kept body ∷ [])
        → PostAfter t done told

  Phase-PostAfter :
      (t : Talk) (done left : ℕ) (told : List Task)
      → done + left ≡ 8 + length body
      → Phase a files body t left
      → told ≡ news a files body left
      → PostAfter t done told
  unfolding news
  Phase-PostAfter t done zero told sum phase heard =
      ended_well (omega (arith, sum)) heard (Phase-AtRest t phase)
  Phase-PostAfter t done (suc left) told sum phase heard =
      under_way (omega (arith, sum)) heard (Phase-Moves algo heap a files body t left phase)

  -- A post through a connection that is at rest, to a server that is at rest and has closed `files`. The
  -- text of the article is lines with their ends, of which none holds a NUL and none is a single dot,
  -- and a single dot behind them. As long as the network works, whichever end goes first and whatever
  -- the pieces are in which a reply arrives: before 8 steps and one for each line, the owner has been
  -- told nothing and a step can be made; after so many, the owner has been told once, that the article
  -- has been posted, the server has closed one more file, with exactly the text, and both are at rest.
  pub async_post-PostAfter :
      (t t' : Talk) (done : ℕ) (told : List Task)
      → AtRest t files
      → put (send_parts algo (heap a)) ≡ kept body
      → All IsBodyLine body
      → Steps algo heap (asked t a) done t' told
      → PostAfter t' done told
  async_post-PostAfter t t' done told rest text lines h =
      let start = subst (Phase a files body (asked t a)) (omega arith) (asked-Phase t rest) in
      let r =
        Steps-Reached algo heap a files body (asked t a) t' done (7 + length body) told text lines
          start h in
      Phase-PostAfter t' done r.left told (omega (arith, r.sum)) r.phase r.heard

  -- A post that is under way can go on to its end.
  go_to_end :
      (t t' : Talk) (done more : ℕ) (told : List Task)
      → AtRest t files
      → put (send_parts algo (heap a)) ≡ kept body
      → All IsBodyLine body
      → done + more ≡ 8 + length body
      → Steps algo heap (asked t a) done t' told
      → (end : Talk) × (all : List Task) × Steps algo heap (asked t a) (8 + length body) end all
  go_to_end t t' done zero told rest text lines e h =
      (t', told, subst (λ n. Steps algo heap (asked t a) n t' told) (omega arith) h)
  go_to_end t t' done (suc more) told rest text lines e h =
      elim (async_post-PostAfter t t' done told rest text lines h) [
        | under_way fewer untold moves ↦
            go_to_end t moves.next (suc done) more (told ++ moves.told) rest text lines
              (omega (arith, e)) (go_on h moves.step)
        | ended_well all heard ended ↦ absurd (omega (arith, e))
      ]

  -- Such a post can be made: from every such state there are 8 steps, and one for each line, that lead
  -- to a state of rest, in which the file has been closed and the owner has been told of success.
  pub async_post-ends :
      (t : Talk)
      → AtRest t files
      → put (send_parts algo (heap a)) ≡ kept body
      → All IsBodyLine body
      → (end : Talk) × Steps algo heap
          (asked t a)
          (8 + length body)
          end
          (tell_post (some a) post_success ∷ [])
        × AtRest end (files ++ kept body ∷ [])
  async_post-ends t rest text lines =
      let (end, all, h) =
        go_to_end t (asked t a) 0 (8 + length body) [] rest text lines (omega arith) stop in
      elim (async_post-PostAfter t end (8 + length body) all rest text lines h) [
        | under_way fewer untold moves ↦ absurd (omega arith)
        | ended_well whole heard ended ↦
            (end, subst (Steps algo heap (asked t a) (8 + length body) end) heard h, ended)
      ]
