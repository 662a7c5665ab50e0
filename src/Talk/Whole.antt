-- ===== src/Talk/Whole.antt =====
-- A whole post of nntp/connection.cc to misc/dummy_usenet/dummy_server.cc.
use post2usenet.Common.{
  ℕ, suc, ◌+◌, length, false, List, [], ◌∷◌, ◌≡◌, refl, ap, ◌∙◌, arith, Bytes, put, All,
}
use post2usenet.Boost.{StringAlgorithms}
use post2usenet.Connection.{Connection, Heap, Task, send_parts}
use post2usenet.DummyServer.{read_lines}
use post2usenet.DummyServer.Lines.{IsBodyLine, kept}
use post2usenet.Talk.{
  Talk, server_goes_on, Acts, Step, client_acts, server_reads, hands_shaken, Steps, stop, go_on,
}
use post2usenet.Talk.Phase.{
  Phase-stage, Phase, requested, commanding, texting, answering, answered, news, Next,
}
use post2usenet.Talk.Turns.{client_at}
use post2usenet.Talk.Post.{requested-Next, commanding-Next, texting-Next, answering-Next}
use post2usenet.Talk.Acting.{idle_acts}
use post2usenet.Talk.Reading.{nothing_read, CommandOut-reads, TextOut-reads}

module _ (algo : StringAlgorithms) (heap : Heap) (a : ℕ) (files body : List Bytes) where
  client-Next :
      (t : Talk) (left : ℕ) (c' : Connection) (input : Bytes) (told : List Task)
      → put (send_parts algo (heap a)) ≡ kept body
      → All IsBodyLine body
      → Phase a files body t left
      → Acts algo heap t.client t.to_client c' input told
      → Next a files body (client_at t c' input) told left
  client-Next t left c' input told text lines (requested one has rests e) act =
      requested-Next algo heap a files body t left c' input told one has rests e act
  client-Next t left c' input told text lines (commanding m n x has command e) act =
      commanding-Next algo heap a files body t left m n c' input told text lines x has command e act
  client-Next t left c' input told text lines (texting m n x has texts e) act =
      texting-Next algo heap a files body t left m n c' input told x has texts e act
  client-Next t left c' input told text lines (answering one ready has rests e) act =
      answering-Next algo heap a files body t left c' input told one ready has rests e act
  client-Next t left c' input told text lines (answered idle ready has rests e) act =
      absurd (idle_acts algo heap t.client c' t.to_client input told idle act)

  server-Next :
      (t : Talk) (left : ℕ) (line : Bytes) (more : List Bytes)
      → Phase a files body t left
      → read_lines false [] t.to_server ≡ line ∷ more
      → Next a files body (server_goes_on algo t line) [] left
  unfolding news server_goes_on
  server-Next t left line more (requested one has rests e) r =
      absurd (nothing_read t.to_server line more rests.to_server r)
  server-Next t left line more (commanding m n x has command e) r =
      let (one, next) = CommandOut-reads algo files t n line more command r in
      record {
        fewer = suc (4 + length body + m);
        one = omega arith;
        phase = commanding m 0 x has next (omega arith);
        heard = refl;
      }
  server-Next t left line more (texting m n x has texts e) r =
      let (k, one, next) = TextOut-reads algo files t n body line more texts r in
      record {
        fewer = suc (1 + m + k);
        one = omega arith;
        phase = texting m k x has next (omega arith);
        heard = refl;
      }
  server-Next t left line more (answering one ready has rests e) r =
      absurd (nothing_read t.to_server line more rests.to_server r)
  server-Next t left line more (answered idle ready has rests e) r =
      absurd (nothing_read t.to_server line more rests.to_server r)

  Step-Next :
      (t t' : Talk) (left : ℕ) (told : List Task)
      → put (send_parts algo (heap a)) ≡ kept body
      → All IsBodyLine body
      → Phase a files body t left
      → Step algo heap t t' told
      → Next a files body t' told left
  Step-Next t t' left told text lines p (client_acts c' input act e) =
      rw e (client-Next t left c' input told text lines p act)
  Step-Next t t' left told text lines p (server_reads line more r e quiet) =
      rw (e, quiet) (server-Next t left line more p r)
  Step-Next t t' left told text lines p (hands_shaken before after c' e stage d r quiet) =
      absurd (Phase-stage a files body t left p stage)

  -- After some steps so many are left, and the owner has been told what there is to tell.
  pub record Reached (t : Talk) (done total : ℕ) (told : List Task) : Type 0 where
    pub left : ℕ
    pub sum : done + left ≡ total
    pub phase : Phase a files body t left
    pub heard : told ≡ news a files body left

  pub Steps-Reached :
      (t t' : Talk) (n left : ℕ) (told : List Task)
      → put (send_parts algo (heap a)) ≡ kept body
      → All IsBodyLine body
      → Phase a files body t (suc left)
      → Steps algo heap t n t' told
      → Reached t' n (suc left) told
  unfolding news
  Steps-Reached t t' n left told text lines p stop = record {
    left = suc left;
    sum = omega arith;
    phase = p;
    heard = refl;
  }
  Steps-Reached t t' n left told text lines p
        (go_on {n = m} {t' = t1} {told = before} {more = more} h st) =
      let so_far = Steps-Reached t t1 m left before text lines p h in
      let next = Step-Next t1 t' so_far.left more text lines so_far.phase st in
      let untold : before ≡ [] = so_far.heard ∙ ap (news a files body) next.one in
      record {
        left = next.fewer;
        sum = omega (arith, so_far.sum, next.one);
        phase = next.phase;
        heard = rw untold next.heard;
      }
