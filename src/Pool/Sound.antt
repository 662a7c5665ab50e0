-- ===== src/Pool/Sound.antt =====
-- The invariant of the pool of nntp/usenet.cc over its connections.
use post2usenet.Common.{
  ℕ, ◌+◌, ◌≤◌, ◌<◌, true, false, ◌≡◌, ◌≢◌, inl, inr, refl, arith, Option, none, some, ◌==◌,
  Bool-cases,
}
use post2usenet.Common.Result.{Result, ok, err, ◌>>=◌}
use post2usenet.Boost.{StringAlgorithms}
use post2usenet.Connection.{Connection, Heap, connected_and_authenticated}
use post2usenet.Connection.Posting.{IsIdle}
use post2usenet.Usenet.{Usenet, Fault, foreign_iterator, set_conn, update}
use post2usenet.Usenet.Lists.{tally, Keeps-same}
use post2usenet.Usenet.Split.{IsSplit, Keeps-IsSplit}
use post2usenet.Pool.Busy.{IsBusy}

-- The connection whose handler is running, by number and as it then is.
abbrev pub Handling : Type 0
Handling = Option (ℕ × Connection)

abbrev pub Other : Handling → ℕ → Type 0
Other none j = Unit
Other (some (it, c)) j = j ≢ it

abbrev pub Holding : Handling → Usenet → Type 0
Holding none u = Unit
Holding (some (it, c)) u = (1 ≤ tally it u.busy) × (u.conns it ≡ c)

module _ (algo : StringAlgorithms) (heap : Heap) where
  -- What a connection is like that is so often in m_ready and in m_busy.
  pub record Fits (c : Connection) (in_ready in_busy : ℕ) : Type 0 where
    pub at_rest : 1 ≤ in_ready → IsIdle c × (c.state ≡ connected_and_authenticated)
    pub at_work : 1 ≤ in_busy → IsBusy algo heap c
    pub given_up : in_ready + in_busy ≡ 0 → IsIdle c

  -- Each connection is in one list at most. In m_ready it is authenticated and has nothing under way;
  -- in m_busy exactly one request is under way; in neither, nothing is. The connection whose handler is
  -- running is in m_busy, and is as it has been left.
  pub record Sound (h : Handling) (u : Usenet) : Type 0 where
    pub split : IsSplit u
    pub fits :
        (j : ℕ) → j < u.next_conn → Other h j → Fits (u.conns j) (tally j u.ready) (tally j u.busy)
    pub holding : Holding h u

  -- A result that leaves the pool sound, or is the fault of taking an iterator out of the wrong list.
  pub data Safe (h : Handling) (r : Result Fault Usenet) : Type 0 where
    safe : (u : Usenet) → r ≡ ok u → Sound h u → Safe h r
    misplaced : r ≡ err foreign_iterator → Safe h r

  pub bind-Safe :
      (h h' : Handling) (m : Result Fault Usenet) (f : Usenet → Result Fault Usenet)
      → Safe h m
      → ((u : Usenet) → Sound h u → Safe h' (f u))
      → Safe h' (m >>= f)
  bind-Safe h h' m f (safe u e sound) next = rw e (next u sound)
  bind-Safe h h' m f (misplaced e) next = misplaced (rw e refl)

  -- One connection changes, and it fits.
  pub put-Sound :
      (u : Usenet) (it : ℕ) (c : Connection)
      → IsSplit u
      → ((j : ℕ) → j < u.next_conn → j ≢ it → Fits (u.conns j) (tally j u.ready) (tally j u.busy))
      → Fits c (tally it u.ready) (tally it u.busy)
      → Sound none (set_conn u it c)
  unfolding set_conn update
  put-Sound u it c split others this = record {
    split = Keeps-IsSplit u (set_conn u it c) (Keeps-same u _ refl refl refl) split;
    fits = λ j made any. elim (Bool-cases (j == it)) [
      | inl same ↦ let e : j ≡ it = ground arith in rw (same, e) this
      | inr other ↦ rw other (others j made (λ e. ground arith))
    ];
    holding = tt;
  }

  -- The handler of a connection begins to run, or changes its connection.
  pub hold-Sound :
      (u : Usenet) (it : ℕ) (c : Connection)
      → IsSplit u
      → ((j : ℕ) → j < u.next_conn → j ≢ it → Fits (u.conns j) (tally j u.ready) (tally j u.busy))
      → 1 ≤ tally it u.busy
      → Sound (some (it, c)) (set_conn u it c)
  unfolding set_conn update
  hold-Sound u it c split others there = record {
    split = Keeps-IsSplit u (set_conn u it c) (Keeps-same u _ refl refl refl) split;
    fits = λ j made other.
        let differs : (j == it) ≡ false = ground arith in rw differs (others j made other);
    holding = (there, let same : (it == it) ≡ true = ground arith in rw same refl);
  }

  -- In m_busy and not in m_ready.
  pub busy-Fits :
      (u : Usenet) (it : ℕ) (c : Connection)
      → IsSplit u
      → 1 ≤ tally it u.busy
      → IsBusy algo heap c
      → Fits c (tally it u.ready) (tally it u.busy)
  busy-Fits u it c split there busy = record {
    at_rest = λ r. absurd (omega (arith, split.once it));
    at_work = λ b. busy;
    given_up = λ z. absurd (omega arith);
  }

  -- The connection whose handler is running has a request under way again.
  pub release-Sound :
      (u : Usenet) (it : ℕ) (c c' : Connection)
      → Sound (some (it, c)) u
      → IsBusy algo heap c'
      → Sound none (set_conn u it c')
  release-Sound u it c c' sound busy =
      put-Sound u it c' sound.split sound.fits (busy-Fits u it c' sound.split sound.holding.0 busy)
