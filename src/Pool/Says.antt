-- ===== src/Pool/Says.antt =====
-- What a connection of nntp/connection.cc is about to say to the pool, and in which state it then is.
use mathlib.Core.Path.{subst}
use post2usenet.Common.{
  some_inj, ℕ, Bool, true, false, [], ◌∷◌, ◌≡◌, inl, inr, arith, Bytes, codes, Option, none, some,
  take, Bool-cases, ◌==◌,
}
use post2usenet.Boost.{StringAlgorithms}
use post2usenet.Connection.{
  Connection, Heap, Op, Writer, username_cmd, password_cmd, post_cmd, article_text, stat_cmd,
  quit_cmd, Reader, greeting, username_reply, password_reply, post_reply, article_reply, stat_reply,
  tell_connect, tell_stat, connect_success, StatResult, connected_and_authenticated, first_byte,
  check_authinfo_result,
}
use post2usenet.Connection.Complete.{
  completed_resolve, completed_connect, completed_handshake, completed_write, completed_read,
  on_line, on_read_error,
}
use post2usenet.Connection.Posting.{IsIdle}
use post2usenet.Connection.Step.{Completes, resolved, opened, handshaken, written, got}

-- A connection that is to tell of a success, or of a stat, is ready.
pub record SaysReady (c : Connection) : Type 0 where
  pub connect : c.posted ≡ tell_connect connect_success ∷ [] → c.state ≡ connected_and_authenticated
  pub stat :
      (m : Bytes) (r : StatResult)
      → c.posted ≡ tell_stat m r ∷ []
      → c.state ≡ connected_and_authenticated

resolve-SaysReady : (ok : Bool) (c : Connection) → IsIdle c → SaysReady (completed_resolve ok c)
unfolding completed_resolve
resolve-SaysReady true c idle = record {
  connect = λ e. absurd (ground arith);
  stat = λ m r e. absurd (ground arith);
}
resolve-SaysReady false c idle = record {
  connect = λ e. absurd (ground arith);
  stat = λ m r e. absurd (ground arith);
}

connect-SaysReady : (ok : Bool) (c : Connection) → IsIdle c → SaysReady (completed_connect ok c)
unfolding completed_connect
connect-SaysReady true c idle = record {
  connect = λ e. absurd (ground arith);
  stat = λ m r e. absurd (ground arith);
}
connect-SaysReady false c idle = record {
  connect = λ e. absurd (ground arith);
  stat = λ m r e. absurd (ground arith);
}

handshake-SaysReady : (ok : Bool) (c : Connection) → IsIdle c → SaysReady (completed_handshake ok c)
unfolding completed_handshake
handshake-SaysReady true c idle = record {
  connect = λ e. absurd (ground arith);
  stat = λ m r e. absurd (ground arith);
}
handshake-SaysReady false c idle = record {
  connect = λ e. absurd (ground arith);
  stat = λ m r e. absurd (ground arith);
}

write-SaysReady :
    (s ok : Bool) (h : Writer) (c : Connection) → IsIdle c → SaysReady (completed_write s ok h c)
unfolding completed_write
write-SaysReady s ok username_cmd c idle = record {
  connect = λ e. absurd (ground arith);
  stat = λ m r e. absurd (ground arith);
}
write-SaysReady s ok password_cmd c idle = record {
  connect = λ e. absurd (ground arith);
  stat = λ m r e. absurd (ground arith);
}
write-SaysReady s ok post_cmd c idle = record {
  connect = λ e. absurd (ground arith);
  stat = λ m r e. absurd (ground arith);
}
write-SaysReady s ok article_text c idle = record {
  connect = λ e. absurd (ground arith);
  stat = λ m r e. absurd (ground arith);
}
write-SaysReady s ok stat_cmd c idle = record {
  connect = λ e. absurd (ground arith);
  stat = λ m r e. ground arith;
}
write-SaysReady s ok quit_cmd c idle = record {
  connect = λ e. absurd (ground arith);
  stat = λ m r e. absurd (ground arith);
}

error-SaysReady : (h : Reader) (c : Connection) → IsIdle c → SaysReady (on_read_error h c)
unfolding on_read_error
error-SaysReady greeting c idle = record {
  connect = λ e. absurd (ground arith);
  stat = λ m r e. absurd (ground arith);
}
error-SaysReady username_reply c idle = record {
  connect = λ e. absurd (ground arith);
  stat = λ m r e. absurd (ground arith);
}
error-SaysReady password_reply c idle = record {
  connect = λ e. absurd (ground arith);
  stat = λ m r e. absurd (ground arith);
}
error-SaysReady post_reply c idle = record {
  connect = λ e. absurd (ground arith);
  stat = λ m r e. absurd (ground arith);
}
error-SaysReady article_reply c idle = record {
  connect = λ e. absurd (ground arith);
  stat = λ m r e. absurd (ground arith);
}
error-SaysReady stat_reply c idle = record {
  connect = λ e. absurd (ground arith);
  stat = λ m r e. ground arith;
}

checked-SaysReady :
    (c : Connection) (line : Bytes) → IsIdle c → SaysReady (check_authinfo_result c line)
unfolding check_authinfo_result
checked-SaysReady c line idle = elim (Bool-cases (first_byte line == b'2')) [
  | inl good ↦ record { connect = λ e. ground arith; stat = λ m r e. absurd (ground arith) }
  | inr bad ↦ record { connect = λ e. absurd (ground arith); stat = λ m r e. absurd (ground arith) }
]

module _ (algo : StringAlgorithms) (heap : Heap) where
  line-SaysReady :
      (h : Reader) (line : Bytes) (c c' : Connection)
      → IsIdle c
      → on_line algo heap h line c ≡ some c'
      → SaysReady c'
  unfolding on_line
  line-SaysReady greeting line c c' idle e = record {
    connect = λ k. absurd (ground arith);
    stat = λ m r k. absurd (ground arith);
  }
  line-SaysReady username_reply line c c' idle e =
      elim (Bool-cases (algo.starts_with line (codes "381"))) [
        | inl more ↦ record {
          connect = λ k. absurd (ground arith);
          stat = λ m r k. absurd (ground arith);
        }
        | inr done ↦ subst SaysReady (some_inj _ c' (rw done at e)) (checked-SaysReady c line idle)
      ]
  line-SaysReady password_reply line c c' idle e =
      subst SaysReady (some_inj _ c' e) (checked-SaysReady c line idle)
  line-SaysReady post_reply line c c' idle e = record {
    connect = λ k. absurd (ground arith);
    stat = λ m r k. absurd (ground arith);
  }
  line-SaysReady article_reply line c c' idle e = record {
    connect = λ k. absurd (ground arith);
    stat = λ m r k. absurd (ground arith);
  }
  line-SaysReady stat_reply line c c' idle e = record {
    connect = λ k. absurd (ground arith);
    stat = λ m r k. ground arith;
  }

  read-SaysReady :
      (h : Reader) (outcome : Option (Bytes × ℕ)) (c c' : Connection)
      → IsIdle c
      → completed_read algo heap h outcome c ≡ some c'
      → SaysReady c'
  unfolding completed_read
  read-SaysReady h none c c' idle e = subst SaysReady (some_inj _ c' e) (error-SaysReady h c idle)
  read-SaysReady h (some (buffer, n)) c c' idle e =
      line-SaysReady h (take n buffer) _ c' (record { no_op = idle.no_op; no_task = idle.no_task })
        e

  pub Completes-SaysReady :
      (o : Op) (c c' : Connection) → IsIdle c → Completes algo heap o c c' → SaysReady c'
  Completes-SaysReady o c c' idle (resolved ok p q) = rw q (resolve-SaysReady ok c idle)
  Completes-SaysReady o c c' idle (opened ok p q) = rw q (connect-SaysReady ok c idle)
  Completes-SaysReady o c c' idle (handshaken ok p q) = rw q (handshake-SaysReady ok c idle)
  Completes-SaysReady o c c' idle (written s ok h p q) = rw q (write-SaysReady s ok h c idle)
  Completes-SaysReady o c c' idle (got h r p q) = read-SaysReady h r c c' idle q
