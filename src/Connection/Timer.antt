-- ===== src/Connection/Timer.antt =====
-- The timer of nntp/connection.cc, where a read fails.
use post2usenet.Common.{true, ◌≡◌, ◌≢◌, refl, arith, none, some}
use post2usenet.Boost.{StringAlgorithms}
use post2usenet.Connection.{
  Connection, Heap, disconnected, Reader, greeting, username_reply, password_reply, post_reply,
  article_reply, stat_reply, close,
}
use post2usenet.Connection.Complete.{completed_read, fire_timer, on_read_error}

-- A failed read leaves the timer as it is.
on_read_error-timer : (h : Reader) (c : Connection) → (on_read_error h c).timer ≡ c.timer
unfolding on_read_error
on_read_error-timer greeting c = refl
on_read_error-timer username_reply c = refl
on_read_error-timer password_reply c = refl
on_read_error-timer post_reply c = refl
on_read_error-timer article_reply c = refl
on_read_error-timer stat_reply c = refl

-- Where a read fails for another reason than the timer, the timer still runs, also when the owner
-- closes the connection; and if it then expires before a new attempt to connect opens the socket, the
-- cancelling of a socket that is not open throws. The shutdown succeeds, and the connection is not
-- disconnected before.
pub failed_read_leaves_timer :
    (algo : StringAlgorithms) (heap : Heap) (h : Reader) (c c' : Connection)
    → c.timer ≡ true
    → completed_read algo heap h none c ≡ some c'
    → c'.state ≢ disconnected
    → ((close true c').timer ≡ true) × (fire_timer (close true c') ≡ none)
unfolding completed_read close fire_timer
failed_read_leaves_timer algo heap h c c' armed e s =
    (ground (arith, on_read_error-timer h c), ground arith)
