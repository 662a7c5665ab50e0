-- ===== src/Tests/Connection.antt =====
-- The theorems on nntp/connection.cc at one post that goes well.
use post2usenet.Common.{
  true, List, [], ◌∷◌, ◌++◌, ◌≡◌, ◌≢◌, ◌⊎◌, refl, arith, ◌+◌, ◌≤◌, codes, Option, none, some, put,
}
use post2usenet.Common.Int.{pos, lt_one}
use post2usenet.Message.{Header, Article}
use post2usenet.Message.Receive.{receive, Passes-line}
use post2usenet.Message.Transparent.{IsPlain}
use post2usenet.Connection.{
  Connection, make_connection, State, Heap, writing, reading, post_cmd, article_text, post_reply,
  article_reply, Task, run_post, tell_post, async_post, send_parts, send_article, post_success,
  do_post, write, read_line, timeout_next_async_operation, cancel_timer, start_op, post_task,
  post_handler_callback, close,
}
use post2usenet.Connection.Complete.{
  completed_write, completed_read, run_task, on_line, on_written, on_read_error, fire_timer,
}
use post2usenet.Connection.Dialogue.{posts, quits}
use post2usenet.Connection.Step.{
  written, got, Serves, completes, runs, post, History, here, asked, served,
}
use post2usenet.Connection.Posting.{IsIdle}
use post2usenet.Connection.Posted.{Runs, stop, go_on, PostedState, async_post-answered}
use post2usenet.Connection.Answers.{owed, answers, requests, History-owed}
use post2usenet.Connection.Ending.{steps_left, Served, none_yet, one_more, comes_to_rest}
use post2usenet.Connection.Timer.{failed_read_leaves_timer}
use post2usenet.Connection.Sent.{send_parts-receive, kept_text}
use post2usenet.Tests.Data.{boost_algorithm, news_server}

abbrev test_header : Header
test_header = record {
  from = codes "poster";
  newsgroups = codes "alt.a" ∷ codes "alt.b" ∷ [];
  subject = codes "one";
  msgid = codes "<1@a>";
  additional = record { field = codes "X-A"; value = codes "b" } ∷ [];
}

abbrev pub test_article : Article
test_article = record { header = test_header; payload = codes "one line\r\n" ∷ [] }

abbrev pub test_heap : Heap
test_heap a = test_article

-- Authenticated, with nothing under way, and with a timeout of five seconds.
abbrev pub idle_connection : Connection
idle_connection = record (make_connection news_server (pos 5)) {
  state = State.connected_and_authenticated;
  socket_open = true;
}

abbrev or_idle : Option Connection → Connection
or_idle none = idle_connection
or_idle (some c) = c

abbrev wanted : Connection
wanted = (async_post idle_connection 7).0

abbrev commanding : Connection
commanding = (run_task (record wanted { posted = [] }) run_post).0

abbrev commanded : Connection
commanded = completed_write true true post_cmd (record commanding { pending = [] })

abbrev sending : Connection
sending = or_idle (
    completed_read boost_algorithm test_heap post_reply (some (codes "340 go on\r\n", 11))
      (record commanded { pending = [] }))

abbrev written_out : Connection
written_out = completed_write true true article_text (record sending { pending = [] })

abbrev answered : Connection
answered = or_idle (
    completed_read boost_algorithm test_heap article_reply (some (codes "240 done\r\n", 10))
      (record written_out { pending = [] }))

abbrev told_of : Connection
told_of = record answered { posted = [] }

abbrev one_answer : List Task
one_answer = tell_post (some 7) post_success ∷ []

run_step : Serves boost_algorithm test_heap wanted commanding []
unfolding async_post post_task make_connection run_task do_post write start_op
    timeout_next_async_operation lt_one completed_write on_written cancel_timer read_line
    completed_read on_line send_article post_handler_callback
run_step = runs [] [] run_post refl refl

command_step : Serves boost_algorithm test_heap commanding commanded []
unfolding async_post post_task make_connection run_task do_post write start_op
    timeout_next_async_operation lt_one completed_write on_written cancel_timer read_line
    completed_read on_line send_article post_handler_callback
command_step = completes [] [] (writing post_cmd) refl (written true true post_cmd refl refl) refl

invited_step : Serves boost_algorithm test_heap commanded sending []
unfolding async_post post_task make_connection run_task do_post write start_op
    timeout_next_async_operation lt_one completed_write on_written cancel_timer read_line
    completed_read on_line send_article post_handler_callback
invited_step =
    completes [] [] (reading post_reply) refl
      (got post_reply (some (codes "340 go on\r\n", 11)) refl refl) refl

text_step : Serves boost_algorithm test_heap sending written_out []
unfolding async_post post_task make_connection run_task do_post write start_op
    timeout_next_async_operation lt_one completed_write on_written cancel_timer read_line
    completed_read on_line send_article post_handler_callback
text_step =
    completes [] [] (writing article_text) refl (written true true article_text refl refl) refl

reply_step : Serves boost_algorithm test_heap written_out answered []
unfolding async_post post_task make_connection run_task do_post write start_op
    timeout_next_async_operation lt_one completed_write on_written cancel_timer read_line
    completed_read on_line send_article post_handler_callback
reply_step =
    completes [] [] (reading article_reply) refl
      (got article_reply (some (codes "240 done\r\n", 10)) refl refl) refl

tell_step : Serves boost_algorithm test_heap answered told_of one_answer
unfolding async_post post_task make_connection run_task do_post write start_op
    timeout_next_async_operation lt_one completed_write on_written cancel_timer read_line
    completed_read on_line send_article post_handler_callback
tell_step = runs [] [] (tell_post (some 7) post_success) refl refl

whole_post : Runs boost_algorithm test_heap wanted told_of one_answer
whole_post =
    go_on
      (go_on (go_on (go_on (go_on (go_on stop run_step) command_step) invited_step) text_step)
        reply_step)
      tell_step

posted_now : async_post idle_connection 7 ≡ (wanted, true)
unfolding async_post make_connection
posted_now = refl

whole-History : History boost_algorithm test_heap idle_connection told_of (posts ∷ []) one_answer
whole-History =
    served
      (served
        (served
          (served (served (served (asked here (post 7 posted_now refl)) run_step) command_step)
            invited_step)
          text_step)
        reply_step)
      tell_step

six_steps : Served boost_algorithm test_heap wanted 6 told_of
six_steps =
    one_more one_answer
      (one_more []
        (one_more []
          (one_more [] (one_more [] (one_more [] none_yet run_step) command_step) invited_step)
          text_step)
        reply_step)
      tell_step

ready_now : idle_connection.state ≡ State.connected_and_authenticated
ready_now = refl

idle_connection-IsIdle : IsIdle idle_connection
unfolding make_connection
idle_connection-IsIdle = record { no_op = refl; no_task = refl }

async_post-answered_example :
    ((async_post idle_connection 7).1 ≡ true)
    × PostedState boost_algorithm test_heap 7 idle_connection.sent told_of one_answer
async_post-answered_example =
    async_post-answered boost_algorithm test_heap 7 idle_connection told_of one_answer ready_now
      idle_connection-IsIdle whole_post

posts_no_quit : posts ≢ quits
posts_no_quit e = ground arith

History-owed_example :
    owed posts told_of + answers posts one_answer
    ≡ owed posts idle_connection + requests posts (posts ∷ [])
History-owed_example =
    History-owed boost_algorithm test_heap posts idle_connection told_of (posts ∷ []) one_answer
      posts_no_quit whole-History

comes_to_rest_example :
    (6 + steps_left told_of ≤ steps_left wanted)
    × (((told_of.pending ≡ []) × (told_of.posted ≡ []))
        ⊎ ((c'' : Connection) × (told : List Task) × Serves boost_algorithm test_heap told_of c''
              told))
comes_to_rest_example = comes_to_rest boost_algorithm test_heap 6 wanted told_of six_steps

-- The reply to POST is not read: the connection breaks off.
abbrev broken : Connection
broken =
    or_idle
      (completed_read boost_algorithm test_heap post_reply none (record commanded { pending = [] }))

breaks :
    completed_read boost_algorithm test_heap post_reply none (record commanded { pending = [] })
    ≡ some broken
unfolding completed_read
breaks = refl

timer_runs : commanded.timer ≡ true
unfolding make_connection async_post post_task run_task do_post write start_op
    timeout_next_async_operation lt_one completed_write on_written cancel_timer read_line
timer_runs = refl

still_open : broken.state ≢ State.disconnected
unfolding completed_read on_read_error post_handler_callback post_task
still_open e = ground arith

failed_read_leaves_timer_example :
    ((close true broken).timer ≡ true) × (fire_timer (close true broken) ≡ none)
failed_read_leaves_timer_example =
    failed_read_leaves_timer boost_algorithm test_heap post_reply
      (record commanded { pending = [] }) broken timer_runs breaks still_open

test_header-IsPlain : IsPlain boost_algorithm test_header
test_header-IsPlain = record {
  from = omega arith;
  newsgroups = omega arith;
  subject = omega arith;
  msgid = omega arith;
  additional = omega arith;
}

send_parts-receive_example :
    receive (put (send_parts boost_algorithm test_article) ++ codes "QUIT")
    ≡ some (kept_text boost_algorithm test_article, codes "QUIT")
send_parts-receive_example =
    send_parts-receive boost_algorithm test_article (codes "QUIT") test_header-IsPlain
      (Passes-line (codes "one line") (omega arith) (omega arith), tt)
