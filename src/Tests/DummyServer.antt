-- ===== src/Tests/DummyServer.antt =====
-- The theorem on misc/dummy_usenet/dummy_server.cc at a session with one article of two lines.
use post2usenet.Common.{
  true, false, refl, ◌++◌, some, get_elem?, List, [], ◌∷◌, map, ◌≡◌, arith, Bytes, codes, put,
}
use post2usenet.Common.Decimal.{to_decimal, stoul-to_decimal}
use post2usenet.DummyServer.Threads.{
  Server, Event, accepts, hears, on_event, on_events, is_terminated, no_sessions, lines_of, main_of,
  listens,
}
use post2usenet.DummyServer.Threads.Alone.{on_events-usenet_session}
use post2usenet.DummyServer.{
  shake_hands, read_lines, on_request, wants_command, usenet_session, server_welcome, server_auth,
  server_auth_success,
}
use post2usenet.DummyServer.Lines.{ended, IsBodyLine, kept}
use post2usenet.DummyServer.Sessions.{replies, client_lines, usenet_session-posts}
use post2usenet.Tests.Data.{boost_algorithm}

header_line : IsBodyLine (codes "From: a")
header_line = record { one_line = omega arith; no_null = omega arith; no_end = λ e. ground arith }

dots : IsBodyLine (codes "..")
dots = record { one_line = omega arith; no_null = omega arith; no_end = λ e. ground arith }

abbrev body : List Bytes
body = codes "From: a" ∷ codes ".." ∷ []

usenet_session-posts_example :
    usenet_session boost_algorithm true
      (put (map ended (client_lines boost_algorithm (codes "u") (codes "p") (body ∷ []))))
    ≡ record {
      stage = wants_command;
      written = server_welcome ∷ server_auth ∷ server_auth_success ∷ replies boost_algorithm 1;
      files = map kept (body ∷ []);
    }
usenet_session-posts_example =
    usenet_session-posts boost_algorithm (codes "u") (codes "p") (body ∷ []) (omega arith)
      (omega arith) ((header_line, (dots, tt)), tt)

-- Two clients whose lines are read in turn.
abbrev first_client : List Event
first_client = accepts true ∷ []

abbrev both_clients : List Event
both_clients =
    hears 1 (codes "AUTHINFO USER u\r\n")
    ∷ hears 0 (codes "AUTHINFO USER a\r\n")
    ∷ hears 0 (codes "NONE\r\n")
    ∷ hears 1 (codes "AUTHINFO PASS p\r\n")
    ∷ []

abbrev both : Server
both = on_events boost_algorithm no_sessions (first_client ++ accepts true ∷ both_clients)

still_running : both.running ≡ true
unfolding on_events on_event on_request is_terminated shake_hands
still_running = refl

second_lines :
    lines_of 1 both_clients ≡ read_lines false [] (codes "AUTHINFO USER u\r\nAUTHINFO PASS p\r\n")
unfolding read_lines
second_lines = refl

on_events-usenet_session_example :
    get_elem? both.sessions 1
    ≡ some (usenet_session boost_algorithm true (codes "AUTHINFO USER u\r\nAUTHINFO PASS p\r\n"))
on_events-usenet_session_example =
    on_events-usenet_session boost_algorithm first_client both_clients true
      (codes "AUTHINFO USER u\r\nAUTHINFO PASS p\r\n") still_running second_lines

-- A port is taken modulo 2 ^ 16.
port_wraps : main_of (codes "dummy_server" ∷ to_decimal 65656 ∷ []) ≡ listens 120
unfolding main_of
port_wraps = rw (main_of, stoul-to_decimal 65656 (omega arith)) refl
