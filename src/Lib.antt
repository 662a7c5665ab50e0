-- ===== src/Lib.antt =====
-- post2usenet: a program that encodes files by yEnc, in parts, and posts each part as an article to a
-- Usenet server, over a pool of connections.
--
-- The parts, from the file to the network, and the modules that model them:
--
-- - Yenc: src/yenc/yenc.cc and src/yenc/yenc.hpp, the encoder: needs_escaping, encode_next_line and
--   encode_block. Yenc.Decode holds a decoder written from the yEnc draft,
--   Yenc.Line and Yenc.Lines what the lines look like.
-- - YencGenerator: src/util/yencgenerator.cc, which reads a file and frames each part by =ybegin, =ypart
--   and =yend lines. The stream it reads, with its failbit, is in YencGenerator.Stream.
-- - Fileset: src/fileset.cc, the files to post, the subjects and the message ids.
-- - Message: src/nntp/message.cc, an article and its header. Message.Receive is the receiving side of
--   POST, written from RFC 3977.
-- - ConnectionInfo: src/nntp/connection_info.cc.
-- - Connection: src/nntp/connection.cc, src/nntp/connection.hpp and src/util/asio_helpers.hpp, the
--   protocol machine of one connection. An operation that has been started, and a function that has been
--   posted, is a value in the lists `pending` and `posted`; the function that its callback runs is in
--   Connection.Complete. Connection.Step is the relation of all that may happen: any operation may
--   complete with any outcome, any posted function may run, the timer may fire, and the owner may call.
-- - Usenet: src/nntp/usenet.cc, the pool. It hands a command to a ready connection or queues it, and
--   is told by its connections what became of it (Usenet.Events). Usenet.Acts is the relation of the
--   steps with the commands that they accept; the field `started` of the state is no variable of the
--   program but the history of the commands that have been run, and Usenet.Order.Queueing is a plain
--   line, to which Usenet.Order compares the pool. What holds m_bfm is one step, so the interleavings of
--   the threads are sequences of steps; a call that waits for m_queuecv gives `waits`, and goes on in
--   finish_wait.
-- - Pool: src/nntp/usenet.cc over its connections: the functions of the pool and the steps of the
--   connections that it has made, with the handlers between them; each handler is one step here,
--   though on_post_finished takes m_bfm twice. A slot of the client is a function on
--   the pool, and Pool.Sound has the invariant that a slot is to keep.
-- - Config: src/program_config.hpp and src/program_config.cc, the ini file and the command line.
-- - Main: src/main.cc. Main itself has the slot for failed posts, which changes the message id and
--   queues the article again or ends the program, and the nonces; the numbers of `rng` are an argument.
--   Main.Loop has the loops that make the articles and post them, Main.Nzb has write_nzb, Main.Report
--   has the slot for finished posts, and Main.Program has the rest of main, from the choice of the files
--   to the exit code. The other threads are a schedule, which may change all that the slots share before
--   each call, and while it waits.
-- - DummyServer: misc/dummy_usenet/dummy_server.cc, a server to try the program with: the session of one
--   client, as what it does at each line that it reads, and in DummyServer.Threads main, with the threads
--   as events in any order.
-- - Talk: src/nntp/connection.cc against misc/dummy_usenet/dummy_server.cc, a connection and a session with
--   the bytes under way between them. The network is reliable and hands over what has arrived in pieces
--   of any size; either end may go first, and
--   both end the TLS handshake in one step. Talk.Phase counts the steps that are left in a post,
--   and Talk.Login those that are left in a login.
-- - Boost: what the program asks of boost::filesystem, boost::algorithm,
--   boost::property_tree and boost::program_options, as records of operations and
--   of the documented behaviour that is relied on.
-- - Common: what the modules share. Tests: the theorems at concrete inputs.
--
-- Numbers. A size_t is a natural number, with its wrap at 2^64 written out where the program adds or
-- subtracts (add_size, sub_size); an int is in Common.Int. A text is a list of bytes.
--
-- Loops. encode_next_line reads its input list; encode_block is on fuel, and the length of the input is
-- enough, since each line reads a byte at least; the decimal digits of n take n + 1 as fuel. All else is
-- structural.
--
-- Not modelled: log output, and the descriptions of the options of src/program_config.cc; the arithmetic
-- on floating point in the report of the progress, which is an argument; the certificate of
-- misc/dummy_usenet/dummy_server.cc; TLS beyond the handshake as an operation that may fail;
-- memory that is read where it is undefined, which is a fault or an absent result where a step may meet
-- it. The std::thread objects and join are the order of the steps.
pub mod Common
pub mod Boost
pub mod Yenc
pub mod YencGenerator
pub mod Fileset
pub mod Message
pub mod ConnectionInfo
pub mod Connection
pub mod Talk
pub mod Usenet
pub mod Pool
pub mod Main
pub mod DummyServer
pub mod Config
pub mod Tests
