-- ===== src/Connection/Dialogue.antt =====
-- The dialogue of nntp/connection.cc with a server as a graph, and where each callback leads in it.
use post2usenet.Common.{
  ℕ, Bool, true, false, List, [], ◌∷◌, ◌++◌, ◌≡◌, ◌≢◌, inl, inr, refl, arith, Bytes, Option, some,
  Bool-cases, some_inj, codes, ◌==◌,
}
use mathlib.Core.Path.{subst}
use post2usenet.Boost.{StringAlgorithms}
use post2usenet.Connection.{
  Connection, Heap, Op, resolving, opening, handshaking, writing, reading, Writer, username_cmd,
  password_cmd, post_cmd, article_text, stat_cmd, quit_cmd, Reader, greeting, username_reply,
  password_reply, post_reply, article_reply, stat_reply, Task, run_connect, run_post, run_stat,
  tell_connect, tell_post, tell_stat, first_byte, check_authinfo_result, ConnectResult,
  fatal_connect_error, invalid_credentials, connect_success, PostResult, post_success,
  posting_not_permitted, post_failure, post_failure_connection_error, StatResult, article_exists,
  invalid_article, connection_error,
}
use post2usenet.Connection.Complete.{
  completed_resolve, completed_handshake, completed_connect, completed_write, on_line,
  on_read_error,
}

-- A started operation or a posted task.
pub data Item : Type 0 where
  op : Op → Item
  task : Task → Item

-- What a request, an operation or a callback is about.
pub data Kind : Type 0 where
  connects posts stats quits : Kind

kind_of_op : Op → Kind
kind_of_op resolving = connects
kind_of_op opening = connects
kind_of_op handshaking = connects
kind_of_op (writing username_cmd) = connects
kind_of_op (writing password_cmd) = connects
kind_of_op (writing post_cmd) = posts
kind_of_op (writing article_text) = posts
kind_of_op (writing stat_cmd) = stats
kind_of_op (writing quit_cmd) = quits
kind_of_op (reading greeting) = connects
kind_of_op (reading username_reply) = connects
kind_of_op (reading password_reply) = connects
kind_of_op (reading post_reply) = posts
kind_of_op (reading article_reply) = posts
kind_of_op (reading stat_reply) = stats

kind_of_task : Task → Kind
kind_of_task run_connect = connects
kind_of_task run_post = posts
kind_of_task run_stat = stats
kind_of_task (tell_connect r) = connects
kind_of_task (tell_post a r) = posts
kind_of_task (tell_stat m r) = stats

unfoldable pub kind : Item → Kind
unfolding kind_of_op kind_of_task
kind (op o) = kind_of_op o
kind (task t) = kind_of_task t

-- What may come next: the dialogue with the server as a graph. Whatever goes wrong is told.
pub data Follows : Item → Item → Type 0 where
  connect_resolve : Follows (task run_connect) (op resolving)
  resolve_open : Follows (op resolving) (op opening)
  open_handshake : Follows (op opening) (op handshaking)
  open_greet : Follows (op opening) (op (reading greeting))
  handshake_greet : Follows (op handshaking) (op (reading greeting))
  greet_user : Follows (op (reading greeting)) (op (writing username_cmd))
  user_answer : Follows (op (writing username_cmd)) (op (reading username_reply))
  user_pass : Follows (op (reading username_reply)) (op (writing password_cmd))
  pass_answer : Follows (op (writing password_cmd)) (op (reading password_reply))
  post_command : Follows (task run_post) (op (writing post_cmd))
  post_answer : Follows (op (writing post_cmd)) (op (reading post_reply))
  post_text : Follows (op (reading post_reply)) (op (writing article_text))
  text_answer : Follows (op (writing article_text)) (op (reading article_reply))
  stat_command : Follows (task run_stat) (op (writing stat_cmd))
  stat_answer : Follows (op (writing stat_cmd)) (op (reading stat_reply))
  connect_told :
      (o : Op) (r : ConnectResult) → kind (op o) ≡ connects → Follows (op o) (task (tell_connect r))
  post_told :
      (o : Op) (a : Option ℕ) (r : PostResult)
      → kind (op o) ≡ posts
      → Follows (op o) (task (tell_post a r))
  stat_told :
      (o : Op) (m : Bytes) (r : StatResult)
      → kind (op o) ≡ stats
      → Follows (op o) (task (tell_stat m r))

abbrev pub add_op : Item → List Op → List Op
add_op (op o) os = os ++ o ∷ []
add_op (task t) os = os

abbrev pub add_task : Item → List Task → List Task
add_task (op o) ts = ts
add_task (task t) ts = ts ++ t ∷ []

-- One item has been added, and nothing taken.
pub record Grown (c c' : Connection) (i : Item) : Type 0 where
  pub started : c'.pending ≡ add_op i c.pending
  pub queued : c'.posted ≡ add_task i c.posted

-- A connection whose callback has led to one item that may come next.
abbrev pub LeadsOn : Item → Connection → Connection → Type 0
LeadsOn i c c' = (j : Item) × Follows i j × Grown c c' j

pub completed_resolve-LeadsOn :
    (ok : Bool) (c : Connection) → LeadsOn (op resolving) c (completed_resolve ok c)
unfolding completed_resolve kind
completed_resolve-LeadsOn true c = (op opening, resolve_open, ground arith)
completed_resolve-LeadsOn false c =
    (task (tell_connect fatal_connect_error), connect_told resolving _ refl, ground arith)

pub completed_handshake-LeadsOn :
    (ok : Bool) (c : Connection) → LeadsOn (op handshaking) c (completed_handshake ok c)
unfolding completed_handshake kind
completed_handshake-LeadsOn true c = (op (reading greeting), handshake_greet, ground arith)
completed_handshake-LeadsOn false c =
    (task (tell_connect fatal_connect_error), connect_told handshaking _ refl, ground arith)

pub completed_connect-LeadsOn :
    (ok : Bool) (c : Connection) → LeadsOn (op opening) c (completed_connect ok c)
unfolding completed_connect kind
completed_connect-LeadsOn false c =
    (task (tell_connect fatal_connect_error), connect_told opening _ refl, ground arith)
completed_connect-LeadsOn true c = elim (Bool-cases c.sslstream) [
  | inl tls ↦ (op handshaking, open_handshake, ground arith)
  | inr plain ↦ (op (reading greeting), open_greet, ground arith)
]

pub completed_write-LeadsOn :
    (shutdown_ok ok : Bool) (h : Writer) (c : Connection)
    → h ≢ quit_cmd
    → LeadsOn (op (writing h)) c (completed_write shutdown_ok ok h c)
unfolding completed_write kind
completed_write-LeadsOn shutdown_ok true username_cmd c n =
    (op (reading username_reply), user_answer, ground arith)
completed_write-LeadsOn shutdown_ok true password_cmd c n =
    (op (reading password_reply), pass_answer, ground arith)
completed_write-LeadsOn shutdown_ok true post_cmd c n =
    (op (reading post_reply), post_answer, ground arith)
completed_write-LeadsOn shutdown_ok true article_text c n =
    (op (reading article_reply), text_answer, ground arith)
completed_write-LeadsOn shutdown_ok true stat_cmd c n =
    (op (reading stat_reply), stat_answer, ground arith)
completed_write-LeadsOn shutdown_ok false username_cmd c n =
    (task _, connect_told _ fatal_connect_error refl, ground arith)
completed_write-LeadsOn shutdown_ok false password_cmd c n =
    (task _, connect_told _ fatal_connect_error refl, ground arith)
completed_write-LeadsOn shutdown_ok false post_cmd c n =
    (task _, post_told _ c.article post_failure_connection_error refl, ground arith)
completed_write-LeadsOn shutdown_ok false article_text c n =
    (task _, post_told _ c.article post_failure_connection_error refl, ground arith)
completed_write-LeadsOn shutdown_ok false stat_cmd c n =
    (task _, stat_told _ c.msgid connection_error refl, ground arith)
completed_write-LeadsOn shutdown_ok ok quit_cmd c n = absurd (n refl)

-- A read hands over an error or a line; a null article is the only fault.
pub on_read_error-LeadsOn :
    (h : Reader) (c : Connection) → LeadsOn (op (reading h)) c (on_read_error h c)
unfolding on_read_error kind
on_read_error-LeadsOn greeting c = (task _, connect_told _ fatal_connect_error refl, ground arith)
on_read_error-LeadsOn username_reply c =
    (task _, connect_told _ fatal_connect_error refl, ground arith)
on_read_error-LeadsOn password_reply c =
    (task _, connect_told _ fatal_connect_error refl, ground arith)
on_read_error-LeadsOn post_reply c =
    (task _, post_told _ c.article post_failure_connection_error refl, ground arith)
on_read_error-LeadsOn article_reply c =
    (task _, post_told _ c.article post_failure_connection_error refl, ground arith)
on_read_error-LeadsOn stat_reply c =
    (task _, stat_told _ c.msgid connection_error refl, ground arith)

check_authinfo_result-LeadsOn :
    (h : Reader) (line : Bytes) (c : Connection)
    → kind (op (reading h)) ≡ connects
    → LeadsOn (op (reading h)) c (check_authinfo_result c line)
unfolding check_authinfo_result kind
check_authinfo_result-LeadsOn h line c k = elim (Bool-cases (first_byte line == b'2')) [
  | inl e ↦ (task _, connect_told _ connect_success k, ground arith)
  | inr e ↦ (task _, connect_told _ invalid_credentials k, ground arith)
]

pub on_line-LeadsOn :
    (algo : StringAlgorithms) (heap : Heap) (h : Reader) (line : Bytes) (c c' : Connection)
    → on_line algo heap h line c ≡ some c'
    → LeadsOn (op (reading h)) c c'
unfolding on_line kind
on_line-LeadsOn algo heap greeting line c c' e = elim (Bool-cases (first_byte line == b'2')) [
  | inl good ↦ (op (writing username_cmd), greet_user, ground arith)
  | inr bad ↦ (task _, connect_told _ fatal_connect_error refl, ground arith)
]
on_line-LeadsOn algo heap username_reply line c c' e =
    elim (Bool-cases (algo.starts_with line (codes "381"))) [
      | inl more ↦ (op (writing password_cmd), user_pass, ground arith)
      | inr done ↦
          subst (LeadsOn (op (reading username_reply)) c) (some_inj _ c' (rw done at e))
            (check_authinfo_result-LeadsOn username_reply line c refl)
    ]
on_line-LeadsOn algo heap password_reply line c c' e =
    subst (LeadsOn (op (reading password_reply)) c) (some_inj _ c' e)
      (check_authinfo_result-LeadsOn password_reply line c refl)
on_line-LeadsOn algo heap post_reply line c c' e = elim (Bool-cases (first_byte line == b'4')) [
  | inl refused ↦ (task _, post_told _ c.article posting_not_permitted refl, ground arith)
  | inr go_on ↦ (op (writing article_text), post_text, ground arith)
]
on_line-LeadsOn algo heap article_reply line c c' e = elim (Bool-cases (first_byte line == b'2')) [
  | inl good ↦ (task _, post_told _ c.article post_success refl, ground arith)
  | inr bad ↦ (task _, post_told _ c.article post_failure refl, ground arith)
]
on_line-LeadsOn algo heap stat_reply line c c' e = elim (Bool-cases (first_byte line == b'2')) [
  | inl good ↦ (task _, stat_told _ c.msgid article_exists refl, ground arith)
  | inr bad ↦ (task _, stat_told _ c.msgid invalid_article refl, ground arith)
]
