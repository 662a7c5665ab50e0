-- ===== src/Main.antt =====
-- main.cc: the nonces, the maps, and what the program does when a post has failed.
pub mod Nonce
pub mod Retry
pub mod Loop
pub mod Nzb
pub mod Program
pub mod Report
use post2usenet.Common.{
  ℕ, zero, suc, ◌+◌, ◌%◌, Bool, true, false, not, ◌&&◌, List, [], ◌∷◌, ◌++◌, Bytes, codes, put,
  Option, none, some, get_elem?, ◌==◌, leb, if◌then◌else◌,
}
use post2usenet.Common.Result.{Result, ok, err}
use post2usenet.Boost.{StringAlgorithms}
use post2usenet.Message.{Element, Header, Article, write_to, write_payload_asio_buffers}
use post2usenet.Fileset.{FilepieceKey, key_lt, get_usenet_message_id, get_key_from_message_id}
use post2usenet.Connection.{Heap}
use post2usenet.Usenet.{Usenet, Fault, Enqueued, done, waits, enqueue_post}

abbrev pub nonce_length : ℕ
nonce_length = 16

abbrev pub choices : Bytes
choices = codes "abcdefghijklmnopqrstuvwxyz1234567890"

-- `choices[n]` below the length of the array; only this is asked for.
unfoldable pub choice : ℕ → Bytes → ℕ
choice n [] = 0
choice zero (c ∷ rest) = c
choice (suc n) (c ∷ rest) = choice n rest

-- The numbers that `rng` gives are an argument, by their place; the text, and the next place.
pub get_run_nonce : (ℕ → ℕ) → ℕ → ℕ → ℕ × Bytes
unfolding choice
get_run_nonce rng at zero = (at, [])
get_run_nonce rng at (suc length) =
    let (after, rest) = get_run_nonce rng (at + 1) length in
    (after, choice (rng at % 36) choices ∷ rest)

-- The maps of main, by key; as in std::map, keys are the same where none is below the other.
same_key : FilepieceKey → FilepieceKey → Bool
same_key a b = not (key_lt a b) && not (key_lt b a)

unfoldable pub lookup {ℓ} : {A : Type ℓ} → FilepieceKey → List (FilepieceKey × A) → Option A
unfolding same_key
lookup key [] = none
lookup key ((k, a) ∷ rest) = let more = lookup key rest in if same_key key k then some a else more

-- A new entry hides an old one.
unfoldable pub insert {ℓ} :
    {A : Type ℓ} → FilepieceKey → A → List (FilepieceKey × A) → List (FilepieceKey × A)
insert key a entries = (key, a) ∷ entries

-- What the slots of main share: the articles, the pool, the place in the numbers of `rng`, and the two
-- maps.
pub record Poster : Type 0 where
  pub heap : Heap
  pub usenet : Usenet
  pub rng_at : ℕ
  -- The file for a dump can be opened.
  pub dump_opens : Bool
  pub msgid_retries : List (FilepieceKey × ℕ)
  pub msgid_exceptions : List (FilepieceKey × Bytes)

-- How the slot ends: the post is queued again; the program exits with code 1, with the text that it
-- dumps, if the file opens; the id of the message has no key; a fault of the pool; or an assertion fails.
pub data PostFailed : Type 0 where
  requeued : Poster → PostFailed
  exited : Option Bytes → PostFailed
  no_key no_payload : PostFailed
  pool_fault : Fault → PostFailed

unfoldable pub update_article : Heap → ℕ → Article → ℕ → Article
update_article heap msg a j = if j == msg then a else heap j

-- The header of a retry: some random data more, and a new message id.
pub new_header : Header → FilepieceKey → Bytes → Bytes → Bytes → Bytes → Header
new_header h key domain random_key random_value nonce = record h {
  additional =
      h.additional ++ record { field = codes "X-Random-" ++ random_key; value = random_value } ∷ [];
  msgid = get_usenet_message_id nonce domain key.file_index key.piece_index;
}

-- A call that bypasses the wait never waits.
unfoldable pub enqueued : Poster → Result Fault Enqueued → PostFailed
enqueued p (ok (done u')) = requeued (record p { usenet = u' })
enqueued p (ok (waits cmd)) = requeued p
enqueued p (err e) = pool_fault e

-- The end of the slot, once the retry has been counted.
unfoldable pub retry : (ℕ → ℕ) → Bytes → Poster → ℕ → FilepieceKey → PostFailed
unfolding update_article new_header insert enqueued
retry rng domain p msg key =
    let (at1, random_key) = get_run_nonce rng p.rng_at 10 in
    let (at2, random_value) = get_run_nonce rng at1 5 in
    let (at3, nonce) = get_run_nonce rng at2 nonce_length in
    let a = p.heap msg in
    let a' = record a { header = new_header a.header key domain random_key random_value nonce } in
    let changed = record p {
      heap = update_article p.heap msg a';
      rng_at = at3;
      msgid_exceptions = insert key nonce p.msgid_exceptions;
    } in
    enqueued changed (enqueue_post p.usenet msg true)

-- The dump of an article that has failed too often.
pub give_up : StringAlgorithms → Bool → Article → PostFailed
give_up algo dump_opens a =
    if not dump_opens then exited none else elim (write_payload_asio_buffers a) [
      | [] ↦ no_payload
      | piece ∷ pieces ↦ exited (
          some (
            write_to algo a.header
            ++ (codes "\r\n" ++ (put (piece ∷ pieces) ++ codes "\r\n.\r\n"))))
    ]

-- The slot for failed posts.
unfoldable pub on_post_failed : StringAlgorithms → (ℕ → ℕ) → Bytes → Poster → ℕ → PostFailed
unfolding lookup insert retry give_up
on_post_failed algo rng domain p msg = elim (get_key_from_message_id (p.heap msg).header.msgid) [
  | none ↦ no_key
  | some key ↦ elim (lookup key p.msgid_retries) [
    | none ↦ retry rng domain (record p { msgid_retries = insert key 1 p.msgid_retries }) msg key
    | some n ↦
        if leb 3 (n + 1)
        then give_up algo p.dump_opens (p.heap msg)
        else retry rng domain (record p { msgid_retries = insert key (n + 1) p.msgid_retries }) msg
            key
  ]
]
