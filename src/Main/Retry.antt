-- ===== src/Main/Retry.antt =====
-- The slot of main.cc for failed posts: how often an article is tried again.
use post2usenet.Common.{
  ℕ, zero, suc, ◌+◌, ◌≤◌, ◌<◌, Bool, false, ◌≢◌, List, ◌≡◌, ◌⊎◌, inl, inr, refl, sym, ap, ◌∙◌,
  arith, Bytes, Option, none, some, length, size_mod, leb, [], ◌++◌, codes, put, if◌then◌else◌,
  List-cases,
}
use post2usenet.Common.Find.{npos}
use post2usenet.Common.Result.{Result, ok, err}
use post2usenet.Boost.{StringAlgorithms}
use post2usenet.Message.{Header, Article, write_to, write_payload_asio_buffers}
use post2usenet.Fileset.{FilepieceKey, get_usenet_message_id, get_key_from_message_id}
use post2usenet.Fileset.Keys.{key_lt_strict_order}
use post2usenet.Fileset.MessageId.{get_key-get_usenet_message_id}
use post2usenet.Usenet.{Fault, Enqueued, done, waits}
use post2usenet.Main.{
  nonce_length, get_run_nonce, same_key, lookup, insert, Poster, PostFailed, requeued, exited,
  update_article, new_header, enqueued, retry, give_up, on_post_failed,
}
use post2usenet.Main.Nonce.{get_run_nonce-Lacks}

pub lookup-insert {ℓ} :
    {A : Type ℓ} (key : FilepieceKey) (a : A) (entries : List (FilepieceKey × A))
    → lookup key (insert key a entries) ≡ some a
unfolding lookup insert same_key
lookup-insert key a entries = let (same, _, _) = key_lt_strict_order key key key in ground arith

-- The parts of a message id that fit: the indices of the key are of type size_t, and the id with a
-- nonce is shorter than 2^64 - 1 bytes.
pub record IsShort (domain : Bytes) (key : FilepieceKey) : Type 0 where
  pub file : key.file_index < size_mod
  pub piece : key.piece_index < size_mod
  pub id :
      (nonce : Bytes)
      → length nonce ≡ nonce_length
      → length (get_usenet_message_id nonce domain key.file_index key.piece_index) < npos

pub requeued_inj : (p p' : Poster) → requeued p ≡ requeued p' → p ≡ p'
requeued_inj p p' e = cc

pub enqueued-same :
    (p p' : Poster) (r : Result Fault Enqueued)
    → enqueued p r ≡ requeued p'
    → (p'.heap ≡ p.heap)
      × (p'.msgid_retries ≡ p.msgid_retries)
      × (p'.msgid_exceptions ≡ p.msgid_exceptions)
unfolding enqueued
enqueued-same p p' (ok (done u')) e =
    let same = requeued_inj _ p' e in
    (
      ap (λ (q : Poster). q.heap) (sym same),
      ap (λ (q : Poster). q.msgid_retries) (sym same),
      ap (λ (q : Poster). q.msgid_exceptions) (sym same),
    )
enqueued-same p p' (ok (waits cmd)) e =
    let same = requeued_inj p p' e in
    (
      ap (λ (q : Poster). q.heap) (sym same),
      ap (λ (q : Poster). q.msgid_retries) (sym same),
      ap (λ (q : Poster). q.msgid_exceptions) (sym same),
    )
enqueued-same p p' (err x) e = ground arith

pub update_article-same :
    (heap : ℕ → Article) (msg : ℕ) (a : Article) → update_article heap msg a msg ≡ a
unfolding update_article
update_article-same heap msg a = ground arith

-- The new message id has the key of the old one, and only the slot itself counts.
pub retry-key :
    (rng : ℕ → ℕ) (domain : Bytes) (p p' : Poster) (msg : ℕ) (key : FilepieceKey)
    → IsShort domain key
    → retry rng domain p msg key ≡ requeued p'
    → (get_key_from_message_id (p'.heap msg).header.msgid ≡ some key)
      × (p'.msgid_retries ≡ p.msgid_retries)
unfolding retry update_article new_header
retry-key rng domain p p' msg key short e =
    let (heap, retries, _) = enqueued-same _ p' _ e in
    let at2 = (get_run_nonce rng (get_run_nonce rng p.rng_at 10).0 5).0 in
    let nonce = (get_run_nonce rng at2 nonce_length).1 in
    let (size, lacks) = get_run_nonce-Lacks rng at2 nonce_length in
    let back =
      get_key-get_usenet_message_id nonce domain key.file_index key.piece_index lacks short.file
        short.piece (short.id nonce size) in
    let article = ap (λ (h : ℕ → Article). h msg) heap ∙ update_article-same p.heap msg _ in
    (ap (λ (a : Article). get_key_from_message_id a.header.msgid) article ∙ back, retries)

-- One article fails `n` times, and is queued again each time; in between, anything may happen that
-- leaves its header and the count of its key alone.
pub data Fails (algo : StringAlgorithms) (rng : ℕ → ℕ) (domain : Bytes) (msg : ℕ)
    (key : FilepieceKey) (p : Poster) : ℕ → Poster → Type 0 where
  none_yet : Fails algo rng domain msg key p 0 p
  once_more :
      {n : ℕ} {p' p'' : Poster}
      → Fails algo rng domain msg key p n p'
      → on_post_failed algo rng domain p' msg ≡ requeued p''
      → Fails algo rng domain msg key p (suc n) p''
  meanwhile :
      {n : ℕ} {p' : Poster} (p'' : Poster)
      → Fails algo rng domain msg key p n p'
      → (p''.heap msg).header ≡ (p'.heap msg).header
      → lookup key p''.msgid_retries ≡ lookup key p'.msgid_retries
      → Fails algo rng domain msg key p n p''

abbrev counted : ℕ → Option ℕ
counted zero = none
counted (suc n) = some (suc n)

-- What holds after `n` failures.
record IsCounted (msg : ℕ) (key : FilepieceKey) (n : ℕ) (p : Poster) : Type 0 where
  has_key : get_key_from_message_id (p.heap msg).header.msgid ≡ some key
  count : lookup key p.msgid_retries ≡ counted n
  few : n ≤ 2

-- The poster once a retry has been counted.
abbrev pub counting : Poster → FilepieceKey → ℕ → Poster
counting p key n = record p { msgid_retries = insert key n p.msgid_retries }

-- The branches of the slot, by the retries that have been counted.
module _ (algo : StringAlgorithms) (rng : ℕ → ℕ) (domain : Bytes) (p : Poster) (msg : ℕ)
    (key : FilepieceKey)
    (has_key : get_key_from_message_id (p.heap msg).header.msgid ≡ some key) where
  pub first_failure :
      lookup key p.msgid_retries ≡ none
      → on_post_failed algo rng domain p msg ≡ retry rng domain (counting p key 1) msg key
  unfolding on_post_failed
  first_failure count = rw (on_post_failed, has_key, count) refl

  pub more_failures :
      (n : ℕ)
      → lookup key p.msgid_retries ≡ some n
      → n + 1 < 3
      → on_post_failed algo rng domain p msg ≡ retry rng domain (counting p key (n + 1)) msg key
  unfolding on_post_failed
  more_failures n count few =
      let below : leb 3 (n + 1) ≡ false = ground arith in
      rw (on_post_failed, has_key, count, below) refl

  last_failure :
      lookup key p.msgid_retries ≡ some 2
      → on_post_failed algo rng domain p msg ≡ give_up algo p.dump_opens (p.heap msg)
  unfolding on_post_failed
  last_failure count = rw (on_post_failed, has_key, count) refl

give_up_ends :
    (algo : StringAlgorithms) (b : Bool) (a : Article) (p : Poster) → give_up algo b a ≢ requeued p
unfolding give_up
give_up_ends algo b a p e = ground arith

retry-IsCounted :
    (rng : ℕ → ℕ) (domain : Bytes) (msg : ℕ) (key : FilepieceKey) (n : ℕ) (p p' : Poster)
    → IsShort domain key
    → n < 2
    → retry rng domain (counting p key (suc n)) msg key ≡ requeued p'
    → IsCounted msg key (suc n) p'
retry-IsCounted rng domain msg key n p p' short few e =
    let (keeps, same) = retry-key rng domain (counting p key (suc n)) p' msg key short e in
    record {
      has_key = keeps;
      count = ap (lookup key) same ∙ lookup-insert key (suc n) p.msgid_retries;
      few = omega arith;
    }

on_post_failed-IsCounted :
    (algo : StringAlgorithms) (rng : ℕ → ℕ) (domain : Bytes) (msg : ℕ) (key : FilepieceKey) (n : ℕ)
    (p p' : Poster)
    → IsShort domain key
    → IsCounted msg key n p
    → on_post_failed algo rng domain p msg ≡ requeued p'
    → IsCounted msg key (suc n) p'
on_post_failed-IsCounted algo rng domain msg key zero p p' short is e =
    retry-IsCounted rng domain msg key 0 p p' short (omega arith)
      (sym (first_failure algo rng domain p msg key is.has_key is.count) ∙ e)
on_post_failed-IsCounted algo rng domain msg key (suc zero) p p' short is e =
    retry-IsCounted rng domain msg key 1 p p' short (omega arith)
      (sym (more_failures algo rng domain p msg key is.has_key 1 is.count (omega arith)) ∙ e)
on_post_failed-IsCounted algo rng domain msg key (suc (suc zero)) p p' short is e = absurd (
    give_up_ends algo p.dump_opens (p.heap msg) p'
      (sym (last_failure algo rng domain p msg key is.has_key is.count) ∙ e))
on_post_failed-IsCounted algo rng domain msg key (suc (suc (suc n))) p p' short is e =
    let few = is.few in absurd (omega arith)

Fails-IsCounted :
    (algo : StringAlgorithms) (rng : ℕ → ℕ) (domain : Bytes) (msg : ℕ) (key : FilepieceKey)
    (p : Poster) (n : ℕ) (p' : Poster)
    → IsShort domain key
    → IsCounted msg key 0 p
    → Fails algo rng domain msg key p n p'
    → IsCounted msg key n p'
Fails-IsCounted algo rng domain msg key p n p' short is none_yet = is
Fails-IsCounted algo rng domain msg key p n p' short is (once_more {n = m} {p' = q} h e) =
    on_post_failed-IsCounted algo rng domain msg key m q p' short
      (Fails-IsCounted algo rng domain msg key p m q short is h) e
Fails-IsCounted algo rng domain msg key p n p' short is
      (meanwhile {p' = q} r h same_header same_count) =
    let before = Fails-IsCounted algo rng domain msg key p n q short is h in
    record {
      has_key = ap (λ (g : Header). get_key_from_message_id g.msgid) same_header ∙ before.has_key;
      count = same_count ∙ before.count;
      few = before.few;
    }

-- What the third failure leaves: the program exits, and the file, if it opens, holds the header, an empty
-- line, the whole payload and the line that ends an article.
abbrev pub exits_with_dump : StringAlgorithms → Bool → Article → PostFailed
exits_with_dump algo dump_opens a =
    if dump_opens
    then exited
        (some (write_to algo a.header ++ (codes "\r\n" ++ (put a.payload ++ codes "\r\n.\r\n"))))
    else exited none

give_up-dumps :
    (algo : StringAlgorithms) (dump_opens : Bool) (a : Article)
    → a.payload ≢ []
    → give_up algo dump_opens a ≡ exits_with_dump algo dump_opens a
unfolding give_up write_payload_asio_buffers
give_up-dumps algo dump_opens a payload = elim (List-cases a.payload) [
  | inl empty ↦ absurd (payload empty)
  | inr (piece, pieces, some_payload) ↦ ground arith
]

-- An article that no retry has been counted for is queued again at most twice: the third failure
-- ends the program, although the message id is new after each failure, with a dump of the article's
-- header and whole payload, if the file for it opens. Between the failures anything may happen that
-- leaves the header of the article and the count of its key alone. The message id has a key, the ids of
-- that key fit, and the payload at that time is not a list of no buffers.
pub third_failure_ends :
    (algo : StringAlgorithms) (rng : ℕ → ℕ) (domain : Bytes) (msg : ℕ) (key : FilepieceKey) (n : ℕ)
    (p p' : Poster)
    → IsShort domain key
    → get_key_from_message_id (p.heap msg).header.msgid ≡ some key
    → lookup key p.msgid_retries ≡ none
    → (p'.heap msg).payload ≢ []
    → Fails algo rng domain msg key p n p'
    → (n < 2)
      ⊎ ((n ≡ 2)
          × (on_post_failed algo rng domain p' msg
              ≡ exits_with_dump algo p'.dump_opens (p'.heap msg)))
third_failure_ends algo rng domain msg key n p p' short has_key uncounted payload h = ends n (
    Fails-IsCounted algo rng domain msg key p n p' short
      (record { has_key = has_key; count = uncounted; few = omega arith }) h)
  where
    ends :
        (m : ℕ)
        → IsCounted msg key m p'
        → (m < 2)
          ⊎ ((m ≡ 2)
              × (on_post_failed algo rng domain p' msg
                  ≡ exits_with_dump algo p'.dump_opens (p'.heap msg)))
    ends zero is = inl (omega arith)
    ends (suc zero) is = inl (omega arith)
    ends (suc (suc zero)) is = inr (
      refl,
      last_failure algo rng domain p' msg key is.has_key is.count
          ∙ give_up-dumps algo p'.dump_opens (p'.heap msg) payload,
    )
    ends (suc (suc (suc m))) is = let few = is.few in absurd (omega arith)
