-- ===== src/Tests/Main.antt =====
-- The theorems on main.cc at an article that fails.
use post2usenet.Common.{
  ℕ, ◌+◌, ◌<◌, true, [], ◌∷◌, ◌≡◌, ◌≢◌, ◌⊎◌, refl, ap, ◌∙◌, arith, Bytes, codes, none, some, length,
  length-append,
}
use post2usenet.Common.Decimal.{to_decimal}
use post2usenet.Common.Find.{npos}
use post2usenet.Message.{Article}
use post2usenet.Connection.{make_connection}
use post2usenet.Usenet.{make_usenet, enqueue, enqueue_post}
use post2usenet.Fileset.{FilepieceKey, get_usenet_message_id, get_key_from_message_id}
use post2usenet.Fileset.MessageId.{get_key-get_usenet_message_id}
use post2usenet.Common.Int.{pos}
use post2usenet.Main.{
  Poster, PostFailed, requeued, on_post_failed, insert, lookup, retry, enqueued, update_article,
}
use post2usenet.Main.Retry.{
  IsShort, Fails, none_yet, once_more, lookup-insert, first_failure, more_failures, retry-key,
  exits_with_dump, third_failure_ends,
}
use post2usenet.Main.Nzb.Named.{IsNamed, on_post_failed-IsNamed}
use post2usenet.Tests.Data.{boost_algorithm, news_server}

abbrev domain : Bytes
domain = codes "a.org"

abbrev first_key : FilepieceKey
first_key = record { file_index = 0; piece_index = 1 }

abbrev pub failing : Article
failing = record {
  header = record {
    from = codes "poster";
    newsgroups = codes "alt.a" ∷ [];
    subject = codes "one";
    msgid = get_usenet_message_id (codes "nonce") domain 0 1;
    additional = [];
  };
  payload = codes "one line\r\n" ∷ [];
}

abbrev pub first_poster : Poster
first_poster = record {
  heap = λ a. failing;
  usenet = make_usenet (λ j. make_connection news_server (pos 5)) 1 10;
  rng_at = 0;
  dump_opens = true;
  msgid_retries = [];
  msgid_exceptions = [];
}

abbrev pub numbers : ℕ → ℕ
numbers at = at + 100

first_key-IsShort : IsShort domain first_key
unfolding get_usenet_message_id to_decimal
first_key-IsShort = record {
  file = omega arith;
  piece = omega arith;
  id = λ nonce size. omega (arith, length-append nonce (codes ".0.1@a.org>"));
}

short_nonce : length (get_usenet_message_id (codes "nonce") domain 0 1) < npos
unfolding get_usenet_message_id to_decimal
short_nonce = omega arith

key_of_failing : get_key_from_message_id failing.header.msgid ≡ some first_key
key_of_failing =
    get_key-get_usenet_message_id (codes "nonce") domain 0 1 (omega arith) (omega arith)
      (omega arith) short_nonce

uncounted : lookup first_key first_poster.msgid_retries ≡ none
unfolding lookup
uncounted = refl

abbrev or_first : PostFailed → Poster
or_first (requeued p) = p
or_first _ = first_poster

abbrev counted : Poster
counted = record first_poster { msgid_retries = (first_key, 1) ∷ [] }

abbrev again : Poster
again = or_first (retry numbers domain counted 7 first_key)

retried : retry numbers domain counted 7 first_key ≡ requeued again
unfolding retry enqueued enqueue_post enqueue make_usenet
retried = refl

failed_once : Fails boost_algorithm numbers domain 7 first_key first_poster 1 again
unfolding insert
failed_once = once_more none_yet (
    first_failure boost_algorithm numbers domain first_poster 7 first_key key_of_failing uncounted
    ∙ retried)

key_of_again : get_key_from_message_id (again.heap 7).header.msgid ≡ some first_key
key_of_again = (retry-key numbers domain counted again 7 first_key first_key-IsShort retried).0

abbrev counted_twice : Poster
counted_twice = record again { msgid_retries = (first_key, 2) ∷ again.msgid_retries }

abbrev third : Poster
third = or_first (retry numbers domain counted_twice 7 first_key)

retried_twice : retry numbers domain counted_twice 7 first_key ≡ requeued third
unfolding retry enqueued enqueue_post enqueue make_usenet
retried_twice = refl

counted_once : lookup first_key again.msgid_retries ≡ some 1
unfolding insert retry enqueued enqueue_post enqueue make_usenet
counted_once = lookup-insert first_key 1 []

failed_twice : Fails boost_algorithm numbers domain 7 first_key first_poster 2 third
unfolding insert
failed_twice = once_more failed_once (
    more_failures boost_algorithm numbers domain again 7 first_key key_of_again 1 counted_once
      (omega arith)
    ∙ retried_twice)

third_payload : (third.heap 7).payload ≢ []
unfolding retry enqueued enqueue_post enqueue make_usenet update_article
third_payload e = ground arith

third_failure_ends_example :
    (2 < 2)
    ⊎ ((◌≡◌ {A = ℕ} 2 2)
        × (on_post_failed boost_algorithm numbers domain third 7
            ≡ exits_with_dump boost_algorithm third.dump_opens (third.heap 7)))
third_failure_ends_example =
    third_failure_ends boost_algorithm numbers domain 7 first_key 2 first_poster third
      first_key-IsShort key_of_failing uncounted third_payload failed_twice

abbrev keys : ℕ → FilepieceKey
keys a = record { file_index = 0; piece_index = a }

apart : (a b : ℕ) → a ≢ b → keys a ≢ keys b
apart a b different e = different (ap (λ (k : FilepieceKey). k.piece_index) e)

abbrev counted_one : Poster
counted_one = record first_poster { msgid_retries = (keys 1, 1) ∷ [] }

-- The article at address 1 has failed.
abbrev after_one : Poster
after_one = or_first (retry numbers domain counted_one 1 (keys 1))

fails_one : on_post_failed boost_algorithm numbers domain first_poster 1 ≡ requeued after_one
unfolding insert retry enqueued enqueue_post enqueue make_usenet
fails_one =
    first_failure boost_algorithm numbers domain first_poster 1 (keys 1) key_of_failing uncounted
    ∙ refl

on_post_failed-IsNamed_example :
    IsNamed domain (codes "nonce") after_one 1 (keys 1)
    × ((a : ℕ)
        → IsNamed domain (codes "nonce") first_poster a (keys a)
        → IsNamed domain (codes "nonce") after_one a (keys a))
on_post_failed-IsNamed_example =
    on_post_failed-IsNamed domain (codes "nonce") boost_algorithm numbers first_poster after_one 1
      keys apart key_of_failing fails_one
