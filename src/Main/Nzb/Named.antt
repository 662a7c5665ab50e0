-- ===== src/Main/Nzb/Named.antt =====
-- The ids that write_nzb of main.cc writes, against those that the slot for failed posts has given.
use mathlib.Core.Path.{subst}
use post2usenet.Common.{
  ℕ, ◌+◌, ◌≢◌, Bool, true, List, ◌≡◌, inl, inr, sym, ap, ◌∙◌, arith, Bytes, some, Option-cases,
  Bool-cases, List-cases, ◌==◌, leb,
}
use post2usenet.Boost.{StringAlgorithms}
use post2usenet.Message.{Article, write_payload_asio_buffers}
use post2usenet.Fileset.{FilepieceKey, get_usenet_message_id, get_key_from_message_id}
use post2usenet.Fileset.Keys.{key_lt_strict_order}
use post2usenet.Config.{or_else}
use post2usenet.Main.{
  Poster, requeued, lookup, insert, same_key, retry, give_up, on_post_failed, update_article,
  new_header,
}
use post2usenet.Main.Retry.{enqueued-same, update_article-same, lookup-insert, counting}
use post2usenet.Main.Nzb.{actual_nonce}

lookup-insert_ne {ℓ} :
    {A : Type ℓ} (key other : FilepieceKey) (a : A) (entries : List (FilepieceKey × A))
    → key ≢ other
    → lookup key (insert other a entries) ≡ lookup key entries
unfolding lookup insert same_key
lookup-insert_ne key other a entries different = elim (key_lt_strict_order key other key).2 [
  | inl same ↦ absurd (different same)
  | inr (inl below) ↦ ground arith
  | inr (inr above) ↦ ground arith
]

update_article-ne :
    (heap : ℕ → Article) (msg a : ℕ) (new : Article)
    → a ≢ msg
    → update_article heap msg new a ≡ heap a
unfolding update_article
update_article-ne heap msg a new different = ground arith

give_up-ends :
    (algo : StringAlgorithms) (opens : Bool) (a : Article) (p' : Poster)
    → ¬ (give_up algo opens a ≡ requeued p')
unfolding give_up
give_up-ends algo opens a p' e = elim (Bool-cases opens) [
  | inl opened ↦ elim (List-cases (write_payload_asio_buffers a)) [
    | inl empty ↦ ground arith
    | inr (piece, pieces, full) ↦ ground arith
  ]
  | inr shut ↦ ground arith
]

-- A post that is queued again has been through the retry.
on_post_failed-retry :
    (algo : StringAlgorithms) (rng : ℕ → ℕ) (domain : Bytes) (p p' : Poster) (msg : ℕ)
    (key : FilepieceKey)
    → get_key_from_message_id (p.heap msg).header.msgid ≡ some key
    → on_post_failed algo rng domain p msg ≡ requeued p'
    → (n : ℕ) × (retry rng domain (counting p key n) msg key ≡ requeued p')
unfolding on_post_failed give_up
on_post_failed-retry algo rng domain p p' msg key has_key e =
    elim (Option-cases (lookup key p.msgid_retries)) [
      | inl uncounted ↦ (1, ground arith)
      | inr (n, counted) ↦ elim (Bool-cases (leb 3 (n + 1))) [
        | inl many ↦ absurd (give_up-ends algo p.dump_opens (p.heap msg) p' (ground arith))
        | inr few ↦ (n + 1, ground arith)
      ]
    ]

eq_of_test : (a b : ℕ) → a == b ≡ true → a ≡ b
eq_of_test a b e = ground arith

module _ (domain run_nonce : Bytes) where
  -- The id that write_nzb writes for a piece, with its angle brackets.
  pub written_id : Poster → FilepieceKey → Bytes
  written_id p key =
      get_usenet_message_id
        (actual_nonce run_nonce p.msgid_exceptions key.file_index key.piece_index) domain
        key.file_index key.piece_index

  -- The article at an address has the id that is written for its piece.
  abbrev pub IsNamed : Poster → ℕ → FilepieceKey → Type 0
  IsNamed p a key = (p.heap a).header.msgid ≡ written_id p key

  retry-IsNamed :
      (rng : ℕ → ℕ) (p p' : Poster) (msg : ℕ) (key : FilepieceKey)
      → retry rng domain p msg key ≡ requeued p'
      → IsNamed p' msg key
  unfolding retry written_id actual_nonce new_header
  retry-IsNamed rng p p' msg key e =
      let (heap, _, exceptions) = enqueued-same _ p' _ e in
      let article = ap (λ (h : ℕ → Article). h msg) heap ∙ update_article-same p.heap msg _ in
      let stored = ap (lookup key) exceptions ∙ lookup-insert key _ p.msgid_exceptions in
      ap (λ (a : Article). a.header.msgid) article
      ∙ ap (λ o. get_usenet_message_id (or_else o run_nonce) domain key.file_index key.piece_index)
          (sym stored)

  retry-IsNamed_other :
      (rng : ℕ → ℕ) (p p' : Poster) (msg a : ℕ) (key other : FilepieceKey)
      → retry rng domain p msg key ≡ requeued p'
      → a ≢ msg
      → other ≢ key
      → IsNamed p a other
      → IsNamed p' a other
  unfolding retry written_id actual_nonce
  retry-IsNamed_other rng p p' msg a key other e elsewhere different named =
      let (heap, _, exceptions) = enqueued-same _ p' _ e in
      let article =
        ap (λ (h : ℕ → Article). h a) heap ∙ update_article-ne p.heap msg a _ elsewhere in
      let stored =
        ap (lookup other) exceptions ∙ lookup-insert_ne other key _ p.msgid_exceptions different in
      ap (λ (b : Article). b.header.msgid) article
      ∙ named
      ∙ ap
          (λ o.
            get_usenet_message_id (or_else o run_nonce) domain other.file_index other.piece_index)
          (sym stored)

  -- The slot for failed posts and write_nzb agree on the message ids: where the article of each piece has
  -- the id that write_nzb would write for the piece, no two addresses are those of one piece, and the id
  -- of the failed article has the key of its piece, the same holds after the slot has queued the article
  -- again; and of the failed article it holds in any case.
  pub on_post_failed-IsNamed :
      (algo : StringAlgorithms) (rng : ℕ → ℕ) (p p' : Poster) (msg : ℕ) (keys : ℕ → FilepieceKey)
      → ((a b : ℕ) → a ≢ b → keys a ≢ keys b)
      → get_key_from_message_id (p.heap msg).header.msgid ≡ some (keys msg)
      → on_post_failed algo rng domain p msg ≡ requeued p'
      → IsNamed p' msg (keys msg) × ((a : ℕ) → IsNamed p a (keys a) → IsNamed p' a (keys a))
  unfolding written_id
  on_post_failed-IsNamed algo rng p p' msg keys apart has_key e =
      let (n, again) = on_post_failed-retry algo rng domain p p' msg (keys msg) has_key e in
      let q : Poster = counting p (keys msg) n in
      let this = retry-IsNamed rng q p' msg (keys msg) again in
      (
        this,
        λ a named. elim (Bool-cases (a == msg)) [
          | inl same ↦ subst (λ b. IsNamed p' b (keys b)) (sym (eq_of_test a msg same)) this
          | inr other ↦
              let elsewhere : a ≢ msg = ground arith in
              retry-IsNamed_other rng q p' msg a (keys msg) (keys a) again elsewhere
                (apart a msg elsewhere) named
        ],
      )
