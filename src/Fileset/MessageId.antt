-- ===== src/Fileset/MessageId.antt =====
-- The message ids of fileset.cc: get_usenet_message_id and get_key_from_message_id.
use post2usenet.Common.{
  ℕ, ◌+◌, ◌<◌, [], ◌∷◌, ◌++◌, append_assoc, ◌≡◌, ◌⊎◌, refl, sym, false, ap, ◌∙◌, some, arith, Bytes,
  length, length-append, All-mono, size_mod, add_size, sub_size, ◌==◌,
}
use post2usenet.Common.Decimal.{to_decimal, stoul, stoul-to_decimal, IsDigit, to_decimal-IsNumber}
use post2usenet.Common.Find.{find, substr, npos, Lacks, find-Lacks, substr_lem}
use post2usenet.Fileset.{get_usenet_message_id, get_key_from_message_id}

-- A text with two dots and an at sign behind them, cut as the parser cuts it.
module _ (a f p rest : Bytes) (ha : Lacks b'.' a) (hf : Lacks b'.' f) (hp : Lacks b'@' p) where
  abbrev dotted : Bytes
  dotted = a ++ b'.' ∷ (f ++ b'.' ∷ (p ++ b'@' ∷ rest))

  abbrev first : ℕ
  first = length a

  abbrev second : ℕ
  second = length a + 1 + length f

  abbrev at_sign : ℕ
  at_sign = length a + 1 + length f + 1 + length p

  -- The text split behind the first dot, and behind the second.
  behind_first : dotted ≡ (a ++ b'.' ∷ []) ++ (f ++ b'.' ∷ (p ++ b'@' ∷ rest))
  behind_first = sym (append_assoc a (b'.' ∷ []) _)

  behind_second : dotted ≡ (a ++ b'.' ∷ (f ++ b'.' ∷ [])) ++ (p ++ b'@' ∷ rest)
  behind_second = simp append_assoc

  find-first : find b'.' dotted 0 ≡ first
  find-first = find-Lacks b'.' [] a _ 0 ha refl ∙ omega arith

  find-second : find b'.' dotted (first + 1) ≡ second
  find-second =
      ap (λ (t : Bytes). find b'.' t (first + 1)) behind_first
      ∙ find-Lacks b'.' (a ++ b'.' ∷ []) f _ (first + 1) hf
          (omega (arith, length-append a (b'.' ∷ [])))

  before_piece : second + 1 ≡ length (a ++ b'.' ∷ (f ++ b'.' ∷ []))
  before_piece =
      omega (arith, length-append a (b'.' ∷ (f ++ b'.' ∷ [])), length-append f (b'.' ∷ []))

  find_at : find b'@' dotted (second + 1) ≡ at_sign
  find_at =
      ap (λ (t : Bytes). find b'@' t (second + 1)) behind_second
      ∙ find-Lacks b'@' (a ++ b'.' ∷ (f ++ b'.' ∷ [])) p rest (second + 1) hp before_piece

  substr_file : (n : ℕ) → n ≡ length f → substr dotted (first + 1) n ≡ some f
  substr_file n e =
      ap (λ (t : Bytes). substr t (first + 1) n) behind_first
      ∙ substr_lem (a ++ b'.' ∷ []) f _ (first + 1) n (omega (arith, length-append a (b'.' ∷ []))) e

  substr_piece : (n : ℕ) → n ≡ length p → substr dotted (second + 1) n ≡ some p
  substr_piece n e =
      ap (λ (t : Bytes). substr t (second + 1) n) behind_second
      ∙ substr_lem (a ++ b'.' ∷ (f ++ b'.' ∷ [])) p (b'@' ∷ rest) (second + 1) n before_piece e

  -- The parser reads the numbers between the dots and up to the at sign.
  key_of_dotted :
      (i j : ℕ)
      → at_sign < npos
      → stoul f ≡ some i
      → stoul p ≡ some j
      → get_key_from_message_id dotted ≡ some (record { file_index = i; piece_index = j })
  unfolding get_key_from_message_id
  key_of_dotted i j fits ef ep =
      let step1 : add_size first 1 ≡ first + 1 = omega arith in
      let step2 : add_size second 1 ≡ second + 1 = omega arith in
      let ne1 : (first == npos) ≡ false = ground arith in
      let ne2 : (second == npos) ≡ false = ground arith in
      let file : substr dotted (first + 1) (sub_size second (first + 1)) ≡ some f =
        substr_file (sub_size second (first + 1)) (omega arith) in
      let piece : substr dotted (second + 1) (sub_size at_sign (second + 1)) ≡ some p =
        substr_piece (sub_size at_sign (second + 1)) (omega arith) in
      rw (find-first, step1, find-second, step2, find_at, ne1, ne2) (rw (file, ef) (rw (piece, ep)))

digits-Lacks : (c n : ℕ) → (c < b'0') ⊎ (b'9' < c) → Lacks c (to_decimal n)
digits-Lacks c n h =
    All-mono IsDigit _ (λ x d. omega arith) (to_decimal n) (to_decimal-IsNumber n).0

-- The indices that a message id was made from are read back from it, if the nonce holds no dot, the
-- indices are of type size_t, and the id is shorter than 2^64 - 1 bytes. The domain may be any text.
pub get_key-get_usenet_message_id :
    (nonce domain : Bytes) (i j : ℕ)
    → Lacks b'.' nonce
    → i < size_mod
    → j < size_mod
    → length (get_usenet_message_id nonce domain i j) < npos
    → get_key_from_message_id (get_usenet_message_id nonce domain i j)
      ≡ some (record { file_index = i; piece_index = j })
unfolding get_usenet_message_id
get_key-get_usenet_message_id nonce domain i j h hi hj fits =
    let f : Bytes = to_decimal i in
    let p : Bytes = to_decimal j in
    let rest : Bytes = domain ++ b'>' ∷ [] in
    key_of_dotted (b'<' ∷ nonce) f p rest (omega arith, h) (digits-Lacks b'.' i (omega arith))
      (digits-Lacks b'@' j (omega arith)) i j
      (omega (
        arith,
        length-append nonce (b'.' ∷ (f ++ b'.' ∷ (p ++ b'@' ∷ rest))),
        length-append f (b'.' ∷ (p ++ b'@' ∷ rest)),
        length-append p (b'@' ∷ rest),
      ))
      (stoul-to_decimal i hi) (stoul-to_decimal j hj)
