-- ===== src/Message/Transparent.antt =====
-- The text of a header in nntp/message.cc, as the reader of Message.Receive sees it.
use post2usenet.Common.{
  ℕ, inl, inr, List, [], ◌∷◌, ◌++◌, ◌≢◌, refl, arith, Bytes, codes, put, length, All, All-append,
  IsOneLine, Bool-cases, ltb, if◌then◌else◌,
}
use post2usenet.Boost.{StringAlgorithms}
use post2usenet.Message.{Element, Header, write_additional, write_to}
use post2usenet.Message.Receive.{Passes, Passes-append, Passes-nil, Passes-put_line, NoDot}

-- A header whose fields hold no line end; the name of an additional field does not begin with a dot.
pub record IsPlain (algo : StringAlgorithms) (h : Header) : Type 0 where
  pub from : IsOneLine h.from
  pub newsgroups : All IsOneLine h.newsgroups
  pub subject : IsOneLine h.subject
  pub msgid : IsOneLine h.msgid
  pub additional : All (λ e. IsOneLine e.field × NoDot e.field × IsOneLine e.value) h.additional

join-IsOneLine :
    (algo : StringAlgorithms) (texts : List Bytes)
    → All IsOneLine texts
    → IsOneLine (algo.join texts (codes ","))
join-IsOneLine algo [] h = rw algo.join_nil tt
join-IsOneLine algo (s ∷ []) h = rw algo.join_one h.0
join-IsOneLine algo (s ∷ t ∷ rest) h = rw algo.join_more (
    All-append _ s (codes "," ++ algo.join (t ∷ rest) (codes ",")) h.0
      (omega arith, join-IsOneLine algo (t ∷ rest) h.1))

NoDot-append : (s : Bytes) (c : ℕ) (t : Bytes) → NoDot s → c ≢ b'.' → NoDot (s ++ c ∷ t)
NoDot-append [] c t h e = e
NoDot-append (x ∷ s) c t h e = h

write_additional-Passes :
    (es : List Element)
    → All (λ e. IsOneLine e.field × NoDot e.field × IsOneLine e.value) es
    → Passes (write_additional es)
unfolding write_additional
write_additional-Passes [] h = Passes-nil
write_additional-Passes (e ∷ es) h =
    Passes-append _ (write_additional es)
      (Passes-put_line (e.field ∷ codes ": " ∷ e.value ∷ []) (h.0.0, (omega arith, (h.0.2, tt)))
        (NoDot-append e.field b':' _ h.0.1 (λ k. omega arith)))
      (write_additional-Passes es h.1)

-- One field of the header.
field-Passes :
    (name value : Bytes)
    → IsOneLine name
    → NoDot name
    → name ≢ []
    → IsOneLine value
    → Passes (put (name ∷ value ∷ codes "\r\n" ∷ []))
field-Passes [] value h n e v = absurd (e refl)
field-Passes (c ∷ name) value h n e v = Passes-put_line ((c ∷ name) ∷ value ∷ []) (h, (v, tt)) n

-- The text of a plain header passes.
pub write_to-Passes :
    (algo : StringAlgorithms) (h : Header) → IsPlain algo h → Passes (write_to algo h)
unfolding write_to
write_to-Passes algo h p =
    Passes-append _ _
      (field-Passes (codes "From: ") h.from (omega arith) (omega arith) (λ e. cc) p.from)
      (Passes-append _ _
        (field-Passes (codes "Newsgroups: ") _ (omega arith) (omega arith) (λ e. cc)
          (join-IsOneLine algo h.newsgroups p.newsgroups))
        (Passes-append _ _
          (field-Passes (codes "Subject: ") h.subject (omega arith) (omega arith) (λ e. cc)
            p.subject)
          (Passes-append _ _ id_field (write_additional-Passes h.additional p.additional))))
  where
    id_field : Passes (
        if ltb 0 (length h.msgid)
        then put (codes "Message-ID: " ∷ h.msgid ∷ codes "\r\n" ∷ [])
        else [])
    id_field = elim (Bool-cases (ltb 0 (length h.msgid))) [
      | inl e ↦ rw e (
          field-Passes (codes "Message-ID: ") h.msgid (omega arith) (omega arith) (λ k. cc) p.msgid)
      | inr e ↦ rw e Passes-nil
    ]
