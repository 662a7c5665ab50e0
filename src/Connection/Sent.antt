-- ===== src/Connection/Sent.antt =====
-- What send_article of nntp/connection.cc puts on the connection.
use post2usenet.Common.{
  List, [], ◌∷◌, ◌++◌, append_assoc, ◌≡◌, refl, sym, ap, ◌∙◌, some, Bytes, codes, put, All,
}
use post2usenet.Boost.{StringAlgorithms}
use post2usenet.Message.{Article, write_to, write_payload_asio_buffers}
use post2usenet.Message.Receive.{
  receive, Passes, Passes-append, Passes-put, Passes-line, receive_end,
}
use post2usenet.Message.Transparent.{IsPlain, write_to-Passes}
use post2usenet.Connection.{send_parts}

put-append : (ss ts : List Bytes) → put (ss ++ ts) ≡ put ss ++ put ts
put-append [] ts = refl
put-append (s ∷ ss) ts =
    ap (λ (u : Bytes). s ++ u) (put-append ss ts) ∙ sym (append_assoc s (put ss) (put ts))

-- The text that the reader keeps of an article.
abbrev pub kept_text : StringAlgorithms → Article → Bytes
kept_text algo a = write_to algo a.header ++ (codes "\r\n" ++ (put a.payload ++ codes "\r\n"))

regroup : (w e p l d : Bytes) → w ++ (e ++ (p ++ (l ++ d))) ≡ (w ++ (e ++ (p ++ l))) ++ d
regroup w e p l d = simp append_assoc refl

sent_text :
    (algo : StringAlgorithms) (a : Article)
    → put (send_parts algo a) ≡ kept_text algo a ++ codes ".\r\n"
unfolding send_parts write_payload_asio_buffers
sent_text algo a =
    let w = write_to algo a.header in
    ap (λ (t : Bytes). w ++ (codes "\r\n" ++ t)) (put-append a.payload (codes "\r\n.\r\n" ∷ []))
    ∙ regroup w (codes "\r\n") (put a.payload) (codes "\r\n") (codes ".\r\n")

-- A reader that follows RFC 3977 gets from what send_article writes the header, an empty line and the
-- payload with a line end behind it, and is then at what follows; the header is plain, and each piece
-- of the payload is made of whole lines that do not begin with a dot.
pub send_parts-receive :
    (algo : StringAlgorithms) (a : Article) (rest : Bytes)
    → IsPlain algo a.header
    → All Passes a.payload
    → receive (put (send_parts algo a) ++ rest) ≡ some (kept_text algo a, rest)
send_parts-receive algo a rest plain pieces =
    let empty = Passes-line [] tt tt in
    let whole =
      Passes-append _ _ (write_to-Passes algo a.header plain)
        (Passes-append _ _ empty (Passes-append _ _ (Passes-put a.payload pieces) empty)) in
    ap (λ (t : Bytes). receive (t ++ rest)) (sent_text algo a)
    ∙ receive_end (kept_text algo a) rest whole
