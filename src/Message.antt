-- ===== src/Message.antt =====
-- nntp/message.hpp and nntp/message.cc. boost::algorithm::join is in the record StringAlgorithms.
pub mod Receive
pub mod Transparent
use post2usenet.Common.{
  ℕ, List, [], ◌∷◌, ◌++◌, Bytes, codes, put, length, ltb, if◌then◌else◌, add_size,
}
use post2usenet.Boost.{StringAlgorithms}

pub record Element : Type 0 where
  pub field : Bytes
  pub value : Bytes

pub record Header : Type 0 where
  pub from : Bytes
  pub newsgroups : List Bytes
  pub subject : Bytes
  pub msgid : Bytes
  pub additional : List Element

-- The loop over the additional headers.
write_additional : List Element → Bytes
write_additional [] = []
write_additional (element ∷ rest) =
    put (element.field ∷ codes ": " ∷ element.value ∷ codes "\r\n" ∷ []) ++ write_additional rest

-- What header::write_to puts on the stream.
unfoldable pub write_to : StringAlgorithms → Header → Bytes
unfolding write_additional
write_to algo h =
    put (codes "From: " ∷ h.from ∷ codes "\r\n" ∷ [])
    ++ (put (codes "Newsgroups: " ∷ algo.join h.newsgroups (codes ",") ∷ codes "\r\n" ∷ [])
        ++ (put (codes "Subject: " ∷ h.subject ∷ codes "\r\n" ∷ [])
            ++ ((if ltb 0 (length h.msgid)
                  then put (codes "Message-ID: " ∷ h.msgid ∷ codes "\r\n" ∷ [])
                  else [])
                ++ write_additional h.additional)))

pub record Article : Type 0 where
  pub header : Header
  pub payload : List Bytes

unfoldable pub make_article : Header → Article
make_article h = record { header = h; payload = [] }

unfoldable pub add_payload_piece : Article → Bytes → Article
add_payload_piece a other = record a { payload = a.payload ++ other ∷ [] }

pub get_payload_pieces : Article → ℕ
get_payload_pieces a = length a.payload

payload_size_from : ℕ → List Bytes → ℕ
payload_size_from ret [] = ret
payload_size_from ret (piece ∷ rest) = payload_size_from (add_size ret (length piece)) rest

pub get_payload_size : Article → ℕ
unfolding payload_size_from
get_payload_size a = payload_size_from 0 a.payload

-- boost::asio::buffer of each piece; a buffer is the bytes that it refers to.
unfoldable pub write_payload_asio_buffers : Article → List Bytes
write_payload_asio_buffers a = a.payload
