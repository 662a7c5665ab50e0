-- ===== src/Tests/Data.antt =====
-- What the tests share: the documented behaviour of boost::algorithm, in clauses, and small data.
use mathlib.Core.Path.{subst}
use post2usenet.Common.{
  ℕ, Bool, true, false, ◌&&◌, List, [], ◌∷◌, ◌++◌, ◌≡◌, ◌↔◌, refl, sym, ap, arith, Bytes, codes,
  some, length, ◌==◌, some_inj,
}
use post2usenet.Boost.{FileSystem, StringAlgorithms}
use post2usenet.ConnectionInfo.{ConnectionInfo}

abbrev pub join_by : List Bytes → Bytes → Bytes
join_by [] sep = []
join_by (s ∷ []) sep = s
join_by (s ∷ t ∷ rest) sep = s ++ (sep ++ join_by (t ∷ rest) sep)

abbrev pub begins : Bytes → Bytes → Bool
begins s [] = true
begins [] (d ∷ prefix) = false
begins (c ∷ s) (d ∷ prefix) = c == d && begins s prefix

begins-to : (s prefix : Bytes) → begins s prefix ≡ true → (rest : Bytes) × (s ≡ prefix ++ rest)
begins-to s [] h = (s, refl)
begins-to [] (d ∷ prefix) h = absurd (ground arith)
begins-to (c ∷ s) (d ∷ prefix) h =
    let (rest, e) = begins-to s prefix (ground arith) in (rest, ground arith)

begins-from : (prefix rest : Bytes) → begins (prefix ++ rest) prefix ≡ true
begins-from [] rest = ground arith
begins-from (d ∷ prefix) rest = let more = begins-from prefix rest in ground arith

pub begins_iff :
    (s prefix : Bytes) → (begins s prefix ≡ true) ↔ ((rest : Bytes) × (s ≡ prefix ++ rest))
begins_iff s prefix = (
  begins-to s prefix,
  λ h. subst (λ (t : Bytes). begins t prefix ≡ true) (sym h.1) (begins-from prefix h.0),
)

abbrev pub boost_algorithm : StringAlgorithms
boost_algorithm = record {
  join = join_by;
  starts_with = begins;
  join_nil = λ sep. refl;
  join_one = λ s sep. refl;
  join_more = λ s t rest sep. refl;
  starts_with_iff = begins_iff;
}

abbrev pub file_text : Bytes
file_text = codes "=.\r\nzero and more"

pub file_size_of_text : (p c : Bytes) → some file_text ≡ some c → length file_text ≡ length c
file_size_of_text p c e = ap (λ (t : Bytes). length t) (some_inj file_text c e)

-- Every path leads to the one file.
abbrev pub one_file : FileSystem
one_file = record {
  exists = λ p. true;
  is_regular = λ p. true;
  is_directory = λ p. false;
  contents = λ p. some file_text;
  file_size = λ p. length file_text;
  filename = λ p. codes "a.txt";
  contents-fit = λ p c e. omega (arith, file_size_of_text p c e);
  file_size-contents = file_size_of_text;
}

abbrev pub no_crc : Bytes → ℕ
no_crc text = 255

abbrev pub news_server : ConnectionInfo
news_server = record {
  username = codes "user";
  password = codes "secret";
  serveraddr = codes "news.example.org";
  port = 119;
  tls = false;
}
