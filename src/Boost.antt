-- ===== src/Boost.antt =====
-- What the program asks of libraries that are not in the repository: operations and the part of
-- their documented behaviour that is relied on.
use post2usenet.Common.Int.{ℤ}
use post2usenet.Common.{
  ◌<◌, ℕ, Bool, true, List, [], ◌∷◌, ◌++◌, Bytes, Option, some, ◌≡◌, ◌≢◌, ◌↔◌, length,
}

-- boost::filesystem, and opening a file by std::ifstream. A path is its text.
pub record FileSystem : Type 0 where
  pub exists : Bytes → Bool
  pub is_regular : Bytes → Bool
  pub is_directory : Bytes → Bool
  -- `none`: the stream is not open.
  pub contents : Bytes → Option Bytes
  pub file_size : Bytes → ℕ
  -- path::filename().generic_string()
  pub filename : Bytes → Bytes
  -- A size of a file is an off_t.
  pub contents-fit : (p c : Bytes) → contents p ≡ some c → length c < 9223372036854775808
  pub file_size-contents : (p c : Bytes) → contents p ≡ some c → file_size p ≡ length c

-- boost::algorithm on texts: the separator stands between the texts that are joined, and a text
-- starts with another if it is that one and a rest.
pub record StringAlgorithms : Type 0 where
  pub join : List Bytes → Bytes → Bytes
  pub starts_with : Bytes → Bytes → Bool
  pub join_nil : (sep : Bytes) → join [] sep ≡ []
  pub join_one : (s sep : Bytes) → join (s ∷ []) sep ≡ s
  pub join_more :
      (s t : Bytes) (rest : List Bytes) (sep : Bytes)
      → join (s ∷ t ∷ rest) sep ≡ s ++ (sep ++ join (t ∷ rest) sep)
  pub starts_with_iff :
      (s prefix : Bytes) → (starts_with s prefix ≡ true) ↔ ((rest : Bytes) × (s ≡ prefix ++ rest))

-- boost::algorithm::replace_all, for a search text of one byte: each occurrence in the input gives way
-- to the format text, and everything else stays.
pub record Replacing : Type 0 where
  pub replace_all : Bytes → Bytes → Bytes → Bytes
  pub replace_nil : (c : ℕ) (format : Bytes) → replace_all [] (c ∷ []) format ≡ []
  pub replace_at :
      (c : ℕ) (s format : Bytes)
      → replace_all (c ∷ s) (c ∷ []) format ≡ format ++ replace_all s (c ∷ []) format
  pub replace_ne :
      (c d : ℕ) (s format : Bytes)
      → d ≢ c
      → replace_all (d ∷ s) (c ∷ []) format ≡ d ∷ replace_all s (c ∷ []) format

-- boost::property_tree, as read_ini makes it. A value is got from the text of a tree, or is no value of
-- the type that is asked for: ptree_bad_data.
pub record PropertyTrees : Type 1 where
  pub Tree : Type 0
  -- `none`: ini_parser_error.
  pub read_ini : Bytes → Option Tree
  pub find : Tree → Bytes → Option Tree
  pub sections : Tree → List (Bytes × Tree)
  pub get_string : Tree → Bytes
  pub get_size : Tree → Option ℕ
  pub get_port : Tree → Option ℕ
  pub get_int : Tree → Option ℤ

-- A boost::program_options::variables_map over the options that program_config.cc describes; `none` is
-- a count of 0.
pub record VariablesMap : Type 0 where
  pub help : Bool
  pub iothreads : ℤ
  pub articlesize : Option ℤ
  pub raw : Bool
  pub validate : Bool
  pub subject : Option Bytes
  pub config : Option Bytes
  pub output : Option Bytes
  pub group : Option (List Bytes)
  pub file : Option (List Bytes)
