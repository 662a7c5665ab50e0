-- ===== src/Tests/Config.antt =====
-- The theorems on program_config.cc at a small configuration file.
use post2usenet.Common.{
  ℕ, Bool, true, false, ◌&&◌, List, [], ◌∷◌, ◌≡◌, refl, Bytes, codes, Option, none, some, ◌==◌, ◌+◌,
  ◌*◌, ◌-◌, if◌then◌else◌,
}
use mathlib.Core.Option
use post2usenet.Common.Int.{pos}
use post2usenet.Common.Result.{err}
use post2usenet.Boost.{PropertyTrees, VariablesMap}
use post2usenet.YencGenerator.{zero_article_size}
use post2usenet.Fileset.{make_fileset, add_file}
use post2usenet.Config.{ProgConfig, load_program_config}
use post2usenet.Config.Usable.{
  IsUsable, load_program_config-IsUsable, zeroed, zero_article_size_accepted,
}
use post2usenet.Tests.Data.{boost_algorithm, one_file, file_text}

abbrev same_text : Bytes → Bytes → Bool
same_text [] [] = true
same_text (c ∷ s) (d ∷ t) = c == d && same_text s t
same_text s t = false

-- A file of sections, a section of values, or a value.
data Node : Type 0 where
  file : List (Bytes × List (Bytes × Bytes)) → Node
  section : List (Bytes × Bytes) → Node
  value : Bytes → Node

abbrev look_up : {A : Type 0} → Bytes → List (Bytes × A) → Option A
look_up key [] = none
look_up key ((k, a) ∷ rest) =
    let more = look_up key rest in if same_text key k then some a else more

abbrev find_node : Node → Bytes → Option Node
find_node (file sections) key = Option.map section (look_up key sections)
find_node (section values) key = Option.map value (look_up key values)
find_node (value text) key = none

abbrev text_of : Node → Bytes
text_of (value text) = text
text_of _ = []

abbrev sections_of : Node → List (Bytes × Node)
sections_of (file []) = []
sections_of (file ((name, values) ∷ rest)) = (name, section values) ∷ sections_of (file rest)
sections_of _ = []

abbrev ini : Node
ini = file (
    (
      codes "global",
      (codes "From", codes "poster")
          ∷ (codes "ArticleSize", codes "5")
          ∷ (codes "ArticleQueueSize", codes "9")
          ∷ (codes "OperationTimeout", codes "30")
          ∷ [],
    )
    ∷ (
      codes "Server1",
      (codes "Address", codes "news.example.org")
          ∷ (codes "Port", codes "119")
          ∷ (codes "Username", codes "user")
          ∷ (codes "Password", codes "secret")
          ∷ (codes "TLS", codes "yes")
          ∷ (codes "Connections", codes "2")
          ∷ [],
    )
    ∷ [])

abbrev number : ℕ → Bytes → ℕ
number n [] = n
number n (c ∷ s) = number (n * 10 + (c - b'0')) s

abbrev trees : PropertyTrees
trees = record {
  Tree = Node;
  read_ini = λ path. some ini;
  find = find_node;
  sections = sections_of;
  get_string = text_of;
  get_size = λ node. some (number 0 (text_of node));
  get_port = λ node. some (number 0 (text_of node));
  get_int = λ node. Option.map pos (some (number 0 (text_of node)));
}

abbrev options : VariablesMap
options = record {
  help = false;
  iothreads = pos 1;
  articlesize = none;
  raw = false;
  validate = false;
  subject = none;
  config = none;
  output = none;
  group = some (codes "alt.a" ∷ []);
  file = some (codes "a.txt" ∷ []);
}

abbrev blank : ProgConfig
blank = record {
  from = [];
  servers = [];
  subject = [];
  msgiddomain = [];
  article_size = 0;
  io_threads = 0;
  queue_size = 0;
  operation_timeout = pos 0;
  validate_posts = false;
  raw = false;
  files = [];
  groups = [];
  nzboutput = [];
}

abbrev or_blank : Option ProgConfig → ProgConfig
or_blank none = blank
or_blank (some cfg) = cfg

abbrev loaded : ProgConfig
loaded = or_blank (
    load_program_config trees boost_algorithm same_text one_file (codes "config.ini") (some options)
      blank)

loads :
    load_program_config trees boost_algorithm same_text one_file
      (codes "config.ini")
      (some options)
      blank
    ≡ some loaded
unfolding load_program_config
loads = refl

load_program_config-IsUsable_example : IsUsable one_file loaded
load_program_config-IsUsable_example =
    load_program_config-IsUsable trees boost_algorithm same_text one_file (codes "config.ini")
      (some options) blank loaded refl loads

zero_article_size_accepted_example :
    (cfg0 : ProgConfig) × (load_program_config trees boost_algorithm same_text one_file
        (codes "config.ini")
        (some (zeroed options))
        blank
      ≡ some cfg0)
    × (cfg0.files ≡ loaded.files)
    × ((add_file one_file (make_fileset cfg0.article_size) (codes "a.txt")).1
        ≡ err zero_article_size)
zero_article_size_accepted_example =
    zero_article_size_accepted trees boost_algorithm same_text one_file (codes "config.ini") options
      blank loaded (codes "a.txt") file_text loads refl refl refl
