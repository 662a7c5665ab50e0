-- ===== src/Config.antt =====
-- program_config.hpp and program_config.cc. The configuration file is a tree of the record
-- PropertyTrees, and the command line is a VariablesMap. What is printed is left out.
pub mod Servers
pub mod Usable
use post2usenet.Common.{
  ℕ, ◌-◌, ◌%◌, Bool, true, false, not, ◌&&◌, ◌||◌, List, [], ◌∷◌, ◌++◌, Bytes, codes, Option, none,
  some, length, ltb, if◌then◌else◌, size_mod,
}
use post2usenet.Common.Int.{ℤ, pos, negsuc}
use post2usenet.Common.Result.{Result, ok, err, ◌>>=◌}
use post2usenet.Boost.{FileSystem, StringAlgorithms, PropertyTrees, VariablesMap}
use post2usenet.ConnectionInfo.{ConnectionInfo}

pub record ProgConfig : Type 0 where
  pub from : Bytes
  pub servers : List (ConnectionInfo × ℤ)
  pub subject : Bytes
  pub msgiddomain : Bytes
  pub article_size : ℕ
  pub io_threads : ℕ
  pub queue_size : ℕ
  pub operation_timeout : ℤ
  pub validate_posts : Bool
  pub raw : Bool
  pub files : List Bytes
  pub groups : List Bytes
  pub nzboutput : Bytes

-- What is thrown: by the functions below, and by boost::property_tree.
pub data ConfigError : Type 0 where
  key_not_found must_not_be_empty : Bytes → ConfigError
  bad_data missing_global invalid_ini : ConfigError

-- An int as a size_t.
unfoldable pub size_of_int : ℤ → ℕ
size_of_int (pos n) = n % size_mod
size_of_int (negsuc n) = (size_mod - 1 - n % size_mod) % size_mod

module _ (pt : PropertyTrees) where
  pub find_key : pt.Tree → Bytes → Result ConfigError pt.Tree
  find_key tree key = elim (pt.find tree key) [ none ↦ err (key_not_found key) | some it ↦ ok it ]

  -- These return what the source assigns to `dst`.
  pub read_nonzero_string : pt.Tree → Bytes → Result ConfigError Bytes
  unfolding find_key
  read_nonzero_string tree key = do
    it ← find_key tree key
    if ltb (length (pt.get_string it)) 1 then err (must_not_be_empty key) else ok (pt.get_string it)

  -- `dst` is as it was where the key is not found.
  pub read_optional_string : pt.Tree → Bytes → Bytes → Bytes
  read_optional_string tree key dst = elim (pt.find tree key) [
    | none ↦ dst
    | some it ↦ pt.get_string it
  ]

  pub read_boolean_value : (Bytes → Bytes → Bool) → pt.Tree → Bytes → Result ConfigError Bool
  unfolding read_nonzero_string
  read_boolean_value iequals tree key = do
    str ← read_nonzero_string tree key
    ok (iequals str (codes "yes") || iequals str (codes "true"))

  -- The type T is in the way that the value is got.
  pub read_numeric_value {ℓ} :
      {T : Type ℓ} → (pt.Tree → Option T) → pt.Tree → Bytes → Result ConfigError T
  unfolding find_key
  read_numeric_value get_value tree key = do
    it ← find_key tree key
    elim (get_value it) [ none ↦ err bad_data | some value ↦ ok value ]

  pub read_server_configuration :
      (Bytes → Bytes → Bool) → pt.Tree → ProgConfig → Result ConfigError ProgConfig
  unfolding read_nonzero_string read_boolean_value read_numeric_value
  read_server_configuration iequals tree_node cfg = do
    serveraddr ← read_nonzero_string tree_node (codes "Address")
    port ← read_numeric_value pt.get_port tree_node (codes "Port")
    username ← read_nonzero_string tree_node (codes "Username")
    password ← read_nonzero_string tree_node (codes "Password")
    tls ← read_boolean_value iequals tree_node (codes "TLS")
    num_connections ← read_numeric_value pt.get_int tree_node (codes "Connections")
    let conn : ConnectionInfo = record {
      username = username;
      password = password;
      serveraddr = serveraddr;
      port = port;
      tls = tls;
    }
    ok (record cfg { servers = cfg.servers ++ (conn, num_connections) ∷ [] })

  -- The body of the loop over the sections of the file, and the loop.
  pub read_section :
      StringAlgorithms
      → (Bytes → Bytes → Bool)
      → Bytes × pt.Tree
      → ProgConfig
      → Result ConfigError ProgConfig
  unfolding read_server_configuration
  read_section algo iequals (name, section) cfg =
      if algo.starts_with name (codes "Server")
      then read_server_configuration iequals section cfg
      else ok cfg

  pub read_servers :
      StringAlgorithms
      → (Bytes → Bytes → Bool)
      → List (Bytes × pt.Tree)
      → ProgConfig
      → Result ConfigError ProgConfig
  unfolding read_section
  read_servers algo iequals [] cfg = ok cfg
  read_servers algo iequals (section ∷ rest) cfg =
      read_section algo iequals section cfg >>= λ cfg'. read_servers algo iequals rest cfg'

  pub read_global : pt.Tree → ProgConfig → Result ConfigError ProgConfig
  unfolding read_nonzero_string read_numeric_value read_optional_string
  read_global global_section cfg = do
    from ← read_nonzero_string global_section (codes "From")
    article_size ← read_numeric_value pt.get_size global_section (codes "ArticleSize")
    queue_size ← read_numeric_value pt.get_size global_section (codes "ArticleQueueSize")
    operation_timeout ← read_numeric_value pt.get_int global_section (codes "OperationTimeout")
    let domain = read_optional_string global_section (codes "MsgIdDomain") cfg.msgiddomain
    ok (record cfg {
      from = from;
      article_size = article_size;
      queue_size = queue_size;
      operation_timeout = operation_timeout;
      msgiddomain = (if ltb 0 (length domain) then domain else codes "post2usenet");
    })

  pub read_configuration_file :
      StringAlgorithms → (Bytes → Bytes → Bool) → Bytes → ProgConfig → Result ConfigError ProgConfig
  unfolding read_global read_servers
  read_configuration_file algo iequals path cfg = elim (pt.read_ini path) [
    | none ↦ err invalid_ini
    | some tree ↦ elim (pt.find tree (codes "global")) [
      | none ↦ err missing_global
      | some global_section ↦
          read_global global_section cfg >>= read_servers algo iequals (pt.sections tree)
    ]
  ]

abbrev pub or_else {ℓ} : {A : Type ℓ} → Option A → A → A
or_else none a = a
or_else (some b) a = b

-- `vm["file"]` is there: load_program_config has tested it.
pub read_cmdline_args : VariablesMap → ProgConfig → ProgConfig
unfolding size_of_int
read_cmdline_args vm cfg = record cfg {
  io_threads = size_of_int vm.iothreads;
  article_size = elim vm.articlesize [ none ↦ cfg.article_size | some n ↦ size_of_int n ];
  subject = or_else vm.subject cfg.subject;
  validate_posts = vm.validate;
  raw = vm.raw;
  files = cfg.files ++ or_else vm.file [];
  groups = or_else vm.group cfg.groups;
  nzboutput = or_else vm.output cfg.nzboutput;
}

pub all_exist : FileSystem → List Bytes → Bool
all_exist fs [] = true
all_exist fs (path ∷ rest) = fs.exists path && all_exist fs rest

-- What is tested once the file has been read, with the command line taken over in between.
pub check_config : FileSystem → VariablesMap → ProgConfig → Option ProgConfig
unfolding read_cmdline_args all_exist
check_config fs vm read =
    if ltb (length read.servers) 1
    then none
    else let full = read_cmdline_args vm read in
      if ltb (length full.groups) 1
      then none
      else if all_exist fs full.files
      then some full
      else none

-- The configuration that is read, or `none` for the result false. `parse` is the parser of the command
-- line: store() and notify(), `none` for a po::error; `help` is tested in between, so a command line
-- with it is parsed even where a file is missing.
unfoldable pub load_program_config :
    (pt : PropertyTrees)
    → StringAlgorithms
    → (Bytes → Bytes → Bool)
    → FileSystem
    → Bytes
    → Option VariablesMap
    → ProgConfig
    → Option ProgConfig
unfolding read_configuration_file check_config
load_program_config pt algo iequals fs default_path none cfg = none
load_program_config pt algo iequals fs default_path (some vm) cfg =
    if vm.help then none else elim vm.file [
      | none ↦ none
      | some files ↦
          let path = or_else vm.config default_path in
          if not (fs.exists path)
          then none
          else elim (read_configuration_file pt algo iequals path cfg) [
            | err e ↦ none
            | ok read ↦ check_config fs vm read
          ]
    ]
