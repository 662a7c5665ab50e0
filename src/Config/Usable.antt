-- ===== src/Config/Usable.antt =====
-- What a configuration that load_program_config of program_config.cc accepts can be used for.
use post2usenet.Common.{
  Bool, true, false, List, [], ◌∷◌, ◌≡◌, ◌≢◌, refl, arith, Bytes, codes, Option, none, some, length,
  All, Option-cases, ltb, if◌then◌else◌, inl, inr,
}
use post2usenet.Common.Int.{pos}
use post2usenet.Common.Result.{ok, err, ◌>>=◌, >>=-ok, Result-cases}
use post2usenet.Boost.{FileSystem, StringAlgorithms, PropertyTrees, VariablesMap}
use post2usenet.Fileset.{make_fileset, add_file}
use post2usenet.YencGenerator.{make_generator, zero_article_size}
use post2usenet.Config.{
  size_of_int, ProgConfig, read_numeric_value, read_nonzero_string, read_servers, read_global,
  read_configuration_file, read_optional_string, read_cmdline_args, check_config,
  load_program_config, all_exist, or_else,
}
use post2usenet.Config.Servers.{
  HasServer, ok_inj, read_nonzero_string-ne-nil, read_servers-ReadsServers,
}

-- What the program needs: a sender, a domain for message ids, servers, groups, and files that exist.
pub record IsUsable (fs : FileSystem) (cfg : ProgConfig) : Type 0 where
  pub from : cfg.from ≢ []
  pub domain : cfg.msgiddomain ≢ []
  pub some_server : cfg.servers ≢ []
  pub each_server : All HasServer cfg.servers
  pub some_group : cfg.groups ≢ []
  pub each_file : All (λ p. fs.exists p ≡ true) cfg.files

pub read_global-names :
    (pt : PropertyTrees) (tree : pt.Tree) (cfg cfg' : ProgConfig)
    → read_global pt tree cfg ≡ ok cfg'
    → (cfg'.from ≢ [])
      × (cfg'.msgiddomain ≢ [])
      × (cfg'.servers ≡ cfg.servers)
      × (cfg'.files ≡ cfg.files)
unfolding read_global
read_global-names pt tree cfg cfg' e =
    let (from, ef, e1) = >>=-ok (read_nonzero_string pt tree (codes "From")) _ cfg' e in
    let (a, _, e2) =
      >>=-ok (read_numeric_value pt pt.get_size tree (codes "ArticleSize")) _ cfg' e1 in
    let (q, _, e3) =
      >>=-ok (read_numeric_value pt pt.get_size tree (codes "ArticleQueueSize")) _ cfg' e2 in
    let (t, _, e4) =
      >>=-ok (read_numeric_value pt pt.get_int tree (codes "OperationTimeout")) _ cfg' e3 in
    let same = ok_inj _ cfg' e4 in
    let named = read_nonzero_string-ne-nil pt tree (codes "From") from ef in
    rw same (
      named,
      domain_ne_nil (read_optional_string pt tree (codes "MsgIdDomain") cfg.msgiddomain),
      refl,
      refl,
    )
  where
    domain_ne_nil : (d : Bytes) → (if ltb 0 (length d) then d else codes "post2usenet") ≢ []
    domain_ne_nil [] = ground arith
    domain_ne_nil (c ∷ d) = ground arith

all_exist-All :
    (fs : FileSystem) (paths : List Bytes)
    → all_exist fs paths ≡ true
    → All (λ p. fs.exists p ≡ true) paths
unfolding all_exist
all_exist-All fs [] h = tt
all_exist-All fs (p ∷ paths) h = (ground arith, all_exist-All fs paths (ground arith))

-- A result that has passed the tests.
pub record PassesChecks (fs : FileSystem) (vm : VariablesMap) (read cfg : ProgConfig) : Type 0 where
  pub full : cfg ≡ read_cmdline_args vm read
  pub servers : read.servers ≢ []
  pub groups : (read_cmdline_args vm read).groups ≢ []
  pub files : All (λ p. fs.exists p ≡ true) (read_cmdline_args vm read).files

length_ne_nil {ℓ} : {A : Type ℓ} (xs : List A) → ltb (length xs) 1 ≡ false → xs ≢ []
length_ne_nil [] h e = ground arith
length_ne_nil (x ∷ xs) h e = ground arith

check_config-PassesChecks :
    (fs : FileSystem) (vm : VariablesMap) (read cfg : ProgConfig)
    → check_config fs vm read ≡ some cfg
    → PassesChecks fs vm read cfg
unfolding check_config
check_config-PassesChecks fs vm read cfg e = record {
  full = ground arith;
  servers = length_ne_nil read.servers (ground arith);
  groups = length_ne_nil (read_cmdline_args vm read).groups (ground arith);
  files = all_exist-All fs (read_cmdline_args vm read).files (ground arith);
}

pub load_program_config-read :
    (pt : PropertyTrees) (algo : StringAlgorithms) (iequals : Bytes → Bytes → Bool)
    (fs : FileSystem) (default_path : Bytes) (vm : VariablesMap) (cfg cfg' : ProgConfig)
    → load_program_config pt algo iequals fs default_path (some vm) cfg ≡ some cfg'
    → (read : ProgConfig) × (read_configuration_file pt algo iequals
          (or_else vm.config default_path)
          cfg
        ≡ ok read)
      × PassesChecks fs vm read cfg'
unfolding load_program_config
load_program_config-read pt algo iequals fs default_path vm cfg cfg' e =
    elim (Option-cases vm.file) [
      | inl no_file ↦ absurd (ground arith)
      | inr (files, has_file) ↦
          elim (Result-cases
            (read_configuration_file pt algo iequals (or_else vm.config default_path) cfg)) [
              | inl (x, bad) ↦ absurd (ground arith)
              | inr (read, good) ↦
                  (read, good, check_config-PassesChecks fs vm read cfg' (ground arith))
            ]
    ]

read_configuration_file-names :
    (pt : PropertyTrees) (algo : StringAlgorithms) (iequals : Bytes → Bytes → Bool) (path : Bytes)
    (cfg read : ProgConfig)
    → cfg.servers ≡ []
    → read_configuration_file pt algo iequals path cfg ≡ ok read
    → (read.from ≢ []) × (read.msgiddomain ≢ []) × All HasServer read.servers
unfolding read_configuration_file
read_configuration_file-names pt algo iequals path cfg read none_yet e =
    elim (Option-cases (pt.read_ini path)) [
      | inl bad ↦ absurd (ground arith)
      | inr (tree, parsed) ↦ elim (Option-cases (pt.find tree (codes "global"))) [
        | inl missing ↦ absurd (ground arith)
        | inr (section, found) ↦
            let reads : read_global pt section cfg
                  >>= read_servers pt algo iequals (pt.sections tree)
                ≡ ok read =
              ground arith in
            let (global, e1, e2) = >>=-ok (read_global pt section cfg) _ read reads in
            let (from, domain, servers, _) = read_global-names pt section cfg global e1 in
            let r =
              read_servers-ReadsServers pt iequals algo (pt.sections tree) global read
                (rw (servers, none_yet) tt) e2 in
            (rw r.from from, rw r.domain domain, r.servers)
      ]
    ]

-- A configuration that load_program_config accepts, from one with no servers, can be used: it names a
-- sender, a domain for message ids, one server or more, each with an address, a user name and a
-- password, and one group or more; and every file that it names exists.
pub load_program_config-IsUsable :
    (pt : PropertyTrees) (algo : StringAlgorithms) (iequals : Bytes → Bytes → Bool)
    (fs : FileSystem) (default_path : Bytes) (vm : Option VariablesMap) (cfg cfg' : ProgConfig)
    → cfg.servers ≡ []
    → load_program_config pt algo iequals fs default_path vm cfg ≡ some cfg'
    → IsUsable fs cfg'
unfolding load_program_config read_cmdline_args
load_program_config-IsUsable pt algo iequals fs default_path none cfg cfg' none_yet e =
    absurd (ground arith)
load_program_config-IsUsable pt algo iequals fs default_path (some vm) cfg cfg' none_yet e =
    let (read, reads, passes) =
      load_program_config-read pt algo iequals fs default_path vm cfg cfg' e in
    let (from, domain, servers) =
      read_configuration_file-names pt algo iequals _ cfg read none_yet reads in
    rw passes.full (record {
      from = from;
      domain = domain;
      some_server = passes.servers;
      each_server = servers;
      some_group = passes.groups;
      each_file = passes.files;
    })

-- The same command line with an article size of 0.
abbrev pub zeroed : VariablesMap → VariablesMap
zeroed vm = record vm { articlesize = some (pos 0) }

-- No test looks at the article size.
check_config-zeroed :
    (fs : FileSystem) (vm : VariablesMap) (read cfg : ProgConfig)
    → check_config fs vm read ≡ some cfg
    → check_config fs (zeroed vm) read ≡ some (record cfg { article_size = 0 })
unfolding check_config read_cmdline_args size_of_int
check_config-zeroed fs vm read cfg e =
    let passes = check_config-PassesChecks fs vm read cfg e in
    let full = passes.full in rw full (ground arith)

load_program_config-zeroed :
    (pt : PropertyTrees) (algo : StringAlgorithms) (iequals : Bytes → Bytes → Bool)
    (fs : FileSystem) (default_path : Bytes) (vm : VariablesMap) (cfg cfg' : ProgConfig)
    → load_program_config pt algo iequals fs default_path (some vm) cfg ≡ some cfg'
    → load_program_config pt algo iequals fs default_path (some (zeroed vm)) cfg
      ≡ some (record cfg' { article_size = 0 })
unfolding load_program_config
load_program_config-zeroed pt algo iequals fs default_path vm cfg cfg' e =
    elim (Option-cases vm.file) [
      | inl no_file ↦ absurd (ground arith)
      | inr (files, has_file) ↦
          elim (Result-cases
            (read_configuration_file pt algo iequals (or_else vm.config default_path) cfg)) [
              | inl (x, bad) ↦ absurd (ground arith)
              | inr (read, good) ↦
                  let zero = check_config-zeroed fs vm read cfg' (ground arith) in ground arith
            ]
    ]

-- Whatever configuration is accepted is accepted as well with an article size of 0 on the command line,
-- which wins over that of the file; and with it add_file fails at every file that can be read, with the
-- division by 0 of the generator's constructor.
pub zero_article_size_accepted :
    (pt : PropertyTrees) (algo : StringAlgorithms) (iequals : Bytes → Bytes → Bool)
    (fs : FileSystem) (default_path : Bytes) (vm : VariablesMap) (cfg cfg' : ProgConfig)
    (p content : Bytes)
    → load_program_config pt algo iequals fs default_path (some vm) cfg ≡ some cfg'
    → fs.exists p ≡ true
    → fs.is_regular p ≡ true
    → fs.contents p ≡ some content
    → (cfg0 : ProgConfig) × (load_program_config pt algo iequals fs default_path
          (some (zeroed vm))
          cfg
        ≡ some cfg0)
      × (cfg0.files ≡ cfg'.files)
      × ((add_file fs (make_fileset cfg0.article_size) p).1 ≡ err zero_article_size)
unfolding add_file make_fileset make_generator
zero_article_size_accepted pt algo iequals fs default_path vm cfg cfg' p content e there regular
      opens =
    (
      record cfg' { article_size = 0 },
      load_program_config-zeroed pt algo iequals fs default_path vm cfg cfg' e,
      refl,
      ground arith,
    )
