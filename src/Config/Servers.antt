-- ===== src/Config/Servers.antt =====
-- What the sections of servers that program_config.cc reads have.
use post2usenet.Common.{
  Bool, List, [], ◌∷◌, ◌++◌, ◌≡◌, ◌≢◌, refl, ◌∙◌, arith, Bytes, codes, length, All, All-append,
  Bool-cases, ltb, if◌then◌else◌, inl, inr,
}
use post2usenet.Common.Int.{ℤ}
use post2usenet.Common.Result.{Result, ok, err, >>=-ok}
use post2usenet.Boost.{StringAlgorithms, PropertyTrees}
use post2usenet.ConnectionInfo.{ConnectionInfo}
use post2usenet.Config.{
  ProgConfig, ConfigError, must_not_be_empty, find_key, read_numeric_value, read_boolean_value,
  read_nonzero_string, read_server_configuration, read_section, read_servers,
}

-- A server that can be connected to: it has an address, a user name and a password.
pub record HasServer (s : ConnectionInfo × ℤ) : Type 0 where
  pub address : s.0.serveraddr ≢ []
  pub username : s.0.username ≢ []
  pub password : s.0.password ≢ []

pub ok_inj : (a b : ProgConfig) → ◌≡◌ {A = Result ConfigError ProgConfig} (ok a) (ok b) → b ≡ a
ok_inj a b e = cc

pub read_nonzero_string-ne-nil :
    (pt : PropertyTrees) (tree : pt.Tree) (key s : Bytes)
    → read_nonzero_string pt tree key ≡ ok s
    → s ≢ []
unfolding read_nonzero_string
read_nonzero_string-ne-nil pt tree key s e =
    let (it, found, tests) = >>=-ok (find_key pt tree key) _ s e in
    nonzero (pt.get_string it) s tests
  where
    nonzero :
        (text t : Bytes)
        → (if ltb (length text) 1 then err (must_not_be_empty key) else ok text) ≡ ok t
        → t ≢ []
    nonzero [] t h = ground arith
    nonzero (c ∷ text) t h = ground arith

module _ (pt : PropertyTrees) (iequals : Bytes → Bytes → Bool) where
  -- A section of a server adds one, and changes nothing else.
  AddsServer : ProgConfig → ProgConfig → Type 0
  AddsServer cfg cfg' =
      (s : ConnectionInfo × ℤ) × HasServer s
      × (cfg' ≡ record cfg { servers = cfg.servers ++ s ∷ [] })

  read_server_configuration-AddsServer :
      (tree : pt.Tree) (cfg cfg' : ProgConfig)
      → read_server_configuration pt iequals tree cfg ≡ ok cfg'
      → AddsServer cfg cfg'
  unfolding read_server_configuration AddsServer
  read_server_configuration-AddsServer tree cfg cfg' e =
      let text = read_nonzero_string pt tree in
      let number = read_numeric_value pt pt.get_port tree (codes "Port") in
      let (a, ea, e1) = >>=-ok (text (codes "Address")) _ cfg' e in
      let (port, _, e2) = >>=-ok number _ cfg' e1 in
      let (u, eu, e3) = >>=-ok (text (codes "Username")) _ cfg' e2 in
      let (w, ew, e4) = >>=-ok (text (codes "Password")) _ cfg' e3 in
      let (tls, _, e5) = >>=-ok (read_boolean_value pt iequals tree (codes "TLS")) _ cfg' e4 in
      let (n, _, e6) =
        >>=-ok (read_numeric_value pt pt.get_int tree (codes "Connections")) _ cfg' e5 in
      (
        _,
        record {
          address = read_nonzero_string-ne-nil pt tree (codes "Address") a ea;
          username = read_nonzero_string-ne-nil pt tree (codes "Username") u eu;
          password = read_nonzero_string-ne-nil pt tree (codes "Password") w ew;
        },
        ok_inj _ cfg' e6,
      )

  -- What the sections of the servers leave behind.
  pub record ReadsServers (cfg cfg' : ProgConfig) : Type 0 where
    pub servers : All HasServer cfg'.servers
    pub from : cfg'.from ≡ cfg.from
    pub domain : cfg'.msgiddomain ≡ cfg.msgiddomain
    pub no_files : cfg'.files ≡ cfg.files

  read_section-ReadsServers :
      (algo : StringAlgorithms) (section : Bytes × pt.Tree) (cfg cfg' : ProgConfig)
      → All HasServer cfg.servers
      → read_section pt algo iequals section cfg ≡ ok cfg'
      → ReadsServers cfg cfg'
  unfolding read_section AddsServer
  read_section-ReadsServers algo (name, section) cfg cfg' h e =
      elim (Bool-cases (algo.starts_with name (codes "Server"))) [
        | inl is_server ↦
            let (s, has, adds) =
              read_server_configuration-AddsServer section cfg cfg' (ground arith) in
            rw adds (record {
              servers = All-append HasServer cfg.servers (s ∷ []) h (has, tt);
              from = refl;
              domain = refl;
              no_files = refl;
            })
        | inr other ↦
            let same = ok_inj cfg cfg' (ground arith) in
            rw same (record { servers = h; from = refl; domain = refl; no_files = refl })
      ]

  pub read_servers-ReadsServers :
      (algo : StringAlgorithms) (sections : List (Bytes × pt.Tree)) (cfg cfg' : ProgConfig)
      → All HasServer cfg.servers
      → read_servers pt algo iequals sections cfg ≡ ok cfg'
      → ReadsServers cfg cfg'
  unfolding read_servers
  read_servers-ReadsServers algo [] cfg cfg' h e =
      let same = ok_inj cfg cfg' e in
      rw same (record { servers = h; from = refl; domain = refl; no_files = refl })
  read_servers-ReadsServers algo (section ∷ rest) cfg cfg' h e =
      let (next, reads, more) = >>=-ok (read_section pt algo iequals section cfg) _ cfg' e in
      let a = read_section-ReadsServers algo section cfg next h reads in
      let b = read_servers-ReadsServers algo rest next cfg' a.servers more in
      record {
        servers = b.servers;
        from = b.from ∙ a.from;
        domain = b.domain ∙ a.domain;
        no_files = b.no_files ∙ a.no_files;
      }
