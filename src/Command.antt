-- ===== src/Command.antt =====
-- cmd/mcpproxy/main.go: the start of the proxy, from a loaded configuration to the server, where each
-- error is fatal, and the settings of TLS. internal/auth/oauth.go: the new authenticator. What the
-- start asks of the network, the files and `regexp` is the record `Machine`, a parameter.
pub mod Tls
pub mod Starts
pub mod Roles
mod Tests
use mcp_zero_trust_proxy.Base.{
  ℕ, ℤ, pos, negsuc, String, Bool, true, false, ◌&&◌, not, Option, none, some, List, [], ◌∷◌, ◌==◌,
  map, if◌then◌else◌, is_empty, Dict, lookup, Result, ok, err, ◌>>=◌, ◌>>◌, need, guard, is_ok,
}
use mcp_zero_trust_proxy.Protocol.{Bytes}
use mcp_zero_trust_proxy.Pii.{Regexp, NewMasker, bad_pattern, new_masker}
use mcp_zero_trust_proxy.Auth.Store.{Session, SessionStore, new_store}
use mcp_zero_trust_proxy.Rbac.{Engine, new_engine}
use mcp_zero_trust_proxy.Config.Known.{with_users}
use mcp_zero_trust_proxy.Auth.Providers.{OauthProvider, OidcDiscovery, select_provider}
use mcp_zero_trust_proxy.Auth.Login.{Outside, Authenticator, set_user_restrictions}
use mcp_zero_trust_proxy.Audit.{AuditEngine, Filter, Sink, SinkConfig, new_audit_engine}
use mcp_zero_trust_proxy.Audit.Built.{sink_built}
use mcp_zero_trust_proxy.Routing.{ServerRouter, new_server_router}
use mcp_zero_trust_proxy.Config.{
  Config, AuthConfig, SessionStoreConfig, AuditConfig, AuditSinkConfig, SinkFilterConfig, TlsConfig,
}
use mcp_zero_trust_proxy.Config.Validate.{Checks}
use mcp_zero_trust_proxy.Config.Validate.Parts.{validate}

-- The versions of TLS, and their order.
pub data TlsVersion : Type 0 where
  tls10 tls11 tls12 tls13 : TlsVersion

-- An empty list of suites leaves the choice to Go.
pub record ServerTls : Type 0 where
  pub min_version : TlsVersion
  pub cipher_suites : List ℕ

unfoldable pub parse_tls_version : String → Option TlsVersion
parse_tls_version v =
    if v == "1.0"
    then some tls10
    else if v == "1.1"
    then some tls11
    else if v == "1.2"
    then some tls12
    else if v == "1.3"
    then some tls13
    else none

abbrev or_tls12 : Option TlsVersion → TlsVersion
or_tls12 none = tls12
or_tls12 (some version) = version

abbrev with_suite : Option ℕ → List ℕ → List ℕ
with_suite none ids = ids
with_suite (some id) ids = id ∷ ids

-- `suites` are those of `tls.CipherSuites`.
unfoldable pub suite_ids : Dict ℕ → List String → List ℕ
suite_ids suites [] = []
suite_ids suites (name ∷ names) = with_suite (lookup name suites) (suite_ids suites names)

unfoldable pub build_tls_config : Dict ℕ → TlsConfig → ServerTls
build_tls_config suites cfg = record {
  min_version = or_tls12 (parse_tls_version cfg.min_version);
  cipher_suites = suite_ids suites cfg.cipher_suites;
}

-- `NewAuthenticator`, its token cache.
unfoldable pub cache_size : ℤ → ℕ
cache_size (pos ℕ.zero) = 1000
cache_size (pos (ℕ.suc n)) = ℕ.suc n
cache_size (negsuc n) = 1000

unfoldable pub new_authenticator : AuthConfig → SessionStore → Authenticator
new_authenticator cfg sessions = record {
  user_roles = none;
  default_role = "";
  claim_rules = [];
  allow_regex = none;
  deny_regex = none;
  tokens = record { max_size = cache_size cfg.max_token_cache_size; nodes = [] };
  sessions = sessions;
}

-- `parse_duration` is `time.ParseDuration`, `restore` what the backend of the sessions restores,
-- `fetch` is the answer of an issuer to the discovery, `connects` whether the constructor of a sink reaches its
-- receiver, `file_sink` what the constructor of the file sink gives, `parse_url` is `url.Parse`, and
-- `catalog` whether the tool catalog can be made.
pub record Machine : Type 1 where
  pub Url : Type 0
  pub checks : Checks
  pub outside : Outside
  pub regexp : Regexp
  pub encode : String → Bytes
  pub parse_duration : String → Option ℤ
  pub restore : SessionStoreConfig → Option (Dict Session)
  pub fetch : Bytes → Option OidcDiscovery
  pub connects : AuditSinkConfig → Bool
  pub file_sink : AuditConfig → Bool
  pub parse_url : String → Option Url
  pub catalog : Config → Bool
  pub suites : Dict ℕ

pub data StartError : Type 0 where
  invalid_configuration no_authenticator bad_restrictions no_audit_logger : StartError
  no_masker no_router no_catalog catalog_panicked tls_not_configured : StartError

pub record Started (m : Machine) : Type 0 where
  pub provider : OauthProvider
  pub authenticator : Authenticator
  pub rbac : Engine
  pub engine : AuditEngine
  pub masker : NewMasker
  pub router : ServerRouter m.Url
  pub tls : ServerTls
  pub serves_tls : Bool

abbrev pub tls_enabled : TlsConfig → Bool
tls_enabled cfg = not (cfg.cert_file == "") && not (cfg.key_file == "")

abbrev has_masker : NewMasker → Bool
has_masker masker = elim masker [ bad_pattern ↦ false | _ ↦ true ]

-- `NewFilter`
abbrev pub filter_of : Option SinkFilterConfig → Option Filter
filter_of none = none
filter_of (some cfg) = some (record {
  methods = cfg.methods;
  tools = cfg.tools;
  results = cfg.results;
  client_ids = cfg.client_ids;
})

module _ (m : Machine) where
  -- A sink of the configuration for `createExternalSink`; with its section in `built`.
  abbrev pub sink_config : AuditSinkConfig → SinkConfig
  sink_config sink = record {
    enabled = sink.enabled;
    kind = sink.kind;
    section = true;
    built = sink_built sink && m.connects sink;
    name = sink.kind;
    filter = filter_of sink.filter;
  }

  abbrev file_of : AuditConfig → Option Sink
  file_of cfg = if m.file_sink cfg then some (record { name = "file"; filter = none }) else none

  abbrev pub new_logger : AuditConfig → Option AuditEngine
  new_logger cfg = new_audit_engine cfg.enabled cfg.output (file_of cfg) (map sink_config cfg.sinks)

  -- The authenticator with the users' roles, the claim rules and the restrictions of the
  -- configuration, and whether the restrictions compile.
  abbrev pub wired : Config → Bool × Authenticator
  wired cfg =
      let sessions =
        new_store (m.parse_duration cfg.auth.session.ttl) (m.restore cfg.auth.session) in
      set_user_restrictions m.outside cfg.user_restrictions.allow_regex
        cfg.user_restrictions.deny_regex
        (with_users m.outside cfg.user_roles (new_authenticator cfg.auth sessions))

  -- `main`, from the loaded configuration. `toolCatalog.Start` panics: the catalog's configuration is
  -- built without an interval, and `time.NewTicker` panics on zero.
  unfoldable pub start : Config → Result StartError (Started m)
  start cfg = do
    guard invalid_configuration (is_empty (validate m.checks cfg))
    provider ← need no_authenticator (select_provider m.fetch cfg.auth)
    guard bad_restrictions (wired cfg).0
    engine ← need no_audit_logger (new_logger cfg.audit)
    guard no_masker (has_masker (new_masker m.regexp m.encode cfg.pii_masking))
    router ← need no_router (new_server_router m.parse_url cfg.server.registry)
    guard no_catalog (if cfg.catalog.enabled then m.catalog cfg else true)
    guard catalog_panicked (not cfg.catalog.enabled)
    guard tls_not_configured (not (cfg.server.tls.required && not (tls_enabled cfg.server.tls)))
    ok (record {
      provider = provider;
      authenticator = (wired cfg).1;
      rbac = new_engine cfg.roles cfg.classification;
      engine = engine;
      masker = new_masker m.regexp m.encode cfg.pii_masking;
      router = router;
      tls = build_tls_config m.suites cfg.server.tls;
      serves_tls = tls_enabled cfg.server.tls;
    })
