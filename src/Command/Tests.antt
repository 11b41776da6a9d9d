-- ===== src/Command/Tests.antt =====
-- A machine, a configuration that requires TLS, and instances of the theorems of the start on them.
use mcp_zero_trust_proxy.Base.{
  ◌≡◌, ◌≢◌, refl, ◌⊎◌, inl, inr, String, true, false, none, some, In, [], ◌∷◌, contains, ok, sym,
  ap, ◌∙◌, lookup, ne_of_==,
}
use mcp_zero_trust_proxy.Auth.Login.{
  Outside, role_for, resolve_role, evaluate_claim_rules, set_user_restrictions,
}
use mcp_zero_trust_proxy.Protocol.Samples.{client_of}
use mcp_zero_trust_proxy.Rbac.{Permission}
use mcp_zero_trust_proxy.Command.Roles.{started_role_known}
use mcp_zero_trust_proxy.Auth.Providers.{oidc_provider}
use mcp_zero_trust_proxy.Pii.{Regexp}
use mcp_zero_trust_proxy.Http.{bytes_of}
use mcp_zero_trust_proxy.Config.{Config, AuditSinkConfig}
use mcp_zero_trust_proxy.Audit.Built.{known_facility}
use mcp_zero_trust_proxy.Config.Defaults.{
  default_sink, apply_defaults, default_server_config, default_registry, default_audit,
}
use mcp_zero_trust_proxy.Config.Validate.Parts.{
  validate, check_source, check_versions, check_registry, server_errors, server_names,
}
use mcp_zero_trust_proxy.Config.Tests.{sample_config, sample_checks, sample_valid}
use mcp_zero_trust_proxy.Command.{Machine, Started, start}
use mcp_zero_trust_proxy.Command.Tls.{start-IsStarted, IsModern, started_secure}
use mcp_zero_trust_proxy.Command.Starts.{IsReady, valid_config_starts}

abbrev local_outside : Outside
local_outside = record {
  user_info = λ token. none;
  format_float = λ n. n;
  contains = λ s t. false;
  has_suffix = λ s t. false;
  match_string = λ p s. false;
  compiles = λ p. true;
}

abbrev local_regexp : Regexp
local_regexp = record {
  compiles = λ r. true;
  matches = λ r text. true;
  find_all = λ r text. [];
  quote_meta = λ text. text;
}

abbrev local_machine : Machine
local_machine = record {
  Url = String;
  checks = sample_checks;
  outside = local_outside;
  regexp = local_regexp;
  encode = bytes_of;
  parse_duration = λ text. none;
  restore = λ cfg. some [];
  fetch = λ url. some (record {
    authorization_endpoint = bytes_of "https://id/a";
    token_endpoint = bytes_of "https://id/t";
    user_info_endpoint = [];
  });
  connects = λ sink. true;
  file_sink = λ cfg. true;
  parse_url = λ url. some url;
  catalog = λ cfg. true;
  suites = ("TLS_RSA_WITH_AES_128_CBC_SHA", 47) ∷ [];
}

abbrev secure_source : Config
secure_source = record sample_config {
  server = record sample_config.server {
    tls = record sample_config.server.tls {
      cert_file = "cert.pem";
      key_file = "key.pem";
      required = true;
    };
  };
}

abbrev secure_config : Config
secure_config = apply_defaults secure_source

secure_valid : validate sample_checks secure_config ≡ []
unfolding validate check_source check_versions check_registry server_errors server_names
    apply_defaults default_server_config default_registry default_audit
secure_valid = sample_valid

secure_ready : IsReady local_machine secure_config
unfolding apply_defaults default_server_config default_registry default_audit default_sink contains
    oidc_provider
secure_ready = record {
  agree = λ b h. refl;
  quoted = λ tool h. refl;
  restricts = λ s h. refl;
  discovered = refl;
  connected = λ sink member. refl;
  file = refl;
  parsed = (refl, tt);
}

secure_facilities :
    (sink : AuditSinkConfig) → In sink secure_config.audit.sinks → known_facility sink.cef ≡ true
unfolding apply_defaults default_audit default_sink contains
secure_facilities sink member = elim member [ inl q ↦ rw q refl | inr m ↦ absurd m ]

secure_start : (s : Started local_machine) × (start local_machine secure_config ≡ ok s)
unfolding apply_defaults default_server_config
secure_start =
    valid_config_starts local_machine secure_config secure_ready secure_valid secure_facilities refl
      refl

started_secure_example :
    IsModern secure_start.0.tls.min_version
    × ((secure_config.server.tls.required ≡ false)
        ⊎ ((secure_start.0.serves_tls ≡ true)
            × (secure_config.server.tls.cert_file ≢ "")
            × (secure_config.server.tls.key_file ≢ "")))
started_secure_example = started_secure local_machine secure_config secure_start.0 secure_start.1

alice_is_auditor :
    role_for local_machine.outside secure_start.0.authenticator (client_of "" "s") ≡ "auditor"
unfolding apply_defaults set_user_restrictions resolve_role evaluate_claim_rules lookup
alice_is_auditor =
    ap (λ a. role_for local_outside a (client_of "" "s"))
      (start-IsStarted local_machine secure_config secure_start.0 secure_start.1).authenticator
    ∙ refl

started_role_known_example :
    (perm : Permission) × (lookup
        (role_for local_machine.outside secure_start.0.authenticator (client_of "" "s"))
        secure_start.0.rbac.permissions
      ≡ some perm)
started_role_known_example =
    started_role_known local_machine secure_source secure_start.0 secure_start.1 (client_of "" "s")
      (λ q. ne_of_== "auditor" "" refl (sym alice_is_auditor ∙ q))
