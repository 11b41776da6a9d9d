-- ===== src/Config/Validate.antt =====
-- internal/config/config.go, `Validate` and the validators that it calls. The errors are listed in
-- the order in which they are found; `Validate` fails when there is one. Indices count from 1.
pub mod Roles
pub mod Sinks
pub mod Parts
use mcp_zero_trust_proxy.Base.{
  ℕ, suc, ◌+◌, String, Bool, true, false, ◌&&◌, ◌||◌, not, Option, none, some, List, [], ◌∷◌, ◌++◌,
  ◌==◌, if◌then◌else◌, is_empty, contains, Dict, ltb_ℤ, leb_ℤ, pos, length, eqb,
}
use mcp_zero_trust_proxy.Protocol.{Bytes}
use mcp_zero_trust_proxy.Http.{bytes_of, trim_space}

-- The errors of all the validators, with what they report.
pub data ConfigError : Type 0 where
  source_required oidc_issuer_required entra_issuer_required invalid_allow_regex : ConfigError
  invalid_deny_regex file_path_required role_name_required empty_level : ConfigError
  pattern_name_required class_name_required empty_tool_pattern : ConfigError
  undefined_role unknown_provider unknown_output unknown_log_level unknown_log_format :
      String → ConfigError
  invalid_http_version invalid_tls_version invalid_outbound_tls invalid_cipher :
      String → ConfigError
  duplicate_level duplicate_pattern pattern_required invalid_pattern long_filler :
      String → ConfigError
  duplicate_class undefined_default : String → ConfigError
  undefined_pattern undefined_class undefined_level undefined_role_level :
      String → String → ConfigError
  claim_required invalid_claim_regex sink_type_required ocsf_required workspace_required :
      ℕ → ConfigError
  api_key_required batch_size_too_small cef_required host_required bad_port : ℕ → ConfigError
  json_http_required endpoint_required endpoint_not_https : ℕ → ConfigError
  server_name_required server_url_required negative_timeout : ℕ → ConfigError
  unknown_operator unknown_sink unknown_transport unknown_result duplicate_server :
      ℕ → String → ConfigError

-- `regexp.Compile` without an error, and the names of `tls.CipherSuites`.
pub record Checks : Type 0 where
  pub compiles : Bytes → Bool
  pub cipher_suites : List String

-- An error if the test holds.
unfoldable pub when : Bool → ConfigError → List ConfigError
when b e = if b then e ∷ [] else []

-- The first error if its test holds, else the second if its own does.
unfoldable pub else_when : Bool → ConfigError → Bool → ConfigError → List ConfigError
else_when b e b' e' = if b then e ∷ [] else when b' e'

-- `strings.TrimSpace(s) == ""`, over ASCII.
unfoldable pub blank : String → Bool
blank s = is_empty (trim_space (bytes_of s))

-- A value that is set is one of those listed.
unfoldable pub one_of : List String → String → Bool
one_of valid s = s == "" || contains valid s

-- A name added to those seen.
unfoldable pub add_seen : String → List String → List String
add_seen s seen = if contains seen s then seen else seen ++ s ∷ []
