-- ===== src/Config/Validate/Parts.antt =====
-- internal/config/config.go, `Validate` on the other sections, `validateServerRegistry`,
-- `validatePIIMasking` and `validateClassification`, and the whole of `Validate`.
use mcp_zero_trust_proxy.Base.{
  ℕ, ◌+◌, String, Bool, false, ◌&&◌, not, Option, none, some, List, [], ◌∷◌, ◌++◌, ◌==◌,
  if◌then◌else◌, is_empty, contains, Dict, ltb_ℤ, pos, length, eqb,
}
use mcp_zero_trust_proxy.Http.{bytes_of, trim_space}
use mcp_zero_trust_proxy.Rbac.{RoleConfig, ClassificationConfig}
use mcp_zero_trust_proxy.Pii.{PatternConfig, ClassConfig, PartialMaskConfig, MaskingConfig}
use mcp_zero_trust_proxy.Config.{
  Config, ServerConfig, ServerRegistryConfig, UpstreamServerConfig, AuthConfig,
  UserRestrictionsConfig, LogConfig, OutboundConfig,
}
use mcp_zero_trust_proxy.Config.Validate.{
  ConfigError, source_required, oidc_issuer_required, entra_issuer_required, invalid_allow_regex,
  invalid_deny_regex, empty_level, pattern_name_required, class_name_required, empty_tool_pattern,
  unknown_provider, unknown_log_level, unknown_log_format, invalid_http_version,
  invalid_tls_version, invalid_outbound_tls, invalid_cipher, duplicate_level, duplicate_pattern,
  pattern_required, invalid_pattern, long_filler, duplicate_class, undefined_default,
  undefined_pattern, undefined_class, undefined_level, undefined_role_level, server_name_required,
  server_url_required, negative_timeout, duplicate_server, Checks, when, else_when, blank, one_of,
  add_seen,
}
use mcp_zero_trust_proxy.Config.Validate.Roles.{check_roles}
use mcp_zero_trust_proxy.Config.Validate.Sinks.{check_audit}

-- The errors of the servers, given the names before them.
unfoldable pub server_errors : ℕ → List String → List UpstreamServerConfig → List ConfigError
server_errors i seen [] = []
server_errors i seen (srv ∷ srvs) =
    else_when (blank srv.name) (server_name_required i) (contains seen srv.name)
      (duplicate_server i srv.name)
    ++ (when (blank srv.url) (server_url_required i)
        ++ (when (ltb_ℤ srv.timeout (pos 0)) (negative_timeout i)
            ++ server_errors (i + 1) (if blank srv.name then seen else add_seen srv.name seen)
                srvs))

unfoldable pub server_names : List String → List UpstreamServerConfig → List String
server_names seen [] = seen
server_names seen (srv ∷ srvs) =
    server_names (if blank srv.name then seen else add_seen srv.name seen) srvs

unfoldable pub check_registry : ServerRegistryConfig → List ConfigError
check_registry reg =
    server_errors 1 [] reg.servers
    ++ when (not (blank reg.default) && not (contains (server_names [] reg.servers) reg.default))
        (undefined_default reg.default)

-- At least one upstream; the registry is checked where it has servers.
unfoldable pub check_source : ServerConfig → List ConfigError
check_source server =
    when (blank server.upstream_url && is_empty server.registry.servers) source_required
    ++ (if is_empty server.registry.servers then [] else check_registry server.registry)

unfoldable pub check_auth : AuthConfig → List ConfigError
check_auth auth =
    when (not (one_of ("github" ∷ "google" ∷ "entra" ∷ "oidc" ∷ []) auth.provider))
      (unknown_provider auth.provider)
    ++ (when (auth.provider == "oidc" && blank auth.issuer_url) oidc_issuer_required
        ++ when (auth.provider == "entra" && blank auth.issuer_url) entra_issuer_required)

unfoldable pub check_restrictions : Checks → UserRestrictionsConfig → List ConfigError
check_restrictions checks users =
    when (not (users.allow_regex == "") && not (checks.compiles (bytes_of users.allow_regex)))
      invalid_allow_regex
    ++ when (not (users.deny_regex == "") && not (checks.compiles (bytes_of users.deny_regex)))
        invalid_deny_regex

unfoldable pub check_logging : LogConfig → List ConfigError
check_logging logging =
    when (not (one_of ("debug" ∷ "info" ∷ "warn" ∷ "error" ∷ []) logging.level))
      (unknown_log_level logging.level)
    ++ when (not (one_of ("json" ∷ "text" ∷ []) logging.format)) (unknown_log_format logging.format)

unfoldable pub cipher_errors : Checks → List String → List ConfigError
cipher_errors checks [] = []
cipher_errors checks (c ∷ cs) =
    when (not (contains checks.cipher_suites c)) (invalid_cipher c) ++ cipher_errors checks cs

unfoldable pub check_versions : ServerConfig → OutboundConfig → List ConfigError
check_versions server outbound =
    when (not (one_of ("1.0" ∷ "1.1" ∷ "2.0" ∷ []) server.min_http_version))
      (invalid_http_version server.min_http_version)
    ++ (when (not (one_of ("1.2" ∷ "1.3" ∷ []) server.tls.min_version))
          (invalid_tls_version server.tls.min_version)
        ++ when (not (one_of ("1.2" ∷ "1.3" ∷ []) outbound.min_tls_version))
            (invalid_outbound_tls outbound.min_tls_version))

-- A filler that is set is one byte.
abbrev pub is_long : Option PartialMaskConfig → Bool
is_long none = false
is_long (some p) = not (is_empty p.filler) && not (eqb (length p.filler) 1)

-- The errors of one pattern, given the names before it.
unfoldable pub pattern_error : Checks → List String → PatternConfig → List ConfigError
pattern_error checks seen p =
    else_when (p.name == "") pattern_name_required (contains seen p.name) (duplicate_pattern p.name)
    ++ (else_when (is_empty (trim_space p.pattern)) (pattern_required p.name)
          (not (checks.compiles p.pattern)) (invalid_pattern p.name)
        ++ when (is_long p.partial_mask) (long_filler p.name))

unfoldable pub pattern_errors : Checks → List String → List PatternConfig → List ConfigError
pattern_errors checks seen [] = []
pattern_errors checks seen (p ∷ ps) =
    pattern_error checks seen p
    ++ pattern_errors checks (if p.name == "" then seen else add_seen p.name seen) ps

unfoldable pub defined_patterns : List String → List PatternConfig → List String
defined_patterns seen [] = seen
defined_patterns seen (p ∷ ps) =
    defined_patterns (if p.name == "" then seen else add_seen p.name seen) ps

unfoldable pub reference_errors : List String → String → List String → List ConfigError
reference_errors defined class [] = []
reference_errors defined class (name ∷ names) =
    when (not (contains defined name)) (undefined_pattern class name)
    ++ reference_errors defined class names

unfoldable pub class_error : List String → List String → ClassConfig → List ConfigError
class_error defined seen c =
    else_when (c.name == "") class_name_required (contains seen c.name) (duplicate_class c.name)
    ++ reference_errors defined c.name c.pattern_names

unfoldable pub class_errors : List String → List String → List ClassConfig → List ConfigError
class_errors defined seen [] = []
class_errors defined seen (c ∷ cs) =
    class_error defined seen c
    ++ class_errors defined (if c.name == "" then seen else add_seen c.name seen) cs

unfoldable pub defined_classes : List String → List ClassConfig → List String
defined_classes seen [] = seen
defined_classes seen (c ∷ cs) =
    defined_classes (if c.name == "" then seen else add_seen c.name seen) cs

unfoldable pub assignment_errors : List String → Dict String → List ConfigError
assignment_errors defined [] = []
assignment_errors defined ((tool, class) ∷ rest) =
    else_when (tool == "") empty_tool_pattern (not (contains defined class))
      (undefined_class tool class)
    ++ assignment_errors defined rest

unfoldable pub check_masking : Checks → MaskingConfig → List ConfigError
check_masking checks pii =
    if is_empty pii.patterns
      && is_empty pii.sensitivity_classes
      && is_empty pii.tool_class_assignments
    then []
    else pattern_errors checks [] pii.patterns
      ++ (class_errors (defined_patterns [] pii.patterns) [] pii.sensitivity_classes
          ++ assignment_errors (defined_classes [] pii.sensitivity_classes)
              pii.tool_class_assignments)

-- The names of the levels are put in the set, the empty one too.
unfoldable pub level_errors : List String → List String → List ConfigError
level_errors seen [] = []
level_errors seen (l ∷ ls) =
    else_when (l == "") empty_level (contains seen l) (duplicate_level l)
    ++ level_errors (add_seen l seen) ls

unfoldable pub level_set : List String → List String → List String
level_set seen [] = seen
level_set seen (l ∷ ls) = level_set (add_seen l seen) ls

unfoldable pub tool_errors : List String → Dict String → List ConfigError
tool_errors levels [] = []
tool_errors levels ((tool, level) ∷ rest) =
    when (not (contains levels level)) (undefined_level tool level) ++ tool_errors levels rest

unfoldable pub role_level_errors : List String → List RoleConfig → List ConfigError
role_level_errors levels [] = []
role_level_errors levels (r ∷ rs) =
    when (not (r.classification_level == "") && not (contains levels r.classification_level))
      (undefined_role_level r.name r.classification_level)
    ++ role_level_errors levels rs

unfoldable pub check_classification_config :
    ClassificationConfig → List RoleConfig → List ConfigError
check_classification_config cls roles =
    if is_empty cls.levels
    then []
    else level_errors [] cls.levels
      ++ (tool_errors (level_set [] cls.levels) cls.tool_assignments
          ++ role_level_errors (level_set [] cls.levels) roles)

unfoldable pub validate : Checks → Config → List ConfigError
validate checks cfg =
    check_source cfg.server
    ++ (check_roles checks cfg.roles cfg.user_roles
        ++ (check_auth cfg.auth
            ++ (check_restrictions checks cfg.user_restrictions
                ++ (check_audit cfg.audit
                    ++ (check_logging cfg.logging
                        ++ (check_versions cfg.server cfg.outbound
                            ++ (cipher_errors checks cfg.server.tls.cipher_suites
                                ++ (check_masking checks cfg.pii_masking
                                    ++ check_classification_config cfg.classification
                                        cfg.roles))))))))
