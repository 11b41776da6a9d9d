-- ===== src/Config/Tests.antt =====
-- A small configuration, and instances of the configuration's theorems on it.
use mcp_zero_trust_proxy.Base.{
  ◌≡◌, refl, true, false, none, some, [], ◌∷◌, lookup, insert, contains, keep, pos,
}
use mcp_zero_trust_proxy.Http.{trim_left, trim_right, is_blank, trim_space}
use mcp_zero_trust_proxy.Rbac.{RoleConfig}
use mcp_zero_trust_proxy.Auth.Login.{Authenticator, Outside}
use mcp_zero_trust_proxy.Pii.{Regexp}
use mcp_zero_trust_proxy.Config.{Config, AuditSinkConfig}
use mcp_zero_trust_proxy.Config.Defaults.{
  default_sink, apply_defaults, merge_roles, default_server_config, default_registry, default_audit,
  user_roles_from, override,
}
use mcp_zero_trust_proxy.Config.Validate.{Checks, when, else_when, blank, one_of, add_seen}
use mcp_zero_trust_proxy.Config.Validate.Parts.{
  validate, check_source, check_registry, server_errors, server_names, check_auth,
  check_restrictions, check_logging, check_versions, cipher_errors, check_masking, pattern_errors,
  pattern_error, class_errors, class_error, reference_errors, assignment_errors, defined_patterns,
  defined_classes, check_classification_config, level_errors, level_set, tool_errors,
  role_level_errors,
}
use mcp_zero_trust_proxy.Config.Validate.Roles.{
  check_roles, role_errors, undefined_roles, all_role_names, add_roles, add_mapped, add_claimed,
  add_role, is_defined, claim_errors,
}
use mcp_zero_trust_proxy.Config.Validate.Sinks.{check_audit, sinks_errors, sink_errors, cef_errors}

abbrev auditor : RoleConfig
auditor = record {
  name = "auditor";
  allowed_tools = [];
  deny_tools = [];
  classification_level = "Public";
}

abbrev pub siem_config : AuditSinkConfig
siem_config = record {
  kind = "cef";
  enabled = false;
  name = "";
  ocsf = none;
  cef = some (record {
    transport = "";
    host = "siem";
    port = pos 0;
    facility = "";
    batch_size = pos 0;
    flush_interval = pos 0;
    timeout = pos 0;
    buffer_size = pos 0;
  });
  json_http = none;
  filter = none;
}

abbrev pub sample_config : Config
sample_config = record {
  server = record {
    upstream_url = "http://upstream";
    listen_addr = "";
    max_body_size = pos 0;
    min_http_version = "";
    tls = record {
      cert_file = "";
      key_file = "";
      min_version = "";
      cipher_suites = [];
      required = false;
    };
    sse = record { timeout_seconds = pos 0; max_buffer_bytes = pos 0 };
    registry = record { default = ""; servers = [] };
  };
  auth = record {
    provider = "github";
    client_id = "";
    client_secret = "";
    issuer_url = "";
    redirect_url = "";
    max_token_cache_size = pos 0;
    session = record { ttl = ""; backend = ""; filepath = "" };
  };
  user_roles = record {
    mapping = ("alice@example.com", "auditor") ∷ [];
    default = "";
    claim_mapping = [];
  };
  user_restrictions = record { allow_regex = ""; deny_regex = "" };
  roles = auditor ∷ [];
  classification = record { levels = []; tool_assignments = ("read_file", "Sensitive") ∷ [] };
  rate_limit = record { requests_per_minute = pos 0; burst_size = pos 0 };
  audit = record {
    enabled = false;
    output = "";
    file_path = "";
    rotation = record { max_size_mb = pos 0; max_age_hours = pos 0; max_backups = pos 0 };
    sinks = siem_config ∷ [];
  };
  logging = record { level = ""; format = "" };
  cors = record {
    allowed_origins = [];
    allowed_methods = [];
    allowed_headers = [];
    max_age = pos 0;
  };
  license = record { key = "" };
  pii_masking = record {
    enabled = true;
    patterns = record { name = "p"; pattern = b'x' ∷ []; mask = []; partial_mask = none } ∷ [];
    sensitivity_classes = record { name = "c"; pattern_names = "p" ∷ [] } ∷ [];
    tool_class_assignments = ("read_file", "c") ∷ [];
  };
  outbound = record { min_tls_version = "" };
  catalog = record {
    enabled = false;
    database_path = "";
    refresh_interval = "";
    cache_tools_list = false;
  };
}

abbrev pub sample_checks : Checks
sample_checks = record { compiles = λ b. true; cipher_suites = [] }

pub sample_valid : validate sample_checks (apply_defaults sample_config) ≡ []
unfolding validate apply_defaults check_source check_registry server_errors server_names check_roles
    role_errors undefined_roles all_role_names add_roles add_mapped add_claimed add_role is_defined
    claim_errors check_auth check_restrictions check_audit sinks_errors check_logging check_versions
    cipher_errors check_masking pattern_errors pattern_error class_errors class_error
    reference_errors assignment_errors defined_patterns defined_classes check_classification_config
    level_errors level_set tool_errors role_level_errors when else_when blank one_of add_seen
    trim_space trim_left trim_right is_blank contains keep lookup insert merge_roles override
    user_roles_from default_server_config default_registry default_audit sink_errors default_sink
    cef_errors
sample_valid = refl

abbrev no_provider : Outside
no_provider = record {
  user_info = λ token. none;
  format_float = λ n. n;
  contains = λ s t. false;
  has_suffix = λ s t. false;
  match_string = λ p s. false;
  compiles = λ p. true;
}

abbrev fresh : Authenticator
fresh = record {
  user_roles = none;
  default_role = "";
  claim_rules = [];
  allow_regex = none;
  deny_regex = none;
  tokens = record { max_size = 1; nodes = [] };
  sessions = record { sessions = []; ttl = 1 };
}

abbrev any_regexp : Regexp
any_regexp = record {
  compiles = λ r. true;
  matches = λ r text. true;
  find_all = λ r text. [];
  quote_meta = λ text. text;
}
