-- ===== src/Config/Defaults.antt =====
-- internal/config/config.go, `applyDefaults`, `mergeRoles` and `defaultRoles`.
use mcp_zero_trust_proxy.Base.{
  String, Bool, true, ◌&&◌, ◌||◌, not, Option, none, some, List, [], ◌∷◌, ◌++◌, ◌==◌, map,
  if◌then◌else◌, is_empty, contains, keep, Dict, lookup, insert, ℤ, pos, is_zero,
}
use mcp_zero_trust_proxy.Rbac.{RoleConfig}
use mcp_zero_trust_proxy.Config.{
  Config, ServerConfig, UpstreamServerConfig, ServerRegistryConfig, AuditConfig, AuditSinkConfig,
  OcsfSinkConfig, CefSinkConfig, JsonHttpSinkConfig,
}

abbrev pub or_text : String → String → String
or_text s default = if s == "" then default else s

abbrev pub or_number : ℤ → ℤ → ℤ
or_number n default = if is_zero n then default else n

-- The port of a transport; an unknown one leaves it 0.
abbrev pub default_port : String → ℤ
default_port transport =
    if transport == "tcp_tls"
    then pos 6514
    else if transport == "udp" || transport == "tcp"
    then pos 514
    else if transport == "https"
    then pos 443
    else pos 0

-- A single upstream becomes the registry's server `default`.
unfoldable pub default_registry : ServerConfig → ServerRegistryConfig
default_registry server =
    if not (server.upstream_url == "") && is_empty server.registry.servers
    then record {
      default = "default";
      servers =
          record {
            name = "default";
            url = server.upstream_url;
            enabled = true;
            tags = [];
            timeout = pos 0;
          }
          ∷ [];
    }
    else server.registry

-- A server is enabled, whatever it says.
abbrev pub default_server : UpstreamServerConfig → UpstreamServerConfig
default_server srv = record srv { enabled = true; timeout = or_number srv.timeout (pos 120) }

abbrev pub default_ocsf : OcsfSinkConfig → OcsfSinkConfig
default_ocsf c = record c {
  batch_size = or_number c.batch_size (pos 100);
  flush_interval = or_number c.flush_interval (pos 5);
  timeout = or_number c.timeout (pos 30);
  buffer_size = or_number c.buffer_size (pos 1000);
}

abbrev pub default_cef : CefSinkConfig → CefSinkConfig
default_cef c =
    let transport = or_text c.transport "udp" in
    record c {
      transport = transport;
      port = or_number c.port (default_port transport);
      facility = or_text c.facility "local0";
      batch_size = if is_zero c.batch_size && transport == "https" then pos 10 else c.batch_size;
      flush_interval =
          if is_zero c.flush_interval && transport == "https" then pos 1 else c.flush_interval;
      timeout = or_number c.timeout (pos 5);
      buffer_size = or_number c.buffer_size (pos 1000);
    }

abbrev pub default_json_http : JsonHttpSinkConfig → JsonHttpSinkConfig
default_json_http c = record c {
  batch_size = or_number c.batch_size (pos 50);
  flush_interval = or_number c.flush_interval (pos 10);
  timeout = or_number c.timeout (pos 15);
  buffer_size = or_number c.buffer_size (pos 1000);
}

abbrev pub map_some : {A : Type 0} → (A → A) → Option A → Option A
map_some f none = none
map_some f (some x) = some (f x)

-- A sink with a type is enabled, whatever it says.
unfoldable pub default_sink : AuditSinkConfig → AuditSinkConfig
default_sink sink = record sink {
  name = or_text sink.name sink.kind;
  enabled = sink.enabled || not (sink.kind == "");
  ocsf = if sink.kind == "ocsf" then map_some default_ocsf sink.ocsf else sink.ocsf;
  cef = if sink.kind == "cef" then map_some default_cef sink.cef else sink.cef;
  json_http =
      if sink.kind == "json_http"
      then map_some default_json_http sink.json_http
      else sink.json_http;
}

unfoldable pub default_audit : AuditConfig → AuditConfig
default_audit audit = record audit {
  enabled = audit.enabled || audit.output == "";
  output = or_text audit.output "stdout";
  sinks = map default_sink audit.sinks;
}

abbrev pub built_in_role_names : List String
built_in_role_names = "admin" ∷ "readonly" ∷ "restricted" ∷ []

abbrev pub built_in_role : String → List String → RoleConfig
built_in_role name tools = record {
  name = name;
  allowed_tools = tools;
  deny_tools = [];
  classification_level = "";
}

abbrev pub default_roles : List RoleConfig
default_roles =
    built_in_role "admin" []
    ∷ built_in_role "readonly"
        ("tools/list" ∷ "resources/list" ∷ "resources/read" ∷ "prompts/list" ∷ "prompts/get" ∷ [])
    ∷ built_in_role "restricted" ("tools/list" ∷ [])
    ∷ []

-- The map from a name to the last role of that name.
unfoldable pub user_roles_from : List RoleConfig → Dict RoleConfig → Dict RoleConfig
user_roles_from [] d = d
user_roles_from (r ∷ rs) d = user_roles_from rs (insert r.name r d)

abbrev pub or_role : Option RoleConfig → RoleConfig → RoleConfig
or_role none r = r
or_role (some user) r = user

-- A built-in role, unless the configuration has one of its name.
unfoldable pub override : Dict RoleConfig → List RoleConfig → List RoleConfig
override users [] = []
override users (r ∷ rs) = or_role (lookup r.name users) r ∷ override users rs

abbrev pub is_custom : RoleConfig → Bool
is_custom r = not (contains built_in_role_names r.name)

unfoldable pub merge_roles : List RoleConfig → List RoleConfig
merge_roles roles = override (user_roles_from roles []) default_roles ++ keep is_custom roles

unfoldable pub default_server_config : ServerConfig → ServerConfig
default_server_config server =
    let registry = default_registry server in
    record server {
      listen_addr = or_text server.listen_addr ":8080";
      max_body_size = or_number server.max_body_size (pos 1048576);
      min_http_version = or_text server.min_http_version "1.1";
      tls = record server.tls { min_version = or_text server.tls.min_version "1.2" };
      registry = record registry { servers = map default_server registry.servers };
    }

abbrev pub default_levels : List String → List String
default_levels levels =
    if is_empty levels then "Public" ∷ "Sensitive" ∷ "Confidential" ∷ [] else levels

unfoldable pub apply_defaults : Config → Config
apply_defaults cfg = record cfg {
  server = default_server_config cfg.server;
  user_roles = record cfg.user_roles { default = or_text cfg.user_roles.default "readonly" };
  rate_limit = record {
    requests_per_minute = or_number cfg.rate_limit.requests_per_minute (pos 100);
    burst_size = or_number cfg.rate_limit.burst_size (pos 10);
  };
  audit = default_audit cfg.audit;
  logging = record {
    level = or_text cfg.logging.level "info";
    format = or_text cfg.logging.format "json";
  };
  classification = record cfg.classification { levels = default_levels cfg.classification.levels };
  catalog = record cfg.catalog {
    database_path = or_text cfg.catalog.database_path "./tools_catalog.db";
  };
  outbound = record { min_tls_version = or_text cfg.outbound.min_tls_version "1.2" };
  roles = merge_roles cfg.roles;
}
