-- ===== src/Config.antt =====
-- internal/config/types.go: the configuration as it is read from YAML, a key that is absent being the
-- empty value of its type. Comments and descriptions, which no code reads, are left out.
pub mod Defaults
pub mod Merge
pub mod Names
pub mod Given
pub mod Known
pub mod Compiled
pub mod Masks
pub mod Loaded
pub mod Tests
pub mod Validate
use mcp_zero_trust_proxy.Base.{String, Bool, Option, List, Dict, ℤ}
use mcp_zero_trust_proxy.Rbac.{RoleConfig, ClassificationConfig}
use mcp_zero_trust_proxy.Auth.Login.{ClaimRule}
use mcp_zero_trust_proxy.Pii.{MaskingConfig}

pub record LicenseConfig : Type 0 where
  pub key : String

pub record UserRolesConfig : Type 0 where
  pub mapping : Dict String
  pub default : String
  pub claim_mapping : List ClaimRule

pub record UserRestrictionsConfig : Type 0 where
  pub allow_regex : String
  pub deny_regex : String

pub record CorsConfig : Type 0 where
  pub allowed_origins : List String
  pub allowed_methods : List String
  pub allowed_headers : List String
  pub max_age : ℤ

pub record OutboundConfig : Type 0 where
  pub min_tls_version : String

pub record UpstreamServerConfig : Type 0 where
  pub name : String
  pub url : String
  pub enabled : Bool
  pub tags : List String
  pub timeout : ℤ

pub record ServerRegistryConfig : Type 0 where
  pub default : String
  pub servers : List UpstreamServerConfig

pub record TlsConfig : Type 0 where
  pub cert_file : String
  pub key_file : String
  pub min_version : String
  pub cipher_suites : List String
  pub required : Bool

pub record SseConfig : Type 0 where
  pub timeout_seconds : ℤ
  pub max_buffer_bytes : ℤ

pub record ServerConfig : Type 0 where
  pub upstream_url : String
  pub listen_addr : String
  pub max_body_size : ℤ
  pub min_http_version : String
  pub tls : TlsConfig
  pub sse : SseConfig
  pub registry : ServerRegistryConfig

pub record SessionStoreConfig : Type 0 where
  pub ttl : String
  pub backend : String
  pub filepath : String

pub record AuthConfig : Type 0 where
  pub provider : String
  pub client_id : String
  pub client_secret : String
  pub issuer_url : String
  pub redirect_url : String
  pub max_token_cache_size : ℤ
  pub session : SessionStoreConfig

pub record RateLimitConfig : Type 0 where
  pub requests_per_minute : ℤ
  pub burst_size : ℤ

pub record AuditRotationConfig : Type 0 where
  pub max_size_mb : ℤ
  pub max_age_hours : ℤ
  pub max_backups : ℤ

pub record OcsfSinkConfig : Type 0 where
  pub workspace_id : String
  pub api_key : String
  pub batch_size : ℤ
  pub flush_interval : ℤ
  pub timeout : ℤ
  pub buffer_size : ℤ

pub record CefSinkConfig : Type 0 where
  pub transport : String
  pub host : String
  pub port : ℤ
  pub facility : String
  pub batch_size : ℤ
  pub flush_interval : ℤ
  pub timeout : ℤ
  pub buffer_size : ℤ

pub record BasicAuthConfig : Type 0 where
  pub username : String
  pub password : String

pub record JsonHttpSinkConfig : Type 0 where
  pub endpoint : String
  pub headers : Dict String
  pub batch_size : ℤ
  pub flush_interval : ℤ
  pub timeout : ℤ
  pub basic_auth : Option BasicAuthConfig
  pub bearer_token : String
  pub buffer_size : ℤ

pub record SinkFilterConfig : Type 0 where
  pub methods : List String
  pub tools : List String
  pub results : List String
  pub client_ids : List String

-- `kind` is the key `type`.
pub record AuditSinkConfig : Type 0 where
  pub kind : String
  pub enabled : Bool
  pub name : String
  pub ocsf : Option OcsfSinkConfig
  pub cef : Option CefSinkConfig
  pub json_http : Option JsonHttpSinkConfig
  pub filter : Option SinkFilterConfig

pub record AuditConfig : Type 0 where
  pub enabled : Bool
  pub output : String
  pub file_path : String
  pub rotation : AuditRotationConfig
  pub sinks : List AuditSinkConfig

pub record LogConfig : Type 0 where
  pub level : String
  pub format : String

pub record CatalogConfig : Type 0 where
  pub enabled : Bool
  pub database_path : String
  pub refresh_interval : String
  pub cache_tools_list : Bool

pub record Config : Type 0 where
  pub server : ServerConfig
  pub auth : AuthConfig
  pub user_roles : UserRolesConfig
  pub user_restrictions : UserRestrictionsConfig
  pub roles : List RoleConfig
  pub classification : ClassificationConfig
  pub rate_limit : RateLimitConfig
  pub audit : AuditConfig
  pub logging : LogConfig
  pub cors : CorsConfig
  pub license : LicenseConfig
  pub pii_masking : MaskingConfig
  pub outbound : OutboundConfig
  pub catalog : CatalogConfig
