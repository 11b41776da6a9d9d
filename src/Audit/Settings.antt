-- ===== src/Audit/Settings.antt =====
-- internal/audit/sinks/ocsf.go and json_http.go, `NewOCFSSink` and `NewJSONHTTPSink`: the settings of a
-- new sink. Times are seconds, and are assumed not to overflow as nanoseconds.
use mcp_zero_trust_proxy.Base.{
  String, Option, none, some, ◌==◌, if◌then◌else◌, Dict, ℤ, pos, ltb_ℤ, Result, ok, err,
}
use mcp_zero_trust_proxy.Config.{OcsfSinkConfig, JsonHttpSinkConfig, BasicAuthConfig}

-- A number that is at least one, else the default.
unfoldable pub at_least_one : ℤ → ℤ → ℤ
at_least_one n default = if ltb_ℤ n (pos 1) then default else n

pub record OcsfSettings : Type 0 where
  pub workspace_id : String
  pub api_key : String
  pub batch_size : ℤ
  pub flush_interval : ℤ
  pub timeout : ℤ
  pub buffer_size : ℤ

pub data OcsfError : Type 0 where
  no_ocsf_config no_workspace no_api_key : OcsfError

unfoldable pub new_ocsf_sink : Option OcsfSinkConfig → Result OcsfError OcsfSettings
new_ocsf_sink none = err no_ocsf_config
new_ocsf_sink (some cfg) =
    if cfg.workspace_id == ""
    then err no_workspace
    else if cfg.api_key == ""
    then err no_api_key
    else ok (record {
      workspace_id = cfg.workspace_id;
      api_key = cfg.api_key;
      batch_size = at_least_one cfg.batch_size (pos 100);
      flush_interval = at_least_one cfg.flush_interval (pos 5);
      timeout = at_least_one cfg.timeout (pos 30);
      buffer_size = at_least_one cfg.buffer_size (pos 1000);
    })

pub record JsonHttpSettings : Type 0 where
  pub endpoint : String
  pub headers : Dict String
  pub batch_size : ℤ
  pub flush_interval : ℤ
  pub timeout : ℤ
  pub buffer_size : ℤ
  pub basic_auth_user : String
  pub basic_auth_pass : String
  pub bearer_token : String

pub data JsonHttpError : Type 0 where
  no_json_http_config no_endpoint : JsonHttpError

abbrev user_of : Option BasicAuthConfig → String
user_of none = ""
user_of (some auth) = auth.username

abbrev pass_of : Option BasicAuthConfig → String
pass_of none = ""
pass_of (some auth) = auth.password

unfoldable pub new_json_http_sink :
    Option JsonHttpSinkConfig → Result JsonHttpError JsonHttpSettings
new_json_http_sink none = err no_json_http_config
new_json_http_sink (some cfg) =
    if cfg.endpoint == ""
    then err no_endpoint
    else ok (record {
      endpoint = cfg.endpoint;
      headers = cfg.headers;
      batch_size = at_least_one cfg.batch_size (pos 50);
      flush_interval = at_least_one cfg.flush_interval (pos 10);
      timeout = at_least_one cfg.timeout (pos 15);
      buffer_size = at_least_one cfg.buffer_size (pos 1000);
      basic_auth_user = user_of cfg.basic_auth;
      basic_auth_pass = pass_of cfg.basic_auth;
      bearer_token = cfg.bearer_token;
    })
