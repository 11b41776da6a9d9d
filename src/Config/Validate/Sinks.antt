-- ===== src/Config/Validate/Sinks.antt =====
-- internal/config/config.go, `Validate` on the audit output and its sinks.
use mcp_zero_trust_proxy.Base.{
  ℕ, ◌+◌, String, ◌&&◌, ◌||◌, not, Option, none, some, List, [], ◌∷◌, ◌++◌, ◌==◌, if◌then◌else◌,
  contains, ltb_ℤ, pos, starts_with,
}
use mcp_zero_trust_proxy.Http.{bytes_of}
use mcp_zero_trust_proxy.Config.{
  AuditConfig, AuditSinkConfig, OcsfSinkConfig, CefSinkConfig, JsonHttpSinkConfig, SinkFilterConfig,
}
use mcp_zero_trust_proxy.Config.Validate.{
  ConfigError, unknown_output, file_path_required, sink_type_required, unknown_sink, ocsf_required,
  workspace_required, api_key_required, batch_size_too_small, cef_required, host_required,
  unknown_transport, bad_port, json_http_required, endpoint_required, endpoint_not_https,
  unknown_result, when, blank, one_of,
}

unfoldable pub ocsf_errors : ℕ → Option OcsfSinkConfig → List ConfigError
ocsf_errors i none = ocsf_required i ∷ []
ocsf_errors i (some c) =
    when (blank c.workspace_id) (workspace_required i)
    ++ (when (blank c.api_key) (api_key_required i)
        ++ when (ltb_ℤ c.batch_size (pos 1)) (batch_size_too_small i))

abbrev pub valid_transports : List String
valid_transports = "udp" ∷ "tcp" ∷ "tcp_tls" ∷ "https" ∷ []

unfoldable pub cef_errors : ℕ → Option CefSinkConfig → List ConfigError
cef_errors i none = cef_required i ∷ []
cef_errors i (some c) =
    when (blank c.host) (host_required i)
    ++ (when (not (one_of valid_transports c.transport)) (unknown_transport i c.transport)
        ++ when (ltb_ℤ c.port (pos 1) || ltb_ℤ (pos 65535) c.port) (bad_port i))

unfoldable pub json_http_errors : ℕ → Option JsonHttpSinkConfig → List ConfigError
json_http_errors i none = json_http_required i ∷ []
json_http_errors i (some c) =
    when (blank c.endpoint) (endpoint_required i)
    ++ when (not (starts_with (bytes_of "https://") (bytes_of c.endpoint))) (endpoint_not_https i)

unfoldable pub result_errors : ℕ → List String → List ConfigError
result_errors i [] = []
result_errors i (r ∷ rs) =
    when (not (contains ("allowed" ∷ "denied" ∷ []) r)) (unknown_result i r) ++ result_errors i rs

abbrev pub filter_errors : ℕ → Option SinkFilterConfig → List ConfigError
filter_errors i none = []
filter_errors i (some filter) = result_errors i filter.results

-- A sink without a type, or of an unknown one, is not looked at further.
unfoldable pub sink_errors : ℕ → AuditSinkConfig → List ConfigError
sink_errors i sink =
    if sink.kind == ""
    then sink_type_required i ∷ []
    else if sink.kind == "ocsf"
    then ocsf_errors i sink.ocsf ++ filter_errors i sink.filter
    else if sink.kind == "cef"
    then cef_errors i sink.cef ++ filter_errors i sink.filter
    else if sink.kind == "json_http"
    then json_http_errors i sink.json_http ++ filter_errors i sink.filter
    else unknown_sink i sink.kind ∷ []

unfoldable pub sinks_errors : ℕ → List AuditSinkConfig → List ConfigError
sinks_errors i [] = []
sinks_errors i (sink ∷ sinks) = sink_errors i sink ++ sinks_errors (i + 1) sinks

unfoldable pub check_audit : AuditConfig → List ConfigError
check_audit audit =
    when (not (one_of ("stdout" ∷ "file" ∷ "both" ∷ []) audit.output)) (unknown_output audit.output)
    ++ (when ((audit.output == "file" || audit.output == "both") && blank audit.file_path)
          file_path_required
        ++ sinks_errors 1 audit.sinks)
