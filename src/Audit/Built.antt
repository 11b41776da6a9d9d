-- ===== src/Audit/Built.antt =====
-- From a configuration without errors to the sinks of the audit engine.
use mcp_zero_trust_proxy.Base.{
  ℕ, ◌+◌, ◌≡◌, refl, ◌∙◌, ap, Bool, true, false, ◌||◌, ◌&&◌, not, Option, none, some, List, [], ◌∷◌,
  ◌++◌, ◌==◌, if◌then◌else◌, contains, In, is_ok, Bool-cases, inl, inr, ltb_ℤ, pos, starts_with,
}
use mcp_zero_trust_proxy.Http.{bytes_of}
use mcp_zero_trust_proxy.Config.{
  Config, AuditSinkConfig, OcsfSinkConfig, CefSinkConfig, JsonHttpSinkConfig,
}
use mcp_zero_trust_proxy.Config.Defaults.{or_text}
use mcp_zero_trust_proxy.Config.Validate.{
  Checks, when, one_of, blank, workspace_required, api_key_required, batch_size_too_small,
  host_required, unknown_transport, bad_port, endpoint_required, endpoint_not_https, unknown_output,
  file_path_required,
}
use mcp_zero_trust_proxy.Config.Validate.Sinks.{
  ocsf_errors, cef_errors, json_http_errors, sink_errors, sinks_errors, check_audit,
  valid_transports,
}
use mcp_zero_trust_proxy.Config.Validate.Parts.{validate}
use mcp_zero_trust_proxy.Config.Names.{append-nil_inv, ok_first, blank-ne, validate-IsOk}
use mcp_zero_trust_proxy.Audit.Settings.{new_ocsf_sink, new_json_http_sink}
use mcp_zero_trust_proxy.Audit.Cef.Settings.{new_cef_sink, facility_names}

-- `createExternalSink` gives a sink, if connections are opened.
unfoldable pub sink_built : AuditSinkConfig → Bool
sink_built sink =
    if sink.kind == "ocsf"
    then is_ok (new_ocsf_sink sink.ocsf)
    else if sink.kind == "cef"
    then is_ok (new_cef_sink sink.cef)
    else if sink.kind == "json_http"
    then is_ok (new_json_http_sink sink.json_http)
    else false

-- The facility of a CEF section, which `Validate` does not look at.
abbrev pub known_facility : Option CefSinkConfig → Bool
known_facility none = true
known_facility (some c) = contains facility_names (or_text c.facility "local0")

ocsf_built :
    (i : ℕ) (o : Option OcsfSinkConfig) → ocsf_errors i o ≡ [] → is_ok (new_ocsf_sink o) ≡ true
unfolding ocsf_errors new_ocsf_sink
ocsf_built i none valid = cc
ocsf_built i (some c) valid =
    let small = when (ltb_ℤ c.batch_size (pos 1)) (batch_size_too_small i) in
    let (workspace, valid1) =
      ok_first (blank c.workspace_id) (workspace_required i)
        (when (blank c.api_key) (api_key_required i) ++ small) valid in
    let (key, _) = ok_first (blank c.api_key) (api_key_required i) small valid1 in
    rw (blank-ne c.workspace_id workspace, blank-ne c.api_key key) refl

cef_built :
    (i : ℕ) (o : Option CefSinkConfig)
    → cef_errors i o ≡ []
    → known_facility o ≡ true
    → is_ok (new_cef_sink o) ≡ true
unfolding cef_errors new_cef_sink
cef_built i none valid known = cc
cef_built i (some c) valid known =
    let (host, _) =
      ok_first (blank c.host) (host_required i)
        (when (not (one_of valid_transports c.transport)) (unknown_transport i c.transport)
          ++ when (ltb_ℤ c.port (pos 1) || ltb_ℤ (pos 65535) c.port) (bad_port i))
        valid in
    rw (blank-ne c.host host, known) refl

json_http_built :
    (i : ℕ) (o : Option JsonHttpSinkConfig)
    → json_http_errors i o ≡ []
    → is_ok (new_json_http_sink o) ≡ true
unfolding json_http_errors new_json_http_sink
json_http_built i none valid = cc
json_http_built i (some c) valid =
    let (endpoint, _) =
      ok_first (blank c.endpoint) (endpoint_required i)
        (when (not (starts_with (bytes_of "https://") (bytes_of c.endpoint)))
          (endpoint_not_https i))
        valid in
    rw (blank-ne c.endpoint endpoint) refl

built_of :
    (i : ℕ) (sink : AuditSinkConfig)
    → sink_errors i sink ≡ []
    → known_facility sink.cef ≡ true
    → sink_built sink ≡ true
unfolding sink_errors sink_built
built_of i sink valid known = elim (Bool-cases (sink.kind == "")) [
  | inl untyped ↦ cc (rw untyped at valid)
  | inr typed ↦ elim (Bool-cases (sink.kind == "ocsf")) [
    | inl k ↦
        let (errors, _) = append-nil_inv (ocsf_errors i sink.ocsf) (rw (typed, k) at valid) in
        rw k (ocsf_built i sink.ocsf errors)
    | inr k ↦ elim (Bool-cases (sink.kind == "cef")) [
      | inl l ↦
          let (errors, _) = append-nil_inv (cef_errors i sink.cef) (rw (typed, k, l) at valid) in
          rw (k, l) (cef_built i sink.cef errors known)
      | inr l ↦ elim (Bool-cases (sink.kind == "json_http")) [
        | inl m ↦
            let (errors, _) =
              append-nil_inv (json_http_errors i sink.json_http) (rw (typed, k, l, m) at valid) in
            rw (k, l, m) (json_http_built i sink.json_http errors)
        | inr m ↦ cc (rw (typed, k, l, m) at valid)
      ]
    ]
  ]
]

-- Each sink of a list without errors has none.
errors_of :
    (i : ℕ) (sinks : List AuditSinkConfig) (sink : AuditSinkConfig)
    → sinks_errors i sinks ≡ []
    → In sink sinks
    → (j : ℕ) × (sink_errors j sink ≡ [])
unfolding sinks_errors
errors_of i [] sink valid member = absurd member
errors_of i (s ∷ sinks) sink valid member =
    let (here, others) = append-nil_inv (sink_errors i s) valid in
    elim member [
      | inl q ↦ (i, ap (sink_errors i) q ∙ here)
      | inr m ↦ errors_of (i + 1) sinks sink others m
    ]

-- Under a configuration without an error each audit sink can be built, its connections aside, but a
-- CEF sink of an unknown facility.
pub valid_sink_built :
    (checks : Checks) (cfg : Config) (sink : AuditSinkConfig)
    → validate checks cfg ≡ []
    → In sink cfg.audit.sinks
    → known_facility sink.cef ≡ true
    → sink_built sink ≡ true
unfolding check_audit
valid_sink_built checks cfg sink valid member known =
    let output = cfg.audit.output in
    let (_, valid1) =
      ok_first (not (one_of ("stdout" ∷ "file" ∷ "both" ∷ []) output)) (unknown_output output)
        (when ((output == "file" || output == "both") && blank cfg.audit.file_path)
            file_path_required
          ++ sinks_errors 1 cfg.audit.sinks)
        (validate-IsOk checks cfg valid).audit in
    let (_, valid2) =
      ok_first ((output == "file" || output == "both") && blank cfg.audit.file_path)
        file_path_required (sinks_errors 1 cfg.audit.sinks) valid1 in
    let (i, clean) = errors_of 1 cfg.audit.sinks sink valid2 member in built_of i sink clean known
