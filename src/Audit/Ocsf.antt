-- ===== src/Audit/Ocsf.antt =====
-- internal/audit/sinks/ocsf.go, `toOCSF`, `sendBatch` and `sendToAzure`, and json_http.go,
-- `sendToEndpoint`: the events of a batch, and the request that carries them. The timestamp and the
-- latency of an entry are left out. The host's name, `json.Marshal`, `net/http` and base64 are arguments.
pub mod Panics
mod Tests
use mcp_zero_trust_proxy.Base.{
  ℕ, String, Bool, true, false, ◌&&◌, not, Option, none, some, List, [], ◌∷◌, ◌++◌, ◌==◌,
  if◌then◌else◌, ltb, length, take, Dict, insert, Result, ok, err,
}
use mcp_zero_trust_proxy.Protocol.{Bytes}
use mcp_zero_trust_proxy.Http.{bytes_of}
use mcp_zero_trust_proxy.Pipeline.{AuditEntry, Reason}
use mcp_zero_trust_proxy.Audit.Settings.{OcsfSettings, JsonHttpSettings}

-- The maps of an event; a key that is not set is `none`.
pub record OcsfEvent : Type 0 where
  pub schema_version : String
  pub event_category : String
  pub event_subtype : String
  pub result : String
  pub device_id : Bytes
  pub hostname : Option String
  pub user_id : Option String
  pub session_id : Option String
  pub target_name : Option String
  pub application : Option String
  pub target_category : String
  pub request_id : Option String
  pub denial_reason : Option Reason

abbrev if_given : String → Option String
if_given s = if s == "" then none else some s

-- `s[:8]`, which panics on a shorter text.
unfoldable pub first_eight : Bytes → Option Bytes
first_eight s = if ltb (length s) 8 then none else some (take 8 s)

abbrev pub ocsf_event : Option String → Bytes → AuditEntry → OcsfEvent
ocsf_event hostname start entry = record {
  schema_version = "12.0.0";
  event_category = "access";
  event_subtype = if entry.allowed then "access_success" else "access_denied";
  result = if entry.allowed then "success" else "denied";
  device_id = bytes_of "mcp-proxy-" ++ start;
  hostname = hostname;
  user_id = if_given entry.client_id;
  session_id = if_given entry.session_id;
  target_name = if_given entry.method;
  application = if_given entry.tool_name;
  target_category = "application";
  request_id = if_given entry.request_id;
  denial_reason = if entry.allowed then none else entry.denied_reason;
}

-- `none` is a panic.
unfoldable pub to_ocsf : Option String → OcsfSettings → AuditEntry → Option OcsfEvent
to_ocsf hostname s entry = elim (first_eight (bytes_of s.workspace_id)) [
  | none ↦ none
  | some start ↦ some (ocsf_event hostname start entry)
]

abbrev both_events : Option OcsfEvent → Option (List OcsfEvent) → Option (List OcsfEvent)
both_events none events = none
both_events (some event) none = none
both_events (some event) (some events) = some (event ∷ events)

-- The loop of `sendBatch`.
unfoldable pub to_events : Option String → OcsfSettings → List AuditEntry → Option (List OcsfEvent)
to_events hostname s [] = some []
to_events hostname s (entry ∷ batch) =
    both_events (to_ocsf hostname s entry) (to_events hostname s batch)

pub record Request : Type 0 where
  pub url : Bytes
  pub headers : Dict String
  pub body : Bytes

pub data SendError : Type 0 where
  not_marshalled not_created not_sent unexpected_status : SendError

-- `canonical` is the form of a header's name that `Header.Set` stores, `created` whether a request can
-- be made for a URL, `send` the status of the response, if one comes, `basic` the value that
-- `SetBasicAuth` stores, and `bearer` the text "Bearer " with the token.
pub record Net : Type 0 where
  pub canonical : String → String
  pub created : Bytes → Bool
  pub send : Request → Option ℕ
  pub basic : String → String → String
  pub bearer : String → String

module _ (net : Net) where
  abbrev pub set_header : String → String → Dict String → Dict String
  set_header name value headers = insert (net.canonical name) value headers

  -- The response's status, which is to be of the 200s.
  unfoldable pub status_sent : Option ℕ → Result SendError (Unit {0})
  status_sent none = err not_sent
  status_sent (some status) =
      if not (ltb status 200) && ltb status 300 then ok tt else err unexpected_status

  unfoldable pub dispatch : Request → Result SendError (Unit {0})
  dispatch req = if net.created req.url then status_sent (net.send req) else err not_created

  unfoldable pub azure_request : OcsfSettings → Bytes → Request
  azure_request s body = record {
    url =
        bytes_of "https://"
        ++ (bytes_of s.workspace_id ++ bytes_of ".ods.opinsights.azure.com/api/logs");
    headers = set_header "X-API-Key" s.api_key (set_header "Content-Type" "application/json" []);
    body = body;
  }

  -- `marshal` is `json.Marshal`.
  unfoldable pub send_to_azure :
      (List OcsfEvent → Option Bytes) → OcsfSettings → List OcsfEvent → Result SendError (Unit {0})
  send_to_azure marshal s events = elim (marshal events) [
    | none ↦ err not_marshalled
    | some body ↦ dispatch (azure_request s body)
  ]

  -- The custom headers, in the order of the map.
  unfoldable pub set_headers : Dict String → Dict String → Dict String
  set_headers [] headers = headers
  set_headers ((name, value) ∷ more) headers = set_headers more (set_header name value headers)

  unfoldable pub authorize : JsonHttpSettings → Dict String → Dict String
  authorize s headers =
      if not (s.bearer_token == "")
      then set_header "Authorization" (net.bearer s.bearer_token) headers
      else if not (s.basic_auth_user == "")
      then set_header "Authorization" (net.basic s.basic_auth_user s.basic_auth_pass) headers
      else headers

  unfoldable pub endpoint_request : JsonHttpSettings → Bytes → Request
  endpoint_request s body = record {
    url = bytes_of s.endpoint;
    headers = authorize s (set_headers s.headers (set_header "Content-Type" "application/json" []));
    body = body;
  }

  unfoldable pub send_to_endpoint :
      (List AuditEntry → Option Bytes)
      → JsonHttpSettings
      → List AuditEntry
      → Result SendError (Unit {0})
  send_to_endpoint marshal s entries = elim (marshal entries) [
    | none ↦ err not_marshalled
    | some body ↦ dispatch (endpoint_request s body)
  ]
