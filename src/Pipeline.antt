-- ===== src/Pipeline.antt =====
-- internal/proxy/pipeline.go: the types of the security pipeline. The middleware (authenticator,
-- rate limiter, RBAC engine, PII masker, upstream) stands behind the interfaces of that file, over a
-- type `S` that holds the state of all of it; a nil part is `none`. What a request does outside the
-- middleware is a trace of the audit entries logged and the requests sent upstream.
pub mod Stages
pub mod Single
pub mod Batch
pub mod Serve
pub mod Mediation
pub mod Guarded
pub mod ReadOnly
pub mod Denials
pub mod Answers
pub mod Cors
pub mod Calls
mod Tests
use mcp_zero_trust_proxy.Base.{
  ℕ, String, Bool, Option, List, [], ◌∷◌, ◌++◌, Dict, Result, if◌then◌else◌, ℤ, some, none,
}
use mcp_zero_trust_proxy.Protocol.{Bytes, Json, McpRequest, ClientIdentity, ToolEntry}
use mcp_zero_trust_proxy.Http.{HttpRequest}
use mcp_zero_trust_proxy.Rbac.{Denial}

-- Why a request was denied, with the error of the middleware that denied it.
pub data Reason : Type 0 where
  body_too_large rate_limit_exceeded sse_role marshal_error : Reason
  auth_failed : String → Reason
  rbac_denied : Denial → Reason

-- `AuditEntry` without its times. An empty `denied_reason` is `none`.
pub record AuditEntry : Type 0 where
  pub request_id : String
  pub client_ip : Bytes
  pub client_id : String
  pub session_id : String
  pub method : String
  pub tool_name : String
  pub allowed : Bool
  pub denied_reason : Option Reason

-- A request sent upstream: the parsed request in its context, nil if the body did not parse, and
-- its body.
pub record Forward : Type 0 where
  pub request : Option McpRequest
  pub body : Bytes

pub data Event : Type 0 where
  audited : AuditEntry → Event
  forwarded : Forward → Event

-- `status_code` is 0 if the upstream never wrote one.
pub record UpstreamResponse : Type 0 where
  pub status_code : ℕ
  pub body : Bytes

-- `get_headers` is what `GetHeaders` does to the state; its texts become headers, which are left out.
pub record RateLimiter (S : Type 0) : Type 0 where
  pub allow : String → S → Bool × S
  pub get_headers : String → S → S

-- The handlers of the OAuth routes, which answer by themselves: what they do to the state.
pub record AuthHandler (S : Type 0) : Type 0 where
  pub handle_auth_start : HttpRequest → S → S
  pub handle_callback : HttpRequest → S → S
  pub handle_logout : HttpRequest → S → S

pub record RbacEngine (S : Type 0) : Type 0 where
  pub process : McpRequest → ClientIdentity → S → Result Denial S
  pub filter_tools_list : ClientIdentity → Bytes → S → Option Bytes

-- `none` is an error or a nil result; the pipeline then goes on with what it had.
pub record PiiMasker : Type 0 where
  pub mask_request : McpRequest → Option McpRequest
  pub mask_response : String → String → Bytes → Option Bytes

pub record Pipeline (S : Type 0) : Type 0 where
  pub upstream : Forward → S → UpstreamResponse × S
  pub auth : Option (HttpRequest → S → Result String ClientIdentity × S)
  pub rate_limiter : Option (RateLimiter S)
  pub rbac : Option (RbacEngine S)
  pub pii_masker : Option PiiMasker
  pub audit_logger : Bool
  pub auth_handler : Option (AuthHandler S)
  -- The catalog's tools for a server, `none` on an error.
  pub tool_catalog : Option (String → Option (List ToolEntry))
  pub cache_tools_list : Bool
  -- 0 or less, here 0, is no limit.
  pub max_body_size : ℕ

pub record Run (S : Type 0) : Type 0 where
  pub state : S
  pub trace : List Event

-- One item of a batch response: an error response, or the bytes of the upstream's response.
pub data ItemResponse : Type 0 where
  item_error : Json → ℤ → ItemResponse
  item_body : Bytes → ItemResponse

-- What the client receives. `batch_failed` is the empty answer of a batch whose answers are not all
-- JSON, and `rpc_error` has the HTTP status, the JSON-RPC code and the id.
pub data Response : Type 0 where
  no_content health not_found read_failed panicked batch_failed : Response
  auth_route : String → Response
  rpc_error : ℕ → ℤ → Json → Response
  cached_tools : Json → List ToolEntry → Response
  batch : List ItemResponse → Response
  proxied : UpstreamResponse → Response

-- A stage of the pipeline answers the request, or passes a value on.
pub data Outcome (S A : Type 0) : Type 0 where
  stop : Response → Run S → Outcome S A
  pass : A → Run S → Outcome S A

abbrev pub Stage : Type 0 → Type 0 → Type 0
Stage S A = Run S → Outcome S A

abbrev pub continue : {S A B : Type 0} → Outcome S A → (A → Stage S B) → Outcome S B
continue (stop resp s) k = stop resp s
continue (pass a s) k = k a s

infixl 5 ◌>>=◌ ◌>>◌
abbrev pub ◌>>=◌ : {S A B : Type 0} → Stage S A → (A → Stage S B) → Stage S B
◌>>=◌ m k s = continue (m s) k

abbrev pub ◌>>◌ : {S A B : Type 0} → Stage S A → Stage S B → Stage S B
m >> k = m >>= λ _. k

-- The anonymous identity stands in for none.
unfoldable pub effective_identity : Option ClientIdentity → ClientIdentity
effective_identity none = record {
  client_id = "anonymous";
  immutable_id = "";
  role = "readonly";
  session_id = "";
  email = "";
  claims = [];
}
effective_identity (some identity) = identity

abbrev pub denied : AuditEntry → Reason → AuditEntry
denied entry reason = record entry { allowed = Bool.false; denied_reason = some reason }

module _ {S : Type 0} (p : Pipeline S) where
  unfoldable pub emit : Event → Run S → Run S
  emit event s = record s { trace = s.trace ++ event ∷ [] }

  unfoldable pub log_audit : AuditEntry → Run S → Run S
  unfolding emit
  log_audit entry s = if p.audit_logger then emit (audited entry) s else s

  -- `upstream.ServeHTTP` on one request.
  unfoldable pub send : Forward → Run S → UpstreamResponse × Run S
  send forward s =
      let (resp, state) = p.upstream forward s.state in
      (resp, record { state = state; trace = s.trace ++ forwarded forward ∷ [] })

  -- Logs the denial and answers with a JSON-RPC error.
  unfoldable pub reject : {A : Type 0} → AuditEntry → Reason → ℕ → ℤ → Json → Stage S A
  unfolding log_audit
  reject entry reason status code id s =
      stop (rpc_error status code id) (log_audit (denied entry reason) s)
