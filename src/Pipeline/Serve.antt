-- ===== src/Pipeline/Serve.antt =====
-- `ServeHTTP` and `runPipeline`: the routes that bypass the pipeline, and its stages in their order.
use mcp_zero_trust_proxy.Base.{
  String, ◌&&◌, not, Option, none, some, List, ◌==◌, if◌then◌else◌, is_empty, Result, ok, err,
}
use text.Mathlib.Text.{starts_with}
use mcp_zero_trust_proxy.Protocol.{
  Bytes, Codec, McpRequest, null, ParseError, ClientIdentity, parse_request, is_batch_request,
  err_code_parse_error,
}
use mcp_zero_trust_proxy.Http.{HttpRequest}
use mcp_zero_trust_proxy.Pipeline.{
  Pipeline, AuthHandler, Stage, Outcome, stop, pass, ◌>>=◌, ◌>>◌, AuditEntry, Run, Response,
  no_content, health, not_found, auth_route, rpc_error,
}
use mcp_zero_trust_proxy.Pipeline.Stages.{
  initial_entry, identity_entry, check_content_length, authenticate, check_rate, check_sse,
  read_body,
}
use mcp_zero_trust_proxy.Pipeline.Single.{handle_single}
use mcp_zero_trust_proxy.Pipeline.Batch.{process_batch}

-- What the stages pass on: the identity, the audit entry with it, and the body.
pub record Accepted : Type 0 where
  pub identity : Option ClientIdentity
  pub entry : AuditEntry
  pub body : Bytes

module _ {S : Type 0} (json : Codec) (p : Pipeline S) (r : HttpRequest) where
  unfoldable pub accept_request : String → Stage S Accepted
  accept_request request_id = do
    check_content_length p r request_id
    identity ← authenticate p r (initial_entry r request_id)
    let entry = identity_entry (initial_entry r request_id) identity
    check_rate p r entry identity
    check_sse p r entry identity
    body ← read_body p r entry
    (λ s. pass (record { identity = identity; entry = entry; body = body }) s)

  abbrev pub answer_batch :
      String
      → Option ClientIdentity
      → Result ParseError (List McpRequest)
      → Run S
      → Response × Run S
  -- A batch that does not parse is answered with no audit entry.
  answer_batch request_id identity (err e) s = (rpc_error 400 err_code_parse_error null, s)
  answer_batch request_id identity (ok reqs) s = process_batch json p request_id identity reqs s

  unfoldable pub handle_body : String → Accepted → Run S → Response × Run S
  handle_body request_id a s =
      if not (is_empty a.body) && is_batch_request a.body
      then answer_batch request_id a.identity (parse_request json a.body) s
      else handle_single json p r a.entry a.identity a.body s

  abbrev pub answered : String → Outcome S Accepted → Response × Run S
  answered request_id (stop resp s) = (resp, s)
  answered request_id (pass a s) = handle_body request_id a s

  unfoldable pub run_pipeline : String → Run S → Response × Run S
  run_pipeline request_id s = answered request_id (accept_request request_id s)

  abbrev pub routed : AuthHandler S → Run S → Response × Run S
  routed handler s =
      if r.path == "/auth/start"
      then (auth_route r.path, record s { state = handler.handle_auth_start r s.state })
      else if r.path == "/auth/callback"
      then (auth_route r.path, record s { state = handler.handle_callback r s.state })
      else if r.path == "/auth/logout"
      then (auth_route r.path, record s { state = handler.handle_logout r s.state })
      else (not_found, s)

  -- The route goes to the OAuth handler, which answers by itself.
  abbrev pub handle_auth_route_by : Option (AuthHandler S) → Run S → Response × Run S
  handle_auth_route_by none s = (not_found, s)
  handle_auth_route_by (some handler) s = routed handler s

  unfoldable pub handle_auth_route : Run S → Response × Run S
  handle_auth_route s = handle_auth_route_by p.auth_handler s

  unfoldable pub serve_http : String → Run S → Response × Run S
  serve_http request_id s =
      if r.http_method == "OPTIONS"
      then (no_content, s)
      else if r.path == "/health"
      then (health, s)
      else if starts_with r.path "/auth/"
      then handle_auth_route s
      else run_pipeline request_id s
