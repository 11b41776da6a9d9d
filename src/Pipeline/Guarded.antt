-- ===== src/Pipeline/Guarded.antt =====
-- Every stage of the pipeline keeps what `Mediation` states, and so does the whole of `ServeHTTP`.
mod Accept
mod Single
mod Batch
use mcp_zero_trust_proxy.Base.{
  ℕ, ℤ, String, Bool, true, false, ◌≡◌, refl, sym, subst, Option, none, some, List, [], ◌∷◌,
  if◌then◌else◌, not, ◌&&◌, ◌||◌, ◌==◌, is_empty, Result, ok, err, Option-cases, inl, inr,
}
use mcp_zero_trust_proxy.Protocol.{
  Bytes, Codec, Json, McpRequest, ClientIdentity, ToolEntry, parse_request, is_batch_request,
  ParseError,
}
use text.Mathlib.Text.{starts_with}
use mcp_zero_trust_proxy.Http.{HttpRequest, Body, full}
use mcp_zero_trust_proxy.Rbac.{Denial}
use mcp_zero_trust_proxy.Pipeline.{
  Pipeline, AuthHandler, no_content, health, not_found, auth_route, continue, RateLimiter,
  RbacEngine, Run, Outcome, stop, pass, AuditEntry, Reason, Response, reject, effective_identity,
}
use mcp_zero_trust_proxy.Pipeline.Mediation.{
  moved, Any, Yields, Guards, IsSafe, Ensures, Ensures-continue, Known, IsPermitted,
  log_audit-IsSafe, reject-Ensures, send-IsSafe,
}
use mcp_zero_trust_proxy.Pipeline.Stages.{
  check_content_length, authenticate, authenticate_by, authenticated, check_rate, check_rate_by,
  limited, check_sse, read_body, read_by, rate_key,
}
use mcp_zero_trust_proxy.Pipeline.Single.{
  check_rbac, check_rbac_by, permitted, check_cache, check_cache_by, cached_for, from_cache, proxy,
  finished, handle_single,
}
use mcp_zero_trust_proxy.Pipeline.Batch.{
  process_item, item_entry, process_item_by, process_items, process_batch, decided_item,
  marshalled_item, send_item, batch_identity,
}
use mcp_zero_trust_proxy.Pipeline.Serve.{
  Accepted, accept_request, handle_body, answer_batch, answered, run_pipeline, serve_http,
  handle_auth_route, handle_auth_route_by,
}
use mcp_zero_trust_proxy.Pipeline.Guarded.Accept.{accept_lem}
use mcp_zero_trust_proxy.Pipeline.Guarded.Single.{single_lem}
use mcp_zero_trust_proxy.Pipeline.Guarded.Batch.{items_lem, batch-Known}

module _ {S : Type 0} (json : Codec) (p : Pipeline S) {Inv : S → Type 0}
    {I : ClientIdentity → Type 0} {Q : McpRequest → Type 0} (g : Guards p Inv I Q) where
  either :
      {A : Type 0} (b : Bool) (x y : A × Run S)
      → IsSafe Inv Q x.1
      → IsSafe Inv Q y.1
      → IsSafe Inv Q (if b then x else y).1
  either true x y hx hy = hx
  either false x y hx hy = hy

  answer_lem :
      (r : HttpRequest) (request_id : String) (identity : Option ClientIdentity)
      (parsed : Result ParseError (List McpRequest)) (s : Run S)
      → Known I identity
      → IsSafe Inv Q s
      → IsSafe Inv Q (answer_batch json p r request_id identity parsed s).1
  unfolding process_batch
  answer_lem r request_id identity (err e) s known h = h
  answer_lem r request_id identity (ok reqs) s known h =
      items_lem json p g request_id _ reqs s (batch-Known json p g identity known) h

  body_lem :
      (r : HttpRequest) (request_id : String) (a : Accepted) (s : Run S)
      → Known I a.identity
      → IsSafe Inv Q s
      → IsSafe Inv Q (handle_body json p r request_id a s).1
  unfolding handle_body
  body_lem r request_id a s known h =
      either (not (is_empty a.body) && is_batch_request a.body)
        (answer_batch json p r request_id a.identity (parse_request json a.body) s)
        (handle_single json p r a.entry a.identity a.body s)
        (answer_lem r request_id a.identity _ s known h)
        (single_lem json p g r a.entry a.identity a.body s known h)

  answered_lem :
      (r : HttpRequest) (request_id : String) (o : Outcome S Accepted)
      → Ensures Inv Q (λ (a : Accepted). Known I a.identity) o
      → IsSafe Inv Q (answered json p r request_id o).1
  answered_lem r request_id (stop resp s) h = h
  answered_lem r request_id (pass a s) (h, known) = body_lem r request_id a s known h

  pipeline_lem :
      (r : HttpRequest) (request_id : String) (s : Run S)
      → Yields p I r s.state
      → IsSafe Inv Q s
      → IsSafe Inv Q (run_pipeline json p r request_id s).1
  unfolding run_pipeline
  pipeline_lem r request_id s yields h =
      answered_lem r request_id _ (accept_lem json p g r request_id s yields h)

  auth_lem :
      (r : HttpRequest) (o : Option (AuthHandler S)) (s : Run S)
      → p.auth_handler ≡ o
      → IsSafe Inv Q s
      → IsSafe Inv Q (handle_auth_route_by json p r o s).1
  auth_lem r none s e h = h
  auth_lem r (some handler) s e h =
      let (started, called, logged_out) = g.auth_routes handler r s.state e h.inv in
      either (r.path == "/auth/start") _ _ (moved s _ h started) (
        either (r.path == "/auth/callback") _ _ (moved s _ h called)
          (either (r.path == "/auth/logout") _ (not_found, s) (moved s _ h logged_out) h))

  -- Complete mediation. Suppose an RBAC engine is configured, it allows identities in `I`, the
  -- anonymous one among them, only requests in `Q`, and every part of the middleware, the OAuth
  -- handlers included, keeps an invariant of the shared state. If the invariant holds, no request
  -- outside `Q` has gone upstream with a parsed form, and authentication of this HTTP request, if
  -- it succeeds, gives an identity in `I`, then after the request, single or batch, allowed or denied,
  -- the invariant holds and still none has. What is sent of a body that does not parse is outside
  -- this statement.
  pub serve_http-IsSafe :
      (r : HttpRequest) (request_id : String) (s : Run S)
      → Yields p I r s.state
      → IsSafe Inv Q s
      → IsSafe Inv Q (serve_http json p r request_id s).1
  unfolding serve_http handle_auth_route
  serve_http-IsSafe r request_id s yields h =
      let routed =
        if starts_with r.path "/auth/"
        then handle_auth_route json p r s
        else run_pipeline json p r request_id s in
      either (r.http_method == "OPTIONS") (no_content, s) _ h
        (either (r.path == "/health") (health, s) routed h
          (either (starts_with r.path "/auth/") (handle_auth_route json p r s)
            (run_pipeline json p r request_id s) (auth_lem r p.auth_handler s refl h)
            (pipeline_lem r request_id s yields h)))
