-- ===== src/Pipeline/Single.antt =====
-- `runPipeline` on a body that is no batch: masking, RBAC, the cached tools/list and the upstream.
use mcp_zero_trust_proxy.Base.{
  String, true, ◌&&◌, Option, none, some, List, [], ◌∷◌, ◌==◌, if◌then◌else◌, is_empty, Result, ok,
  err,
}
use mcp_zero_trust_proxy.Protocol.{
  Bytes, Codec, McpRequest, RpcResponse, ClientIdentity, ToolEntry, parse_request,
  extract_tool_name, extract_resource_uri, method_tools_list, method_tools_call,
  method_resources_read, err_code_forbidden, ParseError,
}
use mcp_zero_trust_proxy.Http.{HttpRequest}
use mcp_zero_trust_proxy.Rbac.{Denial}
use mcp_zero_trust_proxy.Pipeline.{
  Pipeline, RbacEngine, Stage, Outcome, stop, pass, ◌>>=◌, AuditEntry, Run, UpstreamResponse,
  Response, reject, send, log_audit, rbac_denied, panicked, cached_tools, proxied,
  effective_identity,
}

abbrev pub or_nil : Option Bytes → Bytes
or_nil none = []
or_nil (some b) = b

abbrev pub or_else : Option Bytes → Bytes → Bytes
or_else none b = b
or_else (some b') b = b'

abbrev pub allowed_entry : AuditEntry → AuditEntry
allowed_entry entry = record entry { allowed = true }

-- The first request of a body that parses, else nil.
abbrev pub first_request : Result ParseError (List McpRequest) → Option McpRequest
first_request (err e) = none
first_request (ok []) = none
first_request (ok (req ∷ reqs)) = some req

module _ {S : Type 0} (json : Codec) (p : Pipeline S) where
  unfoldable pub request_entry : AuditEntry → Option McpRequest → AuditEntry
  request_entry entry none = entry
  request_entry entry (some req) = record entry {
    method = req.method;
    tool_name = extract_tool_name json req;
  }

  abbrev pub masked_with : McpRequest → Bytes → Option McpRequest → Option McpRequest × Bytes
  masked_with req body none = (some req, body)
  masked_with req body (some masked) =
      (some masked, if is_empty body then body else or_nil (json.marshal_request masked))

  -- Step 4a: the request in the context and the body, after masking.
  unfoldable pub mask_request : Option McpRequest → Bytes → Option McpRequest × Bytes
  mask_request none body = (none, body)
  mask_request (some req) body = elim p.pii_masker [
    | none ↦ (some req, body)
    | some masker ↦
        if req.method == method_tools_call
        then masked_with req body (masker.mask_request req)
        else (some req, body)
  ]

  abbrev pub permitted : AuditEntry → McpRequest → Result Denial S → Run S → Outcome S Unit
  permitted entry req (ok state) s = pass tt (record s { state = state })
  permitted entry req (err d) s = reject p entry (rbac_denied d) 403 err_code_forbidden req.id s

  abbrev pub check_rbac_by :
      AuditEntry → McpRequest → Option ClientIdentity → Option (RbacEngine S) → Stage S Unit
  check_rbac_by entry req identity none s = pass tt s
  check_rbac_by entry req identity (some rbac) s =
      permitted entry req (rbac.process req (effective_identity identity) s.state) s

  -- Step 4b. A body that did not parse has no request, and is not checked.
  unfoldable pub check_rbac : AuditEntry → Option McpRequest → Option ClientIdentity → Stage S Unit
  check_rbac entry none identity s = pass tt s
  check_rbac entry (some req) identity s = check_rbac_by entry req identity p.rbac s

  abbrev pub from_cache : AuditEntry → McpRequest → Option (List ToolEntry) → Run S → Outcome S Unit
  from_cache entry req none s = pass tt s
  from_cache entry req (some tools) s =
      stop (cached_tools req.id tools) (log_audit p (allowed_entry entry) s)

  -- The catalog's tools of the server in the context; without a server there the type assertion
  -- panics. `buildAllowedToolsMap` is nil for every role, so the catalog filters nothing.
  abbrev pub cached_for :
      AuditEntry → McpRequest → (String → Option (List ToolEntry)) → Option String → Stage S Unit
  cached_for entry req catalog none s = stop panicked s
  cached_for entry req catalog (some server) s = from_cache entry req (catalog server) s

  abbrev pub check_cache_by :
      HttpRequest
      → AuditEntry
      → McpRequest
      → Option (String → Option (List ToolEntry))
      → Stage S Unit
  check_cache_by r entry req none s = pass tt s
  check_cache_by r entry req (some catalog) s =
      if req.method == method_tools_list && p.cache_tools_list
      then cached_for entry req catalog r.resolved_server s
      else pass tt s

  -- Step 5, the cached answer to a tools/list.
  unfoldable pub check_cache : HttpRequest → AuditEntry → Option McpRequest → Stage S Unit
  check_cache r entry none s = pass tt s
  check_cache r entry (some req) s = check_cache_by r entry req p.tool_catalog s

  -- The tool or resource by which a response is masked.
  unfoldable pub tool_or_resource : McpRequest → String
  tool_or_resource req =
      if req.method == method_tools_call
      then extract_tool_name json req
      else if req.method == method_resources_read
      then extract_resource_uri json req
      else ""

  -- Step 6a.
  unfoldable pub mask_response : McpRequest → Bytes → Bytes
  mask_response req body = elim p.pii_masker [
    | none ↦ body
    | some masker ↦
        if tool_or_resource req == ""
        then body
        else or_else (masker.mask_response req.method (tool_or_resource req) body) body
  ]

  abbrev pub rebuilt : RpcResponse → Option Bytes → Option Bytes
  rebuilt resp none = none
  rebuilt resp (some filtered) = json.marshal_response (record resp { result = some filtered })

  abbrev pub filtered_response :
      RbacEngine S → Bytes → ClientIdentity → RpcResponse → S → Option Bytes
  filtered_response rbac body identity resp state = elim resp.error [
    | some e ↦ some body
    | none ↦ elim resp.result [
      | none ↦ some body
      | some result ↦ rebuilt resp (rbac.filter_tools_list identity result state)
    ]
  ]

  -- `filterToolsListResponse`; `none` is an error.
  unfoldable pub filter_tools_list_response :
      RbacEngine S → Bytes → ClientIdentity → S → Option Bytes
  filter_tools_list_response rbac body identity state = elim (json.unmarshal_response body) [
    | none ↦ none
    | some resp ↦ filtered_response rbac body identity resp state
  ]

  -- Step 6b: a filter that fails leaves the body.
  unfoldable pub filter_response : McpRequest → Option ClientIdentity → Bytes → S → Bytes
  filter_response req none body state = body
  filter_response req (some identity) body state = elim p.rbac [
    | none ↦ body
    | some rbac ↦
        if req.method == method_tools_list
        then or_else (filter_tools_list_response rbac body identity state) body
        else body
  ]

  -- The response is post-processed where the request parsed; the steps are the identity on the
  -- methods whose response is not captured.
  unfoldable pub process_response :
      Option McpRequest → Option ClientIdentity → UpstreamResponse → S → UpstreamResponse
  process_response none identity resp state = resp
  process_response (some req) identity resp state = record resp {
    body = filter_response req identity (mask_response req resp.body) state;
  }

  -- Steps 5 to 7 on the upstream.
  unfoldable pub proxy :
      AuditEntry → Option McpRequest → Option ClientIdentity → Bytes → Run S → Response × Run S
  proxy entry req identity body s =
      let (resp, s') = send p (record { request = req; body = body }) s in
      (proxied (process_response req identity resp s'.state), log_audit p (allowed_entry entry) s')

  abbrev pub finished : Outcome S Unit → (Run S → Response × Run S) → Response × Run S
  finished (stop resp s) k = (resp, s)
  finished (pass _ s) k = k s

  -- From the parsed body to the answer.
  unfoldable pub handle_single :
      HttpRequest → AuditEntry → Option ClientIdentity → Bytes → Run S → Response × Run S
  handle_single r entry identity body s =
      let parsed = if is_empty body then none else first_request (parse_request json body) in
      let noted = request_entry entry parsed in
      let (req, sent) = mask_request parsed body in
      finished ((check_rbac noted req identity >>= λ _. check_cache r noted req) s)
        (proxy noted req identity sent)
