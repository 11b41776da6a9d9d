-- ===== src/Pipeline/Stages.antt =====
-- The stages of `runPipeline` up to the parsed body: body size, authentication, rate limit, the role
-- that an SSE stream needs, and the reading of the body.
use mcp_zero_trust_proxy.Base.{
  take, ◌+◌, String, Bool, true, false, ◌&&◌, not, Option, none, some, [], ltb, ltb_ℤ, pos, ◌==◌,
  if◌then◌else◌, length, Result, ok, err,
}
use mcp_zero_trust_proxy.Protocol.{
  Bytes, null, ClientIdentity, err_code_unauthorized, err_code_rate_limited, err_code_forbidden,
  err_code_request_too_large,
}
use mcp_zero_trust_proxy.Http.{HttpRequest, Body, full, is_sse_request, get_client_ip}
use mcp_zero_trust_proxy.Pipeline.{
  Pipeline, RateLimiter, Stage, Outcome, stop, pass, AuditEntry, Run, reject, auth_failed,
  body_too_large, rate_limit_exceeded, sse_role, read_failed,
}

-- The entry that the stages complete.
abbrev pub initial_entry : HttpRequest → String → AuditEntry
initial_entry r request_id = record {
  request_id = request_id;
  client_ip = get_client_ip r;
  client_id = "";
  session_id = "";
  method = "";
  tool_name = "";
  allowed = false;
  denied_reason = none;
}

abbrev pub with_identity : AuditEntry → ClientIdentity → AuditEntry
with_identity entry identity = record entry {
  client_id = identity.client_id;
  session_id = identity.session_id;
}

abbrev pub identity_entry : AuditEntry → Option ClientIdentity → AuditEntry
identity_entry entry none = entry
identity_entry entry (some identity) = with_identity entry identity

-- The key of the rate limit: the immutable id, or the client id where there is none.
unfoldable pub rate_key : Option ClientIdentity → String
rate_key none = "anonymous"
rate_key (some identity) =
    if identity.immutable_id == "" then identity.client_id else identity.immutable_id

abbrev pub role_of : Option ClientIdentity → String
role_of none = ""
role_of (some identity) = identity.role

module _ {S : Type 0} (p : Pipeline S) (r : HttpRequest) where
  -- Step 0. The entry that is logged here has no client address.
  unfoldable pub check_content_length : String → Stage S Unit
  check_content_length request_id s =
      if ltb 0 p.max_body_size && ltb_ℤ (pos p.max_body_size) r.content_length
      then reject p (record (initial_entry r request_id) { client_ip = [] }) body_too_large 413
          err_code_request_too_large null s
      else pass tt s

  abbrev pub authenticated :
      AuditEntry → Result String ClientIdentity × S → Run S → Outcome S (Option ClientIdentity)
  authenticated entry (ok identity, state) s = pass (some identity) (record s { state = state })
  authenticated entry (err e, state) s =
      reject p entry (auth_failed e) 401 err_code_unauthorized null (record s { state = state })

  abbrev pub authenticate_by :
      AuditEntry
      → Option (HttpRequest → S → Result String ClientIdentity × S)
      → Stage S (Option ClientIdentity)
  authenticate_by entry none s = pass none s
  authenticate_by entry (some check) s = authenticated entry (check r s.state) s

  -- Step 1.
  unfoldable pub authenticate : AuditEntry → Stage S (Option ClientIdentity)
  authenticate entry s = authenticate_by entry p.auth s

  -- The headers of an allowed request, which only an identity's request gets.
  abbrev pub with_headers : RateLimiter S → Option ClientIdentity → S → S
  with_headers limiter none state = state
  with_headers limiter (some identity) state = limiter.get_headers (rate_key (some identity)) state

  abbrev pub limited :
      AuditEntry → RateLimiter S → Option ClientIdentity → Bool × S → Run S → Outcome S Unit
  limited entry limiter identity (true, state) s =
      pass tt (record s { state = with_headers limiter identity state })
  limited entry limiter identity (false, state) s =
      reject p entry rate_limit_exceeded 429 err_code_rate_limited null (record s { state = state })

  abbrev pub check_rate_by :
      AuditEntry → Option ClientIdentity → Option (RateLimiter S) → Stage S Unit
  check_rate_by entry identity none s = pass tt s
  check_rate_by entry identity (some limiter) s =
      limited entry limiter identity (limiter.allow (rate_key identity) s.state) s

  -- Step 2; what the rate-limit headers of the answer hold is left out.
  unfoldable pub check_rate : AuditEntry → Option ClientIdentity → Stage S Unit
  check_rate entry identity s = check_rate_by entry identity p.rate_limiter s

  -- Step 2b.
  unfoldable pub check_sse : AuditEntry → Option ClientIdentity → Stage S Unit
  check_sse entry identity s =
      if is_sse_request r && not (role_of identity == "admin")
      then reject p entry sse_role 403 err_code_forbidden null s
      else pass tt s

  -- The bytes that `ReadAll` gives, behind the `LimitReader` where there is a limit.
  abbrev pub read_bytes : Bytes → Bytes
  read_bytes b = if ltb 0 p.max_body_size then take (p.max_body_size + 1) b else b

  abbrev pub read_by : AuditEntry → Body → Stage S Bytes
  read_by entry Body.no_body s = pass [] s
  read_by entry Body.unreadable s = stop read_failed s
  read_by entry (full b) s =
      if ltb 0 p.max_body_size && ltb p.max_body_size (length (read_bytes b))
      then reject p entry body_too_large 413 err_code_request_too_large null s
      else pass (read_bytes b) s

  -- Step 3, up to the parsing.
  unfoldable pub read_body : AuditEntry → Stage S Bytes
  read_body entry s = read_by entry r.body s
