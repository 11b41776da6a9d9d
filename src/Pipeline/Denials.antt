-- ===== src/Pipeline/Denials.antt =====
-- The stages before the body is handled: what a request that they stop leaves behind.
use mcp_zero_trust_proxy.Base.{
  ℕ, ℤ, String, Bool, true, false, ◌≡◌, refl, Option, none, some, List, [], ◌∷◌, ◌++◌, ◌⊎◌, inl,
  inr, if◌then◌else◌, Result, ok, err,
}
use mcp_zero_trust_proxy.Protocol.{Codec, Json, ClientIdentity}
use mcp_zero_trust_proxy.Http.{HttpRequest, Body, full}
use mcp_zero_trust_proxy.Pipeline.{
  Pipeline, RateLimiter, Run, Outcome, stop, pass, Stage, continue, AuditEntry, Reason, Response,
  Event, audited, read_failed, rpc_error, reject, denied, log_audit, emit,
}
use mcp_zero_trust_proxy.Pipeline.Stages.{
  check_content_length, authenticate, authenticate_by, authenticated, check_rate, check_rate_by,
  limited, check_sse, read_body, read_by, rate_key,
}
use mcp_zero_trust_proxy.Pipeline.Serve.{accept_request}

-- The answer of a stopped request and its trace: a JSON-RPC error with one denied entry in the audit
-- log, or a body that could not be read, with none.
abbrev pub IsRefusal : List Event → Response → List Event → Type 0
IsRefusal before response after =
    ((status : ℕ) × (code : ℤ) × (id : Json) × (entry : AuditEntry) × (reason : Reason) × (response
        ≡ rpc_error status code id)
      × (after ≡ before ++ audited (denied entry reason) ∷ []))
    ⊎ ((response ≡ read_failed) × (after ≡ before))

-- A stopped request is a refusal, and one that is passed on leaves no trace.
abbrev pub IsQuiet : {S A : Type 0} → List Event → Outcome S A → Type 0
IsQuiet before (stop response s) = IsRefusal before response s.trace
IsQuiet before (pass a s) = s.trace ≡ before

module _ {S : Type 0} where
  continue-IsQuiet :
      {A B : Type 0} (before : List Event) (o : Outcome S A) (k : A → Stage S B)
      → IsQuiet before o
      → ((a : A) (s : Run S) → s.trace ≡ before → IsQuiet before (k a s))
      → IsQuiet before (continue o k)
  continue-IsQuiet before (stop response s) k h step = h
  continue-IsQuiet before (pass a s) k h step = step a s h

module _ {S : Type 0} (json : Codec) (p : Pipeline S) (logged : p.audit_logger ≡ true)
    (before : List Event) where
  reject-IsQuiet :
      (A : Type 0) (entry : AuditEntry) (reason : Reason) (status : ℕ) (code : ℤ) (id : Json)
      (s : Run S)
      → s.trace ≡ before
      → IsQuiet before (reject p {A = A} entry reason status code id s)
  unfolding reject log_audit emit
  reject-IsQuiet A entry reason status code id s h =
      inl (status, code, id, entry, reason, refl, rw (logged, h) refl)

  reject_or_pass :
      {A : Type 0} (b : Bool) (entry : AuditEntry) (reason : Reason) (status : ℕ) (code : ℤ)
      (id : Json) (a : A) (s : Run S)
      → s.trace ≡ before
      → IsQuiet before (if b then reject p entry reason status code id s else pass a s)
  reject_or_pass {A} true entry reason status code id a s h =
      reject-IsQuiet A entry reason status code id s h
  reject_or_pass false entry reason status code id a s h = h

  module _ (r : HttpRequest) where
    authenticated-IsQuiet :
        (entry : AuditEntry) (answer : Result String ClientIdentity × S) (s : Run S)
        → s.trace ≡ before
        → IsQuiet before (authenticated p r entry answer s)
    authenticated-IsQuiet entry (ok i, state) s h = h
    authenticated-IsQuiet entry (err e, state) s h =
        reject-IsQuiet (Option ClientIdentity) _ _ _ _ _ _ h

    authenticate-IsQuiet :
        (entry : AuditEntry) (o : Option (HttpRequest → S → Result String ClientIdentity × S))
        (s : Run S)
        → s.trace ≡ before
        → IsQuiet before (authenticate_by p r entry o s)
    authenticate-IsQuiet entry none s h = h
    authenticate-IsQuiet entry (some check) s h = authenticated-IsQuiet entry (check r s.state) s h

    limited-IsQuiet :
        (entry : AuditEntry) (l : RateLimiter S) (identity : Option ClientIdentity)
        (answer : Bool × S) (s : Run S)
        → s.trace ≡ before
        → IsQuiet before (limited p r entry l identity answer s)
    limited-IsQuiet entry l identity (true, state) s h = h
    limited-IsQuiet entry l identity (false, state) s h = reject-IsQuiet Unit _ _ _ _ _ _ h

    rate-IsQuiet :
        (entry : AuditEntry) (identity : Option ClientIdentity) (o : Option (RateLimiter S))
        (s : Run S)
        → s.trace ≡ before
        → IsQuiet before (check_rate_by p r entry identity o s)
    rate-IsQuiet entry identity none s h = h
    rate-IsQuiet entry identity (some l) s h =
        limited-IsQuiet entry l identity (l.allow (rate_key identity) s.state) s h

    read-IsQuiet :
        (entry : AuditEntry) (b : Body) (s : Run S)
        → s.trace ≡ before
        → IsQuiet before (read_by p r entry b s)
    read-IsQuiet entry Body.no_body s h = h
    read-IsQuiet entry Body.unreadable s h = inr (refl, h)
    read-IsQuiet entry (full b) s h = reject_or_pass _ _ _ _ _ _ _ s h

    size-IsQuiet :
        (request_id : String) (s : Run S)
        → s.trace ≡ before
        → IsQuiet before (check_content_length p r request_id s)
    unfolding check_content_length
    size-IsQuiet request_id s h = reject_or_pass _ _ _ _ _ _ _ s h

    sse-IsQuiet :
        (entry : AuditEntry) (identity : Option ClientIdentity) (s : Run S)
        → s.trace ≡ before
        → IsQuiet before (check_sse p r entry identity s)
    unfolding check_sse
    sse-IsQuiet entry identity s h = reject_or_pass _ _ _ _ _ _ _ s h

    -- With an audit logger, a request that the stages before its body stop is answered with a
    -- JSON-RPC error and adds to the trace one denied audit entry, or its body could not be read and
    -- it adds none; in both cases nothing was sent upstream. A request that they pass on has
    -- added nothing to the trace.
    pub accept_request-IsQuiet :
        (request_id : String) (s : Run S)
        → s.trace ≡ before
        → IsQuiet before (accept_request json p r request_id s)
    unfolding accept_request authenticate check_rate read_body
    accept_request-IsQuiet request_id s h =
        continue-IsQuiet before (check_content_length p r request_id s) _
          (size-IsQuiet request_id s h)
          λ _ s1 h1.
            continue-IsQuiet before _ _ (authenticate-IsQuiet _ p.auth s1 h1) λ identity s2 h2.
              continue-IsQuiet before _ _ (rate-IsQuiet _ identity p.rate_limiter s2 h2) λ _ s3 h3.
                continue-IsQuiet before _ _ (sse-IsQuiet _ identity s3 h3) λ _ s4 h4.
                  continue-IsQuiet before _ _ (read-IsQuiet _ r.body s4 h4) λ body s5 h5. h5
