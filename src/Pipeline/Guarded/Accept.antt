-- ===== src/Pipeline/Guarded/Accept.antt =====
-- The stages up to the body keep the state safe, and pass on a known identity.
use mcp_zero_trust_proxy.Base.{
  ℕ, ℤ, String, Bool, true, false, ◌≡◌, refl, Option, none, some, if◌then◌else◌, Result, ok, err,
}
use mcp_zero_trust_proxy.Protocol.{Codec, Json, McpRequest, ClientIdentity}
use mcp_zero_trust_proxy.Http.{HttpRequest, Body, full}
use mcp_zero_trust_proxy.Pipeline.{
  Pipeline, RateLimiter, Stage, continue, Run, pass, AuditEntry, Reason, reject, effective_identity,
}
use mcp_zero_trust_proxy.Pipeline.Mediation.{
  moved, Any, Yields, log_audit-IsSafe, Guards, IsSafe, Ensures, Ensures-continue, Known,
  reject-Ensures,
}
use mcp_zero_trust_proxy.Pipeline.Stages.{
  check_content_length, authenticate, authenticate_by, authenticated, check_rate, check_rate_by,
  limited, check_sse, read_body, read_by, rate_key,
}
use mcp_zero_trust_proxy.Pipeline.Serve.{Accepted, accept_request}

module _ {S : Type 0} (json : Codec) (p : Pipeline S) {Inv : S → Type 0}
    {I : ClientIdentity → Type 0} {Q : McpRequest → Type 0} (g : Guards p Inv I Q) where
  reject_or_pass :
      {A : Type 0} (P : A → Type 0) (b : Bool) (entry : AuditEntry) (reason : Reason) (status : ℕ)
      (code : ℤ) (id : Json) (a : A) (s : Run S)
      → IsSafe Inv Q s
      → P a
      → Ensures Inv Q P (if b then reject p entry reason status code id s else pass a s)
  reject_or_pass P true entry reason status code id a s h pa =
      reject-Ensures p g P entry reason status code id s h
  reject_or_pass P false entry reason status code id a s h pa = (h, pa)

  module _ (r : HttpRequest) where
    -- The size of the body is tested before anything changes the state.
    stopped_or_on :
        {B : Type 0} (R : B → Type 0) (big : Bool) (entry : AuditEntry) (reason : Reason)
        (status : ℕ) (code : ℤ) (id : Json) (k : Unit {0} → Stage S B) (s : Run S)
        → IsSafe Inv Q s
        → Ensures Inv Q R (k tt s)
        → Ensures Inv Q R
            (continue (if big then reject p entry reason status code id s else pass tt s) k)
    unfolding reject
    stopped_or_on R true entry reason status code id k s h step = log_audit-IsSafe p g _ s h
    stopped_or_on R false entry reason status code id k s h step = step

    size_lem :
        {B : Type 0} (R : B → Type 0) (request_id : String) (k : Unit {0} → Stage S B) (s : Run S)
        → IsSafe Inv Q s
        → Ensures Inv Q R (k tt s)
        → Ensures Inv Q R (continue (check_content_length p r request_id s) k)
    unfolding check_content_length
    size_lem R request_id k s h step = stopped_or_on R _ _ _ _ _ _ k s h step

    authenticated_lem :
        (entry : AuditEntry) (answer : Result String ClientIdentity × S) (s : Run S)
        → IsSafe Inv Q s
        → Inv answer.1
        → ((i : ClientIdentity) → answer.0 ≡ ok i → I i)
        → Ensures Inv Q (Known I) (authenticated p r entry answer s)
    unfolding effective_identity
    authenticated_lem entry (ok i, state) s h inv known = (moved s state h inv, known i refl)
    authenticated_lem entry (err e, state) s h inv known =
        reject-Ensures p g (Known I) _ _ _ _ _ _ (moved s state h inv)

    authenticate_lem :
        (entry : AuditEntry) (o : Option (HttpRequest → S → Result String ClientIdentity × S))
        (s : Run S)
        → p.auth ≡ o
        → Yields p I r s.state
        → IsSafe Inv Q s
        → Ensures Inv Q (Known I) (authenticate_by p r entry o s)
    authenticate_lem entry none s e yields h = (h, g.anonymous)
    authenticate_lem entry (some check) s e yields h =
        authenticated_lem entry (check r s.state) s h (g.auth_state check r s.state e h.inv)
          (λ i q. yields check i e q)

    limited_lem :
        (entry : AuditEntry) (l : RateLimiter S) (identity : Option ClientIdentity)
        (answer : Bool × S) (s : Run S)
        → p.rate_limiter ≡ some l
        → IsSafe Inv Q s
        → Inv answer.1
        → Ensures Inv Q Any (limited p r entry l identity answer s)
    limited_lem entry l none (true, state) s e h inv = (moved s state h inv, tt)
    limited_lem entry l (some i) (true, state) s e h inv =
        (moved s _ h (g.headers l (rate_key (some i)) state e inv), tt)
    limited_lem entry l identity (false, state) s e h inv =
        reject-Ensures p g Any _ _ _ _ _ _ (moved s state h inv)

    rate_lem :
        (entry : AuditEntry) (identity : Option ClientIdentity) (o : Option (RateLimiter S))
        (s : Run S)
        → p.rate_limiter ≡ o
        → IsSafe Inv Q s
        → Ensures Inv Q Any (check_rate_by p r entry identity o s)
    rate_lem entry identity none s e h = (h, tt)
    rate_lem entry identity (some l) s e h =
        limited_lem entry l identity (l.allow (rate_key identity) s.state) s e h
          (g.rate l (rate_key identity) s.state e h.inv)

    sse_lem :
        (entry : AuditEntry) (identity : Option ClientIdentity) (s : Run S)
        → IsSafe Inv Q s
        → Ensures Inv Q Any (check_sse p r entry identity s)
    unfolding check_sse
    sse_lem entry identity s h = reject_or_pass Any _ _ _ _ _ _ _ s h tt

    read_lem :
        (entry : AuditEntry) (b : Body) (s : Run S)
        → IsSafe Inv Q s
        → Ensures Inv Q Any (read_by p r entry b s)
    read_lem entry Body.no_body s h = (h, tt)
    read_lem entry Body.unreadable s h = h
    read_lem entry (full b) s h = reject_or_pass Any _ _ _ _ _ _ _ s h tt

    pub accept_lem :
        (request_id : String) (s : Run S)
        → Yields p I r s.state
        → IsSafe Inv Q s
        → Ensures Inv Q
            (λ (a : Accepted). Known I a.identity)
            (accept_request json p r request_id s)
    unfolding accept_request authenticate check_rate read_body
    accept_lem request_id s yields h =
        let Fits = λ (a : Accepted). Known I a.identity in
        size_lem Fits request_id _ s h (
          Ensures-continue (Known I) Fits _ _ (authenticate_lem _ p.auth s refl yields h)
            λ identity s2 h2 known.
              Ensures-continue Any Fits _ _ (rate_lem _ identity p.rate_limiter s2 refl h2)
                λ _ s3 h3 _. Ensures-continue Any Fits _ _ (sse_lem _ identity s3 h3) λ _ s4 h4 _.
                  Ensures-continue Any Fits _ _ (read_lem _ r.body s4 h4)
                    λ body s5 h5 _. (h5, known))
