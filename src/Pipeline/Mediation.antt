-- ===== src/Pipeline/Mediation.antt =====
-- Complete mediation: whatever arrives, a request that reaches the upstream with a parsed form has
-- passed the RBAC engine, single or in a batch, after masking.
use mcp_zero_trust_proxy.Base.{
  ℕ, String, ◌≡◌, ◌≢◌, Option, none, some, ℤ, All, All-append, Result, ok, Bool-cases, inl, inr,
}
use mcp_zero_trust_proxy.Protocol.{Json, McpRequest, ClientIdentity}
use mcp_zero_trust_proxy.Http.{HttpRequest}
use mcp_zero_trust_proxy.Pipeline.{
  Pipeline, RbacEngine, RateLimiter, AuthHandler, Run, Event, audited, forwarded, Forward,
  AuditEntry, Reason, Outcome, stop, pass, Stage, continue, effective_identity, emit, log_audit,
  send, reject,
}

-- A request in the context of what is sent upstream satisfies `Q`.
abbrev pub IsPermitted : (McpRequest → Type 0) → Option McpRequest → Type 0
IsPermitted Q none = Unit
IsPermitted Q (some req) = Q req

abbrev pub IsMediated : (McpRequest → Type 0) → Event → Type 0
IsMediated Q (audited entry) = Unit
IsMediated Q (forwarded f) = IsPermitted Q f.request

-- What the pipeline's parts are assumed to do: every part keeps the invariant `Inv` of the shared
-- state, the anonymous identity is in `I`, and the RBAC engine, which is there, allows an identity
-- in `I` only requests in `Q`.
pub record Guards {S : Type 0} (p : Pipeline S) (Inv : S → Type 0) (I : ClientIdentity → Type 0)
    (Q : McpRequest → Type 0) : Type 0 where
  pub auth_state :
      (check : HttpRequest → S → Result String ClientIdentity × S) (r : HttpRequest) (s : S)
      → p.auth ≡ some check
      → Inv s
      → Inv (check r s).1
  pub auth_routes :
      (h : AuthHandler S) (r : HttpRequest) (s : S)
      → p.auth_handler ≡ some h
      → Inv s
      → Inv (h.handle_auth_start r s) × Inv (h.handle_callback r s) × Inv (h.handle_logout r s)
  pub anonymous : I (effective_identity none)
  pub rate :
      (l : RateLimiter S) (key : String) (s : S)
      → p.rate_limiter ≡ some l
      → Inv s
      → Inv (l.allow key s).1
  pub headers :
      (l : RateLimiter S) (key : String) (s : S)
      → p.rate_limiter ≡ some l
      → Inv s
      → Inv (l.get_headers key s)
  pub rbac_there : p.rbac ≢ none
  pub rbac :
      (e : RbacEngine S) (req : McpRequest) (i : ClientIdentity) (s s' : S)
      → p.rbac ≡ some e
      → Inv s
      → I i
      → e.process req i s ≡ ok s'
      → Inv s' × Q req
  pub upstream : (f : Forward) (s : S) → Inv s → Inv (p.upstream f s).1

-- Authentication of this request, in this state, gives an identity in `I`, if any.
abbrev pub Yields : {S : Type 0} → Pipeline S → (ClientIdentity → Type 0) → HttpRequest → S → Type 0
Yields {S} p I r s =
    (check : HttpRequest → S → Result String ClientIdentity × S) (i : ClientIdentity)
    → p.auth ≡ some check
    → (check r s).0 ≡ ok i
    → I i

pub record IsSafe {S : Type 0} (Inv : S → Type 0) (Q : McpRequest → Type 0) (s : Run S)
    : Type 0 where
  pub inv : Inv s.state
  pub mediated : All (IsMediated Q) s.trace

-- The state is safe, and what is passed on satisfies `P`.
abbrev pub Ensures :
    {S A : Type 0} → (S → Type 0) → (McpRequest → Type 0) → (A → Type 0) → Outcome S A → Type 0
Ensures Inv Q P (stop resp s) = IsSafe Inv Q s
Ensures Inv Q P (pass a s) = IsSafe Inv Q s × P a

-- No demand on a value.
abbrev pub Any : {A : Type 0} → A → Type 0
Any a = Unit

-- The identity, or the anonymous one in its place, is in `I`.
abbrev pub Known : (ClientIdentity → Type 0) → Option ClientIdentity → Type 0
Known I identity = I (effective_identity identity)

module _ {S : Type 0} {Inv : S → Type 0} {Q : McpRequest → Type 0} where
  pub Ensures-continue :
      {A B : Type 0} (P : A → Type 0) (R : B → Type 0) (o : Outcome S A) (k : A → Stage S B)
      → Ensures Inv Q P o
      → ((a : A) (s : Run S) → IsSafe Inv Q s → P a → Ensures Inv Q R (k a s))
      → Ensures Inv Q R (continue o k)
  Ensures-continue P R (stop resp s) k h step = h
  Ensures-continue P R (pass a s) k (h, pa) step = step a s h pa

  pub moved :
      (s : Run S) (state : S)
      → IsSafe Inv Q s
      → Inv state
      → IsSafe Inv Q (record s { state = state })
  moved s state h i = record { inv = i; mediated = h.mediated }

module _ {S : Type 0} (p : Pipeline S) {Inv : S → Type 0} {I : ClientIdentity → Type 0}
    {Q : McpRequest → Type 0} (g : Guards p Inv I Q) where
  pub log_audit-IsSafe :
      (entry : AuditEntry) (s : Run S) → IsSafe Inv Q s → IsSafe Inv Q (log_audit p entry s)
  unfolding log_audit emit
  log_audit-IsSafe entry s h = elim (Bool-cases p.audit_logger) [
    | inl on ↦
        rw on (record {
          inv = h.inv;
          mediated = All-append (IsMediated Q) s.trace _ h.mediated (tt, tt);
        })
    | inr off ↦ rw off h
  ]

  pub reject-Ensures :
      {A : Type 0} (P : A → Type 0) (entry : AuditEntry) (reason : Reason) (status : ℕ) (code : ℤ)
      (id : Json) (s : Run S)
      → IsSafe Inv Q s
      → Ensures Inv Q P (reject p entry reason status code id s)
  unfolding reject
  reject-Ensures P entry reason status code id s h = log_audit-IsSafe _ s h

  pub send-IsSafe :
      (f : Forward) (s : Run S)
      → IsSafe Inv Q s
      → IsPermitted Q f.request
      → IsSafe Inv Q (send p f s).1
  unfolding send emit
  send-IsSafe f s h q = record {
    inv = g.upstream f s.state h.inv;
    mediated = All-append (IsMediated Q) s.trace _ h.mediated (q, tt);
  }
