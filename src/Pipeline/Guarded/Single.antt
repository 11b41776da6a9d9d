-- ===== src/Pipeline/Guarded/Single.antt =====
-- A single request: what goes upstream has passed the RBAC engine.
use mcp_zero_trust_proxy.Base.{
  String, Bool, true, false, ◌≡◌, refl, sym, subst, Option, none, some, List, if◌then◌else◌, Result,
  ok, err, Option-cases, inl, inr,
}
use mcp_zero_trust_proxy.Protocol.{Bytes, Codec, McpRequest, ClientIdentity, ToolEntry}
use mcp_zero_trust_proxy.Http.{HttpRequest}
use mcp_zero_trust_proxy.Rbac.{Denial}
use mcp_zero_trust_proxy.Pipeline.{
  Pipeline, continue, RbacEngine, Run, Outcome, stop, pass, AuditEntry, Response,
  effective_identity,
}
use mcp_zero_trust_proxy.Pipeline.Mediation.{
  moved, Any, Guards, IsSafe, Ensures, Ensures-continue, Known, IsPermitted, log_audit-IsSafe,
  reject-Ensures, send-IsSafe,
}
use mcp_zero_trust_proxy.Pipeline.Single.{
  check_rbac, check_rbac_by, permitted, check_cache, check_cache_by, cached_for, from_cache, proxy,
  finished, handle_single,
}

module _ {S : Type 0} (json : Codec) (p : Pipeline S) {Inv : S → Type 0}
    {I : ClientIdentity → Type 0} {Q : McpRequest → Type 0} (g : Guards p Inv I Q) where
  module _ (entry : AuditEntry) where
    permitted_lem :
        (req : McpRequest) (i : ClientIdentity) (e : RbacEngine S) (s : Run S)
        (answer : Result Denial S)
        → e.process req i s.state ≡ answer
        → p.rbac ≡ some e
        → I i
        → IsSafe Inv Q s
        → Ensures Inv Q (λ (_ : Unit {0}). Q req) (permitted json p entry req answer s)
    permitted_lem req i e s (ok state) q there known h =
        let (inv, fits) = g.rbac e req i s.state state there h.inv known q in
        (moved s state h inv, fits)
    permitted_lem req i e s (err d) q there known h =
        reject-Ensures p g (λ (_ : Unit {0}). Q req) _ _ _ _ _ s h

    rbac_lem :
        (req : Option McpRequest) (identity : Option ClientIdentity) (s : Run S)
        → Known I identity
        → IsSafe Inv Q s
        → Ensures Inv Q
            (λ (_ : Unit {0}). IsPermitted Q req)
            (check_rbac json p entry req identity s)
    unfolding check_rbac
    rbac_lem none identity s known h = (h, tt)
    rbac_lem (some req) identity s known h = elim (Option-cases p.rbac) [
      | inl missing ↦ absurd (g.rbac_there missing)
      | inr (e, there) ↦
          subst
            (λ o.
              Ensures Inv Q (λ (_ : Unit {0}). Q req) (check_rbac_by json p entry req identity o s))
            (sym there) (permitted_lem req (effective_identity identity) e s _ refl there known h)
    ]

    cached_lem :
        (req : McpRequest) (tools : Option (List ToolEntry)) (s : Run S)
        → IsSafe Inv Q s
        → Ensures Inv Q Any (from_cache json p entry req tools s)
    cached_lem req none s h = (h, tt)
    cached_lem req (some tools) s h = log_audit-IsSafe p g _ s h

    cached_for_lem :
        (req : McpRequest) (catalog : String → Option (List ToolEntry)) (server : Option String)
        (b : Bool) (s : Run S)
        → IsSafe Inv Q s
        → Ensures Inv Q Any (if b then cached_for json p entry req catalog server s else pass tt s)
    cached_for_lem req catalog none true s h = h
    cached_for_lem req catalog (some server) true s h = cached_lem req (catalog server) s h
    cached_for_lem req catalog server false s h = (h, tt)

    cache_lem :
        (r : HttpRequest) (req : Option McpRequest) (s : Run S)
        → IsSafe Inv Q s
        → Ensures Inv Q Any (check_cache json p r entry req s)
    unfolding check_cache
    cache_lem r none s h = (h, tt)
    cache_lem r (some req) s h = elim (Option-cases p.tool_catalog) [
      | inl e ↦
          subst (λ o. Ensures Inv Q Any (check_cache_by json p r entry req o s)) (sym e) (h, tt)
      | inr (catalog, e) ↦
          subst (λ o. Ensures Inv Q Any (check_cache_by json p r entry req o s)) (sym e)
            (cached_for_lem req catalog r.resolved_server _ s h)
    ]

    proxy_lem :
        (req : Option McpRequest) (identity : Option ClientIdentity) (body : Bytes) (s : Run S)
        → IsSafe Inv Q s
        → IsPermitted Q req
        → IsSafe Inv Q (proxy json p entry req identity body s).1
    unfolding proxy
    proxy_lem req identity body s h q = log_audit-IsSafe p g _ _ (send-IsSafe p g _ s h q)

  finished_lem :
      (P : Unit {0} → Type 0) (o : Outcome S (Unit {0})) (k : Run S → Response × Run S)
      → Ensures Inv Q P o
      → ((s : Run S) → IsSafe Inv Q s → P tt → IsSafe Inv Q (k s).1)
      → IsSafe Inv Q (finished json p o k).1
  finished_lem P (stop resp s) k h step = h
  finished_lem P (pass a s) k (h, pa) step = step s h pa

  given :
      (P : Type 0) (o : Outcome S (Unit {0}))
      → P
      → Ensures Inv Q Any o
      → Ensures Inv Q (λ (_ : Unit {0}). P) o
  given P (stop resp s) q h = h
  given P (pass a s) q (h, _) = (h, q)

  checked_lem :
      (r : HttpRequest) (entry : AuditEntry) (req : Option McpRequest)
      (identity : Option ClientIdentity) (body : Bytes) (s : Run S)
      → Known I identity
      → IsSafe Inv Q s
      → IsSafe Inv Q
          (finished json p
            (continue
              (check_rbac json p entry req identity s)
              (λ _. check_cache json p r entry req))
            (proxy json p entry req identity body)).1
  checked_lem r entry req identity body s known h =
      let Fits = λ (_ : Unit {0}). IsPermitted Q req in
      finished_lem Fits _ _
        (Ensures-continue Fits Fits _ _ (rbac_lem entry req identity s known h)
          λ _ s1 h1 q. given (IsPermitted Q req) _ q (cache_lem entry r req s1 h1))
        (λ s2 h2 q. proxy_lem entry req identity body s2 h2 q)

  pub single_lem :
      (r : HttpRequest) (entry : AuditEntry) (identity : Option ClientIdentity) (body : Bytes)
      (s : Run S)
      → Known I identity
      → IsSafe Inv Q s
      → IsSafe Inv Q (handle_single json p r entry identity body s).1
  unfolding handle_single
  single_lem r entry identity body s known h = checked_lem r _ _ identity _ s known h
