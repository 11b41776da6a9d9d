-- ===== src/Pipeline/Calls.antt =====
-- A single tools/call: what the checks after the masking leave in the trace.
use mcp_zero_trust_proxy.Base.{
  true, ◌≡◌, refl, Option, none, some, List, [], ◌∷◌, ◌++◌, append_assoc, ◌==◌, eq_iff, Result, ok,
  err, ◌⊎◌, inl, inr, Option-cases,
}
use mcp_zero_trust_proxy.Protocol.{Bytes, Codec, McpRequest, ClientIdentity, method_tools_call}
use mcp_zero_trust_proxy.Http.{HttpRequest}
use mcp_zero_trust_proxy.Rbac.{Denial}
use mcp_zero_trust_proxy.Pipeline.{
  Pipeline, reject, RbacEngine, Run, pass, continue, Event, audited, forwarded, AuditEntry,
  rbac_denied, send, log_audit, emit, denied, effective_identity,
}
use mcp_zero_trust_proxy.Pipeline.Single.{
  permitted, check_rbac_by, check_cache, proxy, finished, allowed_entry,
}

module _ {S : Type 0} (json : Codec) (p : Pipeline S) (logged : p.audit_logger ≡ true)
    (r : HttpRequest) (noted : AuditEntry) (identity : Option ClientIdentity) (req : McpRequest)
    (body : Bytes) where
  -- The RBAC engine denies the request, and the trace has the denied entry; or the request is
  -- allowed, or there is no engine, and it is sent with the body and its allowed entry logged.
  abbrev pub IsDecided : S → List Event → List Event → Type 0
  IsDecided state before after =
      ((e : RbacEngine S) × (d : Denial) × (p.rbac ≡ some e)
        × (e.process req (effective_identity identity) state ≡ err d)
        × (after ≡ before ++ audited (denied noted (rbac_denied d)) ∷ []))
      ⊎ (((p.rbac ≡ none)
            ⊎ ((e : RbacEngine S) × (s' : S) × (p.rbac ≡ some e)
                × (e.process req (effective_identity identity) state ≡ ok s')))
          × (after
              ≡ before
                ++ forwarded (record { request = some req; body = body })
                  ∷ audited (allowed_entry noted)
                  ∷ []))

  proxy-trace :
      (s : Run S)
      → (proxy json p noted (some req) identity body s).1.trace
        ≡ s.trace
          ++ forwarded (record { request = some req; body = body })
            ∷ audited (allowed_entry noted)
            ∷ []
  unfolding proxy send log_audit emit
  proxy-trace s = rw logged (append_assoc s.trace _ _)

  module _ (call : (req.method == method_tools_call) ≡ true) where
    -- Only a tools/list is answered from the catalog.
    cache_passed : (s : Run S) → check_cache json p r noted (some req) s ≡ pass tt s
    unfolding check_cache
    cache_passed s = elim (Option-cases p.tool_catalog) [
      | inl e ↦ rw e refl
      | inr (catalog, e) ↦ rw (e, (eq_iff req.method method_tools_call).0 call) refl
    ]

    sent_on :
        (s : Run S)
        → (finished json p
            (check_cache json p r noted (some req) s)
            (proxy json p noted (some req) identity body)).1.trace
          ≡ s.trace
            ++ forwarded (record { request = some req; body = body })
              ∷ audited (allowed_entry noted)
              ∷ []
    sent_on s = rw (cache_passed s) (proxy-trace s)

    permitted_lem :
        (e : RbacEngine S) (answer : Result Denial S) (s : Run S)
        → p.rbac ≡ some e
        → e.process req (effective_identity identity) s.state ≡ answer
        → IsDecided s.state s.trace
            (finished json p
              (continue
                (permitted json p noted req answer s)
                (λ _. check_cache json p r noted (some req)))
              (proxy json p noted (some req) identity body)).1.trace
    unfolding reject log_audit emit
    permitted_lem e (err d) s there q = inl (e, d, there, q, rw logged refl)
    permitted_lem e (ok state) s there q =
        inr (inr (e, state, there, q), sent_on (record s { state = state }))

    pub decided_lem :
        (o : Option (RbacEngine S)) (s : Run S)
        → p.rbac ≡ o
        → IsDecided s.state s.trace
            (finished json p
              (continue
                (check_rbac_by json p noted req identity o s)
                (λ _. check_cache json p r noted (some req)))
              (proxy json p noted (some req) identity body)).1.trace
    decided_lem none s missing = inr (inl missing, sent_on s)
    decided_lem (some e) s there = permitted_lem e _ s there refl
