-- ===== src/Pipeline/Guarded/Batch.antt =====
-- A batch: every item that goes upstream has passed the RBAC engine.
use mcp_zero_trust_proxy.Base.{
  String, ◌≡◌, refl, sym, subst, Option, none, some, List, [], ◌∷◌, Result, ok, err, Option-cases,
  inl, inr,
}
use mcp_zero_trust_proxy.Protocol.{Bytes, Codec, McpRequest, ClientIdentity}
use mcp_zero_trust_proxy.Rbac.{Denial}
use mcp_zero_trust_proxy.Pipeline.{Pipeline, RbacEngine, Run, AuditEntry, effective_identity}
use mcp_zero_trust_proxy.Pipeline.Mediation.{
  moved, Guards, IsSafe, Known, log_audit-IsSafe, send-IsSafe,
}
use mcp_zero_trust_proxy.Pipeline.Batch.{
  process_item, item_entry, process_item_by, process_items, decided_item, marshalled_item,
  send_item, batch_identity,
}

module _ {S : Type 0} (json : Codec) (p : Pipeline S) {Inv : S → Type 0}
    {I : ClientIdentity → Type 0} {Q : McpRequest → Type 0} (g : Guards p Inv I Q) where
  marshalled_lem :
      (entry : AuditEntry) (identity : Option ClientIdentity) (req : McpRequest) (o : Option Bytes)
      (s : Run S)
      → Q req
      → IsSafe Inv Q s
      → IsSafe Inv Q (marshalled_item json p entry identity req o s).1
  unfolding send_item
  marshalled_lem entry identity req none s q h = log_audit-IsSafe p g _ s h
  marshalled_lem entry identity req (some body) s q h =
      log_audit-IsSafe p g _ _ (send-IsSafe p g _ s h q)

  decided_lem :
      (entry : AuditEntry) (identity : Option ClientIdentity) (req : McpRequest) (e : RbacEngine S)
      (i : ClientIdentity) (answer : Result Denial S) (s : Run S)
      → e.process req i s.state ≡ answer
      → p.rbac ≡ some e
      → I i
      → IsSafe Inv Q s
      → IsSafe Inv Q (decided_item json p entry identity req answer s).1
  decided_lem entry identity req e i (err d) s a there known h = log_audit-IsSafe p g _ s h
  decided_lem entry identity req e i (ok state) s a there known h =
      let (inv, q) = g.rbac e req i s.state state there h.inv known a in
      marshalled_lem entry identity req _ _ q (moved s state h inv)

  item_lem :
      (request_id : String) (identity : Option ClientIdentity) (req : McpRequest) (s : Run S)
      → Known I identity
      → IsSafe Inv Q s
      → IsSafe Inv Q (process_item json p request_id identity req s).1
  unfolding process_item
  item_lem request_id identity req s known h = elim (Option-cases p.rbac) [
    | inl missing ↦ absurd (g.rbac_there missing)
    | inr (e, there) ↦
        subst
          (λ o.
            IsSafe Inv Q
              (process_item_by json p (item_entry json p request_id identity req) identity req o
                s).1)
          (sym there) (decided_lem _ identity req e _ _ s refl there known h)
  ]

  pub items_lem :
      (request_id : String) (identity : Option ClientIdentity) (reqs : List McpRequest) (s : Run S)
      → Known I identity
      → IsSafe Inv Q s
      → IsSafe Inv Q (process_items json p request_id identity reqs s).1
  unfolding process_items
  items_lem request_id identity [] s known h = h
  items_lem request_id identity (req ∷ reqs) s known h =
      items_lem request_id identity reqs _ known (item_lem request_id identity req s known h)

  pub batch-Known :
      (identity : Option ClientIdentity)
      → Known I identity
      → Known I (batch_identity json p identity)
  unfolding batch_identity effective_identity
  batch-Known identity known = elim (Option-cases p.rbac) [
    | inl missing ↦ absurd (g.rbac_there missing)
    | inr (e, there) ↦ rw there known
  ]
