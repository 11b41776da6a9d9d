-- ===== src/Pipeline/Answers.antt =====
-- A batch, item by item: the answers, the trace and the state against a description of each item.
use mcp_zero_trust_proxy.Base.{
  String, false, true, ◌≡◌, refl, sym, ◌∙◌, ap, Option, none, some, List, [], ◌∷◌, ◌++◌, append-nil,
  append_assoc, Result, ok, err, inl, inr, ◌⊎◌, subst,
}
use mcp_zero_trust_proxy.Protocol.{
  Bytes, Codec, McpRequest, ClientIdentity, err_code_forbidden, err_code_internal_error,
  extract_tool_name,
}
use mcp_zero_trust_proxy.Rbac.{Denial}
use mcp_zero_trust_proxy.Pipeline.{
  Pipeline, RbacEngine, Run, Event, audited, forwarded, AuditEntry, ItemResponse, item_error,
  item_body, rbac_denied, marshal_error, send, log_audit, emit, effective_identity,
}
use mcp_zero_trust_proxy.Pipeline.Single.{request_entry, mask_response, filter_response}
use mcp_zero_trust_proxy.Pipeline.Batch.{
  trim_newlines, process_item, process_item_by, process_items, decided_item, marshalled_item,
  send_item, item_entry,
}

-- The entry of an item, with its decision still open.
abbrev pub is_client : Option ClientIdentity → AuditEntry → AuditEntry
is_client none entry = entry
is_client (some i) entry = record entry { client_id = i.client_id; session_id = i.session_id }

abbrev pub open_entry : Codec → String → Option ClientIdentity → McpRequest → AuditEntry
open_entry json request_id identity req = is_client identity (record {
  request_id = request_id;
  client_ip = [];
  client_id = "";
  session_id = "";
  method = req.method;
  tool_name = extract_tool_name json req;
  allowed = false;
  denied_reason = none;
})

module _ {S : Type 0} (json : Codec) (p : Pipeline S) (request_id : String)
    (identity : Option ClientIdentity) where
  -- The item may be sent from the state `s`, and the decision leaves the state `s'`.
  abbrev pub Allows : McpRequest → S → S → Type 0
  Allows req s s' =
      ((p.rbac ≡ none) × (s' ≡ s))
      ⊎ ((e : RbacEngine S) × (p.rbac ≡ some e)
          × (e.process req (effective_identity identity) s ≡ ok s'))

  -- What a batch does from one state to another, with its answers and what it adds to the trace.
  -- An item that the RBAC engine denies is answered `Forbidden`, one that cannot be marshalled gets an
  -- internal error, each with its denied entry. Any other is sent upstream, marshalled, and answered
  -- with what the upstream gave for it, masked, filtered and trimmed; then its allowed entry is logged.
  pub data BatchRun : S → List McpRequest → List ItemResponse → List Event → S → Type 0 where
    done : (s : S) → BatchRun s [] [] [] s
    refused :
        (req : McpRequest) (reqs : List McpRequest) (resps : List ItemResponse)
        (events : List Event) (s s' : S) (e : RbacEngine S) (d : Denial)
        → p.rbac ≡ some e
        → e.process req (effective_identity identity) s ≡ err d
        → BatchRun s reqs resps events s'
        → BatchRun s
            (req ∷ reqs)
            (item_error req.id err_code_forbidden ∷ resps)
            (audited (record (open_entry json request_id identity req) {
              allowed = false;
              denied_reason = some (rbac_denied d);
            })
              ∷ events)
            s'
    unmarshalled :
        (req : McpRequest) (reqs : List McpRequest) (resps : List ItemResponse)
        (events : List Event) (s s1 s' : S)
        → Allows req s s1
        → json.marshal_request req ≡ none
        → BatchRun s1 reqs resps events s'
        → BatchRun s
            (req ∷ reqs)
            (item_error req.id err_code_internal_error ∷ resps)
            (audited (record (open_entry json request_id identity req) {
              allowed = false;
              denied_reason = some marshal_error;
            })
              ∷ events)
            s'
    sent :
        (req : McpRequest) (reqs : List McpRequest) (resps : List ItemResponse)
        (events : List Event) (s s1 s' : S) (body : Bytes)
        → Allows req s s1
        → json.marshal_request req ≡ some body
        → BatchRun
            (p.upstream (record { request = some req; body = body }) s1).1
            reqs
            resps
            events
            s'
        → BatchRun s
            (req ∷ reqs)
            (item_body (
                trim_newlines (
                  filter_response json p req identity
                    (mask_response json p req
                      (p.upstream (record { request = some req; body = body }) s1).0.body)
                    (p.upstream (record { request = some req; body = body }) s1).1))
              ∷ resps)
            (forwarded (record { request = some req; body = body })
              ∷ audited (record (open_entry json request_id identity req) { allowed = true })
              ∷ events)
            s'

  module _ (logged : p.audit_logger ≡ true) where
    -- The item's answer and events, before those of the items that follow it.
    abbrev IsItem : McpRequest → Run S → ItemResponse × Run S → Type 0
    IsItem req s r =
        (events : List Event) × (r.1.trace ≡ s.trace ++ events)
        × ((reqs : List McpRequest) (resps : List ItemResponse) (rest : List Event) (end : S)
            → BatchRun r.1.state reqs resps rest end
            → BatchRun s.state (req ∷ reqs) (r.0 ∷ resps) (events ++ rest) end)

    entry_lem :
        (req : McpRequest)
        → item_entry json p request_id identity req ≡ open_entry json request_id identity req
    unfolding request_entry
    entry_lem req = same_client identity
      where
        same_client :
            (i : Option ClientIdentity)
            → item_entry json p request_id i req ≡ open_entry json request_id i req
        same_client none = refl
        same_client (some i) = refl

    log-state : (entry : AuditEntry) (s : Run S) → (log_audit p entry s).state ≡ s.state
    unfolding log_audit emit
    log-state entry s = rw logged refl

    marshalled_lem :
        (req : McpRequest) (o : Option Bytes) (s : Run S) (s1 : S)
        → json.marshal_request req ≡ o
        → Allows req s.state s1
        → IsItem req s (
            marshalled_item json p
              (open_entry json request_id identity req)
              identity
              req
              o
              (record s { state = s1 }))
    unfolding send_item send log_audit emit
    marshalled_lem req none s s1 m allowed = (
      audited (record (open_entry json request_id identity req) {
        allowed = false;
        denied_reason = some marshal_error;
      })
          ∷ [],
      rw logged refl,
      λ reqs resps rest end h.
          unmarshalled req reqs resps rest s.state s1 end allowed m
            (subst (λ x. BatchRun x reqs resps rest end) (log-state _ _) h),
    )
    marshalled_lem req (some body) s s1 m allowed = (
      forwarded (record { request = some req; body = body })
          ∷ audited (record (open_entry json request_id identity req) { allowed = true })
          ∷ [],
      rw logged (append_assoc s.trace _ _),
      λ reqs resps rest end h.
          sent req reqs resps rest s.state s1 end body allowed m
            (subst (λ x. BatchRun x reqs resps rest end) (log-state _ _) h),
    )

    decided_lem :
        (req : McpRequest) (e : RbacEngine S) (answer : Result Denial S) (s : Run S)
        → p.rbac ≡ some e
        → e.process req (effective_identity identity) s.state ≡ answer
        → IsItem req s
            (decided_item json p (open_entry json request_id identity req) identity req answer s)
    unfolding log_audit emit
    decided_lem req e (err d) s there denial = (
      audited (record (open_entry json request_id identity req) {
        allowed = false;
        denied_reason = some (rbac_denied d);
      })
          ∷ [],
      rw logged refl,
      λ reqs resps rest end h.
          refused req reqs resps rest s.state end e d there denial
            (subst (λ x. BatchRun x reqs resps rest end) (log-state _ _) h),
    )
    decided_lem req e (ok state) s there allowed =
        marshalled_lem req (json.marshal_request req) s state refl (inr (e, there, allowed))

    item_by_lem :
        (req : McpRequest) (o : Option (RbacEngine S)) (s : Run S)
        → p.rbac ≡ o
        → IsItem req s
            (process_item_by json p (open_entry json request_id identity req) identity req o s)
    item_by_lem req none s missing =
        marshalled_lem req (json.marshal_request req) s s.state refl (inl (missing, refl))
    item_by_lem req (some e) s there =
        decided_lem req e (e.process req (effective_identity identity) s.state) s there refl

    item_lem :
        (req : McpRequest) (s : Run S)
        → IsItem req s (process_item json p request_id identity req s)
    unfolding process_item
    item_lem req s =
        subst (λ entry. IsItem req s (process_item_by json p entry identity req p.rbac s))
          (sym (entry_lem req)) (item_by_lem req p.rbac s refl)

    -- With an audit logger, the items of a batch are processed as `BatchRun` says, in their order:
    -- item by item it determines the decision, the answer, the audit entry, what is sent upstream, and
    -- the state that is left to the next item.
    pub process_items-BatchRun :
        (reqs : List McpRequest) (s : Run S)
        → (events : List Event) × ((process_items json p request_id identity reqs s).1.trace
            ≡ s.trace ++ events)
          × BatchRun s.state reqs
              (process_items json p request_id identity reqs s).0
              events
              (process_items json p request_id identity reqs s).1.state
    unfolding process_items
    process_items-BatchRun [] s = ([], sym (append-nil s.trace), done s.state)
    process_items-BatchRun (req ∷ reqs) s =
        let next = process_item json p request_id identity req s in
        let (first, grown, step) = item_lem req s in
        let (events, grown', follow) = process_items-BatchRun reqs next.1 in
        (
          first ++ events,
          grown' ∙ ap (λ t. t ++ events) grown ∙ append_assoc s.trace first events,
          step reqs _ events _ follow,
        )
