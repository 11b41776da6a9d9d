-- ===== src/Pipeline/Batch.antt =====
-- `processBatch`: each item of a batch is decided, sent and logged on its own, in the batch's order.
use mcp_zero_trust_proxy.Base.{
  String, Bool, true, false, Option, none, some, List, [], ◌∷◌, if◌then◌else◌, is_empty, eqb,
  Result, ok, err, ◌&&◌,
}
use mcp_zero_trust_proxy.Protocol.{
  Bytes, Codec, McpRequest, ClientIdentity, err_code_forbidden, err_code_internal_error,
}
use mcp_zero_trust_proxy.Rbac.{Denial}
use mcp_zero_trust_proxy.Pipeline.{
  Pipeline, RbacEngine, AuditEntry, Run, Reason, ItemResponse, item_error, item_body, Response,
  batch, batch_failed, log_audit, denied, send, rbac_denied, marshal_error, effective_identity,
}
use mcp_zero_trust_proxy.Pipeline.Stages.{identity_entry}
use mcp_zero_trust_proxy.Pipeline.Single.{request_entry, mask_response, filter_response}

-- `TrimRight(b, "\n")`.
unfoldable pub trim_newlines : Bytes → Bytes
trim_newlines [] = []
trim_newlines (c ∷ b) =
    let rest = trim_newlines b in if is_empty rest && eqb c 10 then [] else c ∷ rest

module _ {S : Type 0} (json : Codec) (p : Pipeline S) where
  -- With an RBAC engine, no identity stands for the anonymous one.
  unfoldable pub batch_identity : Option ClientIdentity → Option ClientIdentity
  batch_identity identity = elim p.rbac [
    | none ↦ identity
    | some rbac ↦ some (effective_identity identity)
  ]

  abbrev pub item_entry : String → Option ClientIdentity → McpRequest → AuditEntry
  item_entry request_id identity req =
      identity_entry
        (request_entry json p
          (record {
            request_id = request_id;
            client_ip = [];
            client_id = "";
            session_id = "";
            method = "";
            tool_name = "";
            allowed = false;
            denied_reason = none;
          })
          (some req))
        identity

  abbrev pub item_denied :
      AuditEntry → McpRequest → Reason → ItemResponse → Run S → ItemResponse × Run S
  item_denied entry req reason resp s = (resp, log_audit p (denied entry reason) s)

  -- The item is sent by itself, and its response masked, filtered and trimmed.
  unfoldable pub send_item :
      AuditEntry → Option ClientIdentity → McpRequest → Bytes → Run S → ItemResponse × Run S
  send_item entry identity req body s =
      let (resp, s') = send p (record { request = some req; body = body }) s in
      (
        item_body (
            trim_newlines
              (filter_response json p req identity (mask_response json p req resp.body) s'.state)),
        log_audit p (record entry { allowed = true }) s',
      )

  -- An item past RBAC.
  abbrev pub marshalled_item :
      AuditEntry → Option ClientIdentity → McpRequest → Option Bytes → Run S → ItemResponse × Run S
  marshalled_item entry identity req none s =
      item_denied entry req marshal_error (item_error req.id err_code_internal_error) s
  marshalled_item entry identity req (some body) s = send_item entry identity req body s

  abbrev pub decided_item :
      AuditEntry
      → Option ClientIdentity
      → McpRequest
      → Result Denial S
      → Run S
      → ItemResponse × Run S
  decided_item entry identity req (err d) s =
      item_denied entry req (rbac_denied d) (item_error req.id err_code_forbidden) s
  decided_item entry identity req (ok state) s =
      marshalled_item entry identity req (json.marshal_request req) (record s { state = state })

  abbrev pub process_item_by :
      AuditEntry
      → Option ClientIdentity
      → McpRequest
      → Option (RbacEngine S)
      → Run S
      → ItemResponse × Run S
  process_item_by entry identity req none s =
      marshalled_item entry identity req (json.marshal_request req) s
  process_item_by entry identity req (some rbac) s =
      decided_item entry identity req (rbac.process req (effective_identity identity) s.state) s

  unfoldable pub process_item :
      String → Option ClientIdentity → McpRequest → Run S → ItemResponse × Run S
  process_item request_id identity req s =
      process_item_by (item_entry request_id identity req) identity req p.rbac s

  unfoldable pub process_items :
      String → Option ClientIdentity → List McpRequest → Run S → List ItemResponse × Run S
  process_items request_id identity [] s = ([], s)
  process_items request_id identity (req ∷ reqs) s =
      let (resp, s') = process_item request_id identity req s in
      let (resps, s'') = process_items request_id identity reqs s' in (resp ∷ resps, s'')

  abbrev pub all_raw : List ItemResponse → Bool
  all_raw [] = true
  all_raw (item_error id code ∷ resps) = all_raw resps
  all_raw (item_body b ∷ resps) = json.marshals_raw b && all_raw resps

  -- The error of `json.Marshal` is dropped, and the answer then empty.
  abbrev pub batch_answer : List ItemResponse → Response
  batch_answer resps = if all_raw resps then batch resps else batch_failed

  unfoldable pub process_batch :
      String → Option ClientIdentity → List McpRequest → Run S → Response × Run S
  process_batch request_id identity reqs s =
      let (resps, s') = process_items request_id (batch_identity identity) reqs s in
      (batch_answer resps, s')
