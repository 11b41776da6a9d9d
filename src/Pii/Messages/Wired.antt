-- ===== src/Pii/Messages/Wired.antt =====
-- The masker of internal/pii behind the pipeline's interface: what a tools/call goes on as.
use mcp_zero_trust_proxy.Base.{
  true, false, ◌≡◌, refl, Option, none, some, [], ◌∷◌, ◌==◌, is_empty, map, ok, if◌then◌else◌,
}
use mcp_zero_trust_proxy.Protocol.{
  Bytes, Json, Codec, McpRequest, extract_tool_name, method_tools_call, ClientIdentity,
  parse_request,
}
use mcp_zero_trust_proxy.Http.{HttpRequest}
use mcp_zero_trust_proxy.Pipeline.{Pipeline, Run, AuditEntry}
use mcp_zero_trust_proxy.Pipeline.Calls.{IsDecided, decided_lem}
use mcp_zero_trust_proxy.Pipeline.Single
use mcp_zero_trust_proxy.Pii.{Regexp, Masker, should_mask_tool}
use mcp_zero_trust_proxy.Pii.Replace.{Texts}
use mcp_zero_trust_proxy.Pii.Messages.{
  Values, traverse, mask_text, fields_of, mask_json_value, mask_request, pii_masker,
}
use mcp_zero_trust_proxy.Pii.Messages.Leaves.{leaves, shape, traverse-leaves}

-- What `json.Marshal` writes is read back by `json.Unmarshal`.
abbrev pub IsReadBack : Values → Type 0
IsReadBack values = (j : Json) (b : Bytes) → values.marshal j ≡ some b → values.unmarshal b ≡ some j

module _ (json : Codec) (values : Values) (t : Texts) (re : Regexp) (m : Masker) where
  -- A tools/call of a tool that is masked, whose patterns are not none at all.
  abbrev pub IsMasked : McpRequest → Type 0
  IsMasked req =
      ((req.method == method_tools_call) ≡ true)
      × ((extract_tool_name json req == "") ≡ false)
      × (should_mask_tool re t.encode m (extract_tool_name json req) ≡ true)
      × (is_empty (fields_of json values t re m (extract_tool_name json req)) ≡ false)

  mask_request-masked :
      (req : McpRequest) (j : Json) (params : Bytes)
      → IsMasked req
      → values.unmarshal req.params ≡ some j
      → values.marshal (
          traverse
            (mask_text json values t re m
              (fields_of json values t re m (extract_tool_name json req)))
            j)
        ≡ some params
      → mask_request json values t re m req ≡ record req { params = params }
  unfolding mask_request mask_json_value
  mask_request-masked req j params (call, named, should, fields) read written =
      rw (call, named, should, fields, read, written) refl

  module _ {S : Type 0} (p : Pipeline S) (req : McpRequest) (j : Json)
      (body params sent : Bytes) where
    replaced_lem :
        p.pii_masker ≡ some (pii_masker json values t re (some m))
        → IsMasked req
        → is_empty body ≡ false
        → values.unmarshal req.params ≡ some j
        → values.marshal (
            traverse
              (mask_text json values t re m
                (fields_of json values t re m (extract_tool_name json req)))
              j)
          ≡ some params
        → json.marshal_request (record req { params = params }) ≡ some sent
        → Single.mask_request json p (some req) body ≡ (some (record req { params = params }), sent)
    unfolding Single.mask_request
    replaced_lem wired masked full read written encoded =
        let (call, _, _, _) = masked in
        rw (wired, call, mask_request-masked req j params masked read written, full, encoded) refl

    -- On a pipeline with an audit logger and the masker, let the body of a single request parse to a
    -- tools/call of a masked tool, whose params decode to `j` and encode again. The RBAC engine is asked
    -- about the masked request. If it denies it, nothing is sent; otherwise exactly one request is
    -- sent upstream, the masked one, with its encoding as the body. Its params decode to a value of the
    -- shape of `j`, in which each text of `j` is masked by the tool's patterns, wherever it stands. The
    -- items of a batch are not spoken of: they are sent unmasked.
    pub sent_masked :
        p.pii_masker ≡ some (pii_masker json values t re (some m))
        → IsReadBack values
        → IsMasked req
        → is_empty body ≡ false
        → values.unmarshal req.params ≡ some j
        → values.marshal (
            traverse
              (mask_text json values t re m
                (fields_of json values t re m (extract_tool_name json req)))
              j)
          ≡ some params
        → json.marshal_request (record req { params = params }) ≡ some sent
        → (logged : p.audit_logger ≡ true) → parse_request json body ≡ ok (req ∷ [])
        → (r : HttpRequest) (entry : AuditEntry) (identity : Option ClientIdentity) (s : Run S)
        → IsDecided json p logged r
            (Single.request_entry json p entry (some req))
            identity
            (record req { params = params })
            sent
            s.state
            s.trace
            (Single.handle_single json p r entry identity body s).1.trace
          × ((j' : Json) × (values.unmarshal params ≡ some j')
              × (shape j' ≡ shape j)
              × (leaves j'
                  ≡ map
                      (mask_text json values t re m
                        (fields_of json values t re m (extract_tool_name json req)))
                      (leaves j)))
    unfolding Single.handle_single Single.check_rbac
    sent_masked wired back masked full read written encoded logged parsed r entry identity s =
        let f =
          mask_text json values t re m
            (fields_of json values t re m (extract_tool_name json req)) in
        let (texts, shaped) = traverse-leaves f j in
        let (call, _, _, _) = masked in
        let seen : (if is_empty body then none else Single.first_request (parse_request json body))
            ≡ some req =
          rw (full, parsed) refl in
        (
          rw (seen, replaced_lem wired masked full read written encoded)
              (decided_lem json p logged r _ identity (record req { params = params }) sent call
                p.rbac s refl),
          (traverse f j, back (traverse f j) params written, shaped, texts),
        )
