-- ===== src/Rbac/Decision.antt =====
-- What `process` and the checks that it makes have established when they allow a request.
use mcp_zero_trust_proxy.Base.{
  ℕ, String, ◌≡◌, ◌≢◌, refl, sym, subst, true, false, none, some, arith, ◌==◌, eq_iff, ==_of_ne,
  if◌then◌else◌, Dict, lookup, ok, Option-cases, inl, inr,
}
use mcp_zero_trust_proxy.Protocol.{
  Codec, McpRequest, ClientIdentity, extract_tool_name, method_initialize, method_tools_call,
}
use mcp_zero_trust_proxy.Rbac.{
  Engine, Permission, tool_rank, below_floor, write_floor, check_classification, classified,
  check_tool, process, denies, allows,
}

pub check_classification_inv :
    (e : Engine) (ranks : Dict ℕ) (tools : Dict String) (perm : Permission) (i : ClientIdentity)
    (tool : String) {e' : Engine}
    → check_classification e ranks tools perm i tool ≡ ok e'
    → (below_floor (tool_rank ranks tools tool) (lookup i.session_id e.session_floors) ≡ false)
      × (e'
          ≡ write_floor e i.session_id
              (tool_rank ranks tools tool)
              (lookup i.session_id e.session_floors))
unfolding check_classification
check_classification_inv e ranks tools perm i tool h = ground arith

pub check_tool_inv :
    (e : Engine) (perm : Permission) (i : ClientIdentity) (tool : String) {e' : Engine}
    → check_tool e perm i tool ≡ ok e'
    → (perm.deny_tools_call ≡ false)
      × (denies perm.deny_tools tool ≡ false)
      × (allows perm.allowed_tools tool ≡ true)
      × (classified e perm i tool e.level_rank e.tool_classification ≡ ok e')
unfolding check_tool
check_tool_inv e perm i tool h = ground arith

pub check_tool_open :
    (e : Engine) (perm : Permission) (i : ClientIdentity) (tool : String)
    → perm.deny_tools_call ≡ false
    → denies perm.deny_tools tool ≡ false
    → perm.allowed_tools ≡ none
    → e.level_rank ≡ none
    → check_tool e perm i tool ≡ ok e
unfolding check_tool classified
check_tool_open e perm i tool c d a r = ground arith

module _ (json : Codec) where
  -- What `process` has established when it allows a request other than `initialize`.
  pub process_inv :
      (e : Engine) (req : McpRequest) (i : ClientIdentity) {e' : Engine}
      → process json e req i ≡ ok e'
      → req.method ≢ method_initialize
      → (perm : Permission) × (lookup i.role e.permissions ≡ some perm)
        × (allows perm.allowed_methods req.method ≡ true)
        × ((if req.method == method_tools_call
              then check_tool e perm i (extract_tool_name json req)
              else ok e)
            ≡ ok e')
  unfolding process
  process_inv e req i h ne = elim (Option-cases (lookup i.role e.permissions)) [
    | inl missing ↦ cc (rw (==_of_ne req.method method_initialize ne, missing, process) at h)
    | inr (perm, found) ↦ (
      perm,
      found,
      ground (arith, eq_iff req.method method_initialize),
      ground (arith, eq_iff req.method method_initialize),
    )
  ]

  -- A tools/call whose role admits the method is decided by the checks on the tool.
  pub process_call :
      (e : Engine) (req : McpRequest) (i : ClientIdentity) {perm : Permission}
      → lookup i.role e.permissions ≡ some perm
      → req.method ≡ method_tools_call
      → allows perm.allowed_methods method_tools_call ≡ true
      → process json e req i ≡ check_tool e perm i (extract_tool_name json req)
  unfolding process
  process_call e req i {perm} found m called =
      let same : (req.method == method_initialize) ≡ false = rw m in
      let call : (req.method == method_tools_call) ≡ true = (eq_iff _ _).1 m in
      let permitted : allows perm.allowed_methods req.method ≡ true =
        subst (λ (t : String). allows perm.allowed_methods t ≡ true) (sym m) called in
      rw (same, found, permitted, call, process) refl
