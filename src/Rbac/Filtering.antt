-- ===== src/Rbac/Filtering.antt =====
-- The filter of a tools/list result against the decision on a tools/call: a listed tool is one that
-- the client may call, unless the role denies it by name.
use mcp_zero_trust_proxy.Base.{
  String, ◌≡◌, ◌↔◌, true, false, ◌&&◌, some, List, arith, contains, In, In-keep, is_ok,
}
use mcp_zero_trust_proxy.Protocol.{ClientIdentity, ToolEntry}
use mcp_zero_trust_proxy.Rbac.{
  Engine, Permission, check_tool, check_classification, classified, filter_tools, is_visible,
  denies,
}

module _ (e : Engine) (perm : Permission) (i : ClientIdentity) (allowed : List String) where
  -- The decision on one tool.
  visible_iff_callable :
      (t : String)
      → perm.deny_tools_call ≡ false
      → perm.allowed_tools ≡ some allowed
      → ((contains allowed t && is_visible e perm i t) ≡ true) × (denies perm.deny_tools t ≡ false)
        ↔ (is_ok (check_tool e perm i t) ≡ true)
  unfolding check_tool is_visible classified check_classification
  visible_iff_callable t c a = (λ h. ground arith, λ h. ground arith)

  -- For a role with an allow list and no blanket denial: a tool of the upstream's list that the
  -- role does not deny by name is kept by the filter exactly when the client's tools/call of it
  -- passes every check, classification and session floor included; and the filter adds no tool.
  pub filter_tools_iff :
      (tool : ToolEntry) (tools : List ToolEntry)
      → perm.deny_tools_call ≡ false
      → perm.allowed_tools ≡ some allowed
      → (In tool (filter_tools e perm i allowed tools) × (denies perm.deny_tools tool.name ≡ false))
        ↔ (In tool tools × (is_ok (check_tool e perm i tool.name) ≡ true))
  unfolding filter_tools
  filter_tools_iff tool tools c a =
      let (kept, keeps) =
        In-keep (λ t. contains allowed t.name && is_visible e perm i t.name) tool tools in
      let (callable, visible) = visible_iff_callable tool.name c a in
      (
        λ h. ((kept h.0).0, callable ((kept h.0).1, h.1)),
        λ h. (keeps (h.0, (visible h.1).0), (visible h.1).1),
      )
