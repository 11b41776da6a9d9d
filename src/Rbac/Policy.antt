-- ===== src/Rbac/Policy.antt =====
-- What the compiled engine grants each role, from the configuration to the decision.
use mcp_zero_trust_proxy.Base.{
  ℕ, String, ◌≡◌, ◌≢◌, refl, sym, ◌∙◌, ap, true, false, Option, none, some, List, [], ◌∷◌, arith,
  ==_of_ne, Dict, lookup, ok, err, Result-cases, inl, inr, contains,
}
use mcp_zero_trust_proxy.Protocol.{
  Codec, McpRequest, ClientIdentity, extract_tool_name, method_initialize, method_tools_call,
}
use mcp_zero_trust_proxy.Rbac.{
  Engine, Permission, RoleConfig, ClassificationConfig, Denial, compile_role, new_engine, process,
  role_admin, role_read_only, role_restricted, denies, allows, set_or_nil,
}
use mcp_zero_trust_proxy.Rbac.Roles.{
  last_role, compiled, last_role_name, Serves, permission_source, compiled_inv,
}
use mcp_zero_trust_proxy.Rbac.Decision.{check_tool_inv, check_tool_open, process_inv, process_call}
use mcp_zero_trust_proxy.Rbac.Floors.{call_ne_initialize, call_test}

compile_read_only :
    (rc : RoleConfig) (ranks : Option (Dict ℕ))
    → rc.name ≡ role_read_only
    → allows (compile_role rc ranks).allowed_methods method_tools_call ≡ false
unfolding compile_role contains
compile_read_only rc ranks h = rw h

compile_custom :
    (rc : RoleConfig) (ranks : Option (Dict ℕ)) (m : String)
    → rc.name ≢ role_admin
    → rc.name ≢ role_read_only
    → rc.name ≢ role_restricted
    → allows (compile_role rc ranks).allowed_methods m ≡ false
unfolding compile_role contains
compile_custom rc ranks m a r s = rw (
  ==_of_ne rc.name role_admin a,
  ==_of_ne rc.name role_read_only r,
  ==_of_ne rc.name role_restricted s,
)

denies-set_or_nil : (ts : List String) (t : String) → denies (set_or_nil ts) t ≡ contains ts t
unfolding contains
denies-set_or_nil [] t = refl
denies-set_or_nil (x ∷ xs) t = refl

allows-set_or_nil :
    (ts : List String) (t : String) → ts ≢ [] → allows (set_or_nil ts) t ≡ contains ts t
allows-set_or_nil [] t h = absurd (h refl)
allows-set_or_nil (x ∷ xs) t h = refl

compile_deny_tools :
    (rc : RoleConfig) (ranks : Option (Dict ℕ))
    → (compile_role rc ranks).deny_tools ≡ set_or_nil rc.deny_tools
unfolding compile_role
compile_deny_tools rc ranks = ground arith

compile_allowed_tools :
    (rc : RoleConfig) (ranks : Option (Dict ℕ))
    → rc.name ≡ role_restricted
    → (compile_role rc ranks).allowed_tools ≡ set_or_nil rc.allowed_tools
unfolding compile_role
compile_allowed_tools rc ranks h = rw h

compile_restricted :
    (rc : RoleConfig) (ranks : Option (Dict ℕ))
    → rc.name ≡ role_restricted
    → rc.allowed_tools ≡ []
    → (allows (compile_role rc ranks).allowed_methods method_tools_call ≡ true)
      × ((compile_role rc ranks).deny_tools_call ≡ false)
      × ((compile_role rc ranks).allowed_tools ≡ none)
unfolding compile_role contains
compile_restricted rc ranks h k = (rw h, rw h, rw (h, k))

module _ (json : Codec) (roles : List RoleConfig) (classification : ClassificationConfig)
    (e : Engine) (serves : Serves roles classification e) (req : McpRequest)
    (i : ClientIdentity) where
  ranks_inactive :
      classification.tool_assignments ≡ [] → (new_engine roles classification).level_rank ≡ none
  unfolding new_engine
  ranks_inactive h = ground arith

  role_source :
      {perm : Permission}
      → lookup i.role e.permissions ≡ some perm
      → (rc : RoleConfig) × (last_role i.role roles none ≡ some rc)
        × (rc.name ≡ i.role)
        × (perm ≡ compile_role rc (new_engine roles classification).level_rank)
  role_source found =
      let (rc, last, same) =
        compiled_inv (new_engine roles classification).level_rank (last_role i.role roles none)
          (sym (permission_source roles classification e i.role serves) ∙ found) in
      (rc, last, last_role_name i.role roles none rc (λ rc' q. cc) last, same)

  denied_of_not_ok :
      ((e' : Engine) → process json e req i ≢ ok e') → (d : Denial) × (process json e req i ≡ err d)
  denied_of_not_ok h = elim (Result-cases (process json e req i)) [
    | inl (e', p) ↦ absurd (h e' p)
    | inr denied ↦ denied
  ]

  -- On an engine built from any configuration and perhaps used since, a client of role `readonly`
  -- is denied every tools/call.
  pub read_only_denied :
      i.role ≡ role_read_only
      → req.method ≡ method_tools_call
      → (d : Denial) × (process json e req i ≡ err d)
  read_only_denied r m = denied_of_not_ok λ e' p.
      let (perm, found, allowed, _) = process_inv json e req i p (call_ne_initialize req m) in
      let (rc, _, name, same) = role_source found in
      cc (compile_read_only rc (new_engine roles classification).level_rank (name ∙ r))

  -- A client whose role is not one of the three built-in ones is denied every method but
  -- `initialize`, whatever the configuration says of that role.
  pub custom_role_denied :
      i.role ≢ role_admin
      → i.role ≢ role_read_only
      → i.role ≢ role_restricted
      → req.method ≢ method_initialize
      → (d : Denial) × (process json e req i ≡ err d)
  custom_role_denied a r s m = denied_of_not_ok λ e' p.
      let (perm, found, allowed, _) = process_inv json e req i p m in
      let (rc, _, name, same) = role_source found in
      cc (
        compile_custom rc (new_engine roles classification).level_rank req.method
          (λ q. a (sym name ∙ q)) (λ q. r (sym name ∙ q)) (λ q. s (sym name ∙ q)))

  -- A tool on the deny list of the client's role is denied, for every role.
  pub denied_tool_denied :
      (rc : RoleConfig)
      → last_role i.role roles none ≡ some rc
      → contains rc.deny_tools (extract_tool_name json req) ≡ true
      → req.method ≡ method_tools_call
      → (d : Denial) × (process json e req i ≡ err d)
  denied_tool_denied rc last listed m = denied_of_not_ok λ e' p.
      let (perm, found, _, checked) = process_inv json e req i p (call_ne_initialize req m) in
      let (rc', last', _, same) = role_source found in
      let (_, undenied, _, _) =
        check_tool_inv e perm i (extract_tool_name json req) (rw (call_test req m) at checked) in
      cc (
        last,
        last',
        same,
        compile_deny_tools rc (new_engine roles classification).level_rank,
        denies-set_or_nil rc.deny_tools (extract_tool_name json req),
      )

  -- A `restricted` client whose role lists allowed tools calls only tools of that list.
  pub restricted_allowed :
      (rc : RoleConfig) {e' : Engine}
      → i.role ≡ role_restricted
      → last_role i.role roles none ≡ some rc
      → rc.allowed_tools ≢ []
      → req.method ≡ method_tools_call
      → process json e req i ≡ ok e'
      → contains rc.allowed_tools (extract_tool_name json req) ≡ true
  restricted_allowed rc r last some_listed m p =
      let (perm, found, _, checked) = process_inv json e req i p (call_ne_initialize req m) in
      let (rc', last', name, same) = role_source found in
      let (_, _, allowed, _) =
        check_tool_inv e perm i (extract_tool_name json req) (rw (call_test req m) at checked) in
      let ranks = (new_engine roles classification).level_rank in
      let named = last_role_name i.role roles none rc (λ rc' q. cc) last in
      cc (
        last,
        last',
        same,
        compile_allowed_tools rc ranks (named ∙ r),
        allows-set_or_nil rc.allowed_tools (extract_tool_name json req) some_listed,
      )

  -- Where a `restricted` role lists no allowed tool, and classification is not configured, the
  -- client may call every tool that the role does not deny.
  pub restricted_open :
      (rc : RoleConfig)
      → i.role ≡ role_restricted
      → last_role i.role roles none ≡ some rc
      → rc.allowed_tools ≡ []
      → classification.tool_assignments ≡ []
      → contains rc.deny_tools (extract_tool_name json req) ≡ false
      → req.method ≡ method_tools_call
      → process json e req i ≡ ok e
  restricted_open rc r last open_to inactive undenied m =
      let ranks = (new_engine roles classification).level_rank in
      let named = last_role_name i.role roles none rc (λ rc' q. cc) last in
      let found : lookup i.role e.permissions ≡ some (compile_role rc ranks) =
        permission_source roles classification e i.role serves ∙ ap (compiled ranks) last in
      let (called, callable, unlisted) = compile_restricted rc ranks (named ∙ r) open_to in
      let inactive_ranks : e.level_rank ≡ none = serves.level_rank ∙ ranks_inactive inactive in
      process_call json e req i found m called
      ∙ check_tool_open e (compile_role rc ranks) i (extract_tool_name json req) callable
          (cc (
            compile_deny_tools rc ranks,
            denies-set_or_nil rc.deny_tools (extract_tool_name json req),
          ))
          unlisted inactive_ranks
