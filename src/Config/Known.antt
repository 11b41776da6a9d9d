-- ===== src/Config/Known.antt =====
-- From a configuration without errors to the RBAC engine: every role that a user can be given is
-- known to the engine, and every level that is named has a rank.
use mcp_zero_trust_proxy.Base.{
  subst, String, ◌≡◌, ◌≢◌, refl, sym, ◌∙◌, ap, Bool, true, not, ◌&&◌, ◌||◌, Option, none, some,
  List, [], ◌∷◌, ◌==◌, eq_iff, arith, if◌then◌else◌, contains, lookup, ne_of_==, Bool-cases,
  Option-cases, inl, inr,
}
use mcp_zero_trust_proxy.Rbac.{compile_role, RoleConfig, new_engine, Permission}
use mcp_zero_trust_proxy.Rbac.Roles.{last_role, compiled, permission_source}
use mcp_zero_trust_proxy.Rbac.Floors.{Raised-refl}
use mcp_zero_trust_proxy.Auth.Login.{
  Authenticator, Outside, role_for, resolve_role, evaluate_claim_rules, set_user_roles,
  set_claim_rules,
}
use mcp_zero_trust_proxy.Protocol.{ClientIdentity}
use mcp_zero_trust_proxy.Config.{Config, UserRolesConfig}
use mcp_zero_trust_proxy.Config.Defaults.{
  built_in_role_names, default_roles, merge_roles, apply_defaults,
}
use mcp_zero_trust_proxy.Config.Merge.{defaults_named, or_built_in, merge_roles-last}
use mcp_zero_trust_proxy.Config.Validate.{undefined_role, Checks}
use mcp_zero_trust_proxy.Config.Validate.Roles.{
  add_role, add_roles, add_mapped, all_role_names, is_defined, undefined_roles, check_roles,
  role_errors,
}
use mcp_zero_trust_proxy.Config.Validate.Parts.{validate}
use mcp_zero_trust_proxy.Config.Names.{append-nil_inv, ok_first, Has, validate-IsOk}
use mcp_zero_trust_proxy.Config.Given.{
  add_role_self, add_mapped-keeps, add_claimed-keeps, mapped_role, claimed_role,
}

-- Each name that is visited is built in or defined, where there is no error.
names_known :
    (roles : List RoleConfig) (names : List String) (name : String)
    → undefined_roles roles names ≡ []
    → Has names name
    → (contains built_in_role_names name || is_defined roles name) ≡ true
unfolding undefined_roles contains
names_known roles [] name h member = cc
names_known roles (n ∷ ns) name h member =
    let (ok, rest) =
      ok_first (not (contains built_in_role_names n) && not (is_defined roles n)) (undefined_role n)
        (undefined_roles roles ns) h in
    elim (Bool-cases (n == name)) [
      | inl e ↦
          let same : n ≡ name = (eq_iff n name).0 e in
          subst (λ k. (contains built_in_role_names k || is_defined roles k) ≡ true) same
            (ground (arith, ok))
      | inr e ↦ names_known roles ns name rest (ground (arith, member, e))
    ]

last_role-some :
    (roles : List RoleConfig) (name : String) (rc : RoleConfig)
    → (rc' : RoleConfig) × (last_role name roles (some rc) ≡ some rc')
unfolding last_role
last_role-some [] name rc = (rc, refl)
last_role-some (r ∷ rs) name rc = elim (Bool-cases (r.name == name)) [
  | inl e ↦ rw e (last_role-some rs name r)
  | inr e ↦ rw e (last_role-some rs name rc)
]

defined-last :
    (roles : List RoleConfig) (name : String) (found : Option RoleConfig)
    → is_defined roles name ≡ true
    → (rc : RoleConfig) × (last_role name roles found ≡ some rc)
unfolding is_defined last_role
defined-last [] name found h = cc
defined-last (r ∷ rs) name found h = elim (Bool-cases (r.name == name)) [
  | inl e ↦ rw e (last_role-some rs name r)
  | inr e ↦ rw e (defined-last rs name found (ground (arith, h, e)))
]

abbrev known : List RoleConfig → String → Bool
known roles name = contains built_in_role_names name || is_defined roles name

or_built_in-some :
    (name : String) (held : Option RoleConfig)
    → contains built_in_role_names name ≡ true
    → (rc : RoleConfig) × (or_built_in name held ≡ some rc)
or_built_in-some name none h = defined-last default_roles name none (defaults_named name ∙ h)
or_built_in-some name (some rc) h = (rc, refl)

-- A known role has an entry after the merge.
known-last :
    (roles : List RoleConfig) (name : String)
    → known (merge_roles roles) name ≡ true
    → (rc : RoleConfig) × (last_role name (merge_roles roles) none ≡ some rc)
known-last roles name h = elim (Bool-cases (contains built_in_role_names name)) [
  | inl p ↦
      let (rc, q) = or_built_in-some name (last_role name roles none) p in
      (rc, merge_roles-last name roles ∙ q)
  | inr p ↦ defined-last (merge_roles roles) name none (ground (arith, h, p))
]

module _ (o : Outside) (users : UserRolesConfig) (a : Authenticator) where
  -- The authenticator with the mapping, the default role and the rules of the configuration.
  abbrev pub with_users : Authenticator
  with_users =
      set_claim_rules users.claim_mapping (set_user_roles (some users.mapping) users.default a)

  default_known :
      (roles : List RoleConfig) (role : String)
      → (if users.default == "" then "readonly" else users.default) ≡ role
      → undefined_roles roles (all_role_names roles users) ≡ []
      → known roles role ≡ true
  unfolding all_role_names contains
  default_known roles role h ok = elim (Bool-cases (users.default == "")) [
    | inl e ↦
        let same : "readonly" ≡ role = ground (arith, h, e) in
        subst (λ r. known roles r ≡ true) same refl
    | inr e ↦
        let same : users.default ≡ role = ground (arith, h, e) in
        let ne : users.default ≢ "" = ne_of_== users.default "" e in
        let added = add_role_self users.default (add_roles roles []) ne in
        let mapped =
          add_mapped-keeps users.mapping (add_role users.default (add_roles roles [])) users.default
            added in
        subst (λ r. known roles r ≡ true) same
          (names_known roles (all_role_names roles users) users.default ok (
            add_claimed-keeps users.claim_mapping
              (add_mapped users.mapping (add_role users.default (add_roles roles []))) users.default
              mapped))
  ]

  resolved_known :
      (roles : List RoleConfig) (email role : String)
      → resolve_role o with_users email ≡ role
      → role ≢ ""
      → undefined_roles roles (all_role_names roles users) ≡ []
      → known roles role ≡ true
  unfolding all_role_names resolve_role
  resolved_known roles email role h ne ok = elim (Option-cases (lookup email users.mapping)) [
    | inl p ↦ default_known roles role (sym (rw p refl) ∙ h) ok
    | inr (r, p) ↦
        let same : r ≡ role =
          let given : resolve_role o with_users email ≡ r = rw p refl in sym given ∙ h in
        let seen = add_role users.default (add_roles roles []) in
        names_known roles (all_role_names roles users) role ok (
          add_claimed-keeps users.claim_mapping (add_mapped users.mapping seen) role
            (mapped_role users.mapping seen email role (p ∙ ap some same) ne))
  ]

  role_known :
      (roles : List RoleConfig) (i : ClientIdentity)
      → undefined_roles roles (all_role_names roles users) ≡ []
      → role_for o with_users i ≢ ""
      → known roles (role_for o with_users i) ≡ true
  unfolding all_role_names
  role_known roles i ok ne =
      let claimed = evaluate_claim_rules o users.claim_mapping i.claims in
      elim (Bool-cases (claimed == "")) [
        | inl p ↦
            let same : role_for o with_users i ≡ resolve_role o with_users i.email = rw p refl in
            resolved_known roles i.email (role_for o with_users i) (sym same) ne ok
        | inr p ↦
            let same : claimed ≡ role_for o with_users i = rw p refl in
            let seen = add_mapped users.mapping (add_role users.default (add_roles roles [])) in
            names_known roles (all_role_names roles users) (role_for o with_users i) ok
              (claimed_role o users.claim_mapping seen i.claims (role_for o with_users i) same ne)
      ]

-- Under a configuration that is loaded, its defaults filled in, and has no error, a role that the
-- authenticator gives a user has permissions in the engine: no user is denied for an unknown role,
-- but one whom the configuration maps to an empty role.
pub assigned_role_known :
    (checks : Checks) (cfg : Config) (o : Outside) (a : Authenticator) (i : ClientIdentity)
    → validate checks (apply_defaults cfg) ≡ []
    → role_for o (with_users o (apply_defaults cfg).user_roles a) i ≢ ""
    → (perm : Permission) × (lookup
          (role_for o (with_users o (apply_defaults cfg).user_roles a) i)
          (new_engine (apply_defaults cfg).roles (apply_defaults cfg).classification).permissions
        ≡ some perm)
unfolding apply_defaults validate check_roles
assigned_role_known checks cfg o a i ok ne =
    let loaded = apply_defaults cfg in
    let (_, after) =
      append-nil_inv (role_errors loaded.roles) (validate-IsOk checks loaded ok).roles in
    let (named, _) =
      append-nil_inv (undefined_roles loaded.roles (all_role_names loaded.roles loaded.user_roles))
        after in
    let (rc, last) =
      known-last cfg.roles (role_for o (with_users o loaded.user_roles a) i)
        (role_known o loaded.user_roles a loaded.roles i named ne) in
    let ranks = (new_engine loaded.roles loaded.classification).level_rank in
    (
      compile_role rc ranks,
      permission_source loaded.roles loaded.classification
            (new_engine loaded.roles loaded.classification)
            (role_for o (with_users o loaded.user_roles a) i) (Raised-refl _)
          ∙ ap (compiled ranks) last,
    )
