-- ===== src/Rbac/Roles.antt =====
-- internal/rbac/engine.go, `NewEngine`: from which entry of the configuration the permissions of a
-- role are compiled.
use mcp_zero_trust_proxy.Base.{
  ℕ, String, ◌≡◌, refl, Option, none, some, List, [], ◌∷◌, arith, ◌==◌, eq_iff, if◌then◌else◌, Dict,
  lookup, insert, lookup-insert, Bool-cases, inl, inr,
}
use mcp_zero_trust_proxy.Rbac.{
  Engine, Permission, RoleConfig, ClassificationConfig, compile_role, compile_roles, new_engine,
}
use mcp_zero_trust_proxy.Rbac.Floors.{Raised}

-- The entry that counts for a name: the last of that name, or else `found`.
unfoldable pub last_role : String → List RoleConfig → Option RoleConfig → Option RoleConfig
last_role r [] found = found
last_role r (rc ∷ roles) found = last_role r roles (if rc.name == r then some rc else found)

-- The permissions of a role that the configuration may or may not list.
abbrev pub compiled : Option (Dict ℕ) → Option RoleConfig → Option Permission
compiled ranks none = none
compiled ranks (some rc) = some (compile_role rc ranks)

pub lookup-compile_roles :
    (r : String) (roles : List RoleConfig) (ranks : Option (Dict ℕ)) (perms : Dict Permission)
    (found : Option RoleConfig)
    → lookup r perms ≡ compiled ranks found
    → lookup r (compile_roles roles ranks perms) ≡ compiled ranks (last_role r roles found)
unfolding compile_roles last_role
lookup-compile_roles r [] ranks perms found h = h
lookup-compile_roles r (rc ∷ roles) ranks perms found h =
    lookup-compile_roles r roles ranks (insert rc.name (compile_role rc ranks) perms)
      (if rc.name == r then some rc else found)
      (rw lookup-insert (elim (Bool-cases (rc.name == r)) [ inl p ↦ rw p refl | inr p ↦ rw p h ]))

pub last_role_name :
    (r : String) (roles : List RoleConfig) (found : Option RoleConfig) (rc : RoleConfig)
    → ((rc' : RoleConfig) → found ≡ some rc' → rc'.name ≡ r)
    → last_role r roles found ≡ some rc
    → rc.name ≡ r
unfolding last_role
last_role_name r [] found rc h e = h rc e
last_role_name r (x ∷ roles) found rc h e =
    last_role_name r roles (if x.name == r then some x else found) rc
      (λ rc' q. ground (arith, eq_iff x.name r, h rc')) e

-- An engine that was built from the configuration and has since served requests.
abbrev pub Serves : List RoleConfig → ClassificationConfig → Engine → Type 0
Serves roles classification e = Raised (new_engine roles classification) e

module _ (roles : List RoleConfig) (classification : ClassificationConfig) where
  -- A role's permissions are compiled from the last entry of its name.
  pub permission_source :
      (e : Engine) (r : String)
      → Serves roles classification e
      → lookup r e.permissions
        ≡ compiled (new_engine roles classification).level_rank (last_role r roles none)
  unfolding new_engine lookup
  permission_source e r serves =
      rw serves.permissions
        (lookup-compile_roles r roles (new_engine roles classification).level_rank [] none refl)

pub compiled_inv :
    (ranks : Option (Dict ℕ)) (found : Option RoleConfig) {perm : Permission}
    → compiled ranks found ≡ some perm
    → (rc : RoleConfig) × (found ≡ some rc) × (perm ≡ compile_role rc ranks)
compiled_inv ranks none h = cc
compiled_inv ranks (some rc) h = (rc, refl, cc)
