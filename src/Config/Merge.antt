-- ===== src/Config/Merge.antt =====
-- internal/config/config.go, `mergeRoles`: which entry counts for a role's name after the merge.
use mcp_zero_trust_proxy.Base.{
  String, ◌≡◌, refl, sym, ◌∙◌, ap, true, false, Option, none, some, List, [], ◌∷◌, ◌++◌, ◌==◌,
  eq_iff, arith, if◌then◌else◌, contains, keep, Dict, lookup, insert, lookup-insert, Bool-cases,
  inl, inr,
}
use mcp_zero_trust_proxy.Rbac.{RoleConfig}
use mcp_zero_trust_proxy.Rbac.Roles.{last_role, last_role_name}
use mcp_zero_trust_proxy.Config.Validate.Roles.{is_defined}
use mcp_zero_trust_proxy.Config.Defaults.{
  built_in_role_names, default_roles, user_roles_from, or_role, override, is_custom, merge_roles,
}

user_roles_from-last :
    (name : String) (roles : List RoleConfig) (d : Dict RoleConfig)
    → lookup name (user_roles_from roles d) ≡ last_role name roles (lookup name d)
unfolding user_roles_from last_role
user_roles_from-last name [] d = refl
user_roles_from-last name (r ∷ rs) d =
    user_roles_from-last name rs (insert r.name r d)
    ∙ ap (last_role name rs) (lookup-insert r.name name r d)

last_role-append :
    (name : String) (xs ys : List RoleConfig) (found : Option RoleConfig)
    → last_role name (xs ++ ys) found ≡ last_role name ys (last_role name xs found)
unfolding last_role
last_role-append name [] ys found = refl
last_role-append name (x ∷ xs) ys found =
    last_role-append name xs ys (if x.name == name then some x else found)

same_set :
    (a b : String)
    → (a == b) ≡ true
    → contains built_in_role_names a ≡ contains built_in_role_names b
same_set a b e = ap (contains built_in_role_names) ((eq_iff a b).0 e)

-- Custom roles keep their entries; no other role has one among them.
last_role-keep :
    (name : String) (roles : List RoleConfig) (found : Option RoleConfig)
    → last_role name (keep is_custom roles) found
      ≡ (if contains built_in_role_names name then found else last_role name roles found)
unfolding last_role keep
last_role-keep name [] found = elim (Bool-cases (contains built_in_role_names name)) [
  | inl p ↦ rw p refl
  | inr p ↦ rw p refl
]
last_role-keep name (r ∷ rs) found = ground (
  arith,
  last_role-keep name rs found,
  last_role-keep name rs (if r.name == name then some r else found),
  same_set r.name name,
)

-- Each entry of the map has its key as its name.
abbrev IsNamed : Dict RoleConfig → Type 0
IsNamed users = (key : String) (r : RoleConfig) → lookup key users ≡ some r → r.name ≡ key

module _ (users : Dict RoleConfig) (named : IsNamed users) (name : String) where
  -- The entries of `override` that count for a name.
  abbrev counted : Option RoleConfig → List RoleConfig → Option RoleConfig → Option RoleConfig
  counted none ds found = last_role name ds found
  counted (some u) ds found = if is_defined ds name then some u else found

  picked_name :
      (d : RoleConfig) (held : Option RoleConfig)
      → lookup d.name users ≡ held
      → (or_role held d).name ≡ d.name
  picked_name d none h = refl
  picked_name d (some u) h = named d.name u h

  picked :
      (d : RoleConfig) (found held : Option RoleConfig)
      → lookup name users ≡ held
      → (if (or_role (lookup d.name users) d).name == name
          then some (or_role (lookup d.name users) d)
          else found)
        ≡ (if d.name == name then some (or_role held d) else found)
  picked d found held h =
      rw (picked_name d (lookup d.name users) refl) (elim (Bool-cases (d.name == name)) [
        | inl e ↦
            let same : lookup d.name users ≡ held =
              ap (λ k. lookup k users) ((eq_iff d.name name).0 e) ∙ h in
            rw (e, same) refl
        | inr e ↦ rw e refl
      ])

  counted_next :
      (held : Option RoleConfig) (d : RoleConfig) (ds : List RoleConfig) (found : Option RoleConfig)
      → counted held ds (if d.name == name then some (or_role held d) else found)
        ≡ counted held (d ∷ ds) found
  unfolding last_role is_defined
  counted_next none d ds found = refl
  counted_next (some u) d ds found = ground arith

  override-last :
      (ds : List RoleConfig) (found held : Option RoleConfig)
      → lookup name users ≡ held
      → last_role name (override users ds) found ≡ counted held ds found
  unfolding last_role override is_defined
  override-last [] found none h = refl
  override-last [] found (some u) h = refl
  override-last (d ∷ ds) found held h =
      ap (last_role name (override users ds)) (picked d found held h)
      ∙ override-last ds (if d.name == name then some (or_role held d) else found) held h
      ∙ counted_next held d ds found

user_roles-IsNamed : (roles : List RoleConfig) → IsNamed (user_roles_from roles [])
unfolding lookup
user_roles-IsNamed roles key r h =
    last_role_name key roles none r (λ rc q. cc) (sym (user_roles_from-last key roles []) ∙ h)

-- The entry that counts after the merge: the configuration's, else the built-in one.
abbrev pub or_built_in : String → Option RoleConfig → Option RoleConfig
or_built_in name none = last_role name default_roles none
or_built_in name (some r) = some r

pub defaults_named :
    (name : String) → is_defined default_roles name ≡ contains built_in_role_names name
unfolding is_defined contains
defaults_named name = refl

defaults_other :
    (name : String)
    → contains built_in_role_names name ≡ false
    → last_role name default_roles none ≡ none
unfolding last_role contains
defaults_other name h = ground arith

counted_all :
    (users : Dict RoleConfig) (named : IsNamed users) (name : String) (roles : List RoleConfig)
    (held : Option RoleConfig)
    → last_role name roles none ≡ held
    → (if contains built_in_role_names name
        then counted users named name held default_roles none
        else last_role name roles (counted users named name held default_roles none))
      ≡ or_built_in name held
counted_all users named name roles none h = elim (Bool-cases (contains built_in_role_names name)) [
  | inl p ↦ rw p refl
  | inr p ↦ rw (p, defaults_other name p) h
]
counted_all users named name roles (some u) h =
    rw (defaults_named name)
      (elim (Bool-cases (contains built_in_role_names name)) [ inl p ↦ rw p refl | inr p ↦ rw p h ])

-- The entry that counts for a name after `mergeRoles` is the one that counted before, the last of the
-- configuration, or else the built-in role of that name; no other role is added.
pub merge_roles-last :
    (name : String) (roles : List RoleConfig)
    → last_role name (merge_roles roles) none ≡ or_built_in name (last_role name roles none)
unfolding merge_roles lookup
merge_roles-last name roles =
    let users = user_roles_from roles [] in
    let named = user_roles-IsNamed roles in
    let held = last_role name roles none in
    last_role-append name (override users default_roles) (keep is_custom roles) none
    ∙ last_role-keep name roles (last_role name (override users default_roles) none)
    ∙ ap (λ l. if contains built_in_role_names name then l else last_role name roles l)
        (override-last users named name default_roles none held
          (user_roles_from-last name roles []))
    ∙ counted_all users named name roles held refl
