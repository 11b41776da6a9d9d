-- ===== src/Config/Validate/Roles.antt =====
-- internal/config/config.go, `Validate` on the roles and on the rules that give them to users.
use mcp_zero_trust_proxy.Base.{
  ℕ, ◌+◌, String, Bool, false, ◌&&◌, ◌||◌, not, List, [], ◌∷◌, ◌++◌, ◌==◌, if◌then◌else◌, contains,
  Dict,
}
use mcp_zero_trust_proxy.Http.{bytes_of}
use mcp_zero_trust_proxy.Rbac.{RoleConfig}
use mcp_zero_trust_proxy.Auth.Login.{ClaimRule}
use mcp_zero_trust_proxy.Config.{UserRolesConfig}
use mcp_zero_trust_proxy.Config.Defaults.{built_in_role_names}
use mcp_zero_trust_proxy.Config.Validate.{
  ConfigError, role_name_required, undefined_role, claim_required, unknown_operator,
  invalid_claim_regex, Checks, when, add_seen,
}

-- A role that is named.
unfoldable pub add_role : String → List String → List String
add_role role names = if role == "" then names else add_seen role names

unfoldable pub role_errors : List RoleConfig → List ConfigError
role_errors [] = []
role_errors (r ∷ rs) = when (r.name == "") role_name_required ++ role_errors rs

unfoldable pub add_roles : List RoleConfig → List String → List String
add_roles [] names = names
add_roles (r ∷ rs) names = add_roles rs (add_role r.name names)

unfoldable pub add_mapped : Dict String → List String → List String
add_mapped [] names = names
add_mapped ((email, role) ∷ mapping) names = add_mapped mapping (add_role role names)

unfoldable pub add_claimed : List ClaimRule → List String → List String
add_claimed [] names = names
add_claimed (rule ∷ rules) names = add_claimed rules (add_role rule.role names)

-- The set of all role names, in one order in which it may be visited.
unfoldable pub all_role_names : List RoleConfig → UserRolesConfig → List String
all_role_names roles users =
    add_claimed users.claim_mapping
      (add_mapped users.mapping (add_role users.default (add_roles roles [])))

unfoldable pub is_defined : List RoleConfig → String → Bool
is_defined [] name = false
is_defined (r ∷ rs) name = r.name == name || is_defined rs name

unfoldable pub undefined_roles : List RoleConfig → List String → List ConfigError
undefined_roles roles [] = []
undefined_roles roles (name ∷ names) =
    when (not (contains built_in_role_names name) && not (is_defined roles name))
      (undefined_role name)
    ++ undefined_roles roles names

abbrev pub valid_operators : List String
valid_operators = "equals" ∷ "contains" ∷ "starts_with" ∷ "ends_with" ∷ "regex" ∷ []

unfoldable pub claim_errors : Checks → ℕ → List ClaimRule → List ConfigError
claim_errors checks i [] = []
claim_errors checks i (rule ∷ rules) =
    when (rule.claim == "") (claim_required i)
    ++ (when (not (contains valid_operators rule.operator)) (unknown_operator i rule.operator)
        ++ (when (rule.operator == "regex" && not (checks.compiles (bytes_of rule.value)))
              (invalid_claim_regex i)
            ++ claim_errors checks (i + 1) rules))

unfoldable pub check_roles : Checks → List RoleConfig → UserRolesConfig → List ConfigError
check_roles checks roles users =
    role_errors roles
    ++ (undefined_roles roles (all_role_names roles users)
        ++ claim_errors checks 1 users.claim_mapping)
