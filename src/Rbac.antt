-- ===== src/Rbac.antt =====
-- internal/rbac/engine.go and roles.go: the compiled permissions of each role, the decision on a
-- request, the classification floor of a session, and the filter of a tools/list result. A method
-- that writes the engine's map returns the new engine beside its result.
pub mod Decision
pub mod Floors
pub mod Sessions
pub mod Filtering
pub mod Roles
pub mod Policy
pub mod Races
mod Tests
use mcp_zero_trust_proxy.Base.{
  ℕ, ◌+◌, String, Bool, true, false, ◌&&◌, not, Option, none, some, List, [], ◌∷◌, ltb, ◌==◌,
  if◌then◌else◌, is_empty, contains, keep, Dict, lookup, insert, Result, ok, err, ℤ, pos, negsuc,
  ltb_ℤ, leb_ℤ,
}
use mcp_zero_trust_proxy.Protocol.{
  Bytes, Codec, McpRequest, ClientIdentity, ToolEntry, extract_tool_name, method_initialize,
  method_tools_list, method_tools_call, method_resources_read, method_prompts_get,
}

abbrev pub role_admin : String
role_admin = "admin"

abbrev pub role_read_only : String
role_read_only = "readonly"

abbrev pub role_restricted : String
role_restricted = "restricted"

-- The part of `config.RoleConfig` that the engine reads.
pub record RoleConfig : Type 0 where
  pub name : String
  pub allowed_tools : List String
  pub deny_tools : List String
  pub classification_level : String

-- `config.ClassificationConfig`.
pub record ClassificationConfig : Type 0 where
  pub levels : List String
  pub tool_assignments : Dict String

-- A nil set is `none`; a set lists its members.
pub record Permission : Type 0 where
  pub allowed_methods : Option (List String)
  pub allowed_tools : Option (List String)
  pub deny_tools : Option (List String)
  pub deny_tools_call : Bool
  pub max_class_level : ℤ

-- A nil `session_floors` reads as an empty map.
pub record Engine : Type 0 where
  pub permissions : Dict Permission
  pub level_rank : Option (Dict ℕ)
  pub tool_classification : Option (Dict String)
  pub session_floors : Dict ℕ

-- The denials, with the values that their messages name.
pub data Denial : Type 0 where
  unknown_role : String → Denial
  method_not_allowed : String → String → Denial
  tools_call_denied : String → Denial
  tool_denied : String → String → Denial
  tool_not_allowed : String → String → Denial
  above_role_level : String → String → Denial
  below_session_floor : String → Denial

-- `make` and a loop of writes, or nil for no items.
abbrev set_or_nil : List String → Option (List String)
set_or_nil [] = none
set_or_nil (t ∷ ts) = some (t ∷ ts)

unfoldable pub class_level : RoleConfig → Option (Dict ℕ) → ℤ
class_level rc none = negsuc 0
class_level rc (some ranks) =
    if rc.classification_level == ""
    then negsuc 0
    else (elim (lookup rc.classification_level ranks) [ none ↦ negsuc 0 | some rank ↦ pos rank ])

abbrev pub list_methods : List String
list_methods =
    method_initialize ∷ method_tools_list ∷ method_resources_read ∷ method_prompts_get ∷ []

abbrev pub call_methods : List String
call_methods =
    method_initialize ∷ method_tools_list ∷ method_tools_call ∷ method_resources_read
    ∷ method_prompts_get ∷ []

unfoldable pub compile_role : RoleConfig → Option (Dict ℕ) → Permission
unfolding class_level
compile_role rc ranks =
    if rc.name == role_admin
    then record {
      allowed_methods = none;
      allowed_tools = none;
      deny_tools = set_or_nil rc.deny_tools;
      deny_tools_call = false;
      max_class_level = class_level rc ranks;
    }
    else if rc.name == role_read_only
    then record {
      allowed_methods = some list_methods;
      allowed_tools = none;
      deny_tools = set_or_nil rc.deny_tools;
      deny_tools_call = true;
      max_class_level = class_level rc ranks;
    }
    else if rc.name == role_restricted
    then record {
      allowed_methods = some call_methods;
      allowed_tools = set_or_nil rc.allowed_tools;
      deny_tools = set_or_nil rc.deny_tools;
      deny_tools_call = false;
      max_class_level = class_level rc ranks;
    }
    else record {
      allowed_methods = some [];
      allowed_tools = some [];
      deny_tools = set_or_nil rc.deny_tools;
      deny_tools_call = false;
      max_class_level = class_level rc ranks;
    }

-- `for i, lvl := range levels { ranks[lvl] = i }`
unfoldable pub rank_levels : ℕ → List String → Dict ℕ → Dict ℕ
rank_levels i [] ranks = ranks
rank_levels i (lvl ∷ levels) ranks = rank_levels (i + 1) levels (insert lvl i ranks)

unfoldable pub compile_roles : List RoleConfig → Option (Dict ℕ) → Dict Permission → Dict Permission
compile_roles [] ranks perms = perms
compile_roles (rc ∷ roles) ranks perms =
    compile_roles roles ranks (insert rc.name (compile_role rc ranks) perms)

unfoldable pub new_engine : List RoleConfig → ClassificationConfig → Engine
new_engine roles classification =
    let active =
      not (is_empty classification.levels) && not (is_empty classification.tool_assignments) in
    let ranks = if active then some (rank_levels 0 classification.levels []) else none in
    record {
      permissions = compile_roles roles ranks [];
      level_rank = ranks;
      tool_classification = if active then some classification.tool_assignments else none;
      session_floors = [];
    }

-- An unassigned tool, or one assigned to an unknown level, has rank 0.
unfoldable pub tool_rank : Dict ℕ → Dict String → String → ℕ
tool_rank ranks tools tool = elim (lookup tool tools) [
  | none ↦ 0
  | some level ↦ elim (lookup level ranks) [ none ↦ 0 | some rank ↦ rank ]
]

abbrev pub below_floor : ℕ → Option ℕ → Bool
below_floor rank none = false
below_floor rank (some floor) = ltb rank floor

-- `!hasFloor || toolRank > floors[session]`: `held` is the floor read before the check, `floor` the
-- one read under the write lock.
abbrev pub raises : ℕ → Option ℕ → Option ℕ → Bool
raises rank none floor = true
raises rank (some _) none = ltb 0 rank
raises rank (some _) (some floor) = ltb floor rank

-- The write under the lock, after the check has passed.
unfoldable pub write_floor : Engine → String → ℕ → Option ℕ → Engine
write_floor e session rank held =
    if raises rank held (lookup session e.session_floors)
    then record e { session_floors = insert session rank e.session_floors }
    else e

unfoldable pub exceeds_role : ℤ → ℕ → Bool
exceeds_role level rank = leb_ℤ (pos 0) level && ltb_ℤ level (pos rank)

-- `checkClassification` with the permission of the identity's role, which `Process` has found.
unfoldable pub check_classification :
    Engine → Dict ℕ → Dict String → Permission → ClientIdentity → String → Result Denial Engine
check_classification e ranks tools perm identity tool =
    let rank = tool_rank ranks tools tool in
    let held = lookup identity.session_id e.session_floors in
    if exceeds_role perm.max_class_level rank
    then err (above_role_level tool identity.role)
    else if below_floor rank held
    then err (below_session_floor tool)
    else ok (write_floor e identity.session_id rank held)

-- A nil set of denied tools denies nothing; a nil set of allowed tools or methods allows all.
abbrev pub denies : Option (List String) → String → Bool
denies none s = false
denies (some set) s = contains set s

abbrev pub allows : Option (List String) → String → Bool
allows none s = true
allows (some set) s = contains set s

unfoldable pub classified :
    Engine
    → Permission
    → ClientIdentity
    → String
    → Option (Dict ℕ)
    → Option (Dict String)
    → Result Denial Engine
classified e perm identity tool none tools = ok e
classified e perm identity tool (some ranks) none = ok e
classified e perm identity tool (some ranks) (some tools) =
    check_classification e ranks tools perm identity tool

-- The checks of `Process` on a tools/call.
unfoldable pub check_tool : Engine → Permission → ClientIdentity → String → Result Denial Engine
check_tool e perm identity tool =
    if perm.deny_tools_call
    then err (tools_call_denied identity.role)
    else if denies perm.deny_tools tool
    then err (tool_denied tool identity.role)
    else if not (allows perm.allowed_tools tool)
    then err (tool_not_allowed tool identity.role)
    else classified e perm identity tool e.level_rank e.tool_classification

module _ (json : Codec) where
  -- `ok` carries the engine after the request; a denial leaves the engine as it was.
  unfoldable pub process : Engine → McpRequest → ClientIdentity → Result Denial Engine
  process e req identity =
      if req.method == method_initialize then ok e else (elim (lookup identity.role e.permissions) [
        | none ↦ err (unknown_role identity.role)
        | some perm ↦
            if not (allows perm.allowed_methods req.method)
            then err (method_not_allowed identity.role req.method)
            else if req.method == method_tools_call
            then check_tool e perm identity (extract_tool_name json req)
            else ok e
      ])

-- The classification tests of the loop of `FilterToolsList`.
unfoldable pub is_visible : Engine → Permission → ClientIdentity → String → Bool
is_visible e perm identity tool = elim e.level_rank [
  | none ↦ true
  | some ranks ↦ elim e.tool_classification [
    | none ↦ true
    | some tools ↦
        not (exceeds_role perm.max_class_level (tool_rank ranks tools tool))
        && not
            (below_floor (tool_rank ranks tools tool) (lookup identity.session_id e.session_floors))
  ]
]

unfoldable pub filter_tools :
    Engine → Permission → ClientIdentity → List String → List ToolEntry → List ToolEntry
filter_tools e perm identity allowed tools =
    keep (λ tool. contains allowed tool.name && is_visible e perm identity tool.name) tools

module _ (json : Codec) where
  -- `none` is an error of `encoding/json`.
  unfoldable pub filter_tools_list : Engine → ClientIdentity → Bytes → Option Bytes
  filter_tools_list e identity tools_list = elim (lookup identity.role e.permissions) [
    | none ↦ json.marshal_tools []
    | some perm ↦ elim perm.allowed_tools [
      | none ↦ some tools_list
      | some allowed ↦
          if perm.deny_tools_call
          then some tools_list
          else (elim (json.unmarshal_tools tools_list) [
            | none ↦ none
            | some tools ↦ json.marshal_tools (filter_tools e perm identity allowed tools)
          ])
    ]
  ]
