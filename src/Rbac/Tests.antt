-- ===== src/Rbac/Tests.antt =====
-- Runs of the engine on a small configuration, and instances of its theorems.
use mcp_zero_trust_proxy.Base.{
  ◌<◌, String, ◌≡◌, ◌↔◌, refl, arith, true, false, none, some, List, [], ◌∷◌, lookup, ok, err, In,
  is_ok, contains, insert, pos,
}
use mcp_zero_trust_proxy.Protocol.{ClientIdentity, ToolEntry, extract_tool_name}
use mcp_zero_trust_proxy.Protocol.Samples.{
  sample_codec, read_call, delete_call, list_request, client_of,
}
use mcp_zero_trust_proxy.Rbac.{
  Engine, Permission, RoleConfig, ClassificationConfig, Denial, below_session_floor, new_engine,
  process, check_tool, filter_tools, denies, compile_roles, compile_role, classified,
  check_classification, exceeds_role, write_floor, tool_rank, rank_levels,
}
use mcp_zero_trust_proxy.Rbac.Floors.{FloorLe, Raised-refl}
use mcp_zero_trust_proxy.Rbac.Sessions.{run, no_declassification}
use mcp_zero_trust_proxy.Rbac.Roles.{last_role}
use mcp_zero_trust_proxy.Rbac.Policy.{restricted_allowed}
use mcp_zero_trust_proxy.Rbac.Filtering.{filter_tools_iff}
use mcp_zero_trust_proxy.Rbac.Races.{World, Reach, here, next, read, IsSettled, floor_race}

abbrev role : String → List String → List String → RoleConfig
role name allowed deny = record {
  name = name;
  allowed_tools = allowed;
  deny_tools = deny;
  classification_level = "";
}

abbrev sample_roles : List RoleConfig
sample_roles =
    role "admin" [] []
    ∷ role "readonly" [] []
    ∷ role "restricted" ("read_file" ∷ []) ("delete_db" ∷ [])
    ∷ []

abbrev two_levels : ClassificationConfig
two_levels = record {
  levels = "Public" ∷ "Secret" ∷ [];
  tool_assignments = ("read_file", "Secret") ∷ [];
}

abbrev unclassified : ClassificationConfig
unclassified = record { levels = []; tool_assignments = [] }

abbrev sample_engine : Engine
sample_engine = new_engine sample_roles two_levels

abbrev plain_engine : Engine
plain_engine = new_engine sample_roles unclassified

abbrev admin : ClientIdentity
admin = client_of "admin" "s1"

abbrev floored : Engine
floored = record sample_engine { session_floors = ("s1", 1) ∷ [] }

-- A call of the secret tool is allowed, and sets the session's floor.
read_allowed : process sample_codec sample_engine read_call admin ≡ ok floored
unfolding process lookup new_engine compile_roles insert compile_role check_tool classified
    check_classification exceeds_role write_floor tool_rank extract_tool_name rank_levels
read_allowed = refl

-- The public tool is then closed to the session.
delete_denied :
    process sample_codec floored delete_call admin ≡ err (below_session_floor "delete_db")
unfolding process lookup new_engine compile_roles insert compile_role check_tool classified
    check_classification exceeds_role write_floor tool_rank extract_tool_name rank_levels
delete_denied = refl

assigned :
    (sample_engine.level_rank ≡ some (("Public", 0) ∷ ("Secret", 1) ∷ []))
    × (sample_engine.tool_classification ≡ some (("read_file", "Secret") ∷ []))
unfolding new_engine rank_levels insert
assigned = (refl, refl)

ranked :
    tool_rank
      (("Public", 0) ∷ ("Secret", 1) ∷ [])
      (("read_file", "Secret") ∷ [])
      (extract_tool_name sample_codec delete_call)
    < tool_rank
        (("Public", 0) ∷ ("Secret", 1) ∷ [])
        (("read_file", "Secret") ∷ [])
        (extract_tool_name sample_codec read_call)
unfolding tool_rank lookup extract_tool_name
ranked = omega arith

no_declassification_example :
    (d : Denial) × (process sample_codec
        (run sample_codec floored ((list_request, admin) ∷ []))
        delete_call
        admin
      ≡ err d)
no_declassification_example =
    no_declassification sample_codec sample_engine (("Public", 0) ∷ ("Secret", 1) ∷ [])
      (("read_file", "Secret") ∷ []) read_call delete_call admin admin ((list_request, admin) ∷ [])
      assigned.0 assigned.1 refl refl refl read_allowed ranked

abbrev reader : ClientIdentity
reader = client_of "readonly" "s1"

abbrev auditor : ClientIdentity
auditor = client_of "auditor" "s1"

abbrev worker : ClientIdentity
worker = client_of "restricted" "s1"

abbrev worker_role : RoleConfig
worker_role = role "restricted" ("read_file" ∷ []) ("delete_db" ∷ [])

worker_role_last : last_role "restricted" sample_roles none ≡ some worker_role
unfolding last_role
worker_role_last = refl

read_by_worker : process sample_codec plain_engine read_call worker ≡ ok plain_engine
unfolding process lookup new_engine compile_roles insert compile_role check_tool classified
    extract_tool_name contains
read_by_worker = refl

restricted_allowed_example :
    contains ("read_file" ∷ []) (extract_tool_name sample_codec read_call) ≡ true
restricted_allowed_example =
    restricted_allowed sample_codec sample_roles unclassified plain_engine
      (Raised-refl plain_engine) read_call worker worker_role refl worker_role_last (λ h. cc) refl
      read_by_worker

abbrev open_role : RoleConfig
open_role = role "restricted" [] []

abbrev open_engine : Engine
open_engine = new_engine (open_role ∷ []) unclassified

open_role_last : last_role "restricted" (open_role ∷ []) none ≡ some open_role
unfolding last_role
open_role_last = refl

abbrev tool_named : String → ToolEntry
tool_named name = record { name = name; description = ""; input_schema = [] }

abbrev worker_permission : Permission
worker_permission = record {
  allowed_methods = none;
  allowed_tools = some ("read_file" ∷ []);
  deny_tools = some ("delete_db" ∷ []);
  deny_tools_call = false;
  max_class_level = pos 1;
}

filter_tools_iff_example :
    (In (tool_named "read_file") (
        filter_tools sample_engine worker_permission worker
          ("read_file" ∷ [])
          (tool_named "read_file" ∷ tool_named "delete_db" ∷ []))
      × (denies worker_permission.deny_tools "read_file" ≡ false))
    ↔ (In (tool_named "read_file") (tool_named "read_file" ∷ tool_named "delete_db" ∷ [])
        × (is_ok (check_tool sample_engine worker_permission worker "read_file") ≡ true))
filter_tools_iff_example =
    filter_tools_iff sample_engine worker_permission worker ("read_file" ∷ [])
      (tool_named "read_file") (tool_named "read_file" ∷ tool_named "delete_db" ∷ []) refl refl

abbrev resting : World
resting = record { engine = floored; pending = [] }

-- A call of rank 1 reads and then writes.
abbrev reading : World
reading = record {
  engine = floored;
  pending = record { session = "s1"; rank = 1; held = some 1 } ∷ [];
}

floor_held : lookup "s1" floored.session_floors ≡ some 1
unfolding lookup
floor_held = refl

resting-IsSettled : IsSettled "s1" resting
resting-IsSettled = record { has_floor = λ h. let q = floor_held in cc; holds = tt }

Reach-reading : Reach resting reading
unfolding lookup
Reach-reading = next here (read resting "s1" 1 refl)

fresh_session : lookup "s1" sample_engine.session_floors ≡ none
unfolding new_engine lookup
fresh_session = refl

floor_race_example :
    (mid last : World) × Reach (record { engine = sample_engine; pending = [] }) mid
    × (lookup "s1" mid.engine.session_floors ≡ some 1)
    × Reach mid last
    × (lookup "s1" last.engine.session_floors ≡ some 0)
    × ¬ FloorLe (lookup "s1" mid.engine.session_floors) (lookup "s1" last.engine.session_floors)
floor_race_example = floor_race sample_engine "s1" 0 1 fresh_session (omega arith)
