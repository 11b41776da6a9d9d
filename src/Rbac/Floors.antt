-- ===== src/Rbac/Floors.antt =====
-- The classification floor of a session: requests only raise it, and a call that has been allowed
-- bars the session from the tools below it.
use mcp_zero_trust_proxy.Base.{
  ℕ, ◌≤◌, String, ◌≡◌, ◌≢◌, refl, sym, ◌∙◌, subst, Bool, true, false, Option, none, some, arith,
  ◌==◌, eq_iff, if◌then◌else◌, lookup, lookup-insert, ==_self, ne_of_==, ok, Bool-cases, inl, inr,
  Dict,
}
use mcp_zero_trust_proxy.Protocol.{
  Codec, McpRequest, ClientIdentity, extract_tool_name, method_initialize, method_tools_call,
}
use mcp_zero_trust_proxy.Rbac.{
  Engine, Permission, tool_rank, below_floor, write_floor, check_classification, classified,
  check_tool, process,
}
use mcp_zero_trust_proxy.Rbac.Decision.{check_classification_inv, check_tool_inv, process_inv}

-- No floor lies below every floor.
abbrev pub FloorLe : Option ℕ → Option ℕ → Type 0
FloorLe none _ = Unit
FloorLe (some n) none = ⊥
FloorLe (some n) (some m) = n ≤ m

pub FloorLe-refl : (a : Option ℕ) → FloorLe a a
FloorLe-refl none = tt
FloorLe-refl (some n) = omega arith

pub FloorLe-trans : (a b c : Option ℕ) → FloorLe a b → FloorLe b c → FloorLe a c
FloorLe-trans none b c h k = tt
FloorLe-trans (some n) none c h k = absurd h
FloorLe-trans (some n) (some m) none h k = absurd k
FloorLe-trans (some n) (some m) (some l) h k = omega arith

-- The rules are those of `a`, and no session's floor is lower than in `a`.
pub record Raised (a b : Engine) : Type 0 where
  pub permissions : b.permissions ≡ a.permissions
  pub level_rank : b.level_rank ≡ a.level_rank
  pub tool_classification : b.tool_classification ≡ a.tool_classification
  pub floors : (s : String) → FloorLe (lookup s a.session_floors) (lookup s b.session_floors)

pub Raised-refl : (e : Engine) → Raised e e
Raised-refl e = record {
  permissions = refl;
  level_rank = refl;
  tool_classification = refl;
  floors = λ s. FloorLe-refl (lookup s e.session_floors);
}

write_floor_floors :
    (e : Engine) (session : String) (rank : ℕ) (s : String)
    → below_floor rank (lookup session e.session_floors) ≡ false
    → lookup s (write_floor e session rank (lookup session e.session_floors)).session_floors
      ≡ (if session == s then some rank else lookup s e.session_floors)
unfolding write_floor
write_floor_floors e session rank s h =
    ground (arith, lookup-insert session s rank e.session_floors, eq_iff session s)

FloorLe-write :
    (rank : ℕ) (b : Bool) (p : Option ℕ)
    → (b ≡ true → below_floor rank p ≡ false)
    → FloorLe p (if b then some rank else p)
FloorLe-write rank true none h = tt
FloorLe-write rank true (some n) h = let k = h refl in ground arith
FloorLe-write rank false p h = FloorLe-refl p

write_floor-Raised :
    (e : Engine) (session : String) (rank : ℕ)
    → below_floor rank (lookup session e.session_floors) ≡ false
    → Raised e (write_floor e session rank (lookup session e.session_floors))
unfolding write_floor
write_floor-Raised e session rank h = record {
  permissions = ground arith;
  level_rank = ground arith;
  tool_classification = ground arith;
  floors = λ s. rw (write_floor_floors e session rank s h) (
      FloorLe-write rank (session == s) (lookup s e.session_floors) λ q.
        subst (λ t. below_floor rank (lookup t e.session_floors) ≡ false) ((eq_iff session s).0 q)
          h);
}

check_classification-Raised :
    (e : Engine) (ranks : Dict ℕ) (tools : Dict String) (perm : Permission) (i : ClientIdentity)
    (tool : String) {e' : Engine}
    → check_classification e ranks tools perm i tool ≡ ok e'
    → Raised e e'
check_classification-Raised e ranks tools perm i tool h =
    let (above, wrote) = check_classification_inv e ranks tools perm i tool h in
    rw wrote (write_floor-Raised e i.session_id (tool_rank ranks tools tool) above)

classified-Raised :
    (e : Engine) (perm : Permission) (i : ClientIdentity) (tool : String) (ranks : Option (Dict ℕ))
    (tools : Option (Dict String)) {e' : Engine}
    → classified e perm i tool ranks tools ≡ ok e'
    → Raised e e'
unfolding classified
classified-Raised e perm i tool none tools h = subst (Raised e) (cc) (Raised-refl e)
classified-Raised e perm i tool (some ranks) none h = subst (Raised e) (cc) (Raised-refl e)
classified-Raised e perm i tool (some ranks) (some tools) h =
    check_classification-Raised e ranks tools perm i tool h

check_tool-Raised :
    (e : Engine) (perm : Permission) (i : ClientIdentity) (tool : String) {e' : Engine}
    → check_tool e perm i tool ≡ ok e'
    → Raised e e'
check_tool-Raised e perm i tool h =
    let (_, _, _, checked) = check_tool_inv e perm i tool h in
    classified-Raised e perm i tool e.level_rank e.tool_classification checked

pub call_test :
    (req : McpRequest) → req.method ≡ method_tools_call → (req.method == method_tools_call) ≡ true
call_test req m = (eq_iff _ _).1 m

pub call_test_initialize :
    (req : McpRequest) → req.method ≡ method_tools_call → (req.method == method_initialize) ≡ false
call_test_initialize req m = rw m

pub call_ne_initialize :
    (req : McpRequest) → req.method ≡ method_tools_call → req.method ≢ method_initialize
call_ne_initialize req m q = cc ((eq_iff method_tools_call method_initialize).1 (sym m ∙ q))

module _ (json : Codec) where
  process_initialize :
      (e : Engine) (req : McpRequest) (i : ClientIdentity)
      → (req.method == method_initialize) ≡ true
      → process json e req i ≡ ok e
  unfolding process
  process_initialize e req i p = rw p

  -- An allowed request changes no rule of the engine and lowers no session's floor.
  pub process-Raised :
      (e : Engine) (req : McpRequest) (i : ClientIdentity) {e' : Engine}
      → process json e req i ≡ ok e'
      → Raised e e'
  process-Raised e req i {e'} h = elim (Bool-cases (req.method == method_initialize)) [
    | inl p ↦ subst (Raised e) (cc (process_initialize e req i p)) (Raised-refl e)
    | inr p ↦
        let (perm, _, _, checked) = process_inv json e req i h (ne_of_== _ _ p) in
        elim (Bool-cases (req.method == method_tools_call)) [
          | inl call ↦ check_tool-Raised e perm i (extract_tool_name json req) (rw call at checked)
          | inr other ↦
              let same : ok e ≡ ok e' = rw other at checked in subst (Raised e) (cc) (Raised-refl e)
        ]
  ]

  -- An allowed tools/call on an engine with classification: its tool does not lie below the
  -- session's floor, and its rank is the floor afterwards.
  pub process_floor :
      (e : Engine) (req : McpRequest) (i : ClientIdentity) (ranks : Dict ℕ) (tools : Dict String)
      {e' : Engine}
      → e.level_rank ≡ some ranks
      → e.tool_classification ≡ some tools
      → req.method ≡ method_tools_call
      → process json e req i ≡ ok e'
      → (below_floor
            (tool_rank ranks tools (extract_tool_name json req))
            (lookup i.session_id e.session_floors)
          ≡ false)
        × (lookup i.session_id e'.session_floors
            ≡ some (tool_rank ranks tools (extract_tool_name json req)))
  unfolding classified
  process_floor e req i ranks tools hr ht m h =
      let tool = extract_tool_name json req in
      let (perm, _, _, checked) = process_inv json e req i h (call_ne_initialize req m) in
      let (_, _, _, classed) = check_tool_inv e perm i tool (rw (call_test req m) at checked) in
      let (above, wrote) =
        check_classification_inv e ranks tools perm i tool (rw (hr, ht, classified) at classed) in
      (
        above,
        rw wrote (
            rw (
              write_floor_floors e i.session_id (tool_rank ranks tools tool) i.session_id above,
              ==_self i.session_id,
            )),
      )
