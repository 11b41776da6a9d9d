-- ===== src/Depth.antt =====
-- internal/proxy/depth_limit.go: the walk over a JSON text that bounds its nesting. A position in the
-- data is the rest of the data from there; the loops are recursion on fuel.
pub mod Ends
pub mod Terminates
pub mod Nested
mod Tests
use mcp_zero_trust_proxy.Base.{
  ℕ, suc, ◌+◌, ◌*◌, Bool, true, false, ◌||◌, Option, none, some, List, [], ◌∷◌, if◌then◌else◌, eqb,
  ltb, length, ℤ, pos, leb_ℤ, pos_part,
}
use mcp_zero_trust_proxy.Protocol.{Bytes}

-- What a walk gives: the data after the value, or that it is refused.
pub data Walk : Type 0 where
  out_of_fuel rejected : Walk
  rest : Bytes → Walk

abbrev pub max_json_depth : ℕ
max_json_depth = 32

-- `NewLimitedUnmarshaler`
unfoldable pub limit : ℤ → ℕ
limit max_depth = if leb_ℤ max_depth (pos 0) then max_json_depth else pos_part max_depth

abbrev pub is_ws : ℕ → Bool
is_ws c = eqb c 32 || eqb c 9 || eqb c 10 || eqb c 13

unfoldable pub skip_ws : Bytes → Bytes
skip_ws [] = []
skip_ws (c ∷ s) = let after = skip_ws s in if is_ws c then after else c ∷ s

-- After the opening quote; a backslash hides the byte after it.
unfoldable pub skip_string : Bytes → Walk
skip_string [] = rejected
skip_string (c ∷ []) = if eqb c 92 then rejected else if eqb c 34 then rest [] else rejected
skip_string (c ∷ d ∷ s) =
    let past = skip_string s in
    let next = skip_string (d ∷ s) in
    if eqb c 92 then past else if eqb c 34 then rest (d ∷ s) else next

-- A number or a word, which may be empty.
unfoldable pub skip_primitive : Bytes → Bytes
skip_primitive [] = []
skip_primitive (c ∷ s) =
    let after = skip_primitive s in
    if eqb c b',' || eqb c b']' || eqb c b'}' || is_ws c then c ∷ s else after

abbrev pub and_then : Walk → (Bytes → Walk) → Walk
and_then out_of_fuel k = out_of_fuel
and_then rejected k = rejected
and_then (rest s) k = k s

-- After an item: the end, or a comma and the next item.
unfoldable pub after_item : ℕ → (Bytes → Walk) → Bytes → Walk
after_item close next [] = rejected
after_item close next (c ∷ s) =
    if eqb c close then rest s else if eqb c b',' then next s else rejected

-- After the opening bracket: the end, or the first item.
unfoldable pub at_open : ℕ → (Bytes → Walk) → Bytes → Walk
at_open close items [] = items []
at_open close items (c ∷ s) = if eqb c close then rest s else items (c ∷ s)

unfoldable pub at_colon : (Bytes → Walk) → Bytes → Walk
at_colon value [] = rejected
at_colon value (c ∷ s) = if eqb c b':' then value s else rejected

unfoldable pub at_key : (Bytes → Walk) → Bytes → Walk
at_key value [] = rejected
at_key value (c ∷ s) =
    if eqb c 34 then and_then (skip_string s) (λ t. at_colon value (skip_ws t)) else rejected

unfoldable pub at_value : (Bytes → Walk) → (Bytes → Walk) → Bytes → Walk
at_value array object [] = rejected
at_value array object (c ∷ s) =
    if eqb c b'['
    then array s
    else if eqb c b'{'
    then object s
    else if eqb c 34
    then skip_string s
    else rest (skip_primitive (c ∷ s))

module _ (max : ℕ) where
  unfoldable mutual
    pub walk_value : ℕ → ℕ → Bytes → Walk
    walk_value ℕ.zero depth s = out_of_fuel
    walk_value (suc n) depth s =
        if ltb max depth
        then rejected
        else at_value (walk_array n (depth + 1)) (walk_object n (depth + 1)) (skip_ws s)

    pub walk_array : ℕ → ℕ → Bytes → Walk
    walk_array ℕ.zero depth s = out_of_fuel
    walk_array (suc n) depth s =
        if ltb max depth then rejected else at_open b']' (array_items n depth) (skip_ws s)

    pub array_items : ℕ → ℕ → Bytes → Walk
    array_items ℕ.zero depth s = out_of_fuel
    array_items (suc n) depth s =
        and_then (walk_value n depth (skip_ws s))
          (λ t. after_item b']' (array_items n depth) (skip_ws t))

    pub walk_object : ℕ → ℕ → Bytes → Walk
    walk_object ℕ.zero depth s = out_of_fuel
    walk_object (suc n) depth s =
        if ltb max depth then rejected else at_open b'}' (members n depth) (skip_ws s)

    pub members : ℕ → ℕ → Bytes → Walk
    members ℕ.zero depth s = out_of_fuel
    members (suc n) depth s =
        at_key
          (λ t.
            and_then (walk_value n depth t) (λ u. after_item b'}' (members n depth) (skip_ws u)))
          (skip_ws s)

  -- A text that starts with neither bracket is not walked, and whatever follows a value is not looked
  -- at. `max` is at least 0, which the depth 0 does not exceed.
  unfoldable pub check_depth : ℕ → Bytes → Walk
  check_depth fuel [] = rest []
  check_depth fuel (c ∷ s) =
      if eqb c b'['
      then walk_array fuel 1 s
      else if eqb c b'{'
      then walk_object fuel 1 s
      else rest (c ∷ s)

-- The results of `Unmarshal`, `ran_out` being that of too little fuel.
pub data Unmarshalled (A : Type 0) : Type 0 where
  empty_input too_deep_or_invalid not_json ran_out : Unmarshalled A
  decoded : A → Unmarshalled A

abbrev pub delegated : {A : Type 0} → Option A → Unmarshalled A
delegated none = not_json
delegated (some v) = decoded v

abbrev pub checked : {A : Type 0} → Walk → Option A → Unmarshalled A
checked out_of_fuel v = ran_out
checked rejected v = too_deep_or_invalid
checked (rest s) v = delegated v

abbrev pub unless_blank : {A : Type 0} → Bytes → Unmarshalled A → Unmarshalled A
unless_blank [] u = empty_input
unless_blank (c ∷ s) u = u

-- `Unmarshal`, with `encoding/json` as the parameter.
unfoldable pub unmarshal : {A : Type 0} → (Bytes → Option A) → ℤ → ℕ → Bytes → Unmarshalled A
unmarshal json max_depth fuel b =
    unless_blank (skip_ws b) (checked (check_depth (limit max_depth) fuel (skip_ws b)) (json b))
