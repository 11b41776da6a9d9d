-- ===== src/Depth/Terminates.antt =====
-- The walk ends on every text: three steps for each byte, and three more, are enough.
use mcp_zero_trust_proxy.Base.{
  ℕ, suc, ◌+◌, ◌*◌, ◌≤◌, ◌≢◌, Option, none, some, [], ◌∷◌, if◌then◌else◌, eqb, ltb, length, ℤ,
  arith,
}
use mcp_zero_trust_proxy.Protocol.{Bytes}
use mcp_zero_trust_proxy.Depth.{
  Walk, out_of_fuel, rejected, rest, skip_ws, and_then, after_item, at_open, at_value, walk_value,
  walk_array, array_items, walk_object, members, check_depth, limit, Unmarshalled, ran_out,
  unmarshal, checked, unless_blank,
}
use mcp_zero_trust_proxy.Depth.Ends.{
  Ends-if, Ends-weaken, skip_ws-length, and_then-Ends, after_item-Ends, at_open-Ends, at_key-Ends,
  at_value-Ends, Ends,
}

module _ (max : ℕ) where
  mutual
    unfolding walk_value

    walk_value-Ends :
        (n l depth : ℕ) (s : Bytes)
        → 3 * l + 1 ≤ n
        → length s ≤ l
        → Ends l (walk_value max n depth s)
    walk_value-Ends ℕ.zero l depth s f h = omega arith
    walk_value-Ends (suc n) l depth s f h =
        let w = skip_ws-length s in
        Ends-if l (ltb max depth) rejected
          (at_value (walk_array max n (depth + 1)) (walk_object max n (depth + 1)) (skip_ws s)) tt
          (at_value-Ends l (walk_array max n (depth + 1)) (walk_object max n (depth + 1))
            (skip_ws s) (omega arith)
            (λ t lt.
              Ends-weaken (length t) l (walk_array max n (depth + 1) t)
                (walk_array-Ends n (length t) (depth + 1) t (omega arith) (omega arith))
                (omega arith))
            (λ t lt.
              Ends-weaken (length t) l (walk_object max n (depth + 1) t)
                (walk_object-Ends n (length t) (depth + 1) t (omega arith) (omega arith))
                (omega arith)))

    walk_array-Ends :
        (n l depth : ℕ) (s : Bytes)
        → 3 * l + 3 ≤ n
        → length s ≤ l
        → Ends l (walk_array max n depth s)
    walk_array-Ends ℕ.zero l depth s f h = omega arith
    walk_array-Ends (suc n) l depth s f h =
        let w = skip_ws-length s in
        Ends-if l (ltb max depth) rejected (at_open b']' (array_items max n depth) (skip_ws s)) tt (
          at_open-Ends l b']' (array_items max n depth) (skip_ws s) (omega arith)
            (λ t le. array_items-Ends n l depth t (omega arith) le))

    array_items-Ends :
        (n l depth : ℕ) (s : Bytes)
        → 3 * l + 2 ≤ n
        → length s ≤ l
        → Ends l (array_items max n depth s)
    array_items-Ends ℕ.zero l depth s f h = omega arith
    array_items-Ends (suc n) l depth s f h =
        let w = skip_ws-length s in
        let next : Bytes → Walk = λ t. after_item b']' (array_items max n depth) (skip_ws t) in
        and_then-Ends l (walk_value max n depth (skip_ws s)) next
          (walk_value-Ends n l depth (skip_ws s) (omega arith) (omega arith))
          (λ t le.
            after_item-Ends l b']' (array_items max n depth) (skip_ws t)
              (let w' = skip_ws-length t in omega arith)
              (λ u lt.
                Ends-weaken (length u) l (array_items max n depth u)
                  (array_items-Ends n (length u) depth u (omega arith) (omega arith))
                  (omega arith)))

    walk_object-Ends :
        (n l depth : ℕ) (s : Bytes)
        → 3 * l + 3 ≤ n
        → length s ≤ l
        → Ends l (walk_object max n depth s)
    walk_object-Ends ℕ.zero l depth s f h = omega arith
    walk_object-Ends (suc n) l depth s f h =
        let w = skip_ws-length s in
        Ends-if l (ltb max depth) rejected (at_open b'}' (members max n depth) (skip_ws s)) tt (
          at_open-Ends l b'}' (members max n depth) (skip_ws s) (omega arith)
            (λ t le. members-Ends n l depth t (omega arith) le))

    members-Ends :
        (n l depth : ℕ) (s : Bytes) → 3 * l + 2 ≤ n → length s ≤ l → Ends l (members max n depth s)
    members-Ends ℕ.zero l depth s f h = omega arith
    members-Ends (suc n) l depth s f h =
        let w = skip_ws-length s in
        let next : Bytes → Walk = λ u. after_item b'}' (members max n depth) (skip_ws u) in
        at_key-Ends l (λ t. and_then (walk_value max n depth t) next) (skip_ws s) (omega arith)
          (λ t le.
            and_then-Ends l (walk_value max n depth t) next
              (walk_value-Ends n l depth t (omega arith) le)
              (λ u le'.
                after_item-Ends l b'}' (members max n depth) (skip_ws u)
                  (let w' = skip_ws-length u in omega arith)
                  (λ v lt.
                    Ends-weaken (length v) l (members max n depth v)
                      (members-Ends n (length v) depth v (omega arith) (omega arith))
                      (omega arith))))

  pub check_depth-Ends :
      (fuel : ℕ) (s : Bytes) → 3 * length s + 3 ≤ fuel → Ends (length s) (check_depth max fuel s)
  unfolding check_depth
  check_depth-Ends fuel [] f = omega arith
  check_depth-Ends fuel (c ∷ s) f =
      let n = length (c ∷ s) in
      Ends-if n (eqb c b'[') (walk_array max fuel 1 s)
        (if eqb c b'{' then walk_object max fuel 1 s else rest (c ∷ s))
        (Ends-weaken (length s) n (walk_array max fuel 1 s)
          (walk_array-Ends fuel (length s) 1 s (omega arith) (omega arith)) (omega arith))
        (Ends-if n (eqb c b'{') (walk_object max fuel 1 s) (rest (c ∷ s))
          (Ends-weaken (length s) n (walk_object max fuel 1 s)
            (walk_object-Ends fuel (length s) 1 s (omega arith) (omega arith)) (omega arith))
          (omega arith))

checked-ended : {A : Type 0} (l : ℕ) (w : Walk) (v : Option A) → Ends l w → checked w v ≢ ran_out
checked-ended l out_of_fuel v h = absurd h
checked-ended l rejected v h = λ q. cc
checked-ended l (rest s) none h = λ q. cc
checked-ended l (rest s) (some x) h = λ q. cc

unless_blank-ended :
    {A : Type 0} (s : Bytes) (u : Unmarshalled A) → u ≢ ran_out → unless_blank s u ≢ ran_out
unless_blank-ended [] u h = λ q. cc
unless_blank-ended (c ∷ s) u h = h

-- `Unmarshal` ends on every text and every limit: with three steps for each byte, and three more, the
-- walk does not run out of them.
pub unmarshal_ends :
    {A : Type 0} (json : Bytes → Option A) (max_depth : ℤ) (fuel : ℕ) (b : Bytes)
    → 3 * length b + 3 ≤ fuel
    → unmarshal json max_depth fuel b ≢ ran_out
unfolding unmarshal
unmarshal_ends json max_depth fuel b f =
    let s = skip_ws b in
    let w = skip_ws-length b in
    unless_blank-ended s (checked (check_depth (limit max_depth) fuel s) (json b)) (
      checked-ended (length s) (check_depth (limit max_depth) fuel s) (json b)
        (check_depth-Ends (limit max_depth) fuel s (omega arith)))
