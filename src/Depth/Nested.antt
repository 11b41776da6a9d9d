-- ===== src/Depth/Nested.antt =====
-- Texts that are nested too deeply.
use mcp_zero_trust_proxy.Base.{
  ℕ, suc, ◌+◌, ◌*◌, ◌≤◌, ◌<◌, ◌≡◌, refl, true, Option, [], ◌∷◌, ◌++◌, ltb, ℤ, arith, repeat,
  Bool-cases, inl, inr,
}
use mcp_zero_trust_proxy.Protocol.{Bytes}
use mcp_zero_trust_proxy.Depth.{
  rejected, skip_ws, at_open, at_value, walk_value, walk_array, check_depth, limit,
  too_deep_or_invalid, unmarshal,
}

module _ (max : ℕ) where
  deep_rejected :
      (k n depth : ℕ) (t : Bytes)
      → max < depth + k
      → 3 * k + 1 ≤ n
      → walk_array max n depth (repeat k (b'[' ∷ []) ++ t) ≡ rejected
  unfolding walk_value repeat skip_ws at_open at_value
  deep_rejected k ℕ.zero depth t deep f = absurd (omega arith)
  deep_rejected ℕ.zero (suc n) depth t deep f =
      let over : ltb max depth ≡ true = ground arith in rw over refl
  deep_rejected (suc k) (suc ℕ.zero) depth t deep f = absurd (omega arith)
  deep_rejected (suc k) (suc (suc ℕ.zero)) depth t deep f = absurd (omega arith)
  deep_rejected (suc k) (suc (suc (suc n))) depth t deep f =
      let inner = deep_rejected k n (depth + 1) t (omega arith) (omega arith) in
      elim (Bool-cases (ltb max depth)) [ inl e ↦ rw e refl | inr e ↦ rw (e, inner) refl ]

-- A text that opens more brackets than the limit, whatever follows them, is refused and not decoded.
pub nested_rejected :
    {A : Type 0} (json : Bytes → Option A) (max_depth : ℤ) (fuel k : ℕ) (t : Bytes)
    → limit max_depth ≤ k
    → 3 * k + 1 ≤ fuel
    → unmarshal json max_depth fuel (repeat (suc k) (b'[' ∷ []) ++ t) ≡ too_deep_or_invalid
unfolding unmarshal repeat skip_ws check_depth
nested_rejected json max_depth fuel k t deep f =
    rw (deep_rejected (limit max_depth) k fuel 1 t (omega arith) f) refl
