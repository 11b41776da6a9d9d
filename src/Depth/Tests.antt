-- ===== src/Depth/Tests.antt =====
-- Short texts, and instances of the theorems on the nesting limit.
use mcp_zero_trust_proxy.Base.{ℕ, ◌≡◌, ◌≢◌, refl, Option, some, [], ◌∷◌, pos, arith}
use mcp_zero_trust_proxy.Protocol.{Bytes}
use mcp_zero_trust_proxy.Depth.{
  rest, rejected, walk_value, skip_ws, skip_string, skip_primitive, after_item, at_open, at_colon,
  at_key, at_value, check_depth, ran_out, unmarshal,
}
use mcp_zero_trust_proxy.Depth.Terminates.{unmarshal_ends}

-- `[1,{"a":[]}]`
abbrev nested : Bytes
nested = b'[' ∷ b'1' ∷ b',' ∷ b'{' ∷ b'"' ∷ b'a' ∷ b'"' ∷ b':' ∷ b'[' ∷ b']' ∷ b'}' ∷ b']' ∷ []

depth_three : check_depth 3 40 nested ≡ rest []
unfolding check_depth walk_value skip_ws skip_string skip_primitive after_item at_open at_colon
    at_key at_value
depth_three = refl

depth_two : check_depth 2 40 nested ≡ rejected
unfolding check_depth walk_value skip_ws skip_string skip_primitive after_item at_open at_colon
    at_key at_value
depth_two = refl

abbrev any_value : Bytes → Option ℕ
any_value b = some 0

unmarshal_ends_example : unmarshal any_value (pos 2) 39 nested ≢ ran_out
unmarshal_ends_example = unmarshal_ends any_value (pos 2) 39 nested (omega arith)
