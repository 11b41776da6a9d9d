-- ===== src/Pii/Replace.antt =====
-- internal/pii/masker.go, `applyPatterns`, `applyPattern` and `replaceMatch`: the replacement of
-- the matches in one text.
pub mod Segments
pub mod Secrecy
use mcp_zero_trust_proxy.Base.{
  ℕ, ◌+◌, ◌-◌, suc, String, Bool, true, false, ◌&&◌, ◌||◌, Option, none, some, List, [], ◌∷◌, ◌++◌,
  if◌then◌else◌, eqb, leb, ltb, is_empty, length, Dict, lookup, pos, ltb_ℤ, pos_part, neg_part,
  take, drop, repeat, replace_all,
}
use mcp_zero_trust_proxy.Protocol.{Bytes}
use mcp_zero_trust_proxy.Pii.{Match, Regexp, PartialMask, CompiledPattern, Masker}

-- The bytes of a text, the text of bytes as `encoding/json` writes it, and the decimal numerals.
pub record Texts : Type 0 where
  pub encode : String → Bytes
  pub decode : Bytes → String
  pub decimal : ℕ → Bytes

-- `text[a:b]`
unfoldable pub slice : ℕ → ℕ → Bytes → Bytes
slice a b text = take (b - a) (drop a text)

unfoldable pub smaller : ℕ → ℕ → ℕ
smaller a b = if leb a b then a else b

-- The end of the match that is shown: `last` bytes, or the match itself where `show_first` reaches its
-- end.
unfoldable pub last_part : ℕ → ℕ → ℕ → Bytes → Bytes
last_part first last below match =
    if ltb 0 last
    then if ltb first (length match + below) then drop (length match - last) match else match
    else []

module _ (t : Texts) where
  -- `${i}`
  abbrev pub placeholder : ℕ → Bytes
  placeholder i = b'$' ∷ b'{' ∷ t.decimal i ++ b'}' ∷ []

  unfoldable pub replace_groups : ℕ → List Bytes → Bytes → Bytes
  replace_groups i [] mask = mask
  replace_groups i (group ∷ groups) mask =
      replace_groups (i + 1) groups (replace_all (placeholder i) group mask)

  -- The shown parts and the fillers between them. A number of bytes to show is at most the length of
  -- the match; where nothing is left between the parts, the match itself is the result.
  unfoldable pub partial_replacement : PartialMask → Bytes → Bytes
  partial_replacement p match =
      let first = smaller (pos_part p.show_first) (length match) in
      let last = smaller (pos_part p.show_last) (length match) in
      let room = length match + neg_part p.show_first + neg_part p.show_last in
      if leb room (first + last)
      then match
      else take first match
        ++ repeat (room - (first + last)) (p.filler ∷ [])
        ++ last_part first last (neg_part p.show_first) match

  abbrev replacement : Option PartialMask → Bytes → Bytes → List Bytes → Bytes
  replacement none mask match groups = replace_groups 0 groups mask
  replacement (some p) mask match groups =
      if ltb_ℤ (pos 0) p.show_first || ltb_ℤ (pos 0) p.show_last
      then partial_replacement p match
      else replace_groups 0 groups mask

  unfoldable pub replace_match : CompiledPattern → Bytes → List Bytes → Bytes
  replace_match pattern match groups = replacement pattern.partial_mask pattern.mask match groups

  -- The loop over the matches, from `start` on.
  unfoldable pub write_matches : CompiledPattern → Bytes → ℕ → List Match → Bytes
  write_matches pattern text start [] = drop start text
  write_matches pattern text start (m ∷ ms) =
      slice start m.start text
      ++ (replace_match pattern (slice m.start m.stop text) m.groups
          ++ write_matches pattern text m.stop ms)

  unfoldable pub apply_pattern : Regexp → CompiledPattern → Bytes → Bytes
  apply_pattern re pattern text =
      let found = re.find_all pattern.regexp text in
      if is_empty found then text else write_matches pattern text 0 found

  -- The patterns of the fields that are defined, in the order of the fields.
  unfoldable pub apply_patterns : Regexp → Masker → List String → Bytes → Bytes
  apply_patterns re m [] text = text
  apply_patterns re m (field ∷ fields) text = elim (lookup field m.compiled_patterns) [
    | none ↦ apply_patterns re m fields text
    | some pattern ↦ apply_patterns re m fields (apply_pattern re pattern text)
  ]
