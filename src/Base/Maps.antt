-- ===== src/Base/Maps.antt =====
-- A Go map with text keys, as an association list. Where the code ranges over a map, the order of
-- the list is one order in which Go may visit the keys.
use Prim.Native.Nat.{◌≤◌}
use Prim.Native.String.{String}
use mathlib.Core.Path.{◌≡◌, refl}
use mathlib.Core.Option.{Option, none, some}
use mathlib.Core.List.{List, [], ◌∷◌}
use native.Mathlib.Omega.{arith}
use text.Mathlib.Text.{◌==◌}
use text.Mathlib.TextEquality.{eq_iff}
use mcp_zero_trust_proxy.Base.Tests.{if◌then◌else◌}
use mcp_zero_trust_proxy.Base.Lists.{length}

abbrev pub Dict {ℓ} : Type ℓ → Type ℓ
Dict V = List (String × V)

module _ {ℓ} {V : Type ℓ} where
  -- `delete(d, key)`
  unfoldable pub remove : String → Dict V → Dict V
  remove key [] = []
  remove key ((held, old) ∷ d) =
      let rest = remove key d in if held == key then rest else (held, old) ∷ rest

  -- `d[key] = v`, in the place of the first entry of that key, or else at the end.
  unfoldable pub insert : String → V → Dict V → Dict V
  insert key v [] = (key, v) ∷ []
  insert key v ((held, old) ∷ d) =
      let rest = insert key v d in if held == key then (key, v) ∷ d else (held, old) ∷ rest

  -- `v, ok := d[key]`
  unfoldable pub lookup : String → Dict V → Option V
  lookup key [] = none
  lookup key ((held, old) ∷ d) = let rest = lookup key d in if held == key then some old else rest

  pub lookup-insert :
      (key other : String) (v : V) (d : Dict V)
      → lookup other (insert key v d) ≡ (if key == other then some v else lookup other d)
  unfolding insert lookup
  lookup-insert key other v [] = refl
  lookup-insert key other v ((held, old) ∷ d) =
      ground
        (arith, lookup-insert key other v d, eq_iff held other, eq_iff held key, eq_iff key other)

  pub lookup-remove :
      (key other : String) (d : Dict V)
      → lookup other (remove key d) ≡ (if key == other then none else lookup other d)
  unfolding remove lookup
  lookup-remove key other [] = ground arith
  lookup-remove key other ((held, old) ∷ d) =
      ground
        (arith, lookup-remove key other d, eq_iff held key, eq_iff held other, eq_iff key other)

  pub length-remove : (k : String) (m : Dict V) → length (remove k m) ≤ length m
  unfolding remove
  length-remove k [] = omega arith
  length-remove k ((j, v) ∷ m) = ground (arith, length-remove k m)
