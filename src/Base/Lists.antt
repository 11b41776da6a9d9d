-- ===== src/Base/Lists.antt =====
-- Lists measured by native numbers, sets of texts, and predicates on every item.
use Prim.Native.Nat.{ℕ, suc, ◌+◌, ◌≤◌}
use Prim.Native.String.{String}
use mathlib.Core.Path.{◌≡◌, refl, ap, ◌∙◌}
use mathlib.Core.Logic.{◌↔◌, ◌⊎◌, inl, inr}
use mathlib.Core.Bool.{Bool, true, false, ◌||◌}
use mathlib.Core.List.{List, [], ◌∷◌, ◌++◌, map}
use native.Mathlib.Omega.{arith}
use text.Mathlib.Text.{◌==◌}
use mcp_zero_trust_proxy.Base.Tests.{if◌then◌else◌}

module _ {ℓ} {A : Type ℓ} where
  abbrev pub length : List A → ℕ
  length [] = 0
  length (x ∷ xs) = suc (length xs)

  abbrev pub is_empty : List A → Bool
  is_empty [] = true
  is_empty (x ∷ xs) = false

  pub length-append : (xs ys : List A) → length (xs ++ ys) ≡ length xs + length ys
  length-append [] ys = omega arith
  length-append (x ∷ xs) ys = omega (arith, length-append xs ys)

  -- The items that pass a test, in their order.
  unfoldable pub keep : (A → Bool) → List A → List A
  keep p [] = []
  keep p (x ∷ xs) = let rest = keep p xs in if p x then x ∷ rest else rest

  pub length-keep : (p : A → Bool) (xs : List A) → length (keep p xs) ≤ length xs
  unfolding keep
  length-keep p [] = omega arith
  length-keep p (x ∷ xs) = ground (arith, length-keep p xs)

module _ {ℓ κ} {A : Type ℓ} (P : A → Type κ) where
  abbrev pub All : List A → Type κ
  All [] = Unit
  All (x ∷ xs) = P x × All xs

  pub All-append : (xs ys : List A) → All xs → All ys → All (xs ++ ys)
  All-append [] ys _ k = k
  All-append (x ∷ xs) ys (p, h) k = (p, All-append xs ys h k)

-- Membership of a text in a list that stands for a set.
unfoldable pub contains : List String → String → Bool
contains [] s = false
contains (x ∷ xs) s = x == s || contains xs s

-- Membership as a choice of place.
abbrev pub In : {A : Type 0} → A → List A → Type 0
In x [] = ⊥
In x (y ∷ ys) = (x ≡ y) ⊎ In x ys

In-here_or :
    {A : Type 0} (p : A → Bool) (x y : A) (ys : List A) (b : Bool)
    → p y ≡ b
    → (In x (keep p ys) ↔ (In x ys × (p x ≡ true)))
    → In x (if b then y ∷ keep p ys else keep p ys) ↔ (In x (y ∷ ys) × (p x ≡ true))
In-here_or p x y ys true e (to, from) = (
  λ h. elim h [ inl q ↦ (inl q, rw q e) | inr m ↦ (inr (to m).0, (to m).1) ],
  λ h. elim h.0 [ inl q ↦ inl q | inr m ↦ inr (from (m, h.1)) ],
)
In-here_or p x y ys false e (to, from) =
    (λ h. (inr (to h).0, (to h).1), λ h. elim h.0 [ inl q ↦ cc | inr m ↦ from (m, h.1) ])

pub In-keep :
    {A : Type 0} (p : A → Bool) (x : A) (xs : List A) → In x (keep p xs) ↔ (In x xs × (p x ≡ true))
unfolding keep
In-keep p x [] = (λ h. absurd h, λ h. absurd h.0)
In-keep p x (y ∷ ys) = In-here_or p x y ys (p y) refl (In-keep p x ys)

pub keep-append :
    {A : Type 0} (p : A → Bool) (xs ys : List A) → keep p (xs ++ ys) ≡ keep p xs ++ keep p ys
unfolding keep
keep-append p [] ys = refl
keep-append p (x ∷ xs) ys = ground (arith, keep-append p xs ys)

pub In-map :
    {A B : Type 0} (f : A → B) (y : B) (xs : List A)
    → In y (map f xs) ↔ ((x : A) × In x xs × (y ≡ f x))
In-map f y [] = (λ h. absurd h, λ h. absurd h.1)
In-map f y (x ∷ xs) =
    let (to, from) = In-map f y xs in
    (
      λ h. elim h [ inl q ↦ (x, inl refl, q) | inr m ↦ let (z, n, q) = to m in (z, inr n, q) ],
      λ (z, m, q). elim m [ inl e ↦ inl (q ∙ ap f e) | inr n ↦ inr (from (z, n, q)) ],
    )
