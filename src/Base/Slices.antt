-- ===== src/Base/Slices.antt =====
-- Slices of lists by native numbers: `s[:n]`, `s[n:]`, and repetition.
use Prim.Native.Nat.{ℕ, suc, ◌+◌, ◌-◌, ◌≤◌}
use mathlib.Core.Path.{◌≡◌, refl, ap, ◌∙◌}
use mathlib.Core.List.{List, [], ◌∷◌, ◌++◌}
use native.Mathlib.Omega.{arith}
use mcp_zero_trust_proxy.Base.Lists.{length}

module _ {ℓ} {A : Type ℓ} where
  unfoldable pub take : ℕ → List A → List A
  take n [] = []
  take ℕ.zero (x ∷ xs) = []
  take (suc n) (x ∷ xs) = x ∷ take n xs

  unfoldable pub drop : ℕ → List A → List A
  drop n [] = []
  drop ℕ.zero (x ∷ xs) = x ∷ xs
  drop (suc n) (x ∷ xs) = drop n xs

  -- The text `n` times, one after the other (`strings.Repeat`).
  unfoldable pub repeat : ℕ → List A → List A
  repeat ℕ.zero xs = []
  repeat (suc n) xs = xs ++ repeat n xs

  pub drop_zero : (xs : List A) → drop 0 xs ≡ xs
  unfolding drop
  drop_zero [] = refl
  drop_zero (x ∷ xs) = refl

  pub take_zero : (xs : List A) → take 0 xs ≡ []
  unfolding take
  take_zero [] = refl
  take_zero (x ∷ xs) = refl

  pub take_prefix : (xs ys : List A) → take (length xs) (xs ++ ys) ≡ xs
  unfolding take
  take_prefix [] ys = take_zero ys
  take_prefix (x ∷ xs) ys = ap (λ l. x ∷ l) (take_prefix xs ys)

  pub drop_prefix : (xs ys : List A) → drop (length xs) (xs ++ ys) ≡ ys
  unfolding drop
  drop_prefix [] ys = drop_zero ys
  drop_prefix (x ∷ xs) ys = drop_prefix xs ys

  pub drop-drop : (m n : ℕ) (xs : List A) → drop m (drop n xs) ≡ drop (n + m) xs
  unfolding drop
  drop-drop m n [] = refl
  drop-drop m ℕ.zero (x ∷ xs) = let q : m ≡ 0 + m = omega arith in ap (λ k. drop k (x ∷ xs)) q
  drop-drop m (suc n) (x ∷ xs) =
      let q : suc (n + m) ≡ suc n + m = omega arith in
      drop-drop m n xs ∙ ap (λ k. drop k (x ∷ xs)) q

  pub take-append-drop : (n : ℕ) (xs : List A) → take n xs ++ drop n xs ≡ xs
  unfolding take drop
  take-append-drop n [] = refl
  take-append-drop ℕ.zero (x ∷ xs) = refl
  take-append-drop (suc n) (x ∷ xs) = ap (λ l. x ∷ l) (take-append-drop n xs)

  pub length-take : (n : ℕ) (xs : List A) → n ≤ length xs → length (take n xs) ≡ n
  unfolding take
  length-take n [] h = omega arith
  length-take ℕ.zero (x ∷ xs) h = refl
  length-take (suc n) (x ∷ xs) h = let h' = length-take n xs (omega arith) in omega arith

  pub length-drop : (n : ℕ) (xs : List A) → length (drop n xs) ≡ length xs - n
  unfolding drop
  length-drop n [] = omega arith
  length-drop ℕ.zero (x ∷ xs) = omega arith
  length-drop (suc n) (x ∷ xs) = let h = length-drop n xs in omega arith

  pub length-repeat_one : (n : ℕ) (x : A) → length (repeat n (x ∷ [])) ≡ n
  unfolding repeat
  length-repeat_one ℕ.zero x = refl
  length-repeat_one (suc n) x = let h = length-repeat_one n x in omega arith
