-- ===== src/Base/Results.antt =====
-- A Go pair of a value and an error, of which the callers read one.
use mathlib.Core.Path.{◌≡◌, refl}
use mathlib.Core.Bool.{Bool, true, false}
use mathlib.Core.Logic.{◌⊎◌, inl, inr}
use mathlib.Core.Option.{Option, none, some}

pub data Result {ℓ} (E A : Type ℓ) : Type ℓ where
  ok : A → Result E A
  err : E → Result E A

pub Result-cases {ℓ} :
    {E A : Type ℓ} (r : Result E A) → ((a : A) × (r ≡ ok a)) ⊎ ((e : E) × (r ≡ err e))
Result-cases (ok a) = inl (a, refl)
Result-cases (err e) = inr (e, refl)

abbrev pub is_ok {ℓ} : {E A : Type ℓ} → Result E A → Bool
is_ok (ok a) = true
is_ok (err e) = false

-- A chain of steps that the first error ends.
infixl 5 ◌>>=◌ ◌>>◌
abbrev pub ◌>>=◌ : {E A B : Type 0} → Result E A → (A → Result E B) → Result E B
ok a >>= f = f a
err e >>= f = err e

abbrev pub ◌>>◌ : {E B : Type 0} → Result E (Unit {0}) → Result E B → Result E B
m >> k = m >>= λ _. k

-- The value of an option, or an error where there is none.
abbrev pub need : {E A : Type 0} → E → Option A → Result E A
need e none = err e
need e (some a) = ok a

-- An error if a test fails.
abbrev pub guard : {E : Type 0} → E → Bool → Result E (Unit {0})
guard e true = ok tt
guard e false = err e

-- What a chain that succeeds says of its first step.
pub bind_inv :
    {E A B : Type 0} (m : Result E A) (f : A → Result E B) {b : B}
    → (m >>= f) ≡ ok b
    → (a : A) × (m ≡ ok a) × (f a ≡ ok b)
bind_inv (ok a) f h = (a, refl, h)
bind_inv (err e) f h = cc

pub need_inv : {E A : Type 0} (e : E) (o : Option A) {a : A} → need e o ≡ ok a → o ≡ some a
need_inv e none h = cc
need_inv e (some x) h = cc

pub guard_inv :
    {E B : Type 0} (e : E) (b : Bool) (k : Result E B) {x : B}
    → (guard e b >> k) ≡ ok x
    → (b ≡ true) × (k ≡ ok x)
guard_inv e true k h = (refl, h)
guard_inv e false k h = cc

pub need_then :
    {E A B : Type 0} (e : E) (o : Option A) (f : A → Result E B) {b : B}
    → (need e o >>= f) ≡ ok b
    → (a : A) × (o ≡ some a) × (f a ≡ ok b)
need_then e o f h = let (a, p, q) = bind_inv (need e o) f h in (a, need_inv e o p, q)

-- The steps of a chain that goes through.
pub guard_ok :
    {E B : Type 0} (e : E) {b : Bool} {k : Result E B}
    → b ≡ true
    → (x : B) × (k ≡ ok x)
    → (x : B) × ((guard e b >> k) ≡ ok x)
guard_ok e {b = true} h runs = runs
guard_ok e {b = false} h runs = cc

pub need_ok :
    {E A B : Type 0} (e : E) {o : Option A} {f : A → Result E B}
    → (a : A) × (o ≡ some a)
    → ((a : A) → (x : B) × (f a ≡ ok x))
    → (x : B) × ((need e o >>= f) ≡ ok x)
need_ok e {o = none} (a, p) runs = cc
need_ok e {o = some y} found runs = runs y
