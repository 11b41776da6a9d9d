-- ===== src/Base/Bytes.antt =====
-- Lists of bytes, as Go's strings: prefixes, `strings.ReplaceAll`, and the replacement of one byte.
use Prim.Native.Nat.{ℕ, suc, ◌-◌}
use mathlib.Core.Path.{◌≡◌, refl, ap, sym, ◌∙◌}
use mathlib.Core.Bool.{Bool, true, false, ◌&&◌, ◌||◌}
use mathlib.Core.List.{List, [], ◌∷◌, ◌++◌, append_assoc}
use native.Mathlib.Omega.{arith}
use mcp_zero_trust_proxy.Base.Tests.{eqb, if◌then◌else◌}
use mcp_zero_trust_proxy.Base.Lists.{length}

abbrev pub starts_with : List ℕ → List ℕ → Bool
starts_with [] text = true
starts_with (c ∷ old) [] = false
starts_with (c ∷ old) (d ∷ text) = eqb c d && starts_with old text

-- The rest of the text, after the bytes that a replacement has consumed.
unfoldable pub replace_from : ℕ → List ℕ → List ℕ → List ℕ → List ℕ
replace_from skip old new [] = []
replace_from (suc skip) old new (c ∷ text) = replace_from skip old new text
replace_from ℕ.zero old new (c ∷ text) =
    let replaced = replace_from (length old - 1) old new text in
    let kept = replace_from 0 old new text in
    if starts_with old (c ∷ text) then new ++ replaced else c ∷ kept

-- `strings.ReplaceAll` of a text that is not empty.
abbrev pub replace_all : List ℕ → List ℕ → List ℕ → List ℕ
replace_all old new text = replace_from 0 old new text

unfoldable pub has_byte : ℕ → List ℕ → Bool
has_byte c [] = false
has_byte c (d ∷ text) = eqb d c || has_byte c text

-- The text whose bytes are each replaced by a text.
unfoldable pub flat_map : (ℕ → List ℕ) → List ℕ → List ℕ
flat_map f [] = []
flat_map f (c ∷ text) = f c ++ flat_map f text

abbrev pub swap : ℕ → List ℕ → ℕ → List ℕ
swap old new c = if eqb old c then new else c ∷ []

-- The texts one after the other.
unfoldable pub join : List (List ℕ) → List ℕ
join [] = []
join (a ∷ as') = a ++ join as'

abbrev pub any_has : ℕ → List (List ℕ) → Bool
any_has c [] = false
any_has c (a ∷ as') = has_byte c a || any_has c as'

pub has_byte-append : (c : ℕ) (a b : List ℕ) → has_byte c (a ++ b) ≡ has_byte c a || has_byte c b
unfolding has_byte
has_byte-append c [] b = refl
has_byte-append c (d ∷ a) b = ground (arith, has_byte-append c a b)

pub has_byte-join : (c : ℕ) (as' : List (List ℕ)) → has_byte c (join as') ≡ any_has c as'
unfolding join has_byte
has_byte-join c [] = refl
has_byte-join c (a ∷ as') =
    has_byte-append c a (join as') ∙ ap (λ b. has_byte c a || b) (has_byte-join c as')

pub flat_map-append :
    (f : ℕ → List ℕ) (a b : List ℕ) → flat_map f (a ++ b) ≡ flat_map f a ++ flat_map f b
unfolding flat_map
flat_map-append f [] b = refl
flat_map-append f (c ∷ a) b =
    ap (λ x. f c ++ x) (flat_map-append f a b)
    ∙ sym (append_assoc (f c) (flat_map f a) (flat_map f b))

pub flat_map-flat_map :
    (f g : ℕ → List ℕ) (a : List ℕ) → flat_map f (flat_map g a) ≡ flat_map (λ c. flat_map f (g c)) a
unfolding flat_map
flat_map-flat_map f g [] = refl
flat_map-flat_map f g (c ∷ a) =
    flat_map-append f (g c) (flat_map g a)
    ∙ ap (λ x. flat_map f (g c) ++ x) (flat_map-flat_map f g a)

pub replace_all-byte :
    (old : ℕ) (new text : List ℕ) → replace_all (old ∷ []) new text ≡ flat_map (swap old new) text
unfolding replace_from flat_map
replace_all-byte old new [] = refl
replace_all-byte old new (c ∷ text) = ground (arith, replace_all-byte old new text)
