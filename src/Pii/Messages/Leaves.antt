-- ===== src/Pii/Messages/Leaves.antt =====
-- The traversal of a JSON value: every text in it is changed by the function, and nothing else.
use mcp_zero_trust_proxy.Base.{String, ◌≡◌, refl, ap, List, [], ◌∷◌, ◌++◌, map}
use mathlib.Core.List.{map-append}
use mcp_zero_trust_proxy.Protocol.{
  Json, str, arr, obj, null, bool, num, Items, nil, cons, Fields, end, field,
}
use mcp_zero_trust_proxy.Pii.Messages.{traverse, traverse_items, traverse_fields}

-- The texts of a value, keys not counted, in their order.
unfoldable mutual
  pub leaves : Json → List String
  leaves (str s) = s ∷ []
  leaves (arr xs) = leaves_items xs
  leaves (obj fs) = leaves_fields fs
  leaves j = []

  pub leaves_items : Items → List String
  leaves_items nil = []
  leaves_items (cons x xs) = leaves x ++ leaves_items xs

  pub leaves_fields : Fields → List String
  leaves_fields end = []
  leaves_fields (field k v fs) = leaves v ++ leaves_fields fs

-- The value with its texts blanked: what is left when the texts are forgotten.
abbrev pub shape : Json → Json
shape j = traverse (λ s. "") j

module _ (f g : String → String) where
  mutual
    unfolding traverse

    traverse-traverse : (j : Json) → traverse g (traverse f j) ≡ traverse (λ s. g (f s)) j
    traverse-traverse null = refl
    traverse-traverse (bool b) = refl
    traverse-traverse (num n) = refl
    traverse-traverse (str s) = refl
    traverse-traverse (arr xs) = ap arr (traverse_items-traverse xs)
    traverse-traverse (obj fs) = ap obj (traverse_fields-traverse fs)

    traverse_items-traverse :
        (xs : Items) → traverse_items g (traverse_items f xs) ≡ traverse_items (λ s. g (f s)) xs
    traverse_items-traverse nil = refl
    traverse_items-traverse (cons x xs) = cc (traverse-traverse x, traverse_items-traverse xs)

    traverse_fields-traverse :
        (fs : Fields) → traverse_fields g (traverse_fields f fs) ≡ traverse_fields (λ s. g (f s)) fs
    traverse_fields-traverse end = refl
    traverse_fields-traverse (field k v fs) = cc (traverse-traverse v, traverse_fields-traverse fs)

module _ (f : String → String) where
  mutual
    unfolding traverse leaves

    leaves-traverse : (j : Json) → leaves (traverse f j) ≡ map f (leaves j)
    leaves-traverse null = refl
    leaves-traverse (bool b) = refl
    leaves-traverse (num n) = refl
    leaves-traverse (str s) = refl
    leaves-traverse (arr xs) = leaves_items-traverse xs
    leaves-traverse (obj fs) = leaves_fields-traverse fs

    leaves_items-traverse :
        (xs : Items) → leaves_items (traverse_items f xs) ≡ map f (leaves_items xs)
    leaves_items-traverse nil = refl
    leaves_items-traverse (cons x xs) =
        rw (map-append, leaves-traverse x, leaves_items-traverse xs) refl

    leaves_fields-traverse :
        (fs : Fields) → leaves_fields (traverse_fields f fs) ≡ map f (leaves_fields fs)
    leaves_fields-traverse end = refl
    leaves_fields-traverse (field k v fs) =
        rw (map-append, leaves-traverse v, leaves_fields-traverse fs) refl

  -- The traversal of a request's params changes each text by the function, wherever it stands, and
  -- keeps the shape of the value, its keys included.
  pub traverse-leaves :
      (j : Json) → (leaves (traverse f j) ≡ map f (leaves j)) × (shape (traverse f j) ≡ shape j)
  traverse-leaves j = (leaves-traverse j, traverse-traverse f (λ s. "") j)
