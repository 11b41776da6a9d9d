-- ===== src/Auth/Tokens/Bounds.antt =====
-- The size of the token cache, and a predicate that its nodes keep.
use mcp_zero_trust_proxy.Base.{
  ℕ, suc, ◌-◌, ◌≤◌, ◌<◌, String, ◌≡◌, refl, not, Option, none, some, List, [], ◌∷◌, ltb, leb, arith,
  length, length-keep, Bool-cases, inl, inr,
}
use mcp_zero_trust_proxy.Auth.Tokens.{
  Node, Cache, find, without, drop_back, put, put_by, get, get_by, delete, cleanup,
}

pub data Op : Type 0 where
  op_put : Node → Op
  op_get : String → ℕ → Op
  op_delete : String → Op
  op_cleanup : ℕ → Op

unfoldable pub apply : Op → Cache → Cache
apply (op_put node) c = put node c
apply (op_get key now) c = (get key now c).1
apply (op_delete key) c = delete key c
apply (op_cleanup now) c = cleanup now c

unfoldable pub run : List Op → Cache → Cache
run [] c = c
run (op ∷ ops) c = run ops (apply op c)

length-without : (key : String) (nodes : List Node) → length (without key nodes) ≤ length nodes
unfolding without
length-without key [] = omega arith
length-without key (node ∷ nodes) = ground (arith, length-without key nodes)

length-without_found :
    (key : String) (nodes : List Node) (node : Node)
    → find key nodes ≡ some node
    → suc (length (without key nodes)) ≡ length nodes
unfolding without find
length-without_found key [] node h = cc
length-without_found key (x ∷ nodes) node h = ground (arith, length-without_found key nodes node)

length-drop_back : (nodes : List Node) → length (drop_back nodes) ≡ length nodes - 1
unfolding drop_back
length-drop_back [] = refl
length-drop_back (node ∷ []) = refl
length-drop_back (node ∷ next ∷ nodes) = ground (arith, length-drop_back (next ∷ nodes))

abbrev pub IsBounded : Cache → Type 0
IsBounded c = length c.nodes ≤ c.max_size

put_bound :
    (node : Node) (c : Cache) (o : Option Node)
    → find node.key c.nodes ≡ o
    → 0 < c.max_size
    → IsBounded c
    → IsBounded (put_by o node c)
put_bound node c none e pos h = elim (Bool-cases (leb c.max_size (length c.nodes))) [
  | inl full ↦ rw full (ground (arith, length-drop_back c.nodes))
  | inr space ↦ rw space (ground arith)
]
put_bound node c (some old) e pos h =
    let q = length-without_found node.key c.nodes old e in omega arith

get_bound :
    (key : String) (now : ℕ) (c : Cache) (o : Option Node)
    → find key c.nodes ≡ o
    → IsBounded c
    → IsBounded (get_by key now o c).1
get_bound key now c none e h = h
get_bound key now c (some node) e h =
    let q = length-without_found key c.nodes node e in
    elim (Bool-cases (ltb node.expires_at now)) [
      | inl late ↦ rw late (omega arith)
      | inr alive ↦ rw alive (omega arith)
    ]

apply_bound : (op : Op) (c : Cache) → 0 < c.max_size → IsBounded c → IsBounded (apply op c)
unfolding apply put get delete cleanup
apply_bound (op_put node) c pos h = put_bound node c (find node.key c.nodes) refl pos h
apply_bound (op_get key now) c pos h = get_bound key now c (find key c.nodes) refl h
apply_bound (op_delete key) c pos h = let q = length-without key c.nodes in omega arith
apply_bound (op_cleanup now) c pos h =
    let q = length-keep (λ (node : Node). not (ltb node.expires_at now)) c.nodes in omega arith

put_size : (o : Option Node) (node : Node) (c : Cache) → (put_by o node c).max_size ≡ c.max_size
put_size none node c = ground arith
put_size (some old) node c = refl

get_size :
    (key : String) (now : ℕ) (o : Option Node) (c : Cache)
    → (get_by key now o c).1.max_size ≡ c.max_size
get_size key now none c = refl
get_size key now (some node) c = ground arith

apply_size : (op : Op) (c : Cache) → (apply op c).max_size ≡ c.max_size
unfolding apply put get delete cleanup
apply_size (op_put node) c = put_size (find node.key c.nodes) node c
apply_size (op_get key now) c = get_size key now (find key c.nodes) c
apply_size (op_delete key) c = refl
apply_size (op_cleanup now) c = refl

-- However the token cache is used, it never has more nodes than its size, which is positive.
pub run-IsBounded :
    (ops : List Op) (c : Cache) → 0 < c.max_size → IsBounded c → IsBounded (run ops c)
unfolding run
run-IsBounded [] c pos h = h
run-IsBounded (op ∷ ops) c pos h =
    run-IsBounded ops (apply op c) (rw apply_size pos) (apply_bound op c pos h)
