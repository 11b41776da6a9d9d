-- ===== src/Auth/Tokens/Entries.antt =====
-- What holds of every entry that is put into the token cache holds of every entry and every answer.
use mcp_zero_trust_proxy.Base.{
  ℕ, ◌≤◌, String, ◌≡◌, refl, subst, Bool, Option, none, some, List, [], ◌∷◌, ltb, leb, ◌==◌, arith,
  keep, length, All, Bool-cases, inl, inr,
}
use mcp_zero_trust_proxy.Protocol.{ClientIdentity}
use mcp_zero_trust_proxy.Auth.Tokens.{
  Node, Cache, find, without, drop_back, put, put_by, get, get_by, delete, cleanup,
}

module _ (P : Node → Type 0) where
  without-All : (key : String) (nodes : List Node) → All P nodes → All P (without key nodes)
  unfolding without
  without-All key [] h = tt
  without-All key (node ∷ nodes) (p, h) = elim (Bool-cases (node.key == key)) [
    | inl same ↦ rw same h
    | inr other ↦ rw other (p, without-All key nodes h)
  ]

  drop_back-All : (nodes : List Node) → All P nodes → All P (drop_back nodes)
  unfolding drop_back
  drop_back-All [] h = tt
  drop_back-All (node ∷ []) h = tt
  drop_back-All (node ∷ next ∷ nodes) (p, h) = (p, drop_back-All (next ∷ nodes) h)

  keep-All : (f : Node → Bool) (nodes : List Node) → All P nodes → All P (keep f nodes)
  unfolding keep
  keep-All f [] h = tt
  keep-All f (node ∷ nodes) (p, h) = elim (Bool-cases (f node)) [
    | inl kept ↦ rw kept (p, keep-All f nodes h)
    | inr gone ↦ rw gone (keep-All f nodes h)
  ]

  find-All :
      (key : String) (nodes : List Node) (node : Node)
      → All P nodes
      → find key nodes ≡ some node
      → P node
  unfolding find
  find-All key [] node h e = cc
  find-All key (x ∷ nodes) node (p, h) e = elim (Bool-cases (x.key == key)) [
    | inl same ↦ let q : x ≡ node = cc (rw same at e) in subst P q p
    | inr other ↦ find-All key nodes node h (rw other at e)
  ]

  put_by-All :
      (o : Option Node) (node : Node) (c : Cache)
      → P node
      → All P c.nodes
      → All P (put_by o node c).nodes
  put_by-All (some old) node c p h = (p, without-All node.key c.nodes h)
  put_by-All none node c p h = elim (Bool-cases (leb c.max_size (length c.nodes))) [
    | inl full ↦ rw full (p, drop_back-All c.nodes h)
    | inr space ↦ rw space (p, h)
  ]

  pub put-All : (node : Node) (c : Cache) → P node → All P c.nodes → All P (put node c).nodes
  unfolding put
  put-All node c p h = put_by-All (find node.key c.nodes) node c p h

  get_by-All :
      (key : String) (now : ℕ) (o : Option Node) (c : Cache)
      → find key c.nodes ≡ o
      → All P c.nodes
      → All P (get_by key now o c).1.nodes
  get_by-All key now none c e h = h
  get_by-All key now (some node) c e h = elim (Bool-cases (ltb node.expires_at now)) [
    | inl late ↦ rw late (without-All key c.nodes h)
    | inr alive ↦ rw alive (find-All key c.nodes node h e, without-All key c.nodes h)
  ]

  pub get-All : (key : String) (now : ℕ) (c : Cache) → All P c.nodes → All P (get key now c).1.nodes
  unfolding get
  get-All key now c h = get_by-All key now (find key c.nodes) c refl h

  pub delete-All : (key : String) (c : Cache) → All P c.nodes → All P (delete key c).nodes
  unfolding delete
  delete-All key c h = without-All key c.nodes h

  pub cleanup-All : (now : ℕ) (c : Cache) → All P c.nodes → All P (cleanup now c).nodes
  unfolding cleanup
  cleanup-All now c h = keep-All _ c.nodes h

  get_by_found :
      (key : String) (now : ℕ) (o : Option Node) (c : Cache) (i : ClientIdentity)
      → find key c.nodes ≡ o
      → All P c.nodes
      → (get_by key now o c).0 ≡ some i
      → (node : Node) × P node × (node.identity ≡ i) × (now ≤ node.expires_at)
  get_by_found key now none c i e h q = cc
  get_by_found key now (some node) c i e h q = elim (Bool-cases (ltb node.expires_at now)) [
    | inl late ↦ cc (rw late at q)
    | inr alive ↦ (node, find-All key c.nodes node h e, cc (rw alive at q), ground arith)
  ]

  -- An identity that the cache gives is that of an entry which has not expired.
  pub get_found :
      (key : String) (now : ℕ) (c : Cache) (i : ClientIdentity)
      → All P c.nodes
      → (get key now c).0 ≡ some i
      → (node : Node) × P node × (node.identity ≡ i) × (now ≤ node.expires_at)
  unfolding get
  get_found key now c i h q = get_by_found key now (find key c.nodes) c i refl h q
