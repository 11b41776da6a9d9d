-- ===== src/RateLimit/Isolation.antt =====
-- One client's answers in the shared table, against the same calls on a bucket of its own.
use mcp_zero_trust_proxy.Base.{
  ℕ, String, ◌≡◌, refl, ◌∙◌, ap, Bool, true, false, some, List, [], ◌∷◌, if◌then◌else◌, ◌==◌,
  eq_iff, Dict, lookup, insert, lookup-insert, Bool-cases, inl, inr,
}
use mcp_zero_trust_proxy.RateLimit.{Buckets, ClientState, Limiter, touched, get_or_create, allow}

module _ {L : Type 0} (b : Buckets L) where
  -- The answers that the calls of client `k` get among the calls of all clients.
  unfoldable pub answers : String → List (String × ℕ) → Limiter L → List Bool
  answers k [] s = []
  answers k ((id, now) ∷ calls) s =
      let rest = answers k calls (allow b id now s).1 in
      if id == k then (allow b id now s).0 ∷ rest else rest

  -- The answers of one bucket to calls at these times.
  unfoldable pub solo : List ℕ → L → List Bool
  solo [] l = []
  solo (now ∷ times) l = let rest = solo times (b.allow l now).1 in (b.allow l now).0 ∷ rest

  -- The times of the client's own calls.
  unfoldable pub times_of : String → List (String × ℕ) → List ℕ
  times_of k [] = []
  times_of k ((id, now) ∷ calls) =
      let rest = times_of k calls in if id == k then now ∷ rest else rest

  -- The client's bucket, a full one if it has none yet.
  abbrev pub bucket : String → Limiter L → L
  bucket k s = touched b s.default_rate s.default_burst (lookup k s.clients)

  insert_twice :
      (k id : String) (x y : ClientState L) (d : Dict (ClientState L))
      → lookup k (insert id y (insert id x d)) ≡ (if id == k then some y else lookup k d)
  insert_twice k id x y d = elim (Bool-cases (id == k)) [
    | inl same ↦ rw (lookup-insert, lookup-insert, same) refl
    | inr other ↦ rw (lookup-insert, lookup-insert, other) refl
  ]

  bucket_own :
      (k id : String) (now : ℕ) (s : Limiter L)
      → (id == k) ≡ true
      → bucket k (allow b id now s).1 ≡ (b.allow (bucket k s) now).1
  unfolding allow get_or_create
  bucket_own k id now s same = rw (insert_twice, same, (eq_iff id k).0 same) refl

  answer_own :
      (k id : String) (now : ℕ) (s : Limiter L)
      → (id == k) ≡ true
      → (allow b id now s).0 ≡ (b.allow (bucket k s) now).0
  unfolding allow get_or_create
  answer_own k id now s same = rw ((eq_iff id k).0 same) refl

  bucket_other :
      (k id : String) (now : ℕ) (s : Limiter L)
      → (id == k) ≡ false
      → bucket k (allow b id now s).1 ≡ bucket k s
  unfolding allow get_or_create
  bucket_other k id now s other = rw (insert_twice, other) refl

  -- Whatever other clients ask in between, and in whatever order, a client's calls get the answers
  -- that they would get from a bucket of its own: no client spends another's tokens.
  pub answers-solo :
      (k : String) (calls : List (String × ℕ)) (s : Limiter L)
      → answers k calls s ≡ solo (times_of k calls) (bucket k s)
  unfolding answers solo times_of
  answers-solo k [] s = refl
  answers-solo k ((id, now) ∷ calls) s = elim (Bool-cases (id == k)) [
    | inl same ↦
        let rest =
          answers-solo k calls (allow b id now s).1
          ∙ ap (solo (times_of k calls)) (bucket_own k id now s same) in
        rw same (cc (answer_own k id now s same, rest))
    | inr other ↦ rw other (
        answers-solo k calls (allow b id now s).1
        ∙ ap (solo (times_of k calls)) (bucket_other k id now s other))
  ]
