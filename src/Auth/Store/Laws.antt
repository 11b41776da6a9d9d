-- ===== src/Auth/Store/Laws.antt =====
-- What a client of the session store can see: `cleanup` is invisible, sessions are apart.
use mcp_zero_trust_proxy.Base.{
  ℕ, ◌≤◌, ◌<◌, String, ◌≡◌, ◌↔◌, refl, subst, Option, none, some, [], ◌∷◌, ltb, arith,
  if◌then◌else◌, Dict, lookup, insert, remove, lookup-insert, lookup-remove, ok, Bool-cases, inl,
  inr, eq_iff,
}
use mcp_zero_trust_proxy.Auth.Store.{
  Session, SessionStore, get, found, cleanup, unexpired, refreshed,
}

-- A map has each key once.
abbrev pub IsMap : Dict Session → Type 0
IsMap [] = Unit
IsMap ((id, session) ∷ rest) = (lookup id rest ≡ none) × IsMap rest

-- The session, unless it has expired.
abbrev pub live : ℕ → Option Session → Option Session
live now none = none
live now (some session) = if ltb session.expires_at now then none else some session

pub lookup-unexpired :
    (id : String) (now : ℕ) (d : Dict Session)
    → IsMap d
    → lookup id (unexpired now d) ≡ live now (lookup id d)
unfolding lookup unexpired
lookup-unexpired id now [] h = refl
lookup-unexpired id now ((held, session) ∷ rest) (fresh, h) =
    ground (arith, lookup-unexpired id now rest h, eq_iff held id)

pub insert-IsMap :
    (id : String) (session : Session) (d : Dict Session) → IsMap d → IsMap (insert id session d)
unfolding insert lookup
insert-IsMap id session [] h = (refl, tt)
insert-IsMap id session ((held, old) ∷ rest) (fresh, h) = ground (
  arith,
  insert-IsMap id session rest h,
  eq_iff held id,
  eq_iff id held,
  lookup-insert id held session rest,
)

pub remove-IsMap : (id : String) (d : Dict Session) → IsMap d → IsMap (remove id d)
unfolding remove lookup
remove-IsMap id [] h = tt
remove-IsMap id ((held, old) ∷ rest) (fresh, h) =
    ground (arith, remove-IsMap id rest h, eq_iff held id, lookup-remove id held rest)

pub unexpired-IsMap : (now : ℕ) (d : Dict Session) → IsMap d → IsMap (unexpired now d)
unfolding unexpired lookup
unexpired-IsMap now [] h = tt
unexpired-IsMap now ((held, old) ∷ rest) (fresh, h) =
    ground (arith, unexpired-IsMap now rest h, lookup-unexpired held now rest h)

module _ (id : String) (now later : ℕ) (s : SessionStore) (x : Session) where
  found_ok :
      (o : Option Session)
      → ((found id now later s o).0 ≡ ok x) ↔ (
          (held : Session) × (o ≡ some held)
          × (now ≤ held.expires_at)
          × (x ≡ refreshed held later s.ttl))
  found_ok none = (λ h. cc, λ (held, e, _, _). cc)
  found_ok (some held) = elim (Bool-cases (ltb held.expires_at now)) [
    | inl late ↦ (
      λ h. cc (rw late at h),
      λ (held', e, le, _).
          let same : held' ≡ held = cc in
          let le' : now ≤ held.expires_at = subst (λ y. now ≤ y.expires_at) same le in
          absurd (ground arith),
    )
    | inr alive ↦ (
      λ h. (held, refl, ground arith, cc (rw alive at h)),
      λ (held', e, _, q).
          let same : held' ≡ held = cc in
          rw alive (cc (subst (λ y. x ≡ refreshed y later s.ttl) same q)),
    )
  ]

  -- `get` gives a session exactly when the store holds one of that id that has not expired, and then
  -- gives it with its access time and its expiry renewed.
  pub get_iff : ((get id now later s).0 ≡ ok x) ↔ (
      (held : Session) × (lookup id s.sessions ≡ some held)
      × (now ≤ held.expires_at)
      × (x ≡ refreshed held later s.ttl))
  unfolding get
  get_iff = found_ok (lookup id s.sessions)

live-some :
    (early now : ℕ) (o : Option Session) (held : Session)
    → early ≤ now
    → now ≤ held.expires_at
    → (live early o ≡ some held) ↔ (o ≡ some held)
live-some early now none held le alive = (λ h. h, λ h. h)
live-some early now (some x) held le alive = elim (Bool-cases (ltb x.expires_at early)) [
  | inl late ↦ rw late (
    λ h. cc,
    λ h.
        let same : x ≡ held = cc in
        let q : held.expires_at < early = subst (λ y. y.expires_at < early) same (ground arith) in
        absurd (omega arith),
  )
  | inr p ↦ rw p (λ h. h, λ h. h)
]

module _ (id : String) (early now later : ℕ) (s : SessionStore) (x : Session) where
  -- `cleanup` cannot be seen: in a store whose map has each key once, after a cleanup at an earlier
  -- time, or the same, `get` gives the same sessions, each as it would have without it.
  pub cleanup_invisible :
      IsMap s.sessions
      → early ≤ now
      → ((get id now later (cleanup early s)).0 ≡ ok x) ↔ ((get id now later s).0 ≡ ok x)
  unfolding cleanup
  cleanup_invisible map le =
      let (to, from) = get_iff id now later s x in
      let (to', from') = get_iff id now later (cleanup early s) x in
      (
        λ h.
            let (held, e, alive, q) = to' h in
            from (
              held,
              (live-some early now _ held le alive).0
                  (rw (lookup-unexpired id early s.sessions map) at e),
              alive,
              q,
            ),
        λ h.
            let (held, e, alive, q) = to h in
            from' (
              held,
              rw (lookup-unexpired id early s.sessions map)
                  ((live-some early now _ held le alive).1 e),
              alive,
              q,
            ),
      )
