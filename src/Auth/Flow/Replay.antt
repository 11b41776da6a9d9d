-- ===== src/Auth/Flow/Replay.antt =====
-- When a callback gives a token, and that a state gives one at most once.
use mcp_zero_trust_proxy.Base.{
  ℕ, ◌+◌, ◌≤◌, String, ◌≡◌, ◌≢◌, ◌↔◌, refl, ap, subst, true, false, Option, none, some, List, [],
  ◌∷◌, ltb, ◌==◌, arith, eq_iff, ==_self, ==_of_ne, ne_of_==, All, Dict, lookup, lookup-insert,
  lookup-remove, Bool-cases, inl, inr,
}
use mcp_zero_trust_proxy.Auth.Flow.{
  Exchange, PkceEntry, access_token, handle_auth_start, handle_callback, consumed, exchanged,
  same_cookie, cleanup_states, ten_minutes,
}

pub data Op : Type 0 where
  op_start : Option String → Option String → ℕ → Op
  op_callback : String → String → Option String → ℕ → Op
  op_cleanup : ℕ → Op

unfoldable pub apply : Exchange → Op → Dict PkceEntry → Dict PkceEntry
apply x (op_start verifier state now) d = (handle_auth_start x verifier state now d).1
apply x (op_callback code state cookie now) d = (handle_callback x code state cookie now d).1
apply x (op_cleanup now) d = cleanup_states now d

unfoldable pub run : Exchange → List Op → Dict PkceEntry → Dict PkceEntry
run x [] d = d
run x (op ∷ ops) d = run x ops (apply x op d)

-- The operation does not store the state anew.
abbrev pub IsNotStart : String → Op → Type 0
IsNotStart state (op_start verifier none now) = Unit
IsNotStart state (op_start verifier (some other) now) = other ≢ state
IsNotStart state (op_callback code other cookie now) = Unit
IsNotStart state (op_cleanup now) = Unit

lookup-cleanup_states :
    (state : String) (now : ℕ) (d : Dict PkceEntry)
    → lookup state d ≡ none
    → lookup state (cleanup_states now d) ≡ none
unfolding lookup cleanup_states
lookup-cleanup_states state now [] h = refl
lookup-cleanup_states state now ((other, entry) ∷ rest) h =
    ground (arith, lookup-cleanup_states state now rest, eq_iff other state)

module _ (x : Exchange) (state : String) where
  start-none :
      (verifier made : Option String) (now : ℕ) (d : Dict PkceEntry)
      → IsNotStart state (op_start verifier made now)
      → lookup state d ≡ none
      → lookup state (handle_auth_start x verifier made now d).1 ≡ none
  unfolding handle_auth_start
  start-none none made now d elsewhere h = h
  start-none (some verifier) none now d elsewhere h = h
  start-none (some verifier) (some other) now d elsewhere h =
      rw (lookup-insert, ==_of_ne other state elsewhere) h

  callback-none :
      (code other : String) (cookie : Option String) (now : ℕ) (d : Dict PkceEntry)
      → lookup state d ≡ none
      → lookup state (handle_callback x code other cookie now d).1 ≡ none
  unfolding handle_callback
  callback-none code other cookie now d h =
      ground (arith, lookup-remove other state d, eq_iff other state)

  apply-none :
      (op : Op) (d : Dict PkceEntry)
      → IsNotStart state op
      → lookup state d ≡ none
      → lookup state (apply x op d) ≡ none
  unfolding apply
  apply-none (op_start verifier made now) d elsewhere h = start-none verifier made now d elsewhere h
  apply-none (op_callback code other cookie now) d elsewhere h =
      callback-none code other cookie now d h
  apply-none (op_cleanup now) d elsewhere h = lookup-cleanup_states state now d h

  run-none :
      (ops : List Op) (d : Dict PkceEntry)
      → All (IsNotStart state) ops
      → lookup state d ≡ none
      → lookup state (run x ops d) ≡ none
  unfolding run
  run-none [] d elsewhere h = h
  run-none (op ∷ ops) d (e, es) h = run-none ops (apply x op d) es (apply-none op d e h)

  exchanged_iff :
      (o : Option String) (token : String) → (exchanged x o ≡ access_token token) ↔ (o ≡ some token)
  exchanged_iff none token = (λ h. cc, λ h. cc)
  exchanged_iff (some t) token = (λ h. cc, λ h. cc)

  consumed_iff :
      (code token : String) (now : ℕ) (o : Option PkceEntry)
      → (consumed x code now o ≡ access_token token) ↔ (
          (entry : PkceEntry) × (o ≡ some entry)
          × (now ≤ entry.created_at + ten_minutes)
          × (x.exchange code entry.verifier ≡ some token))
  consumed_iff code token now none = (λ h. cc, λ (entry, e, _, _). cc)
  consumed_iff code token now (some held) =
      elim (Bool-cases (ltb (held.created_at + ten_minutes) now)) [
        | inl late ↦ (
          λ h. cc (rw late at h),
          λ (entry, e, le, _).
              let same : entry ≡ held = cc in
              let le' : now ≤ held.created_at + ten_minutes =
                subst (λ y. now ≤ y.created_at + ten_minutes) same le in
              absurd (ground arith),
        )
        | inr fresh ↦ (
          λ h. (
            held,
            refl,
            ground arith,
            (exchanged_iff (x.exchange code held.verifier) token).0 (rw fresh at h),
          ),
          λ (entry, e, _, q).
              let same : entry ≡ held = cc in
              rw fresh (
                (exchanged_iff (x.exchange code held.verifier) token).1
                  (subst (λ y. x.exchange code y.verifier ≡ some token) same q)),
        )
      ]

  pub cookie_iff :
      (cookie : Option String) → (same_cookie x cookie state ≡ true) ↔ (cookie ≡ some state)
  cookie_iff none = (λ h. cc, λ h. cc)
  cookie_iff (some c) =
      (λ h. ap some ((eq_iff c state).0 h), λ h. let q : c ≡ state = cc in (eq_iff c state).1 q)

  callback_tests :
      (code : String) (cookie : Option String) (now : ℕ) (d : Dict PkceEntry) (token : String)
      → (handle_callback x code state cookie now d).0 ≡ access_token token
      → ((code == "") ≡ false)
        × ((state == "") ≡ false)
        × (same_cookie x cookie state ≡ true)
        × (consumed x code now (lookup state d) ≡ access_token token)
  unfolding handle_callback
  callback_tests code cookie now d token h = elim (Bool-cases (code == "")) [
    | inl p ↦ cc (rw p at h)
    | inr p ↦ elim (Bool-cases (state == "")) [
      | inl q ↦ cc (rw (p, q) at h)
      | inr q ↦ elim (Bool-cases (same_cookie x cookie state)) [
        | inr c ↦ cc (rw (p, q, c) at h)
        | inl c ↦ (p, q, c, rw (p, q, c) at h)
      ]
    ]
  ]

  -- A callback gives a token exactly when it has a code and a state, the browser's cookie is that
  -- state, the state's login was started at most ten minutes ago and not yet consumed, and the
  -- provider exchanges the code with the verifier of that login.
  pub handle_callback_iff :
      (code : String) (cookie : Option String) (now : ℕ) (d : Dict PkceEntry) (token : String)
      → ((handle_callback x code state cookie now d).0 ≡ access_token token) ↔ (
          (code ≢ "")
          × (state ≢ "")
          × (cookie ≡ some state)
          × ((entry : PkceEntry) × (lookup state d ≡ some entry)
              × (now ≤ entry.created_at + ten_minutes)
              × (x.exchange code entry.verifier ≡ some token)))
  unfolding handle_callback
  handle_callback_iff code cookie now d token = (
    λ h.
        let (p, q, c, e) = callback_tests code cookie now d token h in
        (
          ne_of_== code "" p,
          ne_of_== state "" q,
          (cookie_iff cookie).0 c,
          (consumed_iff code token now (lookup state d)).0 e,
        ),
    λ (p, q, c, e).
        rw (==_of_ne code "" p, ==_of_ne state "" q, (cookie_iff cookie).1 c)
          ((consumed_iff code token now (lookup state d)).1 e),
  )

  consumed_state :
      (code token : String) (cookie : Option String) (now : ℕ) (d : Dict PkceEntry)
      → (handle_callback x code state cookie now d).0 ≡ access_token token
      → lookup state (handle_callback x code state cookie now d).1 ≡ none
  unfolding handle_callback
  consumed_state code token cookie now d h =
      let (p, q, c, _) = callback_tests code cookie now d token h in
      rw (p, q, c, lookup-remove, ==_self) refl

  -- A state gives at most one token: after a callback that gave one, no callback with that state
  -- gives a token, whatever is done in between but a new start with the same random state.
  pub state_used_once :
      (code code' : String) (cookie cookie' : Option String) (now now' : ℕ) (d : Dict PkceEntry)
      (ops : List Op) (token token' : String)
      → (handle_callback x code state cookie now d).0 ≡ access_token token
      → All (IsNotStart state) ops
      → (handle_callback x code' state cookie' now'
          (run x ops (handle_callback x code state cookie now d).1)).0
        ≢ access_token token'
  state_used_once code code' cookie cookie' now now' d ops token token' given elsewhere again =
      let left = run-none ops _ elsewhere (consumed_state code token cookie now d given) in
      let (_, _, _, (entry, found, _, _)) =
        (handle_callback_iff code' cookie' now' _ token').0 again in
      cc
