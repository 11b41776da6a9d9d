-- ===== src/Auth/Flow/Completes.antt =====
-- That a login which is started can be completed.
use mcp_zero_trust_proxy.Base.{
  ℕ, ◌+◌, ◌≤◌, String, ◌≡◌, ◌≢◌, ◌⊎◌, refl, ◌∙◌, ap, false, Option, none, some, List, [], ◌∷◌, ltb,
  ◌==◌, arith, ==_self, ==_of_ne, All, Dict, lookup, insert, lookup-insert, lookup-remove,
  Bool-cases, inl, inr,
}
use mcp_zero_trust_proxy.Auth.Flow.{
  Exchange, PkceEntry, access_token, handle_auth_start, handle_callback, same_cookie,
  cleanup_states, ten_minutes,
}
use mcp_zero_trust_proxy.Auth.Flow.Replay.{
  Op, op_start, op_callback, op_cleanup, apply, run, handle_callback_iff, cookie_iff,
}

-- What others may do while a login waits: start logins with other states, come back with other states
-- or without this state's cookie, and clean up before the login's ten minutes are over.
abbrev pub IsApart : String → PkceEntry → Op → Type 0
IsApart state entry (op_start verifier none now) = Unit
IsApart state entry (op_start verifier (some other) now) = other ≢ state
IsApart state entry (op_callback code other cookie now) = (other ≢ state) ⊎ (cookie ≢ some state)
IsApart state entry (op_cleanup now) = now ≤ entry.created_at + ten_minutes

cleanup-keeps :
    (state : String) (entry : PkceEntry) (now : ℕ) (d : Dict PkceEntry)
    → now ≤ entry.created_at + ten_minutes
    → lookup state d ≡ some entry
    → lookup state (cleanup_states now d) ≡ some entry
unfolding lookup cleanup_states
cleanup-keeps state entry now [] le h = cc
cleanup-keeps state entry now ((other, held) ∷ rest) le h = elim (Bool-cases (other == state)) [
  | inl e ↦
      let same : held ≡ entry = ground (arith, h, e) in
      let fresh : ltb (held.created_at + ten_minutes) now ≡ false = rw same (ground arith) in
      rw (fresh, lookup, e) (ap some same)
  | inr e ↦
      let there = cleanup-keeps state entry now rest le (ground (arith, h, e)) in
      ground (arith, there, e)
]

module _ (x : Exchange) (state : String) (entry : PkceEntry) where
  start-keeps :
      (verifier made : Option String) (now : ℕ) (d : Dict PkceEntry)
      → IsApart state entry (op_start verifier made now)
      → lookup state d ≡ some entry
      → lookup state (handle_auth_start x verifier made now d).1 ≡ some entry
  unfolding handle_auth_start
  start-keeps none made now d apart h = h
  start-keeps (some verifier) none now d apart h = h
  start-keeps (some verifier) (some other) now d apart h =
      rw (lookup-insert, ==_of_ne other state apart) h

  callback-keeps :
      (code other : String) (cookie : Option String) (now : ℕ) (d : Dict PkceEntry)
      → (other ≢ state) ⊎ (cookie ≢ some state)
      → lookup state d ≡ some entry
      → lookup state (handle_callback x code other cookie now d).1 ≡ some entry
  unfolding handle_callback
  callback-keeps code other cookie now d apart h = elim (Bool-cases (code == "")) [
    | inl p ↦ rw p h
    | inr p ↦ elim (Bool-cases (other == "")) [
      | inl q ↦ rw (p, q) h
      | inr q ↦ elim (Bool-cases (same_cookie x cookie other)) [
        | inr c ↦ rw (p, q, c) h
        | inl c ↦ elim apart [
          | inl ne ↦ rw (p, q, c, lookup-remove, ==_of_ne other state ne) h
          | inr ne ↦
              let given : cookie ≡ some other = (cookie_iff x other cookie).0 c in
              let differ : other ≢ state = λ e. ne (given ∙ ap some e) in
              rw (p, q, c, lookup-remove, ==_of_ne other state differ) h
        ]
      ]
    ]
  ]

  run-keeps :
      (ops : List Op) (d : Dict PkceEntry)
      → All (IsApart state entry) ops
      → lookup state d ≡ some entry
      → lookup state (run x ops d) ≡ some entry
  unfolding run apply
  run-keeps [] d apart h = h
  run-keeps (op_start verifier made now ∷ ops) d (a, apart) h =
      run-keeps ops (handle_auth_start x verifier made now d).1 apart
        (start-keeps verifier made now d a h)
  run-keeps (op_callback code other cookie now ∷ ops) d (a, apart) h =
      run-keeps ops (handle_callback x code other cookie now d).1 apart
        (callback-keeps code other cookie now d a h)
  run-keeps (op_cleanup now ∷ ops) d (a, apart) h =
      run-keeps ops (cleanup_states now d) apart (cleanup-keeps state entry now d a h)

-- A login that is started at `t` is completed: whatever others do in between, with other states or
-- without this browser's cookie, a callback with the state, its cookie and a code that the provider
-- exchanges gives the token, up to ten minutes after `t`, cleanups before that included.
pub login_completes :
    (x : Exchange) (state verifier code token : String) (t now : ℕ) (d : Dict PkceEntry)
    (ops : List Op)
    → state ≢ ""
    → code ≢ ""
    → All (IsApart state (record { verifier = verifier; created_at = t })) ops
    → now ≤ t + ten_minutes
    → x.exchange code verifier ≡ some token
    → (handle_callback x code state
        (some state)
        now
        (run x ops (handle_auth_start x (some verifier) (some state) t d).1)).0
      ≡ access_token token
unfolding handle_auth_start
login_completes x state verifier code token t now d ops named coded apart le given =
    let entry : PkceEntry = record { verifier = verifier; created_at = t } in
    let stored : lookup state (insert state entry d) ≡ some entry =
      rw (lookup-insert, ==_self) refl in
    let kept = run-keeps x state entry ops (insert state entry d) apart stored in
    (handle_callback_iff x state code (some state) now (run x ops (insert state entry d)) token).1
      (coded, named, refl, (entry, kept, le, given))
