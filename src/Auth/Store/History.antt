-- ===== src/Auth/Store/History.antt =====
-- Sequences of operations of the session store, as the proxy's goroutines interleave them under the
-- store's lock: what becomes of one session while others are served.
use mcp_zero_trust_proxy.Base.{
  ℕ, ◌+◌, ◌≤◌, String, ◌≡◌, ◌≢◌, refl, ◌∙◌, ap, Option, none, some, List, [], ◌∷◌, ltb, leb,
  ==_of_ne, ==_self, arith, if◌then◌else◌, Dict, lookup, insert, remove, lookup-insert,
  lookup-remove, All, Result, ok, err, Bool-cases, inl, inr,
}
use mcp_zero_trust_proxy.Protocol.{ClientIdentity}
use mcp_zero_trust_proxy.Auth.Store.{
  Session, SessionStore, create, get, found, delete, cleanup, refreshed, new_session,
}
use mcp_zero_trust_proxy.Auth.Store.Laws.{
  IsMap, live, lookup-unexpired, insert-IsMap, remove-IsMap, unexpired-IsMap,
}

pub data Op : Type 0 where
  op_create : Option String → ClientIdentity → ℕ → Op
  op_get : String → ℕ → ℕ → Op
  op_delete : String → Op
  op_cleanup : ℕ → Op

unfoldable pub apply : Op → SessionStore → SessionStore
apply (op_create id identity now) s = (create id identity now s).1
apply (op_get id now later) s = (get id now later s).1
apply (op_delete id) s = delete id s
apply (op_cleanup now) s = cleanup now s

unfoldable pub run : List Op → SessionStore → SessionStore
run [] s = s
run (op ∷ ops) s = run ops (apply op s)

-- The operation is about another session than `id`, or is a cleanup no later than `now`.
abbrev pub IsElsewhere : String → ℕ → Op → Type 0
IsElsewhere id now (op_create none identity t) = Unit
IsElsewhere id now (op_create (some other) identity t) = other ≢ id
IsElsewhere id now (op_get other t later) = other ≢ id
IsElsewhere id now (op_delete other) = other ≢ id
IsElsewhere id now (op_cleanup t) = t ≤ now

found-IsMap :
    (id : String) (now later : ℕ) (s : SessionStore) (o : Option Session)
    → IsMap s.sessions
    → IsMap (found id now later s o).1.sessions
found-IsMap id now later s none map = map
found-IsMap id now later s (some x) map = elim (Bool-cases (ltb x.expires_at now)) [
  | inl late ↦ rw late (remove-IsMap id s.sessions map)
  | inr alive ↦ rw alive (insert-IsMap id (refreshed x later s.ttl) s.sessions map)
]

-- Every operation keeps each key of the map once.
pub apply-IsMap : (op : Op) (s : SessionStore) → IsMap s.sessions → IsMap (apply op s).sessions
unfolding apply create get delete cleanup
apply-IsMap (op_create none identity now) s map = map
apply-IsMap (op_create (some id) identity now) s map =
    insert-IsMap id (new_session id identity now s.ttl) s.sessions map
apply-IsMap (op_get id now later) s map = found-IsMap id now later s (lookup id s.sessions) map
apply-IsMap (op_delete id) s map = remove-IsMap id s.sessions map
apply-IsMap (op_cleanup now) s map = unexpired-IsMap now s.sessions map

found_ttl :
    (id : String) (now later : ℕ) (s : SessionStore) (o : Option Session)
    → (found id now later s o).1.ttl ≡ s.ttl
found_ttl id now later s none = refl
found_ttl id now later s (some x) = ground arith

apply_ttl : (op : Op) (s : SessionStore) → (apply op s).ttl ≡ s.ttl
unfolding apply create get delete cleanup
apply_ttl (op_create none identity now) s = refl
apply_ttl (op_create (some id) identity now) s = refl
apply_ttl (op_get id now later) s = found_ttl id now later s (lookup id s.sessions)
apply_ttl (op_delete id) s = refl
apply_ttl (op_cleanup now) s = refl

run_ttl : (ops : List Op) (s : SessionStore) → (run ops s).ttl ≡ s.ttl
unfolding run
run_ttl [] s = refl
run_ttl (op ∷ ops) s = run_ttl ops (apply op s) ∙ apply_ttl op s

live-live :
    (early now : ℕ) (o : Option Session) → early ≤ now → live now (live early o) ≡ live now o
live-live early now none le = refl
live-live early now (some x) le = ground arith

module _ (id : String) (now : ℕ) where
  insert_other :
      (other : String) (x : Session) (d : Dict Session)
      → other ≢ id
      → lookup id (insert other x d) ≡ lookup id d
  insert_other other x d ne = rw (lookup-insert other id x d, ==_of_ne other id ne) refl

  remove_other :
      (other : String) (d : Dict Session) → other ≢ id → lookup id (remove other d) ≡ lookup id d
  remove_other other d ne = rw (lookup-remove other id d, ==_of_ne other id ne) refl

  found_other :
      (other : String) (t later : ℕ) (s : SessionStore) (o : Option Session)
      → other ≢ id
      → lookup id (found other t later s o).1.sessions ≡ lookup id s.sessions
  found_other other t later s none ne = refl
  found_other other t later s (some x) ne = elim (Bool-cases (ltb x.expires_at t)) [
    | inl late ↦ rw late (remove_other other s.sessions ne)
    | inr alive ↦ rw alive (insert_other other (refreshed x later s.ttl) s.sessions ne)
  ]

  live-apply :
      (op : Op) (s : SessionStore)
      → IsMap s.sessions
      → IsElsewhere id now op
      → live now (lookup id (apply op s).sessions) ≡ live now (lookup id s.sessions)
  unfolding apply create get delete cleanup
  live-apply (op_create none identity t) s map e = refl
  live-apply (op_create (some other) identity t) s map e =
      ap (live now) (insert_other other (new_session other identity t s.ttl) s.sessions e)
  live-apply (op_get other t later) s map e =
      ap (live now) (found_other other t later s (lookup other s.sessions) e)
  live-apply (op_delete other) s map e = ap (live now) (remove_other other s.sessions e)
  live-apply (op_cleanup t) s map e =
      ap (live now) (lookup-unexpired id t s.sessions map)
      ∙ live-live t now (lookup id s.sessions) e

  live-run :
      (ops : List Op) (s : SessionStore)
      → IsMap s.sessions
      → All (IsElsewhere id now) ops
      → live now (lookup id (run ops s).sessions) ≡ live now (lookup id s.sessions)
  unfolding run
  live-run [] s map e = refl
  live-run (op ∷ ops) s map (e, es) =
      live-run ops (apply op s) (apply-IsMap op s map) es ∙ live-apply op s map e

-- The result of `get`, from what is live.
abbrev answer : ℕ → ℕ → Option Session → Option Session
answer later ttl none = none
answer later ttl (some x) = some (refreshed x later ttl)

abbrev pub to_option : {E A : Type 0} → Result E A → Option A
to_option (ok a) = some a
to_option (err e) = none

found-live :
    (id : String) (now later : ℕ) (s : SessionStore) (o : Option Session)
    → to_option (found id now later s o).0 ≡ answer later s.ttl (live now o)
found-live id now later s none = refl
found-live id now later s (some x) = ground arith

answer-live :
    (x : Session) (now later ttl : ℕ)
    → answer later ttl (live now (some x))
      ≡ (if leb now x.expires_at then some (refreshed x later ttl) else none)
answer-live x now later ttl = ground arith

-- In a store whose map has each key once, a session that is created at `t` under the id that
-- `generateUUID` gave is found, with its client and role and renewed, by a `get` up to the time
-- `t + ttl` and by none after, whatever is done in between to other sessions, and however often the
-- store is cleaned up at times no later than that `get`.
pub session_lifetime :
    (id : String) (identity : ClientIdentity) (t now later : ℕ) (s : SessionStore) (ops : List Op)
    → IsMap s.sessions
    → All (IsElsewhere id now) ops
    → to_option (get id now later (run ops (create (some id) identity t s).1)).0 ≡ (
        if leb now (t + s.ttl)
        then some (refreshed (new_session id identity t s.ttl) later s.ttl)
        else none)
unfolding get create
session_lifetime id identity t now later s ops map elsewhere =
    let made = (create (some id) identity t s).1 in
    let x = new_session id identity t s.ttl in
    let kept = live-run id now ops made (insert-IsMap id x s.sessions map) elsewhere in
    let stored : lookup id made.sessions ≡ some x =
      rw (lookup-insert id id x s.sessions, ==_self id) refl in
    let seen = found-live id now later (run ops made) (lookup id (run ops made).sessions) in
    let result : answer later s.ttl (live now (some x)) ≡ _ = answer-live x now later s.ttl in
    seen
    ∙ ap (λ ttl. answer later ttl (live now (lookup id (run ops made).sessions))) (run_ttl ops made)
    ∙ ap (answer later s.ttl) (kept ∙ ap (live now) stored)
    ∙ result
