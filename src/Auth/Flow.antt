-- ===== src/Auth/Flow.antt =====
-- internal/auth/oauth.go, `HandleAuthStart`, `HandleCallback` and the part of `runCleanup` on
-- `stateCache`: the PKCE login. Random texts and the clock are arguments; the provider's answer to the
-- exchange of a code, and the challenge of a verifier, are the record `Exchange`.
pub mod Replay
pub mod Completes
mod Tests
use mcp_zero_trust_proxy.Base.{
  ℕ, ◌+◌, ◌*◌, String, Bool, not, Option, none, some, List, [], ◌∷◌, ltb, ◌==◌, if◌then◌else◌, Dict,
  lookup, insert, remove,
}

-- `exchange` has the code and the verifier, and is `none` on any error.
pub record Exchange : Type 0 where
  pub exchange : String → String → Option String
  pub challenge : String → String

pub record PkceEntry : Type 0 where
  pub verifier : String
  pub created_at : ℕ

-- The redirect carries the state, which is also the cookie's value, and the challenge.
pub data StartAnswer : Type 0 where
  verifier_failed state_failed : StartAnswer
  redirect : String → String → StartAnswer

pub data CallbackAnswer : Type 0 where
  missing_code missing_state csrf_failed unknown_state state_expired exchange_failed :
      CallbackAnswer
  access_token : String → CallbackAnswer

abbrev pub ten_minutes : ℕ
ten_minutes = 10 * 60 * 1000000000

module _ (x : Exchange) where
  abbrev started : String → Option String → ℕ → Dict PkceEntry → StartAnswer × Dict PkceEntry
  started verifier none now states = (state_failed, states)
  started verifier (some state) now states = (
    redirect state (x.challenge verifier),
    insert state (record { verifier = verifier; created_at = now }) states,
  )

  -- The verifier and the state are `none` where no random bytes could be read.
  unfoldable pub handle_auth_start :
      Option String → Option String → ℕ → Dict PkceEntry → StartAnswer × Dict PkceEntry
  handle_auth_start none state now states = (verifier_failed, states)
  handle_auth_start (some verifier) state now states = started verifier state now states

  abbrev same_cookie : Option String → String → Bool
  same_cookie none state = Bool.false
  same_cookie (some cookie) state = cookie == state

  abbrev exchanged : Option String → CallbackAnswer
  exchanged none = exchange_failed
  exchanged (some token) = access_token token

  abbrev consumed : String → ℕ → Option PkceEntry → CallbackAnswer
  consumed code now none = unknown_state
  consumed code now (some entry) =
      if ltb (entry.created_at + ten_minutes) now
      then state_expired
      else exchanged (x.exchange code entry.verifier)

  -- `code` and `state` are the query's, empty where absent; `cookie` is the browser's.
  unfoldable pub handle_callback :
      String → String → Option String → ℕ → Dict PkceEntry → CallbackAnswer × Dict PkceEntry
  handle_callback code state cookie now states =
      if code == ""
      then (missing_code, states)
      else if state == ""
      then (missing_state, states)
      else if not (same_cookie cookie state)
      then (csrf_failed, states)
      else (consumed code now (lookup state states), remove state states)

unfoldable pub cleanup_states : ℕ → Dict PkceEntry → Dict PkceEntry
cleanup_states now [] = []
cleanup_states now ((state, entry) ∷ rest) =
    let others = cleanup_states now rest in
    if ltb (entry.created_at + ten_minutes) now then others else (state, entry) ∷ others
