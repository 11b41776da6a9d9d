-- ===== src/Auth/Flow/Tests.antt =====
-- A login from its start to its token, and a replay of it.
use mcp_zero_trust_proxy.Base.{
  arith, inr, ◌≤◌, ◌+◌, String, ◌≡◌, ◌≢◌, ◌↔◌, refl, Option, none, some, [], ◌∷◌, ◌==◌,
  if◌then◌else◌, ne_of_==, lookup, insert, Dict,
}
use mcp_zero_trust_proxy.Auth.Flow.{
  Exchange, PkceEntry, access_token, csrf_failed, handle_auth_start, handle_callback, ten_minutes,
}
use mcp_zero_trust_proxy.Auth.Flow.Completes.{login_completes}
use mcp_zero_trust_proxy.Auth.Flow.Replay.{
  op_start, op_callback, op_cleanup, run, handle_callback_iff, state_used_once,
}

-- The provider exchanges any code with the right verifier.
abbrev provider : Exchange
provider = record {
  exchange = λ code verifier. if verifier == "v" then some "token" else none;
  challenge = λ verifier. verifier;
}

abbrev started_states : Dict PkceEntry
started_states = ("s", record { verifier = "v"; created_at = 5 }) ∷ []

start_stores : (handle_auth_start provider (some "v") (some "s") 5 []).1 ≡ started_states
unfolding handle_auth_start insert
start_stores = refl

token_given :
    (handle_callback provider "c" "s" (some "s") 6 started_states).0 ≡ access_token "token"
unfolding handle_callback lookup
token_given = refl

other_browser : (handle_callback provider "c" "s" (some "t") 6 started_states).0 ≡ csrf_failed
unfolding handle_callback
other_browser = refl

handle_callback_iff_example :
    ((handle_callback provider "c" "s" (some "s") 6 started_states).0 ≡ access_token "token") ↔ (
      (◌≢◌ {A = String} "c" "")
      × (◌≢◌ {A = String} "s" "")
      × (◌≡◌ {A = Option String} (some "s") (some "s"))
      × ((entry : PkceEntry) × (lookup "s" started_states ≡ some entry)
          × (6 ≤ entry.created_at + ten_minutes)
          × (provider.exchange "c" entry.verifier ≡ some "token")))
handle_callback_iff_example =
    handle_callback_iff provider "s" "c" (some "s") 6 started_states "token"

state_used_once_example :
    (handle_callback provider "c2" "s" (some "s") 8 (
      run provider
        (op_start (some "v") (some "t") 7 ∷ op_cleanup 7 ∷ [])
        (handle_callback provider "c" "s" (some "s") 6 started_states).1)).0
    ≢ access_token "token"
state_used_once_example =
    state_used_once provider "s" "c" "c2" (some "s") (some "s") 6 8 started_states
      (op_start (some "v") (some "t") 7 ∷ op_cleanup 7 ∷ []) "token" "token" token_given
      (ne_of_== "t" "s" refl, (tt, tt))

login_completes_example :
    (handle_callback provider "c" "s" (some "s") 9 (
      run provider
        (op_start (some "w") (some "t") 6 ∷ op_callback "c" "s" none 7 ∷ op_cleanup 8 ∷ [])
        (handle_auth_start provider (some "v") (some "s") 5 []).1)).0
    ≡ access_token "token"
login_completes_example =
    login_completes provider "s" "v" "c" "token" 5 9 []
      (op_start (some "w") (some "t") 6 ∷ op_callback "c" "s" none 7 ∷ op_cleanup 8 ∷ [])
      (ne_of_== "s" "" refl) (ne_of_== "c" "" refl)
      (ne_of_== "t" "s" refl, (inr (λ q. cc), (omega arith, tt))) (omega arith) refl
