-- ===== src/Auth/Login.antt =====
-- internal/auth/oauth.go: authentication of a request by its Bearer token, and logout. What the
-- identity provider answers, and the standard library's tests on texts, are parameters.
pub mod Admission
mod Tests
use mcp_zero_trust_proxy.Base.{
  ℕ, ◌+◌, ◌*◌, String, Bool, true, false, not, Option, none, some, List, [], ◌∷◌, ◌==◌,
  if◌then◌else◌, Dict, lookup, Result, ok, err,
}
use text.Mathlib.Text.{starts_with}
use mcp_zero_trust_proxy.Protocol.{Json, str, num, ClientIdentity}
use mcp_zero_trust_proxy.Auth.Store.{SessionStore, Session}
use mcp_zero_trust_proxy.Auth.Store as Store
use mcp_zero_trust_proxy.Auth.Tokens.{Cache, Node}
use mcp_zero_trust_proxy.Auth.Tokens as Tokens

-- `user_info` is the provider's decoded answer for a token, `none` on any error; `match_string` has
-- the pattern first, and is false on a pattern that does not compile.
pub record Outside : Type 0 where
  pub user_info : String → Option (Dict Json)
  pub format_float : String → String
  pub contains : String → String → Bool
  pub has_suffix : String → String → Bool
  pub match_string : String → String → Bool
  pub compiles : String → Bool

-- `config.ClaimRule`.
pub record ClaimRule : Type 0 where
  pub claim : String
  pub operator : String
  pub value : String
  pub role : String

-- A nil regular expression or map is `none`.
pub record Authenticator : Type 0 where
  pub user_roles : Option (Dict String)
  pub default_role : String
  pub claim_rules : List ClaimRule
  pub allow_regex : Option String
  pub deny_regex : Option String
  pub tokens : Cache
  pub sessions : SessionStore

pub data AuthError : Type 0 where
  header_required wrong_scheme empty_token authentication_failed : AuthError
  user_restricted user_not_allowed session_failed : AuthError

-- The clock at the calls of `time.Now`, in their order, and the session's UUID.
pub record Moment : Type 0 where
  pub at_get : ℕ
  pub at_create : ℕ
  pub at_put : ℕ
  pub uuid : Option String

abbrev pub set_user_roles : Option (Dict String) → String → Authenticator → Authenticator
set_user_roles mapping default_role a = record a {
  user_roles = mapping;
  default_role = default_role;
}

abbrev pub set_claim_rules : List ClaimRule → Authenticator → Authenticator
set_claim_rules rules a = record a { claim_rules = rules }

abbrev drop_chars : ℕ → String → String
drop_chars ℕ.zero s = s
drop_chars (ℕ.suc n) String.[] = ""
drop_chars (ℕ.suc n) (String.◌∷◌ c s) = drop_chars n s

unfoldable pub extract_bearer_token : String → Result AuthError String
extract_bearer_token header =
    if header == ""
    then err header_required
    else if not (starts_with header "Bearer ")
    then err wrong_scheme
    else if drop_chars 7 header == ""
    then err empty_token
    else ok (drop_chars 7 header)

abbrev text_of : Option Json → Option String
text_of none = none
text_of (some (str s)) = some s
text_of (some _) = none

-- `info[name].(string)`
abbrev pub text_claim : String → Dict Json → Option String
text_claim name info = text_of (lookup name info)

abbrev or_text : Option String → String → String
or_text none s = s
or_text (some s') s = s'

module _ (o : Outside) where
  abbrev id_of : Option Json → Dict Json → String
  id_of (some (str s)) info = s
  id_of (some (num n)) info = o.format_float n
  id_of _ info = or_text (text_claim "sub" info) (or_text (text_claim "login" info) "")

  abbrev pub client_id_of : Dict Json → String
  client_id_of info = id_of (lookup "id" info) info

  abbrev identity_of : Dict Json → ClientIdentity
  identity_of info = record {
    client_id = client_id_of info;
    immutable_id =
        let sub = or_text (text_claim "sub" info) "" in
        if sub == "" then client_id_of info else sub;
    role = "readonly";
    session_id = "";
    email = or_text (text_claim "email" info) "";
    claims = info;
  }

  abbrev identified : Option (Dict Json) → Option ClientIdentity
  identified none = none
  identified (some info) = if client_id_of info == "" then none else some (identity_of info)

  -- `none` is an error, of which the caller sees only that authentication failed.
  unfoldable pub fetch_user_identity : String → Option ClientIdentity
  fetch_user_identity token = identified (o.user_info token)

  abbrev matches : ClaimRule → String → Bool
  matches rule claim =
      if rule.operator == "equals"
      then claim == rule.value
      else if rule.operator == "contains"
      then o.contains claim rule.value
      else if rule.operator == "starts_with"
      then starts_with claim rule.value
      else if rule.operator == "ends_with"
      then o.has_suffix claim rule.value
      else if rule.operator == "regex"
      then o.match_string rule.value claim
      else false

  abbrev pub applies : ClaimRule → Option String → Bool
  applies rule none = false
  applies rule (some claim) = matches rule claim

  -- The role of the first rule that matches, or empty.
  unfoldable pub evaluate_claim_rules : List ClaimRule → Dict Json → String
  evaluate_claim_rules [] claims = ""
  evaluate_claim_rules (rule ∷ rules) claims =
      let rest = evaluate_claim_rules rules claims in
      if applies rule (text_claim rule.claim claims) then rule.role else rest

  abbrev pub mapped : Option (Dict String) → String → Option String
  mapped none email = none
  mapped (some roles) email = lookup email roles

  unfoldable pub resolve_role : Authenticator → String → String
  resolve_role a email =
      or_text (mapped a.user_roles email)
        (if a.default_role == "" then "readonly" else a.default_role)

  abbrev pub role_for : Authenticator → ClientIdentity → String
  role_for a identity =
      let claimed = evaluate_claim_rules a.claim_rules identity.claims in
      if claimed == "" then resolve_role a identity.email else claimed

  abbrev pub is_denied : Authenticator → String → Bool
  is_denied a email = elim a.deny_regex [
    | none ↦ false
    | some pattern ↦ o.match_string pattern email
  ]

  abbrev pub is_allowed : Authenticator → String → Bool
  is_allowed a email = elim a.allow_regex [
    | none ↦ true
    | some pattern ↦ o.match_string pattern email
  ]

  -- A pattern that does not compile is an error, and leaves what was set before it.
  abbrev pub compiled : String → Option (Option String)
  compiled pattern =
      if pattern == "" then some none else if o.compiles pattern then some (some pattern) else none

  abbrev set_deny : Option (Option String) → Authenticator → Bool × Authenticator
  set_deny none a = (false, a)
  set_deny (some deny) a = (true, record a { deny_regex = deny })

  abbrev pub set_allow :
      Option (Option String) → Option (Option String) → Authenticator → Bool × Authenticator
  set_allow none deny a = (false, a)
  set_allow (some allow) deny a = set_deny deny (record a { allow_regex = allow })

  unfoldable pub set_user_restrictions : String → String → Authenticator → Bool × Authenticator
  set_user_restrictions allow deny a = set_allow (compiled allow) (compiled deny) a

  abbrev five_minutes : ℕ
  five_minutes = 5 * 60 * 1000000000

  -- The end of `Authenticate`: the session, if it could be made, and the new entry of the cache.
  abbrev cached :
      Authenticator
      → String
      → Moment
      → Option (Session × ClientIdentity) × SessionStore
      → Result AuthError ClientIdentity × Authenticator
  cached a token m (none, sessions) = (err session_failed, record a { sessions = sessions })
  cached a token m (some (session, identity), sessions) = (
    ok identity,
    record a {
      sessions = sessions;
      tokens =
          Tokens.put
            (record { key = token; identity = identity; expires_at = m.at_put + five_minutes })
            a.tokens;
    },
  )

  abbrev admit :
      Authenticator
      → String
      → Moment
      → ClientIdentity
      → Result AuthError ClientIdentity × Authenticator
  admit a token m identity =
      if is_denied a identity.email
      then (err user_restricted, a)
      else if not (is_allowed a identity.email)
      then (err user_not_allowed, a)
      else cached a token m (
          Store.create m.uuid (record identity { role = role_for a identity }) m.at_create
            a.sessions)

  abbrev fetched :
      Authenticator
      → String
      → Moment
      → Option ClientIdentity
      → Result AuthError ClientIdentity × Authenticator
  fetched a token m none = (err authentication_failed, a)
  fetched a token m (some identity) = admit a token m identity

  -- `a` with the cache after the search of it.
  abbrev searched :
      Authenticator
      → String
      → Moment
      → Option ClientIdentity
      → Result AuthError ClientIdentity × Authenticator
  searched a token m (some identity) = (ok identity, a)
  searched a token m none = fetched a token m (fetch_user_identity token)

  abbrev with_token :
      Authenticator
      → Moment
      → Result AuthError String
      → Result AuthError ClientIdentity × Authenticator
  with_token a m (err e) = (err e, a)
  with_token a m (ok token) =
      let (identity, tokens) = Tokens.get token m.at_get a.tokens in
      searched (record a { tokens = tokens }) token m identity

  unfoldable pub authenticate :
      String → Moment → Authenticator → Result AuthError ClientIdentity × Authenticator
  authenticate header m a = with_token a m (extract_bearer_token header)

  abbrev cached_client : Option ClientIdentity → String
  cached_client none = ""
  cached_client (some identity) = identity.client_id

  abbrev logout_client : Option ClientIdentity → String → Option String
  logout_client cached token =
      if cached_client cached == ""
      then (elim (fetch_user_identity token) [
        | none ↦ none
        | some identity ↦ some identity.client_id
      ])
      else some (cached_client cached)

  abbrev delete_all : List Session → SessionStore → SessionStore
  delete_all [] s = s
  delete_all (session ∷ rest) s = delete_all rest (Store.delete session.id s)

  abbrev logged_out : Authenticator → String → ℕ → Option String → Bool × Authenticator
  logged_out a token now none = (false, a)
  logged_out a token now (some client) = (
    true,
    record a {
      sessions = delete_all (Store.get_by_client_id client now a.sessions) a.sessions;
      tokens = Tokens.delete token a.tokens;
    },
  )

  abbrev logout_with : Authenticator → ℕ → ℕ → Result AuthError String → Bool × Authenticator
  logout_with a at_get now (err e) = (false, a)
  logout_with a at_get now (ok token) =
      let (cached, tokens) = Tokens.get token at_get a.tokens in
      logged_out (record a { tokens = tokens }) token now (logout_client cached token)

  -- `HandleLogout`: whether it answers that the user is logged out, or 401.
  unfoldable pub handle_logout : String → ℕ → ℕ → Authenticator → Bool × Authenticator
  handle_logout header at_get now a = logout_with a at_get now (extract_bearer_token header)

-- The part of `runCleanup` on the token cache.
abbrev pub run_cleanup : ℕ → Authenticator → Authenticator
run_cleanup now a = record a { tokens = Tokens.cleanup now a.tokens }
