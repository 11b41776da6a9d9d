-- ===== src/Auth/Login/Admission.antt =====
-- Who gets in: whatever sequence of logins, logouts and cleanups came before, and whether the token
-- is cached or not, an identity that `Authenticate` returns has passed the restrictions.
use mcp_zero_trust_proxy.Base.{
  ℕ, String, ◌≡◌, refl, sym, ap, subst, true, false, Option, none, some, List, [], ◌∷◌, All, Result,
  ok, Bool-cases, Option-cases, Result-cases, inl, inr,
}
use mcp_zero_trust_proxy.Protocol.{ClientIdentity}
use mcp_zero_trust_proxy.Auth.Store.{SessionStore, create}
use mcp_zero_trust_proxy.Auth.Tokens.{Cache, Node}
use mcp_zero_trust_proxy.Auth.Tokens as Tokens
use mcp_zero_trust_proxy.Auth.Tokens.Entries.{put-All, get-All, delete-All, cleanup-All, get_found}
use mcp_zero_trust_proxy.Auth.Login.{
  Outside, Authenticator, AuthError, Moment, is_denied, is_allowed, role_for, resolve_role,
  authenticate, searched, fetched, admit, cached, handle_logout, logged_out, logout_client,
  run_cleanup, extract_bearer_token, fetch_user_identity,
}

-- The rules of `a` let the identity in, and give it its role.
pub record IsAdmitted (o : Outside) (a : Authenticator) (i : ClientIdentity) : Type 0 where
  pub not_denied : is_denied o a i.email ≡ false
  pub allowed : is_allowed o a i.email ≡ true
  pub role_given : i.role ≡ role_for o a i

pub data Op : Type 0 where
  op_authenticate : String → Moment → Op
  op_logout : String → ℕ → ℕ → Op
  op_cleanup : ℕ → Op

unfoldable pub apply : Outside → Op → Authenticator → Authenticator
apply o (op_authenticate header m) a = (authenticate o header m a).1
apply o (op_logout header at_get now) a = (handle_logout o header at_get now a).1
apply o (op_cleanup now) a = run_cleanup now a

unfoldable pub run : Outside → List Op → Authenticator → Authenticator
run o [] a = a
run o (op ∷ ops) a = run o ops (apply o op a)

-- The authenticator with the rules of `a`, and the tokens and sessions of `b`.
abbrev with_state : Authenticator → Authenticator → Authenticator
with_state a b = record a { tokens = b.tokens; sessions = b.sessions }

module _ (o : Outside) (a : Authenticator) where
  abbrev Entry : Node → Type 0
  Entry node = IsAdmitted o a node.identity

  -- `b` has the rules of `a`, and its cached identities are admitted by them.
  record IsSound (b : Authenticator) : Type 0 where
    rules : with_state a b ≡ b
    entries : All Entry b.tokens.nodes

  -- A result of `Authenticate`.
  abbrev IsGood : Result AuthError ClientIdentity × Authenticator → Type 0
  IsGood r = ((i : ClientIdentity) → r.0 ≡ ok i → IsAdmitted o a i) × IsSound r.1

  with_tokens :
      (b : Authenticator) (tokens : Cache) (sessions : SessionStore)
      → IsSound b
      → All Entry tokens.nodes
      → IsSound (record b { tokens = tokens; sessions = sessions })
  with_tokens b tokens sessions h entries = record {
    rules = ap (λ (x : Authenticator). record x { tokens = tokens; sessions = sessions }) h.rules;
    entries = entries;
  }

  cached_lem :
      (b : Authenticator) (token : String) (m : Moment) (identity : ClientIdentity)
      → IsSound b
      → IsAdmitted o a identity
      → IsGood (cached o b token m (create m.uuid identity m.at_create b.sessions))
  unfolding create resolve_role
  cached_lem b token m identity h ad = elim (Option-cases m.uuid) [
    | inl none_left ↦ rw none_left ((λ i q. cc), with_tokens b b.tokens b.sessions h h.entries)
    | inr (id, made) ↦
        let signed = record identity { session_id = id } in
        let ad' : IsAdmitted o a signed = record {
          not_denied = ad.not_denied;
          allowed = ad.allowed;
          role_given = ad.role_given;
        } in
        rw made (
          (λ i q. subst (IsAdmitted o a) (let e : signed ≡ i = cc in e) ad'),
          with_tokens b _ _ h (put-All Entry _ b.tokens ad' h.entries),
        )
  ]

  same_rules :
      (b : Authenticator) (i : ClientIdentity) → IsSound b → IsAdmitted o b i → IsAdmitted o a i
  unfolding resolve_role
  same_rules b i h ad =
      let x = subst (λ y. IsAdmitted o y i) (sym h.rules) ad in
      record { not_denied = x.not_denied; allowed = x.allowed; role_given = x.role_given }

  admit_lem :
      (b : Authenticator) (token : String) (m : Moment) (identity : ClientIdentity)
      → IsSound b
      → IsGood (admit o b token m identity)
  unfolding resolve_role
  admit_lem b token m identity h = elim (Bool-cases (is_denied o b identity.email)) [
    | inl denied ↦ rw denied ((λ i q. cc), h)
    | inr open_to ↦ elim (Bool-cases (is_allowed o b identity.email)) [
      | inr out ↦ rw (open_to, out) ((λ i q. cc), h)
      | inl inside ↦
          rw (open_to, inside)
            (cached_lem b token m (record identity { role = role_for o b identity }) h
              (same_rules b (record identity { role = role_for o b identity }) h
                (record { not_denied = open_to; allowed = inside; role_given = refl })))
    ]
  ]

  fetched_lem :
      (b : Authenticator) (token : String) (m : Moment) (found : Option ClientIdentity)
      → IsSound b
      → IsGood (fetched o b token m found)
  fetched_lem b token m none h = ((λ i q. cc), h)
  fetched_lem b token m (some identity) h = admit_lem b token m identity h

  searched_lem :
      (b : Authenticator) (token : String) (m : Moment) (found : Option ClientIdentity)
      → IsSound b
      → ((i : ClientIdentity) → found ≡ some i → IsAdmitted o a i)
      → IsGood (searched o b token m found)
  searched_lem b token m none h ad = fetched_lem b token m (fetch_user_identity o token) h
  searched_lem b token m (some identity) h ad =
      ((λ i q. ad i (let e : identity ≡ i = cc in ap some e)), h)

  authenticate_lem :
      (b : Authenticator) (header : String) (m : Moment)
      → IsSound b
      → IsGood (authenticate o header m b)
  unfolding authenticate
  authenticate_lem b header m h = elim (Result-cases (extract_bearer_token header)) [
    | inr (e, q) ↦ rw q ((λ i p. cc), h)
    | inl (token, q) ↦
        let hit = Tokens.get token m.at_get b.tokens in
        rw q (
          searched_lem (record b { tokens = hit.1 }) token m hit.0
            (with_tokens b hit.1 b.sessions h (get-All Entry token m.at_get b.tokens h.entries))
            (λ i p.
              let (node, ad, same, _) = get_found Entry token m.at_get b.tokens i h.entries p in
              subst (IsAdmitted o a) same ad))
  ]

  logged_out_lem :
      (b : Authenticator) (token : String) (now : ℕ) (client : Option String)
      → IsSound b
      → IsSound (logged_out o b token now client).1
  logged_out_lem b token now none h = h
  logged_out_lem b token now (some client) h =
      with_tokens b _ _ h (delete-All Entry token b.tokens h.entries)

  logout_lem :
      (b : Authenticator) (header : String) (at_get now : ℕ)
      → IsSound b
      → IsSound (handle_logout o header at_get now b).1
  unfolding handle_logout
  logout_lem b header at_get now h = elim (Result-cases (extract_bearer_token header)) [
    | inr (e, q) ↦ rw q h
    | inl (token, q) ↦
        let hit = Tokens.get token at_get b.tokens in
        rw q (
          logged_out_lem (record b { tokens = hit.1 }) token now (logout_client o hit.0 token)
            (with_tokens b hit.1 b.sessions h (get-All Entry token at_get b.tokens h.entries)))
  ]

  run_lem : (ops : List Op) (b : Authenticator) → IsSound b → IsSound (run o ops b)
  unfolding run apply
  run_lem [] b h = h
  run_lem (op_authenticate header m ∷ ops) b h = run_lem ops _ (authenticate_lem b header m h).1
  run_lem (op_logout header at_get now ∷ ops) b h = run_lem ops _ (logout_lem b header at_get now h)
  run_lem (op_cleanup now ∷ ops) b h =
      run_lem ops _ (with_tokens b _ b.sessions h (cleanup-All Entry now b.tokens h.entries))

  -- Let the token cache start empty. After any sequence of logins, logouts and cleanups, an identity
  -- that `authenticate` returns, from the cache or not, does not match the deny pattern, matches
  -- the allow pattern if there is one, and has the role that the claim rules, or else the mapping
  -- of its email, give it.
  pub authenticate-IsAdmitted :
      (ops : List Op) (header : String) (m : Moment) (i : ClientIdentity)
      → a.tokens.nodes ≡ []
      → (authenticate o header m (run o ops a)).0 ≡ ok i
      → IsAdmitted o a i
  authenticate-IsAdmitted ops header m i empty q =
      let start : IsSound a = record { rules = refl; entries = subst (All Entry) (sym empty) tt } in
      (authenticate_lem (run o ops a) header m (run_lem ops a start)).0 i q
