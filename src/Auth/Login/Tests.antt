-- ===== src/Auth/Login/Tests.antt =====
-- A login of a small provider, and instances of the theorems on the cache and on admission.
use mcp_zero_trust_proxy.Base.{
  String, ◌≡◌, refl, arith, true, none, some, [], ◌∷◌, lookup, ok, err, ◌==◌, keep,
}
use mcp_zero_trust_proxy.Protocol.{str, ClientIdentity}
use mcp_zero_trust_proxy.Protocol.Samples.{client_of}
use mcp_zero_trust_proxy.Auth.Store.{create}
use mcp_zero_trust_proxy.Auth.Tokens.{Node, find, get, cleanup}
use mcp_zero_trust_proxy.Auth.Tokens.Bounds as Bounds
use mcp_zero_trust_proxy.Auth.Tokens.Bounds.{IsBounded, run-IsBounded, op_put, op_get}
use mcp_zero_trust_proxy.Auth.Login.{
  Outside, Authenticator, header_required, user_restricted, Moment, authenticate,
  extract_bearer_token, fetch_user_identity, handle_logout, evaluate_claim_rules,
}
use mcp_zero_trust_proxy.Auth.Login.Admission.{
  IsAdmitted, run, op_logout, op_cleanup, authenticate-IsAdmitted, apply,
}

-- The provider knows each user by the token, and a pattern matches its own text.
abbrev outside : Outside
outside = record {
  user_info = λ token. some (("sub", str token) ∷ ("email", str token) ∷ ("team", str "core") ∷ []);
  format_float = λ s. s;
  contains = λ s t. s == t;
  has_suffix = λ s t. s == t;
  match_string = λ p s. p == s;
  compiles = λ p. true;
}

abbrev authenticator : Authenticator
authenticator = record {
  user_roles = some (("bob", "restricted") ∷ []);
  default_role = "";
  claim_rules = record { claim = "team"; operator = "equals"; value = "core"; role = "admin" } ∷ [];
  allow_regex = none;
  deny_regex = some "mallory";
  tokens = record { max_size = 2; nodes = [] };
  sessions = record { sessions = []; ttl = 10 };
}

abbrev moment : Moment
moment = record { at_get = 1; at_create = 1; at_put = 1; uuid = some "s1" }

abbrev bob : ClientIdentity
bob = record {
  client_id = "bob";
  immutable_id = "bob";
  role = "admin";
  session_id = "s1";
  email = "bob";
  claims = ("sub", str "bob") ∷ ("email", str "bob") ∷ ("team", str "core") ∷ [];
}

no_header : (authenticate outside "" moment authenticator).0 ≡ err header_required
unfolding authenticate extract_bearer_token
no_header = refl

mallory_restricted :
    (authenticate outside "Bearer mallory" moment authenticator).0 ≡ err user_restricted
unfolding authenticate extract_bearer_token fetch_user_identity get find lookup
mallory_restricted = refl

bob_admitted :
    (authenticate outside "Bearer bob" moment
      (run outside (op_cleanup 0 ∷ op_logout "" 0 0 ∷ []) authenticator)).0
    ≡ ok bob
unfolding authenticate extract_bearer_token fetch_user_identity get find lookup create
    evaluate_claim_rules run apply handle_logout cleanup keep
bob_admitted = refl

authenticate-IsAdmitted_example : IsAdmitted outside authenticator bob
authenticate-IsAdmitted_example =
    authenticate-IsAdmitted outside authenticator (op_cleanup 0 ∷ op_logout "" 0 0 ∷ [])
      "Bearer bob" moment bob refl bob_admitted

abbrev node_of : String → Node
node_of key = record { key = key; identity = client_of "admin" "s1"; expires_at = 9 }

run-IsBounded_example : IsBounded (
    Bounds.run
      (op_put (node_of "a") ∷ op_put (node_of "b") ∷ op_get "a" 1 ∷ op_put (node_of "c") ∷ [])
      (record { max_size = 2; nodes = [] }))
run-IsBounded_example =
    run-IsBounded
      (op_put (node_of "a") ∷ op_put (node_of "b") ∷ op_get "a" 1 ∷ op_put (node_of "c") ∷ [])
      (record { max_size = 2; nodes = [] }) (omega arith) (omega arith)
