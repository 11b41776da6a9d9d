-- ===== src/Auth/Store/Tests.antt =====
-- Runs of the session store, and instances of its theorems.
use mcp_zero_trust_proxy.Base.{
  ◌+◌, ◌≡◌, refl, arith, none, some, List, [], ◌∷◌, ne_of_==, if◌then◌else◌, leb, err, lookup,
  remove,
}
use mcp_zero_trust_proxy.Protocol.Samples.{client_of}
use mcp_zero_trust_proxy.Auth.Store.{
  SessionStore, not_found, create, get, delete, new_session, refreshed,
}
use mcp_zero_trust_proxy.Auth.Store.History.{
  Op, op_create, op_get, op_delete, op_cleanup, run, session_lifetime, to_option,
}

abbrev start : SessionStore
start = record { sessions = []; ttl = 10 }

abbrev two_sessions : SessionStore
two_sessions = record {
  sessions =
      ("a", new_session "a" (client_of "admin" "") 5 10)
      ∷ ("b", new_session "b" (client_of "readonly" "") 1 10)
      ∷ [];
  ttl = 10;
}

deleted : (get "a" 6 6 (delete "a" two_sessions)).0 ≡ err not_found
unfolding get delete lookup remove
deleted = refl

-- Between the creation of `a` and its use, `b` is created, used and deleted, and the store cleaned.
abbrev others : List Op
others =
    op_create (some "b") (client_of "readonly" "") 6
    ∷ op_get "b" 7 7
    ∷ op_cleanup 8
    ∷ op_delete "b"
    ∷ []

session_lifetime_example :
    to_option (get "a" 15 16 (run others (create (some "a") (client_of "admin" "") 5 start).1)).0
    ≡ (if leb 15 (5 + 10)
        then some (refreshed (new_session "a" (client_of "admin" "") 5 10) 16 10)
        else none)
session_lifetime_example =
    session_lifetime "a" (client_of "admin" "") 5 15 16 start others tt
      (ne_of_== "b" "a" refl, (ne_of_== "b" "a" refl, (omega arith, (ne_of_== "b" "a" refl, tt))))
