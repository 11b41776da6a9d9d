-- ===== src/Config/Given.antt =====
-- internal/config/config.go: the set of all role names has each role that a user can be given.
use mcp_zero_trust_proxy.Base.{
  String, ◌≡◌, ◌≢◌, sym, some, List, [], ◌∷◌, ◌==◌, eq_iff, arith, Dict, lookup, Bool-cases, inl,
  inr,
}
use mcp_zero_trust_proxy.Auth.Login.{ClaimRule, Outside, evaluate_claim_rules, applies, text_claim}
use mcp_zero_trust_proxy.Protocol.{Json}
use mcp_zero_trust_proxy.Config.Validate.Roles.{add_role, add_mapped, add_claimed}
use mcp_zero_trust_proxy.Config.Names.{Has, add_seen_self, add_seen-keeps}

add_role-keeps :
    (s : String) (seen : List String) (name : String) → Has seen name → Has (add_role s seen) name
unfolding add_role
add_role-keeps s seen name h = ground (arith, add_seen-keeps s seen name h)

pub add_role_self : (s : String) (seen : List String) → s ≢ "" → Has (add_role s seen) s
unfolding add_role
add_role_self s seen h = ground (arith, add_seen_self s seen, eq_iff s "")

pub add_mapped-keeps :
    (m : Dict String) (seen : List String) (name : String)
    → Has seen name
    → Has (add_mapped m seen) name
unfolding add_mapped
add_mapped-keeps [] seen name h = h
add_mapped-keeps ((email, role) ∷ m) seen name h =
    add_mapped-keeps m (add_role role seen) name (add_role-keeps role seen name h)

pub add_claimed-keeps :
    (rules : List ClaimRule) (seen : List String) (name : String)
    → Has seen name
    → Has (add_claimed rules seen) name
unfolding add_claimed
add_claimed-keeps [] seen name h = h
add_claimed-keeps (r ∷ rs) seen name h =
    add_claimed-keeps rs (add_role r.role seen) name (add_role-keeps r.role seen name h)

pub mapped_role :
    (m : Dict String) (seen : List String) (email role : String)
    → lookup email m ≡ some role
    → role ≢ ""
    → Has (add_mapped m seen) role
unfolding add_mapped lookup
mapped_role [] seen email role h ne = cc
mapped_role ((key, r) ∷ m) seen email role h ne = elim (Bool-cases (key == email)) [
  | inl e ↦
      let same : r ≡ role = ground (arith, h) in
      add_mapped-keeps m (add_role r seen) role (rw same (add_role_self role seen ne))
  | inr e ↦ mapped_role m (add_role r seen) email role (ground (arith, h)) ne
]

pub claimed_role :
    (o : Outside) (rules : List ClaimRule) (seen : List String) (claims : Dict Json) (role : String)
    → evaluate_claim_rules o rules claims ≡ role
    → role ≢ ""
    → Has (add_claimed rules seen) role
unfolding add_claimed evaluate_claim_rules
claimed_role o [] seen claims role h ne = absurd (ne (sym h))
claimed_role o (r ∷ rs) seen claims role h ne =
    elim (Bool-cases (applies o r (text_claim r.claim claims))) [
      | inl e ↦
          let same : r.role ≡ role = ground (arith, h, e) in
          add_claimed-keeps rs (add_role r.role seen) role (rw same (add_role_self role seen ne))
      | inr e ↦ claimed_role o rs (add_role r.role seen) claims role (ground (arith, h, e)) ne
    ]
