-- ===== src/Config/Names.antt =====
-- Lists of errors that are empty, and sets of names that grow.
use mcp_zero_trust_proxy.Http.{trim_space, trim_left, trim_right}
use mcp_zero_trust_proxy.Base.{
  ap, eq_iff, Bool-cases, inl, inr, insert, lookup-insert, String, ◌≡◌, refl, Bool, true, false,
  ◌||◌, Option, none, some, List, [], ◌∷◌, ◌++◌, ◌==◌, arith, if◌then◌else◌, contains, Dict, lookup,
  ==_self,
}
use mcp_zero_trust_proxy.Config.{Config}
use mcp_zero_trust_proxy.Config.Validate.Sinks.{check_audit}
use mcp_zero_trust_proxy.Config.Validate.Parts.{
  validate, check_source, check_auth, check_restrictions, check_masking,
  check_classification_config, check_logging, check_versions, cipher_errors,
}
use mcp_zero_trust_proxy.Config.Validate.{blank, ConfigError, Checks, when, else_when, add_seen}
use mcp_zero_trust_proxy.Config.Validate.Roles.{check_roles}

-- No error in a list of errors is none in its parts.
pub append-nil_inv :
    {A : Type 0} (xs : List A) {ys : List A} → xs ++ ys ≡ [] → (xs ≡ []) × (ys ≡ [])
append-nil_inv [] h = (refl, h)
append-nil_inv (x ∷ xs) h = cc

pub when-nil : (b : Bool) (e : ConfigError) → when b e ≡ [] → b ≡ false
unfolding when
when-nil true e h = cc
when-nil false e h = refl

-- The head of such a list is an error that was not found.
pub ok_first :
    (b : Bool) (e : ConfigError) (rest : List ConfigError)
    → when b e ++ rest ≡ []
    → (b ≡ false) × (rest ≡ [])
unfolding when
ok_first true e rest h = cc
ok_first false e rest h = (refl, h)

pub else_when-nil :
    (b b' : Bool) (e e' : ConfigError) → else_when b e b' e' ≡ [] → (b ≡ false) × (b' ≡ false)
unfolding else_when when
else_when-nil true b' e e' h = cc
else_when-nil false true e e' h = cc
else_when-nil false false e e' h = (refl, refl)

pub contains-append :
    (xs ys : List String) (s : String) → contains (xs ++ ys) s ≡ contains xs s || contains ys s
unfolding contains
contains-append [] ys s = refl
contains-append (x ∷ xs) ys s = ground (arith, contains-append xs ys s)

abbrev pub Has : List String → String → Type 0
Has names s = contains names s ≡ true

pub add_seen_self : (s : String) (seen : List String) → Has (add_seen s seen) s
unfolding add_seen contains
add_seen_self s seen = elim (Bool-cases (contains seen s)) [
  | inl p ↦ rw (p) p
  | inr p ↦ rw (p, contains-append seen (s ∷ []) s) (ground (arith, ==_self s))
]

pub add_seen-keeps :
    (s : String) (seen : List String) (name : String) → Has seen name → Has (add_seen s seen) name
unfolding add_seen
add_seen-keeps s seen name h = elim (Bool-cases (contains seen s)) [
  | inl p ↦ rw p h
  | inr p ↦ rw (p, contains-append seen (s ∷ []) name, h) refl
]

abbrev pub is_some : {A : Type 0} → Option A → Bool
is_some none = false
is_some (some x) = true

-- What is seen has an entry in the map.
abbrev pub Entered : {A : Type 0} → List String → Dict A → Type 0
Entered seen d = (name : String) → Has seen name → is_some (lookup name d) ≡ true

pub Entered-add_seen :
    {A : Type 0} (key : String) (v : A) (seen : List String) (d : Dict A)
    → Entered seen d
    → Entered (add_seen key seen) (insert key v d)
unfolding add_seen contains
Entered-add_seen key v seen d h name member = ground (
  arith,
  lookup-insert key name v d,
  h name,
  member,
  eq_iff key name,
  contains-append seen (key ∷ []) name,
)

-- A key that is entered, whether or not its name is noted.
pub Entered-insert :
    {A : Type 0} (unnamed : Bool) (key : String) (v : A) (seen : List String) (d : Dict A)
    → Entered seen d
    → Entered (if unnamed then seen else add_seen key seen) (insert key v d)
Entered-insert true key v seen d h name member =
    ground (arith, lookup-insert key name v d, h name member)
Entered-insert false key v seen d h name member = Entered-add_seen key v seen d h name member

-- A text that is not blank is not empty.
pub blank-ne : (s : String) → blank s ≡ false → (s == "") ≡ false
unfolding blank trim_space trim_left trim_right
blank-ne s h = elim (Bool-cases (s == "")) [
  | inl e ↦ let empty : blank s ≡ true = ap blank ((eq_iff s "").0 e) in cc
  | inr e ↦ e
]

-- A configuration without an error has none in any section.
pub record IsOk (checks : Checks) (cfg : Config) : Type 0 where
  pub source : check_source cfg.server ≡ []
  pub roles : check_roles checks cfg.roles cfg.user_roles ≡ []
  pub auth : check_auth cfg.auth ≡ []
  pub restrictions : check_restrictions checks cfg.user_restrictions ≡ []
  pub audit : check_audit cfg.audit ≡ []
  pub logging : check_logging cfg.logging ≡ []
  pub versions : check_versions cfg.server cfg.outbound ≡ []
  pub ciphers : cipher_errors checks cfg.server.tls.cipher_suites ≡ []
  pub masking : check_masking checks cfg.pii_masking ≡ []
  pub classification : check_classification_config cfg.classification cfg.roles ≡ []

pub validate-IsOk : (checks : Checks) (cfg : Config) → validate checks cfg ≡ [] → IsOk checks cfg
unfolding validate
validate-IsOk checks cfg ok =
    let (source, r1) = append-nil_inv (check_source cfg.server) ok in
    let (roles, r2) = append-nil_inv (check_roles checks cfg.roles cfg.user_roles) r1 in
    let (auth, r3) = append-nil_inv (check_auth cfg.auth) r2 in
    let (restrictions, r4) = append-nil_inv (check_restrictions checks cfg.user_restrictions) r3 in
    let (audit, r5) = append-nil_inv (check_audit cfg.audit) r4 in
    let (logging, r6) = append-nil_inv (check_logging cfg.logging) r5 in
    let (versions, r7) = append-nil_inv (check_versions cfg.server cfg.outbound) r6 in
    let (ciphers, r8) = append-nil_inv (cipher_errors checks cfg.server.tls.cipher_suites) r7 in
    let (masking, classification) = append-nil_inv (check_masking checks cfg.pii_masking) r8 in
    record {
      source = source;
      roles = roles;
      auth = auth;
      restrictions = restrictions;
      audit = audit;
      logging = logging;
      versions = versions;
      ciphers = ciphers;
      masking = masking;
      classification = classification;
    }
