-- ===== src/License.antt =====
-- internal/license/license.go: the check of a licence key, a JWT that is signed with ECDSA. A key is a list
-- of bytes. Base64, JSON, ASN.1, PEM and the signature check are the record `Crypto`, a parameter. Times
-- are nanoseconds since 1970, and expiries seconds; the number `exp` of the claims is of a type of `Crypto`.
pub mod Checks
pub mod Expiry
mod Tests
use mcp_zero_trust_proxy.Base.{
  ℕ, ◌+◌, ◌*◌, String, Bool, true, false, ◌||◌, not, Option, none, some, List, [], ◌∷◌, ◌++◌, ◌==◌,
  if◌then◌else◌, eqb, ltb, is_empty, ℤ, pos, negsuc, Result, ok, err, ◌>>=◌, ◌>>◌, need, guard,
}
use mcp_zero_trust_proxy.Protocol.{Bytes}
use mcp_zero_trust_proxy.Http.{trim_space}

pub data Tier : Type 0 where
  free pro enterprise : Tier

-- `expires_at` is in seconds.
pub record License : Type 0 where
  pub tier : Tier
  pub max_upstreams : ℤ
  pub max_rpm : ℤ
  pub expires_at : ℤ
  pub subject : String

-- `time.Time{}`, the start of the year 1.
abbrev pub zero_time : ℤ
zero_time = negsuc 62135596799

unfoldable pub free_tier_license : License
free_tier_license = record {
  tier = free;
  max_upstreams = pos 1;
  max_rpm = pos 10;
  expires_at = zero_time;
  subject = "";
}

pub data LicenseError : Type 0 where
  no_pem_block wrong_pem_type bad_public_key not_ecdsa malformed : LicenseError
  bad_header_encoding bad_header_json unsupported_algorithm : LicenseError
  bad_signature_encoding bad_signature_format invalid_signature : LicenseError
  bad_payload_encoding bad_payload_json invalid_issuer missing_expiry : LicenseError
  expired unknown_tier : LicenseError

pub record Claims (Number : Type 0) : Type 0 where
  pub tier : String
  pub max_upstreams : ℤ
  pub max_rpm : ℤ
  pub exp : Number
  pub iss : String
  pub sub : String

-- `pem` gives the type of a block and its bytes, `pkix` a public key, and `ecdsa` that key if it is one
-- of ECDSA. `algorithm` and `claims` decode the JSON of the header and of the payload. `verify` is the
-- check of a signature of the SHA-256 digest of a text.
pub record Crypto : Type 1 where
  pub AnyKey : Type 0
  pub PublicKey : Type 0
  pub Signature : Type 0
  pub Number : Type 0
  pub pem : Bytes → Option (String × Bytes)
  pub pkix : Bytes → Option AnyKey
  pub ecdsa : AnyKey → Option PublicKey
  pub base64 : Bytes → Option Bytes
  pub algorithm : Bytes → Option String
  pub claims : Bytes → Option (Claims Number)
  pub asn1 : Bytes → Option Signature
  pub verify : PublicKey → Bytes → Signature → Bool
  pub number_is_zero : Number → Bool
  pub whole_seconds : Number → ℤ

abbrev Checked : Type 0 → Type 0
Checked A = Result LicenseError A

abbrev add_to_first : ℕ → List Bytes → List Bytes
add_to_first c [] = (c ∷ []) ∷ []
add_to_first c (part ∷ parts) = (c ∷ part) ∷ parts

-- `strings.Split(s, ".")`
unfoldable pub split : Bytes → List Bytes
split [] = [] ∷ []
split (c ∷ s) = let rest = split s in if eqb c b'.' then [] ∷ rest else add_to_first c rest

unfoldable pub parse_tier : String → Checked Tier
parse_tier s =
    if s == "free"
    then ok free
    else if s == "pro"
    then ok pro
    else if s == "enterprise"
    then ok enterprise
    else err unknown_tier

-- `now.After(expiry)`
abbrev pub is_after : ℕ → ℤ → Bool
is_after now (pos seconds) = ltb (seconds * 1000000000) now
is_after now (negsuc seconds) = true

abbrev pub three_parts : List Bytes → Option (Bytes × Bytes × Bytes)
three_parts (header ∷ payload ∷ signature ∷ []) = some (header, payload, signature)
three_parts (header ∷ payload ∷ signature ∷ _ ∷ _) = none
three_parts (header ∷ payload ∷ []) = none
three_parts (header ∷ []) = none
three_parts [] = none

module _ (c : Crypto) where
  open c use {PublicKey, Number}

  unfoldable pub public_key_from_pem : Bytes → Checked PublicKey
  public_key_from_pem text = do
    (kind, block) ← need no_pem_block (c.pem text)
    guard wrong_pem_type (kind == "PUBLIC KEY")
    key ← need bad_public_key (c.pkix block)
    need not_ecdsa (c.ecdsa key)

  -- `Parse`, up to the claims: the header's algorithm and the signature.
  unfoldable pub verified_claims : PublicKey → Bytes × Bytes × Bytes → Checked (Claims Number)
  verified_claims key (header, payload, signature) = do
    header_json ← need bad_header_encoding (c.base64 header)
    alg ← need bad_header_json (c.algorithm header_json)
    guard unsupported_algorithm (alg == "ES256")
    sig_bytes ← need bad_signature_encoding (c.base64 signature)
    sig ← need bad_signature_format (c.asn1 sig_bytes)
    guard invalid_signature (c.verify key (header ++ b'.' ∷ payload) sig)
    payload_json ← need bad_payload_encoding (c.base64 payload)
    need bad_payload_json (c.claims payload_json)

  abbrev pub license_of : Claims Number → Tier → License
  license_of claims tier = record {
    tier = tier;
    max_upstreams = claims.max_upstreams;
    max_rpm = claims.max_rpm;
    expires_at = c.whole_seconds claims.exp;
    subject = claims.sub;
  }

  -- The rest of `Parse`: the issuer, the expiry and the tier.
  unfoldable pub check_claims : ℕ → Claims Number → Checked License
  check_claims now claims = do
    guard invalid_issuer (claims.iss == "mcpzerotrust.dev")
    guard missing_expiry (not (c.number_is_zero claims.exp))
    guard expired (not (is_after now (c.whole_seconds claims.exp)))
    tier ← parse_tier claims.tier
    ok (license_of claims tier)

  unfoldable pub parse_key : ℕ → Bytes → PublicKey → Checked License
  parse_key now key_string key = do
    parts ← need malformed (three_parts (split key_string))
    claims ← verified_claims key parts
    check_claims now claims

  unfoldable pub parse : ℕ → Bytes → PublicKey → Checked License
  parse now key_string key =
      if is_empty (trim_space key_string)
      then ok free_tier_license
      else parse_key now key_string key

  -- `embedded` is the file license-signing-public.pem.
  unfoldable pub parse_embedded : Bytes → ℕ → Bytes → Checked License
  parse_embedded embedded now key_string = do
    key ← public_key_from_pem embedded
    parse now key_string key

is_zero_time : ℤ → Bool
is_zero_time (pos seconds) = false
is_zero_time (negsuc seconds) = eqb seconds 62135596799

unfoldable pub validate : ℕ → License → Checked (Unit {0})
unfolding is_zero_time
validate now lic =
    if is_zero_time lic.expires_at
    then ok tt
    else if is_after now lic.expires_at
    then err expired
    else ok tt
