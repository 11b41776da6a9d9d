-- ===== src/License/Checks.antt =====
-- Which licence keys are accepted.
use mcp_zero_trust_proxy.Base.{
  bind_inv, need_inv, guard_inv, need_then, ℕ, ◌≡◌, ◌↔◌, refl, sym, ap, ◌∙◌, String, true, false,
  not, some, List, [], ◌∷◌, ◌++◌, ◌==◌, eq_iff, is_empty, arith, ok,
}
use mcp_zero_trust_proxy.Protocol.{Bytes}
use mcp_zero_trust_proxy.Http.{trim_space}
use mcp_zero_trust_proxy.License.{
  Tier, free, pro, enterprise, License, Claims, Crypto, split, three_parts, parse_tier, is_after,
  verified_claims, license_of, check_claims, parse_key, parse,
}

-- The names of the tiers.
unfoldable pub tier_name : Tier → String
tier_name free = "free"
tier_name pro = "pro"
tier_name enterprise = "enterprise"

parse_tier_iff : (s : String) (t : Tier) → (parse_tier s ≡ ok t) ↔ (tier_name t ≡ s)
unfolding parse_tier tier_name
parse_tier_iff s free = (
  λ h. ground (arith, eq_iff s "free", eq_iff s "pro", eq_iff s "enterprise"),
  λ h. ground (arith, eq_iff s "free", eq_iff s "pro", eq_iff s "enterprise"),
)
parse_tier_iff s pro = (
  λ h. ground (arith, eq_iff s "free", eq_iff s "pro", eq_iff s "enterprise"),
  λ h. rw (sym h) refl,
)
parse_tier_iff s enterprise = (
  λ h. ground (arith, eq_iff s "free", eq_iff s "pro", eq_iff s "enterprise"),
  λ h. rw (sym h) refl,
)

module _ (c : Crypto) where
  -- The key has three parts: a header that names ES256, claims, and a signature of the first two.
  pub record IsSigned (key : c.PublicKey) (text : Bytes) (claims : Claims c.Number) : Type 0 where
    pub header : Bytes
    pub payload : Bytes
    pub signature : Bytes
    pub header_json : Bytes
    pub payload_json : Bytes
    pub sig_bytes : Bytes
    pub sig : c.Signature
    pub parts : split text ≡ header ∷ payload ∷ signature ∷ []
    pub header_decoded : c.base64 header ≡ some header_json
    pub algorithm : c.algorithm header_json ≡ some "ES256"
    pub signature_decoded : c.base64 signature ≡ some sig_bytes
    pub signature_read : c.asn1 sig_bytes ≡ some sig
    pub verified : c.verify key (header ++ b'.' ∷ payload) sig ≡ true
    pub payload_decoded : c.base64 payload ≡ some payload_json
    pub claims_read : c.claims payload_json ≡ some claims

  -- The claims are of the issuer, not expired, and of a known tier.
  pub record IsCurrent (now : ℕ) (claims : Claims c.Number) (lic : License) : Type 0 where
    pub issuer : claims.iss ≡ "mcpzerotrust.dev"
    pub has_expiry : c.number_is_zero claims.exp ≡ false
    pub not_expired : is_after now (c.whole_seconds claims.exp) ≡ false
    pub tier : tier_name lic.tier ≡ claims.tier
    pub fields : license_of c claims lic.tier ≡ lic

  verified_claims-IsSigned :
      (key : c.PublicKey) (text : Bytes) (claims : Claims c.Number) (parts : Bytes × Bytes × Bytes)
      → split text ≡ parts.0 ∷ parts.1 ∷ parts.2 ∷ []
      → verified_claims c key parts ≡ ok claims
      → IsSigned key text claims
  unfolding verified_claims
  verified_claims-IsSigned key text claims (header, payload, signature) p h =
      let (header_json, e1, h1) = need_then _ (c.base64 header) _ h in
      let (alg, e2, h2) = need_then _ (c.algorithm header_json) _ h1 in
      let (e3, h3) = guard_inv _ (alg == "ES256") _ h2 in
      let (sig_bytes, e4, h4) = need_then _ (c.base64 signature) _ h3 in
      let (sig, e5, h5) = need_then _ (c.asn1 sig_bytes) _ h4 in
      let (e6, h6) = guard_inv _ (c.verify key (header ++ b'.' ∷ payload) sig) _ h5 in
      let (payload_json, e7, h7) = need_then _ (c.base64 payload) _ h6 in
      let e8 = need_inv _ (c.claims payload_json) h7 in
      record {
        header = header;
        payload = payload;
        signature = signature;
        header_json = header_json;
        payload_json = payload_json;
        sig_bytes = sig_bytes;
        sig = sig;
        parts = p;
        header_decoded = e1;
        algorithm = e2 ∙ ap some ((eq_iff alg "ES256").0 e3);
        signature_decoded = e4;
        signature_read = e5;
        verified = e6;
        payload_decoded = e7;
        claims_read = e8;
      }

  IsSigned-verified_claims :
      (key : c.PublicKey) (text : Bytes) (claims : Claims c.Number)
      → (s : IsSigned key text claims)
      → verified_claims c key (s.header, s.payload, s.signature) ≡ ok claims
  unfolding verified_claims
  IsSigned-verified_claims key text claims s =
      rw
        (
          s.header_decoded, s.algorithm, s.signature_decoded, s.signature_read, s.verified,
          s.payload_decoded, s.claims_read,
        )
        refl

  pub check_claims-IsCurrent :
      (now : ℕ) (claims : Claims c.Number) (lic : License)
      → check_claims c now claims ≡ ok lic
      → IsCurrent now claims lic
  unfolding check_claims
  check_claims-IsCurrent now claims lic h =
      let (e1, h1) = guard_inv _ (claims.iss == "mcpzerotrust.dev") _ h in
      let (e2, h2) = guard_inv _ (not (c.number_is_zero claims.exp)) _ h1 in
      let (e3, h3) = guard_inv _ (not (is_after now (c.whole_seconds claims.exp))) _ h2 in
      let (tier, e4, h4) = bind_inv (parse_tier claims.tier) _ h3 in
      let made : license_of c claims tier ≡ lic = cc in
      let same : tier ≡ lic.tier = ap (λ l. l.tier) made in
      record {
        issuer = (eq_iff claims.iss "mcpzerotrust.dev").0 e1;
        has_expiry = ground arith;
        not_expired = ground arith;
        tier = ap tier_name (sym same) ∙ (parse_tier_iff claims.tier tier).0 e4;
        fields = ap (license_of c claims) (sym same) ∙ made;
      }

  IsCurrent-check_claims :
      (now : ℕ) (claims : Claims c.Number) (lic : License)
      → IsCurrent now claims lic
      → check_claims c now claims ≡ ok lic
  unfolding check_claims
  IsCurrent-check_claims now claims lic r =
      let e1 = (eq_iff claims.iss "mcpzerotrust.dev").1 r.issuer in
      let e4 = (parse_tier_iff claims.tier lic.tier).1 r.tier in
      rw (e1, r.has_expiry, r.not_expired, e4) (ap ok r.fields)

  three_inv :
      (parts : List Bytes) (p : Bytes × Bytes × Bytes)
      → three_parts parts ≡ some p
      → parts ≡ p.0 ∷ p.1 ∷ p.2 ∷ []
  three_inv [] p h = cc
  three_inv (a ∷ []) p h = cc
  three_inv (a ∷ b ∷ []) p h = cc
  three_inv (a ∷ b ∷ d ∷ []) p h =
      let same : ◌≡◌ {A = Bytes × Bytes × Bytes} (a, b, d) p = cc in
      ap (λ (q : Bytes × Bytes × Bytes). q.0 ∷ q.1 ∷ q.2 ∷ []) same
  three_inv (a ∷ b ∷ d ∷ e ∷ parts) p h = cc

  -- A key that is not blank is accepted, as a licence, exactly when it is a text of three parts whose
  -- header names ES256, signed by the owner of the public key, whose claims have the issuer, an
  -- expiry that is not past, and the name of a tier; the licence has the limits of those claims.
  pub parse_iff :
      (now : ℕ) (text : Bytes) (key : c.PublicKey) (lic : License)
      → is_empty (trim_space text) ≡ false
      → (parse c now text key ≡ ok lic)
        ↔ ((claims : Claims c.Number) × IsSigned key text claims × IsCurrent now claims lic)
  unfolding parse parse_key
  parse_iff now text key lic filled = (
    λ h.
        let h0 : parse_key c now text key ≡ ok lic = rw filled at h in
        let (parts, e1, h1) = need_then _ (three_parts (split text)) _ h0 in
        let (claims, e2, h2) = bind_inv (verified_claims c key parts) _ h1 in
        (
          claims,
          verified_claims-IsSigned key text claims parts (three_inv (split text) parts e1) e2,
          check_claims-IsCurrent now claims lic h2,
        ),
    λ (claims, s, r).
        rw (filled, s.parts, IsSigned-verified_claims key text claims s)
          (IsCurrent-check_claims now claims lic r),
  )
