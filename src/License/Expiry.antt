-- ===== src/License/Expiry.antt =====
-- How long an accepted licence is valid.
use mcp_zero_trust_proxy.Base.{
  ℕ, ◌≡◌, ◌↔◌, refl, sym, ap, ◌∙◌, Bool, true, false, if◌then◌else◌, is_empty, ok, err, Result, ℤ,
  pos, negsuc,
}
use mcp_zero_trust_proxy.Protocol.{Bytes}
use mcp_zero_trust_proxy.Http.{trim_space}
use mcp_zero_trust_proxy.License.{
  License, LicenseError, expired, Crypto, is_after, is_zero_time, validate, parse,
}
use mcp_zero_trust_proxy.License.Checks.{parse_iff}

by_test :
    (b : Bool)
    → (◌≡◌ {A = Result LicenseError (Unit {0})} (if b then err expired else ok tt) (ok tt))
      ↔ (b ≡ false)
by_test true = (λ h. cc, λ h. cc)
by_test false = (λ h. refl, λ h. refl)

validate_dated :
    (now : ℕ) (lic : License)
    → is_zero_time lic.expires_at ≡ false
    → (validate now lic ≡ ok tt) ↔ (is_after now lic.expires_at ≡ false)
unfolding validate
validate_dated now lic dated = rw dated (by_test (is_after now lic.expires_at))

not_zero : (now : ℕ) (seconds : ℤ) → is_after now seconds ≡ false → is_zero_time seconds ≡ false
unfolding is_zero_time
not_zero now (pos n) h = refl
not_zero now (negsuc n) h = cc

module _ (c : Crypto) (key : c.PublicKey) (text : Bytes) (now : ℕ) (lic : License) where
  -- A licence that is read from a key that is not blank has an expiry, which is not past when it is
  -- read; and `Validate` finds it valid, then and at any other time, exactly up to its expiry.
  pub parse-validate :
      parse c now text key ≡ ok lic
      → is_empty (trim_space text) ≡ false
      → (is_after now lic.expires_at ≡ false)
        × ((later : ℕ) → (validate later lic ≡ ok tt) ↔ (is_after later lic.expires_at ≡ false))
  parse-validate h filled =
      let (claims, s, r) = (parse_iff c now text key lic filled).0 h in
      let valid : is_after now lic.expires_at ≡ false =
        ap (λ (l : License). is_after now l.expires_at) (sym r.fields) ∙ r.not_expired in
      (valid, λ later. validate_dated later lic (not_zero now lic.expires_at valid))
