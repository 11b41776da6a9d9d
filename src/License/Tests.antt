-- ===== src/License/Tests.antt =====
-- A crypto that decodes each part to itself, and one key.
use mcp_zero_trust_proxy.Base.{
  ℕ, ◌≡◌, ◌↔◌, refl, true, false, some, [], is_empty, eqb, ok, pos, err,
}
use mcp_zero_trust_proxy.Protocol.{Bytes}
use mcp_zero_trust_proxy.Http.{bytes_of, trim_space, trim_left, trim_right}
use mcp_zero_trust_proxy.License.{
  License, Claims, Crypto, pro, expired, split, parse_tier, verified_claims, check_claims,
  parse_key, parse, free_tier_license,
}
use mcp_zero_trust_proxy.License.Checks.{IsSigned, IsCurrent, parse_iff}

abbrev sample_claims : Claims ℕ
sample_claims = record {
  tier = "pro";
  max_upstreams = pos 5;
  max_rpm = pos 200;
  exp = 100;
  iss = "mcpzerotrust.dev";
  sub = "alice";
}

abbrev crypto : Crypto
crypto = record {
  AnyKey = Bytes;
  PublicKey = Bytes;
  Signature = Bytes;
  Number = ℕ;
  pem = λ text. some ("PUBLIC KEY", text);
  pkix = λ block. some block;
  ecdsa = λ key. some key;
  base64 = λ text. some text;
  algorithm = λ header. some "ES256";
  claims = λ payload. some sample_claims;
  asn1 = λ sig. some sig;
  verify = λ key text sig. true;
  number_is_zero = λ n. eqb n 0;
  whole_seconds = λ n. pos n;
}

abbrev sample_license : License
sample_license = record {
  tier = pro;
  max_upstreams = pos 5;
  max_rpm = pos 200;
  expires_at = pos 100;
  subject = "alice";
}

accepted : parse crypto 7 (bytes_of "h.p.s") [] ≡ ok sample_license
unfolding parse parse_key trim_space trim_left trim_right split verified_claims check_claims
    parse_tier
accepted = refl

too_late : parse crypto 100000000001 (bytes_of "h.p.s") [] ≡ err expired
unfolding parse parse_key trim_space trim_left trim_right split verified_claims check_claims
    parse_tier
too_late = refl

no_key : parse crypto 7 (bytes_of "  ") [] ≡ ok free_tier_license
unfolding parse trim_space trim_left trim_right
no_key = refl

filled : is_empty (trim_space (bytes_of "h.p.s")) ≡ false
unfolding trim_space trim_left trim_right
filled = refl

parse_iff_example : (parse crypto 7 (bytes_of "h.p.s") [] ≡ ok sample_license) ↔ (
    (claims : Claims ℕ) × IsSigned crypto [] (bytes_of "h.p.s") claims
    × IsCurrent crypto 7 claims sample_license)
parse_iff_example = parse_iff crypto 7 (bytes_of "h.p.s") [] sample_license filled
