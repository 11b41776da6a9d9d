-- ===== src/Auth/Providers/Entra.antt =====
-- The tenant in the URLs of Microsoft Entra.
use mathlib.Core.List.{reverse, reverse-append, reverse-reverse, append-nil}
use mcp_zero_trust_proxy.Base.{
  ◌≡◌, refl, ap, false, some, [], ◌∷◌, ◌++◌, arith, is_empty, has_byte, ◌⊎◌, inl, inr,
}
use mcp_zero_trust_proxy.Protocol.{Bytes}
use mcp_zero_trust_proxy.Http.{bytes_of}
use mcp_zero_trust_proxy.Auth.Providers.{
  strip_prefix, trim_suffix, split_path, slash, version_path, tenant_of, tenant_id, microsoft,
  entra_provider,
}

strip_prefix-append : (p text : Bytes) → strip_prefix p (p ++ text) ≡ some text
unfolding strip_prefix
strip_prefix-append [] text = refl
strip_prefix-append (c ∷ p) text = ground (arith, strip_prefix-append p text)

trim_suffix-append : (text suffix : Bytes) → trim_suffix suffix (text ++ suffix) ≡ text
trim_suffix-append text suffix =
    rw (reverse-append text suffix, strip_prefix-append (reverse suffix) (reverse text))
      (reverse-reverse text)

-- A text that ends with the version does not end with a slash.
version_kept : (text : Bytes) → trim_suffix slash (text ++ version_path) ≡ text ++ version_path
unfolding strip_prefix
version_kept text = rw (reverse-append text version_path) refl

split_path-free : (s : Bytes) → has_byte b'/' s ≡ false → split_path s ≡ s ∷ []
unfolding split_path has_byte
split_path-free [] free = refl
split_path-free (c ∷ s) free =
    let rest : split_path s ≡ s ∷ [] = split_path-free s (ground (arith, free)) in
    rw rest (ground (arith, free))

tenant_read :
    (tenant : Bytes)
    → has_byte b'/' tenant ≡ false
    → is_empty tenant ≡ false
    → tenant_of (split_path (microsoft ++ tenant)) ≡ tenant
unfolding split_path
tenant_read tenant free filled = rw (split_path-free tenant free, filled) refl

issuer_trimmed :
    (issuer ending : Bytes)
    → (ending ≡ []) ⊎ (ending ≡ slash)
    → trim_suffix slash ((issuer ++ version_path) ++ ending) ≡ issuer ++ version_path
issuer_trimmed issuer ending (inl q) =
    rw (q, append-nil (issuer ++ version_path)) (version_kept issuer)
issuer_trimmed issuer ending (inr q) = rw q (trim_suffix-append (issuer ++ version_path) slash)

issuer_tenant :
    (tenant ending : Bytes)
    → has_byte b'/' tenant ≡ false
    → is_empty tenant ≡ false
    → (ending ≡ []) ⊎ (ending ≡ slash)
    → tenant_id (((microsoft ++ tenant) ++ version_path) ++ ending) ≡ tenant
issuer_tenant tenant ending free filled end =
    rw
      (
        issuer_trimmed (microsoft ++ tenant) ending end,
        trim_suffix-append (microsoft ++ tenant) version_path,
      )
      (tenant_read tenant free filled)

-- For the issuer of a tenant, with or without a final slash, the endpoints are those of that tenant:
-- its name, not empty and without a slash, stands in both where the issuer has it.
pub entra_endpoints :
    (tenant ending : Bytes)
    → has_byte b'/' tenant ≡ false
    → is_empty tenant ≡ false
    → (ending ≡ []) ⊎ (ending ≡ slash)
    → ((entra_provider (((microsoft ++ tenant) ++ version_path) ++ ending)).auth_url
        ≡ microsoft ++ (tenant ++ bytes_of "/oauth2/v2.0/authorize"))
      × ((entra_provider (((microsoft ++ tenant) ++ version_path) ++ ending)).token_url
          ≡ microsoft ++ (tenant ++ bytes_of "/oauth2/v2.0/token"))
unfolding entra_provider
entra_endpoints tenant ending free filled end =
    let same = issuer_tenant tenant ending free filled end in
    (
      ap (λ t. microsoft ++ (t ++ bytes_of "/oauth2/v2.0/authorize")) same,
      ap (λ t. microsoft ++ (t ++ bytes_of "/oauth2/v2.0/token")) same,
    )
