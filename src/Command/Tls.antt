-- ===== src/Command/Tls.antt =====
-- What a proxy that has started does about TLS.
use mcp_zero_trust_proxy.Base.{
  ◌≡◌, ◌≢◌, refl, sym, ◌∙◌, subst, ◌⊎◌, inl, inr, true, false, ◌&&◌, not, List, [], ◌∷◌, ◌==◌,
  eq_iff, arith, if◌then◌else◌, is_empty, contains, ok, Bool-cases, need_then, guard_inv,
}
use mcp_zero_trust_proxy.Config.{Config, TlsConfig}
use mcp_zero_trust_proxy.Config.Validate.{invalid_http_version, invalid_tls_version, one_of}
use mcp_zero_trust_proxy.Config.Validate.Parts.{validate, check_versions}
use mcp_zero_trust_proxy.Config.Names.{ok_first, validate-IsOk}
use mcp_zero_trust_proxy.Rbac.{new_engine}
use mcp_zero_trust_proxy.Pii.{new_masker}
use mcp_zero_trust_proxy.Routing.{new_server_router}
use mcp_zero_trust_proxy.Auth.Providers.{select_provider}
use mcp_zero_trust_proxy.Command.{
  TlsVersion, tls12, tls13, parse_tls_version, build_tls_config, Machine, Started, has_masker,
  or_tls12, tls_enabled, new_logger, wired, start,
}

-- TLS 1.2 or 1.3.
abbrev pub IsModern : TlsVersion → Type 0
IsModern version = (version ≡ tls12) ⊎ (version ≡ tls13)

is_empty-nil : {A : Type 0} (xs : List A) → is_empty xs ≡ true → xs ≡ []
is_empty-nil [] h = refl
is_empty-nil (x ∷ xs) h = cc

module _ (m : Machine) (cfg : Config) (s : Started m) where
  -- A proxy that has started had a configuration without errors, TLS where it is required, and
  -- serves with the settings of that configuration.
  pub record IsStarted : Type 0 where
    pub valid : validate m.checks cfg ≡ []
    pub required_set : (cfg.server.tls.required && not (tls_enabled cfg.server.tls)) ≡ false
    pub authenticator : s.authenticator ≡ (wired m cfg).1
    pub rbac : s.rbac ≡ new_engine cfg.roles cfg.classification
    pub tls : s.tls ≡ build_tls_config m.suites cfg.server.tls
    pub serves : s.serves_tls ≡ tls_enabled cfg.server.tls

  pub start-IsStarted : start m cfg ≡ ok s → IsStarted
  unfolding start
  start-IsStarted h =
      let (e1, h1) = guard_inv _ (is_empty (validate m.checks cfg)) _ h in
      let (provider, e2, h2) = need_then _ (select_provider m.fetch cfg.auth) _ h1 in
      let (e3, h3) = guard_inv _ (wired m cfg).0 _ h2 in
      let (engine, e4, h4) = need_then _ (new_logger m cfg.audit) _ h3 in
      let (e5, h5) = guard_inv _ (has_masker (new_masker m.regexp m.encode cfg.pii_masking)) _ h4 in
      let (router, e6, h6) = need_then _ (new_server_router m.parse_url cfg.server.registry) _ h5 in
      let (e7, h7) = guard_inv _ (if cfg.catalog.enabled then m.catalog cfg else true) _ h6 in
      let (e9, h9) = guard_inv _ (not cfg.catalog.enabled) _ h7 in
      let (e8, h8) =
        guard_inv _ (not (cfg.server.tls.required && not (tls_enabled cfg.server.tls))) _ h9 in
      record {
        valid = is_empty-nil (validate m.checks cfg) e1;
        required_set = ground arith;
        authenticator = cc;
        rbac = cc;
        tls = cc;
        serves = cc;
      }

version-IsModern :
    (cfg : TlsConfig)
    → one_of ("1.2" ∷ "1.3" ∷ []) cfg.min_version ≡ true
    → IsModern (or_tls12 (parse_tls_version cfg.min_version))
unfolding parse_tls_version one_of contains
version-IsModern cfg h = elim (Bool-cases (cfg.min_version == "1.2")) [
  | inl e ↦ rw ((eq_iff cfg.min_version "1.2").0 e) (inl refl)
  | inr e ↦ elim (Bool-cases (cfg.min_version == "1.3")) [
    | inl f ↦ rw ((eq_iff cfg.min_version "1.3").0 f) (inr refl)
    | inr f ↦
        let blank : cfg.min_version ≡ "" = ground (
          arith,
          h,
          e,
          f,
          eq_iff cfg.min_version "",
          eq_iff cfg.min_version "1.2",
          eq_iff cfg.min_version "1.3",
          eq_iff "1.2" cfg.min_version,
          eq_iff "1.3" cfg.min_version,
        ) in
        rw blank (inl refl)
  ]
]

enabled_set :
    (cfg : TlsConfig)
    → tls_enabled cfg ≡ true
    → (tls_enabled cfg ≡ true) × (cfg.cert_file ≢ "") × (cfg.key_file ≢ "")
enabled_set cfg h = (
  h,
  λ e. ground (arith, h, e, eq_iff cfg.cert_file ""),
  λ e. ground (arith, h, e, eq_iff cfg.key_file ""),
)

module _ (m : Machine) (cfg : Config) (s : Started m) where
  -- A proxy that starts accepts no version of TLS below 1.2; and unless the configuration does not
  -- require TLS, it serves by TLS, with a certificate and a key that are set.
  pub started_secure :
      start m cfg ≡ ok s
      → IsModern s.tls.min_version
        × ((cfg.server.tls.required ≡ false)
            ⊎ ((s.serves_tls ≡ true)
                × (cfg.server.tls.cert_file ≢ "")
                × (cfg.server.tls.key_file ≢ "")))
  unfolding build_tls_config check_versions
  started_secure h =
      let r = start-IsStarted m cfg s h in
      let tls = cfg.server.tls in
      let versions = (validate-IsOk m.checks cfg r.valid).versions in
      let (_, rest) =
        ok_first (not (one_of ("1.0" ∷ "1.1" ∷ "2.0" ∷ []) cfg.server.min_http_version))
          (invalid_http_version cfg.server.min_http_version) _ versions in
      let (known, _) =
        ok_first (not (one_of ("1.2" ∷ "1.3" ∷ []) tls.min_version))
          (invalid_tls_version tls.min_version) _ rest in
      (
        subst (λ t. IsModern t.min_version) (sym r.tls)
            (version-IsModern tls (ground (arith, known))),
        elim (Bool-cases tls.required) [
          | inl q ↦
              let (on, cert, key) = enabled_set tls (ground (arith, r.required_set, q)) in
              inr (r.serves ∙ on, cert, key)
          | inr q ↦ inl q
        ],
      )
