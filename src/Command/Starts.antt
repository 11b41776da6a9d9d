-- ===== src/Command/Starts.antt =====
-- When a configuration without errors starts the proxy.
use mcp_zero_trust_proxy.Base.{
  ◌≡◌, refl, ap, inl, inr, String, Bool, true, false, ◌&&◌, ◌||◌, not, Option, none, some, List, [],
  ◌∷◌, ◌==◌, eq_iff, map, arith, if◌then◌else◌, is_empty, contains, ok, guard_ok, need_ok,
  Bool-cases, In, All,
}
use mcp_zero_trust_proxy.Protocol.{Bytes}
use mcp_zero_trust_proxy.Http.{bytes_of}
use mcp_zero_trust_proxy.Pii.{MaskingConfig, has_star, tool_pattern, compile_classes, new_masker}
use mcp_zero_trust_proxy.Auth.Login.{Authenticator, set_user_restrictions}
use mcp_zero_trust_proxy.Audit.{
  AuditEngine, Sink, with_sink, create_external_sink, create_sinks, new_audit_engine,
}
use mcp_zero_trust_proxy.Audit.Built.{sink_built, known_facility, valid_sink_built}
use mcp_zero_trust_proxy.Routing.{ServerRouter, add_servers, with_server, new_server_router}
use mcp_zero_trust_proxy.Config.{
  Config, AuthConfig, AuditConfig, AuditSinkConfig, UpstreamServerConfig, UserRestrictionsConfig,
}
use mcp_zero_trust_proxy.Config.Validate.{
  unknown_provider, invalid_allow_regex, invalid_deny_regex, one_of,
}
use mcp_zero_trust_proxy.Config.Validate.Parts.{
  validate, check_auth, check_restrictions, check_masking, pattern_errors,
}
use mcp_zero_trust_proxy.Config.Names.{is_some, ok_first, append-nil_inv, when-nil, validate-IsOk}
use mcp_zero_trust_proxy.Config.Compiled.{compile_patterns-some, compile_tools-some}
use mcp_zero_trust_proxy.Auth.Providers.{
  OidcDiscovery, OauthProvider, oidc_provider, select_provider,
}
use mcp_zero_trust_proxy.Command.{
  Machine, Started, has_masker, tls_enabled, sink_config, new_logger, start,
}

module _ (m : Machine) (cfg : Config) where
  -- What the start needs of the machine: that `regexp` compiles what the checks let pass, and every
  -- quoted wildcard; that the issuer answers, the sinks are reached, the file sink can be made and
  -- the URLs parsed.
  pub record IsReady : Type 0 where
    pub agree : (b : Bytes) → m.checks.compiles b ≡ true → m.regexp.compiles b ≡ true
    pub quoted :
        (tool : Bytes)
        → has_star tool ≡ true
        → m.regexp.compiles (tool_pattern m.regexp m.encode tool) ≡ true
    pub restricts :
        (s : String) → m.checks.compiles (bytes_of s) ≡ true → m.outside.compiles s ≡ true
    pub discovered : is_some (oidc_provider m.fetch (bytes_of cfg.auth.issuer_url)) ≡ true
    pub connected : (sink : AuditSinkConfig) → In sink cfg.audit.sinks → m.connects sink ≡ true
    pub file : m.file_sink cfg.audit ≡ true
    pub parsed : All (λ srv. is_some (m.parse_url srv.url) ≡ true) cfg.server.registry.servers

some_of : {A : Type 0} (o : Option A) → is_some o ≡ true → (x : A) × (o ≡ some x)
some_of none h = cc
some_of (some x) h = (x, refl)

named_selected :
    (fetch : Bytes → Option OidcDiscovery) (auth : AuthConfig)
    → one_of ("github" ∷ "google" ∷ "entra" ∷ "oidc" ∷ []) auth.provider ≡ true
    → is_some (oidc_provider fetch (bytes_of auth.issuer_url)) ≡ true
    → is_some (select_provider fetch auth) ≡ true
unfolding select_provider one_of contains
named_selected fetch auth known found =
    let p = auth.provider in
    ground (
      arith,
      eq_iff p "",
      eq_iff p "github",
      eq_iff p "google",
      eq_iff p "entra",
      eq_iff p "oidc",
      eq_iff "github" p,
      eq_iff "google" p,
      eq_iff "entra" p,
      eq_iff "oidc" p,
    )

provider_selected :
    (fetch : Bytes → Option OidcDiscovery) (auth : AuthConfig)
    → check_auth auth ≡ []
    → is_some (oidc_provider fetch (bytes_of auth.issuer_url)) ≡ true
    → (provider : OauthProvider) × (select_provider fetch auth ≡ some provider)
unfolding check_auth
provider_selected fetch auth valid found =
    let (known, rest) =
      ok_first (not (one_of ("github" ∷ "google" ∷ "entra" ∷ "oidc" ∷ []) auth.provider))
        (unknown_provider auth.provider) _ valid in
    some_of (select_provider fetch auth) (named_selected fetch auth (ground (arith, known)) found)

restrictions_set :
    (m : Machine) (users : UserRestrictionsConfig) (a : Authenticator)
    → ((s : String) → m.checks.compiles (bytes_of s) ≡ true → m.outside.compiles s ≡ true)
    → check_restrictions m.checks users ≡ []
    → (set_user_restrictions m.outside users.allow_regex users.deny_regex a).0 ≡ true
unfolding check_restrictions set_user_restrictions
restrictions_set m users a agree valid =
    let (allow, rest) =
      ok_first
        (not (users.allow_regex == "") && not (m.checks.compiles (bytes_of users.allow_regex)))
        invalid_allow_regex _ valid in
    let deny =
      when-nil (not (users.deny_regex == "") && not (m.checks.compiles (bytes_of users.deny_regex)))
        invalid_deny_regex rest in
    ground (arith, allow, deny, agree users.allow_regex, agree users.deny_regex)

module _ (m : Machine) where
  external_made :
      (sink : AuditSinkConfig)
      → (sink_built sink && m.connects sink) ≡ true
      → is_some (create_external_sink (sink_config m sink)) ≡ true
  unfolding create_external_sink sink_built
  external_made sink h = ground (arith, h)

  with_made :
      (enabled : Bool) (o : Option Sink) (rest : Option (List Sink))
      → is_some o ≡ true
      → (kept : List Sink) × (rest ≡ some kept)
      → (made : List Sink) × ((if enabled then with_sink o rest else rest) ≡ some made)
  with_made true (some x) (some kept) h r = (x ∷ kept, refl)
  with_made true none rest h r = cc
  with_made true (some x) none h (kept, q) = cc
  with_made false o rest h r = r

  sinks_created :
      (sinks : List AuditSinkConfig)
      → ((sink : AuditSinkConfig) → In sink sinks → (sink_built sink && m.connects sink) ≡ true)
      → (made : List Sink) × (create_sinks (map (sink_config m) sinks) ≡ some made)
  unfolding create_sinks
  sinks_created [] h = ([], refl)
  sinks_created (sink ∷ sinks) h =
      with_made sink.enabled (create_external_sink (sink_config m sink))
        (create_sinks (map (sink_config m) sinks)) (external_made sink (h sink (inl refl)))
        (sinks_created sinks (λ k member. h k (inr member)))

  servers_added :
      (srvs : List UpstreamServerConfig) (r : ServerRouter m.Url)
      → All (λ srv. is_some (m.parse_url srv.url) ≡ true) srvs
      → (r' : ServerRouter m.Url) × (add_servers m.parse_url srvs r ≡ some r')
  unfolding add_servers
  servers_added [] r h = (r, refl)
  servers_added (srv ∷ srvs) r (p, h) = elim (Bool-cases srv.enabled) [
    | inl e ↦
        let (url, q) = some_of (m.parse_url srv.url) p in
        let (r', made) = servers_added srvs (with_server srv url r) h in
        (r', rw (add_servers, e, q) made)
    | inr e ↦ let (r', made) = servers_added srvs r h in (r', rw (add_servers, e) made)
  ]

  masker_made :
      (pii : MaskingConfig)
      → ((b : Bytes) → m.checks.compiles b ≡ true → m.regexp.compiles b ≡ true)
      → ((tool : Bytes)
          → has_star tool ≡ true
          → m.regexp.compiles (tool_pattern m.regexp m.encode tool) ≡ true)
      → check_masking m.checks pii ≡ []
      → has_masker (new_masker m.regexp m.encode pii) ≡ true
  unfolding check_masking new_masker contains
  masker_made pii agree quoted valid =
      elim (Bool-cases (
        is_empty pii.patterns
        && is_empty pii.sensitivity_classes
        && is_empty pii.tool_class_assignments)) [
          | inl e ↦ rw e refl
          | inr e ↦
              let found = rw e at valid in
              let (ok1, rest) = append-nil_inv (pattern_errors m.checks [] pii.patterns) found in
              let (d, compiled, entered) =
                compile_patterns-some m.regexp m.encode m.checks agree pii.patterns [] [] ok1
                  (λ n h. cc) in
              let (tcs, tools, hit) =
                compile_tools-some m.regexp m.encode m.checks agree pii.tool_class_assignments
                  (compile_classes pii.sensitivity_classes d []) quoted in
              rw (e, compiled, tools) refl
        ]

  engine_made :
      (audit : AuditConfig) (made : List Sink)
      → m.file_sink audit ≡ true
      → create_sinks (map (sink_config m) audit.sinks) ≡ some made
      → (engine : AuditEngine) × (new_logger m audit ≡ some engine)
  unfolding new_audit_engine
  engine_made audit made file q =
      elim (Bool-cases (
        audit.enabled
        && (audit.output == "stdout" || audit.output == "file" || audit.output == "both"))) [
          | inl e ↦ (
            record {
              enabled = audit.enabled;
              sinks = record { name = "file"; filter = none } ∷ made;
            },
            rw (e, file, q) refl,
          )
          | inr e ↦ (record { enabled = audit.enabled; sinks = made }, rw (e, q) refl)
        ]

unless_on : (b c : Bool) → b ≡ false → (if b then c else true) ≡ true
unless_on true c h = cc
unless_on false c h = refl

module _ (m : Machine) (cfg : Config) where
  pub valid_config_starts :
      IsReady m cfg
      → validate m.checks cfg ≡ []
      → ((sink : AuditSinkConfig) → In sink cfg.audit.sinks → known_facility sink.cef ≡ true)
      → cfg.catalog.enabled ≡ false
      → (cfg.server.tls.required && not (tls_enabled cfg.server.tls)) ≡ false
      → (s : Started m) × (start m cfg ≡ ok s)
  unfolding start new_server_router
  valid_config_starts ready valid facilities off tls =
      let parts = validate-IsOk m.checks cfg valid in
      let (name, p1) = provider_selected m.fetch cfg.auth parts.auth ready.discovered in
      let p2 = restrictions_set m cfg.user_restrictions _ ready.restricts parts.restrictions in
      let reached : (sink : AuditSinkConfig)
          → In sink cfg.audit.sinks
          → (sink_built sink && m.connects sink) ≡ true =
        λ sink member.
          rw (valid_sink_built m.checks cfg sink valid member (facilities sink member))
            (ready.connected sink member) in
      let (sinks, q) = sinks_created m cfg.audit.sinks reached in
      let (engine, p3) = engine_made m cfg.audit sinks ready.file q in
      let p4 = masker_made m cfg.pii_masking ready.agree ready.quoted parts.masking in
      let (router, p5) = servers_added m cfg.server.registry.servers _ ready.parsed in
      guard_ok _ (ap is_empty valid) (
        need_ok _ (name, p1)
          (λ provider. guard_ok _ p2 (
            need_ok _ (engine, p3)
              (λ engine. guard_ok _ p4 (
                need_ok _ (router, p5)
                  (λ router.
                    guard_ok _ (unless_on cfg.catalog.enabled _ off)
                      (guard_ok _ (ap not off) (guard_ok _ (ap not tls) (_, refl)))))))))
