-- ===== src/Routing/Resolves.antt =====
-- Which server a request goes to, from the configuration to the router.
use mcp_zero_trust_proxy.Base.{
  String, ◌≡◌, refl, sym, ◌∙◌, true, false, not, ◌&&◌, Option, none, some, List, [], ◌∷◌, arith,
  if◌then◌else◌, contains, is_empty, map, lookup, Option-cases, inl, inr, ◌⊎◌, All,
}
use mcp_zero_trust_proxy.Config.{Config, ServerRegistryConfig, UpstreamServerConfig}
use mcp_zero_trust_proxy.Config.Defaults.{
  apply_defaults, default_server, default_server_config, default_registry,
}
use mcp_zero_trust_proxy.Config.Validate.{
  Checks, when, blank, add_seen, undefined_default, source_required,
}
use mcp_zero_trust_proxy.Config.Validate.Parts.{
  validate, check_source, check_registry, server_names, server_errors,
}
use mcp_zero_trust_proxy.Config.Names.{
  blank-ne, append-nil_inv, when-nil, Has, validate-IsOk, is_some, Entered, Entered-insert,
}
use mcp_zero_trust_proxy.Routing.{
  ServerRouter, add_servers, with_server, empty_router, new_server_router, first_segment,
  resolve_for_request,
}

-- Every server is enabled, and its URL parses.
abbrev pub IsUsable : {U : Type 0} → (String → Option U) → UpstreamServerConfig → Type 0
IsUsable parse srv = (srv.enabled ≡ true) × (is_some (parse srv.url) ≡ true)

module _ {U : Type 0} (parse : String → Option U) where
  -- The router of usable servers has each server that is named.
  add_servers-Entered :
      (srvs : List UpstreamServerConfig) (seen : List String) (r : ServerRouter U)
      → All (IsUsable parse) srvs
      → Entered seen r.servers
      → (r' : ServerRouter U) × (add_servers parse srvs r ≡ some r')
        × (r'.default_server ≡ r.default_server)
        × Entered (server_names seen srvs) r'.servers
  unfolding add_servers server_names
  add_servers-Entered [] seen r usable h = (r, refl, refl, h)
  add_servers-Entered (srv ∷ srvs) seen r ((on, parses), usable) h =
      elim (Option-cases (parse srv.url)) [
        | inl p ↦ let no : is_some (parse srv.url) ≡ false = rw p refl in cc
        | inr (url, p) ↦
            let (r', made, same, all) =
              add_servers-Entered srvs (if blank srv.name then seen else add_seen srv.name seen)
                (with_server srv url r) usable
                (Entered-insert (blank srv.name) srv.name url seen r.servers h) in
            (r', rw (add_servers, on, p) made, same, all)
      ]

is_empty-map :
    (srvs : List UpstreamServerConfig) → is_empty (map default_server srvs) ≡ is_empty srvs
is_empty-map [] = refl
is_empty-map (srv ∷ srvs) = refl

-- A server after its defaults.
IsUsable-default :
    {U : Type 0} (parse : String → Option U) (srvs : List UpstreamServerConfig)
    → All (λ srv. is_some (parse srv.url) ≡ true) srvs
    → All (IsUsable parse) (map default_server srvs)
IsUsable-default parse [] h = tt
IsUsable-default parse (srv ∷ srvs) (p, h) = ((refl, p), IsUsable-default parse srvs h)

default-Has :
    (reg : ServerRegistryConfig)
    → check_registry reg ≡ []
    → blank reg.default ≡ false
    → Has (server_names [] reg.servers) reg.default
unfolding check_registry
default-Has reg ok set =
    let (_, last) = append-nil_inv (server_errors 1 [] reg.servers) ok in
    let known =
      when-nil (not (blank reg.default) && not (contains (server_names [] reg.servers) reg.default))
        (undefined_default reg.default) last in
    ground (arith, known, set)

module _ {U : Type 0} (parse : String → Option U) (checks : Checks) (cfg : Config) where
  abbrev registry : ServerRegistryConfig
  registry = (apply_defaults cfg).server.registry

  -- Under a configuration that is loaded and has no error, that has servers, whose URLs parse, and a
  -- default server, the router is built, and every request has a server: the one that the first
  -- segment of its path names, or else, where no server has that name, the default.
  pub every_path_resolves :
      validate checks (apply_defaults cfg) ≡ []
      → All (λ srv. is_some (parse srv.url) ≡ true) (default_registry cfg.server).servers
      → blank (default_registry cfg.server).default ≡ false
      → is_empty (default_registry cfg.server).servers ≡ false
      → (r : ServerRouter U) × (new_server_router parse (apply_defaults cfg).server.registry
          ≡ some r)
        × ((path : String)
            → (url : U) × ((resolve_for_request r path ≡ some (url, first_segment path))
                ⊎ ((lookup (first_segment path) r.servers ≡ none)
                    × (resolve_for_request r path
                        ≡ some (url, (default_registry cfg.server).default)))))
  unfolding new_server_router apply_defaults default_server_config check_source contains
      resolve_for_request
  every_path_resolves ok parses set full =
      let reg = default_registry cfg.server in
      let source = (validate-IsOk checks (apply_defaults cfg) ok).source in
      let (r, made, default_same, all) =
        add_servers-Entered parse (map default_server reg.servers) []
          (empty_router (if blank reg.default then "" else reg.default))
          (IsUsable-default parse reg.servers parses) (λ n h. cc) in
      let reg' : ServerRegistryConfig = record reg { servers = map default_server reg.servers } in
      let (_, checked) =
        append-nil_inv
          (when (blank cfg.server.upstream_url && is_empty reg'.servers) source_required) source in
      let some_server : is_empty reg'.servers ≡ false = is_empty-map reg.servers ∙ full in
      let valid : check_registry reg' ≡ [] = sym (rw some_server refl) ∙ checked in
      let default_is : r.default_server ≡ reg.default = default_same ∙ rw set refl in
      let there = all reg.default (default-Has reg' valid set) in
      (
        r,
        made,
        λ path. elim (Option-cases (lookup (first_segment path) r.servers)) [
          | inr (url, p) ↦ (url, inl (rw p refl))
          | inl p ↦ elim (Option-cases (lookup reg.default r.servers)) [
            | inl q ↦ let no : is_some (lookup reg.default r.servers) ≡ false = rw q refl in cc
            | inr (url, q) ↦ (url, inr (p, rw (p, default_is, blank-ne reg.default set, q) refl))
          ]
        ],
      )
