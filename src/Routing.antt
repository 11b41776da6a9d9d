-- ===== src/Routing.antt =====
-- internal/proxy/router.go and server_router.go: the choice of the upstream server by the path, and the
-- cache of the servers' tools. A parsed URL is of a type `U`; parsing, the fetch of a server's tools and
-- the clock are arguments.
pub mod Resolves
pub mod Aggregate
mod Tests
use mcp_zero_trust_proxy.Base.{
  ℕ, ◌+◌, ◌*◌, String, Bool, true, false, Option, none, some, List, [], ◌∷◌, ◌++◌, ◌==◌, map,
  if◌then◌else◌, eqb, ltb, contains, Dict, lookup, insert, ℤ, pos,
}
use Prim.Native.Char.{code}
use mcp_zero_trust_proxy.Protocol.{Json}
use mcp_zero_trust_proxy.Config.{ServerRegistryConfig, UpstreamServerConfig}
use mcp_zero_trust_proxy.Config.Validate.{blank}

pub record ToolInfo : Type 0 where
  pub name : String
  pub description : String
  pub input_schema : Option Json

pub record ToolsCacheEntry : Type 0 where
  pub tools : List ToolInfo
  pub expires_at : ℕ

-- The time to live of the tools is the constant below.
pub record ServerRouter (U : Type 0) : Type 0 where
  pub servers : Dict U
  pub server_timeouts : Dict ℤ
  pub default_server : String
  pub tools_cache : Dict ToolsCacheEntry

-- 60 seconds, in nanoseconds.
abbrev pub default_tools_cache_ttl : ℕ
default_tools_cache_ttl = 60 * 1000000000

-- The path without a leading slash, up to the next one.
abbrev strip_slash : String → String
strip_slash String.[] = ""
strip_slash (String.◌∷◌ c s) = if eqb (code c) b'/' then s else String.◌∷◌ c s

abbrev before_slash : String → String
before_slash String.[] = ""
before_slash (String.◌∷◌ c s) =
    let after = before_slash s in if eqb (code c) b'/' then "" else String.◌∷◌ c after

abbrev pub first_segment : String → String
first_segment path = before_slash (strip_slash path)

abbrev pub fresh_tools : ℕ → Option ToolsCacheEntry → Option (List ToolInfo)
fresh_tools now none = none
fresh_tools now (some entry) = if ltb entry.expires_at now then none else some entry.tools

module _ {U : Type 0} where
  abbrev pub empty_router : String → ServerRouter U
  empty_router default = record {
    servers = [];
    server_timeouts = [];
    default_server = default;
    tools_cache = [];
  }

  abbrev pub with_server : UpstreamServerConfig → U → ServerRouter U → ServerRouter U
  with_server srv url r = record r {
    servers = insert srv.name url r.servers;
    server_timeouts = insert srv.name srv.timeout r.server_timeouts;
  }

  -- The loop over the servers; the first URL that does not parse ends it.
  unfoldable pub add_servers :
      (String → Option U) → List UpstreamServerConfig → ServerRouter U → Option (ServerRouter U)
  add_servers parse [] r = some r
  add_servers parse (srv ∷ srvs) r =
      let skipped = add_servers parse srvs r in
      if srv.enabled
      then (elim (parse srv.url) [
        | none ↦ none
        | some url ↦ add_servers parse srvs (with_server srv url r)
      ])
      else skipped

  unfoldable pub new_server_router :
      (String → Option U) → ServerRegistryConfig → Option (ServerRouter U)
  new_server_router parse cfg =
      add_servers parse cfg.servers (empty_router (if blank cfg.default then "" else cfg.default))

  abbrev pub named : String → Option U → Option (U × String)
  named name none = none
  named name (some url) = some (url, name)

  abbrev pub or_default : ServerRouter U → Option (U × String) → Option (U × String)
  or_default r (some found) = some found
  or_default r none =
      if r.default_server == ""
      then none
      else named r.default_server (lookup r.default_server r.servers)

  -- `none` is `ErrUnknownServer`.
  unfoldable pub resolve_for_request : ServerRouter U → String → Option (U × String)
  resolve_for_request r path =
      or_default r (named (first_segment path) (lookup (first_segment path) r.servers))

  abbrev pub get_server_upstream : ServerRouter U → String → Option U
  get_server_upstream r name = lookup name r.servers

  unfoldable pub get_server_timeout : ServerRouter U → String → ℤ
  get_server_timeout r name = elim (lookup name r.server_timeouts) [
    | none ↦ pos 120
    | some timeout ↦ timeout
  ]

  abbrev pub get_server_names : ServerRouter U → List String
  get_server_names r = map (λ entry. entry.0) r.servers

  unfoldable pub update_tools_cache : String → List ToolInfo → ℕ → ServerRouter U → ServerRouter U
  update_tools_cache name tools now r = record r {
    tools_cache =
        insert name (record { tools = tools; expires_at = now + default_tools_cache_ttl })
          r.tools_cache;
  }

  -- The fetches in the order in which they end, each with its tools, or none on an error, and its time.
  unfoldable pub refresh_tools_cache :
      List (String × Option (List ToolInfo) × ℕ) → ServerRouter U → ServerRouter U
  refresh_tools_cache [] r = r
  refresh_tools_cache ((name, none, now) ∷ fetched) r = refresh_tools_cache fetched r
  refresh_tools_cache ((name, some tools, now) ∷ fetched) r =
      refresh_tools_cache fetched (update_tools_cache name tools now r)

  unfoldable pub get_tools_from_cache : ServerRouter U → String → ℕ → Option (List ToolInfo)
  get_tools_from_cache r name now = fresh_tools now (lookup name r.tools_cache)

-- The tools with the server they are from.
abbrev pub sourced : String → Option (List ToolInfo) → List (ToolInfo × String)
sourced server none = []
sourced server (some tools) = map (λ tool. (tool, server)) tools

unfoldable pub all_tools :
    {U : Type 0} → ServerRouter U → ℕ → Dict ToolsCacheEntry → List (ToolInfo × String)
all_tools r now [] = []
all_tools r now ((server, entry) ∷ cache) =
    sourced server (get_tools_from_cache r server now) ++ all_tools r now cache

abbrev append : String → String → String
append String.[] b = b
append (String.◌∷◌ c a) b = String.◌∷◌ c (append a b)

abbrev pub dotted : String → String → String
dotted a b = append a (append "." b)

-- The renamed tool: with its server in front, or behind where the name was seen.
abbrev pub renamed : Bool → ToolInfo → String → ToolInfo
renamed seen tool server = record tool {
  name = if seen then dotted tool.name server else dotted server tool.name;
}

unfoldable pub aggregate : List String → List (ToolInfo × String) → List ToolInfo
aggregate seen [] = []
aggregate seen ((tool, server) ∷ sources) =
    let repeated = contains seen tool.name in
    renamed repeated tool server ∷ aggregate (if repeated then seen else tool.name ∷ seen) sources

-- The map of the cache in one order in which it may be visited. The refreshes of the entries that have
-- expired are started and not waited for.
unfoldable pub get_aggregated_tools : {U : Type 0} → ServerRouter U → ℕ → List ToolInfo
get_aggregated_tools r now = aggregate [] (all_tools r now r.tools_cache)
