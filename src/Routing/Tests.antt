-- ===== src/Routing/Tests.antt =====
-- A router with one server, and instances of the theorems on routing.
use mcp_zero_trust_proxy.Base.{
  String, ◌≡◌, ◌⊎◌, refl, Option, none, some, [], ◌∷◌, lookup, contains,
}
use mcp_zero_trust_proxy.Config.Defaults.{apply_defaults, default_registry}
use mcp_zero_trust_proxy.Http.{trim_space, trim_left, trim_right, is_blank}
use mcp_zero_trust_proxy.Config.Validate.{blank}
use mcp_zero_trust_proxy.Config.Tests.{sample_config, sample_checks, sample_valid}
use mcp_zero_trust_proxy.Routing.{
  ToolInfo, ServerRouter, new_server_router, resolve_for_request, first_segment, aggregate,
}
use mcp_zero_trust_proxy.Routing.Resolves.{every_path_resolves}

abbrev any_url : String → Option String
any_url s = some s

first_of_path : first_segment "/files/mcp" ≡ "files"
first_of_path = refl

abbrev read_tool : ToolInfo
read_tool = record { name = "read"; description = ""; input_schema = none }

-- A name that comes again gets its server behind.
repeated_name :
    aggregate [] ((read_tool, "files") ∷ (read_tool, "mail") ∷ [])
    ≡ record read_tool { name = "files.read" } ∷ record read_tool { name = "read.mail" } ∷ []
unfolding aggregate contains
repeated_name = refl

every_path_resolves_example :
    (r : ServerRouter String) × (new_server_router any_url
        (apply_defaults sample_config).server.registry
      ≡ some r)
    × ((path : String)
        → (url : String) × ((resolve_for_request r path ≡ some (url, first_segment path))
            ⊎ ((lookup (first_segment path) r.servers ≡ none)
                × (resolve_for_request r path
                    ≡ some (url, (default_registry sample_config.server).default)))))
unfolding default_registry blank trim_space trim_left trim_right is_blank
every_path_resolves_example =
    every_path_resolves any_url sample_checks sample_config sample_valid (refl, tt) refl refl
