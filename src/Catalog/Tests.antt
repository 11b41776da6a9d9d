-- ===== src/Catalog/Tests.antt =====
-- A table in memory, in which a server's tools are stored. JSON is that of absent schemas, `null`.
use mcp_zero_trust_proxy.Base.{
  ◌≡◌, ◌≢◌, ◌↔◌, ◌⊎◌, refl, none, some, List, [], ◌∷◌, String, In, keep, contains, ok, err,
}
use mcp_zero_trust_proxy.Http.{bytes_of}
use mcp_zero_trust_proxy.Routing.{ToolInfo, aggregate}
use mcp_zero_trust_proxy.Catalog.{
  Row, SchemaJson, CatalogError, insert_failed, query_failed, insert_tools, upsert_tools,
  get_filtered_tools, get_aggregated_tools,
}
use mcp_zero_trust_proxy.Catalog.Lawful.{has_tool}
use mcp_zero_trust_proxy.Catalog.Memory.{memory, memory-IsLawful}
use mcp_zero_trust_proxy.Catalog.Upsert.{replaced, upsert_atomic}
use mcp_zero_trust_proxy.Catalog.Queries.{stored_listed, restricted_list_fails}

abbrev json : SchemaJson
json = record { marshal = λ schema. some (bytes_of "null"); unmarshal = λ bytes. some none }

abbrev tool : String → ToolInfo
tool name = record { name = name; description = ""; input_schema = none }

abbrev row : String → String → Row
row server name = record {
  server_name = server;
  name = name;
  description = "";
  input_schema = bytes_of "null";
}

abbrev before : List Row
before = row "files" "old" ∷ row "mail" "send" ∷ []

abbrev new_tools : List ToolInfo
new_tools = tool "read" ∷ tool "write" ∷ []

stored_rows :
    upsert_tools json memory "files" new_tools before
    ≡ (ok tt, row "mail" "send" ∷ row "files" "read" ∷ row "files" "write" ∷ [])
unfolding upsert_tools insert_tools has_tool keep
stored_rows = refl

repeated_tool :
    upsert_tools json memory "files" (tool "read" ∷ tool "read" ∷ []) before
    ≡ (err insert_failed, before)
unfolding upsert_tools insert_tools has_tool keep
repeated_tool = refl

-- Two tools of one name.
two_of_one_name :
    get_aggregated_tools json memory (row "a" "b" ∷ row "c" "b" ∷ row "b" "c" ∷ [])
    ≡ ok (tool "a.b" ∷ tool "b.c" ∷ tool "b.c" ∷ [])
unfolding get_aggregated_tools aggregate contains
two_of_one_name = refl

upsert_atomic_example :
    (((upsert_tools json memory "files" new_tools before).0 ≡ ok tt)
      × (memory-IsLawful.rows (upsert_tools json memory "files" new_tools before).1
          ≡ replaced json "files" memory memory-IsLawful new_tools before))
    ⊎ ((e : CatalogError) × ((upsert_tools json memory "files" new_tools before).0 ≡ err e)
        × ((upsert_tools json memory "files" new_tools before).1 ≡ before))
upsert_atomic_example = upsert_atomic json "files" memory memory-IsLawful new_tools before

named : ◌≢◌ {A = String} "files" ""
named e = cc

stored_ok : (upsert_tools json memory "files" new_tools before).0 ≡ ok tt
unfolding upsert_tools insert_tools has_tool keep
stored_ok = refl

stored_listed_example :
    ((found : List ToolInfo)
      → get_filtered_tools json memory "files" none
          (upsert_tools json memory "files" new_tools before).1
        ≡ ok found
      → (t : ToolInfo) → In t found ↔ In t new_tools)
    × ((other : String) (listed after : List ToolInfo)
        → other ≢ "files"
        → other ≢ ""
        → get_filtered_tools json memory other none before ≡ ok listed
        → get_filtered_tools json memory other none
            (upsert_tools json memory "files" new_tools before).1
          ≡ ok after
        → (t : ToolInfo) → In t after ↔ In t listed)
stored_listed_example =
    stored_listed json "files" memory memory-IsLawful new_tools before named (refl, (refl, tt))
      stored_ok

restricted_list_fails_example :
    get_filtered_tools json memory "" (some ("read" ∷ [])) before ≡ err query_failed
restricted_list_fails_example = restricted_list_fails json memory memory-IsLawful "read" [] before
