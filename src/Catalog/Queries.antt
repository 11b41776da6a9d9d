-- ===== src/Catalog/Queries.antt =====
-- What the catalog lists.
use mcp_zero_trust_proxy.Base.{
  ◌≡◌, ◌≢◌, ◌↔◌, refl, sym, ap, subst, ◌∙◌, inl, inr, String, not, none, some, List, [], ◌∷◌, ◌++◌,
  map, append-nil, keep, In, Option-cases, ok, err, ==_of_ne, ==_self, eq_iff, keep-append, In-map,
  All, Bool-cases,
}
use mcp_zero_trust_proxy.Routing.{ToolInfo}
use mcp_zero_trust_proxy.Catalog.{
  Row, text, Sqlite, SchemaJson, query_failed, select_sql, where_sql, order_sql, placeholders,
  filter_query, listed, tool_of, schema_of, schema_bytes, upsert_tools, get_filtered_tools,
}
use mcp_zero_trust_proxy.Catalog.Lawful.{is_of, IsLawful}
use mcp_zero_trust_proxy.Catalog.Upsert.{row_of, replaced, upsert_atomic}

module _ (json : SchemaJson) (db : Sqlite) (lawful : IsLawful db) where
  -- For a role with allowed tools, the list of all servers' tools cannot be queried: the statement
  -- that is built has `AND` without `WHERE`, and is refused, whatever the table holds.
  pub restricted_list_fails :
      (name : String) (names : List String) (s : db.State)
      → get_filtered_tools json db "" (some (name ∷ names)) s ≡ err query_failed
  unfolding get_filtered_tools filter_query
  restricted_list_fails name names s = ap (listed json db) (
      lawful.no_where (placeholders (name ∷ names) ++ (b')' ∷ order_sql))
        (map (λ n. text n) (name ∷ names)) s)

-- The tool's schema is read back as it was written.
abbrev pub IsReadBack : SchemaJson → ToolInfo → Type 0
IsReadBack json tool = schema_of json (schema_bytes json tool.input_schema) ≡ tool.input_schema

module _ (json : SchemaJson) (server : String) where
  read_back_all :
      (tools : List ToolInfo)
      → All (IsReadBack json) tools
      → map (tool_of json) (map (row_of json server) tools) ≡ tools
  read_back_all [] h = refl
  read_back_all (tool ∷ tools) (same, h) =
      ap
        (λ schema.
          record tool { input_schema = schema }
          ∷ map (tool_of json) (map (row_of json server) tools))
        same
      ∙ ap (λ l. tool ∷ l) (read_back_all tools h)

  all_of :
      (tools : List ToolInfo)
      → keep (is_of server) (map (row_of json server) tools) ≡ map (row_of json server) tools
  unfolding keep
  all_of [] = refl
  all_of (tool ∷ tools) = rw (==_self server, all_of tools) refl

  others_gone :
      (rows : List Row) → keep (is_of server) (keep (λ row. not (is_of server row)) rows) ≡ []
  unfolding keep
  others_gone [] = refl
  others_gone (row ∷ rows) = elim (Bool-cases (is_of server row)) [
    | inl e ↦ rw e (others_gone rows)
    | inr e ↦ rw (e, e) (others_gone rows)
  ]

  others_kept :
      (other : String)
      → other ≢ server
      → (rows : List Row)
      → keep (is_of other) (keep (λ row. not (is_of server row)) rows) ≡ keep (is_of other) rows
  unfolding keep
  others_kept other ne [] = refl
  others_kept other ne (row ∷ rows) = elim (Bool-cases (is_of server row)) [
    | inl e ↦
        let same = (eq_iff row.server_name server).0 e in
        let differs = ==_of_ne row.server_name other (λ p. ne (sym p ∙ same)) in
        rw (e, differs) (others_kept other ne rows)
    | inr e ↦ rw (e, others_kept other ne rows) refl
  ]

  none_of_other :
      (other : String)
      → other ≢ server
      → (tools : List ToolInfo) → keep (is_of other) (map (row_of json server) tools) ≡ []
  unfolding keep
  none_of_other other ne [] = refl
  none_of_other other ne (tool ∷ tools) =
      rw (==_of_ne server other (λ e. ne (sym e))) (none_of_other other ne tools)

  module _ (db : Sqlite) (lawful : IsLawful db) (tools : List ToolInfo) (s : db.State) where
    abbrev stored : db.State
    stored = (upsert_tools json db server tools s).1

    stored_rows :
        (upsert_tools json db server tools s).0 ≡ ok tt
        → lawful.rows stored ≡ replaced json server db lawful tools s
    stored_rows h = elim (upsert_atomic json server db lawful tools s) [
      | inl (_, rows) ↦ rows
      | inr (e, failed, _) ↦ absurd (cc)
    ]

    stored_own :
        (upsert_tools json db server tools s).0 ≡ ok tt
        → keep (is_of server) (lawful.rows stored) ≡ map (row_of json server) tools
    stored_own h =
        let others = keep (λ row. not (is_of server row)) (lawful.rows s) in
        ap (keep (is_of server)) (stored_rows h)
        ∙ keep-append (is_of server) others (map (row_of json server) tools)
        ∙ ap (λ l. l ++ keep (is_of server) (map (row_of json server) tools))
            (others_gone (lawful.rows s))
        ∙ all_of tools

    stored_others :
        (other : String)
        → (upsert_tools json db server tools s).0 ≡ ok tt
        → other ≢ server
        → keep (is_of other) (lawful.rows stored) ≡ keep (is_of other) (lawful.rows s)
    stored_others other h ne =
        let others = keep (λ row. not (is_of server row)) (lawful.rows s) in
        ap (keep (is_of other)) (stored_rows h)
        ∙ keep-append (is_of other) others (map (row_of json server) tools)
        ∙ ap (λ l. keep (is_of other) others ++ l) (none_of_other other ne tools)
        ∙ append-nil (keep (is_of other) others)
        ∙ others_kept other ne (lawful.rows s)

    open lawful use {by_name}

    abbrev rows_of : db.State → List Row
    rows_of t = lawful.rows t

    ordered_iff :
        (rs : List Row) (tool : ToolInfo)
        → In tool (map (tool_of json) (by_name rs)) ↔ In tool (map (tool_of json) rs)
    ordered_iff rs tool =
        let sorted = In-map (tool_of json) tool (by_name rs) in
        let unsorted = In-map (tool_of json) tool rs in
        (
          λ h. let (row, m, q) = sorted.0 h in unsorted.1 (row, (lawful.In-by_name row rs).0 m, q),
          λ h. let (row, m, q) = unsorted.0 h in sorted.1 (row, (lawful.In-by_name row rs).1 m, q),
        )

    -- The tools that a query for a server found are those of its rows.
    found_iff :
        (name : String) (t : db.State) (found : List ToolInfo)
        → name ≢ ""
        → get_filtered_tools json db name none t ≡ ok found
        → (tool : ToolInfo)
        → In tool found ↔ In tool (map (tool_of json) (keep (is_of name) (lawful.rows t)))
    unfolding get_filtered_tools filter_query
    found_iff name t found ne h tool =
        let h' : listed json db (db.query (select_sql ++ where_sql ++ order_sql) (text name ∷ []) t)
            ≡ ok found =
          rw (==_of_ne name "" ne) at h in
        elim (Option-cases (db.query (select_sql ++ where_sql ++ order_sql) (text name ∷ []) t)) [
          | inl e ↦ absurd (let h2 = rw e at h' in cc)
          | inr (rows, e) ↦
              let made : map (tool_of json) rows ≡ found = let h2 = rw e at h' in cc in
              let same : rows ≡ by_name (keep (is_of name) (rows_of t)) =
                lawful.query-server name t rows e in
              rw (sym made, same) (ordered_iff (keep (is_of name) (rows_of t)) tool)
        ]

    -- After a server's tools were stored, whose schemas are read back as they were written, a list of that server holds a tool exactly when it was stored,
    -- schema and description included, and a list of any other server holds what it held before.
    pub stored_listed :
        server ≢ ""
        → All (IsReadBack json) tools
        → (upsert_tools json db server tools s).0 ≡ ok tt
        → ((found : List ToolInfo)
            → get_filtered_tools json db server none stored ≡ ok found
            → (tool : ToolInfo) → In tool found ↔ In tool tools)
          × ((other : String) (before after : List ToolInfo)
              → other ≢ server
              → other ≢ ""
              → get_filtered_tools json db other none s ≡ ok before
              → get_filtered_tools json db other none stored ≡ ok after
              → (tool : ToolInfo) → In tool after ↔ In tool before)
    stored_listed named readable h = (
      λ found q tool.
          subst (λ l. In tool found ↔ In tool l)
            (ap (map (tool_of json)) (stored_own h) ∙ read_back_all tools readable)
            (found_iff server stored found named q tool),
      λ other before after ne given p q tool.
          let then_iff = found_iff other s before given p tool in
          let now_iff : In tool after
              ↔ In tool (map (tool_of json) (keep (is_of other) (lawful.rows s))) =
            subst (λ l. In tool after ↔ In tool (map (tool_of json) l)) (stored_others other h ne)
              (found_iff other stored after given q tool) in
          (λ m. then_iff.1 (now_iff.0 m), λ m. now_iff.1 (then_iff.0 m)),
    )
