-- ===== src/Catalog/Upsert.antt =====
-- What a store of a server's tools leaves in the table.
use mcp_zero_trust_proxy.Base.{
  ◌≡◌, refl, sym, ap, ◌∙◌, ◌⊎◌, inl, inr, String, not, some, List, [], ◌∷◌, ◌++◌, map, append-nil,
  append_assoc, keep, Option-cases, ok, err,
}
use mcp_zero_trust_proxy.Routing.{ToolInfo}
use mcp_zero_trust_proxy.Catalog.{
  Row, text, Sqlite, SchemaJson, CatalogError, delete_failed, insert_failed, commit_failed,
  delete_sql, schema_bytes, insert_tool, insert_tools, upsert_tools, after_delete, inserted,
}
use mcp_zero_trust_proxy.Catalog.Lawful.{is_of, IsLawful}

module _ (json : SchemaJson) (server : String) where
  abbrev pub row_of : ToolInfo → Row
  row_of tool = record {
    server_name = server;
    name = tool.name;
    description = tool.description;
    input_schema = schema_bytes json tool.input_schema;
  }

  module _ (db : Sqlite) (lawful : IsLawful db) where
    inserted_rows :
        (tools : List ToolInfo) (s s' : db.State)
        → insert_tools json db server tools s ≡ some s'
        → lawful.rows s' ≡ lawful.rows s ++ map row_of tools
    unfolding insert_tools
    inserted_rows [] s s' h =
        let same : s ≡ s' = cc in ap lawful.rows (sym same) ∙ sym (append-nil (lawful.rows s))
    inserted_rows (tool ∷ tools) s s' h = elim (Option-cases (insert_tool json db server tool s)) [
      | inl e ↦ absurd (let h' = rw e at h in cc)
      | inr (t, e) ↦
          let h' : insert_tools json db server tools t ≡ some s' = rw e at h in
          inserted_rows tools t s' h'
          ∙ ap (λ l. l ++ map row_of tools) (lawful.rows-insert (row_of tool) s t e)
          ∙ append_assoc (lawful.rows s) (row_of tool ∷ []) (map row_of tools)
    ]

    -- What the table holds after the store: the rows of the other servers, then the tools.
    abbrev pub replaced : List ToolInfo → db.State → List Row
    replaced tools s = keep (λ row. not (is_of server row)) (lawful.rows s) ++ map row_of tools

    -- Storing a server's tools either succeeds, and then the table has the rows that it had of other
    -- servers, followed by those tools in order, and no other; or it fails and leaves the table as it was.
    pub upsert_atomic :
        (tools : List ToolInfo) (s : db.State)
        → (((upsert_tools json db server tools s).0 ≡ ok tt)
            × (lawful.rows (upsert_tools json db server tools s).1 ≡ replaced tools s))
          ⊎ ((e : CatalogError) × ((upsert_tools json db server tools s).0 ≡ err e)
              × ((upsert_tools json db server tools s).1 ≡ s))
    unfolding upsert_tools
    upsert_atomic tools s = elim (Option-cases (db.exec delete_sql (text server ∷ []) s)) [
      | inl e ↦ rw e (inr (delete_failed, refl, refl))
      | inr (t, e) ↦ elim (Option-cases (insert_tools json db server tools t)) [
        | inl f ↦ rw (e, f) (inr (insert_failed, refl, refl))
        | inr (u, f) ↦ elim (Option-cases (db.commit u)) [
          | inl g ↦ rw (e, after_delete, f, inserted, g) (inr (commit_failed, refl, refl))
          | inr (v, g) ↦
              rw (e, after_delete, f, inserted, g)
                (inl (
                  refl,
                  lawful.rows-commit u v g
                      ∙ inserted_rows tools t u f
                      ∙ ap (λ l. l ++ map row_of tools) (lawful.rows-delete server s t e),
                ))
        ]
      ]
    ]
