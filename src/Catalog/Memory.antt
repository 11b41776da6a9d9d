-- ===== src/Catalog/Memory.antt =====
-- A table in memory, which does what the catalog assumes of SQLite.
use mcp_zero_trust_proxy.Base.{
  ◌≡◌, refl, Bool, true, false, not, Option, none, some, List, [], ◌∷◌, ◌++◌, if◌then◌else◌, keep,
  starts_with, Bool-cases, inl, inr,
}
use mcp_zero_trust_proxy.Catalog.{Row, Value, text, blob, Sqlite, select_sql, and_sql}
use mcp_zero_trust_proxy.Catalog.Lawful.{is_of, has_tool, IsLawful}

abbrev insert_row : Row → List Row → Option (List Row)
insert_row row rows =
    if has_tool row.server_name row.name rows then none else some (rows ++ row ∷ [])

abbrev run_statement : List Value → List Row → Option (List Row)
run_statement (text server ∷ []) rows = some (keep (λ row. not (is_of server row)) rows)
run_statement (text server ∷ text name ∷ text description ∷ blob schema ∷ []) rows =
    insert_row
      (record {
        server_name = server;
        name = name;
        description = description;
        input_schema = schema;
      })
      rows
run_statement args rows = none

abbrev run_query : Bool → List Value → List Row → Option (List Row)
run_query true args rows = none
run_query false (text server ∷ []) rows = some (keep (is_of server) rows)
run_query false [] rows = some rows
run_query false args rows = none

abbrev pub memory : Sqlite
memory = record {
  State = List Row;
  exec = λ sql args rows. run_statement args rows;
  query = λ sql args rows. run_query (starts_with (select_sql ++ and_sql) sql) args rows;
  commit = λ rows. some rows;
}

inserted_row :
    (row : Row) (rows rows' : List Row)
    → insert_row row rows ≡ some rows'
    → rows' ≡ rows ++ row ∷ []
inserted_row row rows rows' h = elim (Bool-cases (has_tool row.server_name row.name rows)) [
  | inl e ↦ absurd (let h' = rw e at h in cc)
  | inr e ↦ let h' = rw e at h in cc
]

repeated_row :
    (row : Row) (rows : List Row)
    → has_tool row.server_name row.name rows ≡ true
    → insert_row row rows ≡ none
repeated_row row rows h = rw h refl

pub memory-IsLawful : IsLawful memory
memory-IsLawful = record {
  rows = λ rows. rows;
  by_name = λ rows. rows;
  In-by_name = λ row rs. (λ h. h, λ h. h);
  rows-delete = λ server s s' h. cc;
  rows-insert = λ row s s' h. inserted_row row s s' h;
  unique = λ row s h. repeated_row row s h;
  rows-commit = λ s s' h. cc;
  query-server = λ server s found h. cc;
  no_where = λ rest args s. refl;
}
