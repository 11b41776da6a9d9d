-- ===== src/Catalog/Lawful.antt =====
-- What the catalog assumes of SQLite, for the statements that it sends: the rows of a table, `UNIQUE` on the
-- server and the name, and a table in memory that does so.
use mcp_zero_trust_proxy.Base.{
  ◌≡◌, ◌↔◌, String, Bool, true, false, ◌&&◌, ◌||◌, not, none, some, List, [], ◌∷◌, ◌++◌, ◌==◌, In,
  keep,
}
use mcp_zero_trust_proxy.Protocol.{Bytes}
use mcp_zero_trust_proxy.Catalog.{
  Row, Value, text, blob, Sqlite, delete_sql, insert_sql, select_sql, where_sql, and_sql, order_sql,
}

abbrev pub is_of : String → Row → Bool
is_of server row = row.server_name == server

-- Whether the table has a row of the server and the name.
unfoldable pub has_tool : String → String → List Row → Bool
has_tool server name [] = false
has_tool server name (row ∷ rows) =
    (row.server_name == server && row.name == name) || has_tool server name rows

pub record IsLawful (db : Sqlite) : Type 0 where
  -- The rows of the table, in the order of their insertion, and those that a query selects, in its order.
  pub rows : db.State → List Row
  pub by_name : List Row → List Row
  pub In-by_name : (row : Row) (rs : List Row) → In row (by_name rs) ↔ In row rs
  pub rows-delete :
      (server : String) (s s' : db.State)
      → db.exec delete_sql (text server ∷ []) s ≡ some s'
      → rows s' ≡ keep (λ row. not (is_of server row)) (rows s)
  pub rows-insert :
      (row : Row) (s s' : db.State)
      → db.exec insert_sql
          (text row.server_name ∷ text row.name ∷ text row.description ∷ blob row.input_schema ∷ [])
          s
        ≡ some s'
      → rows s' ≡ rows s ++ row ∷ []
  pub unique :
      (row : Row) (s : db.State)
      → has_tool row.server_name row.name (rows s) ≡ true
      → db.exec insert_sql
          (text row.server_name ∷ text row.name ∷ text row.description ∷ blob row.input_schema ∷ [])
          s
        ≡ none
  pub rows-commit : (s s' : db.State) → db.commit s ≡ some s' → rows s' ≡ rows s
  -- A selection of one server's rows.
  pub query-server :
      (server : String) (s : db.State) (found : List Row)
      → db.query (select_sql ++ where_sql ++ order_sql) (text server ∷ []) s ≡ some found
      → found ≡ by_name (keep (is_of server) (rows s))
  -- `AND` without a `WHERE` is a syntax error.
  pub no_where :
      (rest : Bytes) (args : List Value) (s : db.State)
      → db.query (select_sql ++ (and_sql ++ rest)) args s ≡ none
