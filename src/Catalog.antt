-- ===== src/Catalog.antt =====
-- internal/catalog/catalog.go: the catalog of the upstream servers' tools in a SQLite table. The database is
-- the record `Sqlite`, a parameter, and so are JSON and the HTTP fetch. A statement is the text that the
-- code builds, as bytes, with its arguments. A transaction is run on the state, which is kept if it is
-- committed. The times of rows and the log are left out. `serverName` of a tool, which config.ToolInfo
-- has not, is read as a column of its own.
pub mod Lawful
pub mod Upsert
pub mod Queries
pub mod Memory
mod Tests
use mcp_zero_trust_proxy.Base.{
  ℕ, suc, ◌+◌, String, Bool, true, false, ◌&&◌, ◌||◌, not, Option, none, some, List, [], ◌∷◌, ◌++◌,
  ◌==◌, map, if◌then◌else◌, is_empty, contains, Dict, Result, ok, err, is_ok, eqb,
}
use mcp_zero_trust_proxy.Protocol.{Bytes, Json}
use mcp_zero_trust_proxy.Http.{bytes_of}
use mcp_zero_trust_proxy.Routing.{ToolInfo, aggregate}

-- A row of the table `tools`.
pub record Row : Type 0 where
  pub server_name : String
  pub name : String
  pub description : String
  pub input_schema : Bytes

-- An argument of a statement.
pub data Value : Type 0 where
  text : String → Value
  blob : Bytes → Value

-- `exec` runs a statement that changes the table, and is none on an error; `query` gives the rows that a
-- statement selects, and `commit` ends a transaction.
pub record Sqlite : Type 1 where
  pub State : Type 0
  pub exec : Bytes → List Value → State → Option State
  pub query : Bytes → List Value → State → Option (List Row)
  pub commit : State → Option State

-- `json.Marshal` of a schema, and `json.Unmarshal` into one.
pub record SchemaJson : Type 0 where
  pub marshal : Option Json → Option Bytes
  pub unmarshal : Bytes → Option (Option Json)

abbrev pub delete_sql : Bytes
delete_sql = bytes_of "DELETE FROM tools WHERE server_name = ?"

abbrev pub insert_sql : Bytes
insert_sql =
    bytes_of
      "INSERT INTO tools (server_name, name, description, input_schema, updated_at) VALUES (?, ?, ?, ?, ?)"

abbrev pub select_sql : Bytes
select_sql = bytes_of "SELECT name, description, input_schema FROM tools"

abbrev pub where_sql : Bytes
where_sql = bytes_of " WHERE server_name = ?"

abbrev pub and_sql : Bytes
and_sql = bytes_of " AND name IN ("

abbrev pub order_sql : Bytes
order_sql = bytes_of " ORDER BY name"

abbrev pub all_sql : Bytes
all_sql =
    bytes_of
      "SELECT server_name, name, description, input_schema FROM tools ORDER BY server_name, name"

pub data CatalogError : Type 0 where
  delete_failed insert_failed commit_failed query_failed : CatalogError

-- `strings.Join` of as many `?` as there are names.
abbrev pub placeholders : List String → Bytes
placeholders [] = []
placeholders (name ∷ []) = b'?' ∷ []
placeholders (name ∷ other ∷ names) = b'?' ∷ b',' ∷ placeholders (other ∷ names)

-- `allowed` has the names of the set of allowed tools, in one order in which it may be visited; none is
-- the nil set.
abbrev pub allowed_names : Option (List String) → List String
allowed_names none = []
allowed_names (some names) = names

unfoldable pub filter_query : String → Option (List String) → Bytes × List Value
filter_query server allowed =
    let names = allowed_names allowed in
    let scope : Bytes × List Value =
      if not (server == "")
      then (select_sql ++ where_sql, text server ∷ [])
      else (select_sql, []) in
    if is_empty names then (scope.0 ++ order_sql, scope.1) else (
      scope.0 ++ (and_sql ++ (placeholders names ++ (b')' ∷ order_sql))),
      scope.1 ++ map (λ name. text name) names,
    )

-- The reply to tools/list, decoded, with the message of its error.
pub record RpcReply : Type 0 where
  pub error : Option String
  pub result : Bytes

-- A POST to a URL gives a status and a body, if a request can be made and is answered; `reply` and
-- `tools` decode the body and its result.
pub record Upstream : Type 0 where
  pub post : String → Option (ℕ × Bytes)
  pub reply : Bytes → Option RpcReply
  pub tools : Bytes → Option (List ToolInfo)

pub data SyncError : Type 0 where
  request_failed bad_status bad_reply upstream_error bad_tools : SyncError
  not_stored : CatalogError → SyncError

abbrev tools_of : Upstream → RpcReply → Result SyncError (List ToolInfo)
tools_of upstream reply = elim reply.error [
  | some message ↦ err upstream_error
  | none ↦ elim (upstream.tools reply.result) [ none ↦ err bad_tools | some tools ↦ ok tools ]
]

abbrev body_of : Upstream → ℕ × Bytes → Result SyncError (List ToolInfo)
body_of upstream (status, body) =
    if not (eqb status 200) then err bad_status else (elim (upstream.reply body) [
      | none ↦ err bad_reply
      | some reply ↦ tools_of upstream reply
    ])

unfoldable pub fetch_tools : Upstream → String → Result SyncError (List ToolInfo)
fetch_tools upstream url = elim (upstream.post url) [
  | none ↦ err request_failed
  | some answer ↦ body_of upstream answer
]

abbrev pub bind_state : {A : Type 0} → Option A → (A → Option A) → Option A
bind_state none f = none
bind_state (some a) f = f a

module _ (json : SchemaJson) where
  -- The schema that is stored; one that cannot be marshalled is `{}`.
  abbrev pub schema_bytes : Option Json → Bytes
  schema_bytes schema = elim (json.marshal schema) [ none ↦ b'{' ∷ b'}' ∷ [] | some bytes ↦ bytes ]

  -- The schema that is read; one that cannot be unmarshalled is nil.
  abbrev pub schema_of : Bytes → Option Json
  schema_of bytes =
      if is_empty bytes
      then none
      else (elim (json.unmarshal bytes) [ none ↦ none | some schema ↦ schema ])

  abbrev pub tool_of : Row → ToolInfo
  tool_of row = record {
    name = row.name;
    description = row.description;
    input_schema = schema_of row.input_schema;
  }

  module _ (db : Sqlite) where
    abbrev pub insert_tool : String → ToolInfo → db.State → Option db.State
    insert_tool server tool s =
        db.exec insert_sql
          (text server
            ∷ text tool.name
            ∷ text tool.description
            ∷ blob (schema_bytes tool.input_schema)
            ∷ [])
          s

    -- The loop over the tools.
    unfoldable pub insert_tools : String → List ToolInfo → db.State → Option db.State
    insert_tools server [] s = some s
    insert_tools server (tool ∷ tools) s =
        bind_state (insert_tool server tool s) (insert_tools server tools)

    abbrev committed : db.State → Option db.State → Result CatalogError (Unit {0}) × db.State
    committed s none = (err commit_failed, s)
    committed s (some s') = (ok tt, s')

    abbrev inserted : db.State → Option db.State → Result CatalogError (Unit {0}) × db.State
    inserted s none = (err insert_failed, s)
    inserted s (some s') = committed s (db.commit s')

    abbrev after_delete :
        String
        → List ToolInfo
        → db.State
        → Option db.State
        → Result CatalogError (Unit {0}) × db.State
    after_delete server tools s none = (err delete_failed, s)
    after_delete server tools s (some s') = inserted s (insert_tools server tools s')

    -- `upsertTools`; on an error the transaction is rolled back.
    unfoldable pub upsert_tools :
        String → List ToolInfo → db.State → Result CatalogError (Unit {0}) × db.State
    upsert_tools server tools s =
        after_delete server tools s (db.exec delete_sql (text server ∷ []) s)

    abbrev listed : Option (List Row) → Result CatalogError (List ToolInfo)
    listed none = err query_failed
    listed (some rows) = ok (map tool_of rows)

    abbrev sync_result :
        Result CatalogError (Unit {0}) × db.State → Result SyncError (Unit {0}) × db.State
    sync_result (ok done, s) = (ok tt, s)
    sync_result (err e, s) = (err (not_stored e), s)

    unfoldable pub get_filtered_tools :
        String → Option (List String) → db.State → Result CatalogError (List ToolInfo)
    get_filtered_tools server allowed s =
        let (sql, args) = filter_query server allowed in listed (db.query sql args s)

    abbrev pub get_tools_list_response :
        String → Option (List String) → db.State → Result CatalogError (List ToolInfo)
    get_tools_list_response server allowed s = get_filtered_tools server allowed s

    -- The rows with their servers, renamed in their order.
    abbrev aggregated : Option (List Row) → Result CatalogError (List ToolInfo)
    aggregated none = err query_failed
    aggregated (some rows) = ok (aggregate [] (map (λ row. (tool_of row, row.server_name)) rows))

    unfoldable pub get_aggregated_tools : db.State → Result CatalogError (List ToolInfo)
    get_aggregated_tools s = aggregated (db.query all_sql [] s)

    abbrev pub clear : db.State → Option db.State
    clear s = db.exec (bytes_of "DELETE FROM tools") [] s

    -- `syncServer`: the fetch, and what it gives is stored.
    unfoldable pub sync_server :
        Upstream → String × String → db.State → Result SyncError (Unit {0}) × db.State
    sync_server upstream (name, url) s = elim (fetch_tools upstream url) [
      | err e ↦ (err e, s)
      | ok tools ↦ sync_result (upsert_tools name tools s)
    ]

    -- The servers in the order in which they take the lock, and the number of errors.
    unfoldable pub sync_all_servers : Upstream → Dict String → db.State → ℕ × db.State
    sync_all_servers upstream [] s = (0, s)
    sync_all_servers upstream (server ∷ servers) s =
        let (result, s') = sync_server upstream server s in
        let (errors, s'') = sync_all_servers upstream servers s' in
        ((if is_ok result then errors else suc errors), s'')
