-- ===== src/Audit.antt =====
-- internal/audit/engine.go and internal/audit/sinks/ocsf.go: the fan-out of audit entries to the
-- sinks, and the filter of a sink. What a sink does with an entry that it records is I/O; here `log`
-- gives the sinks that record it. `regexp.MatchString` is a parameter, over bytes.
pub mod Delivery
pub mod Settings
pub mod Cef
pub mod Built
pub mod Buffered
pub mod Ocsf
pub mod File
mod Tests
use mcp_zero_trust_proxy.Base.{
  ℕ, String, Bool, true, false, ◌&&◌, ◌||◌, not, Option, none, some, List, [], ◌∷◌, ◌++◌, ◌==◌,
  if◌then◌else◌, eqb, is_empty, contains, keep,
}
use mcp_zero_trust_proxy.Protocol.{Bytes}
use mcp_zero_trust_proxy.Http.{bytes_of}
use mcp_zero_trust_proxy.Pipeline.{AuditEntry}

pub record Filter : Type 0 where
  pub methods : List String
  pub tools : List String
  pub results : List String
  pub client_ids : List String

-- A sink's own filter, nil where none was set.
pub record Sink : Type 0 where
  pub name : String
  pub filter : Option Filter

pub record AuditEngine : Type 0 where
  pub enabled : Bool
  pub sinks : List Sink

-- `section` is whether the section of the sink's kind is there, and `built` whether its constructor
-- succeeds, which opens files and connections.
pub record SinkConfig : Type 0 where
  pub enabled : Bool
  pub kind : String
  pub section : Bool
  pub built : Bool
  pub name : String
  pub filter : Option Filter

unfoldable pub create_external_sink : SinkConfig → Option Sink
create_external_sink cfg =
    if cfg.kind == "ocsf"
    then if cfg.section && cfg.built then some (record { name = cfg.name; filter = none }) else none
    else if cfg.kind == "cef" || cfg.kind == "json_http"
    then if cfg.section && cfg.built
      then some (record { name = cfg.name; filter = cfg.filter })
      else none
    else none

abbrev pub with_sink : Option Sink → Option (List Sink) → Option (List Sink)
with_sink none rest = none
with_sink (some sink) none = none
with_sink (some sink) (some rest) = some (sink ∷ rest)

-- The loop over the configured sinks; the first error ends it.
unfoldable pub create_sinks : List SinkConfig → Option (List Sink)
create_sinks [] = some []
create_sinks (cfg ∷ cfgs) =
    let rest = create_sinks cfgs in
    if cfg.enabled then with_sink (create_external_sink cfg) rest else rest

abbrev pub with_file : Option Sink → Bool → Option (List Sink) → Option AuditEngine
with_file file enabled none = none
with_file none enabled (some rest) = none
with_file (some file) enabled (some rest) = some (record { enabled = enabled; sinks = file ∷ rest })

abbrev pub without_file : Bool → Option (List Sink) → Option AuditEngine
without_file enabled none = none
without_file enabled (some rest) = some (record { enabled = enabled; sinks = rest })

-- `file` is the legacy file sink, `none` if it cannot be made.
unfoldable pub new_audit_engine : Bool → String → Option Sink → List SinkConfig → Option AuditEngine
new_audit_engine enabled output file cfgs =
    if enabled && (output == "stdout" || output == "file" || output == "both")
    then with_file file enabled (create_sinks cfgs)
    else without_file enabled (create_sinks cfgs)

abbrev pub add_sink : Sink → AuditEngine → AuditEngine
add_sink sink e = record e { sinks = e.sinks ++ sink ∷ [] }

-- The first sink of the name.
unfoldable pub remove_first : String → List Sink → List Sink
remove_first name [] = []
remove_first name (sink ∷ sinks) =
    let rest = remove_first name sinks in if sink.name == name then sinks else sink ∷ rest

abbrev pub remove_sink : String → AuditEngine → AuditEngine
remove_sink name e = record e { sinks = remove_first name e.sinks }

abbrev pub set_enabled : Bool → AuditEngine → AuditEngine
set_enabled enabled e = record e { enabled = enabled }

-- `ReplaceAll` of `.` by `\.`, and of `*` by `.*`.
abbrev pub escaped : Bytes → Bytes
escaped [] = []
escaped (c ∷ b) =
    let rest = escaped b in
    if eqb c b'.' then 92 ∷ b'.' ∷ rest else if eqb c b'*' then b'.' ∷ b'*' ∷ rest else c ∷ rest

abbrev pub result_of : AuditEntry → String
result_of entry = if entry.allowed then "allowed" else "denied"

-- `regexp` has the expression and the text; it is false on an expression that does not compile.
module _ (regexp : Bytes → Bytes → Bool) where
  unfoldable pub match_string : String → String → Bool
  match_string pattern s = regexp (b'^' ∷ escaped (bytes_of pattern) ++ b'$' ∷ []) (bytes_of s)

  unfoldable pub match_any : List String → String → Bool
  match_any [] s = false
  match_any (pattern ∷ patterns) s = match_string pattern s || match_any patterns s

  -- `Matches`: an empty list selects all.
  unfoldable pub matches_entry : Filter → AuditEntry → Bool
  matches_entry f entry =
      (is_empty f.methods || contains f.methods entry.method)
      && (is_empty f.tools || match_any f.tools entry.tool_name)
      && (is_empty f.results || contains f.results (result_of entry))
      && (is_empty f.client_ids || contains f.client_ids entry.client_id)

  abbrev pub accepts_by : Option Filter → AuditEntry → Bool
  accepts_by none entry = true
  accepts_by (some f) entry = matches_entry f entry

  abbrev pub accepts : AuditEntry → Sink → Bool
  accepts entry sink = accepts_by sink.filter entry

  -- The sinks that record the entry. `ready` is whether a sink can take it now: it is not closed,
  -- and its channel has room, or its file can be written.
  unfoldable pub log : (Sink → Bool) → AuditEngine → AuditEntry → List Sink
  log ready e entry =
      if e.enabled then keep (λ sink. accepts entry sink && ready sink) e.sinks else []
