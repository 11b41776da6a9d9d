-- ===== src/Audit/Cef.antt =====
-- internal/audit/sinks/cef.go: the CEF message of an audit entry, and the settings of a new sink. A
-- text is its list of bytes. Connections and the batches over HTTPS are I/O.
pub mod Escape
pub mod Lines
pub mod Settings
mod Tests
use mcp_zero_trust_proxy.Base.{
  ℕ, String, Bool, true, false, ◌&&◌, not, Option, none, some, List, [], ◌∷◌, ◌++◌, ◌==◌,
  if◌then◌else◌, is_empty, ltb, replace_all, join,
}
use mcp_zero_trust_proxy.Protocol.{Bytes, method_tools_call}
use mcp_zero_trust_proxy.Http.{bytes_of}
use mcp_zero_trust_proxy.Pipeline.{AuditEntry, Reason}

-- The decimal numerals of `fmt`, and the texts of the reasons of a denial.
pub record Printing : Type 0 where
  pub decimal : ℕ → Bytes
  pub reason_text : Reason → Bytes

-- The eight calls of `strings.ReplaceAll`, one on the result of the other: backslash, `|`, `=` and `:`
-- get a backslash, line breaks go, and white space becomes `_`.
unfoldable pub sanitize_cef : Bytes → Bytes
sanitize_cef s =
    let s1 = replace_all (92 ∷ []) (92 ∷ 92 ∷ []) s in
    let s2 = replace_all (b'|' ∷ []) (92 ∷ b'|' ∷ []) s1 in
    let s3 = replace_all (b'=' ∷ []) (92 ∷ b'=' ∷ []) s2 in
    let s4 = replace_all (b':' ∷ []) (92 ∷ b':' ∷ []) s3 in
    let s5 = replace_all (10 ∷ []) [] s4 in
    let s6 = replace_all (13 ∷ []) [] s5 in
    let s7 = replace_all (9 ∷ []) (b'_' ∷ []) s6 in replace_all (32 ∷ []) (b'_' ∷ []) s7

abbrev pub client_address : AuditEntry → Bytes
client_address entry = if is_empty entry.client_ip then bytes_of "0.0.0.0" else entry.client_ip

-- An optional pair of the extension.
abbrev pub unless_empty : Bytes → Bytes → Bytes → Bytes
unless_empty [] key value = []
unless_empty (c ∷ s) key value = key ++ value

abbrev pub event_class : AuditEntry → Bytes
event_class entry =
    if entry.allowed
    then if entry.method == method_tools_call
      then bytes_of "AUTH::Authentication"
      else bytes_of "OTHER::Activity"
    else bytes_of "AUTH::AccessDenied"

abbrev pub event_name : AuditEntry → Bytes
event_name entry =
    if entry.allowed
    then if entry.method == method_tools_call
      then bytes_of "AUTH:Authentication"
      else bytes_of "Activity"
    else bytes_of "AUTH:Authorization"

module _ (p : Printing) where
  abbrev pub reason_of : Option Reason → Bytes
  reason_of none = []
  reason_of (some reason) = p.reason_text reason

  -- The key-value pairs, the latency in milliseconds among them.
  abbrev pub extension : ℕ → AuditEntry → List Bytes
  extension latency entry =
      bytes_of "src="
      ∷ client_address entry
      ∷ bytes_of " dstPort="
      ∷ p.decimal 8080
      ∷ unless_empty (bytes_of entry.client_id) (bytes_of " client_id=") (bytes_of entry.client_id)
      ∷ unless_empty (bytes_of entry.session_id) (bytes_of " session_id=")
          (bytes_of entry.session_id)
      ∷ bytes_of " user="
      ∷ sanitize_cef (bytes_of entry.client_id)
      ∷ bytes_of " action="
      ∷ (if entry.allowed then bytes_of "allow" else bytes_of "deny")
      ∷ unless_empty (bytes_of entry.tool_name) (bytes_of " tool=")
          (sanitize_cef (bytes_of entry.tool_name))
      ∷ bytes_of " method="
      ∷ bytes_of entry.method
      ∷ (if ltb 0 latency then bytes_of " latency_ms=" ++ p.decimal latency else [])
      ∷ bytes_of " request_id="
      ∷ bytes_of entry.request_id
      ∷ (if entry.allowed
          then []
          else unless_empty (reason_of entry.denied_reason) (bytes_of " reason=")
              (sanitize_cef (reason_of entry.denied_reason)))
      ∷ []

  -- The header's fields, each followed by a bar.
  abbrev pub header : AuditEntry → List Bytes
  header entry =
      bytes_of "CEF:0|MCPZeroTrust|Proxy|1.0||"
      ∷ event_name entry
      ∷ bytes_of "|"
      ∷ event_class entry
      ∷ bytes_of "|"
      ∷ p.decimal (if entry.allowed then 1 else 8)
      ∷ bytes_of "|"
      ∷ []

  -- `toCEF`
  unfoldable pub to_cef : ℕ → AuditEntry → Bytes
  to_cef latency entry = join (header entry) ++ join (extension latency entry)
