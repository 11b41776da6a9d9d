-- ===== src/Audit/Tests.antt =====
-- An engine with two sinks, one of which filters.
use mcp_zero_trust_proxy.Base.{◌≡◌, ◌↔◌, refl, Bool, true, none, some, [], ◌∷◌, In, keep, contains}
use mcp_zero_trust_proxy.Protocol.{Bytes}
use mcp_zero_trust_proxy.Pipeline.{AuditEntry}
use mcp_zero_trust_proxy.Audit.{
  Filter, Sink, AuditEngine, SinkConfig, create_external_sink, remove_sink, remove_first,
  matches_entry, log,
}
use mcp_zero_trust_proxy.Audit.Delivery.{Wants, log_iff}

abbrev any_text : Bytes → Bytes → Bool
any_text pattern s = true

abbrev denials : Filter
denials = record { methods = []; tools = []; results = "denied" ∷ []; client_ids = [] }

abbrev file : Sink
file = record { name = "file"; filter = none }

abbrev siem : Sink
siem = record { name = "siem"; filter = some denials }

abbrev engine : AuditEngine
engine = record { enabled = true; sinks = file ∷ siem ∷ [] }

abbrev allowed_call : AuditEntry
allowed_call = record {
  request_id = "r1";
  client_ip = [];
  client_id = "alice";
  session_id = "s1";
  method = "tools/call";
  tool_name = "read_file";
  allowed = true;
  denied_reason = none;
}

-- All sinks can take an entry.
abbrev all_ready : Sink → Bool
all_ready sink = true

recorded : log any_text all_ready engine allowed_call ≡ file ∷ []
unfolding log keep matches_entry contains
recorded = refl

removed : (remove_sink "file" engine).sinks ≡ siem ∷ []
unfolding remove_first
removed = refl

log_iff_example : In siem (log any_text all_ready engine allowed_call) ↔ (
    (engine.enabled ≡ true)
    × In siem engine.sinks
    × (all_ready siem ≡ true)
    × Wants any_text allowed_call (some denials))
log_iff_example = log_iff any_text allowed_call all_ready engine siem

abbrev ocsf : SinkConfig
ocsf = record {
  enabled = true;
  kind = "ocsf";
  section = true;
  built = true;
  name = "ocsf";
  filter = some denials;
}

ocsf_made : create_external_sink ocsf ≡ some (record { name = "ocsf"; filter = none })
unfolding create_external_sink
ocsf_made = refl
