-- ===== src/Audit/Ocsf/Tests.antt =====
-- A sink of a workspace whose identifier is short.
use mcp_zero_trust_proxy.Base.{
  ◌≡◌, refl, true, none, some, [], ◌∷◌, ◌&&◌, not, map, if◌then◌else◌, ltb, length, take, is_empty,
  pos, ok,
}
use mcp_zero_trust_proxy.Http.{bytes_of}
use mcp_zero_trust_proxy.Pipeline.{AuditEntry}
use mcp_zero_trust_proxy.Config.{OcsfSinkConfig}
use mcp_zero_trust_proxy.Audit.Settings.{OcsfSettings, new_ocsf_sink, at_least_one}
use mcp_zero_trust_proxy.Audit.Ocsf.{to_events, to_ocsf, first_eight, ocsf_event}
use mcp_zero_trust_proxy.Audit.Ocsf.Panics.{batch_events}

abbrev read_call : AuditEntry
read_call = record {
  request_id = "r1";
  client_ip = [];
  client_id = "alice";
  session_id = "s1";
  method = "tools/call";
  tool_name = "read_file";
  allowed = true;
  denied_reason = none;
}

abbrev short_workspace : OcsfSinkConfig
short_workspace = record {
  workspace_id = "soc";
  api_key = "k";
  batch_size = pos 100;
  flush_interval = pos 5;
  timeout = pos 30;
  buffer_size = pos 1000;
}

abbrev short_settings : OcsfSettings
short_settings = record {
  workspace_id = "soc";
  api_key = "k";
  batch_size = pos 100;
  flush_interval = pos 5;
  timeout = pos 30;
  buffer_size = pos 1000;
}

short_built : new_ocsf_sink (some short_workspace) ≡ ok short_settings
unfolding new_ocsf_sink at_least_one
short_built = refl

short_panics : to_events none short_settings (read_call ∷ []) ≡ none
unfolding to_events to_ocsf first_eight
short_panics = refl

batch_events_example : to_events none short_settings (read_call ∷ []) ≡ (
    if ltb (length (bytes_of "soc")) 8 && not (is_empty (read_call ∷ []))
    then none
    else some (map (ocsf_event none (take 8 (bytes_of "soc"))) (read_call ∷ [])))
batch_events_example = batch_events short_workspace short_settings short_built none (read_call ∷ [])
