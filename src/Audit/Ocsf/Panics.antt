-- ===== src/Audit/Ocsf/Panics.antt =====
-- The events that an OCSF sink makes of a batch, and the workspace identifiers on which it panics.
use mcp_zero_trust_proxy.Base.{
  subst, String, ◌≡◌, refl, ◌∙◌, inl, inr, Bool, true, false, ◌&&◌, not, Option, none, some, List,
  [], ◌∷◌, map, arith, if◌then◌else◌, ltb, length, take, is_empty, Bool-cases, ok,
}
use mcp_zero_trust_proxy.Http.{bytes_of}
use mcp_zero_trust_proxy.Pipeline.{AuditEntry}
use mcp_zero_trust_proxy.Config.{OcsfSinkConfig}
use mcp_zero_trust_proxy.Audit.Settings.{OcsfSettings, new_ocsf_sink}
use mcp_zero_trust_proxy.Audit.Ocsf.{first_eight, ocsf_event, to_ocsf, to_events}

workspace_kept :
    (cfg : OcsfSinkConfig) (s : OcsfSettings)
    → new_ocsf_sink (some cfg) ≡ ok s
    → s.workspace_id ≡ cfg.workspace_id
unfolding new_ocsf_sink
workspace_kept cfg s h = ground arith

module _ (hostname : Option String) (s : OcsfSettings) where
  abbrev short : Bool
  short = ltb (length (bytes_of s.workspace_id)) 8

  one_made :
      (entry : AuditEntry)
      → to_ocsf hostname s entry ≡ (
          if short
          then none
          else some (ocsf_event hostname (take 8 (bytes_of s.workspace_id)) entry))
  unfolding to_ocsf first_eight
  one_made entry = ground arith

  all_made :
      (batch : List AuditEntry)
      → short ≡ false
      → to_events hostname s batch
        ≡ some (map (ocsf_event hostname (take 8 (bytes_of s.workspace_id))) batch)
  unfolding to_events
  all_made [] h = refl
  all_made (entry ∷ batch) h = rw (all_made batch h, one_made entry, h) refl

  none_made :
      (entry : AuditEntry) (batch : List AuditEntry)
      → short ≡ true
      → to_events hostname s (entry ∷ batch) ≡ none
  unfolding to_events
  none_made entry batch h = rw (one_made entry, h) refl

  pub events_made :
      (batch : List AuditEntry)
      → to_events hostname s batch ≡ (
          if short && not (is_empty batch)
          then none
          else some (map (ocsf_event hostname (take 8 (bytes_of s.workspace_id))) batch))
  unfolding to_events
  events_made [] = ground arith
  events_made (entry ∷ batch) = elim (Bool-cases short) [
    | inl h ↦ none_made entry batch h ∙ rw h refl
    | inr h ↦ all_made (entry ∷ batch) h ∙ rw h refl
  ]

-- A sink that `NewOCFSSink` builds makes of each entry of a batch its event, in order, unless its
-- workspace identifier has less than eight bytes: then every batch that has an entry panics.
pub batch_events :
    (cfg : OcsfSinkConfig) (s : OcsfSettings)
    → new_ocsf_sink (some cfg) ≡ ok s
    → (hostname : Option String) (batch : List AuditEntry)
    → to_events hostname s batch ≡ (
        if ltb (length (bytes_of cfg.workspace_id)) 8 && not (is_empty batch)
        then none
        else some (map (ocsf_event hostname (take 8 (bytes_of cfg.workspace_id))) batch))
batch_events cfg s h hostname batch =
    subst
      (λ w. to_events hostname s batch ≡ (
        if ltb (length (bytes_of w)) 8 && not (is_empty batch)
        then none
        else some (map (ocsf_event hostname (take 8 (bytes_of w))) batch)))
      (workspace_kept cfg s h) (events_made hostname s batch)
