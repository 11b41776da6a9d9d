-- ===== src/Audit/Cef/Lines.antt =====
-- Which fields of an entry can break the line of its CEF message.
use mcp_zero_trust_proxy.Base.{
  ℕ, ◌≡◌, refl, ◌∙◌, Bool, false, ◌||◌, [], ◌∷◌, ◌++◌, if◌then◌else◌, is_empty, ltb, arith,
  has_byte, has_byte-append, has_byte-join, any_has, join, Bool-cases, inl, inr,
}
use mcp_zero_trust_proxy.Protocol.{Bytes}
use mcp_zero_trust_proxy.Http.{bytes_of}
use mcp_zero_trust_proxy.Pipeline.{AuditEntry}
use mcp_zero_trust_proxy.Audit.Cef.{
  Printing, sanitize_cef, client_address, unless_empty, reason_of, extension, header, to_cef,
}
use mcp_zero_trust_proxy.Audit.Cef.Escape.{breaks-sanitize_cef}

-- Whether a text has a line feed.
abbrev pub breaks : Bytes → Bool
breaks s = has_byte 10 s

-- A text without one adds none before another.
after_line : (a b : Bytes) → breaks a ≡ false → breaks (a ++ b) ≡ breaks b
after_line a b h = has_byte-append 10 a b ∙ rw h refl

unless_empty-raw : (s key : Bytes) → breaks key ≡ false → breaks (unless_empty s key s) ≡ breaks s
unfolding has_byte
unless_empty-raw [] key h = refl
unless_empty-raw (c ∷ s) key h = after_line key (c ∷ s) h

unless_empty-sanitized :
    (s key : Bytes) → breaks key ≡ false → breaks (unless_empty s key (sanitize_cef s)) ≡ false
unfolding has_byte
unless_empty-sanitized [] key h = refl
unless_empty-sanitized (c ∷ s) key h =
    after_line key (sanitize_cef (c ∷ s)) h ∙ breaks-sanitize_cef (c ∷ s)

address_breaks : (ip : Bytes) → breaks (if is_empty ip then bytes_of "0.0.0.0" else ip) ≡ breaks ip
unfolding has_byte
address_breaks [] = refl
address_breaks (c ∷ ip) = refl

client_address-breaks :
    (entry : AuditEntry) → breaks (client_address entry) ≡ breaks entry.client_ip
client_address-breaks entry = address_breaks entry.client_ip

module _ (p : Printing) (one_line : (n : ℕ) → breaks (p.decimal n) ≡ false) (latency : ℕ)
    (entry : AuditEntry) where
  latency_line :
      breaks (if ltb 0 latency then bytes_of " latency_ms=" ++ p.decimal latency else []) ≡ false
  unfolding has_byte
  latency_line = elim (Bool-cases (ltb 0 latency)) [
    | inl e ↦
        rw e (after_line (bytes_of " latency_ms=") (p.decimal latency) refl ∙ one_line latency)
    | inr e ↦ rw e refl
  ]

  reason_line :
      breaks (
        if entry.allowed
        then []
        else unless_empty
            (reason_of p entry.denied_reason)
            (bytes_of " reason=")
            (sanitize_cef (reason_of p entry.denied_reason)))
      ≡ false
  unfolding has_byte
  reason_line = elim (Bool-cases entry.allowed) [
    | inl e ↦ rw e refl
    | inr e ↦
        rw e (unless_empty-sanitized (reason_of p entry.denied_reason) (bytes_of " reason=") refl)
  ]

  action_line : breaks (if entry.allowed then bytes_of "allow" else bytes_of "deny") ≡ false
  unfolding has_byte
  action_line = elim (Bool-cases entry.allowed) [ inl e ↦ rw e refl | inr e ↦ rw e refl ]

  -- The line is broken by a raw field.
  abbrev pub raw_breaks : Bool
  raw_breaks =
      breaks entry.client_ip
      || (breaks (bytes_of entry.client_id)
          || (breaks (bytes_of entry.session_id)
              || (breaks (bytes_of entry.method) || breaks (bytes_of entry.request_id))))

  extension-breaks : any_has 10 (extension p latency entry) ≡ raw_breaks
  unfolding has_byte
  extension-breaks = ground (
    arith,
    client_address-breaks entry,
    one_line 8080,
    unless_empty-raw (bytes_of entry.client_id) (bytes_of " client_id=") refl,
    unless_empty-raw (bytes_of entry.session_id) (bytes_of " session_id=") refl,
    breaks-sanitize_cef (bytes_of entry.client_id),
    action_line,
    unless_empty-sanitized (bytes_of entry.tool_name) (bytes_of " tool=") refl,
    latency_line,
    reason_line,
  )

  header-breaks : any_has 10 (header p entry) ≡ false
  unfolding has_byte
  header-breaks = ground (arith, one_line 1, one_line 8)

  -- The CEF message has a line break exactly when the client's address or id, the session's id, the
  -- method or the request's id has one: these fields are not sanitized. No tool name and no reason
  -- breaks the line.
  pub to_cef-breaks : breaks (to_cef p latency entry) ≡ raw_breaks
  unfolding to_cef
  to_cef-breaks =
      has_byte-append 10 (join (header p entry)) (join (extension p latency entry))
      ∙ rw
          (
            has_byte-join 10 (header p entry),
            header-breaks,
            has_byte-join 10 (extension p latency entry),
          )
          extension-breaks
