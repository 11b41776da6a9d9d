-- ===== src/Audit/Cef/Tests.antt =====
-- An entry whose method has a line break, and instances of the theorems on CEF.
use mcp_zero_trust_proxy.Base.{◌≡◌, refl, true, none, [], ◌∷◌, arith, has_byte}
use mcp_zero_trust_proxy.Pipeline.{AuditEntry}
use mcp_zero_trust_proxy.Audit.Cef.{Printing, sanitize_cef, to_cef}
use mcp_zero_trust_proxy.Audit.Cef.Escape.{unescape, unescape-sanitize_cef}
use mcp_zero_trust_proxy.Audit.Cef.Lines.{breaks, to_cef-breaks}

-- `a|\=`
unescape-sanitize_cef_example :
    unescape (sanitize_cef (b'a' ∷ b'|' ∷ 92 ∷ b'=' ∷ [])) ≡ b'a' ∷ b'|' ∷ 92 ∷ b'=' ∷ []
unescape-sanitize_cef_example = unescape-sanitize_cef (b'a' ∷ b'|' ∷ 92 ∷ b'=' ∷ []) (
  (λ q. omega arith, λ q. omega arith, λ q. omega arith, λ q. omega arith),
  (
    (λ q. omega arith, λ q. omega arith, λ q. omega arith, λ q. omega arith),
    (
      (λ q. omega arith, λ q. omega arith, λ q. omega arith, λ q. omega arith),
      ((λ q. omega arith, λ q. omega arith, λ q. omega arith, λ q. omega arith), tt),
    ),
  ),
)

abbrev printing : Printing
printing = record { decimal = λ n. b'0' ∷ []; reason_text = λ r. [] }

abbrev forged : AuditEntry
forged = record {
  request_id = "r1";
  client_ip = [];
  client_id = "alice";
  session_id = "s1";
  method = "x\nCEF:0|";
  tool_name = "";
  allowed = true;
  denied_reason = none;
}

to_cef-breaks_example : breaks (to_cef printing 3 forged) ≡ true
unfolding has_byte
to_cef-breaks_example = to_cef-breaks printing (λ n. refl) 3 forged
