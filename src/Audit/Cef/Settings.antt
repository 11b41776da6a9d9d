-- ===== src/Audit/Cef/Settings.antt =====
-- internal/audit/sinks/cef.go, `NewCEFSink`: the settings of the sink and its errors but those of the
-- connection. Times are seconds, and are assumed not to overflow as nanoseconds.
use mcp_zero_trust_proxy.Base.{
  ℕ, String, ◌≡◌, refl, ◌&&◌, Option, none, some, List, [], ◌∷◌, ◌==◌, arith, if◌then◌else◌,
  contains, ℤ, pos, negsuc, ltb_ℤ, is_zero, Result, ok, err,
}
use mcp_zero_trust_proxy.Audit.Settings.{at_least_one}
use mcp_zero_trust_proxy.Config.{CefSinkConfig}
use mcp_zero_trust_proxy.Config.Defaults.{or_text, or_number, default_port, default_cef}

pub record CefSettings : Type 0 where
  pub transport : String
  pub host : String
  pub port : ℤ
  pub facility : String
  pub batch_size : ℤ
  pub flush_interval : ℤ
  pub timeout : ℤ
  pub buffer_size : ℤ

pub data CefError : Type 0 where
  no_config no_host unknown_facility : CefError

abbrev pub facility_names : List String
facility_names =
    "kernel" ∷ "user" ∷ "mail" ∷ "daemon" ∷ "auth" ∷ "syslog" ∷ "lpr" ∷ "news" ∷ "uucp" ∷ "cron"
    ∷ "authpriv" ∷ "ftp" ∷ "local0" ∷ "local1" ∷ "local2" ∷ "local3" ∷ "local4" ∷ "local5"
    ∷ "local6" ∷ "local7" ∷ []

unfoldable pub https_number : String → ℤ → ℤ → ℤ
https_number transport n default = if ltb_ℤ n (pos 1) && transport == "https" then default else n

abbrev pub settings : CefSinkConfig → String → CefSettings
settings cfg transport = record {
  transport = transport;
  host = cfg.host;
  port = or_number cfg.port (default_port transport);
  facility = or_text cfg.facility "local0";
  batch_size = https_number transport cfg.batch_size (pos 10);
  flush_interval = https_number transport cfg.flush_interval (pos 1);
  timeout = at_least_one cfg.timeout (pos 5);
  buffer_size = at_least_one cfg.buffer_size (pos 1000);
}

unfoldable pub new_cef_sink : Option CefSinkConfig → Result CefError CefSettings
new_cef_sink none = err no_config
new_cef_sink (some cfg) =
    if cfg.host == ""
    then err no_host
    else if contains facility_names (or_text cfg.facility "local0")
    then ok (settings cfg (or_text cfg.transport "udp"))
    else err unknown_facility

or_text_twice : (s d : String) → or_text (or_text s d) d ≡ or_text s d
or_text_twice s d = ground arith

or_number_twice : (n d : ℤ) → or_number (or_number n d) d ≡ or_number n d
or_number_twice n d = ground arith

at_least_one-or_number :
    (n : ℤ) (k : ℕ)
    → at_least_one (or_number n (pos (ℕ.suc k))) (pos (ℕ.suc k)) ≡ at_least_one n (pos (ℕ.suc k))
unfolding at_least_one
at_least_one-or_number (pos n) k = ground arith
at_least_one-or_number (negsuc n) k = refl

https_number-default :
    (transport : String) (n : ℤ) (k : ℕ)
    → https_number transport
        (if is_zero n && transport == "https" then pos (ℕ.suc k) else n)
        (pos (ℕ.suc k))
      ≡ https_number transport n (pos (ℕ.suc k))
unfolding https_number
https_number-default transport (pos n) k = ground arith
https_number-default transport (negsuc n) k = refl

-- The defaults that the constructor fills in itself are those of `applyDefaults`: a configuration
-- gives the same sink, or the same error, whether or not it has been through them.
pub new_cef_sink-default_cef :
    (c : CefSinkConfig) → new_cef_sink (some (default_cef c)) ≡ new_cef_sink (some c)
unfolding new_cef_sink
new_cef_sink-default_cef c =
    let transport = or_text c.transport "udp" in
    rw
      (
        or_text_twice c.transport "udp",
        or_text_twice c.facility "local0",
        or_number_twice c.port (default_port transport),
        at_least_one-or_number c.timeout 4,
        at_least_one-or_number c.buffer_size 999,
        https_number-default transport c.batch_size 9,
        https_number-default transport c.flush_interval 0,
      )
      refl
