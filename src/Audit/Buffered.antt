-- ===== src/Audit/Buffered.antt =====
-- internal/audit/sinks/ocsf.go, json_http.go and cef.go: the buffer of a sink that sends batches over
-- HTTPS. `Log` puts an entry into a channel, the goroutine `run` collects a batch and gives it to
-- `sendBatch`, and `Close` ends both. The three sinks have the same code, but for the filter, which the
-- OCSF sink has not. `Log` is one step here, its test of `closed` with its send.
pub mod Accounting
pub mod Batches
mod Tests
use mcp_zero_trust_proxy.Base.{
  ℕ, Bool, true, false, ◌||◌, not, Option, none, List, [], ◌∷◌, ◌++◌, if◌then◌else◌, ltb, length,
  is_empty, ℤ, pos, leb_ℤ,
}
use mcp_zero_trust_proxy.Protocol.{Bytes}
use mcp_zero_trust_proxy.Pipeline.{AuditEntry}
use mcp_zero_trust_proxy.Audit.{Filter, accepts_by}

-- `events` is the content of the channel, the oldest entry first; `signalled` is whether the channel
-- `close` is closed, and `running` whether `run` has not returned. `sent` has the batches given to
-- `sendBatch`, the oldest first.
pub record BufferedSink : Type 0 where
  pub enabled : Bool
  pub filter : Option Filter
  pub batch_size : ℤ
  pub buffer_size : ℕ
  pub events : List AuditEntry
  pub batch : List AuditEntry
  pub closed : Bool
  pub signalled : Bool
  pub running : Bool
  pub sent : List (List AuditEntry)

unfoldable pub new_buffered : Option Filter → ℤ → ℕ → BufferedSink
new_buffered filter batch_size buffer_size = record {
  enabled = true;
  filter = filter;
  batch_size = batch_size;
  buffer_size = buffer_size;
  events = [];
  batch = [];
  closed = false;
  signalled = false;
  running = true;
  sent = [];
}

module _ (regexp : Bytes → Bytes → Bool) where
  -- What a call of `Log` puts into the channel: the entry, or nothing.
  unfoldable pub queued : BufferedSink → AuditEntry → List AuditEntry
  queued s entry =
      if not s.enabled || s.closed
      then []
      else if not (accepts_by regexp s.filter entry)
      then []
      else if ltb (length s.events) s.buffer_size
      then entry ∷ []
      else []

  abbrev pub log : BufferedSink → AuditEntry → BufferedSink
  log s entry = record s { events = s.events ++ queued s entry }

-- `sendBatch` of the batch, unless it is empty.
unfoldable pub flush : BufferedSink → BufferedSink
flush s = if is_empty s.batch then s else record s { batch = []; sent = s.sent ++ s.batch ∷ [] }

-- The end of a receive: a full batch is sent.
unfoldable pub flush_full : BufferedSink → BufferedSink
flush_full s =
    if leb_ℤ s.batch_size (pos (length s.batch))
    then record s { batch = []; sent = s.sent ++ s.batch ∷ [] }
    else s

-- The case of `run` that takes the oldest entry of the channel.
abbrev pub on_event : BufferedSink → AuditEntry → List AuditEntry → BufferedSink
on_event s entry events = flush_full (record s { events = events; batch = s.batch ++ entry ∷ [] })

-- The case of the ticker.
abbrev pub on_tick : BufferedSink → BufferedSink
on_tick s = flush s

-- The case of the closed channel `close`, after which `run` returns.
unfoldable pub on_close : BufferedSink → BufferedSink
on_close s = record (flush s) { running = false }

-- The first part of `Close`, up to the wait for `run`.
unfoldable pub start_close : BufferedSink → BufferedSink
start_close s = if s.closed then s else record s { closed = true; signalled = true }

-- The rest of `Close`: what is left in the channel is discarded.
abbrev pub drain : BufferedSink → BufferedSink
drain s = record s { events = [] }
