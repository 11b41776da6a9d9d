-- ===== src/Audit/Buffered/Tests.antt =====
-- A sink with batches of two, to which two calls are logged.
use mcp_zero_trust_proxy.Base.{◌≡◌, refl, Bool, true, false, none, List, [], ◌∷◌, ◌++◌, pos}
use mcp_zero_trust_proxy.Protocol.{Bytes}
use mcp_zero_trust_proxy.Pipeline.{AuditEntry}
use mcp_zero_trust_proxy.Audit.Buffered.{
  BufferedSink, new_buffered, queued, log, flush, flush_full, on_close, start_close, drain,
}
use mcp_zero_trust_proxy.Audit.Buffered.Accounting.{
  logged, closing, stopped, Run, start, next, entries, taken_accounted, closed_loses_queue,
}
use mcp_zero_trust_proxy.Audit.Buffered.Batches.{OwnRun, all_sendable}

abbrev any_text : Bytes → Bytes → Bool
any_text pattern s = true

abbrev first_call : AuditEntry
first_call = record {
  request_id = "r1";
  client_ip = [];
  client_id = "alice";
  session_id = "s1";
  method = "tools/call";
  tool_name = "read_file";
  allowed = true;
  denied_reason = none;
}

abbrev fresh : BufferedSink
fresh = record {
  enabled = true;
  filter = none;
  batch_size = pos 2;
  buffer_size = 10;
  events = [];
  batch = [];
  closed = false;
  signalled = false;
  running = true;
  sent = [];
}

fresh_made : new_buffered none (pos 2) 10 ≡ fresh
unfolding new_buffered
fresh_made = refl

-- Two calls are waiting.
abbrev waiting : BufferedSink
waiting = log any_text (log any_text (new_buffered none (pos 2) 10) first_call) first_call

abbrev two_calls : List AuditEntry
two_calls =
    ([] ++ queued any_text (new_buffered none (pos 2) 10) first_call)
    ++ queued any_text (log any_text (new_buffered none (pos 2) 10) first_call) first_call

two_queued : two_calls ≡ first_call ∷ first_call ∷ []
unfolding queued new_buffered
two_queued = refl

run_waiting : Run any_text (new_buffered none (pos 2) 10) two_calls waiting
run_waiting = next (next start (logged _ first_call)) (logged _ first_call)

one_sent :
    (flush_full (record fresh { batch = first_call ∷ first_call ∷ [] })).sent
    ≡ (first_call ∷ first_call ∷ []) ∷ []
unfolding flush_full
one_sent = refl

taken_accounted_example : (entries waiting.sent ++ waiting.batch) ++ waiting.events ≡ two_calls
taken_accounted_example = taken_accounted any_text none (pos 2) 10 run_waiting

-- The sink is closed while the calls wait.
abbrev ended : BufferedSink
ended = on_close (start_close waiting)

waiting_runs : waiting.running ≡ true
unfolding new_buffered
waiting_runs = refl

closing_runs : (start_close waiting).running ≡ true
unfolding start_close new_buffered
closing_runs = refl

closing_signalled : (start_close waiting).signalled ≡ true
unfolding start_close new_buffered
closing_signalled = refl

ended_stopped : ended.running ≡ false
unfolding on_close
ended_stopped = refl

run_ended : Run any_text (new_buffered none (pos 2) 10) ((two_calls ++ []) ++ []) ended
run_ended =
    next (next run_waiting (closing waiting))
      (stopped (start_close waiting) closing_runs closing_signalled)

closed_loses_queue_example :
    (entries (drain ended).sent ++ ended.events ≡ (two_calls ++ []) ++ [])
    × ((drain ended).events ≡ [])
closed_loses_queue_example = closed_loses_queue any_text none (pos 2) 10 run_ended ended_stopped

both_lost : ended.events ≡ first_call ∷ first_call ∷ []
unfolding on_close start_close flush queued new_buffered
both_lost = refl

all_sendable_example :
    (t : BufferedSink) × OwnRun waiting t
    × (entries t.sent ≡ (entries waiting.sent ++ waiting.batch) ++ waiting.events)
    × (t.batch ≡ [])
    × (t.events ≡ [])
all_sendable_example = all_sendable any_text waiting waiting_runs
