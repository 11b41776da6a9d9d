-- ===== src/Audit/Buffered/Batches.antt =====
-- The sizes of the batches of a buffered sink, and that what waits can be sent.
use mcp_zero_trust_proxy.Base.{
  ℕ, ◌+◌, ◌≤◌, ◌<◌, ◌≡◌, refl, sym, ap, ◌∙◌, inl, inr, Bool, true, false, List, [], ◌∷◌, ◌++◌,
  append-nil, subst, arith, Bool-cases, leb_ℤ, pos, length, length-append, is_empty, Option, ℤ, All,
  All-append, if◌then◌else◌,
}
use mcp_zero_trust_proxy.Protocol.{Bytes}
use mcp_zero_trust_proxy.Pipeline.{AuditEntry}
use mcp_zero_trust_proxy.Audit.{Filter}
use mcp_zero_trust_proxy.Audit.Buffered.{
  BufferedSink, new_buffered, queued, log, flush, flush_full, on_event, on_tick, on_close,
  start_close,
}
use mcp_zero_trust_proxy.Audit.Buffered.Accounting.{
  Step, logged, received, ticked, closing, stopped, Run, start, next, entries, Run-held,
  flush-batch, flush-events, flush_full-events, event-running,
}

-- A batch that was sent has an entry, and at most `k`.
abbrev pub IsBatch : ℕ → List AuditEntry → Type 0
IsBatch k batch = (1 ≤ length batch) × (length batch ≤ k)

pos_length : (batch : List AuditEntry) → is_empty batch ≡ false → 1 ≤ length batch
pos_length [] e = cc
pos_length (x ∷ batch) e = omega arith

pub record IsBounded (k n : ℕ) (s : BufferedSink) : Type 0 where
  pub size : s.batch_size ≡ pos k
  pub buffer : s.buffer_size ≡ n
  pub batches : All (IsBatch k) s.sent
  pub collected : length s.batch < k
  pub waiting : length s.events ≤ n

below_size : (size : ℤ) (k m : ℕ) → size ≡ pos k → leb_ℤ size (pos m) ≡ false → m < k
below_size size k m e h = let h' : leb_ℤ (pos k) (pos m) ≡ false = rw e at h in ground arith

module _ (k n : ℕ) where
  -- Sending a batch of at most `k` entries.
  send-IsBounded :
      (s : BufferedSink)
      → s.batch_size ≡ pos k
      → s.buffer_size ≡ n
      → All (IsBatch k) s.sent
      → IsBatch k s.batch
      → length s.events ≤ n
      → IsBounded k n (record s { batch = []; sent = s.sent ++ s.batch ∷ [] })
  send-IsBounded s size buffer batches batch waiting = record {
    size = size;
    buffer = buffer;
    batches = All-append (IsBatch k) s.sent (s.batch ∷ []) batches (batch, tt);
    collected = omega arith;
    waiting = waiting;
  }

  flush-IsBounded : (s : BufferedSink) → IsBounded k n s → IsBounded k n (flush s)
  unfolding flush
  flush-IsBounded s b = elim (Bool-cases (is_empty s.batch)) [
    | inl e ↦ rw e b
    | inr e ↦
        rw e
          (send-IsBounded s b.size b.buffer b.batches (pos_length s.batch e, omega arith) b.waiting)
  ]

  event-IsBounded :
      (s : BufferedSink) (entry : AuditEntry) (rest : List AuditEntry)
      → s.events ≡ entry ∷ rest
      → IsBounded k n s
      → IsBounded k n (on_event s entry rest)
  unfolding flush_full
  event-IsBounded s entry rest e b =
      let grown : length (s.batch ++ entry ∷ []) ≡ length s.batch + 1 =
        length-append s.batch (entry ∷ []) in
      let shorter : length rest ≤ n = omega (arith, ap length e) in
      let t = record s { events = rest; batch = s.batch ++ entry ∷ [] } in
      elim (Bool-cases (leb_ℤ s.batch_size (pos (length t.batch)))) [
        | inl full ↦
            rw full (send-IsBounded t b.size b.buffer b.batches (omega arith, omega arith) shorter)
        | inr more ↦ rw more (record {
          size = b.size;
          buffer = b.buffer;
          batches = b.batches;
          collected = below_size s.batch_size k (length t.batch) b.size more;
          waiting = shorter;
        })
      ]

  closing-IsBounded :
      (s : BufferedSink) (again : Bool)
      → IsBounded k n s
      → IsBounded k n (if again then s else record s { closed = true; signalled = true })
  closing-IsBounded s true b = b
  closing-IsBounded s false b = record {
    size = b.size;
    buffer = b.buffer;
    batches = b.batches;
    collected = b.collected;
    waiting = b.waiting;
  }

  module _ (regexp : Bytes → Bytes → Bool) where
    queued_fits :
        (s : BufferedSink) (entry : AuditEntry)
        → length s.events ≤ s.buffer_size
        → length (s.events ++ queued regexp s entry) ≤ s.buffer_size
    unfolding queued
    queued_fits s entry h =
        let sum = length-append s.events (queued regexp s entry) in ground (arith, sum)

    log-IsBounded :
        (s : BufferedSink) (entry : AuditEntry)
        → IsBounded k n s
        → IsBounded k n (log regexp s entry)
    log-IsBounded s entry b = record {
      size = b.size;
      buffer = b.buffer;
      batches = b.batches;
      collected = b.collected;
      waiting =
          subst (λ m. length (s.events ++ queued regexp s entry) ≤ m) b.buffer
            (queued_fits s entry (subst (λ m. length s.events ≤ m) (sym b.buffer) b.waiting));
    }

    Step-IsBounded :
        {s u : BufferedSink} {more : List AuditEntry}
        → Step regexp s more u
        → IsBounded k n s
        → IsBounded k n u
    unfolding start_close on_close
    Step-IsBounded (logged s entry) b = log-IsBounded s entry b
    Step-IsBounded (received s entry rest running e) b = event-IsBounded s entry rest e b
    Step-IsBounded (ticked s running) b = flush-IsBounded s b
    Step-IsBounded (closing s) b = closing-IsBounded s s.closed b
    Step-IsBounded (stopped s running signalled) b =
        let f = flush-IsBounded s b in
        record {
          size = f.size;
          buffer = f.buffer;
          batches = f.batches;
          collected = f.collected;
          waiting = f.waiting;
        }

    Run-IsBounded :
        {s u : BufferedSink} {taken : List AuditEntry}
        → Run regexp s taken u
        → IsBounded k n s
        → IsBounded k n u
    Run-IsBounded start b = b
    Run-IsBounded (next r step) b = Step-IsBounded step (Run-IsBounded r b)

    -- With a batch size of at least one, whatever is logged and whenever the sink is closed, each batch
    -- that is sent has an entry and at most the batch size, the batch that is collected is smaller, and
    -- at most the buffer size of entries wait.
    pub sink-IsBounded :
        (filter : Option Filter)
        → 1 ≤ k
        → {s : BufferedSink} {taken : List AuditEntry}
        → Run regexp (new_buffered filter (pos k) n) taken s
        → IsBounded k n s
    unfolding new_buffered
    sink-IsBounded filter h r = Run-IsBounded r (record {
      size = refl;
      buffer = refl;
      batches = tt;
      collected = omega arith;
      waiting = omega arith;
    })

flat :
    (sent : List AuditEntry) {batch events : List AuditEntry}
    → batch ≡ []
    → events ≡ []
    → sent ≡ (sent ++ batch) ++ events
flat sent p q = rw (p, q, append-nil, append-nil) refl

-- Steps of `run` alone, other than its return: it takes an entry from the channel, or its ticker fires.
pub data OwnRun (s : BufferedSink) : BufferedSink → Type 0 where
  own_start : OwnRun s s
  own_received :
      {t : BufferedSink} (entry : AuditEntry) (rest : List AuditEntry)
      → OwnRun s t
      → t.running ≡ true
      → t.events ≡ entry ∷ rest
      → OwnRun s (on_event t entry rest)
  own_ticked : {t : BufferedSink} → OwnRun s t → t.running ≡ true → OwnRun s (on_tick t)

module _ (regexp : Bytes → Bytes → Bool) (s : BufferedSink) where
  OwnRun-Run : {t : BufferedSink} → OwnRun s t → Run regexp s [] t
  OwnRun-Run own_start = start
  OwnRun-Run (own_received {t} entry rest r running e) =
      next (OwnRun-Run r) (received t entry rest running e)
  OwnRun-Run (own_ticked {t} r running) = next (OwnRun-Run r) (ticked t running)

  abbrev Sendable : Type 0
  Sendable = (t : BufferedSink) × OwnRun s t × (t.batch ≡ []) × (t.events ≡ [])

  receive_all :
      (events : List AuditEntry) (t : BufferedSink)
      → OwnRun s t
      → t.events ≡ events
      → t.running ≡ true
      → Sendable
  receive_all [] t r e running =
      (on_tick t, own_ticked r running, flush-batch t, flush-events t ∙ e)
  receive_all (entry ∷ events) t r e running =
      receive_all events (on_event t entry events) (own_received entry events r running e)
        (flush_full-events (record t { events = events; batch = t.batch ++ entry ∷ [] }))
        (event-running t entry events ∙ running)

  -- While `run` runs, all that the sink holds can be sent, in order, and the channel emptied, by
  -- receives and ticks of `run` alone: no call of `Log` or `Close` is needed.
  pub all_sendable :
      s.running ≡ true
      → (t : BufferedSink) × OwnRun s t
        × (entries t.sent ≡ (entries s.sent ++ s.batch) ++ s.events)
        × (t.batch ≡ [])
        × (t.events ≡ [])
  all_sendable running =
      let (t, r, batch, events) = receive_all s.events s own_start refl running in
      (
        t,
        r,
        flat (entries t.sent) batch events
            ∙ Run-held regexp (OwnRun-Run r)
            ∙ append-nil ((entries s.sent ++ s.batch) ++ s.events),
        batch,
        events,
      )
