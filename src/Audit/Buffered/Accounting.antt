-- ===== src/Audit/Buffered/Accounting.antt =====
-- What becomes of the entries that a buffered sink takes: steps of `Log`, `run` and `Close` in any order.
use mcp_zero_trust_proxy.Base.{
  ℕ, ◌≡◌, refl, sym, ap, ◌∙◌, inl, inr, Bool, true, false, List, [], ◌∷◌, ◌++◌, append-nil,
  append_assoc, arith, Bool-cases, leb_ℤ, pos, length, is_empty, Option, ℤ,
}
use mcp_zero_trust_proxy.Protocol.{Bytes}
use mcp_zero_trust_proxy.Pipeline.{AuditEntry}
use mcp_zero_trust_proxy.Audit.{Filter}
use mcp_zero_trust_proxy.Audit.Buffered.{
  BufferedSink, new_buffered, queued, log, flush, flush_full, on_event, on_tick, on_close,
  start_close, drain,
}

-- The entries of the batches, in their order.
unfoldable pub entries : List (List AuditEntry) → List AuditEntry
entries [] = []
entries (batch ∷ sent) = batch ++ entries sent

entries-append :
    (sent : List (List AuditEntry)) (batch : List AuditEntry)
    → entries (sent ++ batch ∷ []) ≡ entries sent ++ batch
unfolding entries
entries-append [] batch = append-nil batch
entries-append (b ∷ sent) batch =
    ap (λ l. b ++ l) (entries-append sent batch) ∙ sym (append_assoc b (entries sent) batch)

-- What the sink has taken and not lost: sent, collected, and waiting.
abbrev pub held : BufferedSink → List AuditEntry
held s = (entries s.sent ++ s.batch) ++ s.events

-- A batch that is sent is still accounted for.
send-held :
    (s : BufferedSink) → held (record s { batch = []; sent = s.sent ++ s.batch ∷ [] }) ≡ held s
send-held s =
    ap (λ l. l ++ s.events)
      (append-nil (entries (s.sent ++ s.batch ∷ [])) ∙ entries-append s.sent s.batch)

flush-held : (s : BufferedSink) → held (flush s) ≡ held s
unfolding flush
flush-held s = elim (Bool-cases (is_empty s.batch)) [
  | inl e ↦ rw e refl
  | inr e ↦ rw e (send-held s)
]

flush_full-held : (s : BufferedSink) → held (flush_full s) ≡ held s
unfolding flush_full
flush_full-held s = elim (Bool-cases (leb_ℤ s.batch_size (pos (length s.batch)))) [
  | inl e ↦ rw e (send-held s)
  | inr e ↦ rw e refl
]

-- An entry that moves from the channel to the batch is still accounted for.
event-held :
    (s : BufferedSink) (entry : AuditEntry) (rest : List AuditEntry)
    → s.events ≡ entry ∷ rest
    → held (on_event s entry rest) ≡ held s
event-held s entry rest e =
    flush_full-held (record s { events = rest; batch = s.batch ++ entry ∷ [] })
    ∙ ap (λ l. l ++ rest) (sym (append_assoc (entries s.sent) s.batch (entry ∷ [])))
    ∙ append_assoc (entries s.sent ++ s.batch) (entry ∷ []) rest
    ∙ ap (λ l. (entries s.sent ++ s.batch) ++ l) (sym e)

start_close-held : (s : BufferedSink) → held (start_close s) ≡ held s
unfolding start_close
start_close-held s = elim (Bool-cases s.closed) [ inl e ↦ rw e refl | inr e ↦ rw e refl ]

stop-held : (s : BufferedSink) → held (on_close s) ≡ held s
unfolding on_close
stop-held s = flush-held s

pub flush-batch : (s : BufferedSink) → (flush s).batch ≡ []
unfolding flush
flush-batch s = ground arith

pub flush-events : (s : BufferedSink) → (flush s).events ≡ s.events
unfolding flush
flush-events s = ground arith

pub flush_full-events : (s : BufferedSink) → (flush_full s).events ≡ s.events
unfolding flush_full
flush_full-events s = ground arith

stop-batch : (s : BufferedSink) → (on_close s).batch ≡ []
unfolding on_close
stop-batch s = flush-batch s

pub event-running :
    (s : BufferedSink) (entry : AuditEntry) (rest : List AuditEntry)
    → (on_event s entry rest).running ≡ s.running
unfolding flush_full
event-running s entry rest = ground arith

start_close-settled :
    (s : BufferedSink)
    → (s.running ≡ false → s.batch ≡ [])
    → (start_close s).running ≡ false
    → (start_close s).batch ≡ []
unfolding start_close
start_close-settled s h = elim (Bool-cases s.closed) [ inl e ↦ rw e h | inr e ↦ rw e h ]

module _ (regexp : Bytes → Bytes → Bool) where
  -- A step, and the entries that it puts into the channel. `run` takes its cases in any order, as
  -- `select` does where several are ready.
  pub data Step : BufferedSink → List AuditEntry → BufferedSink → Type 0 where
    logged :
        (s : BufferedSink) (entry : AuditEntry)
        → Step s (queued regexp s entry) (log regexp s entry)
    received :
        (s : BufferedSink) (entry : AuditEntry) (rest : List AuditEntry)
        → s.running ≡ true
        → s.events ≡ entry ∷ rest
        → Step s [] (on_event s entry rest)
    ticked : (s : BufferedSink) → s.running ≡ true → Step s [] (on_tick s)
    closing : (s : BufferedSink) → Step s [] (start_close s)
    stopped : (s : BufferedSink) → s.running ≡ true → s.signalled ≡ true → Step s [] (on_close s)

  -- The steps before `Close` drains the channel, and all that was put into it.
  pub data Run (s : BufferedSink) : List AuditEntry → BufferedSink → Type 0 where
    start : Run s [] s
    next :
        {taken more : List AuditEntry} {t u : BufferedSink}
        → Run s taken t
        → Step t more u
        → Run s (taken ++ more) u

  Step-held :
      {s u : BufferedSink} {more : List AuditEntry} → Step s more u → held u ≡ held s ++ more
  Step-held (logged s entry) =
      sym (append_assoc (entries s.sent ++ s.batch) s.events (queued regexp s entry))
  Step-held (received s entry rest running e) =
      event-held s entry rest e ∙ sym (append-nil (held s))
  Step-held (ticked s running) = flush-held s ∙ sym (append-nil (held s))
  Step-held (closing s) = start_close-held s ∙ sym (append-nil (held s))
  Step-held (stopped s running signalled) = stop-held s ∙ sym (append-nil (held s))

  pub Run-held :
      {s u : BufferedSink} {taken : List AuditEntry} → Run s taken u → held u ≡ held s ++ taken
  Run-held {s} start = sym (append-nil (held s))
  Run-held {s} (next {taken} {more} r step) =
      Step-held step ∙ ap (λ l. l ++ more) (Run-held r) ∙ append_assoc (held s) taken more

  -- Once `run` has returned, its batch has been sent.
  Step-settled :
      {s u : BufferedSink} {more : List AuditEntry}
      → Step s more u
      → (s.running ≡ false → s.batch ≡ [])
      → u.running ≡ false
      → u.batch ≡ []
  Step-settled (logged s entry) h = h
  Step-settled (received s entry rest running e) h =
      λ q. cc (event-running s entry rest, running, q)
  Step-settled (ticked s running) h = λ q. flush-batch s
  Step-settled (closing s) h = start_close-settled s h
  Step-settled (stopped s running signalled) h = λ q. stop-batch s

  Run-settled :
      {s u : BufferedSink} {taken : List AuditEntry}
      → Run s taken u
      → (s.running ≡ false → s.batch ≡ [])
      → u.running ≡ false
      → u.batch ≡ []
  Run-settled start h = h
  Run-settled (next r step) h = Step-settled step (Run-settled r h)

  module _ (filter : Option Filter) (batch_size : ℤ) (buffer_size : ℕ) where
    -- As long as `Close` has not drained the channel, what a new sink has taken is, in the order in
    -- which it was taken, in the batches that were sent, then in the batch that is collected, then in
    -- the channel: nothing is lost, sent twice or reordered.
    pub taken_accounted :
        {s : BufferedSink} {taken : List AuditEntry}
        → Run (new_buffered filter batch_size buffer_size) taken s
        → (entries s.sent ++ s.batch) ++ s.events ≡ taken
    unfolding new_buffered entries
    taken_accounted r = Run-held r

    -- After `Close`, what a new sink has taken and not sent is what was left in the channel when
    -- `run` returned, which is discarded.
    pub closed_loses_queue :
        {s : BufferedSink} {taken : List AuditEntry}
        → Run (new_buffered filter batch_size buffer_size) taken s
        → s.running ≡ false
        → (entries (drain s).sent ++ s.events ≡ taken) × ((drain s).events ≡ [])
    unfolding new_buffered entries
    closed_loses_queue {s} r ended =
        let settled : s.batch ≡ [] = Run-settled r (λ q. refl) ended in
        (
          ap (λ l. l ++ s.events)
                (sym (append-nil (entries s.sent)) ∙ ap (λ b. entries s.sent ++ b) (sym settled))
              ∙ Run-held r,
          refl,
        )
