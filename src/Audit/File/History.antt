-- ===== src/Audit/File/History.antt =====
-- The lines that a file sink keeps, in the file and its backups.
use mcp_zero_trust_proxy.Base.{
  ℕ, suc, ◌≤◌, ◌≡◌, ◌≢◌, refl, sym, ap, subst, ◌∙◌, inl, inr, Bool, true, false, Option, none, some,
  List, [], ◌∷◌, ◌++◌, append-nil, append_assoc, arith, eqb, if◌then◌else◌, Bool-cases, if_both,
  String, ℤ, pos, negsuc, ok, ◌==◌, All,
}
use mcp_zero_trust_proxy.Audit.File.{
  Line, FileSystem, Writer, stdout, custom, handle, FileSink, FileSinkConfig, backups, World,
  new_file_sink, sink_of, write_all, cascade, should_rotate, rotate, rotate_if_due, log, log_line,
  log_all, counted_bytes, add_bytes, reopened, rotate_open,
}
use mcp_zero_trust_proxy.Audit.File.Wiring.{
  times, OpenedBy, replaced_once, replaced_opened, written_once,
}
use mcp_zero_trust_proxy.Audit.File.Made.{IsBeside, IsMade, new-IsMade}
use mcp_zero_trust_proxy.Audit.File.Lawful.{IsLawful, lines}
use mcp_zero_trust_proxy.Audit.File.Rotation.{shifted, reopened-shifted}

-- All lines, from the oldest of `n` backups to the file.
unfoldable pub kept : ℕ → (ℕ → Option (List Line)) → List Line
kept ℕ.zero content = lines (content 0)
kept (suc n) content = lines (content (suc n)) ++ kept n content

kept-append :
    (line : Line) (before after : ℕ → Option (List Line))
    → ((i : ℕ) → after i ≡ (if eqb i 0 then some (lines (before 0) ++ line ∷ []) else before i))
    → (n : ℕ) → kept n after ≡ kept n before ++ line ∷ []
unfolding kept
kept-append line before after h ℕ.zero = ap lines (h 0)
kept-append line before after h (suc n) =
    let same : after (suc n) ≡ before (suc n) = ground (arith, h (suc n)) in
    rw (same, kept-append line before after h n)
      (sym (append_assoc (lines (before (suc n))) (kept n before) (line ∷ [])))

-- After a rotation with `suc k` backups the backups up to `suc j` have what was kept up to `j`.
kept-shifted :
    (k : ℕ) (before after : ℕ → Option (List Line))
    → ((i : ℕ) → after i ≡ (if eqb i 0 then some [] else shifted (suc k) before i))
    → (j : ℕ) → j ≤ k
    → kept (suc j) after ≡ kept j before
unfolding kept
kept-shifted k before after h ℕ.zero le =
    let a : after 1 ≡ before 0 = ground (arith, h 1) in
    let b : after 0 ≡ some [] = h 0 in rw (a, b) (append-nil (lines (before 0)))
kept-shifted k before after h (suc j) le =
    let a : after (suc (suc j)) ≡ before (suc j) = ground (arith, h (suc (suc j))) in
    ap (λ c. lines c ++ kept (suc j) after) a
    ∙ ap (λ l. lines (before (suc j)) ++ l)
        (unfold kept in kept-shifted k before after h j (omega arith))

-- The sink has a file open, by the handle `h`, which is one writer, and has `k + 1` backups.
record IsWired (h k : ℕ) (s : FileSink) : Type 0 where
  enabled : s.enabled ≡ true
  open_by : s.file_handle ≡ some h
  path : (s.file_path == "") ≡ false
  max : s.max_backups ≡ suc k
  once : times h s.writers ≡ 1
  opened : All (OpenedBy h) s.writers

backups-suc : (n : ℤ) → (k : ℕ) × (backups n ≡ suc k)
unfolding backups
backups-suc (pos ℕ.zero) = (0, refl)
backups-suc (pos (suc n)) = (n, ground arith)
backups-suc (negsuc n) = (0, ground arith)

made-IsWired :
    (name : String) (cfg : FileSinkConfig) (ws : List Writer) (now : ℕ)
    → (cfg.file_path == "") ≡ false
    → times 0 (ws ++ handle 0 ∷ []) ≡ 1
    → All (OpenedBy 0) (ws ++ handle 0 ∷ [])
    → (k : ℕ) × IsWired 0 k (sink_of name cfg (ws ++ handle 0 ∷ []) (some 0) now)
made-IsWired name cfg ws now path once all =
    let (k, max) = backups-suc cfg.max_backups in
    (
      k,
      record { enabled = refl; open_by = refl; path = path; max = max; once = once; opened = all },
    )

beside_once :
    (cfg : FileSinkConfig) (ws : List Writer) → IsBeside cfg ws → times 0 (ws ++ handle 0 ∷ []) ≡ 1
unfolding times
beside_once cfg ws (inl e) = rw e refl
beside_once cfg ws (inr e) = rw e (ground arith)

beside_opened :
    (cfg : FileSinkConfig) (ws : List Writer)
    → IsBeside cfg ws
    → All (OpenedBy 0) (ws ++ handle 0 ∷ [])
beside_opened cfg ws (inl e) = rw e (omega arith, tt)
beside_opened cfg ws (inr e) =
    rw e (if_both (OpenedBy 0) cfg.stdout_writer custom stdout tt tt, (omega arith, tt))

new-IsWired :
    (name : String) (cfg : FileSinkConfig) (now : ℕ) (s : FileSink)
    → IsMade name cfg now s
    → s.file_handle ≢ none
    → (k : ℕ) × IsWired 0 k s
new-IsWired name cfg now s (inl e) has_file = absurd (has_file (ap (λ x. x.file_handle) (sym e)))
new-IsWired name cfg now s (inr (path, (ws, beside, e))) has_file =
    subst (λ t. (k : ℕ) × IsWired 0 k t) e
      (made-IsWired name cfg ws now path (beside_once cfg ws beside) (beside_opened cfg ws beside))

succeeded : {A : Type 0} (p : Bool × A) → p.0 ≡ true → p ≡ (true, p.1)
succeeded (b, a) h = ap (λ x. (x, a)) h

-- What a step of the sink drops from the oldest end of its lines.
abbrev pub Keeps : (more before after : List Line) → Type 0
Keeps more before after = (dropped : List Line) × (dropped ++ after ≡ before ++ more)

abbrev lines_of : Option Line → List Line
lines_of none = []
lines_of (some line) = line ∷ []

-- The lines of the entries that could be marshalled.
unfoldable pub logged_lines : List (ℕ × Option Line) → List Line
logged_lines [] = []
logged_lines ((now, line) ∷ calls) = lines_of line ++ logged_lines calls

module _ (fs : FileSystem) (lawful : IsLawful fs) where
  abbrev renewed : ℕ → fs.State → fs.State
  renewed k files = (fs.open_log (cascade fs (suc k) (suc k) files)).1

  rotated_kept :
      (k : ℕ) (files : fs.State)
      → Keeps [] (kept (suc k) (fs.content files)) (kept (suc k) (fs.content (renewed k files)))
  unfolding kept
  rotated_kept k files = (
    lines (fs.content files (suc k)),
    ap (λ l. lines (fs.content files (suc k)) ++ l)
          (unfold kept in
            kept-shifted k (fs.content files) (fs.content (renewed k files))
              (reopened-shifted fs lawful k files) k (omega arith))
        ∙ sym (append-nil (lines (fs.content files (suc k)) ++ kept k (fs.content files))),
  )

  rotate_lem :
      (now h k : ℕ) (s : FileSink) (w : World fs)
      → IsWired h k s
      → rotate fs now s w ≡ reopened fs now h s w (true, renewed k w.files)
  unfolding rotate
  rotate_lem now h k s w r =
      let again = λ (n : ℕ). fs.open_log (cascade fs n n w.files) in
      ap (λ f. rotate_open fs now f s w) r.open_by
      ∙ ap (λ b. if b then (s, w) else reopened fs now h s w (again s.max_backups)) r.path
      ∙ ap (λ n. reopened fs now h s w (again n)) r.max
      ∙ ap (reopened fs now h s w) (succeeded (again (suc k)) (lawful.opens _))

  rotated-IsWired :
      (now h k : ℕ) (s : FileSink) (w : World fs)
      → IsWired h k s
      → IsWired (suc h) k (rotate fs now s w).0 × ((rotate fs now s w).1.files ≡ renewed k w.files)
  rotated-IsWired now h k s w r =
      subst (λ p. IsWired (suc h) k p.0 × (p.1.files ≡ renewed k w.files))
        (sym (rotate_lem now h k s w r))
        (
          record {
            enabled = r.enabled;
            open_by = refl;
            path = r.path;
            max = r.max;
            once = replaced_once h s.writers r.opened (omega (arith, r.once));
            opened = replaced_opened h s.writers r.opened;
          },
          refl,
        )

  -- The sink after a step, wired by some handle, and what it keeps.
  abbrev Stepped : ℕ → List Line → World fs → FileSink × World fs → Type 0
  Stepped k more w p =
      ((h : ℕ) × IsWired h k p.0)
      × Keeps more (kept (suc k) (fs.content w.files)) (kept (suc k) (fs.content p.1.files))

  due_kept :
      (now h k : ℕ) (s : FileSink) (w : World fs)
      → IsWired h k s
      → Stepped k [] w (rotate_if_due fs now s w)
  unfolding rotate_if_due
  due_kept now h k s w r = elim (Bool-cases (should_rotate now s)) [
    | inl e ↦
        let (wired, files) = rotated-IsWired now h k s w r in
        rw e ((suc h, wired), rw files (rotated_kept k w.files))
    | inr e ↦ rw e ((h, r), ([], sym (append-nil (kept (suc k) (fs.content w.files)))))
  ]

  line_kept :
      (now h k : ℕ) (line : Line) (s : FileSink) (w : World fs)
      → IsWired h k s
      → Stepped k (line ∷ []) w (log_line fs now line s w)
  line_kept now h k line s w r =
      let w' = write_all fs line s.file_handle s.writers w in
      let files : w'.files ≡ fs.append line w.files =
        ap (λ f. (write_all fs line f s.writers w).files) r.open_by
        ∙ written_once fs line h s.writers w r.once in
      let s' = add_bytes fs (counted_bytes fs line s.file_handle s.writers) s in
      let (wired, (dropped, q)) = due_kept now h k s' w' (record {
        enabled = r.enabled;
        open_by = r.open_by;
        path = r.path;
        max = r.max;
        once = r.once;
        opened = r.opened;
      }) in
      (
        wired,
        (
          dropped,
          q
              ∙ append-nil (kept (suc k) (fs.content w'.files))
              ∙ ap (λ t. kept (suc k) (fs.content t)) files
              ∙ kept-append line (fs.content w.files) (fs.content (fs.append line w.files))
                  (lawful.content-append line w.files) (suc k),
        ),
      )

  log_kept :
      (now h k : ℕ) (line : Option Line) (s : FileSink) (w : World fs)
      → IsWired h k s
      → Stepped k (lines_of line) w (log fs now line s w)
  unfolding log
  log_kept now h k none s w r = ((h, r), ([], sym (append-nil (kept (suc k) (fs.content w.files)))))
  log_kept now h k (some line) s w r =
      subst (λ b. Stepped k (line ∷ []) w (if b then log_line fs now line s w else (s, w)))
        (sym r.enabled) (line_kept now h k line s w r)

  all_logged_kept :
      (k : ℕ) (calls : List (ℕ × Option Line)) (h : ℕ) (s : FileSink) (w : World fs)
      → IsWired h k s
      → Stepped k (logged_lines calls) w (log_all fs calls s w)
  unfolding log_all logged_lines
  all_logged_kept k [] h s w r =
      ((h, r), ([], sym (append-nil (kept (suc k) (fs.content w.files)))))
  all_logged_kept k ((now, line) ∷ calls) h s w r =
      let (s', w') = log fs now line s w in
      let ((h', r'), (d, q)) = log_kept now h k line s w r in
      let (wired, (d', q')) = all_logged_kept k calls h' s' w' r' in
      let before = kept (suc k) (fs.content w.files) in
      let between = kept (suc k) (fs.content w'.files) in
      let after = kept (suc k) (fs.content (log_all fs calls s' w').1.files) in
      (
        wired,
        (
          d ++ d',
          append_assoc d d' after
              ∙ ap (λ l. d ++ l) q'
              ∙ sym (append_assoc d between (logged_lines calls))
              ∙ ap (λ l. l ++ logged_lines calls) q
              ∙ append_assoc before (lines_of line) (logged_lines calls),
        ),
      )

  -- On a file system where no operation fails, let a sink be made that opens a file, and let it log:
  -- the lines in its backups, from the oldest, and its file are those that it found there and then
  -- all that it logged, each once and in order, but for some of the oldest that rotations have dropped.
  pub history_kept :
      (name : String) (cfg : FileSinkConfig) (made : ℕ) (w' w : World fs) (s : FileSink)
      → new_file_sink fs name cfg made w' ≡ (ok s, w)
      → s.file_handle ≢ none
      → (calls : List (ℕ × Option Line))
      → Keeps
          (logged_lines calls)
          (kept s.max_backups (fs.content w.files))
          (kept s.max_backups (fs.content (log_all fs calls s w).1.files))
  history_kept name cfg made w' w s h has_file calls =
      let (k, r) = new-IsWired name cfg made s (new-IsMade fs name cfg made w' w s h) has_file in
      subst
        (λ n.
          Keeps (logged_lines calls) (kept n (fs.content w.files))
            (kept n (fs.content (log_all fs calls s w).1.files)))
        (sym r.max) ((all_logged_kept k calls 0 s w r).1)
