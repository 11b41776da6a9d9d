-- ===== src/Audit/File/Both.antt =====
-- What stdout gets from a file sink whose file is rotated: `updateFileWriter` replaces the first writer
-- that is a `*os.File`, which in mode `both` is stdout.
use mcp_zero_trust_proxy.Base.{
  ℕ, suc, ◌≡◌, refl, ap, subst, ◌∙◌, ◌⊎◌, inl, inr, Bool, true, false, Option, none, some, List, [],
  ◌∷◌, ◌++◌, arith, eqb, if◌then◌else◌, if_both, String, ok, ◌==◌,
}
use mcp_zero_trust_proxy.Audit.File.{
  Line, FileSystem, Writer, stdout, custom, handle, FileSink, FileSinkConfig, World,
  update_file_writer, new_file_sink, stdout_of, write_by, write_all, should_rotate, rotate,
  rotate_open, reopened, rotate_if_due, log, log_all, counted_bytes, add_bytes,
}
use mcp_zero_trust_proxy.Audit.File.Made.{IsBeside, IsMade, new-IsMade}

unfoldable no_stdout : List Writer → Bool
no_stdout [] = true
no_stdout (stdout ∷ ws) = false
no_stdout (custom ∷ ws) = no_stdout ws
no_stdout (handle h ∷ ws) = no_stdout ws

replaced_quiet :
    (h : ℕ) (ws : List Writer) → no_stdout ws ≡ true → no_stdout (update_file_writer h ws) ≡ true
unfolding no_stdout update_file_writer
replaced_quiet h [] q = refl
replaced_quiet h (stdout ∷ ws) q = absurd (cc)
replaced_quiet h (custom ∷ ws) q = replaced_quiet h ws q
replaced_quiet h (handle g ∷ ws) q = q

replaced_any :
    (h g : ℕ) (ws : List Writer)
    → no_stdout (update_file_writer h ws) ≡ no_stdout (update_file_writer g ws)
unfolding no_stdout update_file_writer
replaced_any h g [] = refl
replaced_any h g (stdout ∷ ws) = refl
replaced_any h g (custom ∷ ws) = replaced_any h g ws
replaced_any h g (handle f ∷ ws) = refl

-- No file is open, or the one that the sink was made with.
abbrev Early : Option ℕ → Type 0
Early none = Unit
Early (some ℕ.zero) = Unit
Early (some (suc h)) = ⊥

-- Before the first rotation that would silence stdout, or after it.
abbrev IsPhased : FileSink → Type 0
IsPhased s =
    (Early s.file_handle × (no_stdout (update_file_writer 0 s.writers) ≡ true))
    ⊎ (no_stdout s.writers ≡ true)

abbrev number : Option ℕ → ℕ
number none = 0
number (some n) = n

beside_quiet :
    (cfg : FileSinkConfig) (ws : List Writer)
    → IsBeside cfg ws
    → no_stdout (update_file_writer 0 (ws ++ handle 0 ∷ [])) ≡ true
unfolding no_stdout update_file_writer
beside_quiet cfg ws (inl e) = rw e refl
beside_quiet cfg ws (inr e) = rw e (ground arith)

stdout_quiet : (cfg : FileSinkConfig) → no_stdout (update_file_writer 0 (stdout_of cfg ∷ [])) ≡ true
unfolding no_stdout update_file_writer
stdout_quiet cfg = ground arith

new-IsPhased :
    (name : String) (cfg : FileSinkConfig) (now : ℕ) (s : FileSink)
    → IsMade name cfg now s
    → IsPhased s
new-IsPhased name cfg now s (inl e) = subst IsPhased e (inl (tt, stdout_quiet cfg))
new-IsPhased name cfg now s (inr (path, (ws, beside, e))) =
    subst IsPhased e (inl (tt, beside_quiet cfg ws beside))

module _ (fs : FileSystem) where
  write_all_quiet :
      (line : Line) (file : Option ℕ) (ws : List Writer) (w : World fs)
      → no_stdout ws ≡ true
      → (write_all fs line file ws w).stdout_lines ≡ w.stdout_lines
  unfolding write_all write_by no_stdout
  write_all_quiet line file [] w q = refl
  write_all_quiet line file (stdout ∷ ws) w q = absurd (cc)
  write_all_quiet line file (custom ∷ ws) w q = write_all_quiet line file ws _ q
  write_all_quiet line none (handle h ∷ ws) w q = write_all_quiet line none ws w q
  write_all_quiet line (some o) (handle h ∷ ws) w q =
      let written = record w { files = fs.append line w.files } in
      write_all_quiet line (some o) ws (if eqb h o then written else w) q
      ∙ if_both (λ (v : World fs). v.stdout_lines ≡ w.stdout_lines) (eqb h o) written w refl refl

  reopened-IsPhased :
      (now h : ℕ) (s : FileSink) (w : World fs) (p : Bool × fs.State)
      → IsPhased s
      → IsPhased (reopened fs now h s w p).0
  reopened-IsPhased now h s w (false, files) (inl q) = inl (tt, q.1)
  reopened-IsPhased now h s w (false, files) (inr q) = inr q
  reopened-IsPhased now h s w (true, files) (inl q) = inr (replaced_any (suc h) 0 s.writers ∙ q.1)
  reopened-IsPhased now h s w (true, files) (inr q) = inr (replaced_quiet (suc h) s.writers q)

  rotate-IsPhased :
      (now : ℕ) (file : Option ℕ) (s : FileSink) (w : World fs)
      → IsPhased s
      → IsPhased (rotate_open fs now file s w).0
  rotate-IsPhased now none s w q = q
  rotate-IsPhased now (some h) s w q =
      if_both (λ (p : FileSink × World fs). IsPhased p.0) (s.file_path == "") _ _ q
        (reopened-IsPhased now h s w _ q)

  log-IsPhased :
      (now : ℕ) (line : Option Line) (s : FileSink) (w : World fs)
      → IsPhased s
      → IsPhased (log fs now line s w).0
  unfolding log rotate_if_due rotate
  log-IsPhased now none s w q = q
  log-IsPhased now (some line) s w q =
      let s' = add_bytes fs (counted_bytes fs line s.file_handle s.writers) s in
      let w' = write_all fs line s.file_handle s.writers w in
      if_both (λ (p : FileSink × World fs). IsPhased p.0) s.enabled _ (s, w)
        (if_both (λ (p : FileSink × World fs). IsPhased p.0) (should_rotate now s') _ (s', w')
          (rotate-IsPhased now s.file_handle s' w' q) q)
        q

  log_all-IsPhased :
      (calls : List (ℕ × Option Line)) (s : FileSink) (w : World fs)
      → IsPhased s
      → IsPhased (log_all fs calls s w).0
  unfolding log_all
  log_all-IsPhased [] s w q = q
  log_all-IsPhased ((now, line) ∷ calls) s w q =
      let (s', w') = log fs now line s w in
      log_all-IsPhased calls s' w' (log-IsPhased now line s w q)

  -- A step of a sink that has not stdout among its writers: neither has the sink after it.
  abbrev Silent : World fs → FileSink × World fs → Type 0
  Silent w p = (no_stdout p.0.writers ≡ true) × (p.1.stdout_lines ≡ w.stdout_lines)

  reopened-Silent :
      (now h : ℕ) (s : FileSink) (w : World fs) (p : Bool × fs.State)
      → no_stdout s.writers ≡ true
      → Silent w (reopened fs now h s w p)
  reopened-Silent now h s w (false, files) q = (q, refl)
  reopened-Silent now h s w (true, files) q = (replaced_quiet (suc h) s.writers q, refl)

  rotate-Silent :
      (now : ℕ) (file : Option ℕ) (s : FileSink) (w : World fs)
      → no_stdout s.writers ≡ true
      → Silent w (rotate_open fs now file s w)
  rotate-Silent now none s w q = (q, refl)
  rotate-Silent now (some h) s w q =
      if_both (Silent w) (s.file_path == "") _ _ (q, refl) (reopened-Silent now h s w _ q)

  log-Silent :
      (now : ℕ) (line : Option Line) (s : FileSink) (w : World fs)
      → no_stdout s.writers ≡ true
      → Silent w (log fs now line s w)
  unfolding log rotate_if_due rotate
  log-Silent now none s w q = (q, refl)
  log-Silent now (some line) s w q =
      let s' = add_bytes fs (counted_bytes fs line s.file_handle s.writers) s in
      let w' = write_all fs line s.file_handle s.writers w in
      let written = write_all_quiet line s.file_handle s.writers w q in
      let rotated = rotate-Silent now s.file_handle s' w' q in
      if_both (Silent w) s.enabled _ (s, w)
        (if_both (Silent w) (should_rotate now s') _ (s', w') (rotated.0, rotated.1 ∙ written)
          (q, written))
        (q, refl)

  log_all-Silent :
      (calls : List (ℕ × Option Line)) (s : FileSink) (w : World fs)
      → no_stdout s.writers ≡ true
      → Silent w (log_all fs calls s w)
  unfolding log_all
  log_all-Silent [] s w q = (q, refl)
  log_all-Silent ((now, line) ∷ calls) s w q =
      let (s', w') = log fs now line s w in
      let first = log-Silent now line s w q in
      let rest = log_all-Silent calls s' w' first.0 in (rest.0, rest.1 ∙ first.1)

  late-no_stdout :
      (file : Option ℕ) (ws : List Writer) (h : ℕ)
      → file ≡ some (suc h)
      → (Early file × (no_stdout (update_file_writer 0 ws) ≡ true)) ⊎ (no_stdout ws ≡ true)
      → no_stdout ws ≡ true
  late-no_stdout none ws h e (inl q) = absurd (cc)
  late-no_stdout (some ℕ.zero) ws h e (inl q) = absurd (omega (arith, ap number e))
  late-no_stdout (some (suc n)) ws h e (inl q) = absurd (q.0)
  late-no_stdout file ws h e (inr q) = q

  log_all-append :
      (before after : List (ℕ × Option Line)) (s : FileSink) (w : World fs)
      → log_all fs (before ++ after) s w
        ≡ log_all fs after (log_all fs before s w).0 (log_all fs before s w).1
  unfolding log_all
  log_all-append [] after s w = refl
  log_all-append ((now, line) ∷ before) after s w =
      let (s', w') = log fs now line s w in log_all-append before after s' w'

  -- After the first rotation nothing more is written to stdout, whatever the sink's configuration, mode
  -- `both` included: the new file has taken stdout's place among the writers.
  pub rotated_silent :
      (name : String) (cfg : FileSinkConfig) (made : ℕ) (w' w : World fs) (s : FileSink)
      → new_file_sink fs name cfg made w' ≡ (ok s, w)
      → (before after : List (ℕ × Option Line)) (rotations : ℕ)
      → (log_all fs before s w).0.file_handle ≡ some (suc rotations)
      → (log_all fs (before ++ after) s w).1.stdout_lines ≡ (log_all fs before s w).1.stdout_lines
  rotated_silent name cfg made w' w s h before after rotations late =
      let phased =
        log_all-IsPhased before s w
          (new-IsPhased name cfg made s (new-IsMade fs name cfg made w' w s h)) in
      let (s1, w1) = log_all fs before s w in
      let quiet = late-no_stdout s1.file_handle s1.writers rotations late phased in
      ap (λ (p : FileSink × World fs). p.1.stdout_lines) (log_all-append before after s w)
      ∙ (log_all-Silent after s1 w1 quiet).1
