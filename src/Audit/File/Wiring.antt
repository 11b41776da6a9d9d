-- ===== src/Audit/File/Wiring.antt =====
-- The writer that is the open file, before and after a rotation.
use mcp_zero_trust_proxy.Base.{
  ℕ, suc, ◌≤◌, ◌≡◌, ◌∙◌, refl, List, [], ◌∷◌, arith, eqb, if◌then◌else◌, All, Bool, true, false,
  some, ap, ◌++◌,
}
use mcp_zero_trust_proxy.Audit.File.{
  Line, FileSystem, Writer, stdout, custom, handle, World, write_by, write_all, update_file_writer,
}

-- How often a handle stands among the writers.
unfoldable pub times : ℕ → List Writer → ℕ
times h [] = 0
times h (stdout ∷ ws) = times h ws
times h (custom ∷ ws) = times h ws
times h (handle g ∷ ws) = let rest = times h ws in if eqb g h then suc rest else rest

abbrev pub OpenedBy : ℕ → Writer → Type 0
OpenedBy h stdout = Unit
OpenedBy h custom = Unit
OpenedBy h (handle g) = g ≤ h

not_yet : (h : ℕ) (ws : List Writer) → All (OpenedBy h) ws → times (suc h) ws ≡ 0
unfolding times
not_yet h [] a = refl
not_yet h (stdout ∷ ws) a = not_yet h ws a.1
not_yet h (custom ∷ ws) a = not_yet h ws a.1
not_yet h (handle g ∷ ws) a = ground (arith, not_yet h ws a.1, a.0)

pub replaced_once :
    (h : ℕ) (ws : List Writer)
    → All (OpenedBy h) ws
    → 1 ≤ times h ws
    → times (suc h) (update_file_writer (suc h) ws) ≡ 1
unfolding times update_file_writer
replaced_once h [] a one = absurd (omega arith)
replaced_once h (stdout ∷ ws) a one = ground (arith, not_yet h ws a.1)
replaced_once h (custom ∷ ws) a one = replaced_once h ws a.1 one
replaced_once h (handle g ∷ ws) a one = ground (arith, not_yet h ws a.1)

All-later : (h : ℕ) (ws : List Writer) → All (OpenedBy h) ws → All (OpenedBy (suc h)) ws
All-later h [] a = tt
All-later h (stdout ∷ ws) a = (tt, All-later h ws a.1)
All-later h (custom ∷ ws) a = (tt, All-later h ws a.1)
All-later h (handle g ∷ ws) a = let le = a.0 in (omega arith, All-later h ws a.1)

pub replaced_opened :
    (h : ℕ) (ws : List Writer)
    → All (OpenedBy h) ws
    → All (OpenedBy (suc h)) (update_file_writer (suc h) ws)
unfolding update_file_writer
replaced_opened h [] a = tt
replaced_opened h (stdout ∷ ws) a = (omega arith, All-later h ws a.1)
replaced_opened h (custom ∷ ws) a = (tt, replaced_opened h ws a.1)
replaced_opened h (handle g ∷ ws) a = (omega arith, All-later h ws a.1)

module _ (fs : FileSystem) where
  -- The line that is written once by each writer that is the open file.
  appended : ℕ → Line → fs.State → fs.State
  appended ℕ.zero line files = files
  appended (suc n) line files = appended n line (fs.append line files)

  handle_step :
      (line : Line) (h : ℕ) (ws : List Writer) (w : World fs) (b : Bool)
      → (write_all fs line (some h) ws (record w { files = fs.append line w.files })).files
        ≡ appended (times h ws) line (fs.append line w.files)
      → (write_all fs line (some h) ws w).files ≡ appended (times h ws) line w.files
      → (write_all fs line
          (some h)
          ws
          (if b then record w { files = fs.append line w.files } else w)).files
        ≡ appended (if b then suc (times h ws) else times h ws) line w.files
  unfolding appended
  handle_step line h ws w true yes_it no_it = yes_it
  handle_step line h ws w false yes_it no_it = no_it

  written_often :
      (line : Line) (h : ℕ) (ws : List Writer) (w : World fs)
      → (write_all fs line (some h) ws w).files ≡ appended (times h ws) line w.files
  unfolding write_all write_by appended times
  written_often line h [] w = refl
  written_often line h (stdout ∷ ws) w =
      written_often line h ws (record w { stdout_lines = w.stdout_lines ++ line ∷ [] })
  written_often line h (custom ∷ ws) w =
      written_often line h ws (record w { custom_lines = w.custom_lines ++ line ∷ [] })
  written_often line h (handle g ∷ ws) w =
      handle_step line h ws w (eqb g h)
        (written_often line h ws (record w { files = fs.append line w.files }))
        (written_often line h ws w)

  pub written_once :
      (line : Line) (h : ℕ) (ws : List Writer) (w : World fs)
      → times h ws ≡ 1
      → (write_all fs line (some h) ws w).files ≡ fs.append line w.files
  unfolding appended
  written_once line h ws w one = written_often line h ws w ∙ ap (λ n. appended n line w.files) one
