-- ===== src/Audit/File/Rotation.antt =====
-- The cascade of the backups.
use mcp_zero_trust_proxy.Base.{
  ℕ, suc, ◌<◌, ◌≡◌, refl, ap, ◌∙◌, Option, none, some, List, [], arith, eqb, ltb, if◌then◌else◌,
}
use mcp_zero_trust_proxy.Audit.File.{Line, FileSystem, cascade}
use mcp_zero_trust_proxy.Audit.File.Lawful.{IsLawful, moved}

-- The content of path `i` when the paths below `j` have each moved one up.
abbrev pub shifted : ℕ → (ℕ → Option (List Line)) → ℕ → Option (List Line)
shifted j before ℕ.zero = none
shifted j before (suc i) = if ltb i j then before i else before (suc i)

moved_up :
    (k i : ℕ) (held : Option (List Line)) (before : ℕ → Option (List Line))
    → before k ≡ held
    → before (suc k) ≡ none
    → moved k (suc k) held before i
      ≡ (if eqb i (suc k) then before k else if eqb i k then none else before i)
moved_up k i none before p gone = ground arith
moved_up k i (some ls) before p gone = ground arith

-- A move of `k` up to the free place above, then of all below `k`, is a move of all below `suc k`.
shift_more :
    (k : ℕ) (before after : ℕ → Option (List Line))
    → ((i : ℕ) → after i ≡ (if eqb i (suc k) then before k else if eqb i k then none else before i))
    → (i : ℕ) → shifted k after i ≡ shifted (suc k) before i
shift_more k before after h ℕ.zero = refl
shift_more k before after h (suc m) = ground (arith, h m, h (suc m))

-- What stands at the place `suc k` does not count.
shift_same :
    (k : ℕ) (before after : ℕ → Option (List Line))
    → ((i : ℕ) → after i ≡ (if eqb i (suc k) then none else before i))
    → (i : ℕ) → shifted (suc k) after i ≡ shifted (suc k) before i
shift_same k before after h ℕ.zero = refl
shift_same k before after h (suc m) = ground (arith, h m, h (suc m))

shift_zero :
    (before : ℕ → Option (List Line)) (i : ℕ) → before 0 ≡ none → before i ≡ shifted 0 before i
shift_zero before ℕ.zero gone = gone
shift_zero before (suc i) gone = ground arith

module _ (fs : FileSystem) (lawful : IsLawful fs) where
  rename_up :
      (k : ℕ) (s : fs.State)
      → fs.content s (suc k) ≡ none
      → (i : ℕ)
      → fs.content (fs.rename k (suc k) s) i
        ≡ (if eqb i (suc k) then fs.content s k else if eqb i k then none else fs.content s i)
  rename_up k s gone i =
      lawful.content-rename k (suc k) s i (λ e. omega arith)
      ∙ moved_up k i (fs.content s k) (fs.content s) refl gone

  vacated :
      (k : ℕ) (s : fs.State)
      → fs.content s (suc k) ≡ none
      → fs.content (fs.rename k (suc k) s) k ≡ none
  vacated k s gone = ground (arith, rename_up k s gone k)

  cascade_over :
      (max k : ℕ) (s : fs.State)
      → suc k < max
      → cascade fs max (suc k) s ≡ cascade fs max k (fs.rename k (suc k) s)
  unfolding cascade
  cascade_over max k s h = ground arith

  -- The renames below `max`, where nothing has to be removed.
  cascade_below :
      (max j : ℕ) (s : fs.State)
      → j < max
      → fs.content s j ≡ none
      → (i : ℕ) → fs.content (cascade fs max j s) i ≡ shifted j (fs.content s) i
  unfolding cascade
  cascade_below max ℕ.zero s h gone i = shift_zero (fs.content s) i gone
  cascade_below max (suc k) s h gone i =
      ap (λ t. fs.content t i) (unfold cascade in cascade_over max k s h)
      ∙ cascade_below max k (fs.rename k (suc k) s) (omega arith) (vacated k s gone) i
      ∙ shift_more k (fs.content s) (fs.content (fs.rename k (suc k) s)) (rename_up k s gone) i

  cascade_top :
      (k : ℕ) (s : fs.State)
      → cascade fs (suc k) (suc k) s
        ≡ cascade fs (suc k) k (fs.rename k (suc k) (fs.remove (suc k) s))
  unfolding cascade
  cascade_top k s = ground arith

  -- The renames of a rotation move the file and each backup one up; the oldest backup is gone.
  pub cascade-shifted :
      (k : ℕ) (s : fs.State) (i : ℕ)
      → fs.content (cascade fs (suc k) (suc k) s) i ≡ shifted (suc k) (fs.content s) i
  cascade-shifted k s i =
      let r = fs.remove (suc k) s in
      let removed : (n : ℕ) → fs.content r n ≡ (if eqb n (suc k) then none else fs.content s n) =
        lawful.content-remove (suc k) s in
      let gone : fs.content r (suc k) ≡ none = ground (arith, removed (suc k)) in
      ap (λ t. fs.content t i) (cascade_top k s)
      ∙ cascade_below (suc k) k (fs.rename k (suc k) r) (omega arith) (vacated k r gone) i
      ∙ shift_more k (fs.content r) (fs.content (fs.rename k (suc k) r)) (rename_up k r gone) i
      ∙ shift_same k (fs.content s) (fs.content r) removed i

  -- The contents once the file is opened again, after the renames: the file is empty.
  pub reopened-shifted :
      (k : ℕ) (s : fs.State) (i : ℕ)
      → fs.content (fs.open_log (cascade fs (suc k) (suc k) s)).1 i
        ≡ (if eqb i 0 then some [] else shifted (suc k) (fs.content s) i)
  reopened-shifted k s i =
      let file : fs.content (cascade fs (suc k) (suc k) s) 0 ≡ none = cascade-shifted k s 0 in
      let law = lawful.content-open (cascade fs (suc k) (suc k) s) i in
      ground (arith, law, file, cascade-shifted k s i)
