-- ===== src/Audit/File/Lawful.antt =====
-- What the file sink assumes of the file system, of which no operation fails, and a file system that
-- does what is assumed.
use mcp_zero_trust_proxy.Base.{
  ℕ, ◌≡◌, ◌≢◌, refl, true, Option, none, some, List, [], ◌∷◌, ◌++◌, eqb, if◌then◌else◌,
}
use mcp_zero_trust_proxy.Audit.File.{Line, FileSystem}

-- The lines of a file, none of a missing one.
abbrev pub lines : Option (List Line) → List Line
lines none = []
lines (some ls) = ls

-- The content of path `i` once the file of path `a`, if it is there, is renamed to `b`.
abbrev pub moved :
    (a b : ℕ) → Option (List Line) → (ℕ → Option (List Line)) → ℕ → Option (List Line)
moved a b none before i = before i
moved a b (some ls) before i = if eqb i b then some ls else if eqb i a then none else before i

pub record IsLawful (fs : FileSystem) : Type 0 where
  pub opens : (s : fs.State) → (fs.open_log s).0 ≡ true
  pub content-open :
      (s : fs.State) (i : ℕ)
      → fs.content (fs.open_log s).1 i
        ≡ (if eqb i 0 then some (lines (fs.content s 0)) else fs.content s i)
  pub content-append :
      (line : Line) (s : fs.State) (i : ℕ)
      → fs.content (fs.append line s) i
        ≡ (if eqb i 0 then some (lines (fs.content s 0) ++ line ∷ []) else fs.content s i)
  pub content-remove :
      (p : ℕ) (s : fs.State) (i : ℕ)
      → fs.content (fs.remove p s) i ≡ (if eqb i p then none else fs.content s i)
  pub content-rename :
      (a b : ℕ) (s : fs.State) (i : ℕ)
      → a ≢ b
      → fs.content (fs.rename a b s) i ≡ moved a b (fs.content s a) (fs.content s) i

-- A disk as a function from paths to contents.
abbrev pub disk : FileSystem
disk = record {
  State = ℕ → Option (List Line);
  content = λ s i. s i;
  open_log = λ s. (true, λ i. if eqb i 0 then some (lines (s 0)) else s i);
  append = λ line s i. if eqb i 0 then some (lines (s 0) ++ line ∷ []) else s i;
  remove = λ p s i. if eqb i p then none else s i;
  rename = λ a b s i. moved a b (s a) s i;
}

pub disk-IsLawful : IsLawful disk
disk-IsLawful = record {
  opens = λ s. refl;
  content-open = λ s i. refl;
  content-append = λ line s i. refl;
  content-remove = λ p s i. refl;
  content-rename = λ a b s i h. refl;
}
