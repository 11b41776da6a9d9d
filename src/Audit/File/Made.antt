-- ===== src/Audit/File/Made.antt =====
-- The sinks that `NewFileSink` makes: with stdout alone, or with a file that it has opened_sink.
use mcp_zero_trust_proxy.Base.{
  ℕ, ◌≡◌, ◌⊎◌, inl, inr, Bool, true, false, refl, none, some, List, [], ◌∷◌, ◌++◌, Bool-cases,
  String, Result, ok, ◌==◌,
}
use mcp_zero_trust_proxy.Audit.File.{
  FileSystem, Writer, handle, FileSink, FileSinkConfig, FileError, World, new_file_sink,
  opened_sink, sink_of, stdout_of, mode_of,
}

-- The writers beside the file.
abbrev pub IsBeside : FileSinkConfig → List Writer → Type 0
IsBeside cfg ws = (ws ≡ []) ⊎ (ws ≡ stdout_of cfg ∷ [])

abbrev pub IsMade : String → FileSinkConfig → ℕ → FileSink → Type 0
IsMade name cfg now s =
    (sink_of name cfg (stdout_of cfg ∷ []) none now ≡ s)
    ⊎ (((cfg.file_path == "") ≡ false)
        × ((ws : List Writer) × IsBeside cfg ws
            × (sink_of name cfg (ws ++ handle 0 ∷ []) (some 0) now ≡ s)))

module _ (fs : FileSystem) (name : String) (cfg : FileSinkConfig) (now : ℕ) (w' w : World fs)
    (s : FileSink) where
  opened_sink-IsMade :
      (ws : List Writer) (p : Bool × fs.State)
      → (cfg.file_path == "") ≡ false
      → IsBeside cfg ws
      → opened_sink fs name cfg ws now w' p ≡ (ok s, w)
      → IsMade name cfg now s
  opened_sink-IsMade ws (false, files) path beside h = absurd (cc)
  opened_sink-IsMade ws (true, files) path beside h = inr (path, (ws, beside, cc))

  stdout-IsMade :
      ◌≡◌ {A = Result FileError FileSink × World fs}
        (ok (sink_of name cfg (stdout_of cfg ∷ []) none now), w')
        (ok s, w)
      → IsMade name cfg now s
  stdout-IsMade h = inl (cc)

  pub new-IsMade : new_file_sink fs name cfg now w' ≡ (ok s, w) → IsMade name cfg now s
  unfolding new_file_sink
  new-IsMade h = elim (Bool-cases (mode_of cfg == "stdout")) [
    | inl e1 ↦ stdout-IsMade (rw e1 at h)
    | inr e1 ↦ elim (Bool-cases (mode_of cfg == "file")) [
      | inl e2 ↦ elim (Bool-cases (cfg.file_path == "")) [
        | inl e3 ↦ absurd (let h' = rw (e1, e2, e3) at h in cc)
        | inr e3 ↦ opened_sink-IsMade [] (fs.open_log w'.files) e3 (inl refl) (rw (e1, e2, e3) at h)
      ]
      | inr e2 ↦ elim (Bool-cases (mode_of cfg == "both")) [
        | inl e3 ↦ elim (Bool-cases (cfg.file_path == "")) [
          | inl e4 ↦ stdout-IsMade (rw (e1, e2, e3, e4) at h)
          | inr e4 ↦
              opened_sink-IsMade (stdout_of cfg ∷ []) (fs.open_log w'.files) e4 (inr refl)
                (rw (e1, e2, e3, e4) at h)
        ]
        | inr e3 ↦ absurd (let h' = rw (e1, e2, e3) at h in cc)
      ]
    ]
  ]
