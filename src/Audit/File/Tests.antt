-- ===== src/Audit/File/Tests.antt =====
-- A sink in mode `both` whose file is rotated at every line, on a disk without files.
use mcp_zero_trust_proxy.Base.{
  ℕ, ◌≡◌, ◌≢◌, refl, true, false, Option, none, some, List, [], ◌∷◌, ◌++◌, pos, negsuc, ok,
}
use mcp_zero_trust_proxy.Audit.File.{
  Line, FileSink, FileSinkConfig, stdout, handle, World, new_file_sink, size_limit, backups, log,
  log_all, write_all, write_by, cascade, should_rotate, rotate, rotate_if_due, counted_bytes,
  update_file_writer,
}
use mcp_zero_trust_proxy.Audit.File.Lawful.{disk, disk-IsLawful}
use mcp_zero_trust_proxy.Audit.File.History.{Keeps, kept, logged_lines, history_kept}
use mcp_zero_trust_proxy.Audit.File.Both.{rotated_silent}

abbrev both : FileSinkConfig
both = record {
  output = "both";
  file_path = "audit.log";
  max_size_mb = negsuc 0;
  max_age_hrs = pos 0;
  max_backups = pos 2;
  stdout_writer = false;
}

abbrev blank_world : World disk
blank_world = record { files = λ i. none; stdout_lines = []; custom_lines = [] }

abbrev opened_world : World disk
opened_world = record {
  files = (disk.open_log (λ i. none)).1;
  stdout_lines = [];
  custom_lines = [];
}

abbrev sink : FileSink
sink = record {
  name = "file";
  enabled = true;
  writers = stdout ∷ handle 0 ∷ [];
  file_handle = some 0;
  file_path = "audit.log";
  max_size_bytes = 1;
  max_age_hours = pos 0;
  max_backups = 2;
  file_created_at = 0;
  bytes_written = 0;
}

sink_made : new_file_sink disk "file" both 0 blank_world ≡ (ok sink, opened_world)
unfolding new_file_sink size_limit backups
sink_made = refl

has_file : sink.file_handle ≢ none
has_file e = cc

abbrev two_lines : List (ℕ × Option Line)
two_lines = (1, some (b'a' ∷ [])) ∷ (2, some (b'b' ∷ [])) ∷ []

rotated_twice : (log_all disk two_lines sink opened_world).0.file_handle ≡ some 2
unfolding log_all log rotate_if_due should_rotate rotate counted_bytes update_file_writer
rotated_twice = refl

two_backups :
    kept 2 (log_all disk two_lines sink opened_world).1.files ≡ (b'a' ∷ []) ∷ (b'b' ∷ []) ∷ []
unfolding log_all log rotate_if_due should_rotate rotate counted_bytes write_all write_by cascade
    kept update_file_writer
two_backups = refl

-- The second line does not reach stdout.
one_printed : (log_all disk two_lines sink opened_world).1.stdout_lines ≡ (b'a' ∷ []) ∷ []
unfolding log_all log rotate_if_due should_rotate rotate counted_bytes write_all write_by
    update_file_writer
one_printed = refl

history_kept_example :
    Keeps
      (logged_lines two_lines)
      (kept 2 (disk.content opened_world.files))
      (kept 2 (disk.content (log_all disk two_lines sink opened_world).1.files))
history_kept_example =
    history_kept disk disk-IsLawful "file" both 0 blank_world opened_world sink sink_made has_file
      two_lines

rotated_silent_example :
    (log_all disk (two_lines ++ two_lines) sink opened_world).1.stdout_lines
    ≡ (log_all disk two_lines sink opened_world).1.stdout_lines
rotated_silent_example =
    rotated_silent disk "file" both 0 blank_world opened_world sink sink_made two_lines two_lines 1
      rotated_twice
