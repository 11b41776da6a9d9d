-- ===== src/Audit/File.antt =====
-- internal/audit/sinks/file.go: the sink that writes lines to stdout, a file, or both, and the rotation of
-- the file. The paths that it uses are numbered: 0 is the configured path, and `i` that path with the
-- suffix `.i`. The file system is the record `FileSystem`, a parameter. Times are seconds since a start,
-- and are assumed not to overflow as nanoseconds.
pub mod Lawful
pub mod Rotation
pub mod History
pub mod Wiring
pub mod Both
pub mod Made
mod Tests
use mcp_zero_trust_proxy.Base.{
  ℕ, suc, ◌+◌, ◌*◌, String, Bool, true, false, ◌&&◌, ◌||◌, not, Option, none, some, List, [], ◌∷◌,
  ◌++◌, ◌==◌, if◌then◌else◌, ltb, eqb, leb, length, ℤ, pos, negsuc, ltb_ℤ, is_zero, Result, ok, err,
  pos_part,
}
use mcp_zero_trust_proxy.Config.{AuditConfig}

-- A line with its line break, as bytes.
abbrev pub Line : Type 0
Line = List ℕ

-- `content` has the lines of the file of a path, none if there is no file; `open` opens path 0 with
-- `O_CREATE|O_APPEND`, and `append` writes a line by the handle that it gave.
pub record FileSystem : Type 1 where
  pub State : Type 0
  pub content : State → ℕ → Option (List Line)
  pub open_log : State → Bool × State
  pub append : Line → State → State
  pub remove : ℕ → State → State
  pub rename : ℕ → ℕ → State → State

-- `stdout` is `os.Stdout`, a `*os.File` like the handles; `custom` is any other writer. Each handle has
-- the number of the opening that gave it.
pub data Writer : Type 0 where
  stdout custom : Writer
  handle : ℕ → Writer

abbrev pub is_file : Writer → Bool
is_file stdout = true
is_file custom = false
is_file (handle h) = true

-- `file_handle` is none where the Go field is nil.
pub record FileSink : Type 0 where
  pub name : String
  pub enabled : Bool
  pub writers : List Writer
  pub file_handle : Option ℕ
  pub file_path : String
  pub max_size_bytes : ℕ
  pub max_age_hours : ℤ
  pub max_backups : ℕ
  pub file_created_at : ℕ
  pub bytes_written : ℕ

pub record FileSinkConfig : Type 0 where
  pub output : String
  pub file_path : String
  pub max_size_mb : ℤ
  pub max_age_hrs : ℤ
  pub max_backups : ℤ
  pub stdout_writer : Bool

pub data FileError : Type 0 where
  no_file_path not_opened unknown_mode : FileError

-- 1 MB, and the bytes that a negative setting gives.
unfoldable pub size_limit : ℤ → ℕ
size_limit (pos n) = n * 1024 * 1024
size_limit (negsuc n) = suc n

unfoldable pub backups : ℤ → ℕ
backups n = if ltb_ℤ n (pos 1) then 1 else pos_part n

abbrev pub stdout_of : FileSinkConfig → Writer
stdout_of cfg = if cfg.stdout_writer then custom else stdout

abbrev pub mode_of : FileSinkConfig → String
mode_of cfg = if cfg.output == "" then "stdout" else cfg.output

abbrev opened_path : Option ℕ → String → String
opened_path none path = ""
opened_path (some h) path = path

abbrev pub sink_of : String → FileSinkConfig → List Writer → Option ℕ → ℕ → FileSink
sink_of name cfg writers file now = record {
  name = if name == "" then "file" else name;
  enabled = true;
  writers = writers;
  file_handle = file;
  file_path = opened_path file cfg.file_path;
  max_size_bytes = size_limit cfg.max_size_mb;
  max_age_hours = cfg.max_age_hrs;
  max_backups = backups cfg.max_backups;
  file_created_at = now;
  bytes_written = 0;
}

-- `FromConfigWithWriter`, with whether a writer was given.
abbrev pub from_config : AuditConfig → Bool → FileSinkConfig
from_config cfg stdout_writer = record {
  output = cfg.output;
  file_path = cfg.file_path;
  max_size_mb = cfg.rotation.max_size_mb;
  max_age_hrs = cfg.rotation.max_age_hours;
  max_backups = cfg.rotation.max_backups;
  stdout_writer = stdout_writer;
}

-- Whether `now` is after the time by which the file is too old.
abbrev pub too_old : ℕ → ℕ → ℤ → Bool
too_old now created (pos hours) = ltb (created + hours * 3600) now
too_old now created (negsuc hours) = ltb created (now + suc hours * 3600)

abbrev is_open : Option ℕ → Bool
is_open none = false
is_open (some h) = true

unfoldable pub should_rotate : ℕ → FileSink → Bool
should_rotate now s =
    is_open s.file_handle
    && ((not (eqb s.max_size_bytes 0) && leb s.max_size_bytes s.bytes_written)
        || (not (is_zero s.max_age_hours) && too_old now s.file_created_at s.max_age_hours))

-- `updateFileWriter`: the first writer that is a file is replaced.
unfoldable pub update_file_writer : ℕ → List Writer → List Writer
update_file_writer h [] = []
update_file_writer h (w ∷ ws) =
    let rest = update_file_writer h ws in if is_file w then handle h ∷ ws else w ∷ rest

module _ (fs : FileSystem) where
  -- The files, and what was written to stdout and to a writer of another kind.
  pub record World : Type 0 where
    pub files : fs.State
    pub stdout_lines : List Line
    pub custom_lines : List Line

  abbrev pub opened_sink :
      String
      → FileSinkConfig
      → List Writer
      → ℕ
      → World
      → Bool × fs.State
      → Result FileError FileSink × World
  opened_sink name cfg writers now w (false, files) = (err not_opened, record w { files = files })
  opened_sink name cfg writers now w (true, files) =
      (ok (sink_of name cfg (writers ++ handle 0 ∷ []) (some 0) now), record w { files = files })

  unfoldable pub new_file_sink :
      String → FileSinkConfig → ℕ → World → Result FileError FileSink × World
  new_file_sink name cfg now w =
      if mode_of cfg == "stdout"
      then (ok (sink_of name cfg (stdout_of cfg ∷ []) none now), w)
      else if mode_of cfg == "file"
      then if cfg.file_path == ""
        then (err no_file_path, w)
        else opened_sink name cfg [] now w (fs.open_log w.files)
      else if mode_of cfg == "both"
      then if cfg.file_path == ""
        then (ok (sink_of name cfg (stdout_of cfg ∷ []) none now), w)
        else opened_sink name cfg (stdout_of cfg ∷ []) now w (fs.open_log w.files)
      else (err unknown_mode, w)

  -- A write by a handle that is not the open one fails.
  unfoldable pub write_by : Line → Option ℕ → Writer → World → World
  write_by line file stdout w = record w { stdout_lines = w.stdout_lines ++ line ∷ [] }
  write_by line file custom w = record w { custom_lines = w.custom_lines ++ line ∷ [] }
  write_by line none (handle h) w = w
  write_by line (some open_handle) (handle h) w =
      if eqb h open_handle then record w { files = fs.append line w.files } else w

  -- The loop over the writers.
  unfoldable pub write_all : Line → Option ℕ → List Writer → World → World
  write_all line file [] w = w
  write_all line file (writer ∷ ws) w = write_all line file ws (write_by line file writer w)

  -- The renames of the backups, from the oldest down to the file itself.
  unfoldable pub cascade : ℕ → ℕ → fs.State → fs.State
  cascade max ℕ.zero files = files
  cascade max (suc i) files =
      cascade max i
        (fs.rename i (suc i) (if eqb (suc i) max then fs.remove (suc i) files else files))

  abbrev reopened : ℕ → ℕ → FileSink → World → Bool × fs.State → FileSink × World
  reopened now h s w (false, files) = (record s { file_handle = none }, record w { files = files })
  reopened now h s w (true, files) = (
    record s {
      writers = update_file_writer (suc h) s.writers;
      file_handle = some (suc h);
      file_created_at = now;
      bytes_written = 0;
    },
    record w { files = files },
  )

  abbrev rotate_open : ℕ → Option ℕ → FileSink → World → FileSink × World
  rotate_open now none s w = (s, w)
  rotate_open now (some h) s w =
      if s.file_path == ""
      then (s, w)
      else reopened now h s w (fs.open_log (cascade s.max_backups s.max_backups w.files))

  unfoldable pub rotate : ℕ → FileSink → World → FileSink × World
  rotate now s w = rotate_open now s.file_handle s w

  -- The bytes that the writers that are files have written.
  unfoldable pub counted_bytes : Line → Option ℕ → List Writer → ℕ
  counted_bytes line none ws = 0
  counted_bytes line (some open_handle) [] = 0
  counted_bytes line (some open_handle) (stdout ∷ ws) =
      length line + counted_bytes line (some open_handle) ws
  counted_bytes line (some open_handle) (custom ∷ ws) = counted_bytes line (some open_handle) ws
  counted_bytes line (some open_handle) (handle h ∷ ws) =
      (if eqb h open_handle then length line else 0) + counted_bytes line (some open_handle) ws

  abbrev add_bytes : ℕ → FileSink → FileSink
  add_bytes n s = record s { bytes_written = s.bytes_written + n }

  -- After the write.
  unfoldable pub rotate_if_due : ℕ → FileSink → World → FileSink × World
  rotate_if_due now s w = if should_rotate now s then rotate now s w else (s, w)

  abbrev pub log_line : ℕ → Line → FileSink → World → FileSink × World
  log_line now line s w =
      rotate_if_due now (add_bytes (counted_bytes line s.file_handle s.writers) s)
        (write_all line s.file_handle s.writers w)

  -- `line` is none if the entry cannot be marshalled.
  unfoldable pub log : ℕ → Option Line → FileSink → World → FileSink × World
  log now none s w = (s, w)
  log now (some line) s w = if s.enabled then log_line now line s w else (s, w)

  unfoldable pub close : FileSink → FileSink
  close s = record s { file_handle = none }

  -- A sequence of calls of `Log`, each with its time and its line.
  unfoldable pub log_all : List (ℕ × Option Line) → FileSink → World → FileSink × World
  log_all [] s w = (s, w)
  log_all ((now, line) ∷ calls) s w = let (s', w') = log now line s w in log_all calls s' w'
