-- ===== src/Logger/Files.antt =====
-- `RotatingLogger`: the files beside the log, `rotate` and `log`. File 0 is the log itself and file n
-- its backup `.n`. The handle that the logger writes to stays on its file when this is renamed, and on
-- no file once another took its name.
use ferro_vela.Prelude.{
  ℕ, zero, suc, ◌+◌, ◌*◌, Bool, true, false, Option, none, some, [], ◌++◌, leb, ◌==◌, if◌then◌else◌,
  length, take, unwrap_or,
}
use ferro_vela.Text.Utf8.{Bytes}

abbrev pub max_log_bytes : ℕ
max_log_bytes = 10 * 1024 * 1024

abbrev max_log_backups : ℕ
max_log_backups = 3

pub record Disk : Type 0 where
  pub files : ℕ → Option Bytes
  pub handle : Option ℕ

-- What the file system lets happen: whether a rename of that file succeeds, whether a new log can be
-- opened, and where a write fails, none if it does not: after so many bytes, which are then in the file.
pub record System : Type 0 where
  pub renames : ℕ → Bool
  pub opens : Bool
  pub fails_after : Option ℕ

abbrev set_file : ℕ → Option Bytes → (ℕ → Option Bytes) → ℕ → Option Bytes
set_file n content files k = if k == n then content else files k

-- Where a handle stands after a rename of a file over another.
abbrev pub follow : ℕ → ℕ → Option ℕ → Option ℕ
follow from to none = none
follow from to (some h) = if h == from then some to else if h == to then none else some h

abbrev rename_existing : Bool → ℕ → ℕ → Option Bytes → Disk → Disk
rename_existing true from to (some content) d = record {
  files = set_file from none (set_file to (some content) d.files);
  handle = follow from to d.handle;
}
rename_existing true from to none d = d
rename_existing false from to content d = d

abbrev rename : System → ℕ → ℕ → Disk → Disk
rename sys from to d = rename_existing (sys.renames from) from to (d.files from) d

-- `(1..MAX_LOG_BACKUPS).rev()`, from the number of backups left to shift.
unfoldable shift_backups : System → ℕ → Disk → Disk
shift_backups sys zero d = d
shift_backups sys (suc n) d = shift_backups sys n (rename sys (suc n) (suc n + 1) d)

-- The renames of `rotate`; the fresh log is opened behind them.
unfoldable pub rotate_names : System → Disk → Disk
unfolding shift_backups
rotate_names sys d = rename sys 0 1 (shift_backups sys 2 d)

abbrev open_fresh : Disk → Disk
open_fresh d = record { files = set_file 0 (some []) d.files; handle = some 0 }

-- What a write gets into the file.
abbrev pub written : Option ℕ → Bytes → Bytes
written none bytes = bytes
written (some n) bytes = take n bytes

-- The logger's counter beside its files.
pub record Logger : Type 0 where
  pub disk : Disk
  pub bytes_written : ℕ

-- The log is opened for appending, and the counter begins with its size.
unfoldable pub open_log : (ℕ → Option Bytes) → Logger
open_log files = record {
  disk = record { files = set_file 0 (some (unwrap_or (files 0) [])) files; handle = some 0 };
  bytes_written = length (unwrap_or (files 0) []);
}

abbrev append_at : Option ℕ → Bytes → Disk → Disk
append_at none bytes d = d
append_at (some k) bytes d = record d {
  files = set_file k (some (unwrap_or (d.files k) [] ++ bytes)) d.files;
}

abbrev pub append : Bytes → Disk → Disk
append bytes d = append_at d.handle bytes d

-- A rotation, or the line that tells of its failure, where the counter is at the limit.
unfoldable pub rotate_if_full : System → Bytes → Logger → Logger
unfolding rotate_names
rotate_if_full sys complaint l =
    let renamed = rotate_names sys l.disk in
    if leb max_log_bytes l.bytes_written
    then (if sys.opens
        then record { disk = open_fresh renamed; bytes_written = 0 }
        else record l { disk = append (written sys.fails_after complaint) renamed })
    else l

-- The counter goes on where the whole line was written.
abbrev pub count_line : Option ℕ → Bytes → ℕ → ℕ
count_line none line n = n + length line
count_line (some k) line n = n

abbrev pub write_line : System → Bytes → Logger → Logger
write_line sys line l = record {
  disk = append (written sys.fails_after line) l.disk;
  bytes_written = count_line sys.fails_after line l.bytes_written;
}

pub data Level : Type 0 where
  error warn info debug trace : Level

abbrev pub enabled : Level → Bool
enabled error = true
enabled warn = true
enabled info = true
enabled debug = false
enabled trace = false

-- The line is the timestamp, the level and the message; `complaint` is the line of a failed rotation.
unfoldable pub log : System → Bytes → Level → Bytes → Logger → Logger
log sys complaint level line l =
    if enabled level then write_line sys line (rotate_if_full sys complaint l) else l
