-- ===== src/Logger/Rotation.antt =====
-- What a rotation keeps, and how long the log gets.
use ferro_vela.Prelude.{
  ℕ, ◌+◌, ◌≤◌, ◌≡◌, refl, inl, inr, true, false, Option, none, some, [], ◌++◌, arith, leb,
  Bool-cases, length, take, unwrap_or, length-append,
}
use ferro_vela.Logger.Files.{
  append, rotate_if_full, enabled, open_log, write_line, max_log_bytes, log, Logger, Level,
  rotate_names, Disk, System,
}
use ferro_vela.Text.Utf8.{Bytes}

abbrev or_else : Option Bytes → Option Bytes → Option Bytes
or_else none old = old
or_else (some content) old = some content

-- A file system on which every rename and every opening succeeds.
pub record Healthy (sys : System) : Type 0 where
  pub renames : (n : ℕ) → sys.renames n ≡ true
  pub opens : sys.opens ≡ true

-- The names after the renames of a rotation: the log and the backups 1 and 2 are each one name
-- further, and the oldest backup is kept where nothing takes its name.
abbrev pub IsShifted : System → Disk → Bytes → Type 0
IsShifted sys d current =
    ((rotate_names sys d).files 0 ≡ none)
    × ((rotate_names sys d).files 1 ≡ some current)
    × ((rotate_names sys d).files 2 ≡ d.files 1)
    × ((rotate_names sys d).files 3 ≡ or_else (d.files 2) (d.files 3))

module _ (sys : System) (d : Disk) (current : Bytes) (healthy : Healthy sys)
    (exists : d.files 0 ≡ some current) where
  by_backups :
      (first second : Option Bytes)
      → d.files 1 ≡ first
      → d.files 2 ≡ second
      → IsShifted sys d current
  unfolding rotate_names
  by_backups none none e1 e2 =
      rw (healthy.renames 2, e2, healthy.renames 1, e1, healthy.renames 0, exists)
        (refl, refl, e2, refl)
  by_backups none (some b) e1 e2 =
      rw (healthy.renames 2, e2, healthy.renames 1, e1, healthy.renames 0, exists)
        (refl, refl, refl, refl)
  by_backups (some a) none e1 e2 =
      rw (healthy.renames 2, e2, healthy.renames 1, e1, healthy.renames 0, exists)
        (refl, refl, refl, refl)
  by_backups (some a) (some b) e1 e2 =
      rw (healthy.renames 2, e2, healthy.renames 1, e1, healthy.renames 0, exists)
        (refl, refl, refl, refl)

  -- Where the renames succeed, a rotation of an existing log keeps the text of every file but of the
  -- oldest backup: the log becomes backup 1, backup 1 becomes 2, and 2 becomes 3 where it exists.
  pub rotate_names-IsShifted : IsShifted sys d current
  rotate_names-IsShifted = by_backups (d.files 1) (d.files 2) refl refl

below_limit : (n : ℕ) → leb max_log_bytes n ≡ false → n ≤ max_log_bytes
below_limit n h = ground arith

-- The handle is on the log, whose size is the counter's and at most this bound.
pub record IsSized (bound : ℕ) (l : Logger) : Type 0 where
  pub content : Bytes
  pub at_log : l.disk.handle ≡ some 0
  pub file : l.disk.files 0 ≡ some content
  pub counted : length content ≡ l.bytes_written
  pub small : l.bytes_written ≤ bound

rotated-IsSized :
    (sys : System) (complaint : Bytes) (bound : ℕ) (l : Logger)
    → sys.opens ≡ true
    → IsSized bound l
    → IsSized max_log_bytes (rotate_if_full sys complaint l)
unfolding rotate_if_full
rotated-IsSized sys complaint bound l healthy s =
    elim (Bool-cases (leb max_log_bytes l.bytes_written)) [
      | inl full ↦
          rw (full, healthy)
            (record {
              content = [];
              at_log = refl;
              file = refl;
              counted = refl;
              small = omega arith;
            })
      | inr free ↦ rw free (record {
        content = s.content;
        at_log = s.at_log;
        file = s.file;
        counted = s.counted;
        small = below_limit l.bytes_written free;
      })
    ]

written-IsSized :
    (sys : System) (line : Bytes) (bound most : ℕ) (l : Logger)
    → sys.fails_after ≡ none
    → length line ≤ most
    → IsSized bound l
    → IsSized (bound + most) (write_line sys line l)
written-IsSized sys line bound most l whole fits s =
    rw (whole, write_line)
      (record {
        content = s.content ++ line;
        at_log = rw (s.at_log, append) refl;
        file = rw (s.at_log, append) (rw s.file refl);
        counted = omega (arith, length-append s.content line, s.counted);
        small = omega (arith, s.small);
      })

-- After a write that fails behind some bytes the counter is less than the size of the log.
written_partly :
    (sys : System) (line : Bytes) (n bound : ℕ) (l : Logger) (s : IsSized bound l)
    → sys.fails_after ≡ some n
    → ((write_line sys line l).disk.files 0 ≡ some (s.content ++ take n line))
      × ((write_line sys line l).bytes_written ≡ l.bytes_written)
written_partly sys line n bound l s partly =
    rw (partly, write_line) (rw (s.at_log, append) (rw s.file refl), refl)

-- Opening the logger takes the size of the log for the counter.
open_log-IsSized :
    (files : ℕ → Option Bytes) → IsSized (length (unwrap_or (files 0) [])) (open_log files)
unfolding open_log
open_log-IsSized files = record {
  content = unwrap_or (files 0) [];
  at_log = refl;
  file = refl;
  counted = refl;
  small = omega arith;
}

-- Where a new log can be opened, the writes succeed, and no line is longer than a number of bytes, a log that is at most
-- this much over 10 MiB stays so with every line, and the counter stays the size of the log.
pub log-IsSized :
    (sys : System) (complaint line : Bytes) (level : Level) (most : ℕ) (l : Logger)
    → sys.opens ≡ true
    → sys.fails_after ≡ none
    → length line ≤ most
    → IsSized (max_log_bytes + most) l
    → IsSized (max_log_bytes + most) (log sys complaint level line l)
unfolding log
log-IsSized sys complaint line level most l healthy whole fits s =
    elim (Bool-cases (enabled level)) [
      | inl on ↦ rw on (
          written-IsSized sys line max_log_bytes most (rotate_if_full sys complaint l) whole fits
            (rotated-IsSized sys complaint (max_log_bytes + most) l healthy s))
      | inr off ↦ rw off s
    ]
