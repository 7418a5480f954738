-- ===== src/Launchd/Control.antt =====
-- How the launch agent is started and stopped, by the calls of launchctl in launchd.rs. A step takes all
-- that was done before it and returns it with what it does.
use ferro_vela.Prelude.{
  ℕ, zero, suc, Bool, true, false, ◌||◌, Option, none, some, List, [], ◌∷◌, ◌++◌, ltb,
  if◌then◌else◌, is_some, ◌>>=◌ as ◌>>=?◌,
}
use ferro_vela.Text.{Str, codes}
use ferro_vela.Launchd.{
  Action, make_dir, write_file, launchctl, sleep, History, Output, Os, LaunchError, no_directory,
  no_plist, not_run, exited_immediately, bootstrap_failed, rebootstrap_failed, kickstart_failed,
  bootout_failed, stale_kept, Launched, ok, err, service_label, launch_agents, plist_path,
  generate_plist,
}
use ferro_vela.Text.Match.{contains, strip_prefix}
use ferro_vela.Text.Split.{trim, lines}
use ferro_vela.Text.Number.{parse_uint, max_u32, to_string}
use ferro_vela.Text.Utf8.{from_utf8_lossy}

abbrev pub M : Type 0 → Type 0
M A = History → Launched A × History

abbrev pub bind_result : {A B : Type 0} → (A → M B) → Launched A × History → Launched B × History
bind_result f (ok a, h) = f a h
bind_result f (err e, h) = (err e, h)

infixl 5 ◌>>=◌ ◌>>◌
unfoldable pub ◌>>=◌ : {A B : Type 0} → M A → (A → M B) → M B
◌>>=◌ m f h = bind_result f (m h)

unfoldable pub ◌>>◌ : {B : Type 0} → M (Unit {0}) → M B → M B
unfolding ◌>>=◌
m >> rest = m >>= λ _. rest

unfoldable pub lift : {A : Type 0} → Launched A → M A
lift r h = (r, h)

unfoldable pub output_or_err : Option Output → Launched Output
output_or_err none = err not_run
output_or_err (some out) = ok out

unfoldable pub outcome_or_err : Bool → LaunchError → Launched (Unit {0})
outcome_or_err true e = ok tt
outcome_or_err false e = err e

-- `.map_err(..)?` around `bootout_service`.
abbrev pub map_stale : Launched (Unit {0}) × History → Launched (Unit {0}) × History
map_stale (ok u, h) = (ok u, h)
map_stale (err e, h) = (err (stale_kept e), h)

abbrev pub require_pid : Option ℕ × History → Launched (Unit {0}) × History
require_pid (none, h) = (err exited_immediately, h)
require_pid (some p, h) = (ok tt, h)

-- A look, and what comes of it if it shows nothing.
abbrev pub looked : Option ℕ × History → Option ℕ × History → Option ℕ × History
looked (some p, h) rest = (some p, h)
looked (none, h) rest = rest

-- The first line that is `pid = ` and a positive number.
abbrev pub positive : Option ℕ → Option ℕ
positive none = none
positive (some n) = if ltb 0 n then some n else none

unfoldable pub pid_in_line : Str → Option ℕ
unfolding trim strip_prefix parse_uint
pid_in_line line = positive (strip_prefix (trim line) (codes "pid = ") >>=? parse_uint max_u32)

abbrev pub first_some : Option ℕ → Option ℕ → Option ℕ
first_some (some n) later = some n
first_some none later = later

unfoldable pub pid_in_lines : List Str → Option ℕ
unfolding pid_in_line
pid_in_lines [] = none
pid_in_lines (line ∷ rest) = let later = pid_in_lines rest in first_some (pid_in_line line) later

abbrev pub pid_of : Option Output → Option ℕ
pid_of none = none
pid_of (some out) = if out.success then pid_in_lines (lines (from_utf8_lossy out.stdout)) else none

module _ (os : Os) where
  -- An action of the file system, with the error if it fails.
  unfoldable pub act : Action → LaunchError → M (Unit {0})
  act a e h = let h' = h ++ (a ∷ []) in (outcome_or_err (os.outcome h') e, h')

  unfoldable pub install : M (Unit {0})
  install = do
    plist ← lift (generate_plist os)
    act (make_dir (launch_agents os)) no_directory
    act (write_file (plist_path os) plist) no_plist

  -- `Command::new("launchctl").args(..).output().context(..)?`.
  unfoldable pub run_launchctl : List Str → M Output
  run_launchctl args h = let h' = h ++ (launchctl args ∷ []) in (output_or_err (os.output h'), h')

  abbrev pub target : Str
  target = codes "gui/" ++ to_string os.uid

  abbrev pub service : Str
  service = codes "gui/" ++ (to_string os.uid ++ (b'/' ∷ service_label))

  abbrev pub stderr_of : Output → Str
  stderr_of out = from_utf8_lossy out.stderr

  abbrev pub bootout_result : Output → Launched (Unit {0})
  bootout_result out =
      if out.success
      then ok tt
      else if contains (stderr_of out) (codes "3:")
          || contains (stderr_of out) (codes "No such process")
      then ok tt
      else err (bootout_failed (trim (stderr_of out)))

  unfoldable pub bootout_service : Str → M (Unit {0})
  bootout_service name = do
    out ← run_launchctl (codes "bootout" ∷ name ∷ [])
    lift (bootout_result out)

  -- `pid()`, which runs launchctl.
  unfoldable pub pid : History → Option ℕ × History
  unfolding pid_in_lines service_label to_string
  pid h =
      let h' = h ++ (launchctl (codes "print" ∷ service ∷ []) ∷ []) in (pid_of (os.output h'), h')

  unfoldable pub is_running : History → Bool × History
  unfolding pid
  is_running h = let (p, h') = pid h in (is_some p, h')

  -- The loop of `wait_for_pid`, by the attempts that are left.
  unfoldable pub wait_for_pid : ℕ → ℕ → History → Option ℕ × History
  wait_for_pid zero interval_ms h = (none, h)
  wait_for_pid (suc attempts) interval_ms h =
      let rest = wait_for_pid attempts interval_ms ((pid h).1 ++ (sleep interval_ms ∷ [])) in
      looked (pid h) rest

  abbrev pub bootstrap_args : List Str
  bootstrap_args = codes "bootstrap" ∷ target ∷ (plist_path os) ∷ []

  unfoldable pub check_rebootstrap : Output → M (Unit {0})
  check_rebootstrap out =
      lift (if out.success then ok tt else err (rebootstrap_failed (trim (stderr_of out))))

  unfoldable pub clear_stale : M (Unit {0})
  clear_stale h = map_stale (bootout_service service h)

  unfoldable pub rebootstrap : M (Unit {0})
  rebootstrap = do clear_stale; out2 ← run_launchctl bootstrap_args; check_rebootstrap out2

  unfoldable pub check_bootstrap : Output → M (Unit {0})
  check_bootstrap out =
      if out.success
      then lift (ok tt)
      else if contains (stderr_of out) (codes "37:")
      then rebootstrap
      else lift (err (bootstrap_failed (trim (stderr_of out))))

  -- Phase A of `start`.
  unfoldable pub bootstrap : M (Unit {0})
  bootstrap = do out ← run_launchctl bootstrap_args; check_bootstrap out

  -- Phase B.
  unfoldable pub kickstart : M (Unit {0})
  kickstart = do
    out ← run_launchctl (codes "kickstart" ∷ service ∷ [])
    lift (if out.success then ok tt else err (kickstart_failed (trim (stderr_of out))))

  -- Phase C.
  unfoldable pub verify_alive : M (Unit {0})
  verify_alive h = require_pid (wait_for_pid 10 50 h)

  unfoldable pub start : M (Unit {0})
  start = do install; bootstrap; kickstart; verify_alive

  unfoldable pub stop : M (Unit {0})
  stop = bootout_service service
