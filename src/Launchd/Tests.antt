-- ===== src/Launchd/Tests.antt =====
-- A system where the service is registered already and comes up at the second look.
use ferro_vela.Prelude.{
  ℕ, ◌≡◌, refl, ◌↔◌, true, false, not, Option, none, some, [], ◌∷◌, ◌++◌, ◌==◌, if◌then◌else◌,
  length, all,
}
use ferro_vela.Text.{Str, codes, str_eq, str_eq_iff, is_empty, str_len, is_whitespace}
use ferro_vela.Launchd.{
  proxy_exe, home, log_path, plist_path, replace, service_label, xml_escape, plist_text, Output, Os,
  ok, err, generate_plist, launchctl, make_dir, write_file, sleep, Action, History, no_proxy_binary,
  ui_socket_path,
}
use ferro_vela.Text.Match.{ends_with, contains, starts_with, strip_prefix}
use ferro_vela.Text.Utf8.{from_utf8_lossy}
use ferro_vela.Text.Number.{parse_uint, to_string}
use ferro_vela.Text.Split.{lines, rsplit_once, trim}
use ferro_vela.Launchd.Control.{
  start, stop, is_running, ◌>>◌, ◌>>=◌, install, lift, act, outcome_or_err, bootstrap,
  run_launchctl, output_or_err, check_bootstrap, rebootstrap, bootout_service, check_rebootstrap,
  clear_stale, kickstart, pid, pid_in_line, pid_in_lines, verify_alive, wait_for_pid,
}
use ferro_vela.Launchd.Escape.{unescape, unescape-xml_escape, is_markup}
use ferro_vela.Launchd.Phases.{Started, start_iff}
use ferro_vela.Launchd.Stops.{stop-mistaken}

escaped_path : xml_escape (codes "/a&b<c>\"d\"/x") ≡ codes "/a&amp;b&lt;c&gt;&quot;d&quot;/x"
unfolding xml_escape
escaped_path = refl

unescape-xml_escape_example :
    (unescape (xml_escape (codes "/Apps/R&D <beta>/ferrovela"))
      ≡ codes "/Apps/R&D <beta>/ferrovela")
    × (all (λ d. not (is_markup d)) (xml_escape (codes "/Apps/R&D <beta>/ferrovela")) ≡ true)
unescape-xml_escape_example = unescape-xml_escape (codes "/Apps/R&D <beta>/ferrovela")

abbrev succeeded : Str → Output
succeeded text = record { success = true; stdout = codes "" ++ text; stderr = [] }

abbrev failed : Str → Output
failed text = record { success = false; stdout = []; stderr = text }

-- The answer by the number of actions so far.
abbrev reply : ℕ → Option Output
reply n =
    if n == 3
    then some (failed (codes "Bootstrap failed: 37: Operation already in progress"))
    else if n == 7
    then some (failed (codes "Could not find service"))
    else if n == 9
    then some (succeeded (codes "\tstate = running\n\tpid = 4711\n"))
    else some (succeeded [])

abbrev pub desk : Os
desk = record {
  home_var = some (codes "/Users/ada");
  tmpdir = none;
  current_exe = some (codes "/Apps/ui");
  exists = λ p. str_eq p (codes "/Apps/ferrovela");
  uid = 501;
  outcome = λ h. true;
  output = λ h. reply (length h);
}

abbrev plist : Str
plist = plist_text (codes "/Apps/ferrovela") (codes "/Users/ada/Library/Logs/ferrovela.log")

plist_generated : generate_plist desk ≡ ok plist
unfolding generate_plist proxy_exe str_eq ends_with log_path
plist_generated = refl

abbrev print_command : Action
print_command = launchctl (codes "print" ∷ codes "gui/501/com.ictcloud.ferrovela" ∷ [])

abbrev bootstrap_command : Action
bootstrap_command = launchctl (
    codes "bootstrap"
    ∷ codes "gui/501"
    ∷ codes "/Users/ada/Library/LaunchAgents/com.ictcloud.ferrovela.plist"
    ∷ [])

abbrev pub whole_start : History
whole_start =
    make_dir (codes "/Users/ada/Library/LaunchAgents")
    ∷ write_file (codes "/Users/ada/Library/LaunchAgents/com.ictcloud.ferrovela.plist") plist
    ∷ bootstrap_command
    ∷ launchctl (codes "bootout" ∷ codes "gui/501/com.ictcloud.ferrovela" ∷ [])
    ∷ bootstrap_command
    ∷ launchctl (codes "kickstart" ∷ codes "gui/501/com.ictcloud.ferrovela" ∷ [])
    ∷ print_command
    ∷ sleep 50
    ∷ print_command
    ∷ []

pub start_runs : start desk [] ≡ (ok tt, whole_start)
unfolding start ◌>>◌ ◌>>=◌ install lift generate_plist proxy_exe str_eq ends_with act outcome_or_err
    bootstrap run_launchctl output_or_err check_bootstrap contains from_utf8_lossy rebootstrap
    bootout_service check_rebootstrap clear_stale kickstart pid pid_in_line pid_in_lines
    verify_alive wait_for_pid home log_path plist_path plist_text replace service_label xml_escape
    starts_with strip_prefix parse_uint to_string lines rsplit_once trim is_whitespace
start_runs = refl

start_iff_example : (start desk [] ≡ (ok tt, whole_start)) ↔ Started desk [] whole_start
start_iff_example = start_iff desk [] whole_start

no_binary : (start (record desk { current_exe = none }) []).0 ≡ err no_proxy_binary
unfolding start ferro_vela.Launchd.Control.◌>>◌ ferro_vela.Launchd.Control.install
    ferro_vela.Launchd.Control.lift generate_plist ferro_vela.Launchd.proxy_exe
no_binary = refl

socket_without_tmpdir :
    (ui_socket_path desk []).0
    ≡ codes
        "/Users/ada/Library/Application Support/com.ictcloud.ferrovela/com.ictcloud.ferrovela.sock"
unfolding ui_socket_path ferro_vela.Text.Match.ends_with
socket_without_tmpdir = refl

not_running : is_running desk [] ≡ (false, print_command ∷ [])
unfolding is_running lines from_utf8_lossy
not_running = refl

-- Another failure of launchctl than error 3.
abbrev refusing : Os
refusing = record desk { output = λ h. some (failed (codes "Boot-out failed: 133: refused")) }

code_13_stops : (stop refusing []).0 ≡ ok tt
unfolding ferro_vela.Text.Utf8.from_utf8_lossy
code_13_stops =
    stop-mistaken refusing [] (failed (codes "Boot-out failed: 133: refused"))
      (codes "Boot-out failed: 13") (codes " refused") refl refl refl
