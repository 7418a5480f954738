-- ===== src/Ui/Update.antt =====
-- `update`, `handle_config_message`, `save_current_config`, `sync_keyring` and the service handlers of
-- ui/controller.rs.
use ferro_vela.Prelude.{
  ℕ, ◌-◌, Bool, true, false, not, ◌&&◌, ◌||◌, Option, none, some, List, [], ◌∷◌, ◌++◌, leb,
  if◌then◌else◌, is_some,
}
use ferro_vela.Text.{Str, codes, is_empty}
use ferro_vela.Ui.Desktop.{
  Effect, stop_service, start_service, Step, Desktop, save, set_password, delete_credential,
  ask_unlock,
}
use ferro_vela.Ui.{
  log_search_changed, open_logs, open_logs_at, tick, external, window_closed,
  window_close_requested, id_captured, light, dark, tab_selected, advanced_tab,
  upstream_workstation_changed, stopped, upstream_auth_type_changed, upstream_use_keyring_toggled,
  upstream_proxy_url_changed, upstream_username_changed, ConfigEditor, pac_file_changed,
  upstream_password_changed, restart_service, Message, Tab, proxy_port_changed,
  advanced_unlock_requested, poll_status, is_no_auth, upstream_domain_changed, ServiceStatus,
  running, advanced_unlock_result, exceptions_hosts_changed, allow_private_ips_toggled,
  proxy_listen_ip_changed, toggle_service,
}
use ferro_vela.Ui.Windows.{handle_window_message}
use ferro_vela.Ui.Forms.{
  validate_listen_ip, validate_pac_file, validate_proxy_url, build_config, validate_port,
}
use ferro_vela.Text.Split.{trim}

abbrev say : Desktop → Bool → Str → ConfigEditor → ConfigEditor
say desktop is_error text e = record e {
  status = text;
  status_is_error = is_error;
  status_timestamp = some desktop.now;
}

abbrev pub is_running_status : ServiceStatus → Bool
is_running_status running = true
is_running_status stopped = false

unfoldable pub has_validation_errors : ConfigEditor → Bool
has_validation_errors e =
    is_some e.proxy_port_error
    || is_some e.pac_file_error
    || is_some e.upstream_proxy_url_error
    || is_some e.proxy_listen_ip_error

unfoldable pub sync_keyring : ConfigEditor → List Effect
unfolding trim
sync_keyring e =
    let username = trim e.upstream_username in
    let password = trim e.upstream_password in
    if is_empty username
    then []
    else if e.upstream_use_keyring
    then (if is_empty password then [] else set_password username password ∷ [])
    else delete_credential username ∷ []

unfoldable pub save_current_config : Desktop → ConfigEditor → Step
unfolding sync_keyring
save_current_config desktop e = (
  say desktop false (codes "Saved successfully!") (record e {
    restart_needed = if is_running_status e.service_status then true else e.restart_needed;
  }),
  save (build_config e) ∷ sync_keyring e,
)

-- The field that a message changes, with its validation; none for the other messages.
unfoldable pub set_field : Desktop → Message → ConfigEditor → Option ConfigEditor
set_field desktop (proxy_port_changed v) e =
    some (record e { proxy_port_error = validate_port v; proxy_port = v })
set_field desktop (pac_file_changed v) e =
    some (record e { pac_file_error = validate_pac_file desktop.exists v; pac_file = v })
set_field desktop (upstream_auth_type_changed v) e = some (record e {
  upstream_auth_type = v;
  upstream_proxy_url_error = if is_no_auth v then none else e.upstream_proxy_url_error;
})
set_field desktop (upstream_proxy_url_changed v) e =
    some (record e { upstream_proxy_url_error = validate_proxy_url v; upstream_proxy_url = v })
set_field desktop (upstream_username_changed v) e = some (record e { upstream_username = v })
set_field desktop (upstream_password_changed v) e = some (record e { upstream_password = v })
set_field desktop (upstream_use_keyring_toggled v) e = some (record e { upstream_use_keyring = v })
set_field desktop (upstream_domain_changed v) e = some (record e { upstream_domain = v })
set_field desktop (upstream_workstation_changed v) e = some (record e { upstream_workstation = v })
set_field desktop (exceptions_hosts_changed v) e = some (record e { exceptions_hosts = v })
set_field desktop (allow_private_ips_toggled v) e = some (record e { allow_private_ips = v })
set_field desktop (proxy_listen_ip_changed v) e =
    some (record e { proxy_listen_ip_error = validate_listen_ip v; proxy_listen_ip = v })
set_field desktop _ e = none

-- A changed form is saved if no field has an error.
abbrev pub save_if_valid : Desktop → ConfigEditor → Step
save_if_valid desktop e =
    if has_validation_errors e
    then (say desktop true (codes "Invalid input — settings not saved.") e, [])
    else save_current_config desktop e

abbrev pub changed_form : Desktop → ConfigEditor → Option ConfigEditor → Step
changed_form desktop e none = (e, [])
changed_form desktop e (some changed) = save_if_valid desktop changed

unfoldable pub handle_config_message : Desktop → Message → ConfigEditor → Step
unfolding set_field
handle_config_message desktop message e = changed_form desktop e (set_field desktop message e)

abbrev pub after_call :
    Desktop → Option Str → ServiceStatus → Str → Str → ConfigEditor → ConfigEditor
after_call desktop none reached success failure e =
    say desktop false success (record e { service_status = reached; restart_needed = false })
after_call desktop (some reason) reached success failure e = say desktop true (failure ++ reason) e

unfoldable pub handle_toggle_service : Desktop → Bool → ConfigEditor → Step
handle_toggle_service desktop true e = (
  after_call desktop (desktop.start []) running (codes "Service started.")
      (codes "Failed to start: ") e,
  start_service ∷ [],
)
handle_toggle_service desktop false e = (
  after_call desktop (desktop.stop []) stopped (codes "Service stopped.") (codes "Failed to stop: ")
      e,
  stop_service ∷ [],
)

abbrev started_again : Desktop → Option Str → ConfigEditor → ConfigEditor
started_again desktop none e = after_call desktop none running (codes "Service restarted.") [] e
started_again desktop (some reason) e =
    record (say desktop true (codes "Failed to restart: " ++ reason) e) { service_status = stopped }

-- What a restart makes of the end of its stop.
abbrev pub restarted : Desktop → Option Str → ConfigEditor → Step
restarted desktop (some reason) e =
    (say desktop true (codes "Failed to stop service: " ++ reason) e, stop_service ∷ [])
restarted desktop none e =
    (started_again desktop (desktop.start (stop_service ∷ [])) e, stop_service ∷ start_service ∷ [])

unfoldable pub handle_restart_service : Desktop → ConfigEditor → Step
handle_restart_service desktop e = restarted desktop (desktop.stop []) e

abbrev pub is_advanced : Tab → Bool
is_advanced advanced_tab = true
is_advanced _ = false

unfoldable pub select_tab : Tab → ConfigEditor → ConfigEditor
select_tab tab e = record e {
  advanced_unlocked =
      if is_advanced e.active_tab && not (is_advanced tab) then false else e.advanced_unlocked;
  active_tab = tab;
}

unfoldable pub request_unlock : ConfigEditor → Step
request_unlock e =
    if e.advanced_unlocked
    then (record e { advanced_unlocked = false }, [])
    else (e, ask_unlock ∷ [])

unfoldable pub unlock_result : Desktop → Bool → ConfigEditor → ConfigEditor
unlock_result desktop ok e =
    let answered = record e { advanced_unlocked = ok } in
    if ok then answered else say desktop false (codes "Unlock cancelled.") answered

-- The status line is cleared three seconds after it was set.
abbrev pub cleared : Desktop → Option ℕ → ConfigEditor → ConfigEditor
cleared desktop none e = e
cleared desktop (some since) e =
    if leb 3 (desktop.now - since) then record e { status = []; status_timestamp = none } else e

unfoldable pub poll : Desktop → ConfigEditor → ConfigEditor
poll desktop e = cleared desktop e.status_timestamp (record e {
  service_status = if desktop.is_running then running else stopped;
  appearance = if desktop.prefers_dark then dark else light;
})

unfoldable pub update : Desktop → Message → ConfigEditor → Step
unfolding select_tab request_unlock unlock_result handle_toggle_service handle_restart_service poll
update desktop (tab_selected tab) e = (select_tab tab e, [])
update desktop advanced_unlock_requested e = request_unlock e
update desktop (advanced_unlock_result ok) e = (unlock_result desktop ok e, [])
update desktop (toggle_service start) e = handle_toggle_service desktop start e
update desktop restart_service e = handle_restart_service desktop e
update desktop poll_status e = (poll desktop e, [])
update desktop (log_search_changed v) e = (record e { log_search = v }, [])
update desktop open_logs e = handle_window_message desktop open_logs e
update desktop (open_logs_at pos) e = handle_window_message desktop (open_logs_at pos) e
update desktop tick e = handle_window_message desktop tick e
update desktop external e = handle_window_message desktop external e
update desktop (window_close_requested id) e =
    handle_window_message desktop (window_close_requested id) e
update desktop (window_closed id) e = handle_window_message desktop (window_closed id) e
update desktop (id_captured id) e = handle_window_message desktop (id_captured id) e
update desktop message e = handle_config_message desktop message e
