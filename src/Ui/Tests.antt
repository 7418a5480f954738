-- ===== src/Ui/Tests.antt =====
-- A window on which the theorems of ui/controller.rs are applied.
use ferro_vela.Prelude.{◌≤◌, ◌≡◌, refl, inl, inr, true, false, none, some, [], ◌∷◌, arith, All}
use ferro_vela.Text.{Str, codes, str_eq, str_eq_iff, is_empty, str_len}
use ferro_vela.Ui.Desktop.{
  close_window, remove_socket, exit_program, ask_position, snap_to_end, unminimize, gain_focus,
  Desktop,
}
use ferro_vela.Ui.{
  allow_private_ips_toggled, ConfigEditor, WindowId, Point, Message, open_logs, open_logs_at, tick,
  external, window_closed, window_close_requested, id_captured, log_search_changed, light, dark,
  advanced_unlock_requested, proxy_tab, ntlm_auth, basic_auth, running, auth_type_from,
  tab_selected, proxy_port_changed, advanced_tab,
}
use ferro_vela.Ui.Locked.{SomeSends}
use ferro_vela.Ui.View.{view}
use ferro_vela.Ui.Closing.{closing_logs, closing_logs-exits, hear_events}
use ferro_vela.Ui.Forms.{validate_listen_ip, hosts_of, validate_proxy_url, port_of, validate_port}
use ferro_vela.Config.{Config}
use ferro_vela.Config.Exceptions.{new}
use ferro_vela.Ui.Update.{update}
use ferro_vela.Ui.Ports.{validate_port-port_of}
use ferro_vela.Ui.Saves.{update-IsSaved, IsSaved}
use ferro_vela.Ui.Lock.{IsLockedAway, update-IsLockedAway}
use ferro_vela.Text.Number.{parse_uint, max_u16}

abbrev pub quiet_desktop : Desktop
quiet_desktop = record {
  exists = λ p. true;
  now = 7;
  is_running = true;
  start = λ before. none;
  stop = λ before. none;
  prefers_dark = false;
  log_file = none;
  new_window = 5;
}

abbrev pub window : ConfigEditor
window = record {
  active_tab = advanced_tab;
  proxy_port = codes "3128";
  pac_file = [];
  allow_private_ips = false;
  proxy_listen_ip = [];
  proxy_listen_ip_error = none;
  advanced_unlocked = false;
  upstream_auth_type = basic_auth;
  upstream_username = codes " ada";
  upstream_password = codes "pw";
  upstream_use_keyring = true;
  upstream_domain = [];
  upstream_workstation = [];
  upstream_proxy_url = codes "http://proxy:3128";
  exceptions_hosts = codes "localhost, *.corp,";
  status = [];
  status_is_error = false;
  status_timestamp = none;
  proxy_port_error = none;
  pac_file_error = none;
  upstream_proxy_url_error = none;
  service_status = running;
  restart_needed = false;
  appearance = light;
  show_logs = false;
  log_content = [];
  log_search = [];
  main_window_id = some 1;
  log_window_id = none;
}

update-IsSaved_example :
    All
      (IsSaved (update quiet_desktop (proxy_port_changed (codes "8080")) window).0)
      (update quiet_desktop (proxy_port_changed (codes "8080")) window).1
update-IsSaved_example = update-IsSaved quiet_desktop (proxy_port_changed (codes "8080")) window

update-IsLockedAway_example : IsLockedAway (update quiet_desktop (tab_selected proxy_tab) window).0
update-IsLockedAway_example =
    update-IsLockedAway quiet_desktop (tab_selected proxy_tab) window tt (λ u. refl)

validate_port-port_of_example :
    (1 ≤ port_of (codes "8080"))
    × (port_of (codes "8080") ≤ 65535)
    × (parse_uint max_u16 (codes "8080") ≡ some (port_of (codes "8080")))
unfolding validate_port ferro_vela.Text.Split.trim parse_uint
validate_port-port_of_example = validate_port-port_of (codes "8080") refl (refl, refl)

fields_are_checked :
    (validate_port (codes "0") ≡ some (codes "Must be between 1 and 65535"))
    × (validate_proxy_url (codes "proxy:3128") ≡ some (codes "Must start with http:// or https://"))
    × (validate_listen_ip (codes " 127.0.0.1 ") ≡ none)
    × (hosts_of window.exceptions_hosts ≡ codes "localhost" ∷ codes "*.corp" ∷ [])
    × (auth_type_from (codes "ntlm") ≡ ntlm_auth)
unfolding validate_port ferro_vela.Text.Split.trim parse_uint validate_proxy_url validate_listen_ip
    ferro_vela.Net.parse_ip hosts_of auth_type_from
fields_are_checked = (refl, refl, refl, refl, refl)

-- The log window is asked to close and loses the focus before it is gone.
abbrev with_logs : ConfigEditor
with_logs = record window { log_window_id = some 2; show_logs = true }

closing_logs-exits_example :
    ((hear_events quiet_desktop 2 closing_logs with_logs).1
      ≡ close_window 2 ∷ remove_socket ∷ exit_program ∷ [])
    × ((hear_events quiet_desktop 2 closing_logs with_logs).0.main_window_id ≡ none)
closing_logs-exits_example =
    closing_logs-exits quiet_desktop 2 1 with_logs refl refl (λ q. absurd (omega arith))

closed_at_once :
    (update quiet_desktop
      (window_closed 2)
      (update quiet_desktop (window_close_requested 2) with_logs).0).1
    ≡ []
unfolding update ferro_vela.Ui.Windows.handle_window_message ferro_vela.Ui.Windows.on_closed
    ferro_vela.Ui.Windows.on_close_requested
closed_at_once = refl

logs_are_opened :
    ((update quiet_desktop open_logs window).1 ≡ ask_position 1 ∷ [])
    × ((update quiet_desktop (open_logs_at none) window).0.log_window_id ≡ some 5)
    × ((update quiet_desktop tick with_logs).1 ≡ snap_to_end ∷ [])
    × ((update quiet_desktop external window).1 ≡ unminimize 1 ∷ gain_focus 1 ∷ [])
unfolding update ferro_vela.Ui.Windows.handle_window_message ferro_vela.Ui.Windows.start_log_window
    ferro_vela.Ui.Windows.load_logs
logs_are_opened = (refl, refl, refl, refl)

abbrev office : Config
office = record {
  proxy = record {
    port = 8080;
    pac_file = some (codes "http://wpad/wpad.dat");
    allow_private_ips = true;
    listen_ip = codes "127.0.0.1";
  };
  upstream = some (record {
    auth_type = codes "ntlm";
    username = some (codes "ada");
    password = some (codes "pw");
    use_keyring = true;
    domain = some (codes "CORP");
    workstation = none;
    proxy_url = some (codes "http://proxy:3128");
  });
  exceptions = some (new (codes "localhost" ∷ codes "*.corp" ∷ []));
}

abbrev unlocked_window : ConfigEditor
unlocked_window = record window { advanced_unlocked = true }

-- The twelfth widget of the Advanced tab is the check box.
box_sends : SomeSends (view (λ s. s) unlocked_window 1) (allow_private_ips_toggled true)
unfolding view ferro_vela.Ui.View.view_advanced_config
box_sends = inr (inr (inr (inr (inr (inr (inr (inr (inr (inr (inr (inl (true, refl))))))))))))
