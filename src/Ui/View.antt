-- ===== src/Ui/View.antt =====
-- crates/ferrovela-ui/src/ui/view.rs: what the windows show and which messages their widgets send, in
-- order. Sizes, spaces, boxes and icons are left out.
use ferro_vela.Prelude.{
  Bool, true, false, not, ◌&&◌, none, some, List, [], ◌∷◌, ◌++◌, if◌then◌else◌, is_some,
}
use ferro_vela.Text.{Str, codes, is_empty}
use ferro_vela.Ui.Widgets.{
  Widget, rgb, plain, style_if, sidebar_button, field_row, validated_field_row, log_line_color,
  is_dark, handler, caption, press, input, check, toggle, choice, secondary, danger,
}
use ferro_vela.Ui.{
  ConfigEditor, WindowId, AuthType, Tab, proxy_tab, upstream_tab, exceptions_tab, advanced_tab,
  no_auth, kerberos_auth, basic_auth, ntlm_auth, running, stopped, ServiceStatus,
  proxy_port_changed, pac_file_changed, upstream_auth_type_changed, upstream_username_changed,
  upstream_password_changed, upstream_domain_changed, upstream_workstation_changed,
  upstream_proxy_url_changed, upstream_use_keyring_toggled, exceptions_hosts_changed,
  allow_private_ips_toggled, proxy_listen_ip_changed, advanced_unlock_requested, toggle_service,
  restart_service, open_logs, log_search_changed,
}
use ferro_vela.Text.Match.{contains}
use ferro_vela.Text.Split.{lines}
use ferro_vela.Ui.Update.{is_running_status}
use ferro_vela.Ui.Windows.{same_id}

-- `str::to_lowercase` goes by the tables of Unicode, which are a parameter.
module _ (to_lowercase : Str → Str) where
  abbrev pub is_hidden : Str → Str → Bool
  is_hidden query line = not (is_empty query) && not (contains (to_lowercase line) query)

  unfoldable pub log_lines : Str → Bool → List Str → List Widget
  unfolding log_line_color
  log_lines query dark_mode [] = []
  log_lines query dark_mode (line ∷ rest) =
      let shown = log_lines query dark_mode rest in
      if is_hidden query line then shown else caption line (log_line_color line dark_mode) ∷ shown

  unfoldable pub view_logs : ConfigEditor → List Widget
  view_logs e =
      plain "Search:"
      ∷ input (codes "Filter log output…") e.log_search (some log_search_changed)
      ∷ log_lines (to_lowercase e.log_search) (is_dark e.appearance) (lines e.log_content)

unfoldable pub view_proxy_config : ConfigEditor → List Widget
view_proxy_config e =
    plain "Proxy Settings"
    ∷ (validated_field_row (codes "Port:")
          (input (codes "3128") e.proxy_port (some proxy_port_changed)) e.proxy_port_error
        ++ validated_field_row (codes "PAC File:")
            (input (codes "Path or URL to PAC file") e.pac_file (some pac_file_changed))
            e.pac_file_error)

abbrev pub url_row : ConfigEditor → List Widget
url_row e =
    validated_field_row (codes "Proxy URL:")
      (input (codes "http://upstream:port") e.upstream_proxy_url (some upstream_proxy_url_changed))
      e.upstream_proxy_url_error

abbrev pub credential_rows : ConfigEditor → List Widget
credential_rows e =
    field_row (codes "Username:")
      (input (codes "Username") e.upstream_username (some upstream_username_changed))
    ++ (field_row (codes "Password:")
          (input (codes "Password") e.upstream_password (some upstream_password_changed))
        ++ field_row (codes "Store password in system keyring:")
            (check e.upstream_use_keyring (some upstream_use_keyring_toggled)))

abbrev pub domain_rows : ConfigEditor → List Widget
domain_rows e =
    field_row (codes "Domain:")
      (input (codes "Domain") e.upstream_domain (some upstream_domain_changed))
    ++ field_row (codes "Workstation:")
        (input (codes "Workstation") e.upstream_workstation (some upstream_workstation_changed))

abbrev pub auth_rows : AuthType → ConfigEditor → List Widget
auth_rows no_auth e = []
auth_rows kerberos_auth e =
    field_row (codes "Username (Kerberos principal):")
      (input (codes "username@REALM") e.upstream_username (some upstream_username_changed))
    ++ url_row e
auth_rows basic_auth e = credential_rows e ++ url_row e
auth_rows ntlm_auth e = credential_rows e ++ (domain_rows e ++ url_row e)

unfoldable pub view_upstream_config : ConfigEditor → List Widget
view_upstream_config e =
    plain "Upstream Settings"
    ∷ (field_row (codes "Auth Type:") (choice e.upstream_auth_type upstream_auth_type_changed)
        ++ auth_rows e.upstream_auth_type e)

unfoldable pub view_exceptions_config : ConfigEditor → List Widget
view_exceptions_config e =
    plain "Exceptions"
    ∷ field_row (codes "Hosts to bypass proxy (comma separated):")
        (input (codes "localhost, 127.0.0.1") e.exceptions_hosts (some exceptions_hosts_changed))

abbrev pub listen_hint : Bool → List Widget
listen_hint true =
    caption
      (codes
        "Listen IP is ignored unless 'Allow private IPs' is enabled. The proxy will bind to 127.0.0.1.")
      (some (rgb 55 55 55))
    ∷ []
listen_hint false = []

abbrev pub lock_label : Bool → Str
lock_label true = codes "Click to lock"
lock_label false = codes "Click the lock to make changes"

unfoldable pub view_advanced_config : ConfigEditor → List Widget
view_advanced_config e =
    plain "Advanced Settings"
    ∷ press (lock_label e.advanced_unlocked) secondary advanced_unlock_requested
    ∷ (field_row (codes "Allow private IPs (bypass SSRF guard):")
          (check e.allow_private_ips (handler e.advanced_unlocked allow_private_ips_toggled))
        ++ (validated_field_row (codes "Listen IP:")
              (input (codes "127.0.0.1") e.proxy_listen_ip
                (handler (e.advanced_unlocked && e.allow_private_ips) proxy_listen_ip_changed))
              e.proxy_listen_ip_error
            ++ (listen_hint (e.advanced_unlocked && not e.allow_private_ips)
                ++ (caption
                      (codes
                        "Warning: enabling 'Allow private IPs' relaxes the SSRF guard. Setting a non-loopback Listen IP exposes the proxy to the network.")
                      none
                    ∷ []))))

abbrev pub tab_content : Tab → ConfigEditor → List Widget
tab_content proxy_tab e = view_proxy_config e
tab_content upstream_tab e = view_upstream_config e
tab_content exceptions_tab e = view_exceptions_config e
tab_content advanced_tab e = view_advanced_config e

abbrev pub service_control : ServiceStatus → List Widget
service_control running =
    caption (codes "●") (some (rgb 13 62 13)) ∷ plain "Running" ∷ toggle true toggle_service ∷ []
service_control stopped =
    caption (codes "●") (some (rgb 55 55 55)) ∷ plain "Stopped" ∷ toggle false toggle_service ∷ []

abbrev pub status_row : Bool → ConfigEditor → List Widget
status_row true e = []
status_row false e =
    caption e.status (some (if e.status_is_error then rgb 75 10 10 else rgb 10 55 10)) ∷ []

abbrev pub banner : Bool → List Widget
banner true =
    plain "Settings changed — restart required to apply."
    ∷ press (codes "Restart Now") danger restart_service
    ∷ []
banner false = []

abbrev pub sidebar : ConfigEditor → List Widget
sidebar e =
    sidebar_button (codes "Proxy") proxy_tab e.active_tab
    ∷ sidebar_button (codes "Upstream") upstream_tab e.active_tab
    ∷ sidebar_button (codes "Exceptions") exceptions_tab e.active_tab
    ∷ sidebar_button (codes "Advanced") advanced_tab e.active_tab
    ∷ press (codes "Logs") (style_if (is_some e.log_window_id)) open_logs
    ∷ []

unfoldable pub main_view : ConfigEditor → List Widget
main_view e =
    sidebar e
    ++ (service_control e.service_status
        ++ (status_row (is_empty e.status) e
            ++ (banner (e.restart_needed && is_running_status e.service_status)
                ++ tab_content e.active_tab e)))

unfoldable pub view : (Str → Str) → ConfigEditor → WindowId → List Widget
unfolding view_logs main_view
view to_lowercase e window_id =
    if same_id e.log_window_id window_id then view_logs to_lowercase e else main_view e
