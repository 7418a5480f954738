-- ===== src/Ui/Startup.antt =====
-- `new_args` of ui/controller.rs: the editor that the program starts with.
use ferro_vela.Prelude.{
  Bool, true, false, Option, none, some, List, [], ◌∷◌, ◌++◌, if◌then◌else◌, unwrap_or,
}
use ferro_vela.Text.{Str}
use ferro_vela.Ui.{
  ConfigEditor, light, dark, proxy_tab, stopped, running, AuthType, no_auth, auth_type_from,
}
use ferro_vela.Ui.Desktop.{Desktop, Effect, open_main_window}
use ferro_vela.Ui.Forms.{validate_listen_ip, validate_port, validate_pac_file, validate_proxy_url}
use ferro_vela.Text.Number.{to_string}
use ferro_vela.Config.{Config, UpstreamConfig, ExceptionsConfig}

-- `hosts.join(", ")`.
unfoldable pub join_hosts : List Str → Str
join_hosts [] = []
join_hosts (h ∷ []) = h
join_hosts (h ∷ (k ∷ hs)) = h ++ (b',' ∷ (b' ' ∷ join_hosts (k ∷ hs)))

abbrev pub text_or_empty : Option Str → Str
text_or_empty o = unwrap_or o []

abbrev pub and_then : Option Str → (Str → Option Str) → Option Str
and_then none f = none
and_then (some s) f = f s

-- A field of the upstream, empty without one.
abbrev pub upstream_text : (UpstreamConfig → Option Str) → Option UpstreamConfig → Str
upstream_text field none = []
upstream_text field (some u) = text_or_empty (field u)

abbrev pub auth_of : Option UpstreamConfig → AuthType
auth_of none = no_auth
auth_of (some u) = auth_type_from u.auth_type

abbrev pub keyring_of : Option UpstreamConfig → Bool
keyring_of none = true
keyring_of (some u) = u.use_keyring

abbrev pub hosts_text : Option ExceptionsConfig → Str
hosts_text none = []
hosts_text (some e) = join_hosts e.hosts

abbrev url_error : Option UpstreamConfig → Option Str
url_error none = none
url_error (some u) = and_then u.proxy_url validate_proxy_url

unfoldable pub new_args : Desktop → Config → ConfigEditor × List Effect
new_args desktop config = (
  record {
    active_tab = proxy_tab;
    proxy_port = to_string config.proxy.port;
    pac_file = text_or_empty config.proxy.pac_file;
    allow_private_ips = config.proxy.allow_private_ips;
    proxy_listen_ip = config.proxy.listen_ip;
    proxy_listen_ip_error = validate_listen_ip config.proxy.listen_ip;
    advanced_unlocked = false;
    upstream_auth_type = auth_of config.upstream;
    upstream_username = upstream_text (λ u. u.username) config.upstream;
    upstream_password = upstream_text (λ u. u.password) config.upstream;
    upstream_use_keyring = keyring_of config.upstream;
    upstream_domain = upstream_text (λ u. u.domain) config.upstream;
    upstream_workstation = upstream_text (λ u. u.workstation) config.upstream;
    upstream_proxy_url = upstream_text (λ u. u.proxy_url) config.upstream;
    exceptions_hosts = hosts_text config.exceptions;
    status = [];
    status_is_error = false;
    status_timestamp = none;
    proxy_port_error = validate_port (to_string config.proxy.port);
    pac_file_error = and_then config.proxy.pac_file (validate_pac_file desktop.exists);
    upstream_proxy_url_error = url_error config.upstream;
    service_status = if desktop.is_running then running else stopped;
    restart_needed = false;
    appearance = if desktop.prefers_dark then dark else light;
    show_logs = false;
    log_content = [];
    log_search = [];
    main_window_id = some desktop.new_window;
    log_window_id = none;
  },
  open_main_window desktop.new_window ∷ [],
)
