-- ===== src/Ui.antt =====
-- The preferences window of crates/ferrovela-ui: the types of ui/model.rs. A window's number stands for
-- its `window::Id`, and a point holds the bits of its two coordinates.
pub mod Forms
pub mod Desktop
pub mod Windows
pub mod Show
pub mod Update
pub mod Startup
pub mod Widgets
pub mod View
pub mod Ports
pub mod Kept
pub mod Plain
pub mod Lock
pub mod FormSpec
pub mod Saves
pub mod Hosts
pub mod Opening
pub mod Locked
pub mod Prompt
pub mod Session
pub mod Service
pub mod Closing
pub mod Shown
pub mod ShownTests
pub mod ServiceTests
pub mod SessionTests
pub mod Tests
use ferro_vela.Prelude.{if◌then◌else◌, false, Option, Bool, true, ℕ}
use ferro_vela.Text.{codes, Str, str_eq}

pub data AuthType : Type 0 where
  no_auth basic_auth ntlm_auth kerberos_auth : AuthType

pub data ServiceStatus : Type 0 where
  stopped running : ServiceStatus

pub data Tab : Type 0 where
  proxy_tab upstream_tab exceptions_tab advanced_tab : Tab

pub data Theme : Type 0 where
  light dark : Theme

abbrev pub WindowId : Type 0
WindowId = ℕ

pub record Point : Type 0 where
  pub x : ℕ
  pub y : ℕ

pub data Message : Type 0 where
  tab_selected : Tab → Message
  proxy_port_changed : Str → Message
  pac_file_changed : Str → Message
  upstream_auth_type_changed : AuthType → Message
  upstream_username_changed : Str → Message
  upstream_password_changed : Str → Message
  upstream_domain_changed : Str → Message
  upstream_workstation_changed : Str → Message
  upstream_proxy_url_changed : Str → Message
  upstream_use_keyring_toggled : Bool → Message
  exceptions_hosts_changed : Str → Message
  allow_private_ips_toggled : Bool → Message
  proxy_listen_ip_changed : Str → Message
  advanced_unlock_requested : Message
  advanced_unlock_result : Bool → Message
  toggle_service : Bool → Message
  restart_service : Message
  poll_status : Message
  open_logs : Message
  open_logs_at : Option Point → Message
  tick : Message
  log_search_changed : Str → Message
  external : Message
  window_close_requested : WindowId → Message
  window_closed : WindowId → Message
  id_captured : WindowId → Message

pub record ConfigEditor : Type 0 where
  pub active_tab : Tab
  pub proxy_port : Str
  pub pac_file : Str
  pub allow_private_ips : Bool
  pub proxy_listen_ip : Str
  pub proxy_listen_ip_error : Option Str
  pub advanced_unlocked : Bool
  pub upstream_auth_type : AuthType
  pub upstream_username : Str
  pub upstream_password : Str
  pub upstream_use_keyring : Bool
  pub upstream_domain : Str
  pub upstream_workstation : Str
  pub upstream_proxy_url : Str
  pub exceptions_hosts : Str
  pub status : Str
  pub status_is_error : Bool
  pub status_timestamp : Option ℕ
  pub proxy_port_error : Option Str
  pub pac_file_error : Option Str
  pub upstream_proxy_url_error : Option Str
  pub service_status : ServiceStatus
  pub restart_needed : Bool
  pub appearance : Theme
  pub show_logs : Bool
  pub log_content : Str
  pub log_search : Str
  pub main_window_id : Option WindowId
  pub log_window_id : Option WindowId

-- `AuthType::from`, and the lower-case text of an `AuthType`.
unfoldable pub auth_type_from : Str → AuthType
unfolding str_eq
auth_type_from s =
    if str_eq s (codes "basic")
    then basic_auth
    else if str_eq s (codes "ntlm")
    then ntlm_auth
    else if str_eq s (codes "kerberos")
    then kerberos_auth
    else no_auth

abbrev pub auth_type_text : AuthType → Str
auth_type_text no_auth = codes "none"
auth_type_text basic_auth = codes "basic"
auth_type_text ntlm_auth = codes "ntlm"
auth_type_text kerberos_auth = codes "kerberos"

abbrev pub is_no_auth : AuthType → Bool
is_no_auth no_auth = true
is_no_auth _ = false
