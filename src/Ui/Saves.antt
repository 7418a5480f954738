-- ===== src/Ui/Saves.antt =====
-- What the window saves.
use ferro_vela.Prelude.{
  inl, inr, Bool, true, false, ◌||◌, Option, none, some, [], ◌∷◌, if◌then◌else◌, Bool-cases, All,
  is_some, is_none,
}
use ferro_vela.Text.{Str, is_empty}
use ferro_vela.Ui.FormSpec.{
  NoErrors, IsConfigOf, has_validation_errors-NoErrors, build_config-IsConfigOf,
}
use ferro_vela.Ui.Update.{
  handle_toggle_service, handle_restart_service, restarted, set_field, request_unlock, changed_form,
  update, handle_config_message, save_if_valid, has_validation_errors, save_current_config,
  sync_keyring,
}
use ferro_vela.Ui.Forms.{build_config, build_upstream}
use ferro_vela.Ui.Windows.{
  same_id, start_log_window, request_logs, show_main, on_closed, on_close_requested,
  handle_window_message, log_window_at, refreshed,
}
use ferro_vela.Ui.{
  ConfigEditor, WindowId, Point, Message, open_logs, open_logs_at, tick, external, window_closed,
  window_close_requested, id_captured, log_search_changed, advanced_unlock_result,
  upstream_workstation_changed, proxy_listen_ip_changed, poll_status, upstream_use_keyring_toggled,
  exceptions_hosts_changed, allow_private_ips_toggled, pac_file_changed, toggle_service,
  advanced_unlock_requested, restart_service, upstream_password_changed, upstream_auth_type_changed,
  proxy_port_changed, upstream_proxy_url_changed, upstream_username_changed,
  upstream_domain_changed, tab_selected,
}
use ferro_vela.Ui.Desktop.{Effect, save, set_password, Desktop, delete_credential}
use ferro_vela.Text.Split.{trim}

-- A saved configuration is the one that the form stands for, and no field of the form has an error.
abbrev pub IsSaved : ConfigEditor → Effect → Type 0
IsSaved e (save c) = NoErrors e × IsConfigOf e c
IsSaved e _ = Unit

keyring-IsSaved : (e form : ConfigEditor) → All (IsSaved form) (sync_keyring e)
unfolding sync_keyring
keyring-IsSaved e form = elim (Bool-cases (is_empty (trim e.upstream_username))) [
  | inl nobody ↦ rw nobody tt
  | inr user ↦ rw user (go e.upstream_use_keyring (is_empty (trim e.upstream_password)))
]
  where
    go :
        (ring blank : Bool)
        → All (IsSaved form) (
            if ring
            then (if blank
                then []
                else set_password (trim e.upstream_username) (trim e.upstream_password) ∷ [])
            else delete_credential (trim e.upstream_username) ∷ [])
    go true true = tt
    go true false = (tt, tt)
    go false blank = (tt, tt)

save_if_valid-IsSaved :
    (desktop : Desktop) (e : ConfigEditor)
    → All (IsSaved (save_if_valid desktop e).0) (save_if_valid desktop e).1
unfolding save_current_config has_validation_errors build_config build_upstream
save_if_valid-IsSaved desktop e = elim (Bool-cases (has_validation_errors e)) [
  | inl invalid ↦ rw (invalid, save_if_valid) tt
  | inr valid ↦
      rw (valid, save_if_valid)
        (
          (
            has_validation_errors-NoErrors e valid,
            build_config-IsConfigOf (save_current_config desktop e).0,
          ),
          keyring-IsSaved e (save_current_config desktop e).0,
        )
]

changed_form-IsSaved :
    (desktop : Desktop) (e : ConfigEditor) (o : Option ConfigEditor)
    → All (IsSaved (changed_form desktop e o).0) (changed_form desktop e o).1
changed_form-IsSaved desktop e none = tt
changed_form-IsSaved desktop e (some changed) = save_if_valid-IsSaved desktop changed

handle-IsSaved :
    (desktop : Desktop) (m : Message) (e : ConfigEditor)
    → All (IsSaved (handle_config_message desktop m e).0) (handle_config_message desktop m e).1
unfolding handle_config_message
handle-IsSaved desktop m e = changed_form-IsSaved desktop e (set_field desktop m e)

request-IsSaved : (e : ConfigEditor) → All (IsSaved (request_unlock e).0) (request_unlock e).1
unfolding request_unlock
request-IsSaved e = elim (Bool-cases e.advanced_unlocked) [
  | inl yes_unlocked ↦ rw yes_unlocked tt
  | inr locked ↦ rw locked (tt, tt)
]

closed-IsSaved : (id : WindowId) (e form : ConfigEditor) → All (IsSaved form) (on_closed id e).1
unfolding on_closed
closed-IsSaved id e form = elim (Bool-cases (same_id e.log_window_id id)) [
  | inl log ↦ rw log tt
  | inr other ↦ rw other (elim (Bool-cases (same_id e.main_window_id id)) [
    | inl main ↦ rw main (tt, (tt, tt))
    | inr none_of_ours ↦ rw none_of_ours tt
  ])
]

logs-IsSaved :
    (log main : Option WindowId) (desktop : Desktop) (e form : ConfigEditor)
    → All (IsSaved form) (request_logs log main desktop e).1
unfolding start_log_window
logs-IsSaved (some id) main desktop e form = (tt, tt)
logs-IsSaved none (some id) desktop e form = (tt, tt)
logs-IsSaved none none desktop e form = (tt, tt)

logs_at-IsSaved :
    (closed : Bool) (pos : Option Point) (desktop : Desktop) (e form : ConfigEditor)
    → All (IsSaved form) (log_window_at closed pos desktop e).1
unfolding start_log_window
logs_at-IsSaved true pos desktop e form = (tt, tt)
logs_at-IsSaved false pos desktop e form = tt

tick-IsSaved :
    (shown : Bool) (desktop : Desktop) (e form : ConfigEditor)
    → All (IsSaved form) (refreshed shown desktop e).1
tick-IsSaved true desktop e form = (tt, tt)
tick-IsSaved false desktop e form = tt

main-IsSaved :
    (main : Option WindowId) (desktop : Desktop) (e form : ConfigEditor)
    → All (IsSaved form) (show_main main desktop e).1
main-IsSaved (some id) desktop e form = (tt, (tt, tt))
main-IsSaved none desktop e form = (tt, tt)

restart-IsSaved :
    (desktop : Desktop) (stopped : Option Str) (e form : ConfigEditor)
    → All (IsSaved form) (restarted desktop stopped e).1
restart-IsSaved desktop none e form = (tt, (tt, tt))
restart-IsSaved desktop (some reason) e form = (tt, tt)

-- Whatever message comes, a configuration is saved only where none of the four checked fields of the
-- form behind the message shows an error, and then it is the configuration that this form stands for,
-- field by field.
pub update-IsSaved :
    (desktop : Desktop) (m : Message) (e : ConfigEditor)
    → All (IsSaved (update desktop m e).0) (update desktop m e).1
unfolding update handle_window_message on_close_requested handle_toggle_service
    handle_restart_service
update-IsSaved desktop (tab_selected tab) e = tt
update-IsSaved desktop advanced_unlock_requested e = request-IsSaved e
update-IsSaved desktop (advanced_unlock_result ok) e = tt
update-IsSaved desktop (toggle_service true) e = (tt, tt)
update-IsSaved desktop (toggle_service false) e = (tt, tt)
update-IsSaved desktop restart_service e = restart-IsSaved desktop (desktop.stop []) e _
update-IsSaved desktop poll_status e = tt
update-IsSaved desktop (proxy_port_changed v) e = handle-IsSaved desktop (proxy_port_changed v) e
update-IsSaved desktop (pac_file_changed v) e = handle-IsSaved desktop (pac_file_changed v) e
update-IsSaved desktop (upstream_auth_type_changed v) e =
    handle-IsSaved desktop (upstream_auth_type_changed v) e
update-IsSaved desktop (upstream_username_changed v) e =
    handle-IsSaved desktop (upstream_username_changed v) e
update-IsSaved desktop (upstream_password_changed v) e =
    handle-IsSaved desktop (upstream_password_changed v) e
update-IsSaved desktop (upstream_domain_changed v) e =
    handle-IsSaved desktop (upstream_domain_changed v) e
update-IsSaved desktop (upstream_workstation_changed v) e =
    handle-IsSaved desktop (upstream_workstation_changed v) e
update-IsSaved desktop (upstream_proxy_url_changed v) e =
    handle-IsSaved desktop (upstream_proxy_url_changed v) e
update-IsSaved desktop (upstream_use_keyring_toggled v) e =
    handle-IsSaved desktop (upstream_use_keyring_toggled v) e
update-IsSaved desktop (exceptions_hosts_changed v) e =
    handle-IsSaved desktop (exceptions_hosts_changed v) e
update-IsSaved desktop (allow_private_ips_toggled v) e =
    handle-IsSaved desktop (allow_private_ips_toggled v) e
update-IsSaved desktop (proxy_listen_ip_changed v) e =
    handle-IsSaved desktop (proxy_listen_ip_changed v) e
update-IsSaved desktop (log_search_changed v) e = tt
update-IsSaved desktop open_logs e = logs-IsSaved e.log_window_id e.main_window_id desktop e _
update-IsSaved desktop (open_logs_at pos) e =
    logs_at-IsSaved (is_none e.log_window_id) pos desktop e _
update-IsSaved desktop tick e = tick-IsSaved (e.show_logs || is_some e.log_window_id) desktop e _
update-IsSaved desktop external e = main-IsSaved e.main_window_id desktop e _
update-IsSaved desktop (window_close_requested id) e = (tt, tt)
update-IsSaved desktop (window_closed id) e = closed-IsSaved id e _
update-IsSaved desktop (id_captured id) e = tt
