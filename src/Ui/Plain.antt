-- ===== src/Ui/Plain.antt =====
-- The messages that are neither of the tabs nor of the lock nor of a guarded field: `update` keeps the
-- guard.
use ferro_vela.Prelude.{refl, [], ◌∷◌, if◌then◌else◌}
use ferro_vela.Ui.Desktop.{stop_service, Desktop}
use ferro_vela.Ui.{
  tab_selected, allow_private_ips_toggled, proxy_listen_ip_changed, advanced_unlock_requested,
  advanced_unlock_result, toggle_service, restart_service, poll_status, open_logs, open_logs_at,
  tick, log_search_changed, external, window_close_requested, window_closed, id_captured,
  ConfigEditor, Message, running, stopped, dark, light,
}
use ferro_vela.Ui.Kept.{
  Keeps, cleared-Keeps, toggle-Keeps, restarted-Keeps, window-Keeps, handled-Keeps,
}
use ferro_vela.Ui.Update.{update, poll, handle_restart_service}

abbrev pub IsPlain : Message → Type 0
IsPlain (tab_selected tab) = ⊥
IsPlain advanced_unlock_requested = ⊥
IsPlain (advanced_unlock_result ok) = ⊥
IsPlain (allow_private_ips_toggled b) = ⊥
IsPlain (proxy_listen_ip_changed v) = ⊥
IsPlain _ = Unit

poll-Keeps : (desktop : Desktop) (e : ConfigEditor) → Keeps e (poll desktop e)
unfolding poll
poll-Keeps desktop e = cleared-Keeps desktop e.status_timestamp (record e {
  service_status = if desktop.is_running then running else stopped;
  appearance = if desktop.prefers_dark then dark else light;
})

pub update-Keeps :
    (desktop : Desktop) (m : Message) (e : ConfigEditor)
    → IsPlain m
    → Keeps e (update desktop m e).0
unfolding update handle_restart_service
update-Keeps desktop (toggle_service start) e u = toggle-Keeps desktop start e
update-Keeps desktop restart_service e u =
    restarted-Keeps desktop (desktop.stop []) (desktop.start (stop_service ∷ [])) e refl
update-Keeps desktop poll_status e u = poll-Keeps desktop e
update-Keeps desktop (log_search_changed v) e u = refl
update-Keeps desktop (tab_selected tab) e u = absurd u
update-Keeps desktop advanced_unlock_requested e u = absurd u
update-Keeps desktop (advanced_unlock_result ok) e u = absurd u
update-Keeps desktop (allow_private_ips_toggled b) e u = absurd u
update-Keeps desktop (proxy_listen_ip_changed v) e u = absurd u
update-Keeps desktop open_logs e u = window-Keeps desktop open_logs e
update-Keeps desktop (open_logs_at pos) e u = window-Keeps desktop (open_logs_at pos) e
update-Keeps desktop tick e u = window-Keeps desktop tick e
update-Keeps desktop external e u = window-Keeps desktop external e
update-Keeps desktop (window_close_requested id) e u =
    window-Keeps desktop (window_close_requested id) e
update-Keeps desktop (window_closed id) e u = window-Keeps desktop (window_closed id) e
update-Keeps desktop (id_captured id) e u = window-Keeps desktop (id_captured id) e
update-Keeps desktop m e u = handled-Keeps desktop m e tt
