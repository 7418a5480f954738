-- ===== src/Ui/Kept.antt =====
-- The lock of the Advanced tab, and what it guards: which messages of the window keep them.
use ferro_vela.Prelude.{
  ℕ, ◌-◌, ◌≡◌, refl, ap, ◌∙◌, inl, inr, Bool, true, false, ◌||◌, Option, none, some, [], ◌∷◌, leb,
  if◌then◌else◌, Bool-cases, length, drop, is_some, is_none,
}
use ferro_vela.Text.{Str}
use ferro_vela.Ui.Desktop.{stop_service, Desktop}
use ferro_vela.Ui.{
  Tab, allow_private_ips_toggled, proxy_listen_ip_changed, ConfigEditor, WindowId, Point, Message,
  open_logs, open_logs_at, tick, external, window_closed, window_close_requested, id_captured,
  upstream_password_changed, upstream_workstation_changed, upstream_proxy_url_changed,
  upstream_use_keyring_toggled, upstream_domain_changed, proxy_port_changed,
  exceptions_hosts_changed, upstream_auth_type_changed, running, ServiceStatus,
  upstream_username_changed, stopped, pac_file_changed,
}
use ferro_vela.Ui.Update.{
  handle_config_message, cleared, restarted, save_current_config, handle_toggle_service, after_call,
  set_field, save_if_valid, has_validation_errors, changed_form,
}
use ferro_vela.Ui.Windows.{
  same_id, shown_log, read_log, load_logs, start_log_window, request_logs, show_main, on_closed,
  on_close_requested, on_captured, handle_window_message, log_window_at, refreshed,
}
use ferro_vela.Text.Utf8.{Bytes, from_utf8}

-- The lock, the tab that is shown, and the fields that the lock guards.
pub record Guard : Type 0 where
  pub unlocked : Bool
  pub tab : Tab
  pub allowed : Bool
  pub listen : Str

abbrev pub guard_of : ConfigEditor → Guard
guard_of e = record {
  unlocked = e.advanced_unlocked;
  tab = e.active_tab;
  allowed = e.allow_private_ips;
  listen = e.proxy_listen_ip;
}

abbrev pub Keeps : ConfigEditor → ConfigEditor → Type 0
Keeps e after = guard_of after ≡ guard_of e

-- A message that is not of a guarded field.
abbrev pub IsUnguarded : Message → Type 0
IsUnguarded (allow_private_ips_toggled b) = ⊥
IsUnguarded (proxy_listen_ip_changed s) = ⊥
IsUnguarded _ = Unit

save_if_valid-Keeps : (desktop : Desktop) (e : ConfigEditor) → Keeps e (save_if_valid desktop e).0
unfolding save_current_config
save_if_valid-Keeps desktop e = elim (Bool-cases (has_validation_errors e)) [
  | inl invalid ↦ rw (invalid, save_if_valid) refl
  | inr valid ↦ rw (valid, save_if_valid) refl
]

-- A change of another field keeps them.
abbrev ChangedKeeps : ConfigEditor → Option ConfigEditor → Type 0
ChangedKeeps e none = Unit
ChangedKeeps e (some changed) = Keeps e changed

read_log-Keeps : (file : Option Bytes) (e : ConfigEditor) → Keeps e (read_log file e)
read_log-Keeps none e = refl
read_log-Keeps (some bytes) e = go (from_utf8 (drop (length bytes - 10000) bytes))
  where
    go : (o : Option Str) → Keeps e (shown_log o e)
    go none = refl
    go (some text) = refl

pub set_field-ChangedKeeps :
    (desktop : Desktop) (m : Message) (e : ConfigEditor)
    → IsUnguarded m
    → ChangedKeeps e (set_field desktop m e)
unfolding set_field
set_field-ChangedKeeps desktop (proxy_port_changed v) e u = refl
set_field-ChangedKeeps desktop (pac_file_changed v) e u = refl
set_field-ChangedKeeps desktop (upstream_auth_type_changed v) e u = refl
set_field-ChangedKeeps desktop (upstream_username_changed v) e u = refl
set_field-ChangedKeeps desktop (upstream_password_changed v) e u = refl
set_field-ChangedKeeps desktop (upstream_domain_changed v) e u = refl
set_field-ChangedKeeps desktop (upstream_workstation_changed v) e u = refl
set_field-ChangedKeeps desktop (upstream_proxy_url_changed v) e u = refl
set_field-ChangedKeeps desktop (upstream_use_keyring_toggled v) e u = refl
set_field-ChangedKeeps desktop (exceptions_hosts_changed v) e u = refl
set_field-ChangedKeeps desktop (allow_private_ips_toggled v) e u = absurd u
set_field-ChangedKeeps desktop (proxy_listen_ip_changed v) e u = absurd u
set_field-ChangedKeeps desktop _ e u = tt

pub changed_form-Keeps :
    (desktop : Desktop) (e : ConfigEditor) (o : Option ConfigEditor)
    → ChangedKeeps e o
    → Keeps e (changed_form desktop e o).0
changed_form-Keeps desktop e none k = refl
changed_form-Keeps desktop e (some changed) same = save_if_valid-Keeps desktop changed ∙ same

after_call-Keeps :
    (desktop : Desktop) (o : Option Str) (reached : ServiceStatus) (success failure : Str)
    (e : ConfigEditor)
    → Keeps e (after_call desktop o reached success failure e)
after_call-Keeps desktop none reached success failure e = refl
after_call-Keeps desktop (some reason) reached success failure e = refl

pub toggle-Keeps :
    (desktop : Desktop) (start : Bool) (e : ConfigEditor)
    → Keeps e (handle_toggle_service desktop start e).0
unfolding handle_toggle_service
toggle-Keeps desktop true e = after_call-Keeps desktop (desktop.start []) running _ _ e
toggle-Keeps desktop false e = after_call-Keeps desktop (desktop.stop []) stopped _ _ e

pub restarted-Keeps :
    (desktop : Desktop) (stop start : Option Str) (e : ConfigEditor)
    → desktop.start (stop_service ∷ []) ≡ start
    → Keeps e (restarted desktop stop e).0
restarted-Keeps desktop (some reason) start e same = refl
restarted-Keeps desktop none none e same = rw (same, restarted) refl
restarted-Keeps desktop none (some reason) e same = rw (same, restarted) refl

pub cleared-Keeps :
    (desktop : Desktop) (since : Option ℕ) (e : ConfigEditor) → Keeps e (cleared desktop since e)
cleared-Keeps desktop none e = refl
cleared-Keeps desktop (some since) e = elim (Bool-cases (leb 3 (desktop.now - since))) [
  | inl old ↦ rw (old, cleared) refl
  | inr fresh ↦ rw (fresh, cleared) refl
]

load_logs-Keeps : (desktop : Desktop) (e : ConfigEditor) → Keeps e (load_logs desktop e)
unfolding load_logs
load_logs-Keeps desktop e = read_log-Keeps desktop.log_file e

start_log_window-Keeps :
    (desktop : Desktop) (pos : Option Point) (e : ConfigEditor)
    → Keeps e (start_log_window desktop pos e).0
unfolding start_log_window
start_log_window-Keeps desktop pos e =
    load_logs-Keeps desktop (record e { log_window_id = some desktop.new_window; log_content = [] })

request_logs-Keeps :
    (log main : Option WindowId) (desktop : Desktop) (e : ConfigEditor)
    → Keeps e (request_logs log main desktop e).0
request_logs-Keeps (some id) main desktop e = refl
request_logs-Keeps none (some id) desktop e = refl
request_logs-Keeps none none desktop e = start_log_window-Keeps desktop none e

log_window_at-Keeps :
    (shut : Bool) (pos : Option Point) (desktop : Desktop) (e : ConfigEditor)
    → Keeps e (log_window_at shut pos desktop e).0
log_window_at-Keeps true pos desktop e = start_log_window-Keeps desktop pos e
log_window_at-Keeps false pos desktop e = refl

refreshed-Keeps :
    (shown : Bool) (desktop : Desktop) (e : ConfigEditor) → Keeps e (refreshed shown desktop e).0
refreshed-Keeps true desktop e = load_logs-Keeps desktop e
refreshed-Keeps false desktop e = refl

show_main-Keeps :
    (main : Option WindowId) (desktop : Desktop) (e : ConfigEditor)
    → Keeps e (show_main main desktop e).0
show_main-Keeps (some id) desktop e = refl
show_main-Keeps none desktop e = refl

if-Keeps :
    (test : Bool) (e : ConfigEditor) (a b : ConfigEditor)
    → Keeps e a
    → Keeps e b
    → Keeps e (if test then a else b)
if-Keeps true e a b h k = h
if-Keeps false e a b h k = k

closed-Keeps : (id : WindowId) (e : ConfigEditor) → Keeps e (on_closed id e).0
unfolding on_closed
closed-Keeps id e = elim (Bool-cases (same_id e.log_window_id id)) [
  | inl log ↦ rw log refl
  | inr other ↦ rw other (elim (Bool-cases (same_id e.main_window_id id)) [
    | inl main ↦ rw main refl
    | inr none_of_ours ↦ rw none_of_ours refl
  ])
]

-- The messages on windows keep them.
pub window-Keeps :
    (desktop : Desktop) (m : Message) (e : ConfigEditor)
    → Keeps e (handle_window_message desktop m e).0
unfolding handle_window_message on_close_requested on_captured
window-Keeps desktop open_logs e = request_logs-Keeps e.log_window_id e.main_window_id desktop e
window-Keeps desktop (open_logs_at pos) e =
    log_window_at-Keeps (is_none e.log_window_id) pos desktop e
window-Keeps desktop tick e = refreshed-Keeps (e.show_logs || is_some e.log_window_id) desktop e
window-Keeps desktop external e = show_main-Keeps e.main_window_id desktop e
window-Keeps desktop (window_close_requested id) e =
    if-Keeps (same_id e.log_window_id id) e _ _ refl refl
window-Keeps desktop (window_closed id) e = closed-Keeps id e
window-Keeps desktop (id_captured id) e =
    if-Keeps (same_id e.log_window_id id || same_id e.main_window_id id) e _ _ refl refl
window-Keeps desktop _ e = refl

-- The handler of a field keeps the guard, if the field is not guarded, and the lock in any case.
pub handled-Keeps :
    (desktop : Desktop) (m : Message) (e : ConfigEditor)
    → IsUnguarded m
    → Keeps e (handle_config_message desktop m e).0
unfolding handle_config_message
handled-Keeps desktop m e u =
    changed_form-Keeps desktop e (set_field desktop m e) (set_field-ChangedKeeps desktop m e u)

-- The lock and the tab are as before.
abbrev pub KeepsLock : ConfigEditor → ConfigEditor → Type 0
KeepsLock e after =
    (after.advanced_unlocked ≡ e.advanced_unlocked) × (after.active_tab ≡ e.active_tab)

pub Keeps-KeepsLock : (e after : ConfigEditor) → Keeps e after → KeepsLock e after
Keeps-KeepsLock e after k = (ap (λ g. g.unlocked) k, ap (λ g. g.tab) k)

guarded-KeepsLock :
    (desktop : Desktop) (e changed : ConfigEditor)
    → KeepsLock e changed
    → KeepsLock e (save_if_valid desktop changed).0
guarded-KeepsLock desktop e changed (before, shown) =
    let (unlocked, tab) =
      Keeps-KeepsLock changed (save_if_valid desktop changed).0
        (save_if_valid-Keeps desktop changed) in
    (unlocked ∙ before, tab ∙ shown)

pub handled-KeepsLock :
    (desktop : Desktop) (m : Message) (e : ConfigEditor)
    → KeepsLock e (handle_config_message desktop m e).0
unfolding handle_config_message set_field
handled-KeepsLock desktop (allow_private_ips_toggled b) e =
    guarded-KeepsLock desktop e _ (refl, refl)
handled-KeepsLock desktop (proxy_listen_ip_changed s) e = guarded-KeepsLock desktop e _ (refl, refl)
handled-KeepsLock desktop m e =
    Keeps-KeepsLock e (handle_config_message desktop m e).0 (handled-Keeps desktop m e tt)
