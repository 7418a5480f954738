-- ===== src/Ui/Lock.antt =====
-- The lock of the Advanced tab.
use ferro_vela.Prelude.{
  ◌≡◌, refl, sym, ◌∙◌, inl, inr, Bool, true, false, ◌&&◌, [], ◌∷◌, if◌then◌else◌, Bool-cases,
}
use ferro_vela.Ui.Plain.{update-Keeps}
use ferro_vela.Ui.Kept.{Keeps, KeepsLock, Keeps-KeepsLock, handled-KeepsLock}
use ferro_vela.Ui.{
  ConfigEditor, Message, exceptions_tab, upstream_tab, proxy_tab, advanced_unlock_requested,
  allow_private_ips_toggled, proxy_listen_ip_changed, Tab, tab_selected, advanced_unlock_result,
  advanced_tab,
}
use ferro_vela.Ui.Update.{
  is_advanced, request_unlock, select_tab, update, unlock_result, handle_config_message,
}
use ferro_vela.Ui.Desktop.{ask_unlock, Desktop}

-- The tab is unlocked only while it is shown.
abbrev pub IsLockedAway : ConfigEditor → Type 0
IsLockedAway e = e.advanced_unlocked ≡ true → e.active_tab ≡ advanced_tab

-- A message other than the success of an unlock.
abbrev IsOrdinary : Message → Type 0
IsOrdinary (advanced_unlock_result true) = ⊥
IsOrdinary _ = Unit

keep_lock : (e after : ConfigEditor) → KeepsLock e after → IsLockedAway e → IsLockedAway after
keep_lock e after (unlocked, tab) h u = tab ∙ h (sym unlocked ∙ u)

keep : (e after : ConfigEditor) → Keeps e after → IsLockedAway e → IsLockedAway after
keep e after k = keep_lock e after (Keeps-KeepsLock e after k)

handled :
    (desktop : Desktop) (m : Message) (e : ConfigEditor)
    → IsLockedAway e
    → IsLockedAway (handle_config_message desktop m e).0
handled desktop m e h =
    keep_lock e (handle_config_message desktop m e).0 (handled-KeepsLock desktop m e) h

false_not_true : false ≡ true → ⊥
false_not_true e = cc

tab_left :
    (active : Tab) (unlocked : Bool)
    → (unlocked ≡ true → active ≡ advanced_tab)
    → (if is_advanced active && true then false else unlocked) ≡ true
    → ⊥
tab_left advanced_tab unlocked h u = false_not_true u
tab_left proxy_tab unlocked h u = cc (h u)
tab_left upstream_tab unlocked h u = cc (h u)
tab_left exceptions_tab unlocked h u = cc (h u)

request-IsLockedAway : (e : ConfigEditor) → IsLockedAway e → IsLockedAway (request_unlock e).0
unfolding request_unlock
request-IsLockedAway e h = elim (Bool-cases e.advanced_unlocked) [
  | inl open_now ↦ rw (open_now, request_unlock) (λ u. absurd (false_not_true u))
  | inr locked ↦ rw (locked, request_unlock) (λ u. absurd (false_not_true u))
]

select-IsLockedAway :
    (tab : Tab) (e : ConfigEditor) → IsLockedAway e → IsLockedAway (select_tab tab e)
unfolding select_tab
select-IsLockedAway advanced_tab e h u = refl
select-IsLockedAway proxy_tab e h u = absurd (tab_left e.active_tab e.advanced_unlocked h u)
select-IsLockedAway upstream_tab e h u = absurd (tab_left e.active_tab e.advanced_unlocked h u)
select-IsLockedAway exceptions_tab e h u = absurd (tab_left e.active_tab e.advanced_unlocked h u)

-- Every message but the success of an unlock keeps the Advanced tab locked wherever it is not shown.
pub update-IsLockedAway :
    (desktop : Desktop) (m : Message) (e : ConfigEditor)
    → IsOrdinary m
    → IsLockedAway e
    → IsLockedAway (update desktop m e).0
unfolding update unlock_result
update-IsLockedAway desktop (tab_selected tab) e k h = select-IsLockedAway tab e h
update-IsLockedAway desktop advanced_unlock_requested e k h = request-IsLockedAway e h
update-IsLockedAway desktop (advanced_unlock_result true) e k h = absurd k
update-IsLockedAway desktop (advanced_unlock_result false) e k h = λ u. absurd (false_not_true u)
update-IsLockedAway desktop (allow_private_ips_toggled v) e k h =
    handled desktop (allow_private_ips_toggled v) e h
update-IsLockedAway desktop (proxy_listen_ip_changed v) e k h =
    handled desktop (proxy_listen_ip_changed v) e h
update-IsLockedAway desktop m e k h = keep e (update desktop m e).0 (update-Keeps desktop m e tt) h

abbrev pub after_leaving : Desktop → Tab → ConfigEditor → ConfigEditor
after_leaving desktop tab e =
    let asked = (update desktop advanced_unlock_requested e).0 in
    let left = (update desktop (tab_selected tab) asked).0 in
    (update desktop (advanced_unlock_result true) left).0

-- An unlock that is asked for, and answered after the user has gone to any tab, leaves the Advanced tab
-- unlocked with that tab shown.
pub update-unlocked_elsewhere :
    (desktop : Desktop) (tab : Tab) (e : ConfigEditor)
    → e.advanced_unlocked ≡ false
    → ((update desktop advanced_unlock_requested e).1 ≡ ask_unlock ∷ [])
      × ((after_leaving desktop tab e).advanced_unlocked ≡ true)
      × ((after_leaving desktop tab e).active_tab ≡ tab)
unfolding update unlock_result select_tab request_unlock
update-unlocked_elsewhere desktop tab e locked = (rw (locked, request_unlock) refl, refl, refl)
