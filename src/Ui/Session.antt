-- ===== src/Ui/Session.antt =====
-- The window from its start on: what a user can change without the right that the lock asks for.
use ferro_vela.Prelude.{
  ◌≡◌, refl, ap, ◌∙◌, subst, Bool, true, false, Option, List, [], ◌∷◌, if◌then◌else◌, All,
}
use ferro_vela.Text.{Str}
use ferro_vela.Ui.{
  allow_private_ips_toggled, proxy_listen_ip_changed, advanced_unlock_result, tab_selected,
  advanced_unlock_requested, poll_status, open_logs_at, tick, external, window_close_requested,
  window_closed, id_captured, ConfigEditor, WindowId, Message, Tab,
}
use ferro_vela.Ui.Update.{unlock_result, update, select_tab, request_unlock}
use ferro_vela.Ui.Plain.{update-Keeps}
use ferro_vela.Ui.Prompt.{Security, granted}
use ferro_vela.Ui.Desktop.{Desktop}
use ferro_vela.Ui.View.{view}
use ferro_vela.Ui.Locked.{SomeSends, Permitted, view-Permitted}
use ferro_vela.Ui.Kept.{Keeps}

-- A message of the subscriptions of ui/controller.rs, or with the place of the main window.
abbrev pub IsNotice : Message → Type 0
IsNotice poll_status = Unit
IsNotice (open_logs_at pos) = Unit
IsNotice tick = Unit
IsNotice external = Unit
IsNotice (window_close_requested id) = Unit
IsNotice (window_closed id) = Unit
IsNotice (id_captured id) = Unit
IsNotice _ = ⊥

-- The editor behind any sequence of messages: the user touches a widget of a window as it is shown, the
-- system gives notice, a sheet is answered. The list is of the answers, the last first.
pub data Reached (lower : Str → Str) (e0 : ConfigEditor)
    : List (Option Security) → ConfigEditor → Type 0 where
  opened : Reached lower e0 [] e0
  touched :
      (desktop : Desktop) (id : WindowId) (m : Message) (ps : List (Option Security))
      (e : ConfigEditor)
      → Reached lower e0 ps e
      → SomeSends (view lower e id) m
      → Reached lower e0 ps (update desktop m e).0
  noticed :
      (desktop : Desktop) (m : Message) (ps : List (Option Security)) (e : ConfigEditor)
      → Reached lower e0 ps e
      → IsNotice m
      → Reached lower e0 ps (update desktop m e).0
  prompted :
      (desktop : Desktop) (p : Option Security) (ps : List (Option Security)) (e : ConfigEditor)
      → Reached lower e0 ps e
      → Reached lower e0 (p ∷ ps) (update desktop (advanced_unlock_result (granted p)) e).0

-- The tab is locked, and what it guards is as before.
abbrev pub StaysShut : ConfigEditor → ConfigEditor → Type 0
StaysShut e after =
    (after.advanced_unlocked ≡ false)
    × (after.allow_private_ips ≡ e.allow_private_ips)
    × (after.proxy_listen_ip ≡ e.proxy_listen_ip)

kept_shut :
    (e after : ConfigEditor) → Keeps e after → e.advanced_unlocked ≡ false → StaysShut e after
kept_shut e after k shut =
    (ap (λ g. g.unlocked) k ∙ shut, ap (λ g. g.allowed) k, ap (λ g. g.listen) k)

relocked : (left unlocked : Bool) → unlocked ≡ false → (if left then false else unlocked) ≡ false
relocked true unlocked shut = refl
relocked false unlocked shut = shut

select-StaysShut :
    (tab : Tab) (e : ConfigEditor) → e.advanced_unlocked ≡ false → StaysShut e (select_tab tab e)
unfolding select_tab
select-StaysShut tab e shut = (relocked _ e.advanced_unlocked shut, refl, refl)

request-StaysShut :
    (e : ConfigEditor) → e.advanced_unlocked ≡ false → StaysShut e (request_unlock e).0
unfolding request_unlock
request-StaysShut e shut = rw (shut, request_unlock) (refl, refl, refl)

-- A message that no lock forbids keeps a locked tab locked, and what it guards.
update-StaysShut :
    (desktop : Desktop) (m : Message) (e : ConfigEditor)
    → Permitted false e.allow_private_ips m
    → e.advanced_unlocked ≡ false
    → StaysShut e (update desktop m e).0
unfolding update
update-StaysShut desktop (tab_selected tab) e p shut = select-StaysShut tab e shut
update-StaysShut desktop advanced_unlock_requested e p shut = request-StaysShut e shut
update-StaysShut desktop (advanced_unlock_result ok) e p shut = absurd p
update-StaysShut desktop (allow_private_ips_toggled b) e p shut = cc
update-StaysShut desktop (proxy_listen_ip_changed v) e (p, private) shut = cc
update-StaysShut desktop m e p shut =
    kept_shut e (update desktop m e).0 (update-Keeps desktop m e tt) shut

notice-Permitted :
    (unlocked private : Bool) (m : Message) → IsNotice m → Permitted unlocked private m
notice-Permitted unlocked private (allow_private_ips_toggled b) n = absurd n
notice-Permitted unlocked private (proxy_listen_ip_changed s) n = absurd n
notice-Permitted unlocked private (advanced_unlock_result ok) n = absurd n
notice-Permitted unlocked private _ n = tt

refused-StaysShut :
    (desktop : Desktop) (p : Option Security) (e : ConfigEditor)
    → granted p ≡ false
    → StaysShut e (update desktop (advanced_unlock_result (granted p)) e).0
unfolding update unlock_result
refused-StaysShut desktop p e refused = rw refused (refl, refl, refl)

then_shut : (e0 e after : ConfigEditor) → StaysShut e0 e → StaysShut e after → StaysShut e0 after
then_shut e0 e after (shut, allowed, listen) (still, allowed', listen') =
    (still, allowed' ∙ allowed, listen' ∙ listen)

-- From a locked Advanced tab on, whatever widgets the user touches and whatever the system reports,
-- whether private addresses are allowed and the listen address stay as they were, as long as no sheet
-- of the system grants the right, whether one was cancelled, failed or its task panicked.
pub session-StaysShut :
    (lower : Str → Str) (e0 : ConfigEditor) (ps : List (Option Security)) (e : ConfigEditor)
    → e0.advanced_unlocked ≡ false
    → Reached lower e0 ps e
    → All (λ p. granted p ≡ false) ps
    → StaysShut e0 e
session-StaysShut lower e0 _ _ locked opened refused = (locked, refl, refl)
session-StaysShut lower e0 _ _ locked (touched desktop id m ps e s sent) refused =
    let before = session-StaysShut lower e0 ps e locked s refused in
    then_shut e0 e (update desktop m e).0 before (
      update-StaysShut desktop m e
        (subst (λ u. Permitted u e.allow_private_ips m) before.0 (view-Permitted lower e id m sent))
        before.0)
session-StaysShut lower e0 _ _ locked (noticed desktop m ps e s notice) refused =
    let before = session-StaysShut lower e0 ps e locked s refused in
    then_shut e0 e (update desktop m e).0 before
      (update-StaysShut desktop m e (notice-Permitted false e.allow_private_ips m notice) before.0)
session-StaysShut lower e0 _ _ locked (prompted desktop p ps e s) (denied, refused) =
    then_shut e0 e (update desktop (advanced_unlock_result (granted p)) e).0
      (session-StaysShut lower e0 ps e locked s refused) (refused-StaysShut desktop p e denied)
