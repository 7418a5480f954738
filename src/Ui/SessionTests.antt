-- ===== src/Ui/SessionTests.antt =====
-- A user who asks for the lock to be opened and cancels the sheet.
use ferro_vela.Prelude.{◌≡◌, refl, inl, inr, false, some, [], ◌∷◌}
use ferro_vela.Ui.{ConfigEditor, advanced_tab, advanced_unlock_requested, advanced_unlock_result}
use ferro_vela.Ui.Prompt.{Security, granted}
use ferro_vela.Ui.View.{view}
use ferro_vela.Ui.Locked.{SomeSends}
use ferro_vela.Ui.Update.{update}
use ferro_vela.Ui.Session.{Reached, opened, touched, prompted, StaysShut, session-StaysShut}
use ferro_vela.Ui.Tests.{quiet_desktop}
use ferro_vela.Config.{default_config}
use ferro_vela.Ui.Startup.{new_args}

abbrev cancelled : Security
cancelled = record { create_status = 0; is_null = false; copy_status = 4294907290 }

-- The editor that the program starts with, with the Advanced tab shown.
abbrev started : ConfigEditor
started = record (new_args quiet_desktop default_config).0 { active_tab = advanced_tab }

abbrev asked : ConfigEditor
asked = (update quiet_desktop advanced_unlock_requested started).0

-- The lock is the widget behind those of the sidebar, of the service and the title.
lock_sends : SomeSends (view (λ s. s) started 5) advanced_unlock_requested
unfolding view ferro_vela.Ui.View.view_advanced_config new_args
lock_sends = inr (inr (inr (inr (inr (inr (inr (inr (inr (inl refl)))))))))

cancelled_session :
    Reached
      (λ s. s)
      started
      (some cancelled ∷ [])
      (update quiet_desktop (advanced_unlock_result (granted (some cancelled))) asked).0
cancelled_session =
    prompted quiet_desktop (some cancelled) [] asked
      (touched quiet_desktop 5 advanced_unlock_requested [] started opened lock_sends)

denied : granted (some cancelled) ≡ false
unfolding granted ferro_vela.Ui.Prompt.request_advanced_unlock
denied = refl

session-StaysShut_example :
    StaysShut started
      (update quiet_desktop (advanced_unlock_result (granted (some cancelled))) asked).0
unfolding new_args
session-StaysShut_example =
    session-StaysShut (λ s. s) started (some cancelled ∷ []) _ refl cancelled_session (denied, tt)
