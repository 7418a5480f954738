-- ===== src/Ui/ServiceTests.antt =====
-- The buttons of the service on a system where the service comes up at the second look.
use ferro_vela.Prelude.{◌≡◌, refl, ◌↔◌, true, false, []}
use ferro_vela.Text.{Str}
use ferro_vela.Ui.Service.{restart_end, calling, Starts, toggle_iff, restart_iff}
use ferro_vela.Ui.{ConfigEditor, toggle_service, restart_service, running, stopped}
use ferro_vela.Ui.Tests.{quiet_desktop, window}
use ferro_vela.Ui.Update.{update}
use ferro_vela.Launchd.{LaunchError, ok}
use ferro_vela.Launchd.Control.{stop}
use ferro_vela.Launchd.Phases.{start_iff}
use ferro_vela.Launchd.Tests.{desk, whole_start, start_runs}

abbrev no_text : LaunchError → Str
no_text x = []

restart_iff_example :
    (((update (calling desk no_text [] quiet_desktop) restart_service window).0.status_is_error
        ≡ false)
      ↔ (((stop desk []).0 ≡ ok tt) × Starts desk no_text (stop desk []).1))
    × ((update (calling desk no_text [] quiet_desktop) restart_service window).1
        ≡ restart_end desk no_text (stop desk []).0)
restart_iff_example = restart_iff desk no_text quiet_desktop [] window

abbrev stopped_window : ConfigEditor
stopped_window = record window { service_status = stopped }

starts :
    (update
      (calling desk no_text [] quiet_desktop)
      (toggle_service true)
      stopped_window).0.service_status
    ≡ running
starts =
    (toggle_iff desk no_text quiet_desktop [] stopped_window refl).1
      (whole_start, (start_iff desk [] whole_start).0 start_runs)
