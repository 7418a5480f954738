-- ===== src/Logger/Tests.antt =====
-- Dates around a leap day, and a log that is rotated.
use ferro_vela.Prelude.{ℕ, ◌+◌, ◌≡◌, refl, true, Option, none, some, [], arith, ◌==◌, if◌then◌else◌}
use ferro_vela.Text.{codes}
use ferro_vela.Logger.Calendar.{epoch_to_datetime-IsDate, IsDate, seconds_of}
use ferro_vela.Logger.Files.{log, Disk, info, open_log, Logger, System, max_log_bytes}
use ferro_vela.Logger.Rotation.{log-IsSized, IsSized, rotate_names-IsShifted, IsShifted}
use ferro_vela.Text.Utf8.{Bytes}
use ferro_vela.Logger.Clock.{format_datetime, epoch_to_datetime}

leap_day :
    (epoch_to_datetime 951782400
      ≡ record { year = 2000; month = 2; day = 29; hour = 0; minute = 0; second = 0 })
    × (epoch_to_datetime 951868799
        ≡ record { year = 2000; month = 2; day = 29; hour = 23; minute = 59; second = 59 })
    × (epoch_to_datetime 0
        ≡ record { year = 1970; month = 1; day = 1; hour = 0; minute = 0; second = 0 })
unfolding epoch_to_datetime ferro_vela.Logger.Clock.count_years ferro_vela.Logger.Clock.count_months
    ferro_vela.Logger.Clock.days_in_year ferro_vela.Logger.Clock.month_lengths
leap_day = (refl, refl, refl)

printed : format_datetime (epoch_to_datetime 951782405) ≡ codes "2000-02-29T00:00:05Z"
unfolding format_datetime epoch_to_datetime ferro_vela.Logger.Clock.count_years
    ferro_vela.Logger.Clock.days_in_year ferro_vela.Logger.Clock.count_months
    ferro_vela.Logger.Clock.month_lengths
printed = refl

epoch_to_datetime-IsDate_example :
    IsDate (epoch_to_datetime 951782405) × (seconds_of (epoch_to_datetime 951782405) ≡ 951782405)
epoch_to_datetime-IsDate_example = epoch_to_datetime-IsDate 951782405

abbrev healthy_system : System
healthy_system = record { renames = λ n. true; opens = true; fails_after = none }

abbrev full_names : ℕ → Option Bytes
full_names n = if n == 0 then some (codes "now") else if n == 1 then some (codes "before") else none

abbrev full_disk : Disk
full_disk = record { files = full_names; handle = some 0 }

rotate_names-IsShifted_example : IsShifted healthy_system full_disk (codes "now")
rotate_names-IsShifted_example =
    rotate_names-IsShifted healthy_system full_disk (codes "now")
      (record { renames = λ n. refl; opens = refl }) refl

abbrev started : Logger
started = open_log full_names

log-IsSized_example :
    IsSized (max_log_bytes + 100) (log healthy_system [] info (codes "hello") started)
unfolding open_log
log-IsSized_example =
    log-IsSized healthy_system [] (codes "hello") info 100 started refl refl (omega arith) (record {
      content = codes "now";
      at_log = refl;
      file = refl;
      counted = refl;
      small = omega arith;
    })
