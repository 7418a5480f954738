-- ===== src/Ui/Service.antt =====
-- The service handlers of ui/controller.rs with launchd.rs behind them.
use ferro_vela.Prelude.{◌≡◌, refl, ap, ◌↔◌, true, false, Option, none, some, List, [], ◌∷◌}
use ferro_vela.Text.{Str, codes}
use ferro_vela.Ui.Desktop.{Effect, stop_service, start_service, Desktop}
use ferro_vela.Ui.{ConfigEditor, toggle_service, restart_service, running, stopped}
use ferro_vela.Ui.Update.{
  update, after_call, handle_toggle_service, handle_restart_service, restarted,
}
use ferro_vela.Launchd.{Os, History, LaunchError, Launched, ok, err}
use ferro_vela.Launchd.Control.{start, stop, is_running}
use ferro_vela.Launchd.Phases.{Started, start_iff}

-- The text of an error, as `Display` gives it, is a parameter.
module _ (os : Os) (text : LaunchError → Str) where
  abbrev reason_of : Launched (Unit {0}) → Option Str
  reason_of (ok done) = none
  reason_of (err e) = some (text e)

  -- The system behind the effects of a handler: the stops and starts of launchd.rs in their order.
  abbrev pub behind : History → List Effect → History
  behind h [] = h
  behind h (stop_service ∷ fx) = behind (stop os h).1 fx
  behind h (start_service ∷ fx) = behind (start os h).1 fx
  behind h (_ ∷ fx) = behind h fx

  -- A desktop whose service is launchd.rs on this system.
  abbrev pub calling : History → Desktop → Desktop
  calling h desktop = record desktop {
    is_running = (is_running os h).0;
    start = λ before. reason_of (start os (behind h before)).0;
    stop = λ before. reason_of (stop os (behind h before)).0;
  }

  abbrev pub Starts : History → Type 0
  Starts h = (h' : History) × Started os h h'

  started_ok : (h : History) → (start os h).0 ≡ ok tt → Starts h
  started_ok h e = ((start os h).1, (start_iff os h (start os h).1).0 (λ i. (e i, (start os h).1)))

  Starts-ok : (h : History) → Starts h → (start os h).0 ≡ ok tt
  Starts-ok h (h', s) = ap (λ r. r.0) ((start_iff os h h').1 s)

  shown_running :
      (desktop : Desktop) (o : Launched (Unit {0})) (e : ConfigEditor)
      → e.service_status ≡ stopped
      → ((after_call desktop
            (reason_of o)
            running
            (codes "Service started.")
            (codes "Failed to start: ")
            e).service_status
          ≡ running)
        ↔ (o ≡ ok tt)
  shown_running desktop (ok done) e down = (λ q. refl, λ q. refl)
  shown_running desktop (err x) e down = (λ q. absurd (cc), λ q. absurd (cc))

  -- A window that shows the service as stopped shows it as running behind the button that starts it
  -- exactly where `start` has gone through all its phases.
  pub toggle_iff :
      (desktop : Desktop) (h : History) (e : ConfigEditor)
      → e.service_status ≡ stopped
      → ((update (calling h desktop) (toggle_service true) e).0.service_status ≡ running) ↔ Starts h
  unfolding update handle_toggle_service
  toggle_iff desktop h e down =
      let (there, back) = shown_running (calling h desktop) (start os h).0 e down in
      (λ q. started_ok h (there q), λ s. back (Starts-ok h s))

  -- What a restart reports and does by how its two calls end.
  abbrev pub restart_end : Launched (Unit {0}) → List Effect
  restart_end (ok done) = stop_service ∷ start_service ∷ []
  restart_end (err x) = stop_service ∷ []

  restarted_by :
      (desktop : Desktop) (h : History) (stopping starting : Launched (Unit {0})) (e : ConfigEditor)
      → (start os (behind h (stop_service ∷ []))).0 ≡ starting
      → (((restarted (calling h desktop) (reason_of stopping) e).0.status_is_error ≡ false)
          ↔ ((stopping ≡ ok tt) × (starting ≡ ok tt)))
        × ((restarted (calling h desktop) (reason_of stopping) e).1 ≡ restart_end stopping)
  restarted_by desktop h (ok done) (ok up) e same =
      rw (same, restarted) ((λ q. (refl, refl), λ q. refl), refl)
  restarted_by desktop h (ok done) (err x) e same =
      rw (same, restarted) ((λ q. absurd (cc), λ q. absurd (cc)), refl)
  restarted_by desktop h (err x) starting e same = ((λ q. absurd (cc), λ q. absurd (cc)), refl)

  -- Behind the button that restarts the service the window reports no error exactly where the service was
  -- stopped, and from there `start` has gone through all its phases. The service is stopped first, and
  -- started only if it was stopped.
  pub restart_iff :
      (desktop : Desktop) (h : History) (e : ConfigEditor)
      → (((update (calling h desktop) restart_service e).0.status_is_error ≡ false)
          ↔ (((stop os h).0 ≡ ok tt) × Starts (stop os h).1))
        × ((update (calling h desktop) restart_service e).1 ≡ restart_end (stop os h).0)
  unfolding update handle_restart_service
  restart_iff desktop h e =
      let ((there, back), made) =
        restarted_by desktop h (stop os h).0 (start os (stop os h).1).0 e refl in
      (
        (
          λ q. ((there q).0, started_ok (stop os h).1 (there q).1),
          λ s. back (s.0, Starts-ok (stop os h).1 s.1),
        ),
        made,
      )
