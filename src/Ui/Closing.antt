-- ===== src/Ui/Closing.antt =====
-- The log window and the main window.
use ferro_vela.Prelude.{
  ℕ, ◌-◌, ◌≤◌, ◌≡◌, ap, ◌∙◌, ◌≢◌, Option, none, some, List, [], ◌∷◌, ◌++◌, arith, length, drop,
}
use ferro_vela.Ui.{Message, ConfigEditor, WindowId}
use ferro_vela.Ui.Desktop.{close_window, Desktop, Step, remove_socket, exit_program}
use ferro_vela.Ui.Show.{IcedEvent, window_event, close_requested, closed, other_change, listened}
use ferro_vela.Text.Utf8.{Bytes, from_utf8, from_utf8_broken}
use ferro_vela.Ui.Windows.{
  shown_log, read_log, load_logs, on_closed, on_close_requested, on_captured, handle_window_message,
}
use ferro_vela.Ui.Update.{update}

-- The editor after a sequence of events of one window, and all that was done outside of it.
unfoldable pub heard : Desktop → WindowId → Option Message → ConfigEditor → Step
heard desktop id none e = (e, [])
heard desktop id (some m) e = update desktop m e

unfoldable pub hear_events : Desktop → WindowId → List IcedEvent → ConfigEditor → Step
hear_events desktop id [] e = (e, [])
hear_events desktop id (event ∷ events) e =
    let now = heard desktop id (listened event id) e in
    let later = hear_events desktop id events now.0 in (later.0, now.1 ++ later.1)

-- A window is asked to close, another event of it comes, and it is closed.
abbrev pub closing_logs : List IcedEvent
closing_logs = window_event close_requested ∷ window_event other_change ∷ window_event closed ∷ []

abbrev pub quiet_closing : List IcedEvent
quiet_closing = window_event close_requested ∷ window_event closed ∷ []

-- Closing the log window ends the program and forgets the main window, if a window event of another kind,
-- such as the loss of the focus, comes from the log window between the request to close it and the notice
-- that it is closed.
pub closing_logs-exits :
    (desktop : Desktop) (id main : WindowId) (e : ConfigEditor)
    → e.log_window_id ≡ some id
    → e.main_window_id ≡ some main
    → main ≢ id
    → ((hear_events desktop id closing_logs e).1
        ≡ close_window id ∷ remove_socket ∷ exit_program ∷ [])
      × ((hear_events desktop id closing_logs e).0.main_window_id ≡ none)
unfolding hear_events heard listened update handle_window_message on_close_requested on_captured
    on_closed
closing_logs-exits desktop id main e log shown other = ground arith

-- Without such an event it does not: the main window stays.
pub closing_logs-stays :
    (desktop : Desktop) (id main : WindowId) (e : ConfigEditor)
    → e.log_window_id ≡ some id
    → e.main_window_id ≡ some main
    → main ≢ id
    → ((hear_events desktop id quiet_closing e).1 ≡ close_window id ∷ [])
      × ((hear_events desktop id quiet_closing e).0.main_window_id ≡ some main)
unfolding hear_events heard listened update handle_window_message on_close_requested on_captured
    on_closed
closing_logs-stays desktop id main e log shown other = ground arith

-- A log of more than 10,000 bytes is not shown anew while its last 10,000 bytes begin inside a
-- character.
load_logs_broken :
    (desktop : Desktop) (bytes rest : Bytes) (b : ℕ) (e : ConfigEditor)
    → desktop.log_file ≡ some bytes
    → drop (length bytes - 10000) bytes ≡ b ∷ rest
    → 0x80 ≤ b
    → b ≤ 0xBF
    → load_logs desktop e ≡ e
unfolding load_logs
load_logs_broken desktop bytes rest b e file tail h k =
    ap (λ f. read_log f e) file
    ∙ (ap (λ (t : Bytes). shown_log (from_utf8 t) e) tail
        ∙ ap (λ o. shown_log o e) (from_utf8_broken b rest h (omega arith)))
