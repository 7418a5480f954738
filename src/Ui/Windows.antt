-- ===== src/Ui/Windows.antt =====
-- The messages on windows and logs: `handle_window_message`, `open_log_window` and `load_logs` of
-- ui/controller.rs.
use ferro_vela.Prelude.{
  ◌-◌, Bool, true, false, ◌||◌, Option, none, some, [], ◌∷◌, ◌==◌, if◌then◌else◌, length, drop,
  is_some, is_none,
}
use ferro_vela.Text.{Str}
use ferro_vela.Ui.{
  ConfigEditor, WindowId, Point, Message, open_logs, open_logs_at, tick, external, window_closed,
  window_close_requested, id_captured,
}
use ferro_vela.Ui.Desktop.{
  Desktop, Step, ask_position, gain_focus, unminimize, open_main_window, open_log_window,
  close_window, snap_to_end, remove_socket, exit_program,
}
use ferro_vela.Text.Utf8.{Bytes, from_utf8}

abbrev pub same_id : Option WindowId → WindowId → Bool
same_id none id = false
same_id (some w) id = w == id

-- The last 10,000 bytes of the log, if they are text; else the content stays.
abbrev pub shown_log : Option Str → ConfigEditor → ConfigEditor
shown_log none e = e
shown_log (some text) e = record e { log_content = text }

abbrev pub read_log : Option Bytes → ConfigEditor → ConfigEditor
read_log none e = e
read_log (some bytes) e = shown_log (from_utf8 (drop (length bytes - 10000) bytes)) e

unfoldable pub load_logs : Desktop → ConfigEditor → ConfigEditor
load_logs desktop e = read_log desktop.log_file e

unfoldable pub start_log_window : Desktop → Option Point → ConfigEditor → Step
start_log_window desktop main_pos e =
    let opened = record e { log_window_id = some desktop.new_window; log_content = [] } in
    (
      record (load_logs desktop opened) { show_logs = true },
      open_log_window desktop.new_window main_pos ∷ [],
    )

-- The guards of `OpenLogsAt` and of `Tick`.
abbrev pub log_window_at : Bool → Option Point → Desktop → ConfigEditor → Step
log_window_at true pos desktop e = start_log_window desktop pos e
log_window_at false pos desktop e = (e, [])

abbrev pub refreshed : Bool → Desktop → ConfigEditor → Step
refreshed true desktop e = (load_logs desktop e, snap_to_end ∷ [])
refreshed false desktop e = (e, [])

abbrev pub request_logs : Option WindowId → Option WindowId → Desktop → ConfigEditor → Step
request_logs (some id) main_id desktop e = (e, gain_focus id ∷ [])
request_logs none (some main_id) desktop e = (e, ask_position main_id ∷ [])
request_logs none none desktop e = start_log_window desktop none e

abbrev pub show_main : Option WindowId → Desktop → ConfigEditor → Step
show_main (some id) desktop e = (e, unminimize id ∷ gain_focus id ∷ [])
show_main none desktop e = (
  record e { main_window_id = some desktop.new_window },
  open_main_window desktop.new_window ∷ [],
)

abbrev pub close_logs : ConfigEditor → ConfigEditor
close_logs e = record e { log_window_id = none; show_logs = false }

unfoldable pub on_closed : WindowId → ConfigEditor → Step
on_closed id e =
    if same_id e.log_window_id id
    then (close_logs e, [])
    else if same_id e.main_window_id id
    then (record e { main_window_id = none }, remove_socket ∷ exit_program ∷ [])
    else (e, [])

unfoldable pub on_close_requested : WindowId → ConfigEditor → Step
on_close_requested id e =
    ((if same_id e.log_window_id id then close_logs e else e), close_window id ∷ [])

unfoldable pub on_captured : WindowId → ConfigEditor → ConfigEditor
on_captured id e =
    if same_id e.log_window_id id || same_id e.main_window_id id
    then e
    else record e { main_window_id = some id }

unfoldable pub handle_window_message : Desktop → Message → ConfigEditor → Step
handle_window_message desktop open_logs e = request_logs e.log_window_id e.main_window_id desktop e
handle_window_message desktop (open_logs_at pos) e =
    log_window_at (is_none e.log_window_id) pos desktop e
handle_window_message desktop tick e = refreshed (e.show_logs || is_some e.log_window_id) desktop e
handle_window_message desktop external e = show_main e.main_window_id desktop e
handle_window_message desktop (window_closed id) e = on_closed id e
handle_window_message desktop (window_close_requested id) e = on_close_requested id e
handle_window_message desktop (id_captured id) e = (on_captured id e, [])
handle_window_message desktop _ e = (e, [])
