-- ===== src/Ui/Desktop.antt =====
-- What the handlers of ui/controller.rs do outside of the editor, and what they ask the system for.
use ferro_vela.Prelude.{ℕ, Bool, Option, List}
use ferro_vela.Text.{Str}
use ferro_vela.Ui.{ConfigEditor, WindowId, Point}
use ferro_vela.Config.{Config}
use ferro_vela.Text.Utf8.{Bytes}

-- A save always succeeds, as `save_config` does. A log window opens at the place of the system's choice,
-- or 40 points right of and below another.
pub data Effect : Type 0 where
  save : Config → Effect
  set_password : Str → Str → Effect
  delete_credential : Str → Effect
  ask_unlock : Effect
  ask_position : WindowId → Effect
  gain_focus : WindowId → Effect
  unminimize : WindowId → Effect
  open_main_window : WindowId → Effect
  open_log_window : WindowId → Option Point → Effect
  close_window : WindowId → Effect
  snap_to_end : Effect
  remove_socket : Effect
  exit_program : Effect
  stop_service : Effect
  start_service : Effect

-- Files, the time, whether the service runs, and how a stop or a start of it ends that stands behind
-- some effects of the same handler, none for success. The bytes of the log, none where it cannot be read; the number of the next new window.
pub record Desktop : Type 0 where
  pub exists : Str → Bool
  pub now : ℕ
  pub is_running : Bool
  pub start : List Effect → Option Str
  pub stop : List Effect → Option Str
  pub prefers_dark : Bool
  pub log_file : Option Bytes
  pub new_window : WindowId

abbrev pub Step : Type 0
Step = ConfigEditor × List Effect
