-- ===== src/Ui/Show.antt =====
-- The subscriptions of ui/controller.rs, the socket by which another instance shows the window, and what
-- main.rs of crates/ferrovela-ui does with that socket.
use ferro_vela.Prelude.{
  ℕ, zero, suc, Bool, true, false, ◌||◌, Option, none, some, List, [], ◌∷◌, ◌++◌, ◌==◌,
  if◌then◌else◌, is_some,
}
use ferro_vela.Text.{Str}
use ferro_vela.Ui.{
  ConfigEditor, WindowId, Message, tick, external, poll_status, window_closed,
  window_close_requested, id_captured,
}

-- What `iced` reports of a window.
pub data WindowEvent : Type 0 where
  close_requested closed other_change : WindowEvent

pub data IcedEvent : Type 0 where
  window_event : WindowEvent → IcedEvent
  other_event : IcedEvent

-- The closure that `listen_with` is given.
unfoldable pub listened : IcedEvent → WindowId → Option Message
listened (window_event close_requested) id = some (window_close_requested id)
listened (window_event closed) id = some (window_closed id)
listened (window_event other_change) id = some (id_captured id)
listened other_event id = none

-- What the runtime listens to: a clock with its period in milliseconds, the stream of the socket, the
-- events of the windows.
pub data Subscription : Type 0 where
  every : ℕ → Message → Subscription
  ui_show_stream : Subscription
  window_events : Subscription

abbrev pub tick_source : Bool → List Subscription
tick_source true = every 500 tick ∷ []
tick_source false = []

unfoldable pub subscription : ConfigEditor → List Subscription
subscription e =
    tick_source (e.show_logs || is_some e.log_window_id)
    ++ (every 3000 poll_status ∷ ui_show_stream ∷ window_events ∷ [])

-- How `accept` ends: with an error, or with a connection, whose user `getpeereid` tells or not.
pub data Accept : Type 0 where
  accept_error : Accept
  peer : Option ℕ → Accept

unfoldable pub peer_is_owner : ℕ → Option ℕ → Bool
peer_is_owner own_uid none = false
peer_is_owner own_uid (some peer_uid) = peer_uid == own_uid

-- The socket's file, at the path of the socket.
pub data SocketCall : Type 0 where
  remove_file bind set_owner_only : SocketCall

-- One run of the closure of `unfold`: it waits for ever, the stream is over, or a message with the
-- connections that are left for the listener.
pub data Pulled : Type 0 where
  pending : Pulled
  over : Pulled
  yields : Message → List Accept → Pulled

unfoldable pub accept_loop : ℕ → List Accept → Pulled
accept_loop own_uid [] = pending
accept_loop own_uid (accept_error ∷ rest) = over
accept_loop own_uid (peer uid ∷ rest) =
    let next = accept_loop own_uid rest in
    if peer_is_owner own_uid uid then yields external rest else next

-- The user of this process, and whether the socket can be bound.
pub record SocketEnv : Type 0 where
  pub own_uid : ℕ
  pub can_bind : Bool

-- Whether there is a listener already. A failure to set the permissions is only logged.
unfoldable pub pull : SocketEnv → Bool → List Accept → Pulled × List SocketCall
pull env true accepts = (accept_loop env.own_uid accepts, [])
pull env false accepts =
    if env.can_bind
    then (accept_loop env.own_uid accepts, remove_file ∷ bind ∷ set_owner_only ∷ [])
    else (pending, remove_file ∷ bind ∷ [])

-- How a stream goes on that the runtime keeps pulling.
pub data End : Type 0 where
  waits is_over out_of_fuel : End

abbrev pub left_of : Pulled → List Accept
left_of pending = []
left_of over = []
left_of (yields m rest) = rest

abbrev pub followed : Pulled → List Message × End → List Message × End
followed pending next = ([], waits)
followed over next = ([], is_over)
followed (yields m rest) next = (m ∷ next.0, next.1)

unfoldable pub pull_all : ℕ → SocketEnv → Bool → List Accept → List Message × End
pull_all zero env listening accepts = ([], out_of_fuel)
pull_all (suc fuel) env listening accepts =
    let pulled = (pull env listening accepts).0 in
    followed pulled (pull_all fuel env true (left_of pulled))

-- `main` of crates/ferrovela-ui, after the logger and the keychain are set up.
pub data UiMain : Type 0 where
  signals_other : UiMain
  runs : Option Str → UiMain

unfoldable pub ui_main : Bool → Option Str → UiMain
ui_main true error = signals_other
ui_main false error = runs error
