-- ===== src/Ui/ShownTests.antt =====
-- A socket of user 501 to which others connect too.
use ferro_vela.Prelude.{◌≡◌, refl, ◌↔◌, true, false, none, some, List, [], ◌∷◌}
use ferro_vela.Ui.{external}
use ferro_vela.Ui.Show.{
  Accept, accept_error, peer, SocketEnv, pull, pull_all, waits, is_over, remove_file, bind,
  set_owner_only, ui_main, signals_other,
}
use ferro_vela.Ui.Shown.{Shown, pull_all_iff}

abbrev own_socket : SocketEnv
own_socket = record { own_uid = 501; can_bind = true }

abbrev taken_socket : SocketEnv
taken_socket = record { own_uid = 501; can_bind = false }

abbrev connections : List Accept
connections =
    peer (some 501)
    ∷ peer (some 0)
    ∷ peer none
    ∷ peer (some 501)
    ∷ accept_error
    ∷ peer (some 501)
    ∷ []

-- An error of `accept` ends the stream, whoever connects behind it.
pull_all_iff_example :
    (pull_all 7 own_socket false connections ≡ (external ∷ external ∷ [], is_over))
    ↔ Shown 501 connections (external ∷ external ∷ []) is_over
pull_all_iff_example = pull_all_iff own_socket connections (external ∷ external ∷ []) is_over refl

two_shows : pull_all 7 own_socket false connections ≡ (external ∷ external ∷ [], is_over)
unfolding pull_all pull ferro_vela.Ui.Show.accept_loop ferro_vela.Ui.Show.peer_is_owner
two_shows = refl

no_listener : pull_all 7 taken_socket false connections ≡ ([], waits)
unfolding pull_all pull
no_listener = refl

restricted_first : (pull own_socket false []).1 ≡ remove_file ∷ bind ∷ set_owner_only ∷ []
unfolding pull
restricted_first = refl

second_instance : ui_main true none ≡ signals_other
unfolding ui_main
second_instance = refl
