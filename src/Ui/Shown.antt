-- ===== src/Ui/Shown.antt =====
-- Who can show the window through its socket.
use ferro_vela.Prelude.{
  ℕ, zero, suc, ◌≤◌, ◌≡◌, refl, sym, ap, ◌∙◌, subst, ◌≢◌, ◌↔◌, ◌⊎◌, inl, inr, true, false, ◌||◌,
  Option, some, List, [], ◌∷◌, arith, length, is_some,
}
use ferro_vela.Ui.{ConfigEditor, poll_status, tick, Message, external}
use ferro_vela.Ui.Desktop.{Desktop}
use ferro_vela.Ui.Windows.{handle_window_message}
use ferro_vela.Ui.Update.{update}
use ferro_vela.Ui.Show.{
  subscription, every, ui_show_stream, window_events, Accept, accept_error, peer, peer_is_owner,
  yields, SocketEnv, accept_loop, pull, left_of, followed, pull_all, End, waits, is_over,
}

-- What the connections of a socket make of the user's window: a connection of the user shows it once,
-- another's does not, and an error of `accept` ends the stream for good.
pub data Shown (own_uid : ℕ) : List Accept → List Message → End → Type 0 where
  idle : Shown own_uid [] [] waits
  broken : (rest : List Accept) → Shown own_uid (accept_error ∷ rest) [] is_over
  owner :
      (rest : List Accept) (ms : List Message) (end : End)
      → Shown own_uid rest ms end
      → Shown own_uid (peer (some own_uid) ∷ rest) (external ∷ ms) end
  stranger :
      (uid : Option ℕ) (rest : List Accept) (ms : List Message) (end : End)
      → uid ≢ some own_uid
      → Shown own_uid rest ms end
      → Shown own_uid (peer uid ∷ rest) ms end

abbrev pub ShownBy : ℕ → List Accept → List Message × End → Type 0
ShownBy own_uid accepts r = Shown own_uid accepts r.0 r.1

peer_is_owner-cases :
    (own_uid : ℕ) (uid : Option ℕ)
    → ((peer_is_owner own_uid uid ≡ true) × (uid ≡ some own_uid))
      ⊎ ((peer_is_owner own_uid uid ≡ false) × (uid ≢ some own_uid))
unfolding peer_is_owner
peer_is_owner-cases own_uid uid = ground arith

peer_is_owner-owner : (own_uid : ℕ) → peer_is_owner own_uid (some own_uid) ≡ true
unfolding peer_is_owner
peer_is_owner-owner own_uid = ground arith

peer_is_owner-stranger :
    (own_uid : ℕ) (uid : Option ℕ) → uid ≢ some own_uid → peer_is_owner own_uid uid ≡ false
peer_is_owner-stranger own_uid uid other = elim (peer_is_owner-cases own_uid uid) [
  | inl (_, same) ↦ absurd (other same)
  | inr (e, _) ↦ e
]

-- The messages of a listener that is there already.
abbrev pub listening_run : ℕ → SocketEnv → List Accept → List Message × End
listening_run fuel env accepts =
    let pulled = accept_loop env.own_uid accepts in
    followed pulled (pull_all fuel env true (left_of pulled))

listening_run-pull_all :
    (fuel : ℕ) (env : SocketEnv) (accepts : List Accept)
    → pull_all (suc fuel) env true accepts ≡ listening_run fuel env accepts
unfolding pull_all pull
listening_run-pull_all fuel env accepts = refl

-- A message is followed by those of the connections that are left.
owner_first :
    (fuel : ℕ) (env : SocketEnv) (rest : List Accept)
    → listening_run (suc fuel) env (peer (some env.own_uid) ∷ rest)
      ≡ followed (yields external rest) (listening_run fuel env rest)
unfolding accept_loop
owner_first fuel env rest =
    rw (peer_is_owner-owner env.own_uid, listening_run-pull_all fuel env rest) refl

stranger_first :
    (fuel : ℕ) (env : SocketEnv) (uid : Option ℕ) (rest : List Accept)
    → uid ≢ some env.own_uid
    → listening_run fuel env (peer uid ∷ rest) ≡ listening_run fuel env rest
unfolding accept_loop
stranger_first fuel env uid rest other = rw (peer_is_owner-stranger env.own_uid uid other) refl

-- As many units of fuel as there are connections are enough.
listening_run-Shown :
    (fuel : ℕ) (env : SocketEnv) (accepts : List Accept)
    → length accepts ≤ fuel
    → Shown env.own_uid accepts
        (listening_run fuel env accepts).0
        (listening_run fuel env accepts).1
unfolding accept_loop
listening_run-Shown fuel env [] h = idle
listening_run-Shown fuel env (accept_error ∷ rest) h = broken rest
listening_run-Shown zero env (peer uid ∷ rest) h = absurd (omega arith)
listening_run-Shown (suc fuel) env (peer uid ∷ rest) h =
    elim (peer_is_owner-cases env.own_uid uid) [
      | inl (_, same) ↦
          subst
            (λ u.
              ShownBy env.own_uid (peer u ∷ rest) (listening_run (suc fuel) env (peer u ∷ rest)))
            (sym same)
            (subst (ShownBy env.own_uid (peer (some env.own_uid) ∷ rest))
              (sym (owner_first fuel env rest))
              (owner rest _ _ (listening_run-Shown fuel env rest (omega (arith, h)))))
      | inr (_, other) ↦
          subst (ShownBy env.own_uid (peer uid ∷ rest))
            (sym (stranger_first (suc fuel) env uid rest other))
            (stranger uid rest _ _ other
              (listening_run-Shown (suc fuel) env rest (omega (arith, h))))
    ]

Shown-listening_run :
    (env : SocketEnv) (fuel : ℕ) (accepts : List Accept) (ms : List Message) (end : End)
    → length accepts ≤ fuel
    → Shown env.own_uid accepts ms end
    → listening_run fuel env accepts ≡ (ms, end)
unfolding accept_loop
Shown-listening_run env fuel _ _ _ h idle = refl
Shown-listening_run env fuel _ _ _ h (broken rest) = refl
Shown-listening_run env zero _ _ _ h (owner rest ms end s) = absurd (omega arith)
Shown-listening_run env (suc fuel) _ _ _ h (owner rest ms end s) =
    owner_first fuel env rest
    ∙ ap (followed (yields external rest))
        (Shown-listening_run env fuel rest ms end (omega (arith, h)) s)
Shown-listening_run env fuel _ _ _ h (stranger uid rest ms end other s) =
    stranger_first fuel env uid rest other
    ∙ Shown-listening_run env fuel rest ms end (omega (arith, h)) s

bound_first :
    (fuel : ℕ) (env : SocketEnv) (accepts : List Accept)
    → env.can_bind ≡ true
    → pull_all (suc fuel) env false accepts ≡ listening_run fuel env accepts
unfolding pull_all pull
bound_first fuel env accepts bound = rw bound refl

-- Where the socket can be bound, the window is shown by the connections of its own user, each once and
-- in order, until `accept` fails: then the stream is over, and no connection shows the window again.
-- Connections of others, and those whose user is not known, change nothing. As many pulls as there are
-- connections, and one, are enough.
pub pull_all_iff :
    (env : SocketEnv) (accepts : List Accept) (ms : List Message) (end : End)
    → env.can_bind ≡ true
    → (pull_all (suc (length accepts)) env false accepts ≡ (ms, end))
      ↔ Shown env.own_uid accepts ms end
pull_all_iff env accepts ms end bound = (
  λ e.
      subst (ShownBy env.own_uid accepts) (sym (bound_first (length accepts) env accepts bound) ∙ e)
        (listening_run-Shown (length accepts) env accepts (omega arith)),
  λ s.
      bound_first (length accepts) env accepts bound
      ∙ Shown-listening_run env (length accepts) accepts ms end (omega arith) s,
)

-- Without a log window the clock of the log is not subscribed to, and its message would do nothing.
tick-idle :
    (desktop : Desktop) (e : ConfigEditor)
    → (e.show_logs || is_some e.log_window_id) ≡ false
    → (subscription e ≡ every 3000 poll_status ∷ ui_show_stream ∷ window_events ∷ [])
      × (update desktop tick e ≡ (e, []))
unfolding subscription update handle_window_message
tick-idle desktop e h = (rw h refl, rw h refl)
