-- ===== src/Tunnel/Ntlm.antt =====
-- The NTLM exchange inside the CONNECT handshake of proxy/auth_tunnel.rs.
use ferro_vela.Prelude.{◌<◌, arith, subst, sym, ℕ, ◌≡◌, Option}
use ferro_vela.Tunnel.Connect.{Handshake, perform_authenticated_connect-measure}
use ferro_vela.Auth.{
  kerberos_session, mock_session, basic_session, NtlmCredentials, create_session, Session,
  ntlm_session, Services, initial, complete, step, NtlmState, ntlm, challenged, token,
}
use ferro_vela.Socket.{Stream}
use ferro_vela.Tunnel.{perform_authenticated_connect}
use ferro_vela.Auth.Sessions.{respond, NtlmMove, negotiate, ntlm_step_sound}
use ferro_vela.Http.{Memmem}
use ferro_vela.Effect.{done}
use ferro_vela.Text.{Str}

-- The tokens that the exchange can still send.
abbrev moves_left : NtlmState → ℕ
moves_left initial = 2
moves_left challenged = 1
moves_left complete = 0

module _ (sv : Services) where
  abbrev session_moves : Session sv → ℕ
  session_moves (ntlm_session c state) = moves_left state
  session_moves _ = 0

  abbrev IsNtlm : Session sv → Type 0
  IsNtlm (ntlm_session c state) = Unit
  IsNtlm _ = ⊥

  move_lowers :
      {c : NtlmCredentials} {state after : NtlmState} {challenge : Option Str} {header : Str}
      → NtlmMove sv c state challenge header after
      → moves_left after < moves_left state
  move_lowers (negotiate bytes made text) = omega arith
  move_lowers (respond r) = omega arith

  step_lowers :
      (s next : Session sv) (challenge : Option Str) (header : Str)
      → IsNtlm s
      → step sv s challenge ≡ token header next
      → IsNtlm next × (session_moves next < session_moves s)
  unfolding step
  step_lowers (ntlm_session c state) next challenge header k h =
      let (after, move, e) = ntlm_step_sound sv c state challenge header next h in
      subst (λ n. IsNtlm n × (session_moves n < moves_left state)) (sym e) (tt, move_lowers move)
  step_lowers (basic_session _) next challenge header k h = absurd k
  step_lowers (kerberos_session _ _) next challenge header k h = absurd k
  step_lowers mock_session next challenge header k h = absurd k

  -- A tunnel that opens with an NTLM session from its start has cost at most three requests: one with
  -- no authorization and at most two with a token.
  pub ntlm-Handshake_bounded :
      (mem : Memmem) (target : Str) (c : NtlmCredentials) (s opened : Stream)
      → perform_authenticated_connect mem (step sv) target (create_session sv (ntlm c)) s
        ≡ done opened
      → Handshake target 2 s opened
  unfolding create_session
  ntlm-Handshake_bounded mem target c s opened h =
      perform_authenticated_connect-measure mem (step sv) target session_moves IsNtlm
        (record { lowers = step_lowers }) (ntlm_session c initial) s opened tt h
