-- ===== src/Auth/Schemes.antt =====
-- The scheme of what a session sends, over all its life.
use ferro_vela.Prelude.{
  All, List, subst, ◌∙◌, refl, Option, some, ◌∷◌, sym, true, [], ◌++◌, ap, ◌≡◌, none,
}
use ferro_vela.Auth.{
  kerberos_answer, create_session, input_token, NtlmCredentials, ntlm, ntlm_step, Session,
  kerberos_step, mock_kerberos, ntlm_session, kerberos_session, token, Authenticator, gss_answer,
  Services, NtlmState, mock_session, step, basic, basic_session, kerberos,
}
use ferro_vela.Text.{Str, codes}
use ferro_vela.Text.Match.{starts_with, starts_with-append}
use ferro_vela.Text.Utf8.{Bytes}
use ferro_vela.Auth.Sessions.{NtlmMove, ntlm_step_sound, negotiate, respond}

token_text : {S : Type 0} {h k : Str} {s t : S} → token h s ≡ token k t → h ≡ k
token_text e = cc

token_session : {S : Type 0} {h k : Str} {s t : S} → token h s ≡ token k t → s ≡ t
token_session e = cc

module _ (sv : Services) where
  abbrev scheme_of : Authenticator → Str
  scheme_of (basic encoded) = codes "Basic "
  scheme_of (ntlm c) = codes "NTLM "
  scheme_of (kerberos service) = codes "Negotiate "
  scheme_of mock_kerberos = codes "Negotiate "

  abbrev session_scheme : Session sv → Str
  session_scheme (basic_session encoded) = codes "Basic "
  session_scheme (ntlm_session c state) = codes "NTLM "
  session_scheme (kerberos_session service ctx) = codes "Negotiate "
  session_scheme mock_session = codes "Negotiate "

  -- A session after a token is of the same scheme, and the token is of this scheme.
  abbrev KeepsScheme : Session sv → Str → Session sv → Type 0
  KeepsScheme s header next =
      (starts_with header (session_scheme s) ≡ true) × (session_scheme next ≡ session_scheme s)

  keeps :
      (scheme text : Str) (s next : Session sv) (header : Str)
      → token (scheme ++ text) s ≡ token header next
      → session_scheme s ≡ scheme
      → (starts_with header scheme ≡ true) × (session_scheme next ≡ scheme)
  keeps scheme text s next header h e = (
    ap (λ t. starts_with t scheme) (sym (token_text h)) ∙ starts_with-append scheme text,
    ap session_scheme (sym (token_session h)) ∙ e,
  )

  basic_keeps :
      (e : Str) (challenge : Option Str) (header : Str) (next : Session sv)
      → step sv (basic_session e) challenge ≡ token header next
      → KeepsScheme (basic_session e) header next
  unfolding step
  basic_keeps e challenge header next h =
      keeps (codes "Basic ") e (basic_session e) next header h refl

  move_scheme :
      {c : NtlmCredentials} {state after : NtlmState} {challenge : Option Str} {header : Str}
      → NtlmMove sv c state challenge header after
      → starts_with header (codes "NTLM ") ≡ true
  move_scheme (negotiate bytes made text) =
      rw text (starts_with-append (codes "NTLM ") (sv.encode bytes))
  move_scheme (respond r) = rw r.sent (starts_with-append (codes "NTLM ") (sv.encode r.reply))

  ntlm_keeps :
      (c : NtlmCredentials) (state : NtlmState) (challenge : Option Str) (header : Str)
      (next : Session sv)
      → ntlm_step sv c state challenge ≡ token header next
      → KeepsScheme (ntlm_session c state) header next
  ntlm_keeps c state challenge header next h =
      let (after, move, e) = ntlm_step_sound sv c state challenge header next h in
      (move_scheme move, ap session_scheme e)

  gss_keeps :
      (service : Str) (ctx : Option sv.GssContext) (r : Option (Option Bytes) × sv.GssContext)
      (header : Str) (next : Session sv)
      → gss_answer sv service r ≡ token header next
      → KeepsScheme (kerberos_session service ctx) header next
  gss_keeps service ctx (none, after) header next h = cc
  gss_keeps service ctx (some none, after) header next h = cc
  gss_keeps service ctx (some (some bytes), after) header next h =
      keeps (codes "Negotiate ") (sv.encode bytes) (kerberos_session service (some after)) next
        header h refl

  answer_keeps :
      (service : Str) (before ctx : Option sv.GssContext) (input : Option (Option Bytes))
      (header : Str) (next : Session sv)
      → kerberos_answer sv service ctx input ≡ token header next
      → KeepsScheme (kerberos_session service before) header next
  answer_keeps service before ctx none header next h = cc
  answer_keeps service before none (some input) header next h = cc
  answer_keeps service before (some c) (some input) header next h =
      gss_keeps service before (sv.gss_step c input) header next h

  kerberos_keeps :
      (service : Str) (ctx : Option sv.GssContext) (challenge : Option Str) (header : Str)
      (next : Session sv)
      → kerberos_step sv service ctx challenge ≡ token header next
      → KeepsScheme (kerberos_session service ctx) header next
  unfolding kerberos_step
  kerberos_keeps service ctx challenge header next h =
      answer_keeps service ctx _ (input_token sv challenge) header next h

  step_keeps :
      (s : Session sv) (challenge : Option Str) (header : Str) (next : Session sv)
      → step sv s challenge ≡ token header next
      → KeepsScheme s header next
  unfolding step
  step_keeps (basic_session e) challenge header next h = basic_keeps e challenge header next h
  step_keeps (ntlm_session c state) challenge header next h =
      ntlm_keeps c state challenge header next h
  step_keeps (kerberos_session service ctx) challenge header next h =
      kerberos_keeps service ctx challenge header next h
  step_keeps mock_session challenge header next h =
      keeps (codes "Negotiate ") (codes "MockKerberosToken") mock_session next header h refl

  -- The sessions that an authenticator's session becomes, with the tokens sent on the way.
  pub data Conversation : Session sv → List Str → Session sv → Type 0 where
    begun : {s : Session sv} → Conversation s [] s
    answered :
        {s middle last : Session sv} {tokens : List Str} {header : Str} (challenge : Option Str)
        → step sv s challenge ≡ token header middle
        → Conversation middle tokens last
        → Conversation s (header ∷ tokens) last

  conversation_scheme :
      {s last : Session sv} {tokens : List Str}
      → Conversation s tokens last
      → All (λ t. starts_with t (session_scheme s) ≡ true) tokens
  conversation_scheme begun = tt
  conversation_scheme (answered {s} {middle} {tokens = tokens} {header} challenge h more) =
      let (this, same) = step_keeps s challenge header middle h in
      (this, subst (λ x. All (λ t. starts_with t x ≡ true) tokens) same (conversation_scheme more))

  created_scheme : (a : Authenticator) → session_scheme (create_session sv a) ≡ scheme_of a
  unfolding create_session
  created_scheme (basic e) = refl
  created_scheme (ntlm c) = refl
  created_scheme (kerberos service) = refl
  created_scheme mock_kerberos = refl

  -- Every token that a session of an authenticator ever sends, whatever the challenges are, is of the
  -- authenticator's scheme.
  pub conversation-scheme_of :
      (a : Authenticator) (last : Session sv) (tokens : List Str)
      → Conversation (create_session sv a) tokens last
      → All (λ t. starts_with t (scheme_of a) ≡ true) tokens
  conversation-scheme_of a last tokens c =
      subst (λ x. All (λ t. starts_with t x ≡ true) tokens) (created_scheme a)
        (conversation_scheme c)
