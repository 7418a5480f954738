-- ===== src/Auth/Sessions.antt =====
-- What the sessions answer: the NTLM exchange as a state machine, and the scheme of every token.
use ferro_vela.Prelude.{◌≡◌, ◌↔◌, refl, sym, ap, ◌∙◌, subst, ◌++◌, Option, none, some}
use ferro_vela.Text.{Str, codes}
use ferro_vela.Text.Match.{strip_prefix, strip_prefix_sound, strip_prefix-append}
use ferro_vela.Text.Split.{trim}
use ferro_vela.Text.Utf8.{Bytes}
use ferro_vela.Auth.{
  Services, Session, ntlm_session, NtlmCredentials, NtlmState, initial, challenged, complete, token,
  ntlm_token, respond_to, respond_message, respond_text, ntlm_step,
}

none_not_some {ℓ} : {A : Type ℓ} {a : A} → none ≡ some a → ⊥
none_not_some e = cc

some_injective {ℓ} : {A : Type ℓ} {a b : A} → some a ≡ some b → a ≡ b
some_injective e = cc

module _ (sv : Services) where
  -- The answer to a Type 2 message: its text, its bytes, and the Type 3 message made from it.
  pub record Responds (c : NtlmCredentials) (challenge : Option Str) (header : Str) : Type 0 where
    pub b64 : Str
    pub bytes : Bytes
    pub message : sv.NtlmChallenge
    pub reply : Bytes
    pub scheme : challenge ≡ some (codes "NTLM " ++ b64)
    pub decoded : sv.decode (trim b64) ≡ some bytes
    pub type_2 : sv.ntlm_read bytes ≡ some (some message)
    pub type_3 : sv.ntlm_respond message c.username c.password c.domain c.workstation ≡ some reply
    pub sent : header ≡ codes "NTLM " ++ sv.encode reply

  -- The moves of the exchange: a Type 1 message to begin with, whatever the challenge is, and then a
  -- Type 3 message for a Type 2 one. There is no move from the complete state.
  pub data NtlmMove (c : NtlmCredentials) : NtlmState → Option Str → Str → NtlmState → Type 0 where
    negotiate :
        {challenge : Option Str} {header : Str} (bytes : Bytes)
        → sv.ntlm_negotiate c.domain c.workstation ≡ some bytes
        → header ≡ codes "NTLM " ++ sv.encode bytes
        → NtlmMove c initial challenge header challenged
    respond :
        {challenge : Option Str} {header : Str}
        → Responds c challenge header
        → NtlmMove c challenged challenge header complete

  ntlm_token_sound :
      (o : Option Bytes) (s : Session sv) (header : Str) (next : Session sv)
      → ntlm_token sv o s ≡ token header next
      → (bytes : Bytes) × (o ≡ some bytes)
        × (header ≡ codes "NTLM " ++ sv.encode bytes)
        × (next ≡ s)
  ntlm_token_sound none s header next h = cc
  ntlm_token_sound (some bytes) s header next h = (bytes, refl, cc, cc)

  respond_message_sound :
      (c : NtlmCredentials) (b64 : Str) (bytes : Bytes) (o : Option (Option sv.NtlmChallenge))
      (header : Str) (next : Session sv)
      → sv.decode (trim b64) ≡ some bytes
      → sv.ntlm_read bytes ≡ o
      → respond_message sv c o ≡ token header next
      → Responds c (some (codes "NTLM " ++ b64)) header × (next ≡ ntlm_session c complete)
  respond_message_sound c b64 bytes none header next d r h = cc
  respond_message_sound c b64 bytes (some none) header next d r h = cc
  respond_message_sound c b64 bytes (some (some m)) header next d r h =
      let (reply, made, text, after) = ntlm_token_sound _ _ header next h in
      (
        record {
          b64 = b64;
          bytes = bytes;
          message = m;
          reply = reply;
          scheme = refl;
          decoded = d;
          type_2 = r;
          type_3 = made;
          sent = text;
        },
        after,
      )

  respond_to_sound :
      (c : NtlmCredentials) (b64 : Str) (o : Option Bytes) (header : Str) (next : Session sv)
      → sv.decode (trim b64) ≡ o
      → respond_to sv c o ≡ token header next
      → Responds c (some (codes "NTLM " ++ b64)) header × (next ≡ ntlm_session c complete)
  respond_to_sound c b64 none header next d h = cc
  respond_to_sound c b64 (some bytes) header next d h =
      respond_message_sound c b64 bytes (sv.ntlm_read bytes) header next d refl h

  respond_text_sound :
      (c : NtlmCredentials) (text : Str) (o : Option Str) (header : Str) (next : Session sv)
      → strip_prefix text (codes "NTLM ") ≡ o
      → respond_text sv c o ≡ token header next
      → Responds c (some text) header × (next ≡ ntlm_session c complete)
  respond_text_sound c text none header next s h = cc
  respond_text_sound c text (some b64) header next s h =
      subst (λ t. Responds c (some t) header × (next ≡ ntlm_session c complete))
        (sym (strip_prefix_sound text (codes "NTLM ") b64 s))
        (respond_to_sound c b64 (sv.decode (trim b64)) header next refl h)

  -- A token is a move of the exchange, and the session goes to the state of that move.
  pub ntlm_step_sound :
      (c : NtlmCredentials) (state : NtlmState) (challenge : Option Str) (header : Str)
      (next : Session sv)
      → ntlm_step sv c state challenge ≡ token header next
      → (after : NtlmState) × NtlmMove c state challenge header after
        × (next ≡ ntlm_session c after)
  unfolding ntlm_step
  ntlm_step_sound c initial challenge header next h =
      let (bytes, made, text, after) = ntlm_token_sound _ _ header next h in
      (challenged, negotiate bytes made text, after)
  ntlm_step_sound c challenged none header next h = cc
  ntlm_step_sound c challenged (some text) header next h =
      let (move, after) = respond_text_sound c text _ header next refl h in
      (complete, respond move, after)
  ntlm_step_sound c complete challenge header next h = cc

  same_state :
      {c : NtlmCredentials} {a b : NtlmState} {s : Session sv}
      → s ≡ ntlm_session c a
      → s ≡ ntlm_session c b
      → a ≡ b
  same_state d e = cc

  Responds-complete :
      (c : NtlmCredentials) (challenge : Option Str) (header : Str)
      → Responds c challenge header
      → ntlm_step sv c challenged challenge ≡ token header (ntlm_session c complete)
  unfolding ntlm_step
  Responds-complete c none header r = absurd (none_not_some r.scheme)
  Responds-complete c (some text) header r =
      ap (respond_text sv c) (
        ap (λ t. strip_prefix t (codes "NTLM ")) (some_injective r.scheme)
        ∙ strip_prefix-append (codes "NTLM ") r.b64)
      ∙ rw (r.decoded, r.type_2, r.type_3, r.sent)

  pub ntlm_step_complete :
      {c : NtlmCredentials} {state after : NtlmState} {challenge : Option Str} {header : Str}
      → NtlmMove c state challenge header after
      → ntlm_step sv c state challenge ≡ token header (ntlm_session c after)
  unfolding ntlm_step
  ntlm_step_complete (negotiate bytes made text) = rw (made, text)
  ntlm_step_complete {c} (respond {challenge} {header} r) = Responds-complete c challenge header r

  -- An NTLM session sends its token exactly by a move of the exchange.
  pub ntlm_step_iff :
      (c : NtlmCredentials) (state : NtlmState) (challenge : Option Str) (header : Str)
      (after : NtlmState)
      → (ntlm_step sv c state challenge ≡ token header (ntlm_session c after))
        ↔ NtlmMove c state challenge header after
  ntlm_step_iff c state challenge header after = (
    λ h.
        let (reached, move, e) = ntlm_step_sound c state challenge header _ h in
        subst (NtlmMove c state challenge header) (sym (same_state refl e)) move,
    ntlm_step_complete,
  )
