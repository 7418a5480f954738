-- ===== src/Tunnel/Rounds.antt =====
-- The challenge-response loop against a relation of its rounds.
use ferro_vela.Prelude.{
  subst, ℕ, zero, suc, ◌≡◌, ◌≢◌, ◌↔◌, refl, false, Option, some, arith, ◌==◌, Bool-cases, inl, inr,
  ==_iff,
}
use ferro_vela.Text.{Str}
use ferro_vela.Effect.{Io, done, fail, pending, panicked}
use ferro_vela.Socket.{Stream}
use ferro_vela.Http.{Memmem}
use ferro_vela.Auth.{Answer, token, silent, failed}
use ferro_vela.Tunnel.{exchange, after_response, answered, auth_rounds}

pub done_injective {ℓ} : {A : Type ℓ} {a b : A} → done a ≡ done b → a ≡ b
done_injective e = cc

not_200 : (n : ℕ) → n ≢ 200 → (n == 200) ≡ false
not_200 n h = ground arith

module _ {S : Type 0} (mem : Memmem) (step : S → Option Str → Answer S) (target : Str) where
  -- A token was made from the challenge, sent, and answered with this status and challenge.
  pub record Round (session : S) (challenge : Option Str) (stream : Stream) (next : S) (status : ℕ)
      (reply : Option Str) (after : Stream) : Type 0 where
    pub header : Str
    pub made : step session challenge ≡ token header next
    pub answer : exchange mem target (some header) stream ≡ done ((status, reply), after)

  -- In at most that many rounds, each begun at status 407, the proxy answers 200.
  pub data Opens : ℕ → S → ℕ → Option Str → Stream → Stream → Type 0 where
    accepted :
        {n : ℕ} {session next : S} {status new_status : ℕ} {challenge reply : Option Str}
        {stream opened : Stream}
        → status ≡ 407
        → Round session challenge stream next new_status reply opened
        → new_status ≡ 200
        → Opens (suc n) session status challenge stream opened
    challenged :
        {n : ℕ} {session next : S} {status new_status : ℕ} {challenge reply : Option Str}
        {stream after opened : Stream}
        → status ≡ 407
        → Round session challenge stream next new_status reply after
        → new_status ≢ 200
        → Opens n next new_status reply after opened
        → Opens (suc n) session status challenge stream opened

  abbrev Sound : ℕ → Type 0
  Sound n =
      (session : S) (status : ℕ) (challenge : Option Str) (stream opened : Stream)
      → auth_rounds mem step target n session status challenge stream ≡ done opened
      → Opens n session status challenge stream opened

  after_response-Sound :
      (n : ℕ) (session next : S) (status : ℕ) (challenge : Option Str) (stream opened : Stream)
      (header : Str) (r : Io ((ℕ × Option Str) × Stream))
      → Sound n
      → status ≡ 407
      → step session challenge ≡ token header next
      → exchange mem target (some header) stream ≡ r
      → after_response (auth_rounds mem step target n next) r ≡ done opened
      → Opens (suc n) session status challenge stream opened
  after_response-Sound n session next status challenge stream opened header
        (done ((new, reply), after)) ih c m x h =
      elim (Bool-cases (new == 200)) [
        | inl ok ↦
            subst (λ s. Opens (suc n) session status challenge stream s)
              (done_injective (rw (ok, after_response) at h))
              (accepted c (record { header = header; made = m; answer = x })
                ((==_iff new 200).0 ok))
        | inr other ↦
            challenged c (record { header = header; made = m; answer = x }) (ground arith)
              (ih next new reply after opened (rw (other, after_response) at h))
      ]
  after_response-Sound n session next status challenge stream opened header (fail e) ih c m x h = cc
  after_response-Sound n session next status challenge stream opened header pending ih c m x h = cc
  after_response-Sound n session next status challenge stream opened header panicked ih c m x h = cc

  answered-Sound :
      (n : ℕ) (session : S) (status : ℕ) (challenge : Option Str) (stream opened : Stream)
      (a : Answer S)
      → Sound n
      → status ≡ 407
      → step session challenge ≡ a
      → answered mem step target (auth_rounds mem step target n) stream a ≡ done opened
      → Opens (suc n) session status challenge stream opened
  answered-Sound n session status challenge stream opened failed ih c m h = cc
  answered-Sound n session status challenge stream opened (silent s) ih c m h = cc
  answered-Sound n session status challenge stream opened (token header next) ih c m h =
      after_response-Sound n session next status challenge stream opened header _ ih c m refl h

  auth_rounds-Sound : (n : ℕ) → Sound n
  unfolding auth_rounds
  auth_rounds-Sound zero session status challenge stream opened h = cc
  auth_rounds-Sound (suc n) session status challenge stream opened h =
      elim (Bool-cases (status == 407)) [
        | inl asked ↦
            answered-Sound n session status challenge stream opened _ (auth_rounds-Sound n)
              ((==_iff status 407).0 asked) refl (rw (asked, auth_rounds) at h)
        | inr other ↦ cc (rw (other, auth_rounds) at h)
      ]

  auth_rounds_complete :
      {n : ℕ} {session : S} {status : ℕ} {challenge : Option Str} {stream opened : Stream}
      → Opens n session status challenge stream opened
      → auth_rounds mem step target n session status challenge stream ≡ done opened
  unfolding auth_rounds
  auth_rounds_complete (accepted e r ok) =
      rw (e, auth_rounds) (rw r.made (rw r.answer (rw (ok, after_response))))
  auth_rounds_complete (challenged e r ne o) =
      rw (e, auth_rounds)
        (rw r.made (rw r.answer (rw (not_200 _ ne, after_response) (auth_rounds_complete o))))

  -- The loop with that many rounds left opens a tunnel exactly where the relation does.
  pub auth_rounds_iff :
      (n : ℕ) (session : S) (status : ℕ) (challenge : Option Str) (stream opened : Stream)
      → (auth_rounds mem step target n session status challenge stream ≡ done opened)
        ↔ Opens n session status challenge stream opened
  auth_rounds_iff n session status challenge stream opened =
      (auth_rounds-Sound n session status challenge stream opened, auth_rounds_complete)
