-- ===== src/Tunnel/Connect.antt =====
-- What is sent in a handshake that opens the tunnel, and how often.
use ferro_vela.Prelude.{
  ℕ, suc, ◌≤◌, ◌<◌, ◌≡◌, refl, sym, ap, ◌∙◌, subst, Bool, true, false, List, [], ◌∷◌, ◌++◌, map,
  Option, none, some, arith, ◌==◌, Bool-cases, inl, inr, length, append_assoc, append-nil,
}
use ferro_vela.Text.{Str}
use ferro_vela.Text.Utf8.{Bytes, as_bytes}
use ferro_vela.Effect.{Io, done, fail, pending, panicked, >>=-eq-done}
use ferro_vela.Socket.{Stream, write_accepted, Event}
use ferro_vela.Http.{Memmem}
use ferro_vela.Auth.{Answer, token}
use ferro_vela.Tunnel.{
  connect_request, send_connect, read_proxy_response, exchange, after_response, auth_rounds,
  perform_authenticated_connect,
}
use ferro_vela.Tunnel.Rounds.{Opens, accepted, challenged, auth_rounds_iff, done_injective}

-- The bytes of the CONNECT requests with these authorizations.
abbrev pub requests : Str → List (Option Str) → List Bytes
requests target auths = map (λ a. as_bytes (connect_request target a)) auths

abbrev keep_stream : Stream → (ℕ × Option Str) × List Event → Io ((ℕ × Option Str) × Stream)
keep_stream s1 (response, rest) = done (response, record s1 { incoming = rest })

write_accepted-sent :
    (acks : List Bool) (bytes : Bytes) (s s' : Stream)
    → write_accepted acks bytes s ≡ done s'
    → s'.sent ≡ s.sent ++ (bytes ∷ [])
write_accepted-sent [] bytes s s' h = ap (λ (x : Stream). x.sent) (sym (done_injective h))
write_accepted-sent (true ∷ more) bytes s s' h =
    ap (λ (x : Stream). x.sent) (sym (done_injective h))
write_accepted-sent (false ∷ more) bytes s s' h = cc

module _ (mem : Memmem) (target : Str) where
  -- An exchange that is answered has sent one request.
  exchange-sent :
      (auth : Option Str) (s s' : Stream) (r : ℕ × Option Str)
      → exchange mem target auth s ≡ done (r, s')
      → s'.sent ≡ s.sent ++ requests target (auth ∷ [])
  unfolding exchange send_connect
  exchange-sent auth s s' r h =
      let (s1, written, read) = >>=-eq-done (send_connect s target auth) _ h in
      let (p, e, kept) = >>=-eq-done (read_proxy_response mem s1.incoming) _ read in
      ap (λ (q : (ℕ × Option Str) × Stream). q.1.sent) (sym (done_injective kept))
      ∙ write_accepted-sent s.accepts _ s s1 written

-- The tokens sent between two states of the stream, at most so many.
pub record Sent (target : Str) (most : ℕ) (before after : Stream) : Type 0 where
  pub tokens : List Str
  pub bounded : length tokens ≤ most
  pub appended : after.sent ≡ before.sent ++ requests target (map (λ h. some h) tokens)

Sent-nil : (target : Str) (most : ℕ) (s : Stream) → Sent target most s s
Sent-nil target most s = record {
  tokens = [];
  bounded = omega arith;
  appended = sym (append-nil s.sent);
}

module _ (mem : Memmem) (target : Str) where
  Sent-cons :
      (most : ℕ) (header : Str) (r : ℕ × Option Str) (s s1 s' : Stream)
      → exchange mem target (some header) s ≡ done (r, s1)
      → Sent target most s1 s'
      → Sent target (suc most) s s'
  Sent-cons most header r s s1 s' x q = record {
    tokens = header ∷ q.tokens;
    bounded = omega (arith, q.bounded);
    appended =
        q.appended
        ∙ ap (λ (l : List Bytes). l ++ requests target (map (λ h. some h) q.tokens))
            (exchange-sent mem target (some header) s s1 r x)
        ∙ append_assoc s.sent (requests target (some header ∷ []))
            (requests target (map (λ h. some h) q.tokens));
  }

Sent-weaken :
    (target : Str) (k most : ℕ) (s s' : Stream)
    → k ≤ most
    → Sent target k s s'
    → Sent target most s s'
Sent-weaken target k most s s' h q = record {
  tokens = q.tokens;
  bounded = omega (arith, q.bounded, h);
  appended = q.appended;
}

-- What an opened tunnel has sent: one request with no authorization, and then at most so many with a
-- token of the session.
pub record Handshake (target : Str) (most : ℕ) (before after : Stream) : Type 0 where
  pub tokens : List Str
  pub bounded : length tokens ≤ most
  pub appended : after.sent ≡ before.sent ++ requests target (none ∷ map (λ h. some h) tokens)

-- Sessions of a kind that every token keeps, with a measure that every token lowers.
pub record Lowers {S : Type 0} (step : S → Option Str → Answer S) (measure : S → ℕ)
    (Kind : S → Type 0) : Type 0 where
  pub lowers :
      (s next : S) (c : Option Str) (h : Str)
      → Kind s
      → step s c ≡ token h next
      → Kind next × (measure next < measure s)

module _ {S : Type 0} (mem : Memmem) (step : S → Option Str → Answer S) (target : Str) where
  Opens-Sent :
      {n : ℕ} {session : S} {status : ℕ} {challenge : Option Str} {stream opened : Stream}
      → Opens mem step target n session status challenge stream opened
      → Sent target n stream opened
  Opens-Sent (accepted {n} e r ok) =
      Sent-cons mem target n r.header _ _ _ _ r.answer (Sent-nil target n _)
  Opens-Sent (challenged {n} e r ne o) =
      Sent-cons mem target n r.header _ _ _ _ r.answer (Opens-Sent o)

  Opens-Sent_measure :
      (measure : S → ℕ) (Kind : S → Type 0)
      → Lowers step measure Kind
      → {n : ℕ} {session : S} {status : ℕ} {challenge : Option Str} {stream opened : Stream}
      → Opens mem step target n session status challenge stream opened
      → Kind session
      → Sent target (measure session) stream opened
  Opens-Sent_measure measure Kind low {session = s} {stream = x} {opened = y}
        (accepted {next = t} {challenge = c} e r ok) k =
      Sent-weaken target (suc (measure t)) (measure s) x y (low.lowers s t c r.header k r.made).1
        (Sent-cons mem target (measure t) r.header _ _ _ _ r.answer (Sent-nil target (measure t) y))
  Opens-Sent_measure measure Kind low {session = s} {stream = x} {opened = y}
        (challenged {next = t} {challenge = c} e r ne o) k =
      Sent-weaken target (suc (measure t)) (measure s) x y (low.lowers s t c r.header k r.made).1 (
        Sent-cons mem target (measure t) r.header _ _ _ _ r.answer
          (Opens-Sent_measure measure Kind low o (low.lowers s t c r.header k r.made).0))

  Handshake-cons :
      (most : ℕ) (r : ℕ × Option Str) (s s1 s' : Stream)
      → exchange mem target none s ≡ done (r, s1)
      → Sent target most s1 s'
      → Handshake target most s s'
  Handshake-cons most r s s1 s' x q = record {
    tokens = q.tokens;
    bounded = q.bounded;
    appended =
        q.appended
        ∙ ap (λ (l : List Bytes). l ++ requests target (map (λ h. some h) q.tokens))
            (exchange-sent mem target none s s1 r x)
        ∙ append_assoc s.sent (requests target (none ∷ []))
            (requests target (map (λ h. some h) q.tokens));
  }

  first_response :
      (most : ℕ) (session : S) (s opened : Stream) (r : Io ((ℕ × Option Str) × Stream))
      → ((status : ℕ) (challenge : Option Str) (s1 : Stream)
          → Opens mem step target 4 session status challenge s1 opened
          → Sent target most s1 opened)
      → exchange mem target none s ≡ r
      → after_response (auth_rounds mem step target 4 session) r ≡ done opened
      → Handshake target most s opened
  first_response most session s opened (done ((status, challenge), s1)) count x h =
      elim (Bool-cases (status == 200)) [
        | inl ok ↦
            Handshake-cons most (status, challenge) s s1 opened x
              (subst (λ y. Sent target most s1 y) (done_injective (rw (ok, after_response) at h))
                (Sent-nil target most s1))
        | inr other ↦
            Handshake-cons most (status, challenge) s s1 opened x
              (count status challenge s1 (
                (auth_rounds_iff mem step target 4 session status challenge s1 opened).0
                  (rw (other, after_response) at h)))
      ]
  first_response most session s opened (fail e) count x h = cc
  first_response most session s opened pending count x h = cc
  first_response most session s opened panicked count x h = cc

  -- A tunnel that is opened has cost one request with no authorization and at most four with a token.
  pub perform_authenticated_connect-Handshake :
      (session : S) (s opened : Stream)
      → perform_authenticated_connect mem step target session s ≡ done opened
      → Handshake target 4 s opened
  unfolding perform_authenticated_connect
  perform_authenticated_connect-Handshake session s opened h =
      first_response 4 session s opened _ (λ st ch s1 o. Opens-Sent o) refl h

  pub perform_authenticated_connect-measure :
      (measure : S → ℕ) (Kind : S → Type 0) (low : Lowers step measure Kind) (session : S)
      (s opened : Stream)
      → Kind session
      → perform_authenticated_connect mem step target session s ≡ done opened
      → Handshake target (measure session) s opened
  unfolding perform_authenticated_connect
  perform_authenticated_connect-measure measure Kind low session s opened k h =
      first_response (measure session) session s opened _
        (λ st ch s1 o. Opens-Sent_measure measure Kind low o k) refl h
