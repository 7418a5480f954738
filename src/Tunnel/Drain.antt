-- ===== src/Tunnel/Drain.antt =====
-- The response of the upstream proxy: its headers, and the body that is dropped behind them.
use ferro_vela.Prelude.{
  ℕ, zero, suc, ◌-◌, ◌≤◌, ◌<◌, ◌≡◌, refl, sym, ap, ◌∙◌, inl, inr, Bool, true, false, Option, some,
  List, [], ◌∷◌, ◌++◌, arith, ltb, leb, if◌then◌else◌, Bool-cases, length, take, drop, is_some,
  length-append, lt→ltb,
}
use ferro_vela.Text.{Str}
use ferro_vela.Tunnel.{
  max_capacity, read_from_headers, parse_status, drain_body, read_http_headers,
  find_proxy_authenticate, header_end, read_proxy_response, read_loop,
}
use ferro_vela.Effect.{panicked, ◌>>=◌, returns, pending, done, Io}
use ferro_vela.Socket.{segment, closed, broken, read_exact_events, Event, rest_of}
use ferro_vela.Text.Utf8.{from_utf8_lossy, Bytes}
use ferro_vela.Http.{parse_content_length, Memmem}

-- The bytes that come before the stream ends, fails or falls silent.
abbrev pub available : List Event → Bytes
available [] = []
available (closed ∷ events) = []
available (broken ∷ events) = []
available (segment c s ∷ events) = (c ∷ s) ++ available events

-- Nothing tells that no more bytes will come.
abbrev stays_open : List Event → Bool
stays_open [] = true
stays_open (closed ∷ events) = false
stays_open (broken ∷ events) = false
stays_open (segment c s ∷ events) = stays_open events

available-rest_of :
    (b : Bytes) (events : List Event) → available (rest_of b events) ≡ b ++ available events
available-rest_of [] events = refl
available-rest_of (c ∷ s) events = refl

leb_over : (n k : ℕ) → k < n → leb n k ≡ false
leb_over n k h = ground arith

not_positive : (n : ℕ) → ltb 0 n ≡ false → 0 ≡ n
not_positive n h = ground arith

drop-append_short {ℓ} :
    {A : Type ℓ} (n : ℕ) (xs ys : List A) → n ≤ length xs → drop n (xs ++ ys) ≡ drop n xs ++ ys
drop-append_short zero xs ys h = refl
drop-append_short (suc n) [] ys h = absurd (omega arith)
drop-append_short (suc n) (x ∷ xs) ys h = drop-append_short n xs ys (omega arith)

drop-append_long {ℓ} :
    {A : Type ℓ} (n : ℕ) (xs ys : List A)
    → length xs ≤ n
    → drop n (xs ++ ys) ≡ drop (n - length xs) ys
drop-append_long n [] ys h = ap (λ k. drop k ys) (omega arith)
drop-append_long zero (x ∷ xs) ys h = absurd (omega arith)
drop-append_long (suc n) (x ∷ xs) ys h =
    drop-append_long n xs ys (omega arith) ∙ ap (λ k. drop k ys) (omega arith)

-- A read of exactly `n` bytes is done when they come, and leaves the bytes behind them.
read_exact_events_done :
    (n : ℕ) (events : List Event)
    → n ≤ length (available events)
    → (rest : List Event) × (read_exact_events n events ≡ done rest)
      × (available rest ≡ drop n (available events))
unfolding read_exact_events
read_exact_events_done n [] h = ([], ground arith, ground arith)
read_exact_events_done n (closed ∷ events) h = (closed ∷ events, ground arith, ground arith)
read_exact_events_done n (broken ∷ events) h = (broken ∷ events, ground arith, ground arith)
read_exact_events_done n (segment c s ∷ events) h = elim (Bool-cases (leb n (length s))) [
  | inl inside ↦ (
    rest_of (drop n (c ∷ s)) events,
    rw inside,
    available-rest_of (drop n (c ∷ s)) events
        ∙ sym (drop-append_short n (c ∷ s) (available events) (ground arith)),
  )
  | inr over ↦
      let (rest, e, left) =
        read_exact_events_done (n - length (c ∷ s)) events
          (ground (arith, length-append (c ∷ s) (available events))) in
      (rest, rw over e, left ∙ sym (drop-append_long n (c ∷ s) (available events) (ground arith)))
]

-- It waits for ever when they do not and nothing ends the stream.
read_exact_events_pending :
    (n : ℕ) (events : List Event)
    → length (available events) < n
    → stays_open events ≡ true
    → read_exact_events n events ≡ pending
unfolding read_exact_events
read_exact_events_pending n [] short o = ground arith
read_exact_events_pending n (closed ∷ events) short o = cc
read_exact_events_pending n (broken ∷ events) short o = cc
read_exact_events_pending n (segment c s ∷ events) short o =
    rw (leb_over n (length s) (omega (arith, length-append (c ∷ s) (available events)))) (
      read_exact_events_pending (n - length (c ∷ s)) events
        (omega (arith, length-append (c ∷ s) (available events))) o)

take_all {ℓ} : {A : Type ℓ} (n : ℕ) (xs : List A) → length xs ≤ n → take n xs ≡ xs
take_all zero [] h = refl
take_all zero (x ∷ xs) h = absurd (omega arith)
take_all (suc n) [] h = refl
take_all (suc n) (x ∷ xs) h = rw (take_all n xs (omega arith))

drop_all {ℓ} : {A : Type ℓ} (n : ℕ) (xs : List A) → length xs ≤ n → drop n xs ≡ []
drop_all zero [] h = refl
drop_all zero (x ∷ xs) h = absurd (omega arith)
drop_all (suc n) [] h = refl
drop_all (suc n) (x ∷ xs) h = drop_all n xs (omega arith)

-- A piece of at most 4096 bytes in which the headers end is one round of the loop.
read_loop_one :
    (mem : Memmem) (f c : ℕ) (s : Bytes) (events : List Event)
    → length (c ∷ s) ≤ 4096
    → is_some (mem.find (c ∷ s) header_end) ≡ true
    → read_loop mem (suc f) [] (segment c s ∷ events) ≡ done (c ∷ s, events)
unfolding read_loop
read_loop_one mem f c s events fits found =
    rw (take_all 4095 s (omega arith), drop_all 4095 s (omega arith), found) refl

-- What the headers of a response say, and that they end in its first piece.
pub record Head (mem : Memmem) (c : ℕ) (s : Bytes) (status : ℕ) (challenge : Option Str) (size : ℕ)
    : Type 0 where
  pub fits : length (c ∷ s) ≤ 4096
  pub found : is_some (mem.find (c ∷ s) header_end) ≡ true
  pub status_line : parse_status (from_utf8_lossy (c ∷ s)) ≡ some status
  pub authenticate : find_proxy_authenticate (from_utf8_lossy (c ∷ s)) ≡ returns challenge
  pub announced : parse_content_length (from_utf8_lossy (c ∷ s)) ≡ size

read_from_headers-Head :
    (mem : Memmem) (c : ℕ) (s : Bytes) (status size : ℕ) (challenge : Option Str)
    (events : List Event)
    → Head mem c s status challenge size
    → read_from_headers (from_utf8_lossy (c ∷ s)) events
      ≡ (drain_body size events >>= λ rest. done ((status, challenge), rest))
read_from_headers-Head mem c s status size challenge events h =
    rw (h.status_line, h.authenticate, h.announced) refl

after-Head :
    (mem : Memmem) (c : ℕ) (s : Bytes) (status size : ℕ) (challenge : Option Str)
    (events : List Event)
    → Head mem c s status challenge size
    → read_proxy_response mem (segment c s ∷ events)
      ≡ (drain_body size events >>= λ rest. done ((status, challenge), rest))
unfolding read_proxy_response read_http_headers
after-Head mem c s status size challenge events h =
    ap
      (λ (r : Io (Bytes × List Event)).
        (r >>= λ (r : Bytes × List Event). done (from_utf8_lossy r.0, r.1))
        >>= λ (r : Str × List Event). read_from_headers r.0 r.1)
      (read_loop_one mem 65537 c s events h.fits h.found)
    ∙ read_from_headers-Head mem c s status size challenge events h

not_over : (n : ℕ) → n ≤ max_capacity → ltb max_capacity n ≡ false
not_over n h = ground arith

drain_body_done :
    (n : ℕ) (events : List Event)
    → n ≤ max_capacity
    → n ≤ length (available events)
    → (rest : List Event) × (drain_body n events ≡ done rest)
      × (available rest ≡ drop n (available events))
unfolding drain_body
drain_body_done n events room h = elim (Bool-cases (ltb 0 n)) [
  | inl some_bytes ↦ rw (some_bytes, not_over n room) (read_exact_events_done n events h)
  | inr nothing ↦ (events, rw nothing, ap (λ k. drop k (available events)) (not_positive n nothing))
]

-- A response whose headers end in its first piece, of at most 4096 bytes, is returned where at least as
-- many bytes come behind this piece as the headers announce, and these are less than 2^63: so many are
-- dropped, and the others stay for the next read.
pub read_proxy_response-framed :
    (mem : Memmem) (c : ℕ) (s : Bytes) (status size : ℕ) (challenge : Option Str)
    (events : List Event)
    → Head mem c s status challenge size
    → size ≤ max_capacity
    → size ≤ length (available events)
    → (rest : List Event) × (read_proxy_response mem (segment c s ∷ events)
        ≡ done ((status, challenge), rest))
      × (available rest ≡ drop size (available events))
unfolding drain_body
read_proxy_response-framed mem c s status size challenge events h room enough =
    let (rest, e, left) = drain_body_done size events room enough in
    (rest, after-Head mem c s status size challenge events h ∙ rw e, left)

-- A response whose headers end in one piece of at most 4096 bytes and announce a body is never returned
-- where nothing comes behind this piece, also if the whole body stands in it: the task waits for ever,
-- or panics if the headers announce 2^63 bytes or more.
pub read_proxy_response-whole :
    (mem : Memmem) (c : ℕ) (s : Bytes) (status size : ℕ) (challenge : Option Str)
    → Head mem c s status challenge size
    → 0 < size
    → read_proxy_response mem (segment c s ∷ [])
      ≡ (if ltb max_capacity size then panicked else pending)
unfolding drain_body
read_proxy_response-whole mem c s status size challenge h body =
    after-Head mem c s status size challenge [] h
    ∙ rw (lt→ltb 0 size body) (elim (Bool-cases (ltb max_capacity size)) [
      | inl over ↦ rw over refl
      | inr room ↦ rw (room, read_exact_events_pending size [] body refl) refl
    ])
