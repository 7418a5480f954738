-- ===== src/Pac/Deadline.antt =====
-- Every call of a script comes to an end, by itself or by its deadline.
use ferro_vela.Prelude.{
  ℕ, zero, suc, ◌+◌, ◌≤◌, ◌<◌, ◌≡◌, refl, ap, ◌≢◌, ◌↔◌, ◌⊎◌, inl, inr, Bool, true, false, Option,
  none, some, arith, ltb, ◌==◌, Bool-cases, ==_iff, ltb→lt,
}
use ferro_vela.Text.{Str}
use ferro_vela.Pac.Worker.{
  Call, Reply, found, hangs, deadline_of, run_call, evaluate, interrupts, answer_of, ended, polled,
}

-- The answer of a call that is polled from `i` on and ends by itself in time.
abbrev pub EndsInTime : Call → ℕ → Str → Type 0
EndsInTime call i text =
    (n : ℕ) × (call.ends ≡ some (n, some text))
    × (i ≤ n)
    × ((j : ℕ) → i ≤ j → j < n → call.clock j < deadline_of call)

answer_of-ne-hangs : (result : Option Str) → answer_of result ≢ hangs
answer_of-ne-hangs none h = cc
answer_of-ne-hangs (some text) h = cc

later :
    (clock : ℕ → ℕ) (deadline i j : ℕ)
    → i ≤ j
    → interrupts (some deadline) (clock i) ≡ false
    → deadline ≤ clock j
    → suc i ≤ j
later clock deadline i j h goes_on late = elim (Bool-cases (i == j)) [
  | inl e ↦ absurd (ground (arith, ap clock ((==_iff i j).0 e)))
  | inr e ↦ ground arith
]

-- A poll that leads to a text: the call has ended, or goes on.
polled_found :
    (o : Option (Option Str)) (aborted : Bool) (rest : Reply) {text : Str}
    → polled o aborted rest ≡ found text
    → (o ≡ some (some text)) ⊎ ((o ≡ none) × (aborted ≡ false) × (rest ≡ found text))
unfolding polled
polled_found (some (some t)) aborted rest h = inl (cc)
polled_found (some none) aborted rest h = cc
polled_found none true rest h = cc
polled_found none false rest h = inr (refl, refl, h)

ended_at :
    (ends : Option (ℕ × Option Str)) (i : ℕ) {result : Option Str}
    → ended ends i ≡ some result
    → ends ≡ some (i, result)
unfolding ended
ended_at none i h = cc
ended_at (some (n, r)) i h = ground arith

ended_self :
    (ends : Option (ℕ × Option Str)) {n : ℕ} {result : Option Str}
    → ends ≡ some (n, result)
    → ended ends n ≡ some result
unfolding ended
ended_self ends {n} e = rw e (ground arith)

ended_before :
    (ends : Option (ℕ × Option Str)) {n : ℕ} {result : Option Str} (i : ℕ)
    → ends ≡ some (n, result)
    → i < n
    → ended ends i ≡ none
unfolding ended
ended_before ends i e h = rw e (ground arith)

polled-ne-hangs :
    (o : Option (Option Str)) (aborted : Bool) (rest : Reply)
    → (o ≡ none → aborted ≡ false → rest ≢ hangs)
    → polled o aborted rest ≢ hangs
unfolding polled
polled-ne-hangs (some result) aborted rest f = answer_of-ne-hangs result
polled-ne-hangs none true rest f = λ h. cc
polled-ne-hangs none false rest f = f refl refl

goes_on : (now deadline : ℕ) → now < deadline → interrupts (some deadline) now ≡ false
goes_on now deadline h = ground arith

same_poll : (i n : ℕ) → i ≤ n → ltb i n ≡ false → i ≡ n
same_poll i n h k = ground arith

module _ (call : Call) where
  run_call-ne-hangs :
      (fuel i j : ℕ)
      → i ≤ j
      → j < fuel + i
      → deadline_of call ≤ call.clock j
      → run_call fuel (some (deadline_of call)) call i ≢ hangs
  unfolding run_call
  run_call-ne-hangs zero i j h k late = absurd (omega arith)
  run_call-ne-hangs (suc fuel) i j h k late =
      polled-ne-hangs (ended call.ends i) (interrupts (some (deadline_of call)) (call.clock i)) _
        (λ e goes_on.
          run_call-ne-hangs fuel (suc i) j (later call.clock (deadline_of call) i j h goes_on late)
            (omega arith) late)

  run_call_ended :
      (fuel i : ℕ) {text : Str}
      → run_call fuel (some (deadline_of call)) call i ≡ found text
      → EndsInTime call i text
  unfolding run_call
  run_call_ended zero i h = cc
  run_call_ended (suc fuel) i {text} h =
      go
        (polled_found (ended call.ends i) (interrupts (some (deadline_of call)) (call.clock i)) _ h)
        (run_call_ended fuel (suc i))
    where
      next :
          EndsInTime call (suc i) text
          → interrupts (some (deadline_of call)) (call.clock i) ≡ false
          → EndsInTime call i text
      next (n, e, k, early) on = (
        n,
        e,
        omega arith,
        λ j l m. elim (Bool-cases (i == j)) [
          | inl q ↦ ground (arith, ap call.clock ((==_iff i j).0 q))
          | inr q ↦ early j (ground arith) m
        ],
      )

      go :
          ((ended call.ends i ≡ some (some text))
            ⊎ ((ended call.ends i ≡ none)
                × (interrupts (some (deadline_of call)) (call.clock i) ≡ false)
                × (run_call fuel (some (deadline_of call)) call (suc i) ≡ found text)))
          → (run_call fuel (some (deadline_of call)) call (suc i) ≡ found text
              → EndsInTime call (suc i) text)
          → EndsInTime call i text
      go (inl e) ih = (i, ended_at call.ends i e, omega arith, λ j l m. absurd (omega arith))
      go (inr (e, goes_on, q)) ih = next (ih q) goes_on

  run_call_early :
      (fuel i n : ℕ) (text : Str)
      → i ≤ n
      → n < fuel + i
      → call.ends ≡ some (n, some text)
      → ((j : ℕ) → i ≤ j → j < n → call.clock j < deadline_of call)
      → run_call fuel (some (deadline_of call)) call i ≡ found text
  unfolding run_call polled
  run_call_early zero i n text h k e early = absurd (omega arith)
  run_call_early (suc fuel) i n text h k e early = elim (Bool-cases (ltb i n)) [
    | inl before ↦ rw (ended_before call.ends i e (ltb→lt i n before)) (
        rw (goes_on (call.clock i) (deadline_of call) (early i (omega arith) (ltb→lt i n before))) (
          run_call_early fuel (suc i) n text (ltb→lt i n before) (omega arith) e
            (λ j l m. early j (omega arith) m)))
    | inr there ↦ rw (same_poll i n h there, ended_self call.ends e) refl
  ]

  no_later :
      (n : ℕ)
      → ((j : ℕ) → 0 ≤ j → j < n → call.clock j < deadline_of call)
      → n < suc (call.reaches (deadline_of call)) + 0
  no_later n early = elim (Bool-cases (ltb (call.reaches (deadline_of call)) n)) [
    | inl late ↦ absurd (
        omega (
          arith,
          early (call.reaches (deadline_of call)) (omega arith) (ltb→lt _ _ late),
          call.reaches_lem (deadline_of call),
        ))
    | inr in_time ↦ ground arith
  ]

  -- An evaluation always comes to an end, whatever the script does, and disarms its deadline. It gives a
  -- text exactly where the script's function ends with this text by itself, with no poll of the
  -- interrupt handler at five seconds after the start or later.
  pub evaluate_in_time :
      ((evaluate call).0 ≢ hangs)
      × ((evaluate call).1 ≡ none)
      × ((text : Str) → ((evaluate call).0 ≡ found text) ↔ EndsInTime call 0 text)
  unfolding evaluate
  evaluate_in_time = (
    run_call-ne-hangs _ 0 (call.reaches (deadline_of call)) (omega arith) (omega arith)
        (call.reaches_lem (deadline_of call)),
    refl,
    λ text. (run_call_ended _ 0, λ p. run_call_early _ 0 p.0 text p.2 (no_later p.0 p.3) p.1 p.3),
  )
