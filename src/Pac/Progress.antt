-- ===== src/Pac/Progress.antt =====
-- Every caller of a worker thread gets an answer.
use ferro_vela.Prelude.{
  ℕ, suc, ◌+◌, ◌≤◌, ◌≡◌, refl, sym, ap, ◌∙◌, inl, inr, false, List, [], ◌∷◌, ◌++◌, map,
  append_assoc, arith, ltb, Bool-cases, length, length-append, ltb→lt,
}
use ferro_vela.Pac.Worker.{
  Script, spawned, PacRequest, Worker, Event, admit, serve, worker_step, worker_run,
}
use ferro_vela.Pac.Turns.{count_answered, count_asked, count_step, count_run, turn}
use ferro_vela.Pac.Queue.{
  submission, submissions, prefix_of, worker_step-IsSound, asked, IsSound, length_mapped,
}
use ferro_vela.Pac.Answers.{worker_run-IsSound, asked-worker_run, spawned-IsSound}

-- Rounds of events: in each, anything may happen, and then the first caller who waits is let in, or
-- refused, and the thread takes a turn, if it has not ended.
abbrev pub rounds : List (List Event) → List Event
rounds [] = []
rounds (es ∷ rest) = es ++ (admit ∷ (serve ∷ rounds rest))

not_less : (a b : ℕ) → ltb a b ≡ false → b ≤ a
not_less a b h = ground arith

submissions-append :
    (es fs : List Event) → submissions (es ++ fs) ≡ submissions es ++ submissions fs
submissions-append [] fs = refl
submissions-append (e ∷ es) fs =
    ap (λ l. submission e ++ l) (submissions-append es fs)
    ∙ sym (append_assoc (submission e) (submissions es) (submissions fs))

module _ (script : Script) where
  worker_run-append :
      (es fs : List Event) (w : Worker)
      → worker_run script (es ++ fs) w ≡ worker_run script fs (worker_run script es w)
  unfolding worker_run
  worker_run-append [] fs w = refl
  worker_run-append (e ∷ es) fs w = worker_run-append es fs (worker_step script e w)

  count_asked-worker_run :
      (es : List Event) (w : Worker)
      → IsSound w
      → count_asked w ≤ count_asked (worker_run script es w)
  count_asked-worker_run es w s = omega (
    arith,
    ap (λ (l : List PacRequest). length l) (asked-worker_run script es w s),
    length-append (asked w) (submissions es),
  )

  -- The thread behind the events and the turn of one round.
  abbrev after : List Event → Worker → Worker
  after es w = worker_step script serve (worker_step script admit (worker_run script es w))

  -- A round takes one request off what is left of the first `n`.
  count_round :
      (es : List Event) (w : Worker) (n k : ℕ)
      → IsSound w
      → n ≤ count_asked w
      → n ≤ count_answered w + suc k
      → n ≤ count_answered (after es w) + k
  unfolding worker_step
  count_round es w n k s h l = elim (Bool-cases (ltb (count_answered (worker_run script es w)) n)) [
    | inl left ↦ omega (
      arith,
      ltb→lt _ _ left,
      count_asked-worker_run es w s,
      turn script (worker_run script es w) (worker_run-IsSound script es w s),
      count_run script es w,
    )
    | inr over ↦ omega (
      arith,
      not_less _ _ over,
      count_step script admit (worker_run script es w),
      count_step script serve (worker_step script admit (worker_run script es w)),
    )
  ]

  after-IsSound : (es : List Event) (w : Worker) → IsSound w → IsSound (after es w)
  after-IsSound es w s =
      worker_step-IsSound script serve _
        (worker_step-IsSound script admit _ (worker_run-IsSound script es w s))

  count_after :
      (es : List Event) (w : Worker) → IsSound w → count_asked w ≤ count_asked (after es w)
  unfolding worker_run
  count_after es w s = omega (
    arith,
    count_asked-worker_run es w s,
    count_asked-worker_run (admit ∷ (serve ∷ [])) (worker_run script es w)
        (worker_run-IsSound script es w s),
  )

  count_rounds :
      (rs : List (List Event)) (w : Worker) (n : ℕ)
      → IsSound w
      → n ≤ count_asked w
      → n ≤ count_answered w + length rs
      → n ≤ count_answered (worker_run script (rounds rs) w)
  unfolding worker_run
  count_rounds [] w n s h k = omega arith
  count_rounds (es ∷ rs) w n s h k = rw (worker_run-append es (admit ∷ (serve ∷ rounds rs)) w) (
      count_rounds rs (after es w) n (after-IsSound es w s) (omega (arith, count_after es w s))
        (count_round es w n (length rs) s h (omega arith)))

  -- Every request is answered after as many rounds as there are requests up to it, whatever else happens
  -- in each round, the end of the thread included: behind any events and as many rounds as they hold
  -- requests, those requests are the first that are answered, in their order.
  pub all_answered :
      (es : List Event) (rs : List (List Event))
      → length (submissions es) ≤ length rs
      → (later : List PacRequest) × (map
            (λ p. p.0)
            (worker_run script (es ++ rounds rs) spawned).answered
          ≡ submissions es ++ later)
  all_answered es rs h =
      prefix_of (map (λ p. p.0) (worker_run script (es ++ rounds rs) spawned).answered) _
        (submissions es) (submissions (rounds rs))
        (asked-worker_run script (es ++ rounds rs) spawned (spawned-IsSound script)
          ∙ submissions-append es (rounds rs))
        (rw
          (
            length_mapped (worker_run script (es ++ rounds rs) spawned).answered,
            worker_run-append es (rounds rs) spawned,
          )
          (count_rounds rs (worker_run script es spawned) (length (submissions es))
            (worker_run-IsSound script es spawned (spawned-IsSound script))
            (omega (
              arith,
              ap (λ (l : List PacRequest). length l)
                  (asked-worker_run script es spawned (spawned-IsSound script)),
            ))
            (omega arith)))
