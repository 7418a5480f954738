-- ===== src/Pac/Turns.antt =====
-- A turn of a worker thread answers a request, where one is left, and no step takes an answer back.
use ferro_vela.Prelude.{
  ℕ, ◌+◌, ◌≤◌, ◌<◌, ◌≡◌, ap, inl, inr, Bool, true, false, List, [], ◌∷◌, ◌++◌, map, arith, ltb,
  Bool-cases, length, length-append,
}
use ferro_vela.Pac.Worker.{
  Script, served, thread_dead, dropped_channel, evaluate, PacRequest, Worker, Event, submit, admit,
  serve, die, submit_request, admit_first, admit_request, end_thread, serve_first, serve_request,
  worker_step, worker_run,
}
use ferro_vela.Pac.Queue.{asked, IsSound, length_mapped}

abbrev pub count_answered : Worker → ℕ
count_answered w = length w.answered

abbrev pub count_asked : Worker → ℕ
count_asked w = length (asked w)

count_asked_parts :
    (w : Worker) → count_asked w ≡ count_answered w + (length w.channel + length w.waiting)
count_asked_parts w = omega (
  arith,
  length-append (map (λ p. p.0) w.answered) (w.channel ++ w.waiting),
  length-append w.channel w.waiting,
  length_mapped w.answered,
)

module _ (script : Script) where
  count_admit_first :
      (alive : Bool) (waiting : List PacRequest) (w : Worker)
      → count_answered w ≤ count_answered (admit_first alive waiting w)
  count_admit_first alive [] w = omega arith
  count_admit_first true (r ∷ rs) w = elim (Bool-cases (ltb (length w.channel) 32)) [
    | inl free ↦ rw free (omega arith)
    | inr full ↦ rw full (omega arith)
  ]
  count_admit_first false (r ∷ rs) w =
      omega (arith, length-append w.answered ((r, thread_dead) ∷ []))

  count_serve_first :
      (alive : Bool) (channel : List PacRequest) (w : Worker)
      → count_answered w ≤ count_answered (serve_first script alive channel w)
  count_serve_first false rs w = omega arith
  count_serve_first true [] w = omega arith
  count_serve_first true (r ∷ rs) w =
      omega (arith, length-append w.answered ((r, (evaluate (script (served w) r)).0) ∷ []))

  pub count_step :
      (e : Event) (w : Worker) → count_answered w ≤ count_answered (worker_step script e w)
  unfolding worker_step submit_request admit_request serve_request end_thread
  count_step (submit r) w = omega arith
  count_step admit w = count_admit_first w.alive w.waiting w
  count_step serve w = count_serve_first w.alive w.channel w
  count_step die w =
      omega (arith, length-append w.answered (map (λ r. (r, dropped_channel)) w.channel))

  pub count_run :
      (es : List Event) (w : Worker) → count_answered w ≤ count_answered (worker_run script es w)
  unfolding worker_run
  count_run [] w = omega arith
  count_run (e ∷ es) w = omega (arith, count_step e w, count_run es (worker_step script e w))

  serve_first_some :
      (alive : Bool) (channel : List PacRequest) (w : Worker)
      → alive ≡ true
      → 0 < length channel
      → count_answered w < count_answered (serve_first script alive channel w)
  serve_first_some false rs w live h = cc
  serve_first_some true [] w live h = absurd (omega arith)
  serve_first_some true (r ∷ rs) w live h =
      omega (arith, length-append w.answered ((r, (evaluate (script (served w) r)).0) ∷ []))

  -- A thread that has not ended, and where someone waits, has something in its channel after the first of
  -- those who wait was let in.
  admit_live :
      (waiting : List PacRequest) (w : Worker)
      → w.alive ≡ true
      → 0 < length w.channel + length waiting
      → (0 < length (admit_first true waiting w).channel)
        × ((admit_first true waiting w).alive ≡ true)
  admit_live [] w live h = (omega arith, live)
  admit_live (r ∷ rs) w live h = elim (Bool-cases (ltb (length w.channel) 32)) [
    | inl free ↦ rw free (omega (arith, length-append w.channel (r ∷ [])), live)
    | inr full ↦ rw full (ground arith, live)
  ]

  turn_live :
      (alive : Bool) (w : Worker)
      → alive ≡ true
      → w.alive ≡ true
      → 0 < length w.channel + length w.waiting
      → count_answered w < count_answered (serve_request script (admit_first alive w.waiting w))
  unfolding serve_request
  turn_live false w e live h = cc
  turn_live true w e live h =
      let (some_left, still) = admit_live w.waiting w live h in
      omega (
        arith,
        count_admit_first true w.waiting w,
        serve_first_some (admit_first true w.waiting w).alive (admit_first true w.waiting w).channel
            (admit_first true w.waiting w) still some_left,
      )

  turn_ended :
      (alive : Bool) (waiting : List PacRequest) (w : Worker)
      → alive ≡ false
      → 0 < length waiting
      → count_answered w < count_answered (serve_request script (admit_first alive waiting w))
  unfolding serve_request
  turn_ended true waiting w e h = cc
  turn_ended false [] w e h = absurd (omega arith)
  turn_ended false (r ∷ rs) w e h = omega (
    arith,
    length-append w.answered ((r, thread_dead) ∷ []),
    count_serve_first w.alive w.channel (admit_first false (r ∷ rs) w),
  )

  -- A turn answers a request where one is left.
  pub turn :
      (w : Worker)
      → IsSound w
      → count_answered w < count_asked w
      → count_answered w < count_answered (serve_request script (admit_request w))
  unfolding admit_request
  turn w s h = elim (Bool-cases w.alive) [
    | inl live ↦ turn_live w.alive w live live (omega (arith, count_asked_parts w))
    | inr ended ↦ turn_ended w.alive w.waiting w ended (
        omega
          (arith, count_asked_parts w, ap (λ (c : List PacRequest). length c) (s.dropped ended)))
  ]
