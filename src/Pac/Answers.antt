-- ===== src/Pac/Answers.antt =====
-- What the callers of one worker thread get, and in which order.
use ferro_vela.Prelude.{
  ◌≡◌, refl, sym, ap, ◌∙◌, subst, ◌⊎◌, inl, inr, Bool, true, false, List, [], ◌∷◌, ◌++◌, map,
  append-nil, append_assoc, arith, ltb, Bool-cases, length,
}
use ferro_vela.Pac.Worker.{
  Script, Reply, thread_dead, dropped_channel, evaluate, PacRequest, Worker, spawned, Event, submit,
  admit, serve, die, submit_request, admit_first, admit_request, end_thread, serve_first,
  serve_request, worker_step, worker_run,
}
use ferro_vela.Pac.Queue.{
  asked, submission, submissions, IsSound, worker_step-IsSound, asked-worker_step,
}

-- An answer behind those to some requests that is the script's own, or the error of a thread that has
-- ended.
abbrev pub Given : Script → Bool → List PacRequest → PacRequest × Reply → Type 0
Given script alive before p =
    (p.1 ≡ (evaluate (script before p.0)).0)
    ⊎ ((alive ≡ false) × ((p.1 ≡ thread_dead) ⊎ (p.1 ≡ dropped_channel)))

-- The answers of a list, which come behind those to some requests.
abbrev pub GivenFrom : Script → Bool → List PacRequest → List (PacRequest × Reply) → Type 0
GivenFrom script alive before [] = Unit
GivenFrom script alive before (p ∷ l) =
    Given script alive before p × GivenFrom script alive (before ++ (p.0 ∷ [])) l

GivenFrom-snoc :
    (script : Script) (alive : Bool) (before : List PacRequest) (l : List (PacRequest × Reply))
    (p : PacRequest × Reply)
    → GivenFrom script alive before l
    → Given script alive (before ++ map (λ q. q.0) l) p
    → GivenFrom script alive before (l ++ (p ∷ []))
GivenFrom-snoc script alive before [] p h g =
    (subst (λ b. Given script alive b p) (append-nil before) g, tt)
GivenFrom-snoc script alive before (q ∷ l) p h g = (
  h.0,
  GivenFrom-snoc script alive (before ++ (q.0 ∷ [])) l p h.1 (
      subst (λ b. Given script alive b p) (sym (append_assoc before (q.0 ∷ []) (map (λ q. q.0) l)))
        g),
)

GivenFrom-dropped :
    (script : Script) (before : List PacRequest) (l : List (PacRequest × Reply))
    (rs : List PacRequest)
    → GivenFrom script false before l
    → GivenFrom script false before (l ++ map (λ r. (r, dropped_channel)) rs)
GivenFrom-dropped script before [] [] h = tt
GivenFrom-dropped script before [] (r ∷ rs) h =
    (inr (refl, inr refl), GivenFrom-dropped script (before ++ (r ∷ [])) [] rs tt)
GivenFrom-dropped script before (p ∷ l) rs h =
    (h.0, GivenFrom-dropped script (before ++ (p.0 ∷ [])) l rs h.1)

Given-ended :
    (script : Script) (alive : Bool) (before : List PacRequest) (l : List (PacRequest × Reply))
    → GivenFrom script alive before l
    → GivenFrom script false before l
Given-ended script alive before [] h = tt
Given-ended script alive before (p ∷ l) (inl own, h) =
    (inl own, Given-ended script alive (before ++ (p.0 ∷ [])) l h)
Given-ended script alive before (p ∷ l) (inr (ended, e), h) =
    (inr (refl, e), Given-ended script alive (before ++ (p.0 ∷ [])) l h)

module _ (script : Script) where
  -- Whether a thread has given none but such answers, each behind those before it.
  abbrev pub AllGiven : Worker → Type 0
  AllGiven w = GivenFrom script w.alive [] w.answered

  admit_first-AllGiven :
      (alive : Bool) (waiting : List PacRequest) (w : Worker)
      → w.alive ≡ alive
      → AllGiven w
      → AllGiven (admit_first alive waiting w)
  admit_first-AllGiven alive [] w live h = h
  admit_first-AllGiven true (r ∷ rs) w live h = elim (Bool-cases (ltb (length w.channel) 32)) [
    | inl free ↦ rw free h
    | inr full ↦ rw full h
  ]
  admit_first-AllGiven false (r ∷ rs) w live h =
      GivenFrom-snoc script w.alive [] w.answered _ h (inr (live, inl refl))

  serve_first-AllGiven :
      (alive : Bool) (channel : List PacRequest) (w : Worker)
      → AllGiven w
      → AllGiven (serve_first script alive channel w)
  serve_first-AllGiven false rs w h = h
  serve_first-AllGiven true [] w h = h
  serve_first-AllGiven true (r ∷ rs) w h =
      GivenFrom-snoc script w.alive [] w.answered _ h (inl refl)

  worker_step-AllGiven : (e : Event) (w : Worker) → AllGiven w → AllGiven (worker_step script e w)
  unfolding worker_step submit_request admit_request serve_request end_thread
  worker_step-AllGiven (submit r) w h = h
  worker_step-AllGiven admit w h = admit_first-AllGiven w.alive w.waiting w refl h
  worker_step-AllGiven serve w h = serve_first-AllGiven w.alive w.channel w h
  worker_step-AllGiven die w h =
      GivenFrom-dropped script [] w.answered w.channel (Given-ended script w.alive [] w.answered h)

  pub worker_run-AllGiven :
      (es : List Event) (w : Worker) → AllGiven w → AllGiven (worker_run script es w)
  unfolding worker_run
  worker_run-AllGiven [] w h = h
  worker_run-AllGiven (e ∷ es) w h =
      worker_run-AllGiven es (worker_step script e w) (worker_step-AllGiven e w h)

  pub worker_run-IsSound :
      (es : List Event) (w : Worker) → IsSound w → IsSound (worker_run script es w)
  unfolding worker_run
  worker_run-IsSound [] w s = s
  worker_run-IsSound (e ∷ es) w s =
      worker_run-IsSound es (worker_step script e w) (worker_step-IsSound script e w s)

  pub asked-worker_run :
      (es : List Event) (w : Worker)
      → IsSound w
      → asked (worker_run script es w) ≡ asked w ++ submissions es
  unfolding worker_run
  asked-worker_run [] w s = sym (append-nil (asked w))
  asked-worker_run (e ∷ es) w s =
      asked-worker_run es (worker_step script e w) (worker_step-IsSound script e w s)
      ∙ (ap (λ l. l ++ submissions es) (asked-worker_step script e w s)
          ∙ append_assoc (asked w) (submission e) (submissions es))

  pub spawned-IsSound : IsSound spawned
  spawned-IsSound = record { room = omega arith; dropped = λ d. refl; disarmed = refl }

  -- Whatever happens, in whatever order, the requests that are answered, then those in the channel, then
  -- those that wait to send are the requests of all callers, each once and in the order in which they
  -- came. Every answer is the script's own behind those before it, or an error of a thread that has ended. The channel holds at
  -- most 32 requests, none once the thread has ended, and between two requests no deadline is armed.
  pub run_in_order :
      (es : List Event)
      → (asked (worker_run script es spawned) ≡ submissions es)
        × AllGiven (worker_run script es spawned)
        × IsSound (worker_run script es spawned)
  run_in_order es = (
    asked-worker_run es spawned spawned-IsSound,
    worker_run-AllGiven es spawned tt,
    worker_run-IsSound es spawned spawned-IsSound,
  )
