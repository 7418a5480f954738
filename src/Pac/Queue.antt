-- ===== src/Pac/Queue.antt =====
-- One worker thread: every request is answered once, in the order in which the callers came, and none
-- waits for ever.
use ferro_vela.Prelude.{
  ◌≤◌, ◌≡◌, refl, sym, ap, ◌∙◌, inl, inr, Bool, true, false, none, List, [], ◌∷◌, ◌++◌, map,
  append-nil, append_assoc, arith, ltb, Bool-cases, length, length-append, ltb→lt,
}
use ferro_vela.Pac.Worker.{
  Script, served, Reply, thread_dead, dropped_channel, PacRequest, Worker, channel_capacity, Event,
  submit, admit, serve, die, submit_request, admit_first, admit_request, end_thread, serve_first,
  serve_request, worker_step,
}
use ferro_vela.Pac.Deadline.{evaluate_in_time}

-- The requests of a thread: those that are answered, those in its channel, those that wait to send.
abbrev pub asked : Worker → List PacRequest
asked w = map (λ p. p.0) w.answered ++ (w.channel ++ w.waiting)

-- The requests of a sequence of events, in order.
abbrev pub submission : Event → List PacRequest
submission (submit r) = r ∷ []
submission admit = []
submission serve = []
submission die = []

abbrev pub submissions : List Event → List PacRequest
submissions [] = []
submissions (e ∷ es) = submission e ++ submissions es

map_snoc :
    (l : List (PacRequest × Reply)) (r : PacRequest) (a : Reply)
    → map (λ p. p.0) (l ++ ((r, a) ∷ [])) ≡ map (λ p. p.0) l ++ (r ∷ [])
map_snoc [] r a = refl
map_snoc (p ∷ l) r a = ap (◌∷◌ p.0) (map_snoc l r a)

map_dropped :
    (l : List (PacRequest × Reply)) (rs : List PacRequest)
    → map (λ p. p.0) (l ++ map (λ r. (r, dropped_channel)) rs) ≡ map (λ p. p.0) l ++ rs
map_dropped [] [] = refl
map_dropped [] (r ∷ rs) = ap (◌∷◌ r) (map_dropped [] rs)
map_dropped (p ∷ l) rs = ap (◌∷◌ p.0) (map_dropped l rs)

pub length_mapped : (l : List (PacRequest × Reply)) → length (map (λ p. p.0) l) ≡ length l
length_mapped [] = refl
length_mapped (p ∷ l) = omega (arith, length_mapped l)

-- A list whose beginning is as long as another's holds it.
pub prefix_of :
    (a b c d : List PacRequest)
    → a ++ b ≡ c ++ d
    → length c ≤ length a
    → (rest : List PacRequest) × (a ≡ c ++ rest)
prefix_of a b [] d e h = (a, refl)
prefix_of [] b (y ∷ c) d e h = absurd (omega arith)
prefix_of (x ∷ a) b (y ∷ c) d e h =
    let (rest, q) = prefix_of a b c d (cc) (omega arith) in (rest, cc)

-- What holds between two steps of a thread: its channel has a place for everything in it, a thread that
-- has ended has nothing in it, no deadline is armed.
pub record IsSound (w : Worker) : Type 0 where
  pub room : length w.channel ≤ channel_capacity
  pub dropped : w.alive ≡ false → w.channel ≡ []
  pub disarmed : w.deadline ≡ none

-- A request goes from one part of a thread to the next one.
first_answered :
    (a : List (PacRequest × Reply)) (r : PacRequest) (answer : Reply) (rest : List PacRequest)
    → map (λ p. p.0) (a ++ ((r, answer) ∷ [])) ++ rest ≡ map (λ p. p.0) a ++ (r ∷ rest)
first_answered a r answer rest =
    ap (λ l. l ++ rest) (map_snoc a r answer) ∙ append_assoc (map (λ p. p.0) a) (r ∷ []) rest

asked-admit_first :
    (alive : Bool) (waiting : List PacRequest) (w : Worker)
    → w.alive ≡ alive
    → w.waiting ≡ waiting
    → IsSound w
    → asked (admit_first alive waiting w) ≡ asked w
asked-admit_first alive [] w live e s = refl
asked-admit_first true (r ∷ rs) w live e s = elim (Bool-cases (ltb (length w.channel) 32)) [
  | inl free ↦ rw free (
      ap (λ l. map (λ p. p.0) w.answered ++ l)
        (append_assoc w.channel (r ∷ []) rs ∙ ap (λ l. w.channel ++ l) (sym e)))
  | inr full ↦ rw full refl
]
asked-admit_first false (r ∷ rs) w live e s =
    ap
      (λ (c : List PacRequest). map (λ p. p.0) (w.answered ++ ((r, thread_dead) ∷ [])) ++ (c ++ rs))
      (s.dropped live)
    ∙ (first_answered w.answered r thread_dead rs
        ∙ ap (λ l. map (λ p. p.0) w.answered ++ l)
            (ap (λ (c : List PacRequest). c ++ (r ∷ rs)) (sym (s.dropped live))
              ∙ ap (λ l. w.channel ++ l) (sym e)))

module _ (script : Script) where
  asked-serve_first :
      (alive : Bool) (channel : List PacRequest) (w : Worker)
      → w.channel ≡ channel
      → asked (serve_first script alive channel w) ≡ asked w
  asked-serve_first false rs w e = refl
  asked-serve_first true [] w e = refl
  asked-serve_first true (r ∷ rs) w e =
      first_answered w.answered r _ (rs ++ w.waiting)
      ∙ ap (λ (c : List PacRequest). map (λ p. p.0) w.answered ++ (c ++ w.waiting)) (sym e)

  -- No step loses a request, makes one up, or lets one overtake another.
  pub asked-worker_step :
      (e : Event) (w : Worker)
      → IsSound w
      → asked (worker_step script e w) ≡ asked w ++ submission e
  unfolding worker_step submit_request admit_request serve_request end_thread
  asked-worker_step (submit r) w s = sym (
      append_assoc (map (λ p. p.0) w.answered) (w.channel ++ w.waiting) (r ∷ [])
      ∙ ap (λ l. map (λ p. p.0) w.answered ++ l) (append_assoc w.channel w.waiting (r ∷ [])))
  asked-worker_step admit w s =
      asked-admit_first w.alive w.waiting w refl refl s ∙ sym (append-nil (asked w))
  asked-worker_step serve w s =
      asked-serve_first w.alive w.channel w refl ∙ sym (append-nil (asked w))
  asked-worker_step die w s =
      ap (λ l. l ++ w.waiting) (map_dropped w.answered w.channel)
      ∙ (append_assoc (map (λ p. p.0) w.answered) w.channel w.waiting ∙ sym (append-nil (asked w)))

  admit_first-IsSound :
      (alive : Bool) (waiting : List PacRequest) (w : Worker)
      → w.alive ≡ alive
      → IsSound w
      → IsSound (admit_first alive waiting w)
  admit_first-IsSound alive [] w live s = s
  admit_first-IsSound true (r ∷ rs) w live s = elim (Bool-cases (ltb (length w.channel) 32)) [
    | inl free ↦ rw free (record {
      room = omega (arith, length-append w.channel (r ∷ []), ltb→lt _ _ free);
      dropped = λ d. cc;
      disarmed = s.disarmed;
    })
    | inr full ↦ rw full s
  ]
  admit_first-IsSound false (r ∷ rs) w live s = record {
    room = s.room;
    dropped = s.dropped;
    disarmed = s.disarmed;
  }

  serve_first-IsSound :
      (alive : Bool) (channel : List PacRequest) (w : Worker)
      → w.alive ≡ alive
      → w.channel ≡ channel
      → IsSound w
      → IsSound (serve_first script alive channel w)
  serve_first-IsSound false rs w live e s = s
  serve_first-IsSound true [] w live e s = s
  serve_first-IsSound true (r ∷ rs) w live e s = record {
    room = omega (arith, s.room, ap (λ (c : List PacRequest). length c) e);
    dropped = λ d. cc;
    disarmed = (evaluate_in_time (script (served w) r)).1;
  }

  pub worker_step-IsSound : (e : Event) (w : Worker) → IsSound w → IsSound (worker_step script e w)
  unfolding worker_step submit_request admit_request serve_request end_thread
  worker_step-IsSound (submit r) w s = record {
    room = s.room;
    dropped = s.dropped;
    disarmed = s.disarmed;
  }
  worker_step-IsSound admit w s = admit_first-IsSound w.alive w.waiting w refl s
  worker_step-IsSound serve w s = serve_first-IsSound w.alive w.channel w refl refl s
  worker_step-IsSound die w s = record {
    room = omega arith;
    dropped = λ d. refl;
    disarmed = s.disarmed;
  }
