-- ===== src/Pac/Pool.antt =====
-- The workers of an engine together: `find_proxy` hands the requests out in turn, and a worker gets no
-- more of the others than the counter. Also the engine that main.rs of crates/ferrovela starts with, and
-- what a failed call means for the routing.
use ferro_vela.Prelude.{
  ℕ, ◌+◌, ◌%◌, ◌^◌, ◌≤◌, ◌≡◌, refl, ap, ◌∙◌, inl, inr, Option, none, some, List, [], ◌∷◌, ◌==◌,
  if◌then◌else◌, Bool-cases, length, ==_iff,
}
use ferro_vela.Text.{Str}
use ferro_vela.Pac.Worker.{
  Script, Call, Reply, found, evaluation_error, thread_dead, dropped_channel, hangs, evaluate,
  PacRequest, Worker, spawned, Event, submit, submit_request, worker_step, worker_run,
}
use ferro_vela.Pac.Queue.{asked, submissions}
use ferro_vela.Pac.Answers.{AllGiven, run_in_order}
use ferro_vela.Pac.Loading.{World, PacEngine, new_engine, ok, err}
use ferro_vela.Route.{Pac}

-- The workers by their number, and the counter `next_worker`.
pub record Pool : Type 0 where
  pub workers : ℕ → Worker
  pub num_workers : ℕ
  pub next_worker : ℕ

-- A call of `find_proxy` by some task, or an event at one worker.
pub data PoolEvent : Type 0 where
  find_proxy : PacRequest → PoolEvent
  at_worker : ℕ → Event → PoolEvent

-- `fetch_add(1)` on an `AtomicUsize`.
abbrev pub increment : ℕ → ℕ
increment n = (n + 1) % 2 ^ 64

abbrev pub at_index : ℕ → (Worker → Worker) → (ℕ → Worker) → ℕ → Worker
at_index i f workers j = if i == j then f (workers j) else workers j

-- The start of `find_proxy`: the next worker in turn is sent the request.
unfoldable pub dispatch : PacRequest → Pool → Pool
unfolding submit_request
dispatch r p = record p {
  workers = at_index (p.next_worker % p.num_workers) (submit_request r) p.workers;
  next_worker = increment p.next_worker;
}

-- What `find_proxy` returns, as `resolve_proxy` takes it.
abbrev pub answer_text : Reply → Option Str
answer_text (found text) = some text
answer_text evaluation_error = none
answer_text thread_dead = none
answer_text dropped_channel = none
answer_text hangs = none

abbrev pub new_pool : PacEngine → Pool
new_pool engine = record {
  workers = λ i. spawned;
  num_workers = engine.num_workers;
  next_worker = engine.next_worker;
}

-- What one worker sees of the events of a pool.
abbrev pub events_for : ℕ → ℕ → ℕ → List PoolEvent → List Event
events_for i n next [] = []
events_for i n next (find_proxy r ∷ es) =
    let rest = events_for i n (increment next) es in if next % n == i then submit r ∷ rest else rest
events_for i n next (at_worker j e ∷ es) =
    let rest = events_for i n next es in if j == i then e ∷ rest else rest

-- The start of `main`: an engine for the path of the configuration, none if it cannot be made.
unfoldable pub start_engine : World → Option Str → Option PacEngine
unfolding new_engine
start_engine w none = none
start_engine w (some path) = elim (new_engine w path) [ ok engine ↦ some engine | err e ↦ none ]

-- The routing's view of an engine with nothing else to do, whose next call is of this script in its
-- present state: the answer of the script itself.
abbrev pub pac_of : (PacRequest → Call) → Pac
pac_of script url host = answer_text (evaluate (script (record { url = url; host = host }))).0

-- Each worker has a script of its own, since each has its own JavaScript context.
module _ (scripts : ℕ → Script) where
  unfoldable pub pool_step : PoolEvent → Pool → Pool
  pool_step (find_proxy r) p = dispatch r p
  pool_step (at_worker i e) p = record p {
    workers = at_index i (worker_step (scripts i) e) p.workers;
  }

  unfoldable pub pool_run : List PoolEvent → Pool → Pool
  pool_run [] p = p
  pool_run (e ∷ es) p = pool_run es (pool_step e p)

  -- No worker sees anything but its own events.
  workers-pool_run :
      (es : List PoolEvent) (p : Pool) (i : ℕ)
      → (pool_run es p).workers i
        ≡ worker_run (scripts i) (events_for i p.num_workers p.next_worker es) (p.workers i)
  unfolding pool_run pool_step dispatch worker_run worker_step
  workers-pool_run [] p i = refl
  workers-pool_run (find_proxy r ∷ es) p i =
      workers-pool_run es (dispatch r p) i
      ∙ (elim (Bool-cases (p.next_worker % p.num_workers == i)) [
        | inl here ↦ rw here refl
        | inr other ↦ rw other refl
      ])
  workers-pool_run (at_worker j e ∷ es) p i =
      workers-pool_run es (pool_step (at_worker j e) p) i ∙ (elim (Bool-cases (j == i)) [
        | inl here ↦ rw here (
            ap
              (λ k.
                worker_run (scripts i) (events_for i p.num_workers p.next_worker es)
                  (worker_step (scripts k) e (p.workers i)))
              ((==_iff j i).0 here))
        | inr other ↦ rw other refl
      ])

  -- Whatever happens at the workers of an engine and in whatever order `find_proxy` is called: at each
  -- worker the requests that are answered, then those in its channel, then those that wait to send are
  -- the requests that came to it in turn, each once and in this order, and every answer is the own
  -- one of that worker's script behind all those before it, or an error of a thread that has ended. Its channel holds at most 32 requests.
  pub pool_in_order :
      (engine : PacEngine) (es : List PoolEvent) (i : ℕ)
      → let w = (pool_run es (new_pool engine)).workers i in
        (asked w ≡ submissions (events_for i engine.num_workers engine.next_worker es))
        × AllGiven (scripts i) w
        × (length w.channel ≤ 32)
  pool_in_order engine es i =
      let (order, given, sound) =
        run_in_order (scripts i) (events_for i engine.num_workers engine.next_worker es) in
      rw (workers-pool_run es (new_pool engine) i) (order, given, sound.room)
