-- ===== src/Pac/Worker.antt =====
-- The worker threads of a `PacEngine` and `find_proxy`, of pac.rs. A thread has a channel of at most 32
-- requests; who finds it full waits to send, in order. What other threads do between two steps of one
-- thread is the order of the events.
use ferro_vela.Prelude.{
  ℕ, zero, suc, ◌+◌, ◌≤◌, Bool, true, false, Option, none, some, List, [], ◌∷◌, ◌++◌, map, ltb, leb,
  ◌==◌, if◌then◌else◌, length,
}
use ferro_vela.Text.{Str}

pub record PacRequest : Type 0 where
  pub url : Str
  pub host : Str

-- What comes back to a caller. `hangs` is a call that does not come to an end.
pub data Reply : Type 0 where
  found : Str → Reply
  evaluation_error thread_dead dropped_channel hangs : Reply

-- One call of the function `FindProxyForURL`, which the engine of JavaScript runs: after how many polls
-- of the interrupt handler it ends and with what (none for an exception), if it ends by itself; the time
-- at which the deadline is set and the time at each poll, in milliseconds. The clock passes every time.
pub record Call : Type 0 where
  pub ends : Option (ℕ × Option Str)
  pub start : ℕ
  pub clock : ℕ → ℕ
  pub reaches : ℕ → ℕ
  pub reaches_lem : (t : ℕ) → t ≤ clock (reaches t)

abbrev pub pac_eval_timeout : ℕ
pac_eval_timeout = 5000

-- The closure that `set_interrupt_handler` is given.
abbrev pub interrupts : Option ℕ → ℕ → Bool
interrupts none now = false
interrupts (some deadline) now = leb deadline now

unfoldable pub ended : Option (ℕ × Option Str) → ℕ → Option (Option Str)
ended none i = none
ended (some (n, result)) i = if n == i then some result else none

abbrev pub answer_of : Option Str → Reply
answer_of none = evaluation_error
answer_of (some text) = found text

-- One poll: before it the call may have ended, and it may abort the call.
unfoldable pub polled : Option (Option Str) → Bool → Reply → Reply
polled (some result) aborted rest = answer_of result
polled none true rest = evaluation_error
polled none false rest = rest

-- The call from its poll `i` on.
unfoldable pub run_call : ℕ → Option ℕ → Call → ℕ → Reply
run_call zero deadline call i = hangs
run_call (suc fuel) deadline call i =
    let rest = run_call fuel deadline call (suc i) in
    polled (ended call.ends i) (interrupts deadline (call.clock i)) rest

abbrev pub deadline_of : Call → ℕ
deadline_of call = call.start + pac_eval_timeout

-- Arm, call, disarm: the answer and the deadline that is left.
unfoldable pub evaluate : Call → Reply × Option ℕ
evaluate call =
    let fuel = suc (call.reaches (deadline_of call)) in
    (run_call fuel (some (deadline_of call)) call 0, none)

-- A thread with its channel, those who wait to send, and the answers so far.
pub record Worker : Type 0 where
  pub alive : Bool
  pub deadline : Option ℕ
  pub waiting : List PacRequest
  pub channel : List PacRequest
  pub answered : List (PacRequest × Reply)

abbrev pub spawned : Worker
spawned = record { alive = true; deadline = none; waiting = []; channel = []; answered = [] }

abbrev pub channel_capacity : ℕ
channel_capacity = 32

pub data Event : Type 0 where
  submit : PacRequest → Event
  admit serve die : Event

-- A caller begins to send.
unfoldable pub submit_request : PacRequest → Worker → Worker
submit_request r w = record w { waiting = w.waiting ++ (r ∷ []) }

-- The first of those who wait gets a place in the channel; from a thread that has ended, an error.
abbrev pub admit_first : Bool → List PacRequest → Worker → Worker
admit_first alive [] w = w
admit_first true (r ∷ rs) w =
    if ltb (length w.channel) channel_capacity
    then record w { waiting = rs; channel = w.channel ++ (r ∷ []) }
    else w
admit_first false (r ∷ rs) w = record w {
  waiting = rs;
  answered = w.answered ++ ((r, thread_dead) ∷ []);
}

unfoldable pub admit_request : Worker → Worker
admit_request w = admit_first w.alive w.waiting w

-- The thread ends: the requests in its channel are dropped, and with them the senders of their answers.
unfoldable pub end_thread : Worker → Worker
end_thread w = record w {
  alive = false;
  channel = [];
  answered = w.answered ++ map (λ r. (r, dropped_channel)) w.channel;
}

-- The requests that a thread has answered, in order.
abbrev pub served : Worker → List PacRequest
served w = map (λ p. p.0) w.answered

-- What the script of a thread does with a request. A thread keeps one JavaScript context for all its
-- calls, so that a call may depend on all those before it; their number tells one call from another, so
-- that the time of day or a random number may be in it too.
abbrev pub Script : Type 0
Script = List PacRequest → PacRequest → Call

module _ (script : Script) where
  -- One turn of the loop over `blocking_recv`.
  abbrev pub serve_first : Bool → List PacRequest → Worker → Worker
  serve_first false rs w = w
  serve_first true [] w = w
  serve_first true (r ∷ rs) w = record w {
    deadline = (evaluate (script (served w) r)).1;
    channel = rs;
    answered = w.answered ++ ((r, (evaluate (script (served w) r)).0) ∷ []);
  }

  unfoldable pub serve_request : Worker → Worker
  serve_request w = serve_first w.alive w.channel w

  unfoldable pub worker_step : Event → Worker → Worker
  worker_step (submit r) w = submit_request r w
  worker_step admit w = admit_request w
  worker_step serve w = serve_request w
  worker_step die w = end_thread w

  unfoldable pub worker_run : List Event → Worker → Worker
  worker_run [] w = w
  worker_run (e ∷ es) w = worker_run es (worker_step e w)
