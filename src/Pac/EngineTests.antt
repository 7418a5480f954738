-- ===== src/Pac/EngineTests.antt =====
-- A script that is loaded, and the worker threads that run it, at concrete inputs.
use ferro_vela.Prelude.{
  ℕ, ◌+◌, ◌≤◌, ◌≡◌, refl, ◌≢◌, ◌↔◌, true, none, some, List, [], ◌∷◌, ◌++◌, map, arith, ltb,
  if◌then◌else◌, length,
}
use ferro_vela.Text.{Str, codes, str_eq}
use ferro_vela.Pac.Worker.{
  Script, serve, Call, PacRequest, evaluate, found, hangs, Event, submit, admit, die, worker_run,
  spawned,
}
use ferro_vela.Pac.{
  sh_exp_match, is_plain_host_name, dns_domain_is, local_host_or_domain_is, Resolver, is_in_net,
  is_resolvable, dns_domain_levels, convert_addr, dns_resolve, my_ip_address, weekday_range,
  date_range, time_range, resolve_ip,
}
use ferro_vela.Pac.Loading.{World, PacEngine, new_engine, ok, err, parent_component, not_fetched}
use ferro_vela.Pac.Loads.{IsMade, new_engine-CameFrom}
use ferro_vela.Pac.Deadline.{EndsInTime, evaluate_in_time}
use ferro_vela.Pac.Queue.{asked, submissions}
use ferro_vela.Pac.Answers.{AllGiven}
use ferro_vela.Pac.Progress.{rounds, all_answered}
use ferro_vela.Pac.Pool.{
  PoolEvent, find_proxy, at_worker, pool_run, new_pool, events_for, pool_in_order, start_engine,
  pac_of,
}
use ferro_vela.Pac.Routing.{resolve_proxy-late}
use ferro_vela.Route.{resolve_proxy}
use ferro_vela.Config.{default_config}

-- A world with one file and one script.
abbrev script_text : Str
script_text = codes "function FindProxyForURL(u, h) { return \"DIRECT\"; }"

abbrev one_file : World
one_file = record {
  builds = true;
  get = λ url. none;
  canonicalize = λ path. some (codes "/etc/proxy.pac");
  is_file = λ path. some true;
  read = λ path. some script_text;
  has_runtime = true;
  has_context = true;
  registers = true;
  evaluates = λ s. true;
  defines = λ s name. str_eq name (codes "FindProxyForURL");
  available_parallelism = some 8;
  spawns = true;
}

abbrev made_engine : PacEngine
made_engine = record { script = script_text; num_workers = 4; capacity = 32; next_worker = 0 }

engine_made : new_engine one_file (codes "proxy.pac") ≡ ok made_engine
unfolding new_engine ferro_vela.Pac.Loading.◌>>=◌ ferro_vela.Pac.Loading.◌>>◌
    ferro_vela.Pac.Loading.bail_if ferro_vela.Pac.Loading.context
engine_made = refl

-- A path with a component `..` is refused before a file is looked for; a file whose name begins with
-- `http` is fetched.
refused_paths :
    (new_engine one_file (codes "../proxy.pac") ≡ err parent_component)
    × (new_engine one_file (codes "httpd/proxy.pac") ≡ err not_fetched)
    × (start_engine one_file (some (codes "a/../b")) ≡ none)
unfolding new_engine ferro_vela.Pac.Loading.◌>>=◌ ferro_vela.Pac.Loading.◌>>◌
    ferro_vela.Pac.Loading.bail_if ferro_vela.Pac.Loading.context start_engine
refused_paths = (refl, refl, refl)

new_engine-CameFrom_example : IsMade one_file (codes "proxy.pac") made_engine
new_engine-CameFrom_example = new_engine-CameFrom one_file (codes "proxy.pac") engine_made

-- A script that answers at its third poll for one host, and never for another.
reached : (t : ℕ) → t ≤ 100 + t
reached t = omega arith

abbrev calls : PacRequest → Call
calls r = record {
  ends = if str_eq r.host (codes "slow.corp") then none else some (3, some (codes "DIRECT"));
  start = 100;
  clock = λ i. 100 + i;
  reaches = λ t. t;
  reaches_lem = reached;
}

-- A script that counts its calls and names a proxy from the second on.
abbrev counting : Script
counting before r = record {
  ends =
      some
        (0, some (if ltb 0 (length before) then codes "PROXY 10.0.0.1:8080" else codes "DIRECT"));
  start = 100;
  clock = λ i. 100 + i;
  reaches = λ t. t;
  reaches_lem = reached;
}

abbrev fast : PacRequest
fast = record { url = codes "https://fast.corp/"; host = codes "fast.corp" }

abbrev slow : PacRequest
slow = record { url = codes "https://slow.corp/"; host = codes "slow.corp" }

fast_answer : (evaluate (calls fast)).0 ≡ found (codes "DIRECT")
unfolding evaluate ferro_vela.Pac.Worker.run_call ferro_vela.Pac.Worker.polled
    ferro_vela.Pac.Worker.ended str_eq
fast_answer = refl

evaluate_in_time_example :
    ((evaluate (calls slow)).0 ≢ hangs)
    × ((evaluate (calls slow)).1 ≡ none)
    × ((text : Str) → ((evaluate (calls slow)).0 ≡ found text) ↔ EndsInTime (calls slow) 0 text)
evaluate_in_time_example = evaluate_in_time (calls slow)

-- Two callers, and a thread that ends before the second is let in.
abbrev two_callers : List Event
two_callers = submit fast ∷ admit ∷ submit slow ∷ die ∷ []

all_answered_example :
    (later : List PacRequest) × (map
        (λ p. p.0)
        (worker_run counting (two_callers ++ rounds ([] ∷ [] ∷ [])) spawned).answered
      ≡ submissions two_callers ++ later)
all_answered_example = all_answered counting two_callers ([] ∷ [] ∷ []) (omega arith)

abbrev three_calls : List PoolEvent
three_calls = find_proxy fast ∷ find_proxy slow ∷ find_proxy fast ∷ at_worker 1 admit ∷ []

pool_in_order_example :
    let w = (pool_run (λ i. counting) three_calls (new_pool made_engine)).workers 1 in
    (asked w ≡ submissions (events_for 1 4 0 three_calls))
    × AllGiven counting w
    × (length w.channel ≤ 32)
pool_in_order_example = pool_in_order (λ i. counting) made_engine three_calls 1

second_worker : submissions (events_for 1 4 0 three_calls) ≡ slow ∷ []
second_worker = refl

second_answer :
    (worker_run counting
      (submit fast ∷ admit ∷ serve ∷ submit slow ∷ admit ∷ serve ∷ [])
      spawned).answered
    ≡ (fast, found (codes "DIRECT")) ∷ (slow, found (codes "PROXY 10.0.0.1:8080")) ∷ []
unfolding worker_run ferro_vela.Pac.Worker.worker_step ferro_vela.Pac.Worker.serve_request
    ferro_vela.Pac.Worker.admit_request ferro_vela.Pac.Worker.submit_request evaluate
    ferro_vela.Pac.Worker.run_call ferro_vela.Pac.Worker.polled ferro_vela.Pac.Worker.ended
second_answer = refl

never_in_time : (text : Str) → ¬ EndsInTime (calls slow) 0 text
unfolding str_eq
never_in_time text (n, e, low, early) = cc

resolve_proxy-late_example :
    resolve_proxy (codes "slow.corp:443") default_config (some (pac_of calls))
    ≡ resolve_proxy (codes "slow.corp:443") default_config none
unfolding ferro_vela.Route.first_piece
resolve_proxy-late_example =
    resolve_proxy-late calls (codes "slow.corp:443") default_config tt (λ text. never_in_time text)
