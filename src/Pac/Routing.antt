-- ===== src/Pac/Routing.antt =====
-- What a script that fails, or does not come to an end, means for the routing of a target.
use ferro_vela.Prelude.{◌≡◌, refl, ap, ◌∙◌, ◌≢◌, none, some}
use ferro_vela.Text.{Str}
use ferro_vela.Route.{first_piece, pac_url, resolve_proxy}
use ferro_vela.Route.Resolve.{NotExcepted, resolve_proxy-script, scripted}
use ferro_vela.Pac.Pool.{answer_text, pac_of}
use ferro_vela.Pac.Deadline.{EndsInTime, evaluate_in_time}
use ferro_vela.Pac.Worker.{
  Call, Reply, found, evaluation_error, thread_dead, dropped_channel, hangs, evaluate, PacRequest,
}
use ferro_vela.Config.{Config}

-- What `resolve_proxy` asks an engine for a target with this host.
abbrev pub request_for : Str → Str → PacRequest
request_for target host = record { url = pac_url target; host = host }

no_text : (answer : Reply) → ((text : Str) → answer ≢ found text) → answer_text answer ≡ none
no_text (found text) h = absurd (h text refl)
no_text evaluation_error h = refl
no_text thread_dead h = refl
no_text dropped_channel h = refl
no_text hangs h = refl

-- Where no pattern of the configuration stands for the text before the first colon of a target, and the
-- script has not ended with a text when the interrupt handler is first polled at five seconds after the
-- start or later, be it that it throws an exception, takes longer or never ends, the target is routed as
-- without a script.
pub resolve_proxy-late :
    (script : PacRequest → Call) (target : Str) (config : Config)
    → NotExcepted config.exceptions (first_piece b':' target)
    → ((text : Str) → ¬ EndsInTime (script (request_for target (first_piece b':' target))) 0 text)
    → resolve_proxy target config (some (pac_of script)) ≡ resolve_proxy target config none
resolve_proxy-late script target config free late =
    let call : Call = script (request_for target (first_piece b':' target)) in
    resolve_proxy-script target config (pac_of script) free
    ∙ ap (scripted (resolve_proxy target config none))
        (no_text (evaluate call).0 (λ text e. late text (((evaluate_in_time call).2 text).0 e)))
