-- ===== src/Proxy/RunTests.antt =====
-- A server that keeps the laws of rama's, and a CONNECT request to the loopback address.
use ferro_vela.Prelude.{◌≡◌, refl, if◌then◌else◌}
use ferro_vela.Text.{codes}
use ferro_vela.Proxy.{Reply, reject, upgrade, ConnectRouting, forbidden}
use ferro_vela.Effect.{Io, done, Outcome, returns, panics}
use ferro_vela.Proxy.Handlers.{Served, request_target_of}
use ferro_vela.Proxy.Run.{is_connect, UpgradeServer, run, Exchange, answered, upgraded, broken}
use ferro_vela.Proxy.Refusal.{Asks, by_connect, run-forbidden}
use ferro_vela.Proxy.Tests.{guarded_proxy, request_to, always, goes_direct, is_private}
use ferro_vela.Http.Search.{first_memmem}
use ferro_vela.Auth.Tests.{test_services}

abbrev by_reply : Outcome Reply → (ConnectRouting → Io Served) → Exchange
by_reply panics serve = broken
by_reply (returns (upgrade routing)) serve = upgraded (serve routing)
by_reply (returns (reject response)) serve = answered (done response)

abbrev dispatching : UpgradeServer
dispatching = record {
  handle = λ matcher respond serve inner req.
      if matcher req then by_reply (respond req) serve else answered (inner req);
  handle-rejected = λ matcher respond serve inner req response h e. rw (h, e) refl;
  handle-upgraded = λ matcher respond serve inner req routing h e. rw (h, e) refl;
  handle-other = λ matcher respond serve inner req h. rw h refl;
}

loopback_request : Asks (request_to (codes "127.0.0.1")) (request_target_of (codes "127.0.0.1") 443)
unfolding is_connect request_target_of
loopback_request = by_connect _ refl refl

run-forbidden_example :
    run first_memmem always test_services dispatching guarded_proxy (request_to (codes "127.0.0.1"))
    ≡ answered (done forbidden)
unfolding ferro_vela.Proxy.Create.new
run-forbidden_example =
    run-forbidden first_memmem always test_services dispatching guarded_proxy
      (request_to (codes "127.0.0.1")) (request_target_of (codes "127.0.0.1") 443) loopback_request
      goes_direct refl is_private
