-- ===== src/Proxy/Refusal.antt =====
-- A request for a private target is refused, whichever service answers it.
use ferro_vela.Prelude.{◌≡◌, refl, ap, ◌∙◌, true, false, none, some}
use ferro_vela.Text.{Str, is_empty}
use ferro_vela.Proxy.Run.{is_connect, UpgradeServer, run, answered}
use ferro_vela.Proxy.Guard.{plain_http_handler-forbidden}
use ferro_vela.Route.{resolve_proxy}
use ferro_vela.Ssrf.{is_private_target}
use ferro_vela.Proxy.{Request, Proxy, reject, connect_respond, forbidden}
use ferro_vela.Effect.{done, returns}
use ferro_vela.Http.{Memmem}
use ferro_vela.Auth.{Services}
use ferro_vela.Proxy.Handlers.{Connect, request_target_of, request_port}

-- The target that a request asks for: the authority of a CONNECT request, the host and the port of
-- another.
pub data Asks (req : Request) : Str → Type 0 where
  by_connect :
      (target : Str) → is_connect req ≡ true → req.uri.authority ≡ some target → Asks req target
  by_host :
      (host : Str)
      → is_connect req ≡ false
      → req.uri.host ≡ some host
      → is_empty host ≡ false
      → Asks req (request_target_of host (request_port req.uri))

connect_respond-forbidden :
    (p : Proxy) (req : Request) (target : Str)
    → req.uri.authority ≡ some target
    → resolve_proxy target p.config p.pac ≡ returns none
    → p.config.proxy.allow_private_ips ≡ false
    → is_private_target target ≡ true
    → connect_respond p req ≡ returns (reject forbidden)
unfolding connect_respond
connect_respond-forbidden p req target named direct deny private =
    rw (named, direct, deny, private) refl

module _ (mem : Memmem) (connect : Connect) (sv : Services) (server : UpgradeServer) where
  -- Where private addresses are not allowed, a request for a private target that the routing sends
  -- direct is answered with 403, whether it is a CONNECT request or another.
  pub run-forbidden :
      (p : Proxy) (req : Request) (target : Str)
      → Asks req target
      → resolve_proxy target p.config p.pac ≡ returns none
      → p.config.proxy.allow_private_ips ≡ false
      → is_private_target target ≡ true
      → run mem connect sv server p req ≡ answered (done forbidden)
  unfolding run
  run-forbidden p req _ (by_connect target matched named) direct deny private =
      server.handle-rejected _ _ _ _ req forbidden matched
        (connect_respond-forbidden p req target named direct deny private)
  run-forbidden p req _ (by_host host other named full) direct deny private =
      server.handle-other _ _ _ _ req other
      ∙ ap answered
          (plain_http_handler-forbidden mem connect sv p req host named full direct deny private)
