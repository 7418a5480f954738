-- ===== src/Proxy/Run.antt =====
-- `Proxy::run`: which service answers a request, on the server of the crate rama.
use ferro_vela.Prelude.{◌≡◌, Bool, true, false, some}
use ferro_vela.Text.{codes, str_eq}
use ferro_vela.Proxy.{
  Request, Response, Proxy, Reply, reject, upgrade, ConnectRouting, connect_respond,
}
use ferro_vela.Effect.{Io, done, Outcome, returns}
use ferro_vela.Http.{Memmem}
use ferro_vela.Auth.{Services}
use ferro_vela.Proxy.Handlers.{Connect, Served, connect_handle, plain_http_handler}

-- What becomes of a request: a response, or a tunnel that is served on its connection, or neither where
-- the responder of an upgrade panics.
pub data Exchange : Type 0 where
  answered : Io Response → Exchange
  upgraded : Io Served → Exchange
  broken : Exchange

-- rama's `HttpServer` with an `UpgradeLayer`: the services for a request that the matcher takes, and the
-- service for every other one.
pub record UpgradeServer : Type 0 where
  pub handle :
      (Request → Bool)
      → (Request → Outcome Reply)
      → (ConnectRouting → Io Served)
      → (Request → Io Response)
      → Request
      → Exchange
  pub handle-rejected :
      (matcher : Request → Bool) (respond : Request → Outcome Reply)
      (serve : ConnectRouting → Io Served) (inner : Request → Io Response) (req : Request)
      (response : Response)
      → matcher req ≡ true
      → respond req ≡ returns (reject response)
      → handle matcher respond serve inner req ≡ answered (done response)
  pub handle-upgraded :
      (matcher : Request → Bool) (respond : Request → Outcome Reply)
      (serve : ConnectRouting → Io Served) (inner : Request → Io Response) (req : Request)
      (routing : ConnectRouting)
      → matcher req ≡ true
      → respond req ≡ returns (upgrade routing)
      → handle matcher respond serve inner req ≡ upgraded (serve routing)
  pub handle-other :
      (matcher : Request → Bool) (respond : Request → Outcome Reply)
      (serve : ConnectRouting → Io Served) (inner : Request → Io Response) (req : Request)
      → matcher req ≡ false
      → handle matcher respond serve inner req ≡ answered (inner req)

-- `MethodMatcher::CONNECT`.
unfoldable pub is_connect : Request → Bool
unfolding str_eq
is_connect req = str_eq req.method (codes "CONNECT")

module _ (mem : Memmem) (connect : Connect) (sv : Services) (server : UpgradeServer) where
  unfoldable pub run : Proxy → Request → Exchange
  run p req =
      server.handle is_connect (connect_respond p)
        (λ routing. connect_handle mem connect sv p (some routing))
        (plain_http_handler mem connect sv p) req
