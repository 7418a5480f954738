-- ===== src/Proxy/Handlers.antt =====
-- The service behind an accepted CONNECT request and the handler of plain requests.
use ferro_vela.Prelude.{
  ℕ, Bool, true, false, not, ◌&&◌, ◌||◌, [], ◌∷◌, ◌++◌, Option, none, some, ◌==◌, if◌then◌else◌,
  unwrap_or,
}
use ferro_vela.Text.{Str, codes, str_eq, is_empty}
use ferro_vela.Text.Match.{contains_char}
use ferro_vela.Text.Number.{to_string}
use ferro_vela.Text.Utf8.{as_bytes}
use ferro_vela.Effect.{Outcome, returns, panics, Io, done, fail, pending, panicked}
use ferro_vela.Socket.{Stream, write_all, read_to_end}
use ferro_vela.Ssrf.{is_private_target}
use ferro_vela.Http.{Memmem}
use ferro_vela.Auth.{Services, Authenticator, create_session, step}
use ferro_vela.Tunnel.{send_connect, read_connect_response, perform_authenticated_connect}
use ferro_vela.Route.{resolve_proxy, normalize_proxy_addr}
use ferro_vela.Proxy.{
  Uri, Request, Response, bad_request, forbidden, bad_gateway, Proxy, ConnectRouting,
}
use ferro_vela.Proxy.Format.{parse_raw_response, write_http_request}

abbrev is_https : Option Str → Bool
is_https none = false
is_https (some s) = str_eq s (codes "https")

-- The `or_else` always gives a port.
unfoldable pub request_port : Uri → ℕ
unfolding str_eq
request_port uri = elim uri.port [ some n ↦ n | none ↦ if is_https uri.scheme then 443 else 80 ]

unfoldable pub request_target_of : Str → ℕ → Str
unfolding contains_char to_string
request_target_of host port =
    if contains_char host b':'
    then b'[' ∷ (host ++ (b']' ∷ (b':' ∷ to_string port)))
    else host ++ (b':' ∷ to_string port)

-- `TcpStream::connect`: a stream, or none for an error.
abbrev pub Connect : Type 0
Connect = Str → Option Stream

-- The stream that was spliced to the client's and the address it leads to, or nothing but a log line.
pub data Served : Type 0 where
  spliced : Str → Stream → Served
  dropped : Served

abbrev splice_result : Str → Io Stream → Io Served
splice_result address (done s) = done (spliced address s)
splice_result address (fail e) = done dropped
splice_result address pending = pending
splice_result address panicked = panicked

module _ (mem : Memmem) (connect : Connect) where
  -- Connect, write the request, read to the end. The errors of the read are ignored.
  unfoldable forward : Str → Str → Io Response
  unfolding parse_raw_response read_to_end as_bytes
  forward address raw = elim (connect address) [
    | none ↦ done bad_gateway
    | some s ↦ elim (write_all (as_bytes raw) s) [
      | fail e ↦ done bad_gateway
      | pending ↦ pending
      | panicked ↦ panicked
      | done s1 ↦ elim (read_to_end s1.incoming) [
        | done buf ↦ done (parse_raw_response mem buf)
        | fail e ↦ fail e
        | pending ↦ pending
        | panicked ↦ panicked
      ]
    ]
  ]

  unfoldable pub forward_plain_http_to_upstream : Request → Str → Option Str → Io Response
  unfolding forward write_http_request
  forward_plain_http_to_upstream req upstream_addr b64 =
      forward upstream_addr (write_http_request req true b64)

  unfoldable pub forward_plain_http_direct : Request → Str → Io Response
  unfolding forward write_http_request
  forward_plain_http_direct req target = forward target (write_http_request req false none)

  -- The unauthenticated tunnel through an upstream proxy, on an open stream.
  abbrev plain_tunnel : Str → Str → Stream → Io Served
  plain_tunnel address target upstream = elim (send_connect upstream target none) [
    | fail e ↦ done dropped
    | pending ↦ pending
    | panicked ↦ panicked
    | done s1 ↦ elim (read_connect_response mem s1) [
      | fail e ↦ done dropped
      | pending ↦ pending
      | panicked ↦ panicked
      | done (status, s2) ↦ if status == 200 then done (spliced address s2) else done dropped
    ]
  ]

  module _ (sv : Services) where
    abbrev pub connect_direct : Str → Io Served
    connect_direct target = elim (connect target) [
      | none ↦ done dropped
      | some s ↦ done (spliced target s)
    ]

    abbrev upstream_tunnel : Option Authenticator → Str → Str → Option Stream → Io Served
    upstream_tunnel auth address target none = done dropped
    upstream_tunnel none address target (some s) = plain_tunnel address target s
    upstream_tunnel (some a) address target (some s) =
        splice_result address
          (perform_authenticated_connect mem (step sv) target (create_session sv a) s)

    unfoldable pub connect_handle : Proxy → Option ConnectRouting → Io Served
    unfolding normalize_proxy_addr
    connect_handle p none = done dropped
    connect_handle p (some routing) = elim routing.proxy_addr [
      | none ↦ connect_direct routing.target
      | some proxy_url ↦
          (let address = normalize_proxy_addr sv proxy_url in
            upstream_tunnel p.authenticator address routing.target (connect address))
    ]

    -- The plain request, forwarded by the answer of the routing.
    abbrev plain_routed : Proxy → Request → Str → Outcome (Option Str) → Io Response
    plain_routed p req target panics = panicked
    plain_routed p req target (returns (some proxy_url)) =
        forward_plain_http_to_upstream req (normalize_proxy_addr sv proxy_url) p.basic_auth_b64
    plain_routed p req target (returns none) =
        if not p.config.proxy.allow_private_ips && is_private_target target
        then done forbidden
        else forward_plain_http_direct req target

    abbrev pub plain_to : Proxy → Request → Str → Str → Io Response
    plain_to p req host target =
        if is_empty target || is_empty host
        then done bad_request
        else plain_routed p req target (resolve_proxy target p.config p.pac)

    unfoldable pub plain_http_handler : Proxy → Request → Io Response
    plain_http_handler p req =
        let host = unwrap_or req.uri.host [] in
        plain_to p req host (request_target_of host (request_port req.uri))
