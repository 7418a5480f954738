-- ===== src/Proxy/Tests.antt =====
-- Requests to private and public targets, a response, and the credentials of a proxy.
use ferro_vela.Prelude.{
  not, passes_below_at, Bool, passes_below, false, none, ◌<◌, some, [], ◌++◌, arith, true, length,
  ◌≡◌, refl, Option, ℕ,
}
use ferro_vela.Proxy.{connect_respond, Request, upgrade, ConnectRouting, Proxy, forbidden}
use ferro_vela.Proxy.Format.{parse_raw_response}
use ferro_vela.Proxy.Handlers.{
  plain_http_handler, spliced, connect_handle, Connect, request_target_of,
}
use ferro_vela.Proxy.Create.{new}
use ferro_vela.Text.{codes, Str}
use ferro_vela.Effect.{done, returns}
use ferro_vela.Tunnel.{crlf, header_end}
use ferro_vela.Auth.{basic}
use ferro_vela.Proxy.Guard.{plain_http_handler-forbidden, connect_handle-not_private}
use ferro_vela.Text.Utf8.{Bytes}
use ferro_vela.Auth.Tests.{test_services}
use ferro_vela.Config.{Config, default_upstream, UpstreamConfig, default_config}
use ferro_vela.Proxy.Credentials.{new-configured_password}
use ferro_vela.Route.{resolve_proxy}
use ferro_vela.Proxy.Wire.{parse_raw_response-body}
use ferro_vela.Ssrf.{is_private_target}
use ferro_vela.Http.Search.{first_memmem}
use ferro_vela.Http.{occurs_at}
use ferro_vela.Socket.{Stream}

abbrev plain_config : Config
plain_config = default_config

abbrev pub guarded_proxy : Proxy
guarded_proxy = new test_services plain_config none

abbrev pub request_to : Str → Request
request_to host = record {
  method = codes "CONNECT";
  uri = record {
    authority = some (host ++ codes ":443");
    host = some host;
    port = some 443;
    scheme = none;
    text = host ++ codes ":443";
    request_target = host ++ codes ":443";
  };
  headers = [];
  body = [];
}

abbrev quiet : Stream
quiet = record { incoming = []; accepts = []; sent = [] }

abbrev pub always : Connect
always address = some quiet

abbrev public_routing : ConnectRouting
public_routing = record { target = codes "203.0.113.5:443"; proxy_addr = none }

is_let_through :
    connect_respond guarded_proxy (request_to (codes "203.0.113.5"))
    ≡ returns (upgrade public_routing)
unfolding connect_respond resolve_proxy new is_private_target
is_let_through = refl

is_spliced :
    connect_handle first_memmem always test_services guarded_proxy (some public_routing)
    ≡ done (spliced (codes "203.0.113.5:443") quiet)
unfolding connect_handle
is_spliced = refl

connect_handle-not_private_example :
    ((request_to (codes "203.0.113.5")).uri.authority ≡ some (codes "203.0.113.5:443"))
    × (is_private_target (codes "203.0.113.5:443") ≡ false)
unfolding new
connect_handle-not_private_example =
    connect_handle-not_private first_memmem always test_services guarded_proxy
      (request_to (codes "203.0.113.5")) public_routing (codes "203.0.113.5:443") quiet
      is_let_through refl refl is_spliced

pub goes_direct :
    resolve_proxy (request_target_of (codes "127.0.0.1") 443) guarded_proxy.config guarded_proxy.pac
    ≡ returns none
unfolding resolve_proxy new
goes_direct = refl

pub is_private : is_private_target (request_target_of (codes "127.0.0.1") 443) ≡ true
unfolding is_private_target request_target_of
is_private = refl

plain_is_forbidden :
    plain_http_handler first_memmem always test_services guarded_proxy
      (request_to (codes "127.0.0.1"))
    ≡ done forbidden
unfolding ferro_vela.Proxy.Handlers.request_port new
plain_is_forbidden =
    plain_http_handler-forbidden first_memmem always test_services guarded_proxy
      (request_to (codes "127.0.0.1")) (codes "127.0.0.1") refl refl goes_direct refl is_private

abbrev response_head : Bytes
response_head = codes "HTTP/1.1 200 OK" ++ (crlf ++ codes "Via: x")

not-true : {b : Bool} → not b ≡ true → b ≡ false
not-true h = ground arith

abbrev no_end_at : ℕ → Bool
no_end_at j = not (occurs_at (response_head ++ (header_end ++ codes "hi")) header_end j)

checked : passes_below no_end_at (length response_head) ≡ true
unfolding passes_below ferro_vela.Text.Match.starts_with
checked = refl

no_earlier_end :
    (j : ℕ)
    → j < length response_head
    → occurs_at (response_head ++ (header_end ++ codes "hi")) header_end j ≡ false
no_earlier_end j h = not-true (passes_below_at no_end_at (length response_head) j h checked)

body_behind_head :
    ((parse_raw_response first_memmem (response_head ++ (header_end ++ codes "hi"))).body
      ≡ codes "hi")
    × ((parse_raw_response first_memmem (response_head ++ (header_end ++ codes "hi"))).headers ≡ [])
body_behind_head = parse_raw_response-body first_memmem response_head (codes "hi") no_earlier_end

abbrev basic_upstream : Option Str → UpstreamConfig
basic_upstream pass = record default_upstream {
  auth_type = codes "basic";
  username = some (codes "ada");
  password = pass;
  proxy_url = some (codes "http://proxy:3128");
}

abbrev with_upstream : UpstreamConfig → Config
with_upstream u = record default_config { upstream = some u }

same_credentials :
    ((new test_services (with_upstream (basic_upstream (some (codes "pw")))) none).authenticator
      ≡ some (basic (codes "ada:pw")))
    × ((new test_services (with_upstream (basic_upstream (some (codes "pw")))) none).basic_auth_b64
        ≡ some (codes "ada:pw"))
unfolding ferro_vela.Text.Utf8.as_bytes
same_credentials =
    new-configured_password test_services (basic_upstream (some (codes "pw")))
      (with_upstream (basic_upstream (some (codes "pw")))) none (codes "ada") (codes "pw") refl refl
      refl refl refl

abbrev kerberos_upstream : UpstreamConfig
kerberos_upstream = record default_upstream {
  auth_type = codes "kerberos";
  proxy_url = some (codes "http://[::1]:3128");
}
