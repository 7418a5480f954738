-- ===== src/Proxy.antt =====
-- The proxy service of crates/ferrovela-lib/src/proxy/mod.rs: requests and responses, the state of a
-- proxy, and the responder of CONNECT requests.
pub mod Format
pub mod Handlers
pub mod Create
pub mod Wire
pub mod Guard
pub mod Credentials
pub mod Run
pub mod Refusal
pub mod RunTests
pub mod Tests
use ferro_vela.Prelude.{
  ℕ, ◌+◌, ◌≡◌, Bool, true, false, not, ◌&&◌, ◌||◌, List, [], ◌∷◌, ◌++◌, Option, none, some, ltb,
  leb, ◌==◌, if◌then◌else◌, unwrap_or, is_none, get_elem?, drop, length,
}
use ferro_vela.Text.{Str, codes, str_eq, is_empty}
use ferro_vela.Text.Match.{contains_char}
use ferro_vela.Text.Split.{lines, split_whitespace}
use ferro_vela.Text.Number.{parse_uint, max_u16, to_string}
use ferro_vela.Text.Utf8.{Bytes, as_bytes, from_utf8_lossy}
use ferro_vela.Effect.{Outcome, returns, panics, Io, done, fail, pending, panicked}
use ferro_vela.Socket.{Stream, write_all, read_to_end}
use ferro_vela.Config.{Config, UpstreamConfig, effective_listen_ip}
use ferro_vela.Ssrf.{is_private_target}
use ferro_vela.Http.{Memmem}
use ferro_vela.Auth.{Services, Authenticator, Session, create_session, create_authenticator, step}
use ferro_vela.Tunnel.{
  header_end, crlf, parse_status, send_connect, read_connect_response,
  perform_authenticated_connect,
}
use ferro_vela.Route.{Pac, resolve_proxy, normalize_proxy_addr}

-- What the crate `rama` says of a request: the parts of its URI, its headers (none for a value that
-- is not visible ASCII), its body.
pub record Uri : Type 0 where
  pub authority : Option Str
  pub host : Option Str
  pub port : Option ℕ
  pub scheme : Option Str
  pub text : Str
  pub request_target : Str

pub record Request : Type 0 where
  pub method : Str
  pub uri : Uri
  pub headers : List (Str × Option Str)
  pub body : Bytes

pub record Response : Type 0 where
  pub status : ℕ
  pub headers : List (Str × Str)
  pub body : Bytes

abbrev empty_response : ℕ → Response
empty_response status = record {
  status = status;
  headers = (codes "Content-Length", codes "0") ∷ [];
  body = [];
}

abbrev pub bad_request : Response
bad_request = empty_response 400

abbrev pub forbidden : Response
forbidden = empty_response 403

abbrev pub bad_gateway : Response
bad_gateway = empty_response 502

-- `Proxy`, and `ProxyState` with the same fields.
pub record Proxy : Type 0 where
  pub config : Config
  pub pac : Option Pac
  pub authenticator : Option Authenticator
  pub basic_auth_b64 : Option Str

pub record ConnectRouting : Type 0 where
  pub target : Str
  pub proxy_addr : Option Str

-- What the responder of a CONNECT request says: go on with a routing, or this response.
pub data Reply : Type 0 where
  upgrade : ConnectRouting → Reply
  reject : Response → Reply

-- What the responder does with a target and the answer of the routing.
abbrev pub routed : Proxy → Str → Outcome (Option Str) → Outcome Reply
routed p target panics = panics
routed p target (returns proxy_addr) =
    if is_none proxy_addr && not p.config.proxy.allow_private_ips && is_private_target target
    then returns (reject forbidden)
    else returns (upgrade (record { target = target; proxy_addr = proxy_addr }))

abbrev pub authority_reply : Proxy → Option Str → Outcome Reply
authority_reply p none = returns (reject bad_request)
authority_reply p (some target) = routed p target (resolve_proxy target p.config p.pac)

pub connect_respond : Proxy → Request → Outcome Reply
connect_respond p req = authority_reply p req.uri.authority
