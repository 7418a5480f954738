-- ===== src/Tunnel.antt =====
-- The CONNECT handshake with an upstream proxy: crates/ferrovela-lib/src/proxy/auth_tunnel.rs.
pub mod Headers
pub mod Connect
pub mod Rounds
pub mod Ntlm
pub mod Drain
pub mod Tests
use ferro_vela.Prelude.{
  ℕ, zero, suc, ◌+◌, ◌-◌, ◌*◌, ◌/◌, ◌%◌, ◌^◌, ◌≤◌, ◌<◌, ◌≡◌, refl, sym, ap, ◌∙◌, subst, ◌≢◌, ◌↔◌,
  ◌⊎◌, inl, inr, Bool, true, false, not, ◌&&◌, ◌||◌, Option, none, some, List, [], ◌∷◌, ◌++◌, map,
  append-nil, append_assoc, arith, ltb, leb, ◌==◌, if◌then◌else◌, Bool-cases, Option-cases, length,
  take, drop, get_elem?, any, all, All, unwrap_or, map_option, is_some, is_none, length-append, min,
  ==_iff, ltb→lt, lt→ltb, leb→le,
}
use ferro_vela.Text.{Str, codes, str_eq, str_eq_iff, is_empty, str_len}
use ferro_vela.Effect.{
  panicked, Outcome, returns, panics, Io, done, fail, pending, ◌>>=◌, from_option, from_outcome,
  Failure, closed_early, too_large, no_status, no_token, exhausted, session_error, refused,
  out_of_fuel,
}
use ferro_vela.Text.Match.{strip_prefix, split_at, eq_ignore_ascii_case}
use ferro_vela.Text.Split.{lines, split_whitespace, trim}
use ferro_vela.Text.Number.{parse_uint, max_u16}
use ferro_vela.Text.Utf8.{Bytes, as_bytes, from_utf8_lossy}
use ferro_vela.Socket.{Event, Stream, read_events, read_exact_events, write_all}
use ferro_vela.Http.{Memmem, parse_content_length}
use ferro_vela.Auth.{Answer, token, silent, failed}

abbrev pub max_header_bytes : ℕ
max_header_bytes = 64 * 1024

abbrev pub crlf : Str
crlf = b'\r' ∷ b'\n' ∷ []

abbrev pub header_end : Str
header_end = crlf ++ crlf

-- What the body of the loop does with a buffer, by whether it holds the end of the headers and by
-- whether it is over the limit.
abbrev pub judge :
    (Bytes → List Event → Io (Bytes × List Event))
    → Bytes
    → List Event
    → Bool
    → Bool
    → Io (Bytes × List Event)
judge again next after true over = done (next, after)
judge again next after false true = fail too_large
judge again next after false false = again next after

abbrev pub collect :
    Memmem
    → (Bytes → List Event → Io (Bytes × List Event))
    → Bytes
    → Io (Bytes × List Event)
    → Io (Bytes × List Event)
collect mem again buf (done ([], after)) = fail closed_early
collect mem again buf (done (c ∷ s, after)) =
    let next = buf ++ (c ∷ s) in
    judge again next after (is_some (mem.find next header_end)) (ltb max_header_bytes (length next))
collect mem again buf (fail e) = fail e
collect mem again buf pending = pending
collect mem again buf panicked = panicked

-- The loop that reads chunks of up to 4096 bytes. Every round adds a byte at least, so fuel of one
-- round more than the largest buffer is enough.
pub read_loop : Memmem → ℕ → Bytes → List Event → Io (Bytes × List Event)
read_loop mem zero buf events = fail out_of_fuel
read_loop mem (suc f) buf events = collect mem (read_loop mem f) buf (read_events 4096 events)

abbrev pub header_fuel : ℕ
header_fuel = max_header_bytes + 2

pub read_http_headers : Memmem → List Event → Io (Str × List Event)
read_http_headers mem events = read_loop mem header_fuel [] events >>= λ (r : Bytes × List Event).
    done (from_utf8_lossy r.0, r.1)

-- One line. `trimmed[..20]` panics where byte 20 is inside a character.
unfoldable authenticate_in_line : Str → Outcome (Option Str)
unfolding trim str_len split_at eq_ignore_ascii_case strip_prefix
authenticate_in_line line =
    let trimmed = trim line in
    let without_space : Outcome (Option Str) =
      elim (strip_prefix trimmed (codes "Proxy-Authenticate:")) [
        | some rest ↦ returns (some (trim rest))
        | none ↦ elim (strip_prefix trimmed (codes "proxy-authenticate:")) [
          | some rest ↦ returns (some (trim rest))
          | none ↦ returns none
        ]
      ] in
    if ltb 20 (str_len trimmed)
    then elim (split_at trimmed 20) [
      | none ↦ panics
      | some (name, value) ↦
          if eq_ignore_ascii_case name (codes "Proxy-Authenticate: ")
          then returns (some (trim value))
          else without_space
    ]
    else without_space

unfoldable authenticate_in : List Str → Outcome (Option Str)
unfolding authenticate_in_line
authenticate_in [] = returns none
authenticate_in (line ∷ rest) =
    let later = authenticate_in rest in
    elim (authenticate_in_line line) [
      | panics ↦ panics
      | returns (some v) ↦ returns (some v)
      | returns none ↦ later
    ]

-- The status line is skipped.
unfoldable pub find_proxy_authenticate : Str → Outcome (Option Str)
unfolding authenticate_in lines
find_proxy_authenticate headers = authenticate_in (drop 1 (lines headers))

abbrev second_word : Option Str → Option Str
second_word none = none
second_word (some line) = get_elem? (split_whitespace line) 1

abbrev status_number : Option Str → Option ℕ
status_number none = none
status_number (some s) = parse_uint max_u16 s

unfoldable pub parse_status : Str → Option ℕ
unfolding lines split_whitespace parse_uint
parse_status raw = status_number (second_word (get_elem? (lines raw) 0))

-- The most bytes that a vector can hold, `isize::MAX`.
abbrev pub max_capacity : ℕ
max_capacity = 2 ^ 63 - 1

-- The bytes behind the headers that `Content-Length` announces are read into a new vector and dropped;
-- `vec![0u8; n]` panics where no vector can hold so many.
pub drain_body : ℕ → List Event → Io (List Event)
drain_body content_length events =
    if ltb 0 content_length
    then (if ltb max_capacity content_length
        then panicked
        else read_exact_events content_length events)
    else done events

-- What is made of the headers, and of the bytes behind them.
abbrev pub read_from_headers : Str → List Event → Io ((ℕ × Option Str) × List Event)
read_from_headers raw after = do
  status ← from_option no_status (parse_status raw)
  challenge ← from_outcome (find_proxy_authenticate raw)
  rest ← drain_body (parse_content_length raw) after
  done ((status, challenge), rest)

pub read_proxy_response : Memmem → List Event → Io ((ℕ × Option Str) × List Event)
read_proxy_response mem events =
    read_http_headers mem events >>= λ (r : Str × List Event). read_from_headers r.0 r.1

abbrev authorization_header : Option Str → Str
authorization_header none = []
authorization_header (some auth) = codes "Proxy-Authorization: " ++ (auth ++ crlf)

pub connect_request : Str → Option Str → Str
connect_request target auth =
    codes "CONNECT "
    ++ (target
        ++ (codes " HTTP/1.1"
            ++ (crlf
                ++ (codes "Host: " ++ (target ++ (crlf ++ (authorization_header auth ++ crlf)))))))

pub send_connect : Stream → Str → Option Str → Io Stream
unfolding connect_request as_bytes
send_connect stream target auth = write_all (as_bytes (connect_request target auth)) stream

-- Send, then read: the response and the stream after it.
pub exchange : Memmem → Str → Option Str → Stream → Io ((ℕ × Option Str) × Stream)
exchange mem target auth stream = do
  s1 ← send_connect stream target auth
  (response, rest) ← read_proxy_response mem s1.incoming
  done (response, record s1 { incoming = rest })

-- What `read_connect_response` keeps of a response.
unfoldable pub read_connect_response : Memmem → Stream → Io (ℕ × Stream)
read_connect_response mem stream = do
  (response, rest) ← read_proxy_response mem stream.incoming
  done (response.0, record stream { incoming = rest })

-- 200 opens the tunnel on the stream; any other status goes on.
abbrev pub after_response :
    (ℕ → Option Str → Stream → Io Stream) → Io ((ℕ × Option Str) × Stream) → Io Stream
after_response again (done ((status, challenge), s)) = elim (status == 200) [
  | true ↦ done s
  | false ↦ again status challenge s
]
after_response again (fail e) = fail e
after_response again pending = pending
after_response again panicked = panicked

module _ {S : Type 0} (mem : Memmem) (step : S → Option Str → Answer S) (target : Str) where
  -- The token of the session is sent; an answer without one ends the handshake.
  abbrev pub answered : (S → ℕ → Option Str → Stream → Io Stream) → Stream → Answer S → Io Stream
  answered again stream failed = fail session_error
  answered again stream (silent s) = fail no_token
  answered again stream (token header next) =
      after_response (again next) (exchange mem target (some header) stream)

  -- The rounds left, the last status and challenge, the session and the stream.
  pub auth_rounds : ℕ → S → ℕ → Option Str → Stream → Io Stream
  auth_rounds zero session status challenge stream = fail exhausted
  auth_rounds (suc n) session status challenge stream = elim (status == 407) [
    | false ↦ fail (refused status)
    | true ↦ answered (auth_rounds n) stream (step session challenge)
  ]

  -- After the connection is made. The stream is the open tunnel.
  pub perform_authenticated_connect : S → Stream → Io Stream
  unfolding auth_rounds
  perform_authenticated_connect session upstream =
      after_response (auth_rounds 4 session) (exchange mem target none upstream)
