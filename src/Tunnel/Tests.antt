-- ===== src/Tunnel/Tests.antt =====
-- A handshake with NTLM from its start to the open tunnel, and responses with and without a body.
use ferro_vela.Prelude.{refl, ◌≡◌, arith, ◌↔◌, drop, List, ◌++◌, none, [], some, ◌∷◌}
use ferro_vela.Socket.{segment, Event, closed, Stream}
use ferro_vela.Tunnel.{
  crlf, header_end, auth_rounds, header_fuel, read_loop, perform_authenticated_connect,
  read_proxy_response,
}
use ferro_vela.Tunnel.Drain.{Head, available, read_proxy_response-whole, read_proxy_response-framed}
use ferro_vela.Auth.{Session, create_session, step, ntlm}
use ferro_vela.Tunnel.Headers.{read_loop_bounded, IsCollected}
use ferro_vela.Tunnel.Ntlm.{ntlm-Handshake_bounded}
use ferro_vela.Effect.{done, pending}
use ferro_vela.Tunnel.Connect.{requests, Handshake, perform_authenticated_connect-Handshake}
use ferro_vela.Text.{Str, codes}
use ferro_vela.Auth.Tests.{test_services, ada}
use ferro_vela.Tunnel.Rounds.{auth_rounds_iff, Opens}
use ferro_vela.Http.Search.{first_memmem}

-- A text that comes in one piece.
abbrev piece : Str → Event
piece [] = closed
piece (c ∷ s) = segment c s

abbrev target : Str
target = codes "a:443"

abbrev head : Str → Str
head line =
    codes "HTTP/1.1 407 Auth" ++ (crlf ++ (codes "Proxy-Authenticate: " ++ (line ++ header_end)))

abbrev accept : Str
accept = codes "HTTP/1.1 200 OK" ++ header_end

abbrev upstream : Stream
upstream = record {
  incoming = piece (head (codes "NTLM")) ∷ piece (head (codes "NTLM type2")) ∷ piece accept ∷ [];
  accepts = [];
  sent = [];
}

abbrev tunnel : Stream
tunnel = record {
  incoming = [];
  accepts = [];
  sent = requests target (none ∷ some (codes "NTLM type1") ∷ some (codes "NTLM type3") ∷ []);
}

abbrev ntlm_session_of : Session test_services
ntlm_session_of = create_session test_services (ntlm ada)

tunnel_opens :
    perform_authenticated_connect first_memmem (step test_services) target ntlm_session_of upstream
    ≡ done tunnel
unfolding perform_authenticated_connect ferro_vela.Tunnel.exchange ferro_vela.Tunnel.send_connect
    read_proxy_response ferro_vela.Tunnel.read_http_headers read_loop ferro_vela.Http.Search.search
    ferro_vela.Text.Match.starts_with ferro_vela.Tunnel.parse_status
    ferro_vela.Text.Utf8.from_utf8_lossy ferro_vela.Tunnel.find_proxy_authenticate
    ferro_vela.Tunnel.drain_body ferro_vela.Http.parse_content_length step create_session
tunnel_opens = refl

perform_authenticated_connect-Handshake_example : Handshake target 4 upstream tunnel
perform_authenticated_connect-Handshake_example =
    perform_authenticated_connect-Handshake first_memmem (step test_services) target ntlm_session_of
      upstream tunnel tunnel_opens

ntlm-Handshake_bounded_example : Handshake target 2 upstream tunnel
ntlm-Handshake_bounded_example =
    ntlm-Handshake_bounded test_services first_memmem target ada upstream tunnel tunnel_opens

auth_rounds_iff_example :
    (auth_rounds first_memmem (step test_services) target 4 ntlm_session_of 407 none upstream
      ≡ done tunnel)
    ↔ Opens first_memmem (step test_services) target 4 ntlm_session_of 407 none upstream tunnel
auth_rounds_iff_example =
    auth_rounds_iff first_memmem (step test_services) target 4 ntlm_session_of 407 none upstream
      tunnel

read_loop_bounded_example :
    IsCollected first_memmem (read_loop first_memmem header_fuel [] (piece accept ∷ []))
read_loop_bounded_example = read_loop_bounded first_memmem (piece accept ∷ [])

abbrev first_line : Str
first_line = codes "TTP/1.1 407 A" ++ (crlf ++ (codes "Content-Length: 3" ++ header_end))

framed-Head : Head first_memmem b'H' first_line 407 none 3
unfolding ferro_vela.Http.Search.search ferro_vela.Text.Match.starts_with
    ferro_vela.Tunnel.parse_status ferro_vela.Text.Utf8.from_utf8_lossy
    ferro_vela.Tunnel.find_proxy_authenticate ferro_vela.Http.parse_content_length
framed-Head = record {
  fits = omega arith;
  found = refl;
  status_line = refl;
  authenticate = refl;
  announced = refl;
}

whole-Head : Head first_memmem b'H' (first_line ++ codes "no!") 407 none 3
unfolding ferro_vela.Http.Search.search ferro_vela.Text.Match.starts_with
    ferro_vela.Tunnel.parse_status ferro_vela.Text.Utf8.from_utf8_lossy
    ferro_vela.Tunnel.find_proxy_authenticate ferro_vela.Http.parse_content_length
whole-Head = record {
  fits = omega arith;
  found = refl;
  status_line = refl;
  authenticate = refl;
  announced = refl;
}

read_proxy_response-framed_example :
    (rest : List Event) × (read_proxy_response first_memmem
        (segment b'H' first_line ∷ piece (codes "no!") ∷ [])
      ≡ done ((407, none), rest))
    × (available rest ≡ drop 3 (available (piece (codes "no!") ∷ [])))
read_proxy_response-framed_example =
    read_proxy_response-framed first_memmem b'H' first_line 407 3 none (piece (codes "no!") ∷ [])
      framed-Head (omega arith) (omega arith)

read_proxy_response-whole_example :
    read_proxy_response first_memmem (segment b'H' (first_line ++ codes "no!") ∷ []) ≡ pending
read_proxy_response-whole_example =
    read_proxy_response-whole first_memmem b'H' (first_line ++ codes "no!") 407 3 none whole-Head
      (omega arith)
