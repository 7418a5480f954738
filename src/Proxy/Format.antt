-- ===== src/Proxy/Format.antt =====
-- The wire format of a plain request and of its response: `write_http_request` and
-- `parse_raw_response`.
use ferro_vela.Prelude.{
  ℕ, ◌+◌, Bool, ◌&&◌, List, [], ◌∷◌, ◌++◌, Option, none, some, leb, if◌then◌else◌, unwrap_or, drop,
  length,
}
use ferro_vela.Text.{Str, codes}
use ferro_vela.Text.Utf8.{Bytes, from_utf8_lossy}
use ferro_vela.Http.{Memmem}
use ferro_vela.Tunnel.{header_end, crlf, parse_status}
use ferro_vela.Proxy.{Request, Response}

unfoldable header_line : Str × Option Str → Str
header_line (name, none) = []
header_line (name, some v) = name ++ (codes ": " ++ (v ++ crlf))

unfoldable header_lines : List (Str × Option Str) → Str
unfolding header_line
header_lines [] = []
header_lines (h ∷ hs) = header_line h ++ header_lines hs

abbrev basic_header : Option Str → Str
basic_header none = []
basic_header (some b64) = codes "Proxy-Authorization: Basic " ++ (b64 ++ crlf)

unfoldable pub write_http_request : Request → Bool → Option Str → Str
unfolding header_lines
write_http_request req absolute_form b64 =
    req.method
    ++ (b' '
        ∷ ((if absolute_form then req.uri.text else req.uri.request_target)
            ++ (codes " HTTP/1.1"
                ++ (crlf ++ (header_lines req.headers ++ (basic_header b64 ++ crlf))))))

-- `StatusCode::from_u16` takes 100 to 999.
abbrev pub status_code : ℕ → ℕ
status_code n = if leb 100 n && leb n 999 then n else 502

abbrev pub body_start : Option ℕ → ℕ → ℕ
body_start none size = size
body_start (some p) size = p + 4

unfoldable pub parse_raw_response : Memmem → Bytes → Response
unfolding parse_status from_utf8_lossy
parse_raw_response mem buf = record {
  status = status_code (unwrap_or (parse_status (from_utf8_lossy buf)) 502);
  headers = [];
  body = drop (body_start (mem.find buf header_end) (length buf)) buf;
}
