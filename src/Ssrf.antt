-- ===== src/Ssrf.antt =====
-- The SSRF guard of crates/ferrovela-lib/src/proxy/ssrf.rs.
pub mod Blocks
pub mod Target
pub mod Tests
use Prim.Native.Nat.{bit_and}
use ferro_vela.Prelude.{
  ℕ, Bool, true, false, ◌&&◌, ◌||◌, List, [], ◌∷◌, Option, none, some, ltb, leb, ◌==◌,
  if◌then◌else◌,
}
use ferro_vela.Text.{Str, between, str_eq}
use ferro_vela.Text.Split.{rsplit_once, trim_start_matches, trim_end_matches}
use ferro_vela.Net.{IpAddr, v4, v6, parse_ip}

pub is_private_v4 : ℕ → ℕ → ℕ → ℕ → Bool
is_private_v4 a b c d =
    let is_loopback = a == 127 in
    let is_private = a == 10 || (a == 172 && between 16 31 b) || (a == 192 && b == 168) in
    let is_link_local = a == 169 && b == 254 in
    let is_broadcast = a == 255 && b == 255 && c == 255 && d == 255 in
    let is_unspecified = a == 0 && b == 0 && c == 0 && d == 0 in
    is_loopback || is_private || is_link_local || is_broadcast || is_unspecified

-- `segments()[0]`.
abbrev pub segment_0 : List ℕ → ℕ
segment_0 [] = 0
segment_0 (s ∷ l) = s

unfoldable is_ipv6_unique_local : List ℕ → Bool
is_ipv6_unique_local ip = bit_and (segment_0 ip) 0xfe00 == 0xfc00

unfoldable is_ipv6_link_local : List ℕ → Bool
is_ipv6_link_local ip = bit_and (segment_0 ip) 0xffc0 == 0xfe80

abbrev pub loopback_v6 : List ℕ
loopback_v6 = 0 ∷ 0 ∷ 0 ∷ 0 ∷ 0 ∷ 0 ∷ 0 ∷ 1 ∷ []

abbrev pub unspecified_v6 : List ℕ
unspecified_v6 = 0 ∷ 0 ∷ 0 ∷ 0 ∷ 0 ∷ 0 ∷ 0 ∷ 0 ∷ []

-- `==` of the segments is `==` of lists of numbers.
pub is_private_v6 : List ℕ → Bool
unfolding str_eq is_ipv6_unique_local is_ipv6_link_local
is_private_v6 ip =
    str_eq ip loopback_v6
    || str_eq ip unspecified_v6
    || is_ipv6_unique_local ip
    || is_ipv6_link_local ip

pub is_private_ip : IpAddr → Bool
unfolding is_private_v4 is_private_v6
is_private_ip (v4 a b c d) = is_private_v4 a b c d
is_private_ip (v6 l) = is_private_v6 l

-- The text before the last colon, or all of it.
pub host_of_target : Str → Str
unfolding rsplit_once
host_of_target target = elim (rsplit_once b':' target) [ some (h, p) ↦ h | none ↦ target ]

pub strip_brackets : Str → Str
unfolding trim_start_matches trim_end_matches
strip_brackets host = trim_end_matches b']' (trim_start_matches b'[' host)

abbrev pub is_private_parsed : Option IpAddr → Bool
is_private_parsed none = false
is_private_parsed (some ip) = is_private_ip ip

unfoldable pub is_private_target : Str → Bool
unfolding host_of_target strip_brackets parse_ip is_private_ip
is_private_target target = is_private_parsed (parse_ip (strip_brackets (host_of_target target)))
