-- ===== src/Route.antt =====
-- Which proxy a target goes through: `resolve_proxy` and `proxy_addr_from_url` of
-- crates/ferrovela-lib/src/proxy/mod.rs, `normalize_proxy_addr` of proxy/auth_tunnel.rs.
pub mod Resolve
pub mod Tests
use ferro_vela.Prelude.{
  ℕ, Bool, true, false, List, [], ◌∷◌, ◌++◌, Option, none, some, ◌==◌, if◌then◌else◌, unwrap_or,
  get_elem?, ◌>>=◌,
}
use ferro_vela.Text.{Str, codes}
use ferro_vela.Text.Match.{starts_with, contains, split_at}
use ferro_vela.Text.Split.{split_char, trim}
use ferro_vela.Text.Number.{to_string}
use ferro_vela.Config.{Config, UpstreamConfig, ExceptionsConfig}
use ferro_vela.Config.Exceptions.{matches}
use ferro_vela.Effect.{Outcome, returns, panics}
use ferro_vela.Auth.{Host, domain, ipv4, ipv6, Url, Services}

-- `PacEngine::find_proxy` on a URL and a host: the text that the script returns, none for an error.
abbrev pub Pac : Type 0
Pac = Str → Str → Option Str

-- `target.split(':').next()`.
unfoldable pub first_piece : ℕ → Str → Str
unfolding split_char
first_piece sep s = unwrap_or (get_elem? (split_char sep s) 0) s

abbrev pub configured_url : Config → Option Str
configured_url config = elim config.upstream [ none ↦ none | some u ↦ u.proxy_url ]

-- What a PAC answer says: its first entry, if that begins with `PROXY`. `first[6..]` panics where the
-- text has no sixth byte boundary.
abbrev pac_address : Option (Str × Str) → Outcome (Option Str)
pac_address none = panics
pac_address (some (directive, address)) = returns (some (trim address))

pub pac_directive : Str → Outcome (Option Str)
pac_directive first =
    if starts_with first (codes "PROXY") then pac_address (split_at first 6) else returns none

pub pac_answer : Str → Outcome (Option Str)
pac_answer proxy_str = pac_directive (trim (first_piece b';' proxy_str))

abbrev pub is_exception : Option ExceptionsConfig → Str → Bool
is_exception none host = false
is_exception (some e) host = matches e host

abbrev pub pac_url : Str → Str
pac_url target = codes "https://" ++ (target ++ codes "/")

-- With a script, its answer, or the configured proxy if it fails; without one, the configured proxy.
abbrev pub pac_outcome : Config → Option Str → Outcome (Option Str)
pac_outcome config (some proxy_str) = pac_answer proxy_str
pac_outcome config none = returns (configured_url config)

abbrev pub pac_routing : Str → Str → Config → Option Pac → Outcome (Option Str)
pac_routing target host config none = returns (configured_url config)
pac_routing target host config (some find_proxy) =
    pac_outcome config (find_proxy (pac_url target) host)

unfoldable pub resolve_proxy : Str → Config → Option Pac → Outcome (Option Str)
resolve_proxy target config pac =
    let host = first_piece b':' target in
    if is_exception config.exceptions host then returns none else pac_routing target host config pac

abbrev address_text : Host → ℕ → Str
address_text (ipv6 s) port = b'[' ∷ (s ++ (b']' ∷ (b':' ∷ to_string port)))
address_text (domain s) port = s ++ (b':' ∷ to_string port)
address_text (ipv4 s) port = s ++ (b':' ∷ to_string port)

module _ (sv : Services) where
  unfoldable proxy_addr_from_url : Str → Option Str
  proxy_addr_from_url proxy_url = do
    u ← sv.parse_url proxy_url
    port ← u.port
    host ← u.host
    some (address_text host port)

  unfoldable pub normalize_proxy_addr : Str → Str
  unfolding contains proxy_addr_from_url
  normalize_proxy_addr proxy =
      if contains proxy (codes "://") then unwrap_or (proxy_addr_from_url proxy) proxy else proxy
