-- ===== src/Pac.antt =====
-- crates/ferrovela-lib/src/pac.rs: the wildcard match and the helper functions that a script can call.
pub mod Pattern
pub mod Glob
pub mod Subnet
pub mod Names
pub mod Loading
pub mod Loads
pub mod Worker
pub mod Deadline
pub mod Queue
pub mod Answers
pub mod Turns
pub mod Progress
pub mod Pool
pub mod Routing
pub mod PlainGlob
pub mod EngineTests
pub mod Tests
use Prim.Native.Nat.{bit_and}
use ferro_vela.Prelude.{
  ◌&&◌, ℕ, suc, ◌-◌, ◌%◌, ◌^◌, ◌≡◌, ◌↔◌, Bool, true, false, not, ◌||◌, List, [], ◌∷◌, ◌++◌, Option,
  none, some, ◌==◌, if◌then◌else◌, ◌>>=◌, unwrap_or,
}
use ferro_vela.Text.{Str, codes, str_eq}
use ferro_vela.Text.Match.{contains_char, ends_with, starts_with}
use ferro_vela.Net.{IpAddr, v4, v6, parse_ipv4, to_u32}
use ferro_vela.Pac.Pattern.{Matches, has_double_star}

-- The crate glob, which is not part of the repository: `Pattern::new` and `Pattern::matches`. A `*`
-- stands for any characters, a `?` for one, and the other characters of a pattern without brackets for
-- themselves. Two `*` side by side have another meaning, or are refused.
pub record GlobCrate : Type 1 where
  pub Pattern : Type 0
  pub new : Str → Option Pattern
  pub accepts : Pattern → Str → Bool
  pub accepts_plain :
      (p : Str)
      → contains_char p b'[' ≡ false
      → has_double_star p ≡ false
      → (x : Pattern) × (new p ≡ some x) × ((t : Str) → (accepts x t ≡ true) ↔ Matches p t)

-- The loop of `glob_match`, with its variable `last_was_star`.
pub collapse : Bool → Str → Str
collapse last_was_star [] = []
collapse last_was_star (c ∷ s) =
    let rest = collapse (c == b'*') s in if c == b'*' && last_was_star then rest else c ∷ rest

module _ (g : GlobCrate) where
  open g use {new, accepts}

  unfoldable pub glob_match : Str → Str → Bool
  unfolding collapse
  glob_match pattern text = elim (new (collapse false pattern)) [
    | none ↦ false
    | some p ↦ accepts p text
  ]

  unfoldable pub sh_exp_match : Str → Str → Bool
  unfolding glob_match
  sh_exp_match str_val pattern = glob_match pattern str_val

-- `to_socket_addrs` on `host:port`: the addresses that the resolver of the system gives, none where
-- it fails.
abbrev pub Resolver : Type 0
Resolver = Str → Option (List IpAddr)

unfoldable dns_resolve : Str → Str
dns_resolve host = host

unfoldable my_ip_address : Str
my_ip_address = codes "127.0.0.1"

unfoldable pub is_plain_host_name : Str → Bool
unfolding contains_char
is_plain_host_name host = not (contains_char host b'.')

unfoldable pub dns_domain_is : Str → Str → Bool
unfolding ends_with
dns_domain_is host domain = ends_with host domain

unfoldable pub local_host_or_domain_is : Str → Str → Bool
unfolding str_eq starts_with
local_host_or_domain_is host hostdom =
    str_eq host hostdom || starts_with hostdom (host ++ (b'.' ∷ []))

abbrev port_zero : Str → Str
port_zero host = host ++ codes ":0"

unfoldable is_resolvable : Resolver → Str → Bool
is_resolvable resolve host = elim (resolve (port_zero host)) [
  | none ↦ false
  | some [] ↦ false
  | some (a ∷ addrs) ↦ true
]

-- `u32::from` of the octets.
abbrev pub as_u32 : ℕ × ℕ × ℕ × ℕ → ℕ
as_u32 (a, b, c, d) = to_u32 a b c d

-- The first IPv4 address of a list.
abbrev first_v4 : List IpAddr → Option ℕ
first_v4 [] = none
first_v4 (v4 a b c d ∷ addrs) = some (to_u32 a b c d)
first_v4 (v6 segments ∷ addrs) = first_v4 addrs

abbrev resolved_ip : Option (ℕ × ℕ × ℕ × ℕ) → Option (List IpAddr) → Option ℕ
resolved_ip (some octets) addrs = some (as_u32 octets)
resolved_ip none none = none
resolved_ip none (some addrs) = first_v4 addrs

pub resolve_ip : Resolver → Str → Option ℕ
unfolding parse_ipv4
resolve_ip resolve h = resolved_ip (parse_ipv4 h) (resolve (port_zero h))

-- The closure inside `isInNet`, which ends with none at the first `?` that fails.
abbrev pub same_net : ℕ → ℕ → ℕ → Bool
same_net host_ip pattern_int mask_int = bit_and host_ip mask_int == bit_and pattern_int mask_int

unfoldable pub is_in_net : Resolver → Str → Str → Str → Bool
is_in_net resolve host pattern mask =
    unwrap_or
      (do
        host_ip ← resolve_ip resolve host
        pattern_ip ← parse_ipv4 pattern
        mask_ip ← parse_ipv4 mask
        some (same_net host_ip (as_u32 pattern_ip) (as_u32 mask_ip)))
      false

unfoldable count_dots : Str → ℕ
count_dots [] = 0
count_dots (c ∷ s) = if c == b'.' then suc (count_dots s) else count_dots s

-- The bits of the `i32`.
unfoldable dns_domain_levels : Str → ℕ
unfolding count_dots
dns_domain_levels host = count_dots host % 2 ^ 32

-- A `u32` is exact as an `f64`.
unfoldable convert_addr : Str → ℕ
unfolding parse_ipv4
convert_addr addr = elim (parse_ipv4 addr) [ none ↦ 0 | some octets ↦ as_u32 octets ]

unfoldable weekday_range : List Str → Bool
weekday_range args = true

unfoldable date_range : List Str → Bool
date_range args = true

unfoldable time_range : List Str → Bool
time_range args = true
