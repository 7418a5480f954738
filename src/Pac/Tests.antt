-- ===== src/Pac/Tests.antt =====
-- The unit tests of the helper functions of pac.rs, and the theorems on them at concrete inputs.
use ferro_vela.Prelude.{
  ◌/◌, ◌^◌, ◌≡◌, refl, ◌≢◌, ◌↔◌, ◌⊎◌, true, false, none, some, [], ◌∷◌, ◌++◌, arith, ◌==◌,
  if◌then◌else◌,
}
use ferro_vela.Text.{Str, codes, str_eq, str_eq_iff, is_empty, str_len}
use ferro_vela.Pac.{
  sh_exp_match, is_plain_host_name, dns_domain_is, local_host_or_domain_is, Resolver, is_in_net,
  is_resolvable, dns_domain_levels, convert_addr, dns_resolve, my_ip_address, weekday_range,
  date_range, time_range, resolve_ip,
}
use ferro_vela.Pac.PlainGlob.{plain_glob}
use ferro_vela.Pac.Pattern.{Matches}
use ferro_vela.Pac.Glob.{sh_exp_match_iff}
use ferro_vela.Pac.Subnet.{is_in_net_prefix}
use ferro_vela.Net.{v4, to_u32}
use ferro_vela.Net.Dotted.{dotted}
use ferro_vela.Pac.Names.{host_name_tests}
use ferro_vela.Pac.Queue.{asked}

glob_cases :
    (sh_exp_match plain_glob (codes "abcdef") (codes "ab*ef") ≡ true)
    × (sh_exp_match plain_glob (codes "abbc") (codes "a?c") ≡ false)
    × (sh_exp_match plain_glob [] (codes "?") ≡ false)
    × (sh_exp_match plain_glob (codes "a") (codes "*******") ≡ true)
    × (sh_exp_match plain_glob (codes "a") [] ≡ false)
unfolding sh_exp_match ferro_vela.Pac.PlainGlob.plain_matches
glob_cases = (refl, refl, refl, refl, refl)

sh_exp_match_iff_example :
    (sh_exp_match plain_glob (codes "www.corp") (codes "***.corp") ≡ true)
    ↔ Matches (codes "***.corp") (codes "www.corp")
unfolding ferro_vela.Text.Match.contains_char
sh_exp_match_iff_example = sh_exp_match_iff plain_glob (codes "***.corp") (codes "www.corp") refl

host_name_cases :
    (is_plain_host_name (codes "example.com") ≡ false)
    × (is_plain_host_name (codes "localhost") ≡ true)
    × (dns_domain_is (codes "www.netscape.com") (codes ".netscape.com") ≡ true)
    × (dns_domain_is (codes "www.netscape.com") (codes ".mcom.com") ≡ false)
    × (local_host_or_domain_is (codes "www") (codes "www.netscape.com") ≡ true)
    × (local_host_or_domain_is (codes "www.netscape") (codes "www.netscape.com") ≡ true)
    × (local_host_or_domain_is (codes "home.netscape.com") (codes "www.netscape.com") ≡ false)
unfolding is_plain_host_name dns_domain_is local_host_or_domain_is
host_name_cases = (refl, refl, refl, refl, refl, refl, refl)

-- A resolver that knows one name.
abbrev one_name : Resolver
one_name asked = if str_eq asked (codes "printer.corp:0") then some (v4 10 1 2 3 ∷ []) else none

net_cases :
    (is_in_net one_name (codes "198.95.249.79") (codes "198.95.249.79") (codes "255.255.255.255")
      ≡ true)
    × (is_in_net one_name (codes "printer.corp") (codes "10.1.0.0") (codes "255.255.0.0") ≡ true)
    × (is_in_net one_name (codes "unknown.corp") (codes "10.1.0.0") (codes "255.255.0.0") ≡ false)
    × (is_in_net one_name (codes "10.1.2.3") (codes "10.1.0.0") (codes "255.255") ≡ false)
    × (is_resolvable one_name (codes "printer.corp") ≡ true)
    × (is_resolvable one_name (codes "unknown.corp") ≡ false)
unfolding is_in_net resolve_ip str_eq is_resolvable
net_cases = (refl, refl, refl, refl, refl, refl)

other_functions :
    (dns_domain_levels (codes "www.netscape.com") ≡ 2)
    × (convert_addr (codes "104.16.41.2") ≡ 1745889538)
    × (convert_addr (codes "nowhere") ≡ 0)
    × (dns_resolve (codes "www.corp") ≡ codes "www.corp")
    × (my_ip_address ≡ codes "127.0.0.1")
    × (weekday_range (codes "MON" ∷ []) ≡ true)
    × (date_range [] ≡ true)
    × (time_range [] ≡ true)
unfolding dns_domain_levels convert_addr dns_resolve my_ip_address weekday_range date_range
    time_range
other_functions = (refl, refl, refl, refl, refl, refl, refl, refl)

printer_resolves : resolve_ip one_name (codes "printer.corp") ≡ some 167838211
unfolding resolve_ip str_eq
printer_resolves = refl

is_in_net_prefix_example :
    is_in_net one_name (codes "printer.corp") (dotted 10 1 0 0 []) (dotted 255 255 0 0 [])
    ≡ (167838211 / 2 ^ 16 == to_u32 10 1 0 0 / 2 ^ 16)
is_in_net_prefix_example =
    is_in_net_prefix one_name (codes "printer.corp") 167838211 10 1 0 0 255 255 0 0 16 16
      printer_resolves (omega arith) (omega arith, omega arith, omega arith, omega arith)
      (omega arith, omega arith, omega arith, omega arith) refl refl

www_tests :
    ((is_plain_host_name (codes "www") ≡ true)
      ↔ ((front back : Str) → codes "www" ≢ front ++ (b'.' ∷ back)))
    × ((dns_domain_is (codes "www") (codes "www.corp") ≡ true)
        ↔ ((front : Str) × (codes "www" ≡ front ++ codes "www.corp")))
    × ((local_host_or_domain_is (codes "www") (codes "www.corp") ≡ true) ↔ (
        (codes "www" ≡ codes "www.corp")
        ⊎ ((back : Str) × (codes "www.corp" ≡ codes "www" ++ (b'.' ∷ back)))))
www_tests = host_name_tests (codes "www") (codes "www.corp")
