-- ===== src/Ssrf/Tests.antt =====
-- The unit tests of ssrf.rs.
use ferro_vela.Prelude.{arith, any, ℕ, List, ◌++◌, ◌∷◌, [], ◌≡◌, refl, true, false}
use ferro_vela.Text.{codes}
use ferro_vela.Ssrf.{is_private_v4, is_private_v6, is_private_target}
use ferro_vela.Ssrf.Target.{is_private_target-dotted, is_private_target-bracketed}
use ferro_vela.Ssrf.Blocks.{
  in_block, blocked_v6, is_private_v6-blocked_v6, private_blocks, is_private_v4-private_blocks,
}
use ferro_vela.Net.{v4, v6, to_u32}
use ferro_vela.Net.Dotted.{dotted}

loopback_is_blocked :
    (is_private_target (codes "127.1.2.3:8080") ≡ true)
    × (is_private_target (codes "[::1]:443") ≡ true)
    × (is_private_target (codes "[fd00::1]:443") ≡ true)
    × (is_private_target (codes "[fe80::1]:80") ≡ true)
    × (is_private_target (codes "[::]:80") ≡ true)
    × (is_private_target (codes "169.254.169.254:80") ≡ true)
    × (is_private_target (codes "127.0.0.1") ≡ true)
unfolding is_private_target
loopback_is_blocked = (refl, refl, refl, refl, refl, refl, refl)

public_is_allowed :
    (is_private_target (codes "203.0.113.5:80") ≡ false)
    × (is_private_target (codes "1.1.1.1") ≡ false)
    × (is_private_target (codes "localhost:80") ≡ false)
    × (is_private_target (codes "[2001:db8::1]:80") ≡ false)
    × (is_private_target (codes "[::ffff:127.0.0.1]:80") ≡ false)
    × (is_private_target (codes "127.0.0.01:80") ≡ false)
unfolding is_private_target
public_is_allowed = (refl, refl, refl, refl, refl, refl)

is_private_v4-private_blocks_example :
    is_private_v4 172 31 0 1 ≡ any (in_block (to_u32 172 31 0 1)) private_blocks
is_private_v4-private_blocks_example =
    is_private_v4-private_blocks 172 31 0 1 (omega arith) (omega arith) (omega arith) (omega arith)

abbrev unique_local : List ℕ
unique_local = 0xfd00 ∷ 0 ∷ 0 ∷ 0 ∷ 0 ∷ 0 ∷ 0 ∷ 1 ∷ []

is_private_v6-blocked_v6_example : is_private_v6 unique_local ≡ blocked_v6 unique_local
is_private_v6-blocked_v6_example = is_private_v6-blocked_v6 unique_local (omega arith)

is_private_target-dotted_example :
    is_private_target (dotted 10 0 0 1 (b':' ∷ codes "80")) ≡ is_private_v4 10 0 0 1
unfolding ferro_vela.Text.Match.contains_char
is_private_target-dotted_example =
    is_private_target-dotted 10 0 0 1 (codes "80") (omega arith) (omega arith) (omega arith)
      (omega arith) refl

is_private_target-bracketed_example :
    is_private_target (b'[' ∷ (codes "fd00::1" ++ (b']' ∷ (b':' ∷ codes "443"))))
    ≡ is_private_v6 unique_local
unfolding ferro_vela.Text.Match.contains_char ferro_vela.Net.parse_ip
is_private_target-bracketed_example =
    is_private_target-bracketed (codes "fd00::1") (codes "443") unique_local refl refl refl refl
