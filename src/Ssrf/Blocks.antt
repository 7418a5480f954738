-- ===== src/Ssrf/Blocks.antt =====
-- Which addresses the guard blocks, by the address blocks of the RFCs.
use Prim.Native.Nat.{bit_and}
use ferro_vela.Prelude.{
  passes_below_at, passes_below, ℕ, ◌+◌, ◌*◌, ◌/◌, ◌<◌, ◌≡◌, refl, Bool, true, false, ◌||◌, List,
  [], ◌∷◌, arith, ◌==◌, any, ◌&&◌, if◌then◌else◌, ◌^◌,
}
use ferro_vela.Text.{between}
use ferro_vela.Net.{v4, v6, to_u32}
use ferro_vela.Ssrf.{
  is_private_ip, unspecified_v6, loopback_v6, segment_0, str_eq, is_private_v4, is_private_v6,
}

-- A block of addresses: a power of two of them, from a multiple of it.
pub record Block : Type 0 where
  pub base : ℕ
  pub size : ℕ

abbrev pub in_block : ℕ → Block → Bool
in_block n k = n / k.size == k.base / k.size

-- 127.0.0.0/8, 10.0.0.0/8, 172.16.0.0/12, 192.168.0.0/16, 169.254.0.0/16, and two single addresses.
abbrev pub private_blocks : List Block
private_blocks =
    record { base = to_u32 127 0 0 0; size = 2 ^ 24 }
    ∷ record { base = to_u32 10 0 0 0; size = 2 ^ 24 }
    ∷ record { base = to_u32 172 16 0 0; size = 2 ^ 20 }
    ∷ record { base = to_u32 192 168 0 0; size = 2 ^ 16 }
    ∷ record { base = to_u32 169 254 0 0; size = 2 ^ 16 }
    ∷ record { base = to_u32 255 255 255 255; size = 1 }
    ∷ record { base = to_u32 0 0 0 0; size = 1 }
    ∷ []

regroup :
    (x p q r s t u : Bool)
    → (x || (p || q || r) || s || t || u) ≡ (x || (p || (q || (r || (s || (t || (u || false)))))))
regroup true p q r s t u = refl
regroup false true q r s t u = refl
regroup false false true r s t u = refl
regroup false false false true s t u = refl
regroup false false false false true t u = refl
regroup false false false false false true u = refl
regroup false false false false false false true = refl
regroup false false false false false false false = refl

module _ (a b c d : ℕ) (fa : a < 256) (fb : b < 256) (fc : c < 256) (fd : d < 256) where
  slash_8 : to_u32 a b c d / 2 ^ 24 ≡ a
  slash_8 = omega arith

  slash_12 : to_u32 a b c d / 2 ^ 20 ≡ a * 16 + b / 16
  slash_12 = omega arith

  slash_16 : to_u32 a b c d / 2 ^ 16 ≡ a * 256 + b
  slash_16 = omega arith

  slash_32 : to_u32 a b c d / 1 ≡ to_u32 a b c d
  slash_32 = omega arith

  in_172 : (a * 16 + b / 16 == 2753) ≡ (a == 172 && between 16 31 b)
  in_172 = ground arith

  in_192 : (a * 256 + b == 49320) ≡ (a == 192 && b == 168)
  in_192 = ground arith

  in_169 : (a * 256 + b == 43518) ≡ (a == 169 && b == 254)
  in_169 = ground arith

  is_broadcast : (to_u32 a b c d == 4294967295) ≡ (a == 255 && b == 255 && c == 255 && d == 255)
  is_broadcast = ground arith

  is_unspecified : (to_u32 a b c d == 0) ≡ (a == 0 && b == 0 && c == 0 && d == 0)
  is_unspecified = ground arith

  -- For octets the guard's tests hold of exactly the addresses in the blocks.
  pub is_private_v4-private_blocks :
      is_private_v4 a b c d ≡ any (in_block (to_u32 a b c d)) private_blocks
  unfolding is_private_v4
  is_private_v4-private_blocks =
      rw (slash_8, slash_12, slash_16, slash_32)
        (rw (in_172, in_192, in_169, is_broadcast, is_unspecified)
          (regroup (a == 127) (a == 10) (a == 172 && between 16 31 b) (a == 192 && b == 168) _ _ _))

-- An IPv4 address as an IPv6 one, `::ffff:a.b.c.d`.
abbrev pub mapped : ℕ → ℕ → ℕ → ℕ → List ℕ
mapped a b c d = 0 ∷ 0 ∷ 0 ∷ 0 ∷ 0 ∷ 0xffff ∷ (a * 256 + b) ∷ (c * 256 + d) ∷ []

-- Every loopback address of IPv4 is blocked, and none of them is in its IPv4-mapped form.
pub is_private_ip-mapped :
    (b c d : ℕ)
    → (is_private_ip (v4 127 b c d) ≡ true) × (is_private_ip (v6 (mapped 127 b c d)) ≡ false)
unfolding is_private_ip is_private_v4 is_private_v6
is_private_ip-mapped b c d = (refl, refl)

abbrev bool_eq : Bool → Bool → Bool
bool_eq true b = b
bool_eq false b = if b then false else true

bool_eq_sound : (x y : Bool) → bool_eq x y ≡ true → x ≡ y
bool_eq_sound x y h = ground arith

unique_local_table :
    passes_below (λ s. bool_eq (bit_and s 0xfe00 == 0xfc00) (between 0xfc00 0xfdff s)) 65536 ≡ true
unfolding passes_below
unique_local_table = refl

link_local_table :
    passes_below (λ s. bool_eq (bit_and s 0xffc0 == 0xfe80) (between 0xfe80 0xfebf s)) 65536 ≡ true
unfolding passes_below
link_local_table = refl

-- For a segment of 16 bits the two masks hold of exactly fc00::/7 and fe80::/10.
unique_local_segment : (s : ℕ) → s < 65536 → (bit_and s 0xfe00 == 0xfc00) ≡ between 0xfc00 0xfdff s
unique_local_segment s h = bool_eq_sound _ _ (passes_below_at _ 65536 s h unique_local_table)

link_local_segment : (s : ℕ) → s < 65536 → (bit_and s 0xffc0 == 0xfe80) ≡ between 0xfe80 0xfebf s
link_local_segment s h = bool_eq_sound _ _ (passes_below_at _ 65536 s h link_local_table)

-- What the IPv6 guard is meant to hold of: ::1, ::, and a first segment in fc00-fdff or fe80-febf.
abbrev pub blocked_v6 : List ℕ → Bool
blocked_v6 ip =
    str_eq ip loopback_v6
    || str_eq ip unspecified_v6
    || between 0xfc00 0xfdff (segment_0 ip)
    || between 0xfe80 0xfebf (segment_0 ip)

-- A segment has 16 bits: the tests of the first segment by masks are the ranges fc00::/7 and
-- fe80::/10, and with them the guard blocks the loopback and the unspecified address and no other.
pub is_private_v6-blocked_v6 :
    (ip : List ℕ) → segment_0 ip < 65536 → is_private_v6 ip ≡ blocked_v6 ip
unfolding is_private_v6
is_private_v6-blocked_v6 ip h =
    rw (unique_local_segment (segment_0 ip) h, link_local_segment (segment_0 ip) h)
