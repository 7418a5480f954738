-- ===== src/Pac/Subnet.antt =====
-- `isInNet` with the mask of a prefix compares the upper bits of two addresses.
use ferro_vela.Prelude.{
  ℕ, zero, suc, ◌+◌, ◌*◌, ◌/◌, ◌%◌, ◌^◌, ◌≤◌, ◌<◌, ◌≡◌, refl, sym, ap, ◌∙◌, some, [], arith, ◌==◌,
  min,
}
use ferro_vela.Text.{Str}
use ferro_vela.Pac.{same_net, Resolver, resolve_ip, is_in_net}
use ferro_vela.Net.{to_u32}
use ferro_vela.Net.Dotted.{dotted, parse_ipv4-dotted}
use native.Mathlib.Nat.{div-div-eq-div-mul, two-pow-succ, pow-succ'}
use Prim.Native.Nat.{bit_and, bit_and-bitwise, digits}

-- The value of `bit_and` does not depend on how many digits are asked for, past the last one.
digits_enough :
    (k j x m : ℕ)
    → x ≤ k
    → x ≤ j
    → digits (λ rest. zero) min k x m ≡ digits (λ rest. zero) min j x m
digits_enough zero zero x m h l = refl
digits_enough zero (suc j) zero m h l = refl
digits_enough (suc k) zero zero m h l = refl
digits_enough (suc k) (suc j) zero m h l = refl
digits_enough zero j (suc x) m h l = absurd (omega arith)
digits_enough (suc k) zero (suc x) m h l = absurd (omega arith)
digits_enough (suc k) (suc j) (suc x) m h l =
    ap (λ (n : ℕ). n * 2 + min (suc x % 2) (m % 2))
      (digits_enough k j (suc x / 2) (m / 2) (omega arith) (omega arith))

-- Its lowest digit stands apart.
bit_and_halves : (x m : ℕ) → bit_and x m ≡ bit_and (x / 2) (m / 2) * 2 + min (x % 2) (m % 2)
bit_and_halves zero m = omega (arith, bit_and-bitwise 0 m, bit_and-bitwise (0 / 2) (m / 2))
bit_and_halves (suc x) m = omega (
  arith,
  bit_and-bitwise (suc x) m,
  bit_and-bitwise (suc x / 2) (m / 2),
  digits_enough x (suc x / 2) (suc x / 2) (m / 2) (omega arith) (omega arith),
)

bit_and_odd : (x m : ℕ) → bit_and x (m * 2 + 1) ≡ bit_and (x / 2) m * 2 + x % 2
bit_and_odd x m =
    bit_and_halves x (m * 2 + 1)
    ∙ (ap (λ (h : ℕ). bit_and (x / 2) h * 2 + min (x % 2) ((m * 2 + 1) % 2)) {y = m} (omega arith)
        ∙ omega arith)

bit_and_even : (x m : ℕ) → bit_and x (m * 2) ≡ bit_and (x / 2) m * 2
bit_and_even x m =
    bit_and_halves x (m * 2)
    ∙ (ap (λ (h : ℕ). bit_and (x / 2) h * 2 + min (x % 2) (m * 2 % 2)) {y = m} (omega arith)
        ∙ omega arith)

-- A mask of `k` ones with `j` zeros behind them.
abbrev pub ones : ℕ → ℕ
ones zero = 0
ones (suc k) = ones k * 2 + 1

abbrev pub shifted : ℕ → ℕ → ℕ
shifted zero m = m
shifted (suc j) m = shifted j m * 2

abbrev pub upper : ℕ → ℕ → ℕ
upper zero x = x
upper (suc j) x = upper j (x / 2)

bit_and-ones : (k x : ℕ) → x ≤ ones k → bit_and x (ones k) ≡ x
bit_and-ones zero zero h = refl
bit_and-ones zero (suc x) h = absurd (omega arith)
bit_and-ones (suc k) x h =
    omega (arith, bit_and_odd x (ones k), bit_and-ones k (x / 2) (omega arith))

bit_and-shifted :
    (j k x : ℕ) → bit_and x (shifted j (ones k)) ≡ shifted j (bit_and (upper j x) (ones k))
bit_and-shifted zero k x = refl
bit_and-shifted (suc j) k x =
    omega (arith, bit_and_even x (shifted j (ones k)), bit_and-shifted j k (x / 2))

upper-le-ones : (j k x : ℕ) → x ≤ shifted j (ones k) + ones j → upper j x ≤ ones k
upper-le-ones zero k x h = omega arith
upper-le-ones (suc j) k x h = upper-le-ones j k (x / 2) (omega arith)

shifted_cancel : (j x y : ℕ) → shifted j x ≡ shifted j y → x ≡ y
shifted_cancel zero x y h = h
shifted_cancel (suc j) x y h = shifted_cancel j x y (omega arith)

eq_of_iff : (a b c d : ℕ) → (a ≡ b → c ≡ d) → (c ≡ d → a ≡ b) → (a == b) ≡ (c == d)
eq_of_iff a b c d f g = ground (arith, f, g)

-- Under the mask two addresses are the same exactly where their upper bits are.
same_net-upper :
    (j k x y : ℕ)
    → x ≤ shifted j (ones k) + ones j
    → y ≤ shifted j (ones k) + ones j
    → same_net x y (shifted j (ones k)) ≡ (upper j x == upper j y)
same_net-upper j k x y hx hy =
    rw
      (
        bit_and-shifted j k x,
        bit_and-shifted j k y,
        bit_and-ones k _ (upper-le-ones j k x hx),
        bit_and-ones k _ (upper-le-ones j k y hy),
      )
      (eq_of_iff _ _ _ _ (shifted_cancel j _ _) (λ e. ap (shifted j) e))

upper-div : (j x : ℕ) → upper j x ≡ x / 2 ^ j
upper-div zero x = omega arith
upper-div (suc j) x =
    upper-div j (x / 2)
    ∙ (div-div-eq-div-mul x 2 (2 ^ j) ∙ ap (λ (n : ℕ). x / n) (sym (pow-succ' 2 j)))

ones_power : (k : ℕ) → ones k + 1 ≡ 2 ^ k
ones_power zero = refl
ones_power (suc k) = omega (arith, ones_power k, two-pow-succ k)

mask_power : (j k : ℕ) → shifted j (ones k) + 2 ^ j ≡ 2 ^ (k + j)
mask_power zero k =
    omega (arith, ones_power k, ap (λ (n : ℕ). 2 ^ n) {x = k + 0} {y = k} (omega arith))
mask_power (suc j) k = omega (
  arith,
  mask_power j k,
  two-pow-succ j,
  two-pow-succ (k + j),
  ap (λ (n : ℕ). 2 ^ n) {x = k + suc j} {y = suc (k + j)} (omega arith),
)

-- A `u32` that is `2 ^ 32 - 2 ^ j` is a mask of ones with `j` zeros behind them.
prefix_mask : (j k m : ℕ) → j + k ≡ 32 → m + 2 ^ j ≡ 2 ^ 32 → shifted j (ones k) ≡ m
prefix_mask j k m e h =
    omega (arith, mask_power j k, ap (λ (n : ℕ). 2 ^ n) {x = k + j} {y = 32} (omega arith))

whole_range : (j k x : ℕ) → j + k ≡ 32 → x < 2 ^ 32 → x ≤ shifted j (ones k) + ones j
whole_range j k x e h =
    omega (
      arith,
      mask_power j k,
      ones_power j,
      ap (λ (n : ℕ). 2 ^ n) {x = k + j} {y = 32} (omega arith),
    )

same_net_prefix :
    (j k x y m : ℕ)
    → j + k ≡ 32
    → m + 2 ^ j ≡ 2 ^ 32
    → x < 2 ^ 32
    → y < 2 ^ 32
    → same_net x y m ≡ (x / 2 ^ j == y / 2 ^ j)
same_net_prefix j k x y m e h hx hy =
    rw (← prefix_mask j k m e h, ← upper-div j x, ← upper-div j y)
      (same_net-upper j k x y (whole_range j k x e hx) (whole_range j k y e hy))

module _ (resolve : Resolver) (host : Str) (ip a b c d e f g i j k : ℕ) where
  -- `isInNet` with the dotted address of a network and the dotted mask of its first `k` bits is true
  -- exactly where the address of the host has the upper bits of the network's.
  pub is_in_net_prefix :
      resolve_ip resolve host ≡ some ip
      → ip < 2 ^ 32
      → (a ≤ 255) × (b ≤ 255) × (c ≤ 255) × (d ≤ 255)
      → (e ≤ 255) × (f ≤ 255) × (g ≤ 255) × (i ≤ 255)
      → j + k ≡ 32
      → to_u32 e f g i + 2 ^ j ≡ 2 ^ 32
      → is_in_net resolve host (dotted a b c d []) (dotted e f g i [])
        ≡ (ip / 2 ^ j == to_u32 a b c d / 2 ^ j)
  unfolding is_in_net
  is_in_net_prefix r h (ha, hb, hc, hd) (he, hf, hg, hi) q m =
      rw (r, parse_ipv4-dotted a b c d ha hb hc hd, parse_ipv4-dotted e f g i he hf hg hi)
        (same_net_prefix j k ip (to_u32 a b c d) (to_u32 e f g i) q m h (omega arith))
