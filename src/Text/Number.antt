-- ===== src/Text/Number.antt =====
-- Decimal numbers: `str::parse` into an unsigned type with a largest value, and `to_string`.
use ferro_vela.Prelude.{
  ℕ, zero, suc, ◌+◌, ◌-◌, ◌*◌, ◌/◌, ◌%◌, ◌≤◌, ◌<◌, ◌≡◌, refl, Bool, [], ◌∷◌, Option, none, some,
  arith, ltb, ◌==◌, if◌then◌else◌, Bool-cases, inl, inr, ◌^◌, ◌∙◌,
}
use ferro_vela.Text.{Str, between}

abbrev max_u8 : ℕ
max_u8 = 255

abbrev pub max_u16 : ℕ
max_u16 = 65535

abbrev pub max_u32 : ℕ
max_u32 = 2 ^ 32 - 1

abbrev pub max_u64 : ℕ
max_u64 = 2 ^ 64 - 1

abbrev pub is_digit : ℕ → Bool
is_digit c = between b'0' b'9' c

-- The digits behind those that spell `n`; a value over the largest one is an error.
unfoldable pub scan_digits : ℕ → Str → ℕ → Option ℕ
scan_digits limit [] n = some n
scan_digits limit (c ∷ s) n =
    let m = n * 10 + (c - b'0') in
    let rest = scan_digits limit s m in
    if is_digit c then (if ltb limit m then none else rest) else none

unfoldable pub parse_digits : ℕ → Str → Option ℕ
unfolding scan_digits
parse_digits limit [] = none
parse_digits limit (c ∷ s) = scan_digits limit (c ∷ s) 0

-- `s.parse::<u16>()` and the like; one `+` may stand in front.
unfoldable pub parse_uint : ℕ → Str → Option ℕ
unfolding parse_digits
parse_uint limit [] = none
parse_uint limit (c ∷ s) = if c == b'+' then parse_digits limit s else parse_digits limit (c ∷ s)

-- The digits of `n` in front of `out`; the fuel is more than the number of digits.
unfoldable pub print_digits : ℕ → ℕ → Str → Str
print_digits zero n out = out
print_digits (suc f) n out =
    let rest = print_digits f (n / 10) ((b'0' + n % 10) ∷ out) in
    if ltb n 10 then (b'0' + n) ∷ out else rest

-- `n.to_string()`.
unfoldable pub to_string : ℕ → Str
unfolding print_digits
to_string n = print_digits (suc n) n []

-- Reading the digits of `n` and then `out` is reading `out` behind `n`.
scan_digits-print_digits :
    (limit f n : ℕ) (out : Str)
    → n < f
    → n ≤ limit
    → scan_digits limit (print_digits f n out) 0 ≡ scan_digits limit out n
unfolding scan_digits print_digits
scan_digits-print_digits limit zero n out h k = absurd (omega arith)
scan_digits-print_digits limit (suc f) n out h k = elim (Bool-cases (ltb n 10)) [
  | inl small ↦ ground arith
  | inr big ↦ ground (arith, scan_digits-print_digits limit f (n / 10) ((b'0' + n % 10) ∷ out))
]

-- The first character of a print is a digit.
print_digits_head :
    (f n : ℕ) (out : Str)
    → n < f
    → (d : ℕ) × (s : Str) × (print_digits f n out ≡ d ∷ s) × (b'0' ≤ d) × (d ≤ b'9')
unfolding print_digits
print_digits_head zero n out h = absurd (omega arith)
print_digits_head (suc f) n out h = elim (Bool-cases (ltb n 10)) [
  | inl small ↦ (b'0' + n, out, rw small, omega arith, ground arith)
  | inr big ↦
      let (d, s, e, lo, hi) = print_digits_head f (n / 10) ((b'0' + n % 10) ∷ out) (ground arith) in
      (d, s, rw big e, lo, hi)
]

parse_uint-parse_digits :
    (limit d : ℕ) (s : Str)
    → b'0' ≤ d
    → d ≤ b'9'
    → parse_uint limit (d ∷ s) ≡ scan_digits limit (d ∷ s) 0
unfolding parse_uint
parse_uint-parse_digits limit d s lo hi = ground arith

-- A number that the type holds is read back from its decimal print.
pub parse_uint-to_string : (limit n : ℕ) → n ≤ limit → parse_uint limit (to_string n) ≡ some n
unfolding to_string
parse_uint-to_string limit n h =
    let (d, s, e, lo, hi) = print_digits_head (suc n) n [] (omega arith) in
    rw e (
      parse_uint-parse_digits limit d s lo hi
      ∙ (rw e at (scan_digits-print_digits limit (suc n) n [] (omega arith) h))
      ∙ unfold scan_digits in refl)

scan_digits_bound :
    (limit : ℕ) (s : Str) (n : ℕ) {r : ℕ} → n ≤ limit → scan_digits limit s n ≡ some r → r ≤ limit
unfolding scan_digits
scan_digits_bound limit [] n h e = ground arith
scan_digits_bound limit (c ∷ s) n {r} h e =
    ground (arith, scan_digits_bound limit s (n * 10 + (c - b'0')) {r = r})

parse_digits_bound : (limit : ℕ) (s : Str) {r : ℕ} → parse_digits limit s ≡ some r → r ≤ limit
unfolding parse_digits
parse_digits_bound limit [] e = cc
parse_digits_bound limit (c ∷ s) {r} e = scan_digits_bound limit (c ∷ s) 0 (omega arith) e

-- What is parsed fits the type.
parse_uint_bound : (limit : ℕ) (s : Str) {r : ℕ} → parse_uint limit s ≡ some r → r ≤ limit
unfolding parse_uint
parse_uint_bound limit [] e = cc
parse_uint_bound limit (c ∷ s) {r} e =
    ground (arith, parse_digits_bound limit s {r = r}, parse_digits_bound limit (c ∷ s) {r = r})
