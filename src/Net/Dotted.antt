-- ===== src/Net/Dotted.antt =====
-- The dotted form of an IPv4 address is read back, whatever stands behind it that is no digit.
use ferro_vela.Prelude.{
  ◌==◌, ℕ, zero, suc, Bool-cases, inl, inr, ltb, ◌+◌, ◌-◌, ◌*◌, ◌/◌, ◌%◌, ◌≤◌, ◌<◌, ◌≡◌, refl, Bool,
  true, not, [], ◌∷◌, ◌++◌, none, some, arith, if◌then◌else◌,
}
use ferro_vela.Text.{Str}
use ferro_vela.Text.Number.{is_digit, print_digits, to_string}
use ferro_vela.Net.{parse_ipv4, v4, parse_ip, read_number, read_ipv4, false, to_digit, read_digits}

abbrev ends_number : Str → Bool
ends_number [] = true
ends_number (c ∷ s) = not (is_digit c)

-- What `Display for Ipv4Addr` prints.
abbrev pub dotted : ℕ → ℕ → ℕ → ℕ → Str → Str
dotted a b c d rest =
    to_string a
    ++ (b'.' ∷ (to_string b ++ (b'.' ∷ (to_string c ++ (b'.' ∷ (to_string d ++ rest))))))

to_string_small : (n : ℕ) → n < 10 → to_string n ≡ (b'0' + n) ∷ []
unfolding to_string
to_string_small n h = ground arith

print_digits_two :
    (f n : ℕ) (out : Str)
    → 10 ≤ n
    → n < 100
    → print_digits (suc (suc f)) n out ≡ (b'0' + n / 10) ∷ (b'0' + n % 10) ∷ out
unfolding print_digits
print_digits_two f n out h k = ground arith

print_digits_three :
    (f n : ℕ) (out : Str)
    → 100 ≤ n
    → n < 1000
    → print_digits (suc (suc (suc f))) n out
      ≡ (b'0' + n / 100) ∷ (b'0' + n / 10 % 10) ∷ (b'0' + n % 10) ∷ out
unfolding print_digits
print_digits_three f n out h k = ground (arith, print_digits_two f (n / 10) ((b'0' + n % 10) ∷ out))

to_string_two : (n : ℕ) → 10 ≤ n → n < 100 → to_string n ≡ (b'0' + n / 10) ∷ (b'0' + n % 10) ∷ []
unfolding to_string
to_string_two (suc n) h k = print_digits_two n (suc n) [] h k
to_string_two zero h k = absurd (omega arith)

to_string_three :
    (n : ℕ)
    → 100 ≤ n
    → n < 1000
    → to_string n ≡ (b'0' + n / 100) ∷ (b'0' + n / 10 % 10) ∷ (b'0' + n % 10) ∷ []
unfolding to_string
to_string_three (suc (suc n)) h k = print_digits_three n (suc (suc n)) [] h k
to_string_three (suc zero) h k = absurd (omega arith)
to_string_three zero h k = absurd (omega arith)

to_digit_ten : (c : ℕ) → to_digit 10 c ≡ (if is_digit c then some (c - b'0') else none)
unfolding to_digit
to_digit_ten c = ground arith

read_digits_end :
    (n count : ℕ) (rest : Str)
    → ends_number rest ≡ true
    → read_digits 10 255 3 n count rest ≡ some (n, count, rest)
unfolding read_digits
read_digits_end n count [] h = refl
read_digits_end n count (c ∷ s) h = ground (arith, to_digit_ten c)

read_digits_step :
    (n count d m : ℕ) (rest : Str)
    → d < 10
    → n * 10 + d ≡ m
    → m ≤ 255
    → count < 3
    → read_digits 10 255 3 n count ((b'0' + d) ∷ rest) ≡ read_digits 10 255 3 m (count + 1) rest
unfolding read_digits
read_digits_step n count d m rest h q k l = rw (← q) (ground (arith, to_digit_ten (b'0' + d)))

-- A number of more than one digit does not begin with `0`.
not_zero : (c : ℕ) → 0 < c → (b'0' + c == b'0') ≡ false
not_zero c h = ground arith

module _ (rest : Str) (e : ends_number rest ≡ true) where
  read_one : (d : ℕ) → d < 10 → read_number 10 255 3 false ((b'0' + d) ∷ rest) ≡ some (d, rest)
  unfolding read_number
  read_one d h =
      rw (read_digits_step 0 0 d d rest h (omega arith) (omega arith) (omega arith))
        (rw (read_digits_end d 1 rest e) (ground arith))

  read_two :
      (c d n : ℕ)
      → 0 < c
      → c < 10
      → d < 10
      → c * 10 + d ≡ n
      → n ≤ 255
      → read_number 10 255 3 false ((b'0' + c) ∷ (b'0' + d) ∷ rest) ≡ some (n, rest)
  unfolding read_number
  read_two c d n z h k q l =
      rw (read_digits_step 0 0 c c _ h (omega arith) (omega arith) (omega arith)) (
        rw (read_digits_step c 1 d n rest k q l (omega arith))
          (rw (read_digits_end n 2 rest e) (rw (not_zero c z))))

  read_three :
      (b c d n : ℕ)
      → 0 < b
      → b < 10
      → c < 10
      → d < 10
      → (b * 10 + c) * 10 + d ≡ n
      → n ≤ 255
      → read_number 10 255 3 false ((b'0' + b) ∷ (b'0' + c) ∷ (b'0' + d) ∷ rest) ≡ some (n, rest)
  unfolding read_number
  read_three b c d n z h k l q m =
      rw (read_digits_step 0 0 b b _ h (omega arith) (omega arith) (omega arith)) (
        rw (read_digits_step b 1 c (b * 10 + c) _ k refl (omega arith) (omega arith)) (
          rw (read_digits_step (b * 10 + c) 2 d n rest l q m (omega arith))
            (rw (read_digits_end n 3 rest e) (rw (not_zero b z)))))

  -- The decimal print of an octet is read back, and what follows is left.
  pub read_number-to_string :
      (n : ℕ) → n ≤ 255 → read_number 10 255 3 false (to_string n ++ rest) ≡ some (n, rest)
  read_number-to_string n h = elim (Bool-cases (ltb n 10)) [
    | inl one ↦ rw (to_string_small n (ground arith)) (read_one n (ground arith))
    | inr more ↦ elim (Bool-cases (ltb n 100)) [
      | inl two ↦
          rw (to_string_two n (ground arith) (ground arith)) (
            read_two (n / 10) (n % 10) n (ground arith) (ground arith) (omega arith) (omega arith)
              h)
      | inr three ↦ rw (to_string_three n (ground arith) (omega arith)) (
          read_three (n / 100) (n / 10 % 10) (n % 10) n (ground arith) (omega arith) (omega arith)
            (omega arith) (omega arith) h)
    ]
  ]

-- The dotted form is read back, and what follows is left.
read_ipv4-dotted :
    (a b c d : ℕ) (rest : Str)
    → a ≤ 255
    → b ≤ 255
    → c ≤ 255
    → d ≤ 255
    → ends_number rest ≡ true
    → read_ipv4 (dotted a b c d rest) ≡ some ((a, b, c, d), rest)
unfolding read_ipv4
read_ipv4-dotted a b c d rest ha hb hc hd e = rw (read_number-to_string _ refl a ha) (
    rw (read_number-to_string _ refl b hb)
      (rw (read_number-to_string _ refl c hc) (rw (read_number-to_string rest e d hd))))

pub parse_ipv4-dotted :
    (a b c d : ℕ)
    → a ≤ 255
    → b ≤ 255
    → c ≤ 255
    → d ≤ 255
    → parse_ipv4 (dotted a b c d []) ≡ some (a, b, c, d)
unfolding parse_ipv4
parse_ipv4-dotted a b c d ha hb hc hd = rw (read_ipv4-dotted a b c d [] ha hb hc hd refl)

pub parse_ip-dotted :
    (a b c d : ℕ)
    → a ≤ 255
    → b ≤ 255
    → c ≤ 255
    → d ≤ 255
    → parse_ip (dotted a b c d []) ≡ some (v4 a b c d)
unfolding parse_ip
parse_ip-dotted a b c d ha hb hc hd = rw (read_ipv4-dotted a b c d [] ha hb hc hd refl)
