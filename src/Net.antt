-- ===== src/Net.antt =====
-- `std::net`: the addresses and their textual forms, as `str::parse::<IpAddr>` reads them. A reader
-- takes a text and returns a value with the text behind it, and `none` when it fails.
pub mod Dotted
use Prim.Native.Nat.{bit_and}
use ferro_vela.Prelude.{
  ℕ, zero, suc, ◌+◌, ◌-◌, ◌*◌, Bool, true, false, ◌&&◌, ◌||◌, List, [], ◌∷◌, ◌++◌, Option, none,
  some, ltb, leb, ◌==◌, if◌then◌else◌, length, ◌>>=◌,
}
use ferro_vela.Text.{Str, between}

-- An IPv6 address is the list of its eight segments.
pub data IpAddr : Type 0 where
  v4 : ℕ → ℕ → ℕ → ℕ → IpAddr
  v6 : List ℕ → IpAddr

-- `char::to_digit`.
pub to_digit : ℕ → ℕ → Option ℕ
to_digit radix c =
    let v =
      if between b'0' b'9' c
      then c - b'0'
      else if between b'a' b'z' c
      then c - b'a' + 10
      else if between b'A' b'Z' c
      then c - b'A' + 10
      else radix in
    if ltb v radix then some v else none

abbrev Reader : Type 0 → Type 0
Reader A = Str → Option (A × Str)

abbrev read_char : ℕ → Reader (Unit {0})
read_char c [] = none
read_char c (d ∷ s) = if d == c then some (tt, s) else none

-- The loop of `read_number`: at most `most` digits, and no value over `limit`.
pub read_digits : ℕ → ℕ → ℕ → ℕ → ℕ → Str → Option (ℕ × ℕ × Str)
unfolding to_digit
read_digits radix limit most n count [] = some (n, count, [])
read_digits radix limit most n count (c ∷ s) = elim (to_digit radix c) [
  | none ↦ some (n, count, c ∷ s)
  | some d ↦
      if ltb limit (n * radix + d) || leb most count
      then none
      else read_digits radix limit most (n * radix + d) (count + 1) s
]

abbrev starts_with_zero : Str → Bool
starts_with_zero [] = false
starts_with_zero (c ∷ s) = c == b'0'

abbrev accept_number : Bool → Str → ℕ × ℕ × Str → Option (ℕ × Str)
accept_number zeros s (n, count, rest) =
    if count == 0
    then none
    else if (if zeros then false else starts_with_zero s && leb 2 count)
    then none
    else some (n, rest)

pub read_number : ℕ → ℕ → ℕ → Bool → Reader ℕ
unfolding read_digits
read_number radix limit most zeros s = read_digits radix limit most 0 0 s >>= accept_number zeros s

-- `read_separator`: the separator stands before each item but the first.
abbrev read_separator : {A : Type 0} → ℕ → ℕ → Reader A → Reader A
read_separator sep zero p s = p s
read_separator sep (suc i) p s = do (u, rest) ← read_char sep s; p rest

abbrev octet : Reader ℕ
octet = read_number 10 255 3 false

pub read_ipv4 : Reader (ℕ × ℕ × ℕ × ℕ)
unfolding read_number
read_ipv4 s = do
  (a, s1) ← octet s
  (b, s2) ← read_separator b'.' 1 octet s1
  (c, s3) ← read_separator b'.' 1 octet s2
  (d, s4) ← read_separator b'.' 1 octet s3
  some ((a, b, c, d), s4)

-- Up to `slots` groups, the flag for an IPv4 address at the end of them.
unfoldable read_groups : ℕ → ℕ → Str → List ℕ × Bool × Str
unfolding read_ipv4
read_groups zero i s = ([], false, s)
read_groups (suc k) i s = elim (if k == 0 then none else read_separator b':' i read_ipv4 s) [
  | some ((a, b, c, d), rest) ↦ ((a * 256 + b) ∷ (c * 256 + d) ∷ [], true, rest)
  | none ↦ elim (read_separator b':' i (read_number 16 65535 4 true) s) [
    | none ↦ ([], false, s)
    | some (g, rest) ↦ let more = read_groups k (suc i) rest in (g ∷ more.0, more.1, more.2)
  ]
]

abbrev pub zeros : ℕ → List ℕ
zeros zero = []
zeros (suc n) = 0 ∷ zeros n

-- `::` stands for at least one segment of zeros.
unfoldable read_tail : List ℕ → Str → Option (List ℕ × Str)
unfolding read_groups
read_tail head s = do
  (u, s1) ← read_char b':' s
  (w, s2) ← read_char b':' s1
  let tail = read_groups (7 - length head) 0 s2
  some (head ++ (zeros (8 - length head - length tail.0) ++ tail.0), tail.2)

unfoldable read_ipv6 : Reader (List ℕ)
unfolding read_groups read_tail
read_ipv6 s =
    let head = read_groups 8 0 s in
    if length head.0 == 8
    then some (head.0, head.2)
    else if head.1
    then none
    else read_tail head.0 head.2

abbrev finished : {A : Type 0} → Option (A × Str) → Option A
finished none = none
finished (some (a, [])) = some a
finished (some (a, c ∷ s)) = none

-- `s.parse::<Ipv4Addr>()`.
unfoldable pub parse_ipv4 : Str → Option (ℕ × ℕ × ℕ × ℕ)
unfolding read_ipv4
parse_ipv4 s = finished (read_ipv4 s)

abbrev read_v6_addr : Option (List ℕ × Str) → Option (IpAddr × Str)
read_v6_addr none = none
read_v6_addr (some (l, rest)) = some (v6 l, rest)

-- `s.parse::<IpAddr>()`: the first form that can be read from the front must take the whole text.
unfoldable pub parse_ip : Str → Option IpAddr
unfolding read_ipv4 read_ipv6
parse_ip s = finished (elim (read_ipv4 s) [
  | some ((a, b, c, d), rest) ↦ some (v4 a b c d, rest)
  | none ↦ read_v6_addr (read_ipv6 s)
])

-- `u32::from(Ipv4Addr)`.
abbrev pub to_u32 : ℕ → ℕ → ℕ → ℕ → ℕ
to_u32 a b c d = ((a * 256 + b) * 256 + c) * 256 + d
