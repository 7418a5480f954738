-- ===== src/Ui/Ports.antt =====
-- The port of the form: what the validator accepts, and what is saved.
use ferro_vela.Prelude.{
  ◌∙◌, ◌+◌, ◌-◌, subst, Bool-cases, inl, arith, false, ◌*◌, inr, Option, refl, none, ◌==◌, some,
  ◌∷◌, ◌≤◌, ◌≡◌, [], ℕ,
}
use ferro_vela.Text.Number.{
  parse_uint-to_string, is_digit, to_string, max_u32, max_u16, parse_digits, parse_uint,
  scan_digits,
}
use ferro_vela.Text.{is_empty, is_whitespace, Str}
use ferro_vela.Text.Laws.{last_is-all, first_is-all, to_string-all, IsTrimmed, trim_id}
use ferro_vela.Text.Split.{drop_while, trim}
use ferro_vela.Ui.Forms.{port_problem, validate_port, port_of}

scan_digits_grows : (limit : ℕ) (s : Str) (n v : ℕ) → scan_digits limit s n ≡ some v → n ≤ v
unfolding scan_digits
scan_digits_grows limit [] n v e = ground arith
scan_digits_grows limit (c ∷ s) n v e =
    ground (arith, scan_digits_grows limit s (n * 10 + (c - b'0')) v)

scan_digits_lower :
    (low high : ℕ) (s : Str) (n v : ℕ)
    → v ≤ low
    → scan_digits high s n ≡ some v
    → scan_digits low s n ≡ some v
unfolding scan_digits
scan_digits_lower low high [] n v h e = e
scan_digits_lower low high (c ∷ s) n v h e = ground (
  arith,
  scan_digits_grows high s (n * 10 + (c - b'0')) v,
  scan_digits_lower low high s (n * 10 + (c - b'0')) v,
)

parse_digits_lower :
    (low high : ℕ) (s : Str) (v : ℕ)
    → v ≤ low
    → parse_digits high s ≡ some v
    → parse_digits low s ≡ some v
unfolding parse_digits
parse_digits_lower low high [] v h e = cc
parse_digits_lower low high (c ∷ s) v h e = scan_digits_lower low high (c ∷ s) 0 v h e

-- A number that is accepted under a large bound is accepted under any bound that it meets.
parse_uint_lower :
    (low high : ℕ) (s : Str) (v : ℕ)
    → v ≤ low
    → parse_uint high s ≡ some v
    → parse_uint low s ≡ some v
unfolding parse_uint
parse_uint_lower low high [] v h e = cc
parse_uint_lower low high (c ∷ s) v h e = elim (Bool-cases (c == b'+')) [
  | inl plus ↦ rw plus (parse_digits_lower low high s v h (rw plus at e))
  | inr digit ↦ rw digit (parse_digits_lower low high (c ∷ s) v h (rw digit at e))
]

-- The number of a port that the validator accepts.
pub record IsPort (text : Str) : Type 0 where
  pub number : ℕ
  pub from : 1 ≤ number
  pub to : number ≤ 65535
  pub parsed : parse_uint max_u32 text ≡ some number

port_problem-none :
    (text : Str) (o : Option ℕ) → parse_uint max_u32 text ≡ o → port_problem o ≡ none → IsPort text
port_problem-none text none e h = cc
port_problem-none text (some n) e h = record {
  number = n;
  from = ground arith;
  to = ground arith;
  parsed = e;
}

validated : (text : Str) → validate_port text ≡ none → IsPort (trim text)
unfolding validate_port
validated text h = elim (Bool-cases (is_empty (trim text))) [
  | inl blank ↦ cc (rw blank at h)
  | inr full ↦ port_problem-none (trim text) _ refl (rw full at h)
]

-- A text that the validator accepts and that has no white space at its ends is the port that is saved,
-- and this is 1 to 65535.
pub validate_port-port_of :
    (text : Str)
    → validate_port text ≡ none
    → IsTrimmed text
    → (1 ≤ port_of text) × (port_of text ≤ 65535) × (parse_uint max_u16 text ≡ some (port_of text))
unfolding port_of
validate_port-port_of text ok trimmed =
    let port = subst IsPort (trim_id text trimmed) (validated text ok) in
    let known = parse_uint_lower max_u16 max_u32 text port.number port.to port.parsed in
    rw known (port.from, port.to, refl)

space_parses_not : (s : Str) → parse_uint max_u16 (b' ' ∷ s) ≡ none
unfolding parse_uint parse_digits scan_digits
space_parses_not s = refl

digits-IsTrimmed : (n : ℕ) → IsTrimmed (to_string n)
unfolding is_whitespace
digits-IsTrimmed n = (
  first_is-all is_whitespace is_digit (λ c h. ground arith) (to_string n) (to_string-all n),
  last_is-all is_whitespace is_digit (λ c h. ground arith) (to_string n) (to_string-all n),
)

trim-space : (s : Str) → trim (b' ' ∷ s) ≡ trim s
unfolding trim drop_while is_whitespace
trim-space s = refl

parsed_full : (limit n : ℕ) (s : Str) → parse_uint limit s ≡ some n → is_empty s ≡ false
unfolding parse_uint
parsed_full limit n [] e = cc
parsed_full limit n (c ∷ s) e = refl

accepted : (n : ℕ) → 1 ≤ n → n ≤ 65535 → port_problem (some n) ≡ none
accepted n from to = ground arith

accepted_text :
    (n : ℕ) (s : Str) → 1 ≤ n → n ≤ 65535 → trim s ≡ to_string n → validate_port s ≡ none
unfolding validate_port
accepted_text n s from to e =
    let parsed = parse_uint-to_string max_u32 n (omega arith) in
    rw e (rw (parsed_full max_u32 n (to_string n) parsed, parsed) (accepted n from to))

-- Every port from 1 to 65535 with a space in front of it passes the validator, and the default port 3128 is saved in
-- its place.
pub validate_port-spaced :
    (n : ℕ)
    → 1 ≤ n
    → n ≤ 65535
    → (validate_port (b' ' ∷ to_string n) ≡ none) × (port_of (b' ' ∷ to_string n) ≡ 3128)
unfolding port_of
validate_port-spaced n from to = (
  accepted_text n (b' ' ∷ to_string n) from to
      (trim-space (to_string n) ∙ trim_id (to_string n) (digits-IsTrimmed n)),
  rw (space_parses_not (to_string n)) refl,
)
