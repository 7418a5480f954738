-- ===== src/Text/Laws.antt =====
-- Laws of the pieces of a text: where `rsplit_once` cuts, and which texts the trims leave alone.
use ferro_vela.Prelude.{
  inr, ◌<◌, zero, ◌/◌, Bool-cases, ◌%◌, ltb, ◌+◌, all, inl, suc, ℕ, ◌≡◌, refl, Bool, false, [], ◌∷◌,
  ◌++◌, none, some, arith,
}
use ferro_vela.Text.{true, Str, is_whitespace}
use ferro_vela.Text.Match.{contains_char}
use ferro_vela.Text.Split.{rsplit_once, drop_while, drop_while_end, trim}
use ferro_vela.Text.Number.{print_digits, to_string, is_digit}

rsplit_once-none : (sep : ℕ) (s : Str) → contains_char s sep ≡ false → rsplit_once sep s ≡ none
unfolding rsplit_once contains_char
rsplit_once-none sep [] h = refl
rsplit_once-none sep (c ∷ s) h = ground (arith, rsplit_once-none sep s)

-- The cut is at the last separator: none stands behind it.
pub rsplit_once-append :
    (sep : ℕ) (a b : Str)
    → contains_char b sep ≡ false
    → rsplit_once sep (a ++ (sep ∷ b)) ≡ some (a, b)
unfolding rsplit_once
rsplit_once-append sep [] b h = ground (arith, rsplit_once-none sep b h)
rsplit_once-append sep (c ∷ a) b h = rw (rsplit_once-append sep a b h)

-- A text whose first and last characters pass no test is left whole.
abbrev pub last_is : (ℕ → Bool) → Str → Bool
last_is p [] = false
last_is p (c ∷ []) = p c
last_is p (c ∷ (d ∷ s)) = last_is p (d ∷ s)

abbrev pub first_is : (ℕ → Bool) → Str → Bool
first_is p [] = false
first_is p (c ∷ s) = p c

pub drop_while_id : (p : ℕ → Bool) (s : Str) → first_is p s ≡ false → drop_while p s ≡ s
unfolding drop_while
drop_while_id p [] h = refl
drop_while_id p (c ∷ s) h = rw h

pub drop_while_end_id : (p : ℕ → Bool) (s : Str) → last_is p s ≡ false → drop_while_end p s ≡ s
unfolding drop_while_end
drop_while_end_id p [] h = refl
drop_while_end_id p (c ∷ []) h = rw h
drop_while_end_id p (c ∷ (d ∷ s)) h = rw (drop_while_end_id p (d ∷ s) h) (ground arith)

-- A text that neither begins nor ends in white space.
abbrev pub IsTrimmed : Str → Type 0
IsTrimmed s = (first_is is_whitespace s ≡ false) × (last_is is_whitespace s ≡ false)

pub trim_id : (s : Str) → IsTrimmed s → trim s ≡ s
unfolding trim
trim_id s h = rw (drop_while_id is_whitespace s h.0) (drop_while_end_id is_whitespace s h.1)

last_is-append :
    (p : ℕ → Bool) (a : Str) (c : ℕ) (b : Str) → last_is p (a ++ (c ∷ b)) ≡ last_is p (c ∷ b)
last_is-append p [] c b = refl
last_is-append p (x ∷ []) c b = refl
last_is-append p (x ∷ (y ∷ a)) c b = last_is-append p (y ∷ a) c b

pub all-append :
    (q : ℕ → Bool) (a b : Str) → all q a ≡ true → all q b ≡ true → all q (a ++ b) ≡ true
all-append q [] b h k = k
all-append q (c ∷ a) b h k = ground (arith, all-append q a b)

pub first_is-all :
    (p q : ℕ → Bool)
    → ((c : ℕ) → q c ≡ true → p c ≡ false)
    → (s : Str) → all q s ≡ true
    → first_is p s ≡ false
first_is-all p q f [] h = refl
first_is-all p q f (c ∷ s) h = ground (arith, f c)

pub last_is-all :
    (p q : ℕ → Bool)
    → ((c : ℕ) → q c ≡ true → p c ≡ false)
    → (s : Str) → all q s ≡ true
    → last_is p s ≡ false
last_is-all p q f [] h = refl
last_is-all p q f (c ∷ []) h = ground (arith, f c)
last_is-all p q f (c ∷ (d ∷ s)) h = last_is-all p q f (d ∷ s) (ground arith)

print_digits-all :
    (f n : ℕ) (out : Str)
    → n < f
    → all is_digit out ≡ true
    → all is_digit (print_digits f n out) ≡ true
unfolding print_digits
print_digits-all zero n out h k = absurd (omega arith)
print_digits-all (suc f) n out h k = elim (Bool-cases (ltb n 10)) [
  | inl small ↦ rw small (ground arith)
  | inr big ↦
      rw big (print_digits-all f (n / 10) ((b'0' + n % 10) ∷ out) (ground arith) (ground arith))
]

-- A decimal print holds nothing but digits.
pub to_string-all : (n : ℕ) → all is_digit (to_string n) ≡ true
unfolding to_string
to_string-all n = print_digits-all (suc n) n [] (omega arith) refl
