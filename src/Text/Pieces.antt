-- ===== src/Text/Pieces.antt =====
-- Laws of the first piece of a split.
use ferro_vela.Prelude.{
  ◌==◌, some, get_elem?, Bool-cases, arith, [], inl, if◌then◌else◌, ◌∷◌, false, ◌++◌, refl, List,
  ◌≡◌, Bool, inr, ℕ,
}
use ferro_vela.Text.Split.{split_char, split_by}
use ferro_vela.Text.Match.{contains_char}
use ferro_vela.Text.{Str}

-- A text up to its first separator.
pub first_of : (ℕ → Bool) → Str → Str
first_of p [] = []
first_of p (c ∷ s) = if p c then [] else c ∷ first_of p s

split_by-first_of :
    (p : ℕ → Bool) (s : Str) → (rest : List Str) × (split_by p s ≡ first_of p s ∷ rest)
unfolding split_by first_of
split_by-first_of p [] = ([], refl)
split_by-first_of p (c ∷ s) = elim (Bool-cases (p c)) [
  | inl sep ↦ (split_by p s, rw sep)
  | inr plain ↦ let (rest, e) = split_by-first_of p s in (rest, rw (plain, e))
]

head_of_cons {ℓ} : {A : Type ℓ} {x : A} {xs l : List A} → l ≡ x ∷ xs → get_elem? l 0 ≡ some x
head_of_cons e = rw e refl

pub split_char-first_of :
    (sep : ℕ) (s : Str) → get_elem? (split_char sep s) 0 ≡ some (first_of (λ c. c == sep) s)
unfolding split_char
split_char-first_of sep s = head_of_cons (split_by-first_of (λ c. c == sep) s).1

pub first_of-append :
    (sep : ℕ) (a b : Str)
    → contains_char a sep ≡ false
    → first_of (λ c. c == sep) (a ++ (sep ∷ b)) ≡ a
unfolding first_of contains_char
first_of-append sep [] b h = ground arith
first_of-append sep (c ∷ a) b h = ground (arith, first_of-append sep a b)

pub first_of_whole :
    (sep : ℕ) (a : Str) → contains_char a sep ≡ false → first_of (λ c. c == sep) a ≡ a
unfolding first_of contains_char
first_of_whole sep [] h = refl
first_of_whole sep (c ∷ a) h = ground (arith, first_of_whole sep a)

pub first_of-contains_char :
    (sep : ℕ) (s : Str) → contains_char (first_of (λ c. c == sep) s) sep ≡ false
unfolding first_of contains_char
first_of-contains_char sep [] = refl
first_of-contains_char sep (c ∷ s) = elim (Bool-cases (c == sep)) [
  | inl here ↦ rw here
  | inr other ↦ rw other (rw other (first_of-contains_char sep s))
]
