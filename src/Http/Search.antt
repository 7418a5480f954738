-- ===== src/Http/Search.antt =====
-- A search that does what the crate `memchr` documents for `memmem::find`, so that the laws of
-- `Memmem` hold of a function.
use ferro_vela.Prelude.{
  [], some, Option, false, inl, zero, Bool-cases, arith, ◌≤◌, suc, length, true, inr, none, ◌<◌,
  if◌then◌else◌, ◌≡◌, subst, ◌∷◌, ℕ,
}
use ferro_vela.Text.Match.{starts_with}
use ferro_vela.Http.{Memmem, occurs_at}
use ferro_vela.Text.Utf8.{Bytes}

abbrev pub next : Option ℕ → Option ℕ
next none = none
next (some i) = some (suc i)

unfoldable pub search : Bytes → Bytes → Option ℕ
search [] n = if starts_with [] n then some 0 else none
search (c ∷ t) n = let rest = search t n in if starts_with (c ∷ t) n then some 0 else next rest

abbrev IsFirst : Bytes → Bytes → Option ℕ → Type 0
IsFirst h n none = (j : ℕ) → j ≤ length h → occurs_at h n j ≡ false
IsFirst h n (some i) =
    (i ≤ length h) × (occurs_at h n i ≡ true) × ((j : ℕ) → j < i → occurs_at h n j ≡ false)

IsFirst-next :
    (c : ℕ) (t n : Bytes) (o : Option ℕ)
    → starts_with (c ∷ t) n ≡ false
    → IsFirst t n o
    → IsFirst (c ∷ t) n (next o)
IsFirst-next c t n none h first = go
  where
    go : (j : ℕ) → j ≤ length (c ∷ t) → occurs_at (c ∷ t) n j ≡ false
    go zero k = h
    go (suc j) k = first j (omega arith)
IsFirst-next c t n (some i) h first = (omega (arith, first.0), first.1, go)
  where
    go : (j : ℕ) → j < suc i → occurs_at (c ∷ t) n j ≡ false
    go zero k = h
    go (suc j) k = first.2 j (omega arith)

IsFirst-none : (n : Bytes) → starts_with [] n ≡ false → IsFirst [] n none
IsFirst-none n h zero k = h
IsFirst-none n h (suc j) k = absurd (omega arith)

IsFirst-zero : (h n : Bytes) → starts_with h n ≡ true → IsFirst h n (some 0)
IsFirst-zero h n e = (omega arith, e, λ j k. absurd (omega arith))

pub search-IsFirst : (h n : Bytes) → IsFirst h n (search h n)
unfolding search
search-IsFirst [] n = elim (Bool-cases (starts_with [] n)) [
  | inl here ↦ rw here (IsFirst-zero [] n here)
  | inr free ↦ rw free (IsFirst-none n free)
]
search-IsFirst (c ∷ t) n = elim (Bool-cases (starts_with (c ∷ t) n)) [
  | inl here ↦ rw here (IsFirst-zero (c ∷ t) n here)
  | inr free ↦ rw free (IsFirst-next c t n (search t n) free (search-IsFirst t n))
]

abbrev pub first_memmem : Memmem
first_memmem = record {
  find = search;
  find_some = λ h n {i} e. subst (IsFirst h n) e (search-IsFirst h n);
  find_none = λ h n e. subst (IsFirst h n) e (search-IsFirst h n);
}
