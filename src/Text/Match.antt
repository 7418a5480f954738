-- ===== src/Text/Match.antt =====
-- Prefixes, suffixes, substrings and byte offsets: `starts_with`, `strip_prefix`, `ends_with`,
-- `contains`, `eq_ignore_ascii_case` and slicing.
use ferro_vela.Prelude.{
  ℕ, ◌-◌, ◌≡◌, refl, ap, ◌↔◌, Bool, true, false, ◌&&◌, ◌||◌, [], ◌∷◌, ◌++◌, Option, none, some,
  arith, ltb, ◌==◌, if◌then◌else◌, Bool-cases, inl, inr, map_option, is_some,
}
use ferro_vela.Text.{Str, len_utf8, str_len, is_empty, to_ascii_lower, str_eq, str_eq_iff}

-- `s.strip_prefix(pat)`.
unfoldable pub strip_prefix : Str → Str → Option Str
strip_prefix s [] = some s
strip_prefix [] (p ∷ pat) = none
strip_prefix (c ∷ s) (p ∷ pat) = if c == p then strip_prefix s pat else none

-- `s.starts_with(pat)`.
unfoldable pub starts_with : Str → Str → Bool
unfolding strip_prefix
starts_with s pat = is_some (strip_prefix s pat)

-- `s.ends_with(pat)`.
unfoldable pub ends_with : Str → Str → Bool
unfolding str_eq
ends_with [] pat = is_empty pat
ends_with (c ∷ s) pat = str_eq (c ∷ s) pat || ends_with s pat

-- `s.contains(c)` for a `char`.
unfoldable pub contains_char : Str → ℕ → Bool
contains_char [] c = false
contains_char (d ∷ s) c = d == c || contains_char s c

-- `s.contains(pat)` for a `str`.
unfoldable pub contains : Str → Str → Bool
unfolding starts_with
contains [] pat = is_empty pat
contains (c ∷ s) pat = starts_with (c ∷ s) pat || contains s pat

-- `s.eq_ignore_ascii_case(t)`.
unfoldable pub eq_ignore_ascii_case : Str → Str → Bool
unfolding to_ascii_lower
eq_ignore_ascii_case [] [] = true
eq_ignore_ascii_case [] (d ∷ t) = false
eq_ignore_ascii_case (c ∷ s) [] = false
eq_ignore_ascii_case (c ∷ s) (d ∷ t) =
    to_ascii_lower c == to_ascii_lower d && eq_ignore_ascii_case s t

-- `(&s[..n], &s[n..])`; `none` is the panic of an offset past the end or inside a character.
unfoldable pub split_at : Str → ℕ → Option (Str × Str)
unfolding len_utf8
split_at [] n = if n == 0 then some ([], []) else none
split_at (c ∷ s) n =
    if n == 0
    then some ([], c ∷ s)
    else if ltb n (len_utf8 c)
    then none
    else map_option (λ (p : Str × Str). (c ∷ p.0, p.1)) (split_at s (n - len_utf8 c))

pub strip_prefix_sound : (s pat rest : Str) → strip_prefix s pat ≡ some rest → s ≡ pat ++ rest
unfolding strip_prefix
strip_prefix_sound s [] rest h = cc
strip_prefix_sound [] (p ∷ pat) rest h = cc
strip_prefix_sound (c ∷ s) (p ∷ pat) rest h = ground (arith, strip_prefix_sound s pat rest)

pub strip_prefix-append : (pat rest : Str) → strip_prefix (pat ++ rest) pat ≡ some rest
unfolding strip_prefix
strip_prefix-append [] rest = refl
strip_prefix-append (p ∷ pat) rest = ground (arith, strip_prefix-append pat rest)

pub starts_with-append : (pat rest : Str) → starts_with (pat ++ rest) pat ≡ true
unfolding starts_with
starts_with-append pat rest = rw (strip_prefix-append pat rest)

pub starts_with_sound : (s pat : Str) → starts_with s pat ≡ true → (rest : Str) × (s ≡ pat ++ rest)
unfolding starts_with
starts_with_sound s pat h = go (strip_prefix s pat) refl
  where
    go : (o : Option Str) → strip_prefix s pat ≡ o → (rest : Str) × (s ≡ pat ++ rest)
    go none e = cc
    go (some rest) e = (rest, strip_prefix_sound s pat rest e)

pub ends_with_sound : (s pat : Str) → ends_with s pat ≡ true → (front : Str) × (s ≡ front ++ pat)
unfolding ends_with
ends_with_sound [] [] h = ([], refl)
ends_with_sound [] (p ∷ pat) h = cc
ends_with_sound (c ∷ s) pat h = elim (Bool-cases (str_eq (c ∷ s) pat)) [
  | inl e ↦ ([], (str_eq_iff (c ∷ s) pat).0 e)
  | inr e ↦ let (front, q) = ends_with_sound s pat (rw e at h) in (c ∷ front, ap (◌∷◌ c) q)
]

pub ends_with-append : (front pat : Str) → ends_with (front ++ pat) pat ≡ true
unfolding ends_with
ends_with-append [] [] = refl
ends_with-append [] (p ∷ pat) = ground (arith, str_eq_iff (p ∷ pat) (p ∷ pat))
ends_with-append (c ∷ front) pat = ground (arith, ends_with-append front pat)

pub ends_with_iff : (s pat : Str) → (ends_with s pat ≡ true) ↔ ((front : Str) × (s ≡ front ++ pat))
ends_with_iff s pat = (ends_with_sound s pat, λ e. rw e.1 (ends_with-append e.0 pat))

-- A slice at an offset that is in range puts the text back together, and the offset is its length.
split_at_sound :
    (s : Str) (n : ℕ) (a b : Str) → split_at s n ≡ some (a, b) → (s ≡ a ++ b) × (str_len a ≡ n)
unfolding split_at str_len
split_at_sound [] n a b h = ground arith
split_at_sound (c ∷ s) n a b h = elim (Bool-cases (n == 0)) [
  | inl z ↦ ground arith
  | inr z ↦ go (split_at s (n - len_utf8 c)) refl (split_at_sound s (n - len_utf8 c))
]
  where
    go :
        (o : Option (Str × Str))
        → split_at s (n - len_utf8 c) ≡ o
        → ((a' b' : Str)
            → split_at s (n - len_utf8 c) ≡ some (a', b')
            → (s ≡ a' ++ b') × (str_len a' ≡ n - len_utf8 c))
        → (c ∷ s ≡ a ++ b) × (str_len a ≡ n)
    go none e ih = ground arith
    go (some (a', b')) e ih = ground (arith, ih a' b' e)
