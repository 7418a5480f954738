-- ===== src/Config/Matching.antt =====
-- The two lookup structures decide the patterns that they were compiled from.
use ferro_vela.Prelude.{
  subst, ℕ, ◌<◌, ◌≡◌, refl, sym, ap, ◌↔◌, ◌⊎◌, inl, inr, Bool, true, false, ◌&&◌, ◌||◌, List, [],
  ◌∷◌, ◌++◌, arith, lt→ltb, if◌then◌else◌, any, Bool-cases, ◌∙◌,
}
use ferro_vela.Text.{length-le-str_len, Str, codes, str_eq, str_len, str_eq_iff, str_len-append}
use ferro_vela.Text.Match.{
  starts_with-append, starts_with, ends_with-append, ends_with_sound, starts_with_sound,
}
use ferro_vela.Config.Exceptions.{
  set_contains, set_insert, tail_text, partition, new, suffix_matches, matches,
}

-- What a pattern stands for: `*.domain` for every host with something before `.domain`, and any
-- other text for itself.
pub data PatternMatches (pattern host : Str) : Type 0 where
  exactly : starts_with pattern (codes "*.") ≡ false → host ≡ pattern → PatternMatches pattern host
  below :
      (domain front : Str) (c : ℕ)
      → pattern ≡ codes "*." ++ domain
      → host ≡ (c ∷ front) ++ (b'.' ∷ domain)
      → PatternMatches pattern host

abbrev pub SomeMatches : List Str → Str → Type 0
SomeMatches [] host = ⊥
SomeMatches (p ∷ ps) host = PatternMatches p host ⊎ SomeMatches ps host

-- The same as a test on one pattern.
abbrev pattern_matches : Str → Str → Bool
pattern_matches p host =
    if starts_with p (codes "*.") then suffix_matches host (tail_text p) else str_eq host p

any-append {ℓ} :
    {A : Type ℓ} (p : A → Bool) (xs ys : List A) → any p (xs ++ ys) ≡ (any p xs || any p ys)
any-append p [] ys = refl
any-append p (x ∷ xs) ys = ground (arith, any-append p xs ys)

-- Insertion into the set adds the one text.
contains-insert :
    (set : List Str) (h host : Str)
    → set_contains (set_insert h set) host ≡ (set_contains set host || str_eq host h)
contains-insert set h host = elim (Bool-cases (set_contains set h)) [
  | inl old ↦ rw old (elim (Bool-cases (str_eq host h)) [
    | inl same ↦ rw same (rw (← sym ((str_eq_iff host h).0 same)) (old ∙ rw old))
    | inr other ↦ rw other (ground arith)
  ])
  | inr fresh ↦ rw fresh (any-append (str_eq host) set (h ∷ []) ∙ ground arith)
]

if_or : (a b : Bool) → (if a then true else b) ≡ (a || b)
if_or a b = ground arith

module _ (host : Str) where
  abbrev found : List Str × List Str → Bool
  found parts = set_contains parts.0 host || any (suffix_matches host) parts.1

  -- The loop keeps what was found, and adds the patterns that it reads.
  found-partition :
      (hs exact suffixes : List Str)
      → found (partition hs exact suffixes)
        ≡ (found (exact, suffixes) || any (λ p. pattern_matches p host) hs)
  unfolding partition
  found-partition [] exact suffixes = ground arith
  found-partition (h ∷ hs) exact suffixes = elim (Bool-cases (starts_with h (codes "*."))) [
    | inl wild ↦ rw wild (
        found-partition hs exact (suffixes ++ (tail_text h ∷ []))
        ∙ ground (arith, any-append (suffix_matches host) suffixes (tail_text h ∷ [])))
    | inr plain ↦ rw plain (
        found-partition hs (set_insert h exact) suffixes
        ∙ ground (arith, contains-insert exact h host))
  ]

  -- The compiled lookup finds what a walk over the patterns finds.
  pub matches-new :
      (hosts : List Str) → matches (new hosts) host ≡ any (λ p. pattern_matches p host) hosts
  unfolding matches new
  matches-new hosts =
      if_or (set_contains (partition hosts [] []).0 host)
        (any (suffix_matches host) (partition hosts [] []).1)
      ∙ found-partition hosts [] []

-- The test of one pattern decides what the pattern stands for.
ends_at :
    (domain host front : Str)
    → host ≡ front ++ (b'.' ∷ domain)
    → str_len (b'.' ∷ domain) < str_len host
    → PatternMatches (codes "*." ++ domain) host
ends_at domain host [] e longer = absurd (omega (arith, ap str_len e))
ends_at domain host (c ∷ front) e longer = below domain front c refl e

wildcard_at :
    (domain host : Str)
    → suffix_matches host (b'.' ∷ domain) ≡ true
    → PatternMatches (codes "*." ++ domain) host
wildcard_at domain host m =
    let (front, e) = ends_with_sound host (b'.' ∷ domain) (ground arith) in
    ends_at domain host front e (ground arith)

wildcard_sound :
    (p host : Str)
    → starts_with p (codes "*.") ≡ true
    → suffix_matches host (tail_text p) ≡ true
    → PatternMatches p host
wildcard_sound p host w m =
    let (domain, split) = starts_with_sound p (codes "*.") w in
    subst (λ q. PatternMatches q host) (sym split)
      (wildcard_at domain host (subst (λ q. suffix_matches host (tail_text q) ≡ true) split m))

pattern_matches-PatternMatches :
    (p host : Str) → pattern_matches p host ≡ true → PatternMatches p host
pattern_matches-PatternMatches p host m = elim (Bool-cases (starts_with p (codes "*."))) [
  | inl wild ↦ wildcard_sound p host wild (rw wild at m)
  | inr plain ↦ exactly plain ((str_eq_iff host p).0 (rw plain at m))
]

both : {a b : Bool} → a ≡ true → b ≡ true → (a && b) ≡ true
both h k = ground arith

longer : (c : ℕ) (front : Str) → 0 < str_len (c ∷ front)
longer c front = omega (arith, length-le-str_len (c ∷ front))

PatternMatches-pattern_matches :
    {p host : Str} → PatternMatches p host → pattern_matches p host ≡ true
PatternMatches-pattern_matches {p} {host} (exactly plain e) = rw plain ((str_eq_iff host p).1 e)
PatternMatches-pattern_matches (below domain front c e q) =
    rw (e, q)
      (rw (starts_with-append (codes "*.") domain) (
        both
          (lt→ltb _ _ (omega (arith, str_len-append (c ∷ front) (b'.' ∷ domain), longer c front)))
          (ends_with-append (c ∷ front) (b'.' ∷ domain))))

any-SomeMatches :
    (hosts : List Str) (host : Str)
    → any (λ p. pattern_matches p host) hosts ≡ true
    → SomeMatches hosts host
any-SomeMatches [] host h = cc
any-SomeMatches (p ∷ ps) host h = elim (Bool-cases (pattern_matches p host)) [
  | inl this ↦ inl (pattern_matches-PatternMatches p host this)
  | inr other ↦ inr (any-SomeMatches ps host (rw other at h))
]

SomeMatches-any :
    (hosts : List Str) (host : Str)
    → SomeMatches hosts host
    → any (λ p. pattern_matches p host) hosts ≡ true
SomeMatches-any [] host h = absurd h
SomeMatches-any (p ∷ ps) host (inl m) = rw (PatternMatches-pattern_matches m)
SomeMatches-any (p ∷ ps) host (inr m) = ground (arith, SomeMatches-any ps host m)

-- A host is an exception exactly when one of the configured patterns stands for it: a pattern
-- `*.domain` for the hosts with something before `.domain`, any other pattern for itself.
pub matches_iff :
    (hosts : List Str) (host : Str) → (matches (new hosts) host ≡ true) ↔ SomeMatches hosts host
matches_iff hosts host = (
  λ h. any-SomeMatches hosts host (sym (matches-new host hosts) ∙ h),
  λ m. matches-new host hosts ∙ SomeMatches-any hosts host m,
)
