-- ===== src/Pac/Names.antt =====
-- The tests on host names that a script can call.
use ferro_vela.Prelude.{
  ◌≡◌, refl, ap, ◌∙◌, ◌≢◌, ◌↔◌, ◌⊎◌, inl, inr, true, [], ◌∷◌, ◌++◌, append_assoc, arith, ◌==◌,
  Bool-cases,
}
use ferro_vela.Text.{Str, str_eq, str_eq_iff}
use ferro_vela.Pac.{is_plain_host_name, dns_domain_is, local_host_or_domain_is}
use ferro_vela.Text.Match.{contains_char, ends_with_iff, starts_with_sound, starts_with-append}

dot_inside : (front back : Str) → contains_char (front ++ (b'.' ∷ back)) b'.' ≡ true
unfolding contains_char
dot_inside [] back = refl
dot_inside (c ∷ front) back = ground (arith, dot_inside front back)

dot_at :
    (s : Str)
    → contains_char s b'.' ≡ true
    → (front : Str) × (back : Str) × (s ≡ front ++ (b'.' ∷ back))
unfolding contains_char
dot_at [] h = cc
dot_at (c ∷ s) h = elim (Bool-cases (c == b'.')) [
  | inl here ↦ ([], s, ground arith)
  | inr later ↦ let (front, back, e) = dot_at s (rw later at h) in (c ∷ front, back, ap (◌∷◌ c) e)
]

plain_iff :
    (host : Str)
    → (is_plain_host_name host ≡ true) ↔ ((front back : Str) → host ≢ front ++ (b'.' ∷ back))
unfolding is_plain_host_name
plain_iff host = (
  λ h front back e. cc (h, ap (λ (s : Str). contains_char s b'.') e, dot_inside front back),
  λ f. elim (Bool-cases (contains_char host b'.')) [
    | inl dotted ↦ let (front, back, e) = dot_at host dotted in absurd (f front back e)
    | inr plain ↦ rw plain refl
  ],
)

local_sound :
    (host other : Str)
    → local_host_or_domain_is host other ≡ true
    → (host ≡ other) ⊎ ((back : Str) × (other ≡ host ++ (b'.' ∷ back)))
unfolding local_host_or_domain_is
local_sound host other h = elim (Bool-cases (str_eq host other)) [
  | inl e ↦ inl ((str_eq_iff host other).0 e)
  | inr e ↦
      let (back, q) = starts_with_sound other (host ++ (b'.' ∷ [])) (rw e at h) in
      inr (back, q ∙ append_assoc host (b'.' ∷ []) back)
]

local_complete :
    (host other : Str)
    → (host ≡ other) ⊎ ((back : Str) × (other ≡ host ++ (b'.' ∷ back)))
    → local_host_or_domain_is host other ≡ true
unfolding local_host_or_domain_is
local_complete host other (inl e) = rw ((str_eq_iff host other).1 e) refl
local_complete host other (inr (back, e)) =
    rw (e, ← append_assoc host (b'.' ∷ []) back, starts_with-append (host ++ (b'.' ∷ [])) back)
      (ground arith)

-- `isPlainHostName` is true exactly on a name without a dot, `dnsDomainIs` exactly on a name that ends
-- in the domain, and `localHostOrDomainIs` exactly on a name that is the full one or stands in front of
-- a dot of it.
pub host_name_tests :
    (host other : Str)
    → ((is_plain_host_name host ≡ true) ↔ ((front back : Str) → host ≢ front ++ (b'.' ∷ back)))
      × ((dns_domain_is host other ≡ true) ↔ ((front : Str) × (host ≡ front ++ other)))
      × ((local_host_or_domain_is host other ≡ true)
          ↔ ((host ≡ other) ⊎ ((back : Str) × (other ≡ host ++ (b'.' ∷ back)))))
unfolding dns_domain_is
host_name_tests host other =
    (plain_iff host, ends_with_iff host other, (local_sound host other, local_complete host other))
