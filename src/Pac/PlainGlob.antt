-- ===== src/Pac/PlainGlob.antt =====
-- A matcher of patterns without brackets, which keeps the laws of the crate glob.
use ferro_vela.Prelude.{
  ℕ, ◌≡◌, refl, ap, subst, ◌≢◌, inl, inr, Bool, true, false, ◌&&◌, ◌||◌, some, [], ◌∷◌, ◌++◌, arith,
  ◌==◌, if◌then◌else◌, Bool-cases, any, ==_iff,
}
use ferro_vela.Text.{Str, is_empty}
use ferro_vela.Pac.{GlobCrate}
use ferro_vela.Pac.Pattern.{Matches, star, any_char, this_char, done}

-- The rest of a text from some place on.
abbrev some_rest : (Str → Bool) → Str → Bool
some_rest p [] = p []
some_rest p (c ∷ t) = p (c ∷ t) || some_rest p t

abbrev one_more : (ℕ → Bool) → (Str → Bool) → Str → Bool
one_more q p [] = false
one_more q p (d ∷ t) = q d && p t

unfoldable pub plain_matches : Str → Str → Bool
plain_matches [] t = is_empty t
plain_matches (c ∷ p) t =
    let rest = plain_matches p in
    if c == b'*' then some_rest rest t else one_more (λ d. c == b'?' || c == d) rest t

some_rest_sound :
    (p : Str → Bool) (t : Str)
    → some_rest p t ≡ true
    → (skipped : Str) × (rest : Str) × (t ≡ skipped ++ rest) × (p rest ≡ true)
some_rest_sound p [] h = ([], [], refl, h)
some_rest_sound p (c ∷ t) h = elim (Bool-cases (p (c ∷ t))) [
  | inl here ↦ ([], c ∷ t, refl, here)
  | inr more ↦
      let (skipped, rest, e, k) = some_rest_sound p t (rw more at h) in
      (c ∷ skipped, rest, ap (◌∷◌ c) e, k)
]

some_rest_complete :
    (p : Str → Bool) (skipped rest : Str) → p rest ≡ true → some_rest p (skipped ++ rest) ≡ true
some_rest_complete p [] [] h = h
some_rest_complete p [] (c ∷ rest) h = rw h refl
some_rest_complete p (c ∷ skipped) rest h = ground (arith, some_rest_complete p skipped rest h)

star_of : (c : ℕ) → (c == b'*') ≡ true → c ≡ b'*'
star_of c h = ground arith

not_star : (c : ℕ) → (c == b'*') ≡ false → c ≢ b'*'
not_star c h e = ground arith

one_char :
    (c : ℕ) (p t : Str)
    → (c == b'*') ≡ false
    → ((u : Str) → plain_matches p u ≡ true → Matches p u)
    → one_more (λ d. c == b'?' || c == d) (plain_matches p) t ≡ true
    → Matches (c ∷ p) t
one_char c p [] h f e = cc
one_char c p (d ∷ t) h f e = elim (Bool-cases (c == b'?')) [
  | inl any ↦ any_char ((==_iff c b'?').0 any) (f t (rw any at e))
  | inr this ↦ elim (Bool-cases (c == d)) [
    | inl same ↦
        subst (λ (x : ℕ). Matches (c ∷ p) (x ∷ t)) ((==_iff c d).0 same)
          (this_char (not_star c h) (λ q. ground arith) (f t (rw (this, same) at e)))
    | inr other ↦ cc (rw (this, other) at e)
  ]
]

pub plain_sound : (p t : Str) → plain_matches p t ≡ true → Matches p t
unfolding plain_matches
plain_sound [] [] h = done
plain_sound [] (c ∷ t) h = cc
plain_sound (c ∷ p) t h = elim (Bool-cases (c == b'*')) [
  | inl s ↦
      let (skipped, rest, e, k) = some_rest_sound (plain_matches p) t (rw s at h) in
      star skipped rest (star_of c s) e (plain_sound p rest k)
  | inr o ↦ one_char c p t o (plain_sound p) (rw o at h)
]

pub plain_complete : {p t : Str} → Matches p t → plain_matches p t ≡ true
unfolding plain_matches
plain_complete done = refl
plain_complete (star {c} {p} skipped rest e s m) =
    rw (e, s) (some_rest_complete (plain_matches p) skipped rest (plain_complete m))
plain_complete (any_char e m) = rw e (plain_complete m)
plain_complete (this_char {c} a b m) = ground (arith, plain_complete m)

abbrev pub plain_glob : GlobCrate
plain_glob = record {
  Pattern = Str;
  new = λ p. some p;
  accepts = plain_matches;
  accepts_plain = λ p b d. (p, refl, λ t. (plain_sound p t, λ m. plain_complete m));
}
