-- ===== src/Pac/Glob.antt =====
-- `glob_match` decides what a pattern stands for, also where several `*` stand side by side.
use ferro_vela.Prelude.{
  ℕ, ◌≡◌, refl, sym, ◌↔◌, inl, inr, Bool, true, false, [], ◌∷◌, ◌++◌, append_assoc, arith, ◌==◌,
  Bool-cases,
}
use ferro_vela.Text.{Str}
use ferro_vela.Pac.{sh_exp_match, glob_match, GlobCrate, collapse}
use ferro_vela.Pac.Pattern.{has_double_star, Matches, star, any_char, this_char}
use ferro_vela.Text.Match.{contains_char}
use ferro_vela.Text.Laws.{first_is}

-- The characters in front do not matter to a change of what comes behind them.
behind :
    {p q : Str}
    → ((t : Str) → Matches p t → Matches q t)
    → {c : ℕ} {t : Str} → Matches (c ∷ p) t
    → Matches (c ∷ q) t
behind f (star skipped rest e s m) = star skipped rest e s (f rest m)
behind f (any_char e m) = any_char e (f _ m)
behind f (this_char a b m) = this_char a b (f _ m)

-- Two stars stand for no more than one, and for no less.
skip_more :
    {c : ℕ} {p rest t : Str} (skipped : Str)
    → c ≡ b'*'
    → t ≡ skipped ++ rest
    → Matches (c ∷ p) rest
    → Matches (c ∷ p) t
skip_more skipped e s (star more rest' e' s' m) =
    star (skipped ++ more) rest' e (rw (s, s') (sym (append_assoc skipped more rest'))) m
skip_more skipped e s (any_char e' m) = absurd (omega arith)
skip_more skipped e s (this_char a b m) = absurd (a e)

one_star : {c : ℕ} {p t : Str} → c ≡ b'*' → Matches (c ∷ (c ∷ p)) t → Matches (c ∷ p) t
one_star e (star skipped rest e' s m) = skip_more skipped e s m
one_star e (any_char e' m) = absurd (omega arith)
one_star e (this_char a b m) = absurd (a e)

two_stars : {c : ℕ} {p t : Str} → c ≡ b'*' → Matches (c ∷ p) t → Matches (c ∷ (c ∷ p)) t
two_stars {t} e m = star [] t e refl m

abbrev Same : Str → Str → Type 0
Same p q = ((t : Str) → Matches p t → Matches q t) × ((t : Str) → Matches q t → Matches p t)

Same-behind : (c : ℕ) (p q : Str) → Same p q → Same (c ∷ p) (c ∷ q)
Same-behind c p q h = (λ t m. behind h.0 m, λ t m. behind h.1 m)

Same-trans : (p q r : Str) → Same p q → Same q r → Same p r
Same-trans p q r h k = (λ t m. k.0 t (h.0 t m), λ t m. h.1 t (k.1 t m))

-- What the loop leaves of a pattern, alone and behind a star.
abbrev Kept : Str → Type 0
Kept p = Same (collapse false p) p × Same (b'*' ∷ collapse true p) (b'*' ∷ p)

star_of : (c : ℕ) → (c == b'*') ≡ true → c ≡ b'*'
star_of c h = ground arith

starred :
    (p : Str)
    → Same (b'*' ∷ collapse true p) (b'*' ∷ p)
    → Same (b'*' ∷ collapse true p) (b'*' ∷ p) × Same (b'*' ∷ collapse true p) (b'*' ∷ (b'*' ∷ p))
starred p h = (h, Same-trans _ _ _ h (λ t m. two_stars refl m, λ t m. one_star refl m))

unstarred :
    (c : ℕ) (p : Str)
    → Same (collapse false p) p
    → Same (c ∷ collapse false p) (c ∷ p) × Same (b'*' ∷ (c ∷ collapse false p)) (b'*' ∷ (c ∷ p))
unstarred c p h = (Same-behind c _ _ h, Same-behind b'*' _ _ (Same-behind c _ _ h))

collapse-Kept : (p : Str) → Kept p
unfolding collapse
collapse-Kept [] = ((λ t m. m, λ t m. m), (λ t m. m, λ t m. m))
collapse-Kept (c ∷ p) = elim (Bool-cases (c == b'*')) [
  | inl h ↦ rw (h) (rw (star_of c h) (starred p (collapse-Kept p).1))
  | inr h ↦ rw (h) (unstarred c p (collapse-Kept p).0)
]

collapse-Same : (p : Str) → Same (collapse false p) p
collapse-Same p = (collapse-Kept p).0

-- The loop leaves no two stars side by side.
collapse_first : (p : Str) → first_is (λ d. d == b'*') (collapse true p) ≡ false
unfolding collapse
collapse_first [] = refl
collapse_first (c ∷ p) = elim (Bool-cases (c == b'*')) [
  | inl h ↦ rw (h) (collapse_first p)
  | inr h ↦ rw (h) (h)
]

collapse-has_double_star : (last : Bool) (p : Str) → has_double_star (collapse last p) ≡ false
unfolding collapse has_double_star
collapse-has_double_star last [] = refl
collapse-has_double_star true (c ∷ p) = elim (Bool-cases (c == b'*')) [
  | inl h ↦ rw (h) (collapse-has_double_star true p)
  | inr h ↦ rw (h) (rw (h) (collapse-has_double_star false p))
]
collapse-has_double_star false (c ∷ p) = elim (Bool-cases (c == b'*')) [
  | inl h ↦ rw (h) (rw (h, collapse_first p) (collapse-has_double_star true p))
  | inr h ↦ rw (h) (rw (h) (collapse-has_double_star false p))
]

collapse-contains_char :
    (d : ℕ) (last : Bool) (p : Str)
    → contains_char p d ≡ false
    → contains_char (collapse last p) d ≡ false
unfolding collapse contains_char
collapse-contains_char d last [] h = refl
collapse-contains_char d last (c ∷ p) h = ground (arith, collapse-contains_char d (c == b'*') p)

module _ (g : GlobCrate) (pattern text : Str) where
  glob_match_iff :
      contains_char pattern b'[' ≡ false → (glob_match g pattern text ≡ true) ↔ Matches pattern text
  unfolding glob_match
  glob_match_iff plain =
      let (x, e, decides) =
        g.accepts_plain (collapse false pattern) (collapse-contains_char b'[' false pattern plain)
          (collapse-has_double_star false pattern) in
      rw (e, glob_match)
        (
          λ h. (collapse-Same pattern).0 text ((decides text).0 h),
          λ m. (decides text).1 ((collapse-Same pattern).1 text m),
        )

  -- `shExpMatch` on a pattern without a bracket is true on exactly the texts that the pattern stands
  -- for, also where several `*` stand side by side.
  pub sh_exp_match_iff :
      contains_char pattern b'[' ≡ false
      → (sh_exp_match g text pattern ≡ true) ↔ Matches pattern text
  unfolding sh_exp_match
  sh_exp_match_iff plain = glob_match_iff plain
