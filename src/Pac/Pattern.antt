-- ===== src/Pac/Pattern.antt =====
-- What a wildcard pattern without brackets stands for.
use ferro_vela.Text.{Str}
use ferro_vela.Prelude.{ℕ, ◌≡◌, ◌≢◌, [], ◌∷◌, ◌++◌, Bool, false, ◌&&◌, ◌||◌, ◌==◌}
use ferro_vela.Text.Laws.{first_is}

-- The texts of a pattern.
pub data Matches : Str → Str → Type 0 where
  done : Matches [] []
  star :
      {c : ℕ} {p t : Str} (skipped rest : Str)
      → c ≡ b'*'
      → t ≡ skipped ++ rest
      → Matches p rest
      → Matches (c ∷ p) t
  any_char : {c d : ℕ} {p t : Str} → c ≡ b'?' → Matches p t → Matches (c ∷ p) (d ∷ t)
  this_char : {c : ℕ} {p t : Str} → c ≢ b'*' → c ≢ b'?' → Matches p t → Matches (c ∷ p) (c ∷ t)

-- Whether two `*` stand side by side.
unfoldable pub has_double_star : Str → Bool
has_double_star [] = false
has_double_star (c ∷ s) = (c == b'*' && first_is (λ d. d == b'*') s) || has_double_star s
