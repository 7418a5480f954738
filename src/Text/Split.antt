-- ===== src/Text/Split.antt =====
-- `split`, `rsplit_once`, `trim` and its relatives, `lines` and `split_whitespace`.
use ferro_vela.Prelude.{
  ℕ, Bool, false, ◌&&◌, List, [], ◌∷◌, Option, none, some, ◌==◌, if◌then◌else◌,
}
use ferro_vela.Text.{Str, is_whitespace, is_empty}

-- A character in front of the first piece.
abbrev pub cons_head : ℕ → List Str → List Str
cons_head c [] = (c ∷ []) ∷ []
cons_head c (p ∷ ps) = (c ∷ p) ∷ ps

-- The pieces between the characters that pass a test: at least one piece.
unfoldable pub split_by : (ℕ → Bool) → Str → List Str
split_by p [] = [] ∷ []
split_by p (c ∷ s) = let rest = split_by p s in if p c then [] ∷ rest else cons_head c rest

-- `s.split(c)`.
unfoldable pub split_char : ℕ → Str → List Str
unfolding split_by
split_char sep = split_by (λ c. c == sep)

abbrev drop_empty : List Str → List Str
drop_empty [] = []
drop_empty ([] ∷ ps) = drop_empty ps
drop_empty ((c ∷ p) ∷ ps) = (c ∷ p) ∷ drop_empty ps

-- `s.split_whitespace()`.
unfoldable pub split_whitespace : Str → List Str
unfolding split_by is_whitespace
split_whitespace s = drop_empty (split_by is_whitespace s)

-- `s.rsplit_once(c)`: at the last occurrence.
unfoldable pub rsplit_once : ℕ → Str → Option (Str × Str)
rsplit_once sep [] = none
rsplit_once sep (c ∷ s) = elim (rsplit_once sep s) [
  | some (a, b) ↦ some (c ∷ a, b)
  | none ↦ if c == sep then some ([], s) else none
]

unfoldable pub drop_while : (ℕ → Bool) → Str → Str
drop_while p [] = []
drop_while p (c ∷ s) = if p c then drop_while p s else c ∷ s

unfoldable pub drop_while_end : (ℕ → Bool) → Str → Str
drop_while_end p [] = []
drop_while_end p (c ∷ s) =
    let rest = drop_while_end p s in if p c && is_empty rest then [] else c ∷ rest

-- `s.trim()`.
unfoldable pub trim : Str → Str
unfolding drop_while drop_while_end is_whitespace
trim s = drop_while_end is_whitespace (drop_while is_whitespace s)

-- `s.trim_start_matches(c)` and `s.trim_end_matches(c)` for a `char`.
unfoldable pub trim_start_matches : ℕ → Str → Str
unfolding drop_while
trim_start_matches d = drop_while (λ c. c == d)

unfoldable pub trim_end_matches : ℕ → Str → Str
unfolding drop_while_end
trim_end_matches d = drop_while_end (λ c. c == d)

abbrev at_newline : Str → Bool
at_newline [] = false
at_newline (c ∷ s) = c == b'\n'

-- `s.lines()`: a line ends in `\n` or `\r\n`, which are not part of it; the last one may have no end.
unfoldable pub lines : Str → List Str
lines [] = []
lines (c ∷ s) =
    let rest = lines s in
    if c == b'\n' then [] ∷ rest else if c == b'\r' && at_newline s then rest else cons_head c rest
