-- ===== src/Launchd/Escape.antt =====
-- `xml_escape` is undone by what an XML reader makes of character data.
use ferro_vela.Prelude.{
  ℕ, zero, suc, ◌≤◌, ◌≡◌, refl, ap, ◌∙◌, ◌⊎◌, inl, inr, Bool, true, false, not, ◌||◌, Option, none,
  some, [], ◌∷◌, arith, ◌==◌, Bool-cases, length, all,
}
use ferro_vela.Text.{Str, codes}
use ferro_vela.Launchd.{xml_escape, replace}
use ferro_vela.Text.Match.{strip_prefix}

-- The entity at the front of a text, with the text behind it.
abbrev after_entity : ℕ → Option Str → Option (ℕ × Str) → Option (ℕ × Str)
after_entity c none next = next
after_entity c (some rest) next = some (c, rest)

pub read_entity : Str → Option (ℕ × Str)
unfolding strip_prefix
read_entity t = after_entity b'&' (strip_prefix t (codes "&amp;")) (
    after_entity b'<' (strip_prefix t (codes "&lt;")) (
      after_entity b'>' (strip_prefix t (codes "&gt;"))
        (after_entity b'"' (strip_prefix t (codes "&quot;")) none)))

-- The characters that character data of XML stands for; the fuel is the length of the text.
pub unescape_from : ℕ → Str → Str
unescape_from zero t = t
unescape_from (suc f) [] = []
unescape_from (suc f) (c ∷ t) = elim (read_entity (c ∷ t)) [
  | some (d, rest) ↦ d ∷ unescape_from f rest
  | none ↦ c ∷ unescape_from f t
]

pub unescape : Str → Str
unescape t = unescape_from (length t) t

-- Whether a character would begin or end a tag, or end a value in quotes.
abbrev pub is_markup : ℕ → Bool
is_markup c = c == b'<' || c == b'>' || c == b'"'

four_cases :
    (c : ℕ)
    → (c ≡ b'&')
      ⊎ ((c ≡ b'<')
          ⊎ ((c ≡ b'>')
              ⊎ ((c ≡ b'"')
                  ⊎ (((c == b'&') ≡ false)
                      × ((c == b'<') ≡ false)
                      × ((c == b'>') ≡ false)
                      × ((c == b'"') ≡ false)))))
four_cases c = elim (Bool-cases (c == b'&')) [
  | inl e ↦ inl (ground arith)
  | inr e1 ↦ elim (Bool-cases (c == b'<')) [
    | inl e ↦ inr (inl (ground arith))
    | inr e2 ↦ elim (Bool-cases (c == b'>')) [
      | inl e ↦ inr (inr (inl (ground arith)))
      | inr e3 ↦ elim (Bool-cases (c == b'"')) [
        | inl e ↦ inr (inr (inr (inl (ground arith))))
        | inr e4 ↦ inr (inr (inr (inr (e1, e2, e3, e4))))
      ]
    ]
  ]
]

read_entity-none : (c : ℕ) (t : Str) → (c == b'&') ≡ false → read_entity (c ∷ t) ≡ none
unfolding read_entity strip_prefix
read_entity-none c t h = rw h refl

unescape_itself :
    (f c : ℕ) (t : Str)
    → read_entity (c ∷ t) ≡ none
    → unescape_from (suc f) (c ∷ t) ≡ c ∷ unescape_from f t
unfolding unescape_from
unescape_itself f c t h = rw (h, unescape_from) refl

unescape_escaped :
    (f c : ℕ) (s : Str)
    → unescape_from (suc f) (xml_escape (c ∷ s)) ≡ c ∷ unescape_from f (xml_escape s)
unfolding unescape_from read_entity strip_prefix xml_escape replace
unescape_escaped f c s = elim (four_cases c) [
  | inl e ↦ rw e refl
  | inr (inl e) ↦ rw e refl
  | inr (inr (inl e)) ↦ rw e refl
  | inr (inr (inr (inl e))) ↦ rw e refl
  | inr (inr (inr (inr (e1, e2, e3, e4)))) ↦ rw (e1) (
      rw (e2) (
        rw (e3)
          (rw (e4) (unescape_itself f c (xml_escape s) (read_entity-none c (xml_escape s) e1)))))
]

unescape_from-xml_escape : (f : ℕ) (s : Str) → length s ≤ f → unescape_from f (xml_escape s) ≡ s
unfolding xml_escape replace unescape_from
unescape_from-xml_escape zero [] h = refl
unescape_from-xml_escape (suc f) [] h = refl
unescape_from-xml_escape zero (c ∷ s) h = absurd (omega arith)
unescape_from-xml_escape (suc f) (c ∷ s) h =
    unescape_escaped f c s ∙ ap (◌∷◌ c) (unescape_from-xml_escape f s (omega arith))

escaped_step :
    (c : ℕ) (s : Str)
    → length s ≤ length (xml_escape s)
    → all (λ d. not (is_markup d)) (xml_escape s) ≡ true
    → (length (c ∷ s) ≤ length (xml_escape (c ∷ s)))
      × (all (λ d. not (is_markup d)) (xml_escape (c ∷ s)) ≡ true)
unfolding xml_escape replace
escaped_step c s h k = elim (four_cases c) [
  | inl e ↦ rw e (omega arith, k)
  | inr (inl e) ↦ rw e (omega arith, k)
  | inr (inr (inl e)) ↦ rw e (omega arith, k)
  | inr (inr (inr (inl e))) ↦ rw e (omega arith, k)
  | inr (inr (inr (inr (e1, e2, e3, e4)))) ↦
      rw (e1) (rw (e2) (rw (e3) (rw (e4) (omega arith, rw (e2, e3, e4) k))))
]

escaped_laws :
    (s : Str)
    → (length s ≤ length (xml_escape s)) × (all (λ d. not (is_markup d)) (xml_escape s) ≡ true)
unfolding xml_escape replace
escaped_laws [] = (omega arith, refl)
escaped_laws (c ∷ s) = let (longer, clean) = escaped_laws s in escaped_step c s longer clean

-- What is escaped for the plist is read back as it was, and has in it no character that would begin or
-- end a tag or end a value in quotes.
pub unescape-xml_escape :
    (s : Str) → (unescape (xml_escape s) ≡ s) × (all (λ d. not (is_markup d)) (xml_escape s) ≡ true)
unfolding unescape
unescape-xml_escape s =
    let (longer, clean) = escaped_laws s in
    (unescape_from-xml_escape (length (xml_escape s)) s longer, clean)
