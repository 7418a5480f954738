-- ===== src/Ui/Hosts.antt =====
-- The hosts of the exceptions are read back from the text that shows them.
use ferro_vela.Prelude.{
  ℕ, ◌≡◌, refl, ap, ◌∙◌, inl, inr, false, List, [], ◌∷◌, ◌++◌, map, ◌==◌, Bool-cases, All,
}
use ferro_vela.Text.{Str, is_empty, is_whitespace}
use ferro_vela.Text.Laws.{IsTrimmed, trim_id}
use ferro_vela.Text.Match.{contains_char}
use ferro_vela.Text.Split.{split_char, split_by, cons_head, trim, drop_while}
use ferro_vela.Ui.Startup.{join_hosts}
use ferro_vela.Ui.Forms.{hosts_of, full_pieces}

-- A text that is kept by `trim` and is not empty.
abbrev pub IsClean : Str → Type 0
IsClean s = IsTrimmed s × (is_empty s ≡ false)

-- A host that can stand between commas.
abbrev pub IsHost : Str → Type 0
IsHost s = IsClean s × (contains_char s b',' ≡ false)

no_comma :
    (c : ℕ) (a : Str)
    → contains_char (c ∷ a) b',' ≡ false
    → ((c == b',') ≡ false) × (contains_char a b',' ≡ false)
unfolding contains_char
no_comma c a h = elim (Bool-cases (c == b',')) [
  | inl comma ↦ cc (rw comma at h)
  | inr other ↦ (other, rw other at h)
]

spaced : (s : Str) → split_char b',' (b' ' ∷ s) ≡ cons_head b' ' (split_char b',' s)
unfolding split_char split_by
spaced s = refl

split_before :
    (a rest : Str)
    → contains_char a b',' ≡ false
    → split_char b',' (a ++ (b',' ∷ rest)) ≡ a ∷ split_char b',' rest
unfolding split_char split_by contains_char
split_before [] rest h = refl
split_before (c ∷ a) rest h =
    let (this, later) = no_comma c a h in rw this (ap (cons_head c) (split_before a rest later))

split_whole : (a : Str) → contains_char a b',' ≡ false → split_char b',' a ≡ a ∷ []
unfolding split_char split_by contains_char
split_whole [] h = refl
split_whole (c ∷ a) h =
    let (this, later) = no_comma c a h in rw this (ap (cons_head c) (split_whole a later))

-- The pieces of a list of hosts: all but the first have a space in front.
split-join_hosts :
    (h : Str) (hs : List Str)
    → All IsHost (h ∷ hs)
    → split_char b',' (join_hosts (h ∷ hs)) ≡ h ∷ map (λ s. b' ' ∷ s) hs
unfolding join_hosts
split-join_hosts h [] (host, _) = split_whole h host.1
split-join_hosts h (k ∷ hs) (host, hosts) =
    split_before h (b' ' ∷ join_hosts (k ∷ hs)) host.1
    ∙ ap (λ l. h ∷ l)
        (spaced (join_hosts (k ∷ hs)) ∙ ap (cons_head b' ') (split-join_hosts k hs hosts))

trim_spaced : (s : Str) → IsClean s → trim (b' ' ∷ s) ≡ s
unfolding trim is_whitespace drop_while
trim_spaced s h = trim_id s h.0

full_pieces_spaced : (hs : List Str) → All IsHost hs → full_pieces (map (λ s. b' ' ∷ s) hs) ≡ hs
full_pieces_spaced [] h = refl
full_pieces_spaced (s ∷ hs) (host, hosts) =
    rw (trim_spaced s host.0, host.0.1) (ap (◌∷◌ s) (full_pieces_spaced hs hosts))

-- Hosts without commas and without white space at their ends are read back as they were.
pub hosts_of-join_hosts :
    (h : Str) (hs : List Str) → All IsHost (h ∷ hs) → hosts_of (join_hosts (h ∷ hs)) ≡ h ∷ hs
unfolding hosts_of
hosts_of-join_hosts h hs (host, hosts) =
    ap full_pieces (split-join_hosts h hs (host, hosts))
    ∙ rw (trim_id h host.0.0, host.0.1) (ap (◌∷◌ h) (full_pieces_spaced hs hosts))
