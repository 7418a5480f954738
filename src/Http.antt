-- ===== src/Http.antt =====
-- crates/ferrovela-lib/src/proxy/http_utils.rs: the byte search and the two header readers.
pub mod Search
use ferro_vela.Prelude.{
  ℕ, zero, suc, ◌+◌, ◌<◌, ◌≤◌, ◌≡◌, ◌↔◌, Bool, true, false, ◌&&◌, List, [], ◌∷◌, Option, none, some,
  leb, ltb, ◌==◌, if◌then◌else◌, take, drop, length, get_elem?, unwrap_or,
}
use ferro_vela.Text.{Str, codes, str_len}
use ferro_vela.Text.Match.{starts_with, eq_ignore_ascii_case, split_at}
use ferro_vela.Text.Split.{lines, split_char, trim}
use ferro_vela.Text.Number.{parse_uint, max_u64}
use ferro_vela.Text.Utf8.{Bytes, as_bytes}
use ferro_vela.Effect.{Outcome, returns, panics}

-- `needle` stands in `haystack` at offset `i`.
abbrev pub occurs_at : Bytes → Bytes → ℕ → Bool
occurs_at haystack needle i = starts_with (drop i haystack) needle

-- The crate `memchr`, which is not part of the repository: `memmem::find` gives the offset of the
-- first occurrence, or none where there is no occurrence.
pub record Memmem : Type 0 where
  pub find : Bytes → Bytes → Option ℕ
  pub find_some :
      (h n : Bytes) {i : ℕ}
      → find h n ≡ some i
      → (i ≤ length h) × (occurs_at h n i ≡ true) × ((j : ℕ) → j < i → occurs_at h n j ≡ false)
  pub find_none : (h n : Bytes) → find h n ≡ none → (j : ℕ) → j ≤ length h → occurs_at h n j ≡ false

unfoldable find_subsequence : Memmem → Bytes → Bytes → Option ℕ
find_subsequence mem haystack needle = mem.find haystack needle

-- The test on a line, `line.len() >= 15 && line.as_bytes()[..15].eq_ignore_ascii_case(..)`.
unfoldable is_content_length : Str → Bool
unfolding str_len as_bytes eq_ignore_ascii_case
is_content_length line =
    leb 15 (str_len line)
    && eq_ignore_ascii_case (take 15 (as_bytes line)) (codes "content-length:")

-- The number behind the first colon of such a line, none if there is no piece behind a colon.
unfoldable content_length_of : Str → Option ℕ
unfolding split_char trim parse_uint
content_length_of line = elim (get_elem? (split_char b':' line) 1) [
  | none ↦ none
  | some val ↦ some (unwrap_or (parse_uint max_u64 (trim val)) 0)
]

unfoldable content_length_in : List Str → ℕ
unfolding is_content_length content_length_of
content_length_in [] = 0
content_length_in (line ∷ rest) =
    let later = content_length_in rest in
    if is_content_length line then unwrap_or (content_length_of line) later else later

unfoldable pub parse_content_length : Str → ℕ
unfolding content_length_in lines
parse_content_length headers = content_length_in (lines headers)

-- `&line[key_len + 1..]`.
abbrev slice_from : Str → ℕ → Outcome Str
slice_from line n = elim (split_at line n) [ none ↦ panics | some (a, b) ↦ returns b ]

-- `line[..key_len].eq_ignore_ascii_case(key)`, which panics inside a character.
abbrev slice_eq : Str → ℕ → Str → Outcome Bool
slice_eq line n key = elim (split_at line n) [
  | none ↦ panics
  | some (a, b) ↦ returns (eq_ignore_ascii_case a key)
]

abbrev byte_is : Option ℕ → ℕ → Bool
byte_is none c = false
byte_is (some b) c = b == c

-- One line: the value behind the colon, if the key stands in front of it.
unfoldable header_in_line : Str → Str → Outcome (Option Str)
unfolding str_len as_bytes split_at eq_ignore_ascii_case trim
header_in_line key line =
    let key_len = str_len key in
    if ltb key_len (str_len line) && byte_is (get_elem? (as_bytes line) key_len) b':'
    then elim (slice_eq line key_len key) [
      | panics ↦ panics
      | returns false ↦ returns none
      | returns true ↦ elim (slice_from line (key_len + 1)) [
        | panics ↦ panics
        | returns v ↦ returns (some (trim v))
      ]
    ]
    else returns none

unfoldable header_in : Str → List Str → Outcome (Option Str)
unfolding header_in_line
header_in key [] = returns none
header_in key (line ∷ rest) =
    let later = header_in key rest in
    elim (header_in_line key line) [
      | panics ↦ panics
      | returns (some v) ↦ returns (some v)
      | returns none ↦ later
    ]

unfoldable find_header_value : Str → Str → Outcome (Option Str)
unfolding header_in lines
find_header_value headers key = header_in key (lines headers)
