-- ===== src/Text.antt =====
-- Texts as Rust's `str` holds them: a `Str` is the list of its Unicode scalar values. Lengths and
-- slice offsets count bytes of UTF-8, as `str::len` and `&s[a..b]` do. The children hold the
-- methods of the standard library that the crates call.
pub mod Match
pub mod Split
pub mod Number
pub mod Utf8
pub mod Laws
pub mod Pieces
use Prim.Native.Char.{code}
use Prim.Native.String.{String}
use ferro_vela.Prelude.{
  ℕ, ◌+◌, ◌≡◌, ◌↔◌, Bool, true, false, ◌&&◌, ◌||◌, List, [], ◌∷◌, arith, ltb, leb, ◌==◌, length,
  if◌then◌else◌, refl, ◌++◌, ◌≤◌,
}

abbrev pub Str : Type 0
Str = List ℕ

-- The scalar values of a literal.
abbrev pub codes : String → Str
codes String.[] = []
codes (String.◌∷◌ c s) = code c ∷ codes s

abbrev pub between : ℕ → ℕ → ℕ → Bool
between lo hi c = leb lo c && leb c hi

-- `char::is_whitespace`: the property White_Space.
unfoldable pub is_whitespace : ℕ → Bool
is_whitespace c =
    c == 32
    || between 9 13 c
    || c == 0x85
    || c == 0xA0
    || c == 0x1680
    || between 0x2000 0x200A c
    || c == 0x2028
    || c == 0x2029
    || c == 0x202F
    || c == 0x205F
    || c == 0x3000

-- `char::len_utf8`.
unfoldable pub len_utf8 : ℕ → ℕ
len_utf8 c = if ltb c 0x80 then 1 else if ltb c 0x800 then 2 else if ltb c 0x10000 then 3 else 4

-- `str::len`, in bytes.
unfoldable pub str_len : Str → ℕ
str_len [] = 0
str_len (c ∷ s) = len_utf8 c + str_len s

abbrev pub is_empty : Str → Bool
is_empty [] = true
is_empty (c ∷ s) = false

-- `char::to_ascii_lowercase`.
pub to_ascii_lower : ℕ → ℕ
to_ascii_lower c = if between b'A' b'Z' c then c + 32 else c

unfoldable pub str_eq : Str → Str → Bool
str_eq [] [] = true
str_eq [] (d ∷ t) = false
str_eq (c ∷ s) [] = false
str_eq (c ∷ s) (d ∷ t) = c == d && str_eq s t

pub str_eq_iff : (s t : Str) → (str_eq s t ≡ true) ↔ (s ≡ t)
unfolding str_eq
str_eq_iff (c ∷ s) (d ∷ t) = ground (arith, str_eq_iff s t)
str_eq_iff _ _ = ground arith

str_eq_refl : (s : Str) → str_eq s s ≡ true
str_eq_refl s = (str_eq_iff s s).1 refl

pub str_len-append : (s t : Str) → str_len (s ++ t) ≡ str_len s + str_len t
unfolding str_len
str_len-append [] t = omega arith
str_len-append (c ∷ s) t = omega (arith, str_len-append s t)

pub length-le-str_len : (s : Str) → length s ≤ str_len s
unfolding str_len len_utf8
length-le-str_len [] = omega arith
length-le-str_len (c ∷ s) = ground (arith, length-le-str_len s)
