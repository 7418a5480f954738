-- ===== src/Text/Utf8.antt =====
-- UTF-8: `str::as_bytes` and `String::from_utf8_lossy`, which puts U+FFFD for each maximal part of
-- an ill-formed sequence.
use ferro_vela.Prelude.{
  ℕ, zero, suc, ◌+◌, ◌-◌, ◌*◌, ◌/◌, ◌%◌, ◌≤◌, ◌<◌, ◌≡◌, refl, inl, inr, false, ◌||◌, Option, none,
  some, List, [], ◌∷◌, ◌++◌, arith, ltb, ◌==◌, if◌then◌else◌, Bool-cases,
}
use ferro_vela.Text.{Str, str_eq, str_eq_iff, between}

abbrev pub Bytes : Type 0
Bytes = List ℕ

-- What one character is written as.
unfoldable encode_utf8 : ℕ → Bytes
encode_utf8 c =
    if ltb c 0x80
    then c ∷ []
    else if ltb c 0x800
    then (0xC0 + c / 64) ∷ (0x80 + c % 64) ∷ []
    else if ltb c 0x10000
    then (0xE0 + c / 4096) ∷ (0x80 + c / 64 % 64) ∷ (0x80 + c % 64) ∷ []
    else (0xF0 + c / 262144) ∷ (0x80 + c / 4096 % 64) ∷ (0x80 + c / 64 % 64) ∷ (0x80 + c % 64) ∷ []

-- `s.as_bytes()`.
unfoldable pub as_bytes : Str → Bytes
unfolding encode_utf8
as_bytes [] = []
as_bytes (c ∷ s) = encode_utf8 c ++ as_bytes s

-- The decoder between two bytes: how many more are wanted, the range of the next one, the value so
-- far. With `need` zero it stands between two characters.
pub record Decoder : Type 0 where
  pub need : ℕ
  pub low : ℕ
  pub high : ℕ
  pub value : ℕ

abbrev idle : Decoder
idle = record { need = 0; low = 0x80; high = 0xBF; value = 0 }

abbrev wait : ℕ → ℕ → ℕ → ℕ → Decoder
wait n lo hi v = record { need = n; low = lo; high = hi; value = v }

abbrev replacement : ℕ
replacement = 0xFFFD

-- A byte that begins a character.
unfoldable lead : ℕ → Str × Decoder
lead b =
    if ltb b 0x80
    then (b ∷ [], idle)
    else if between 0xC2 0xDF b
    then ([], wait 1 0x80 0xBF (b - 0xC0))
    else if b == 0xE0
    then ([], wait 2 0xA0 0xBF 0)
    else if between 0xE1 0xEC b || between 0xEE 0xEF b
    then ([], wait 2 0x80 0xBF (b - 0xE0))
    else if b == 0xED
    then ([], wait 2 0x80 0x9F 13)
    else if b == 0xF0
    then ([], wait 3 0x90 0xBF 0)
    else if between 0xF1 0xF3 b
    then ([], wait 3 0x80 0xBF (b - 0xF0))
    else if b == 0xF4
    then ([], wait 3 0x80 0x8F 4)
    else (replacement ∷ [], idle)

-- A byte inside a character, with that many behind it; one out of range ends the sequence and
-- begins a new one.
pub follow : ℕ → Decoder → ℕ → Str × Decoder
unfolding lead
follow more d b =
    if between d.low d.high b
    then (if more == 0
        then ((d.value * 64 + (b - 0x80)) ∷ [], idle)
        else ([], wait more 0x80 0xBF (d.value * 64 + (b - 0x80))))
    else (replacement ∷ (lead b).0, (lead b).1)

abbrev decode_byte : ℕ → Decoder → ℕ → Str × Decoder
decode_byte zero d b = lead b
decode_byte (suc more) d b = follow more d b

-- At the end of the input a sequence that is not complete is replaced too.
abbrev decode_end : ℕ → Str
decode_end zero = []
decode_end (suc n) = replacement ∷ []

unfoldable decode_from : Decoder → Bytes → Str
unfolding follow
decode_from d [] = decode_end d.need
decode_from d (b ∷ s) = let step = decode_byte d.need d b in step.0 ++ decode_from step.1 s

-- `String::from_utf8_lossy(bytes)`.
unfoldable pub from_utf8_lossy : Bytes → Str
unfolding decode_from
from_utf8_lossy s = decode_from idle s

-- `String::from_utf8(bytes)`: none where the bytes are not well formed, which is where the lossy
-- reading replaces some of them and so is written otherwise.
unfoldable pub from_utf8 : Bytes → Option Str
unfolding from_utf8_lossy as_bytes
from_utf8 s = let text = from_utf8_lossy s in if str_eq (as_bytes text) s then some text else none

pub as_bytes-from_utf8 : (s : Bytes) {text : Str} → from_utf8 s ≡ some text → as_bytes text ≡ s
unfolding from_utf8
as_bytes-from_utf8 s {text} h = elim (Bool-cases (str_eq (as_bytes (from_utf8_lossy s)) s)) [
  | inl e ↦ (str_eq_iff (as_bytes text) s).0 (ground arith)
  | inr e ↦ absurd (ground arith)
]

lead_broken : (b : ℕ) → 0x80 ≤ b → b < 0xC2 → lead b ≡ (replacement ∷ [], idle)
unfolding lead
lead_broken b h k = ground arith

unlike : (b : ℕ) (s t : Bytes) → b < 0xC2 → str_eq (0xEF ∷ s) (b ∷ t) ≡ false
unfolding str_eq
unlike b s t h = ground arith

-- Bytes that begin inside a character are no text.
pub from_utf8_broken : (b : ℕ) (rest : Bytes) → 0x80 ≤ b → b < 0xC2 → from_utf8 (b ∷ rest) ≡ none
unfolding from_utf8 from_utf8_lossy decode_from as_bytes encode_utf8
from_utf8_broken b rest h k = rw (lead_broken b h k) (rw (unlike b _ rest k) refl)
