-- ===== src/Bytes/Utf8.antt =====
-- `std::str::from_utf8`: the well-formed byte sequences of the Unicode standard (table 3-7), and the
-- code points that they stand for.
use sni_gate.Prelude.{
  ℕ, zero, suc, ◌+◌, ◌-◌, ◌*◌, ◌≡◌, refl, ◌<◌, Bool, ◌&&◌, List, [], ◌∷◌, Option, none, some, arith,
  ltb, leb, if◌then◌else◌, length, All,
}
use sni_gate.Text.{Text, consed_text}

abbrev between : ℕ → ℕ → ℕ → Bool
between lo hi c = leb lo c && leb c hi

abbrev tail_byte : ℕ → Bool
tail_byte = between 0x80 0xbf

two_bytes : ℕ → List ℕ → Option (ℕ × List ℕ)
two_bytes a (b ∷ s) = if tail_byte b then some ((a - 0xc0) * 64 + (b - 0x80), s) else none
two_bytes a [] = none

-- The second byte has a narrower range after `e0` and `ed`.
three_bytes : ℕ → List ℕ → Option (ℕ × List ℕ)
three_bytes a (b ∷ c ∷ s) =
    if between (if leb a 0xe0 then 0xa0 else 0x80) (if leb 0xed a && leb a 0xed then 0x9f else 0xbf)
        b
      && tail_byte c
    then some (((a - 0xe0) * 64 + (b - 0x80)) * 64 + (c - 0x80), s)
    else none
three_bytes a _ = none

-- And after `f0` and `f4`.
four_bytes : ℕ → List ℕ → Option (ℕ × List ℕ)
four_bytes a (b ∷ c ∷ d ∷ s) =
    if between (if leb a 0xf0 then 0x90 else 0x80) (if leb 0xf4 a then 0x8f else 0xbf) b
      && tail_byte c
      && tail_byte d
    then some ((((a - 0xf0) * 64 + (b - 0x80)) * 64 + (c - 0x80)) * 64 + (d - 0x80), s)
    else none
four_bytes a _ = none

-- The first character, with the rest.
unfoldable pub next_char : ℕ → List ℕ → Option (ℕ × List ℕ)
unfolding two_bytes three_bytes four_bytes
next_char a s =
    if ltb a 0x80
    then some (a, s)
    else if between 0xc2 0xdf a
    then two_bytes a s
    else if between 0xe0 0xef a
    then three_bytes a s
    else if between 0xf0 0xf4 a
    then four_bytes a s
    else none

unfoldable pub decode_from : ℕ → List ℕ → Option Text
unfolding next_char
decode_from fuel [] = some []
decode_from zero (a ∷ s) = none
decode_from (suc fuel) (a ∷ s) = elim (next_char a s) [
  | none ↦ none
  | some (c, rest) ↦ consed_text c (decode_from fuel rest)
]

-- A round for every byte.
unfoldable pub from_utf8 : List ℕ → Option Text
unfolding decode_from
from_utf8 b = decode_from (length b) b

decode_from_ascii : (s : List ℕ) → All (λ c. c < 0x80) s → decode_from (length s) s ≡ some s
unfolding decode_from next_char
decode_from_ascii [] h = refl
decode_from_ascii (c ∷ s) h = ground (arith, decode_from_ascii s h.1)

-- ASCII is its own encoding.
pub from_utf8_ascii : (s : List ℕ) → All (λ c. c < 0x80) s → from_utf8 s ≡ some s
unfolding from_utf8
from_utf8_ascii s h = decode_from_ascii s h

utf8_tests :
    (from_utf8 (0xc3 ∷ 0xa9 ∷ b'x' ∷ []) ≡ some (0xe9 ∷ b'x' ∷ []))
    × (from_utf8 (0xe2 ∷ 0x82 ∷ 0xac ∷ []) ≡ some (0x20ac ∷ []))
    × (from_utf8 (0xf0 ∷ 0x9f ∷ 0x98 ∷ 0x80 ∷ []) ≡ some (0x1f600 ∷ []))
    × (from_utf8 (0xc0 ∷ 0x80 ∷ []) ≡ none)
    × (from_utf8 (0xed ∷ 0xa0 ∷ 0x80 ∷ []) ≡ none)
    × (from_utf8 (0xff ∷ []) ≡ none)
unfolding from_utf8
utf8_tests = (refl, refl, refl, refl, refl, refl)
