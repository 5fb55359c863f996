-- ===== src/Text.antt =====
-- Rust's `str` and `String` as the source uses them: a text is the list of its code points, and
-- the operations are those of the standard library (`str::trim`, `split_once`, `strip_suffix`, ...).
pub mod Parts
pub mod Trimming
pub mod Sorting
pub mod Casing
pub mod Decimal
pub mod Numbers
pub mod Printing
pub mod Order
use sni_gate.Prelude.{
  ℕ, ◌+◌, Bool, true, false, ◌&&◌, ◌||◌, List, [], ◌∷◌, map, Option, none, some, ltb, leb, ◌==◌,
  if◌then◌else◌, any, is_some,
}
use Prim.Native.Char.{code}
use Prim.Native.String.{String}

abbrev pub Text : Type 0
Text = List ℕ

-- A literal.
abbrev pub codes : String → Text
codes String.[] = []
codes (String.◌∷◌ c s) = code c ∷ codes s

abbrev pub text_eq : Text → Text → Bool
text_eq [] [] = true
text_eq (a ∷ s) (b ∷ t) = a == b && text_eq s t
text_eq _ _ = false

-- The characters with Unicode's White_Space property.
unfoldable pub is_space : ℕ → Bool
is_space c =
    (leb 9 c && leb c 13)
    || c == 0x20
    || c == 0x85
    || c == 0xa0
    || c == 0x1680
    || (leb 0x2000 c && leb c 0x200a)
    || c == 0x2028
    || c == 0x2029
    || c == 0x202f
    || c == 0x205f
    || c == 0x3000

unfoldable pub lower : ℕ → ℕ
lower c = if leb b'A' c && leb c b'Z' then c + 32 else c

unfoldable pub to_ascii_lowercase : Text → Text
unfolding lower
to_ascii_lowercase = map lower

unfoldable pub trim_start_by : (ℕ → Bool) → Text → Text
trim_start_by p [] = []
trim_start_by p (c ∷ s) = let rest = trim_start_by p s in if p c then rest else c ∷ s

abbrev pub keep_unless : (ℕ → Bool) → ℕ → Text → Text
keep_unless p c [] = if p c then [] else c ∷ []
keep_unless p c (d ∷ s) = c ∷ d ∷ s

unfoldable pub trim_end_by : (ℕ → Bool) → Text → Text
trim_end_by p [] = []
trim_end_by p (c ∷ s) = keep_unless p c (trim_end_by p s)

unfoldable pub trim : Text → Text
unfolding trim_start_by trim_end_by is_space
trim s = trim_end_by is_space (trim_start_by is_space s)

-- `trim_end_matches('.')`.
unfoldable pub trim_end_dots : Text → Text
unfolding trim_end_by
trim_end_dots = trim_end_by (λ c. c == b'.')

unfoldable pub contains : ℕ → Text → Bool
contains c s = any (λ d. d == c) s

abbrev pub starts_with : ℕ → Text → Bool
starts_with c [] = false
starts_with c (d ∷ s) = d == c

abbrev pub strip_prefix : Text → Text → Option Text
strip_prefix [] s = some s
strip_prefix (c ∷ p) [] = none
strip_prefix (c ∷ p) (d ∷ s) = if c == d then strip_prefix p s else none

abbrev consed : ℕ → Option (Text × Text) → Option (Text × Text)
consed c none = none
consed c (some (a, b)) = some (c ∷ a, b)

-- At the first occurrence, which belongs to neither part.
unfoldable pub split_once : ℕ → Text → Option (Text × Text)
split_once c [] = none
split_once c (d ∷ s) = if d == c then some ([], s) else consed d (split_once c s)

-- `split(c).next()`: the part before the first occurrence, or the whole.
unfoldable pub split_first : ℕ → Text → Text
split_first c [] = []
split_first c (d ∷ s) = if d == c then [] else d ∷ split_first c s

abbrev pub consed_text : ℕ → Option Text → Option Text
consed_text c none = none
consed_text c (some a) = some (c ∷ a)

unfoldable pub strip_suffix : Text → Text → Option Text
strip_suffix suffix [] = if text_eq [] suffix then some [] else none
strip_suffix suffix (c ∷ s) =
    if text_eq (c ∷ s) suffix then some [] else consed_text c (strip_suffix suffix s)

unfoldable pub ends_with : Text → Text → Bool
unfolding strip_suffix
ends_with suffix s = is_some (strip_suffix suffix s)

-- `Ord` of `str`: the order of the code points is the order of the UTF-8 bytes.
abbrev pub text_leb : Text → Text → Bool
text_leb [] t = true
text_leb (a ∷ s) [] = false
text_leb (a ∷ s) (b ∷ t) = ltb a b || (a == b && text_leb s t)

unfoldable pub insert_sorted : Text → List Text → List Text
insert_sorted t [] = t ∷ []
insert_sorted t (u ∷ us) = if text_leb t u then t ∷ u ∷ us else u ∷ insert_sorted t us

-- `sort_unstable`: equal texts are the same text, so stability makes no difference.
unfoldable pub sort : List Text → List Text
unfolding insert_sorted
sort [] = []
sort (t ∷ ts) = insert_sorted t (sort ts)

-- `rsplit(c).next()`: the part behind the last occurrence, or the whole.
unfoldable pub split_last : ℕ → Text → Text
unfolding contains
split_last c [] = []
split_last c (d ∷ s) =
    let rest = split_last c s in if contains c s then rest else if d == c then s else d ∷ s
