-- ===== src/Text/Numbers.antt =====
-- `str::parse` for the unsigned integers, `rsplit_once`, and what they return.
use sni_gate.Prelude.{
  ℕ, ◌+◌, ◌-◌, ◌*◌, ◌≡◌, refl, subst, inl, inr, Bool, true, false, ◌&&◌, [], ◌∷◌, ◌++◌, Option,
  none, some, arith, ltb, leb, ◌==◌, if◌then◌else◌, Bool-cases, Option-cases,
}
use sni_gate.Text.{Text, codes}
use sni_gate.Text.Parts.{Lacks}

abbrev pub is_digit : ℕ → Bool
is_digit c = leb b'0' c && leb c b'9'

-- The loop over the digits; `limit` is one past the largest value of the type.
unfoldable pub parse_digits : ℕ → ℕ → Text → Option ℕ
parse_digits limit value [] = some value
parse_digits limit value (c ∷ s) =
    let next = value * 10 + (c - b'0') in
    let rest = parse_digits limit next s in if is_digit c && ltb next limit then rest else none

-- `s.parse::<u8>()` with limit 256, `s.parse::<u16>()` with limit 65536: a plus may stand in front.
unfoldable pub parse_uint : ℕ → Text → Option ℕ
unfolding parse_digits
parse_uint limit [] = none
parse_uint limit (c ∷ []) = parse_digits limit 0 (c ∷ [])
parse_uint limit (c ∷ d ∷ s) =
    if c == b'+' then parse_digits limit 0 (d ∷ s) else parse_digits limit 0 (c ∷ d ∷ s)

-- At the last occurrence, which belongs to neither part.
abbrev pub or_here : ℕ → ℕ → Text → Option (Text × Text) → Option (Text × Text)
or_here c d s (some (a, b)) = some (d ∷ a, b)
or_here c d s none = if d == c then some ([], s) else none

unfoldable pub rsplit_once : ℕ → Text → Option (Text × Text)
rsplit_once c [] = none
rsplit_once c (d ∷ s) = or_here c d s (rsplit_once c s)

pub rsplit_once_of_Lacks : (c : ℕ) (s : Text) → Lacks c s → rsplit_once c s ≡ none
unfolding rsplit_once
rsplit_once_of_Lacks c [] h = refl
rsplit_once_of_Lacks c (d ∷ s) h = rw (rsplit_once_of_Lacks c s h.1) (ground arith)

pub rsplit_once-append : (c : ℕ) (a b : Text) → Lacks c b → rsplit_once c (a ++ c ∷ b) ≡ some (a, b)
unfolding rsplit_once
rsplit_once-append c [] b h = rw (rsplit_once_of_Lacks c b h) (ground arith)
rsplit_once-append c (d ∷ a) b h = rw (rsplit_once-append c a b h) refl

pub rsplit_once-none : (c : ℕ) (s : Text) → rsplit_once c s ≡ none → Lacks c s
unfolding rsplit_once
rsplit_once-none c [] h = tt
rsplit_once-none c (d ∷ s) h = elim (Option-cases (rsplit_once c s)) [
  | inl miss ↦ ground (arith, rsplit_once-none c s)
  | inr ((a, b), hit) ↦ ground arith
]

pub rsplit_once-some :
    (c : ℕ) (s : Text) {a b : Text} → rsplit_once c s ≡ some (a, b) → (s ≡ a ++ c ∷ b) × Lacks c b
unfolding rsplit_once
rsplit_once-some c [] h = cc
rsplit_once-some c (d ∷ s) {a = a} {b = b} h = elim (Option-cases (rsplit_once c s)) [
  | inl miss ↦ ground (arith, rsplit_once-none c s)
  | inr ((a', b'), hit) ↦ ground (arith, rsplit_once-some c s {a = a'} {b = b'} hit)
]

parse_digits-Lacks :
    (limit value c : ℕ) (s : Text) {n : ℕ}
    → is_digit c ≡ false
    → parse_digits limit value s ≡ some n
    → Lacks c s
unfolding parse_digits
parse_digits-Lacks limit value c [] d h = tt
parse_digits-Lacks limit value c (e ∷ s) d h =
    let next = value * 10 + (e - b'0') in
    elim (Bool-cases (is_digit e && ltb next limit)) [
      | inl more ↦ (
        λ same. digit c d _ (subst (λ x. is_digit x && ltb next limit ≡ true) same more),
        parse_digits-Lacks limit next c s d (rw more at h),
      )
      | inr stop ↦ cc (rw stop at h)
    ]
  where
    digit : (c : ℕ) → is_digit c ≡ false → (b : Bool) → is_digit c && b ≡ true → ⊥
    digit c d b h = cc (rw d at h)

-- A number has only digits, behind a plus at most.
pub parse_uint-Lacks :
    (limit c : ℕ) (s : Text) {n : ℕ}
    → is_digit c ≡ false
    → (b'+' == c) ≡ false
    → parse_uint limit s ≡ some n
    → Lacks c s
unfolding parse_uint
parse_uint-Lacks limit c [] d p h = tt
parse_uint-Lacks limit c (e ∷ []) d p h = parse_digits-Lacks limit 0 c (e ∷ []) d h
parse_uint-Lacks limit c (e ∷ f ∷ s) d p h = elim (Bool-cases (e == b'+')) [
  | inl plus ↦ (λ same. ground arith, parse_digits-Lacks limit 0 c (f ∷ s) d (rw plus at h))
  | inr other ↦ parse_digits-Lacks limit 0 c (e ∷ f ∷ s) d (rw other at h)
]

number_tests :
    (parse_uint 65536 (codes "443") ≡ some 443)
    × (parse_uint 65536 (codes "+65535") ≡ some 65535)
    × (parse_uint 65536 (codes "65536") ≡ none)
    × (parse_uint 65536 (codes "+") ≡ none)
    × (parse_uint 256 (codes "9x") ≡ none)
unfolding parse_uint
number_tests = (refl, refl, refl, refl, refl)
