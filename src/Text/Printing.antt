-- ===== src/Text/Printing.antt =====
-- `format!` of numbers: `{}` and `{:016x}`, `as_bytes`, and `join`.
use sni_gate.Prelude.{
  ℕ, zero, suc, ◌+◌, ◌/◌, ◌%◌, ◌^◌, ◌≤◌, ◌<◌, ◌≡◌, refl, sym, ap, ◌∙◌, ◌≢◌, true, inl, inr,
  Bool-cases, ltb_of_le, ltb-true, ltb-false, List, [], ◌∷◌, ◌++◌, arith, ltb, if◌then◌else◌,
  length, length-append,
}
use sni_gate.Text.{Text}

-- A decimal digit, and a hexadecimal one.
abbrev pub digit : ℕ → ℕ
digit d = if ltb d 10 then d + b'0' else d + 87

unfoldable pub decimal_digits : ℕ → ℕ → Text
decimal_digits zero n = digit (n % 10) ∷ []
decimal_digits (suc fuel) n =
    let rest = decimal_digits fuel (n / 10) in
    if ltb n 10 then digit n ∷ [] else rest ++ digit (n % 10) ∷ []

-- A number has fewer digits than its value, 0 apart.
unfoldable pub decimal : ℕ → Text
unfolding decimal_digits
decimal n = decimal_digits n n

-- The last `width` hexadecimal digits.
unfoldable pub hex : ℕ → ℕ → Text
hex zero n = []
hex (suc width) n = hex width (n / 16) ++ digit (n % 16) ∷ []

-- The pieces of a `format!`.
unfoldable pub concat : List Text → Text
concat [] = []
concat (t ∷ ts) = t ++ concat ts

unfoldable pub join : Text → List Text → Text
join sep [] = []
join sep (t ∷ []) = t
join sep (t ∷ u ∷ ts) = t ++ sep ++ join sep (u ∷ ts)

-- The UTF-8 bytes of a character.
abbrev pub utf8_of : ℕ → List ℕ
utf8_of c =
    if ltb c 0x80
    then c ∷ []
    else if ltb c 0x800
    then (0xc0 + c / 64) ∷ (0x80 + c % 64) ∷ []
    else if ltb c 0x1_0000
    then (0xe0 + c / 4096) ∷ (0x80 + c / 64 % 64) ∷ (0x80 + c % 64) ∷ []
    else (0xf0 + c / 262144) ∷ (0x80 + c / 4096 % 64) ∷ (0x80 + c / 64 % 64) ∷ (0x80 + c % 64) ∷ []

unfoldable pub as_bytes : Text → List ℕ
as_bytes [] = []
as_bytes (c ∷ s) = utf8_of c ++ as_bytes s

pub snoc-eq : (xs ys : Text) {a b : ℕ} → xs ++ a ∷ [] ≡ ys ++ b ∷ [] → (xs ≡ ys) × (a ≡ b)
snoc-eq [] [] h = ground arith
snoc-eq [] (y ∷ ys) h = absurd (omega (arith, ap length h, length-append {0} ys (_ ∷ [])))
snoc-eq (x ∷ xs) [] h = absurd (omega (arith, ap length h, length-append {0} xs (_ ∷ [])))
snoc-eq (x ∷ xs) (y ∷ ys) {a} {b} h = ground (arith, snoc-eq xs ys {a = a} {b = b})

digit-eq : (a b : ℕ) → a < 16 → b < 16 → digit a ≡ digit b → a ≡ b
digit-eq a b ha hb h = ground arith

-- Numbers that fit are told apart by their digits.
pub hex-eq : (width a b : ℕ) → a < 16 ^ width → b < 16 ^ width → hex width a ≡ hex width b → a ≡ b
unfolding hex
hex-eq zero a b ha hb h = omega arith
hex-eq (suc width) a b ha hb h =
    let (rest, last) = snoc-eq (hex width (a / 16)) (hex width (b / 16)) h in
    let high = hex-eq width (a / 16) (b / 16) (omega arith) (omega arith) rest in
    let low = digit-eq (a % 16) (b % 16) (omega arith) (omega arith) last in omega arith

ltb_small : (a b : ℕ) → a < b → ltb a b ≡ true
ltb_small a b h = ground arith

first_eq : {a b : ℕ} → ◌≡◌ {A = Text} (a ∷ []) (b ∷ []) → a ≡ b
first_eq h = cc

small_lem : (fuel n : ℕ) → n < 10 → decimal_digits fuel n ≡ digit n ∷ []
unfolding decimal_digits
small_lem zero n h = let e : n % 10 ≡ n = omega arith in rw e refl
small_lem (suc fuel) n h = rw (decimal_digits, ltb_small n 10 h) refl

large_lem :
    (fuel n : ℕ)
    → 10 ≤ n
    → decimal_digits (suc fuel) n ≡ decimal_digits fuel (n / 10) ++ digit (n % 10) ∷ []
unfolding decimal_digits
large_lem fuel n h = rw (decimal_digits, ltb_of_le n 10 h) refl

not_empty : (fuel n : ℕ) → decimal_digits fuel n ≢ []
unfolding decimal_digits
not_empty zero n h = cc
not_empty (suc fuel) n h = elim (Bool-cases (ltb n 10)) [
  | inl small ↦ let bad = rw (decimal_digits, small) at h in cc
  | inr large ↦ snoc_not_empty (decimal_digits fuel (n / 10)) _ (rw (decimal_digits, large) at h)
]
  where
    snoc_not_empty : (xs : Text) (a : ℕ) → xs ++ a ∷ [] ≢ []
    snoc_not_empty [] a h = cc
    snoc_not_empty (x ∷ xs) a h = cc

-- A number of one digit is none of more.
one_digit : (f g a b : ℕ) → a < 10 → 10 ≤ b → b ≤ g → ¬ (decimal_digits f a ≡ decimal_digits g b)
one_digit f zero a b small large fits h = omega arith
one_digit f (suc g) a b small large fits h =
    let spelled : digit a ∷ [] ≡ decimal_digits g (b / 10) ++ digit (b % 10) ∷ [] =
      sym (small_lem f a small) ∙ h ∙ large_lem g b large in
    let (none_left, _) = snoc-eq [] (decimal_digits g (b / 10)) spelled in
    not_empty g (b / 10) (sym none_left)

decimal_digits-eq : (f g a b : ℕ) → a ≤ f → b ≤ g → decimal_digits f a ≡ decimal_digits g b → a ≡ b
decimal_digits-eq zero g a b ha hb h = elim (Bool-cases (ltb b 10)) [
  | inl sb ↦
      let small = ltb-true b 10 sb in
      digit-eq a b (omega arith) (omega arith)
        (first_eq (sym (small_lem zero a (omega arith)) ∙ h ∙ small_lem g b small))
  | inr lb ↦ absurd (one_digit zero g a b (omega arith) (ltb-false b 10 lb) hb h)
]
decimal_digits-eq (suc f) zero a b ha hb h = elim (Bool-cases (ltb a 10)) [
  | inl sa ↦
      let small = ltb-true a 10 sa in
      digit-eq a b (omega arith) (omega arith)
        (first_eq (sym (small_lem (suc f) a small) ∙ h ∙ small_lem zero b (omega arith)))
  | inr la ↦ absurd (one_digit zero (suc f) b a (omega arith) (ltb-false a 10 la) ha (sym h))
]
decimal_digits-eq (suc f) (suc g) a b ha hb h = elim (Bool-cases (ltb a 10)) [
  | inl sa ↦ elim (Bool-cases (ltb b 10)) [
    | inl sb ↦
        let small = ltb-true a 10 sa in
        let small' = ltb-true b 10 sb in
        digit-eq a b (omega arith) (omega arith)
          (first_eq (sym (small_lem (suc f) a small) ∙ h ∙ small_lem (suc g) b small'))
    | inr lb ↦ absurd (one_digit (suc f) (suc g) a b (ltb-true a 10 sa) (ltb-false b 10 lb) hb h)
  ]
  | inr la ↦ elim (Bool-cases (ltb b 10)) [
    | inl sb ↦
        absurd (one_digit (suc g) (suc f) b a (ltb-true b 10 sb) (ltb-false a 10 la) ha (sym h))
    | inr lb ↦
        let large = ltb-false a 10 la in
        let large' = ltb-false b 10 lb in
        let (rest, last) =
          snoc-eq (decimal_digits f (a / 10)) (decimal_digits g (b / 10))
            (sym (large_lem f a large) ∙ h ∙ large_lem g b large') in
        let high = decimal_digits-eq f g (a / 10) (b / 10) (omega arith) (omega arith) rest in
        let low = digit-eq (a % 10) (b % 10) (omega arith) (omega arith) last in omega arith
  ]
]

-- Numbers are told apart by how they are written.
pub decimal-eq : (a b : ℕ) → decimal a ≡ decimal b → a ≡ b
unfolding decimal
decimal-eq a b h = decimal_digits-eq a b a b (omega arith) (omega arith) h
