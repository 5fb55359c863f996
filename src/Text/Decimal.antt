-- ===== src/Text/Decimal.antt =====
-- `str::parse` for the unsigned integers, against the decimal numerals.
use sni_gate.Prelude.{
  ℕ, ◌+◌, ◌-◌, ◌*◌, ◌<◌, ◌≤◌, ◌≡◌, refl, sym, ap, subst, ◌∙◌, ◌≢◌, ◌⊎◌, ◌↔◌, inl, inr, true, false,
  [], ◌∷◌, some, all, arith, ltb, ltb-true, ◌==◌, ==_iff, Bool-cases,
}
use sni_gate.Text.{Text}
use sni_gate.Text.Numbers.{is_digit, parse_digits, parse_uint}

-- What digits say, behind those that say `value`.
abbrev pub decimal : ℕ → Text → ℕ
decimal value [] = value
decimal value (c ∷ s) = decimal (value * 10 + (c - b'0')) s

-- Decimal digits, one at least, that may follow a plus, and say a number below the limit.
pub record IsNumeral (limit : ℕ) (s : Text) (n : ℕ) : Type 0 where
  pub digits : Text
  pub spelled : (s ≡ digits) ⊎ (s ≡ b'+' ∷ digits)
  pub some_digit : digits ≢ []
  pub all_digits : all is_digit digits ≡ true
  pub says : decimal 0 digits ≡ n
  pub fits : n < limit

decimal_grows : (value : ℕ) (s : Text) → value ≤ decimal value s
decimal_grows value [] = omega arith
decimal_grows value (c ∷ s) =
    let more = decimal_grows (value * 10 + (c - b'0')) s in omega (arith, more)

parse_digits-some :
    (limit value : ℕ) (s : Text) {n : ℕ}
    → value < limit
    → parse_digits limit value s ≡ some n
    → (all is_digit s ≡ true) × (decimal value s ≡ n) × (n < limit)
unfolding parse_digits
parse_digits-some limit value [] {n = n} lt h =
    let same : value ≡ n = cc in (refl, same, subst (λ x. x < limit) same lt)
parse_digits-some limit value (c ∷ s) {n = n} lt h =
    let next = value * 10 + (c - b'0') in
    elim (Bool-cases (is_digit c)) [
      | inr other ↦ cc (rw other at h)
      | inl digit ↦ elim (Bool-cases (ltb next limit)) [
        | inr over ↦ cc (rw (digit, over) at h)
        | inl room ↦
            let (all_more, same, fits) =
              parse_digits-some limit next s {n = n} (ltb-true next limit room)
                (rw (digit, room) at h) in
            (rw digit all_more, same, fits)
      ]
    ]

parse_digits_of :
    (limit value : ℕ) (s : Text)
    → all is_digit s ≡ true
    → decimal value s < limit
    → parse_digits limit value s ≡ some (decimal value s)
unfolding parse_digits
parse_digits_of limit value [] h lt = refl
parse_digits_of limit value (c ∷ s) h lt =
    let next = value * 10 + (c - b'0') in
    elim (Bool-cases (is_digit c)) [
      | inr other ↦ cc (rw other at h)
      | inl digit ↦
          let grows = decimal_grows next s in
          let room : ltb next limit ≡ true = ground arith in
          rw (digit, room) (parse_digits_of limit next s (rw digit at h) lt)
    ]

plain :
    (limit : ℕ) (s : Text) {n : ℕ}
    → 0 < limit
    → s ≢ []
    → parse_digits limit 0 s ≡ some n
    → IsNumeral limit s n
plain limit s lt ne h =
    let (digits, same, fits) = parse_digits-some limit 0 s lt h in
    record {
      digits = s;
      spelled = inl refl;
      some_digit = ne;
      all_digits = digits;
      says = same;
      fits = fits;
    }

parse_uint-IsNumeral :
    (limit : ℕ) (s : Text) {n : ℕ} → 0 < limit → parse_uint limit s ≡ some n → IsNumeral limit s n
unfolding parse_uint
parse_uint-IsNumeral limit [] lt h = cc
parse_uint-IsNumeral limit (c ∷ []) lt h = plain limit (c ∷ []) lt (λ e. cc) h
parse_uint-IsNumeral limit (c ∷ d ∷ s) lt h = elim (Bool-cases (c == b'+')) [
  | inr other ↦ plain limit (c ∷ d ∷ s) lt (λ e. cc) (rw other at h)
  | inl plus ↦
      let (digits, same, fits) = parse_digits-some limit 0 (d ∷ s) lt (rw plus at h) in
      record {
        digits = d ∷ s;
        spelled = inr (ap (λ x. x ∷ d ∷ s) ((==_iff c b'+').0 plus));
        some_digit = λ e. cc;
        all_digits = digits;
        says = same;
        fits = fits;
      }
]

-- A numeral without a plus does not start with one.
parse_uint_of_digits :
    (limit : ℕ) (s : Text)
    → s ≢ []
    → all is_digit s ≡ true
    → parse_uint limit s ≡ parse_digits limit 0 s
unfolding parse_uint
parse_uint_of_digits limit [] ne h = absurd (ne refl)
parse_uint_of_digits limit (c ∷ []) ne h = refl
parse_uint_of_digits limit (c ∷ d ∷ s) ne h = elim (Bool-cases (c == b'+')) [
  | inr other ↦ rw other refl
  | inl plus ↦
      let other : is_digit c ≡ false = ap is_digit ((==_iff c b'+').0 plus) in cc (rw other at h)
]

parse_uint_of_plus :
    (limit : ℕ) (s : Text) → s ≢ [] → parse_uint limit (b'+' ∷ s) ≡ parse_digits limit 0 s
unfolding parse_uint
parse_uint_of_plus limit [] ne = absurd (ne refl)
parse_uint_of_plus limit (d ∷ s) ne = refl

-- An unsigned integer is parsed exactly from the numerals below its limit.
pub parse_uint_iff :
    (limit : ℕ) (s : Text) (n : ℕ) → 0 < limit → (parse_uint limit s ≡ some n) ↔ IsNumeral limit s n
parse_uint_iff limit s n lt = (
  parse_uint-IsNumeral limit s lt,
  λ k.
      let parsed =
        parse_digits_of limit 0 k.digits k.all_digits (subst (λ x. x < limit) (sym k.says) k.fits)
        ∙ ap (λ x. some x) k.says in
      elim k.spelled [
        | inl e ↦
            ap (parse_uint limit) e
            ∙ parse_uint_of_digits limit k.digits k.some_digit k.all_digits
            ∙ parsed
        | inr e ↦ ap (parse_uint limit) e ∙ parse_uint_of_plus limit k.digits k.some_digit ∙ parsed
      ],
)
