-- ===== src/Config/Labels.antt =====
-- src/config.rs, `validate_scope_pattern`: which labels are valid.
use sni_gate.Prelude.{
  ◌≡◌, refl, ap, ◌≢◌, inl, inr, Bool, true, false, ◌||◌, [], ==_iff, ◌∷◌, ◌++◌, ok, all, All,
  Bool-cases,
}
use sni_gate.Text.{Text, codes, starts_with, ends_with}
use sni_gate.Text.Parts.{ends_with_iff}
use sni_gate.Config.Scope.{is_label_char, check_label}

-- A label: letters, digits and hyphens, none of these at an end.
pub record IsScopeLabel (label : Text) : Type 0 where
  pub chars : All (λ c. is_label_char c ≡ true) label
  pub nonempty : label ≢ []
  pub start : (rest : Text) → label ≢ b'-' ∷ rest
  pub end : (rest : Text) → label ≢ rest ++ codes "-"

chars-all : (s : Text) → all is_label_char s ≡ true → All (λ c. is_label_char c ≡ true) s
chars-all [] h = tt
chars-all (c ∷ s) h = elim (Bool-cases (is_label_char c)) [
  | inl y ↦ (y, chars-all s (rw y at h))
  | inr n ↦ cc (rw n at h)
]

all_chars : (s : Text) → All (λ c. is_label_char c ≡ true) s → all is_label_char s ≡ true
all_chars [] h = refl
all_chars (c ∷ s) h = rw h.0 (all_chars s h.1)

pub check_label-IsScopeLabel : (label : Text) → check_label label ≡ ok tt → IsScopeLabel label
check_label-IsScopeLabel [] h = cc
check_label-IsScopeLabel (c ∷ s) h =
    elim (Bool-cases (starts_with b'-' (c ∷ s) || ends_with (codes "-") (c ∷ s))) [
      | inl bad ↦ cc (rw bad at h)
      | inr good ↦ elim (Bool-cases (all is_label_char (c ∷ s))) [
        | inr other ↦ cc (rw (good, other) at h)
        | inl chars ↦ record {
          chars = chars-all (c ∷ s) chars;
          nonempty = λ e. cc;
          start = λ rest e. at_start rest (starts_with b'-' (c ∷ s)) refl e good;
          end = λ rest e. at_end rest e good;
        }
      ]
    ]
  where
    at_start :
        (rest : Text) (b : Bool)
        → starts_with b'-' (c ∷ s) ≡ b
        → c ∷ s ≡ b'-' ∷ rest
        → b || ends_with (codes "-") (c ∷ s) ≡ false
        → ⊥
    at_start rest true q e g = cc
    at_start rest false q e g = cc (q, ap (starts_with b'-') e)

    at_end :
        (rest : Text)
        → c ∷ s ≡ rest ++ codes "-"
        → starts_with b'-' (c ∷ s) || ends_with (codes "-") (c ∷ s) ≡ false
        → ⊥
    at_end rest e g =
        absurd_or (starts_with b'-' (c ∷ s)) _ ((ends_with_iff (codes "-") (c ∷ s)).1 (rest, e)) g
      where
        absurd_or : (a b : Bool) → b ≡ true → a || b ≡ false → ⊥
        absurd_or true b q g = cc
        absurd_or false b q g = cc

pub check_label_of_IsScopeLabel : (label : Text) → IsScopeLabel label → check_label label ≡ ok tt
check_label_of_IsScopeLabel [] i = absurd (i.nonempty refl)
check_label_of_IsScopeLabel (c ∷ s) i = rw (all_chars (c ∷ s) i.chars, not_start, not_end) refl
  where
    not_start : starts_with b'-' (c ∷ s) ≡ false
    not_start = elim (Bool-cases (starts_with b'-' (c ∷ s))) [
      | inr other ↦ other
      | inl hit ↦ absurd (i.start s (ap (λ x. x ∷ s) ((==_iff c b'-').0 hit)))
    ]

    not_end : ends_with (codes "-") (c ∷ s) ≡ false
    not_end = elim (Bool-cases (ends_with (codes "-") (c ∷ s))) [
      | inr other ↦ other
      | inl hit ↦ let (rest, e) = (ends_with_iff (codes "-") (c ∷ s)).0 hit in absurd (i.end rest e)
    ]
