-- ===== src/Text/Casing.antt =====
-- Lowercasing commutes with trimming and cutting.
use sni_gate.Prelude.{ℕ, ◌≡◌, refl, ap, ◌∙◌, ◌⊎◌, Bool, [], ◌∷◌, arith, ◌==◌, Bool-cases, inl, inr}
use sni_gate.Text.{
  Text, is_space, lower, to_ascii_lowercase, trim_start_by, trim_end_by, trim, trim_end_dots,
  split_first, keep_unless, starts_with,
}

pub lower-lower : (c : ℕ) → lower (lower c) ≡ lower c
unfolding lower
lower-lower c = ground arith

pub is_space-lower : (c : ℕ) → is_space (lower c) ≡ is_space c
unfolding lower is_space
is_space-lower c = ground arith

-- A test for a character below the letters.
pub lower-eq : (c k : ℕ) → (k ≡ b'.') ⊎ (k ≡ b':') ⊎ (k ≡ b'[') → (lower c == k) ≡ (c == k)
unfolding lower
lower-eq c k h = ground arith

pub to_ascii_lowercase_idempotent :
    (s : Text) → to_ascii_lowercase (to_ascii_lowercase s) ≡ to_ascii_lowercase s
unfolding to_ascii_lowercase
to_ascii_lowercase_idempotent [] = refl
to_ascii_lowercase_idempotent (c ∷ s) = cc (lower-lower c, to_ascii_lowercase_idempotent s)

module _ (p : ℕ → Bool) (h : (c : ℕ) → p (lower c) ≡ p c) where
  trim_start_by-lowercase :
      (s : Text) → trim_start_by p (to_ascii_lowercase s) ≡ to_ascii_lowercase (trim_start_by p s)
  unfolding trim_start_by to_ascii_lowercase
  trim_start_by-lowercase [] = refl
  trim_start_by-lowercase (c ∷ s) = elim (Bool-cases (p c)) [
    | inl y ↦ rw (h c, y) (trim_start_by-lowercase s)
    | inr n ↦ rw (h c, n)
  ]

  keep_unless-lowercase :
      (c : ℕ) (s : Text)
      → keep_unless p (lower c) (to_ascii_lowercase s) ≡ to_ascii_lowercase (keep_unless p c s)
  unfolding to_ascii_lowercase
  keep_unless-lowercase c [] = elim (Bool-cases (p c)) [ inl y ↦ rw (h c, y) | inr n ↦ rw (h c, n) ]
  keep_unless-lowercase c (d ∷ s) = refl

  pub trim_end_by-lowercase :
      (s : Text) → trim_end_by p (to_ascii_lowercase s) ≡ to_ascii_lowercase (trim_end_by p s)
  unfolding trim_end_by to_ascii_lowercase
  trim_end_by-lowercase [] = refl
  trim_end_by-lowercase (c ∷ s) =
      ap (keep_unless p (lower c)) (trim_end_by-lowercase s)
      ∙ keep_unless-lowercase c (trim_end_by p s)

pub trim-lowercase : (s : Text) → trim (to_ascii_lowercase s) ≡ to_ascii_lowercase (trim s)
unfolding trim
trim-lowercase s =
    ap (trim_end_by is_space) (trim_start_by-lowercase is_space is_space-lower s)
    ∙ trim_end_by-lowercase is_space is_space-lower (trim_start_by is_space s)

pub trim_end_dots-lowercase :
    (s : Text) → trim_end_dots (to_ascii_lowercase s) ≡ to_ascii_lowercase (trim_end_dots s)
unfolding trim_end_dots
trim_end_dots-lowercase s =
    trim_end_by-lowercase (λ c. c == b'.') (λ c. lower-eq c b'.' (inl refl)) s

pub split_first-lowercase :
    (s : Text) → split_first b':' (to_ascii_lowercase s) ≡ to_ascii_lowercase (split_first b':' s)
unfolding split_first to_ascii_lowercase
split_first-lowercase [] = refl
split_first-lowercase (c ∷ s) = elim (Bool-cases (c == b':')) [
  | inl y ↦ rw (lower-eq c b':' (inr (inl refl)), y)
  | inr n ↦
      rw (lower-eq c b':' (inr (inl refl)), n) (ap (λ t. lower c ∷ t) (split_first-lowercase s))
]

pub starts_with-lowercase :
    (s : Text) → starts_with b'[' (to_ascii_lowercase s) ≡ starts_with b'[' s
unfolding to_ascii_lowercase
starts_with-lowercase [] = refl
starts_with-lowercase (c ∷ s) = lower-eq c b'[' (inr (inr refl))
