-- ===== src/Text/Trimming.antt =====
-- When trimming, lowercasing and cutting leave a text as it is.
use sni_gate.Prelude.{
  Bool-cases, inl, inr, ℕ, ◌≡◌, refl, ap, ◌++◌, true, ◌≢◌, Bool, false, [], ◌∷◌, arith, All,
}
use sni_gate.Text.{
  Text, is_space, lower, to_ascii_lowercase, trim_start_by, trim_end_by, trim, trim_end_dots,
  split_first, keep_unless,
}
use sni_gate.Text.Parts.{Lacks}

abbrev pub Fails : (ℕ → Bool) → Text → Type 0
Fails p s = All (λ c. p c ≡ false) s

-- No dot at the end.
abbrev pub NoEndDot : Text → Type 0
NoEndDot [] = Unit
NoEndDot (c ∷ []) = c ≢ b'.'
NoEndDot (c ∷ d ∷ s) = NoEndDot (d ∷ s)

pub trim_start_by_of_Fails : (p : ℕ → Bool) (s : Text) → Fails p s → trim_start_by p s ≡ s
unfolding trim_start_by
trim_start_by_of_Fails p [] h = refl
trim_start_by_of_Fails p (c ∷ s) h = rw h.0

keep_of_false : (p : ℕ → Bool) (c : ℕ) (s : Text) → p c ≡ false → keep_unless p c s ≡ c ∷ s
keep_of_false p c [] h = rw h
keep_of_false p c (d ∷ s) h = refl

pub trim_end_by_of_Fails : (p : ℕ → Bool) (s : Text) → Fails p s → trim_end_by p s ≡ s
unfolding trim_end_by
trim_end_by_of_Fails p [] h = refl
trim_end_by_of_Fails p (c ∷ s) h = rw (trim_end_by_of_Fails p s h.1) (keep_of_false p c s h.0)

pub trim_of_Fails : (s : Text) → Fails is_space s → trim s ≡ s
unfolding trim
trim_of_Fails s h = rw (trim_start_by_of_Fails is_space s h) (trim_end_by_of_Fails is_space s h)

pub trim_end_dots_of_NoEndDot : (s : Text) → NoEndDot s → trim_end_dots s ≡ s
unfolding trim_end_dots
trim_end_dots_of_NoEndDot [] h = refl
trim_end_dots_of_NoEndDot (c ∷ []) h = ground arith
trim_end_dots_of_NoEndDot (c ∷ d ∷ s) h = rw (trim_end_dots_of_NoEndDot (d ∷ s) h)

pub split_first_of_Lacks : (c : ℕ) (s : Text) → Lacks c s → split_first c s ≡ s
unfolding split_first
split_first_of_Lacks c [] h = refl
split_first_of_Lacks c (d ∷ s) h = ground (arith, split_first_of_Lacks c s)

pub to_ascii_lowercase_of_All : (s : Text) → All (λ c. lower c ≡ c) s → to_ascii_lowercase s ≡ s
unfolding to_ascii_lowercase
to_ascii_lowercase_of_All [] h = refl
to_ascii_lowercase_of_All (c ∷ s) h = cc (h.0, to_ascii_lowercase_of_All s h.1)

pub trim_start_by-head :
    (p : ℕ → Bool) (c : ℕ) (s : Text) → p c ≡ false → trim_start_by p (c ∷ s) ≡ c ∷ s
unfolding trim_start_by
trim_start_by-head p c s h = rw h

-- What is kept before a character that stays.
pub trim_end_by-keep :
    (p : ℕ → Bool) (a : Text) (c : ℕ) (b : Text)
    → Fails p a
    → p c ≡ false
    → trim_end_by p (a ++ c ∷ b) ≡ a ++ c ∷ trim_end_by p b
unfolding trim_end_by
trim_end_by-keep p [] c b h k = keep_of_false p c (trim_end_by p b) k
trim_end_by-keep p (d ∷ a) c b h k =
    rw (trim_end_by-keep p a c b h.1 k) (keep_of_false p d (a ++ c ∷ trim_end_by p b) h.0)

trim_end_by-All : (p : ℕ → Bool) (t : Text) → All (λ c. p c ≡ true) t → trim_end_by p t ≡ []
unfolding trim_end_by
trim_end_by-All p [] h = refl
trim_end_by-All p (c ∷ t) h = rw (trim_end_by-All p t h.1) (rw h.0)

pub trim_end_by-drop :
    (p : ℕ → Bool) (s t : Text) → All (λ c. p c ≡ true) t → trim_end_by p (s ++ t) ≡ trim_end_by p s
unfolding trim_end_by
trim_end_by-drop p [] t h = trim_end_by-All p t h
trim_end_by-drop p (c ∷ s) t h = ap (keep_unless p c) (trim_end_by-drop p s t h)

pub split_first-append : (c : ℕ) (a b : Text) → Lacks c a → split_first c (a ++ c ∷ b) ≡ a
unfolding split_first
split_first-append c [] b h = ground arith
split_first-append c (d ∷ a) b h = ground (arith, split_first-append c a b)

trim_end_by-keep_unless :
    (p : ℕ → Bool) (c : ℕ) (s : Text)
    → trim_end_by p s ≡ s
    → trim_end_by p (keep_unless p c s) ≡ keep_unless p c s
unfolding trim_end_by
trim_end_by-keep_unless p c [] h = elim (Bool-cases (p c)) [
  | inl out ↦ rw out refl
  | inr kept ↦ rw kept (rw kept refl)
]
trim_end_by-keep_unless p c (d ∷ s) h = rw h refl

trim_end_by-again : (p : ℕ → Bool) (s : Text) → trim_end_by p (trim_end_by p s) ≡ trim_end_by p s
unfolding trim_end_by
trim_end_by-again p [] = refl
trim_end_by-again p (c ∷ s) = trim_end_by-keep_unless p c (trim_end_by p s) (trim_end_by-again p s)

trim_start_by-keep_unless :
    (p : ℕ → Bool) (c : ℕ) (s : Text)
    → p c ≡ false
    → trim_start_by p (keep_unless p c s) ≡ keep_unless p c s
unfolding trim_start_by
trim_start_by-keep_unless p c [] h = rw h (rw h refl)
trim_start_by-keep_unless p c (d ∷ s) h = rw h refl

trim_start_by-trim_end_by :
    (p : ℕ → Bool) (s : Text)
    → trim_start_by p (trim_end_by p (trim_start_by p s)) ≡ trim_end_by p (trim_start_by p s)
unfolding trim_start_by trim_end_by
trim_start_by-trim_end_by p [] = refl
trim_start_by-trim_end_by p (c ∷ s) = elim (Bool-cases (p c)) [
  | inl out ↦ rw out (trim_start_by-trim_end_by p s)
  | inr kept ↦ rw kept (trim_start_by-keep_unless p c (trim_end_by p s) kept)
]

-- Trimming a trimmed text changes nothing.
pub trim-trim : (s : Text) → trim (trim s) ≡ trim s
unfolding trim
trim-trim s =
    rw (trim_start_by-trim_end_by is_space s)
      (trim_end_by-again is_space (trim_start_by is_space s))
