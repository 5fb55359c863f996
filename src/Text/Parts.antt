-- ===== src/Text/Parts.antt =====
-- What the splitting and stripping operations of `str` return, as equations between texts.
use sni_gate.Prelude.{
  ℕ, ◌≡◌, refl, ap, ◌≢◌, ◌↔◌, inl, inr, true, false, [], ◌∷◌, ◌++◌, Option, none, some, arith, ◌==◌,
  Bool-cases, Option-cases, is_some, All, length, length-append,
}
use sni_gate.Text.{Text, text_eq, contains, strip_prefix, split_once, strip_suffix, ends_with}

-- No occurrence of a character.
abbrev pub Lacks : ℕ → Text → Type 0
Lacks c s = All (λ d. d ≢ c) s

pub text_eq_refl : (s : Text) → text_eq s s ≡ true
text_eq_refl [] = refl
text_eq_refl (a ∷ s) = ground (arith, text_eq_refl s)

pub text_eq→eq : (s t : Text) → text_eq s t ≡ true → s ≡ t
text_eq→eq [] [] h = refl
text_eq→eq [] (b ∷ t) h = cc
text_eq→eq (a ∷ s) [] h = cc
text_eq→eq (a ∷ s) (b ∷ t) h = ground (arith, text_eq→eq s t)

pub text_eq_iff : (s t : Text) → (text_eq s t ≡ true) ↔ (s ≡ t)
text_eq_iff s t = (text_eq→eq s t, λ e. rw e (text_eq_refl t))

pub contains-false_iff : (c : ℕ) (s : Text) → (contains c s ≡ false) ↔ Lacks c s
unfolding contains
contains-false_iff c [] = ground arith
contains-false_iff c (d ∷ s) = ground (arith, contains-false_iff c s)

pub contains-append : (c : ℕ) (a b : Text) → contains c b ≡ true → contains c (a ++ b) ≡ true
unfolding contains
contains-append c [] b h = h
contains-append c (d ∷ a) b h = ground (arith, contains-append c a b h)

pub split_once_of_Lacks : (c : ℕ) (s : Text) → Lacks c s → split_once c s ≡ none
unfolding split_once
split_once_of_Lacks c [] h = refl
split_once_of_Lacks c (d ∷ s) h = ground (arith, split_once_of_Lacks c s)

pub split_once-append : (c : ℕ) (a b : Text) → Lacks c a → split_once c (a ++ c ∷ b) ≡ some (a, b)
unfolding split_once
split_once-append c [] b h = ground arith
split_once-append c (d ∷ a) b h = ground (arith, split_once-append c a b)

pub split_once-none : (c : ℕ) (s : Text) → split_once c s ≡ none → Lacks c s
unfolding split_once
split_once-none c [] h = tt
split_once-none c (d ∷ s) h = ground (arith, split_once-none c s, Option-cases (split_once c s))

pub split_once-some :
    (c : ℕ) (s : Text) {a b : Text} → split_once c s ≡ some (a, b) → (s ≡ a ++ c ∷ b) × Lacks c a
unfolding split_once
split_once-some c [] h = cc
split_once-some c (d ∷ s) {a} {b} h = elim (Bool-cases (d == c)) [
  | inl hit ↦ ground arith
  | inr miss ↦ elim (Option-cases (split_once c s)) [
    | inl e ↦ ground arith
    | inr ((a', b'), e) ↦ ground (arith, split_once-some c s {a = a'} {b = b'} e)
  ]
]

pub strip_suffix-append : (suffix a : Text) → strip_suffix suffix (a ++ suffix) ≡ some a
unfolding strip_suffix
strip_suffix-append suffix [] = self suffix
  where
    self : (s : Text) → strip_suffix s s ≡ some []
    self [] = refl
    self (c ∷ s) = rw (text_eq_refl (c ∷ s))
strip_suffix-append suffix (c ∷ a) = elim (Bool-cases (text_eq (c ∷ a ++ suffix) suffix)) [
  | inl same ↦ absurd (
      omega
        (arith, ap length (text_eq→eq (c ∷ a ++ suffix) suffix same), length-append {0} a suffix))
  | inr other ↦ rw other (rw (strip_suffix-append suffix a))
]

pub strip_suffix-some :
    (suffix s : Text) {a : Text} → strip_suffix suffix s ≡ some a → s ≡ a ++ suffix
unfolding strip_suffix
strip_suffix-some suffix [] {a} h = ground (arith, text_eq→eq [] suffix)
strip_suffix-some suffix (c ∷ s) {a} h = elim (Bool-cases (text_eq (c ∷ s) suffix)) [
  | inl same ↦ ground (arith, text_eq→eq (c ∷ s) suffix)
  | inr other ↦ elim (Option-cases (strip_suffix suffix s)) [
    | inl e ↦ ground arith
    | inr (l, e) ↦ ground (arith, strip_suffix-some suffix s {a = l} e)
  ]
]

pub strip_prefix-some :
    (prefix s : Text) {a : Text} → strip_prefix prefix s ≡ some a → s ≡ prefix ++ a
strip_prefix-some [] s h = ground arith
strip_prefix-some (c ∷ p) [] h = cc
strip_prefix-some (c ∷ p) (d ∷ s) {a} h = ground (arith, strip_prefix-some p s {a = a})

pub strip_prefix-append : (prefix a : Text) → strip_prefix prefix (prefix ++ a) ≡ some a
strip_prefix-append [] a = refl
strip_prefix-append (c ∷ p) a = ground (arith, strip_prefix-append p a)

pub ends_with_iff :
    (suffix s : Text) → (ends_with suffix s ≡ true) ↔ ((a : Text) × (s ≡ a ++ suffix))
unfolding ends_with
ends_with_iff suffix s = (to (strip_suffix suffix s) refl, from)
  where
    to :
        (o : Option Text)
        → strip_suffix suffix s ≡ o
        → is_some o ≡ true
        → (a : Text) × (s ≡ a ++ suffix)
    to none e h = cc
    to (some a) e h = (a, strip_suffix-some suffix s e)

    from : (a : Text) × (s ≡ a ++ suffix) → is_some (strip_suffix suffix s) ≡ true
    from (a, e) = rw e (rw (strip_suffix-append suffix a))
