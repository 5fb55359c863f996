-- ===== src/Text/Order.antt =====
-- The order of texts is total, so that sorting forgets the order of a list.
use mathlib.Core.List.{Permᴰ}
use sni_gate.Prelude.{
  ◌≡◌, refl, ap, ◌∙◌, ◌⊎◌, inl, inr, true, false, List, [], ◌∷◌, arith, Bool-cases, if◌then◌else◌,
}
use sni_gate.Text.{Text, text_leb, insert_sorted, sort}

text_leb_total : (s t : Text) → (text_leb s t ≡ true) ⊎ (text_leb t s ≡ true)
text_leb_total [] t = inl refl
text_leb_total (a ∷ s) [] = inr refl
text_leb_total (a ∷ s) (b ∷ t) = ground (arith, text_leb_total s t)

text_leb_antisym : (s t : Text) → text_leb s t ≡ true → text_leb t s ≡ true → s ≡ t
text_leb_antisym [] [] h k = refl
text_leb_antisym [] (b ∷ t) h k = cc
text_leb_antisym (a ∷ s) [] h k = cc
text_leb_antisym (a ∷ s) (b ∷ t) h k = ground (arith, text_leb_antisym s t)

text_leb_trans : (s t u : Text) → text_leb s t ≡ true → text_leb t u ≡ true → text_leb s u ≡ true
text_leb_trans [] t u h k = refl
text_leb_trans (a ∷ s) [] u h k = cc
text_leb_trans (a ∷ s) (b ∷ t) [] h k = cc
text_leb_trans (a ∷ s) (b ∷ t) (c ∷ u) h k = ground (arith, text_leb_trans s t u)

-- Of two texts the order decides which comes first.
pair_swap :
    (a b : Text) (us : List Text)
    → (if text_leb a b then a ∷ b ∷ us else b ∷ a ∷ us)
      ≡ (if text_leb b a then b ∷ a ∷ us else a ∷ b ∷ us)
pair_swap a b us = elim (Bool-cases (text_leb a b)) [
  | inl ab ↦ elim (Bool-cases (text_leb b a)) [
    | inl ba ↦ rw (ab, ba, text_leb_antisym a b ab ba) refl
    | inr ba ↦ rw (ab, ba) refl
  ]
  | inr ab ↦ elim (text_leb_total a b) [
    | inl ab' ↦ let bad : false ≡ true = rw ab at ab' in cc
    | inr ba ↦ rw (ab, ba) refl
  ]
]

-- What stays in front of `u` is not behind what goes in front of it.
not_below : (a b u : Text) → text_leb b u ≡ true → text_leb a u ≡ false → text_leb a b ≡ false
not_below a b u bu au = elim (Bool-cases (text_leb a b)) [
  | inl ab ↦ let bad : false ≡ true = rw au at (text_leb_trans a b u ab bu) in cc
  | inr ab ↦ ab
]

insert_sorted-swap :
    (a b : Text) (us : List Text)
    → insert_sorted a (insert_sorted b us) ≡ insert_sorted b (insert_sorted a us)
unfolding insert_sorted
insert_sorted-swap a b [] = pair_swap a b []
insert_sorted-swap a b (u ∷ us) = elim (Bool-cases (text_leb b u)) [
  | inl bu ↦ elim (Bool-cases (text_leb a u)) [
    | inl au ↦ rw (insert_sorted, bu, au) (rw bu (pair_swap a b (u ∷ us)))
    | inr au ↦ rw (insert_sorted, bu, au) (rw (not_below a b u bu au) (rw bu refl))
  ]
  | inr bu ↦ elim (Bool-cases (text_leb a u)) [
    | inl au ↦ rw (insert_sorted, bu, au) (rw (not_below b a u au bu) (rw bu refl))
    | inr au ↦ rw (insert_sorted, bu, au) (rw bu (ap (λ r. u ∷ r) (insert_sorted-swap a b us)))
  ]
]

-- Two lists that differ in order alone are sorted alike.
pub sort-Permᴰ : {ts us : List Text} → Permᴰ ts us → sort ts ≡ sort us
unfolding sort
sort-Permᴰ Permᴰ.nil = refl
sort-Permᴰ (Permᴰ.cons {b = b} e p) = rw e (ap (insert_sorted b) (sort-Permᴰ p))
sort-Permᴰ (Permᴰ.swap {a' = a'} {b' = b'} {l = l} e e') =
    rw (e, e') (insert_sorted-swap b' a' (sort l))
sort-Permᴰ (Permᴰ.trans p q) = sort-Permᴰ p ∙ sort-Permᴰ q
