-- ===== src/Router/Entries.antt =====
-- What a lookup finds in a `HashMap`.
use sni_gate.Prelude.{
  ◌≡◌, refl, subst, inl, inr, [], ◌∷◌, some, arith, Bool-cases, if◌then◌else◌, In, here, there, All,
  All_map, is_some, true,
}
use sni_gate.Text.{Text, text_eq}
use sni_gate.Text.Parts.{text_eq_iff, text_eq→eq, text_eq_refl}
use sni_gate.Router.Table.{HashMap, get, insert, keys}

module _ {ℓ} {V : Type ℓ} where
  pub get-insert :
      (m : HashMap V) (k : Text) (v : V) (j : Text)
      → get (insert m k v) j ≡ (if text_eq k j then some v else get m j)
  unfolding get insert
  get-insert [] k v j = refl
  get-insert ((i, w) ∷ m) k v j =
      ground (arith, text_eq_iff k j, text_eq_iff i k, text_eq_iff i j, get-insert m k v j)

  pub get-In : (m : HashMap V) (k : Text) {v : V} → get m k ≡ some v → In k (keys m)
  unfolding get
  get-In [] k h = cc
  get-In ((j, w) ∷ m) k h = elim (Bool-cases (text_eq j k)) [
    | inl hit ↦ here (text_eq→eq j k hit)
    | inr miss ↦ there (get-In m k (rw miss at h))
  ]

  -- Looking up a key of the map succeeds.
  pub get-keys : (m : HashMap V) → All (λ k. is_some (get m k) ≡ true) (keys m)
  unfolding get
  get-keys [] = tt
  get-keys ((j, w) ∷ m) =
      (rw (text_eq_refl j) refl, All_map (λ k h. ground (arith, h)) (keys m) (get-keys m))

  -- What holds of every entry holds of the one that a lookup finds.
  pub get-All {κ} :
      (P : Text × V → Type κ) (m : HashMap V) (n : Text) {v : V}
      → All P m
      → get m n ≡ some v
      → P (n, v)
  unfolding get
  get-All P [] n all h = cc
  get-All P ((j, w) ∷ m) n {v} all h = elim (Bool-cases (text_eq j n)) [
    | inl hit ↦
        let e : w ≡ v = let h' = rw hit at h in cc in
        subst (λ x. P (n, x)) e (subst (λ x. P (x, w)) (text_eq→eq j n hit) all.0)
    | inr miss ↦ get-All P m n all.1 (rw miss at h)
  ]
