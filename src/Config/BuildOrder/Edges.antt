-- ===== src/Config/BuildOrder/Edges.antt =====
-- The edges of a resolver are its references to other resolvers, in another order.
use sni_gate.Prelude.{
  suc, ◌≤◌, ◌≡◌, refl, ◌⊎◌, inl, inr, Bool, true, false, List, [], ◌∷◌, Option, none, some, arith,
  Bool-cases, length, All, Any, here, there,
}
use sni_gate.Prelude.Tiers.{and_then, flatten}
use sni_gate.Text.{Text, text_eq, text_leb, insert_sorted, sort}
use sni_gate.Text.Parts.{text_eq→eq}
use sni_gate.Text.Sorting.{All-sort}
use sni_gate.Config.Tables.{ResolverDef}
use sni_gate.Config.Resolvers.{references, is_resolver_ref}
use sni_gate.Config.BuildOrder.{filter, unless_first, dedup, edges}

length-insert_sorted : (t : Text) (ts : List Text) → length (insert_sorted t ts) ≡ suc (length ts)
unfolding insert_sorted
length-insert_sorted t [] = refl
length-insert_sorted t (u ∷ us) = ground (arith, length-insert_sorted t us)

pub length-sort : (ts : List Text) → length (sort ts) ≡ length ts
unfolding sort
length-sort [] = refl
length-sort (t ∷ ts) = omega (arith, length-insert_sorted t (sort ts), length-sort ts)

length-filter : (p : Text → Bool) (ts : List Text) → length (filter p ts) ≤ length ts
unfolding filter
length-filter p [] = omega arith
length-filter p (t ∷ ts) = ground (arith, length-filter p ts)

length-unless_first : (t : Text) (ts : List Text) → length (unless_first t ts) ≤ suc (length ts)
length-unless_first t [] = omega arith
length-unless_first t (u ∷ us) = ground arith

length-dedup : (ts : List Text) → length (dedup ts) ≤ length ts
unfolding dedup
length-dedup [] = omega arith
length-dedup (t ∷ ts) = omega (arith, length-unless_first t (dedup ts), length-dedup ts)

length-references : (def : ResolverDef) → length (references def) ≤ 2
unfolding references flatten
length-references def = length_two def.bootstrap (and_then def.ech (λ e. e.ech_resolver))
  where
    length_two : (a b : Option Text) → length (flatten (a ∷ b ∷ [])) ≤ 2
    length_two none none = omega arith
    length_two none (some b) = omega arith
    length_two (some a) none = omega arith
    length_two (some a) (some b) = omega arith

pub length-edges : (def : ResolverDef) → length (edges def) ≤ 2
unfolding edges
length-edges def =
    let kept = filter is_resolver_ref (references def) in
    omega (
      arith,
      length-dedup (sort kept),
      length-sort kept,
      length-filter is_resolver_ref (references def),
      length-references def,
    )

module _ {ℓ} (P : Text → Type ℓ) where
  All-unless_first : (t : Text) (ts : List Text) → All P (unless_first t ts) → P t × All P ts
  All-unless_first t [] h = h
  All-unless_first t (u ∷ us) h = elim (Bool-cases (text_eq t u)) [
    | inl same ↦
        let e = text_eq→eq t u same in
        let h' : P t × All P us = rw same at h in (h'.0, (rw (← e) h'.0, h'.1))
    | inr other ↦ rw other at h
  ]

  All-dedup : (ts : List Text) → All P (dedup ts) → All P ts
  unfolding dedup
  All-dedup [] h = tt
  All-dedup (t ∷ ts) h =
      let (first, rest) = All-unless_first t (dedup ts) h in (first, All-dedup ts rest)

  All-filter :
      (p : Text → Bool) (ts : List Text) → All P (filter p ts) → All (λ t. (p t ≡ false) ⊎ P t) ts
  unfolding filter
  All-filter p [] h = tt
  All-filter p (t ∷ ts) h = elim (Bool-cases (p t)) [
    | inl kept ↦
        let h' : P t × All P (filter p ts) = rw kept at h in (inr h'.0, All-filter p ts h'.1)
    | inr dropped ↦ (inl dropped, All-filter p ts (rw dropped at h))
  ]

  pub All-edges :
      (def : ResolverDef)
      → All P (edges def)
      → All (λ e. (is_resolver_ref e ≡ false) ⊎ P e) (references def)
  unfolding edges
  All-edges def h =
      All-filter is_resolver_ref (references def)
        (All-sort P (filter is_resolver_ref (references def)) (All-dedup _ h))

  Any-cases : {t : Text} {us : List Text} → Any P (t ∷ us) → P t ⊎ Any P us
  Any-cases (here h) = inl h
  Any-cases (there h) = inr h

  Any-insert_sorted : (t : Text) (us : List Text) → Any P (insert_sorted t us) → P t ⊎ Any P us
  unfolding insert_sorted
  Any-insert_sorted t [] h = Any-cases h
  Any-insert_sorted t (u ∷ us) h = elim (Bool-cases (text_leb t u)) [
    | inl first ↦ Any-cases (rw first at h)
    | inr later ↦ elim (Any-cases (rw later at h)) [
      | inl p ↦ inr (here p)
      | inr p ↦ elim (Any-insert_sorted t us p) [ inl q ↦ inl q | inr q ↦ inr (there q) ]
    ]
  ]

  Any-sort : (ts : List Text) → Any P (sort ts) → Any P ts
  unfolding sort
  Any-sort [] h = h
  Any-sort (t ∷ ts) h = elim (Any-insert_sorted t (sort ts) h) [
    | inl p ↦ here p
    | inr p ↦ there (Any-sort ts p)
  ]

  Any-unless_first : (t : Text) (us : List Text) → Any P (unless_first t us) → P t ⊎ Any P us
  Any-unless_first t [] h = Any-cases h
  Any-unless_first t (u ∷ us) h = elim (Bool-cases (text_eq t u)) [
    | inl same ↦ elim (Any-cases (rw same at h)) [ inl p ↦ inl p | inr p ↦ inr (there p) ]
    | inr other ↦ Any-cases (rw other at h)
  ]

  Any-dedup : (ts : List Text) → Any P (dedup ts) → Any P ts
  unfolding dedup
  Any-dedup [] h = h
  Any-dedup (t ∷ ts) h = elim (Any-unless_first t (dedup ts) h) [
    | inl p ↦ here p
    | inr p ↦ there (Any-dedup ts p)
  ]

  Any-filter :
      (p : Text → Bool) (ts : List Text) → Any P (filter p ts) → Any (λ t. (p t ≡ true) × P t) ts
  unfolding filter
  Any-filter p [] h = elim h [ ]
  Any-filter p (t ∷ ts) h = elim (Bool-cases (p t)) [
    | inl kept ↦ elim (Any-cases (rw kept at h)) [
      | inl q ↦ here (kept, q)
      | inr q ↦ there (Any-filter p ts q)
    ]
    | inr dropped ↦ there (Any-filter p ts (rw dropped at h))
  ]

  pub Any-edges :
      (def : ResolverDef)
      → Any P (edges def)
      → Any (λ e. (is_resolver_ref e ≡ true) × P e) (references def)
  unfolding edges
  Any-edges def h =
      Any-filter is_resolver_ref (references def)
        (Any-sort (filter is_resolver_ref (references def)) (Any-dedup _ h))
