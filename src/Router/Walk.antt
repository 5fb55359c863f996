-- ===== src/Router/Walk.antt =====
-- src/router.rs, the loop over `cur` in `match_host` and `wildcard_confined`: it finds the longest
-- entry of the table that is the host or a parent domain of it.
use sni_gate.Prelude.{
  ℕ, zero, suc, ◌≤◌, ◌<◌, ◌≡◌, refl, sym, ap, subst, ◌∙◌, ◌≢◌, ◌⊎◌, inl, inr, [], ◌∷◌, ◌++◌, Option,
  none, some, arith, length, length-append, Option-cases,
}
use sni_gate.Text.{Text, split_once}
use sni_gate.Text.Parts.{Lacks, split_once-some, split_once-none}
use sni_gate.Router.Table.{HashMap, get}
use sni_gate.Router.Matching.{suffix_walk}

-- `d` is `h` itself or what stands behind one of its dots.
abbrev pub IsDomainOf : Text → Text → Type 0
IsDomainOf d h = (h ≡ d) ⊎ ((x : Text) × (h ≡ x ++ b'.' ∷ d))

pub record IsLongest (m : HashMap ℕ) (h d : Text) (id : ℕ) : Type 0 where
  pub hit : get m d ≡ some id
  pub domain : IsDomainOf d h
  pub longest : (d' : Text) → IsDomainOf d' h → get m d' ≢ none → length d' ≤ length d

-- What a walk over the domains of `h` may answer.
abbrev pub Walked : HashMap ℕ → Text → Option (Text × ℕ) → Type 0
Walked m h none = (d : Text) → IsDomainOf d h → get m d ≡ none
Walked m h (some (d, id)) = IsLongest m h d id

-- Two splits of a text at a dot, the first one at its first dot.
split_again :
    (a rest x d : Text)
    → Lacks b'.' a
    → a ++ b'.' ∷ rest ≡ x ++ b'.' ∷ d
    → (rest ≡ d) ⊎ ((y : Text) × (rest ≡ y ++ b'.' ∷ d))
split_again [] rest [] d h e = inl (ground arith)
split_again [] rest (c ∷ x) d h e = inr (x, ground arith)
split_again (c ∷ a) rest [] d h e = absurd (h.0 (ground arith))
split_again (c ∷ a) rest (c' ∷ x) d h e = split_again a rest x d h.1 (ground arith)

pub no_dot : (x d s : Text) → Lacks b'.' s → s ≢ x ++ b'.' ∷ d
no_dot [] d [] h e = cc
no_dot [] d (c ∷ s) h e = h.0 (ground arith)
no_dot (c ∷ x) d [] h e = cc
no_dot (c ∷ x) d (c' ∷ s) h e = no_dot x d s h.1 (ground arith)

pub IsDomainOf-of_Lacks : {d h : Text} → Lacks b'.' h → IsDomainOf d h → h ≡ d
IsDomainOf-of_Lacks {d} {h} l (inl e) = e
IsDomainOf-of_Lacks {d} {h} l (inr (x, e)) = absurd (no_dot x d h l e)

-- One label off: the domains of `a.rest` are itself and those of `rest`.
pub IsDomainOf-split :
    (a rest d : Text)
    → Lacks b'.' a
    → IsDomainOf d (a ++ b'.' ∷ rest)
    → (a ++ b'.' ∷ rest ≡ d) ⊎ IsDomainOf d rest
IsDomainOf-split a rest d h (inl e) = inl e
IsDomainOf-split a rest d h (inr (x, e)) = inr (split_again a rest x d h e)

append_regroup : (a x t : Text) → a ++ b'.' ∷ (x ++ t) ≡ (a ++ b'.' ∷ x) ++ t
append_regroup [] x t = refl
append_regroup (c ∷ a) x t = ap (λ s. c ∷ s) (append_regroup a x t)

pub IsDomainOf-under : (a rest d : Text) → IsDomainOf d rest → IsDomainOf d (a ++ b'.' ∷ rest)
IsDomainOf-under a rest d (inl e) = inr (a, ap (λ s. a ++ b'.' ∷ s) e)
IsDomainOf-under a rest d (inr (x, e)) =
    inr (a ++ b'.' ∷ x, ap (λ s. a ++ b'.' ∷ s) e ∙ append_regroup a x (b'.' ∷ d))

pub length-domain : (d h : Text) → IsDomainOf d h → length d ≤ length h
length-domain d h (inl e) = omega (arith, ap length e)
length-domain d h (inr (x, e)) = omega (arith, ap length e, length-append {0} x (b'.' ∷ d))

-- A miss at the host itself hands the question on to the domain behind the first dot.
Walked-under :
    (m : HashMap ℕ) (a rest : Text) (o : Option (Text × ℕ))
    → Lacks b'.' a
    → get m (a ++ b'.' ∷ rest) ≡ none
    → Walked m rest o
    → Walked m (a ++ b'.' ∷ rest) o
Walked-under m a rest none l miss w =
    λ d h. elim (IsDomainOf-split a rest d l h) [ inl e ↦ rw (← e) miss | inr k ↦ w d k ]
Walked-under m a rest (some (d, id)) l miss w = record {
  hit = w.hit;
  domain = IsDomainOf-under a rest d w.domain;
  longest = λ d' h present. elim (IsDomainOf-split a rest d' l h) [
    | inl e ↦ absurd (present (rw (← e) miss))
    | inr k ↦ w.longest d' k present
  ];
}

module _ (fuel : ℕ) (m : HashMap ℕ) (h : Text) where
  pub walk-hit : {id : ℕ} → get m h ≡ some id → suffix_walk (suc fuel) m h ≡ some (h, id)
  unfolding suffix_walk
  walk-hit e = ground arith

  pub walk-stop : get m h ≡ none → split_once b'.' h ≡ none → suffix_walk (suc fuel) m h ≡ none
  unfolding suffix_walk
  walk-stop e k = ground arith

  pub walk-next :
      {a rest : Text}
      → get m h ≡ none
      → split_once b'.' h ≡ some (a, rest)
      → suffix_walk (suc fuel) m h ≡ suffix_walk fuel m rest
  unfolding suffix_walk
  walk-next e k = ground arith

pub length-under :
    (a rest h : Text) (n : ℕ) → h ≡ a ++ b'.' ∷ rest → length h < suc n → length rest < n
length-under a rest h n e lt = omega (arith, ap length e, length-append {0} a (b'.' ∷ rest))

-- With more rounds than the host has characters the walk answers: the longest entry that is the
-- host or a parent domain of it, or that there is none.
pub suffix_walk-Walked :
    (fuel : ℕ) (m : HashMap ℕ) (h : Text) → length h < fuel → Walked m h (suffix_walk fuel m h)
suffix_walk-Walked zero m h lt = absurd (omega arith)
suffix_walk-Walked (suc fuel) m h lt = elim (Option-cases (get m h)) [
  | inr (id, e) ↦
      rw (walk-hit fuel m h e)
        (record { hit = e; domain = inl refl; longest = λ d' k _. length-domain d' h k })
  | inl miss ↦ elim (Option-cases (split_once b'.' h)) [
    | inl done ↦
        rw (walk-stop fuel m h miss done)
          λ d k. rw (← IsDomainOf-of_Lacks (split_once-none b'.' h done) k) miss
    | inr ((a, rest), e) ↦
        let (eq, l) = split_once-some b'.' h e in
        let rec = suffix_walk-Walked fuel m rest (length-under a rest h fuel eq lt) in
        rw (walk-next fuel m h miss e) (
          subst (λ s. Walked m s (suffix_walk fuel m rest)) (sym eq)
            (Walked-under m a rest _ l (rw (← eq) miss) rec))
  ]
]

-- Rounds past the last label make no difference.
pub suffix_walk-fuel :
    (f f' : ℕ) (m : HashMap ℕ) (h : Text)
    → length h < f
    → length h < f'
    → suffix_walk f m h ≡ suffix_walk f' m h
suffix_walk-fuel zero f' m h lt lt' = absurd (omega arith)
suffix_walk-fuel (suc f) zero m h lt lt' = absurd (omega arith)
suffix_walk-fuel (suc f) (suc f') m h lt lt' = elim (Option-cases (get m h)) [
  | inr (id, e) ↦ walk-hit f m h e ∙ sym (walk-hit f' m h e)
  | inl miss ↦ elim (Option-cases (split_once b'.' h)) [
    | inl done ↦ walk-stop f m h miss done ∙ sym (walk-stop f' m h miss done)
    | inr ((a, rest), e) ↦
        let (eq, _) = split_once-some b'.' h e in
        walk-next f m h miss e
        ∙ suffix_walk-fuel f f' m rest (length-under a rest h f eq lt)
            (length-under a rest h f' eq lt')
        ∙ sym (walk-next f' m h miss e)
  ]
]

-- A table with no entry stops every walk.
pub suffix_walk-empty : (fuel : ℕ) (h : Text) → suffix_walk fuel [] h ≡ none
suffix_walk-empty zero h = unfold suffix_walk in refl
suffix_walk-empty (suc fuel) h = elim (Option-cases (split_once b'.' h)) [
  | inl done ↦ walk-stop fuel [] h (unfold get in refl) done
  | inr ((a, rest), e) ↦ walk-next fuel [] h (unfold get in refl) e ∙ suffix_walk-empty fuel rest
]
