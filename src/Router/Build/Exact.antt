-- ===== src/Router/Build/Exact.antt =====
-- src/router.rs, `Router::build`: the tables of a router that was built hold what the patterns say,
-- each pattern under the id of its route, and nothing else.
use sni_gate.Prelude.{
  ℕ, zero, suc, ◌+◌, ◌≡◌, refl, sym, ap, ◌∙◌, subst, ◌≢◌, ◌↔◌, ◌⊎◌, inl, inr, List, [], ◌∷◌, Option,
  none, some, arith, ok, ok_so_far, Bool-cases, get_elem?, Any, here, there,
}
use sni_gate.Text.{Text, text_eq, trim}
use sni_gate.Text.Parts.{text_eq→eq, text_eq_iff}
use sni_gate.Router.Entries.{get-insert}
use sni_gate.Router.Table.{HashMap, get}
use sni_gate.Router.Build.{
  RegexEngine, RegexDef, Router, kind_of, add_pattern, add_patterns, build_from, build, empty,
}
use sni_gate.Router.Build.Tiers.{
  Tier, exact, wildcard, suffix, table, claim, Stepped, add_kind-Stepped,
}

-- The pattern, as it is written in the configuration, takes the key in the tier.
abbrev pub Claims : Tier → Text → Text → Type 0
Claims t key pat = claim t (kind_of (trim pat)) ≡ some key

-- The entries of a tier after some steps: the old ones and the new.
abbrev pub Grown {ℓ} : Router → Router → Tier → (Text → ℕ → Type ℓ) → Type ℓ
Grown r r' t New =
    (key : Text) (v : ℕ)
    → (get (table t r') key ≡ some v) ↔ ((get (table t r) key ≡ some v) ⊎ New key v)

stepped :
    (r r' : Router) (id : ℕ) (t : Tier) (c : Option Text)
    → Stepped r r' id t c
    → Grown r r' t (λ key v. (v ≡ id) × (c ≡ some key))
stepped r r' id t none s key v =
    (λ h. inl (rw s at h), λ k. elim k [ inl old ↦ rw s old | inr (e, e') ↦ cc ])
stepped r r' id t (some key') (free, s) key v = elim (Bool-cases (text_eq key' key)) [
  | inl same ↦
      let e = text_eq→eq key' key same in
      let found : get (table t r') key ≡ some id =
        rw (s, get-insert (table t r) key' id key, same) in
      (
        λ h. inr (ground (arith, found), ap some e),
        λ k. elim k [ inl old ↦ absurd (cc (ap (get (table t r)) e)) | inr (e', _) ↦ rw e' found ],
      )
  | inr other ↦
      let kept : get (table t r') key ≡ get (table t r) key =
        rw (s, get-insert (table t r) key' id key, other) in
      (
        λ h. inl (sym kept ∙ h),
        λ k. elim k [
          | inl old ↦ kept ∙ old
          | inr (_, e') ↦ absurd (ground (arith, text_eq_iff key' key, e'))
        ],
      )
]

module _ (engine : RegexEngine) (regexes : HashMap RegexDef) (t : Tier) where
  pub add_pattern-Grown :
      (r r' : Router) (id : ℕ) (pat : Text)
      → add_pattern engine regexes r id pat ≡ ok r'
      → Grown r r' t (λ key v. (v ≡ id) × Claims t key pat)
  unfolding add_pattern
  add_pattern-Grown r r' id pat e =
      stepped r r' id t _ (add_kind-Stepped engine regexes r id (trim pat) (kind_of (trim pat)) t e)

  pub add_patterns-Grown :
      (r r' : Router) (id : ℕ) (pats : List Text)
      → add_patterns engine regexes r id pats ≡ ok r'
      → Grown r r' t (λ key v. (v ≡ id) × Any (Claims t key) pats)
  unfolding add_patterns
  add_patterns-Grown r r' id [] e key v =
      let same : r ≡ r' = cc in
      (λ h. inl (rw same h), λ k. elim k [ inl old ↦ rw (← same) old | inr (_, a) ↦ elim a [ ] ])
  add_patterns-Grown r r' id (pat ∷ pats) e key v =
      let (m, e', k) = ok_so_far (add_pattern engine regexes r id pat) _ e in
      let (to1, from1) = add_pattern-Grown r m id pat e' key v in
      let (to2, from2) = add_patterns-Grown m r' id pats k key v in
      (
        λ h. elim (to2 h) [
          | inl mid ↦ elim (to1 mid) [ inl old ↦ inl old | inr (i, c) ↦ inr (i, here c) ]
          | inr (i, a) ↦ inr (i, there a)
        ],
        λ h. elim h [
          | inl old ↦ from2 (inl (from1 (inl old)))
          | inr (i, here c) ↦ from2 (inl (from1 (inr (i, c))))
          | inr (i, there a) ↦ from2 (inr (i, a))
        ],
      )

  -- A route at or behind `id` that claims the key.
  abbrev Later : ℕ → List (List Text) → Text → ℕ → Type 0
  Later id patterns key v =
      (n : ℕ) × (pats : List Text) × (v ≡ id + n)
      × (get_elem? patterns n ≡ some pats)
      × Any (Claims t key) pats

  build_from-Grown :
      (r r' : Router) (id : ℕ) (patterns : List (List Text))
      → build_from engine regexes r id patterns ≡ ok r'
      → Grown r r' t (Later id patterns)
  unfolding build_from
  build_from-Grown r r' id [] e key v =
      let same : r ≡ r' = cc in
      (
        λ h. inl (rw same h),
        λ k. elim k [ inl old ↦ rw (← same) old | inr (n, pats, i, at, a) ↦ cc ],
      )
  build_from-Grown r r' id (pats ∷ patterns) e key v =
      let (m, e', k) = ok_so_far (add_patterns engine regexes r id pats) _ e in
      let (to1, from1) = add_patterns-Grown r m id pats e' key v in
      let (to2, from2) = build_from-Grown m r' (suc id) patterns k key v in
      (
        λ h. elim (to2 h) [
          | inl mid ↦ elim (to1 mid) [
            | inl old ↦ inl old
            | inr (i, a) ↦ inr (0, pats, omega arith, refl, a)
          ]
          | inr (n, p, i, at, a) ↦ inr (suc n, p, omega arith, at, a)
        ],
        λ h. elim h [
          | inl old ↦ from2 (inl (from1 (inl old)))
          | inr (zero, p, i, at, a) ↦
              from2 (inl (from1 (inr (omega arith, subst (Any (Claims t key)) (first at) a))))
          | inr (suc n, p, i, at, a) ↦ from2 (inr (n, p, omega arith, at, a))
        ],
      )
    where
      first : {p : List Text} → some pats ≡ some p → p ≡ pats
      first q = cc

-- A router that was built routes a key of a table to exactly the route that lists a pattern with
-- that key: for each tier that is a table, every entry comes from a pattern of its route, and every
-- pattern of every route is an entry.
pub build-table_iff :
    (engine : RegexEngine) (regexes : HashMap RegexDef) (patterns : List (List Text))
    (default : Option ℕ) (r : Router)
    → build engine regexes patterns default ≡ ok r
    → (t : Tier) (key : Text) (v : ℕ)
    → (get (table t r) key ≡ some v)
      ↔ ((pats : List Text) × (get_elem? patterns v ≡ some pats) × Any (Claims t key) pats)
unfolding build
build-table_iff engine regexes patterns default r e t key v =
    let (to, from) = build_from-Grown engine regexes t (empty default) r 0 patterns e key v in
    (
      λ h. elim (to h) [
        | inl old ↦ absurd (nothing t old)
        | inr (n, pats, i, at, a) ↦ (pats, rw (index n i) at, a)
      ],
      λ (pats, at, a). from (inr (v, pats, omega arith, at, a)),
    )
  where
    nothing : (t' : Tier) → get (table t' (empty default)) key ≢ some v
    nothing exact q = unfold get in cc
    nothing wildcard q = unfold get in cc
    nothing suffix q = unfold get in cc

    index : (n : ℕ) → v ≡ 0 + n → v ≡ n
    index n q = omega arith
