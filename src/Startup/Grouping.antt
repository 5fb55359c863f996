-- ===== src/Startup/Grouping.antt =====
-- src/main.rs, `group_probe_targets`: routes with one backend share a probe that asks no less.
use sni_gate.Prelude.{
  ◌≤◌, ◌≡◌, refl, sym, inl, inr, true, false, List, [], ◌∷◌, arith, Bool-cases, All, All-In, Any,
  here, there, In, In-append_left, In-append_right, subst,
}
use sni_gate.Startup.Parts.{ProbeTarget}
use sni_gate.Startup.Strictness.{
  strength, stricter-left, stricter-right, stricter-cases, off_lem, same_key_refl,
}
use sni_gate.Startup.Probes.{
  ProbeKey, ProbeGroup, same_key, probe_key, new_group, join_group, add_target, add_targets,
  group_probe_targets,
}

-- The group asks for all that the target asks for.
abbrev pub Covers : ProbeTarget → ProbeKey × ProbeGroup → Type 0
Covers t (k, g) =
    (same_key k (probe_key t) ≡ true)
    × (strength t.policy ≤ strength g.policy)
    × (t.budget ≤ g.budget)
    × In t.route g.routes

-- Some target of the group asks for its policy.
abbrev pub Demanded : List ProbeTarget → ProbeKey × ProbeGroup → Type 0
Demanded targets (k, g) =
    Any (λ t. (same_key k (probe_key t) ≡ true) × (t.policy ≡ g.policy)) targets

abbrev pub Distinct : List (ProbeKey × ProbeGroup) → Type 0
Distinct [] = Unit
Distinct ((k, g) ∷ groups) = All (λ e. same_key k e.0 ≡ false) groups × Distinct groups

joined :
    (t : ProbeTarget) (k : ProbeKey) (g : ProbeGroup)
    → same_key k (probe_key t) ≡ true
    → Covers t (k, join_group t g)
joined t k g same = (
  same,
  stricter-right g.policy t.policy,
  ground arith,
  In-append_right t.route g.routes _ (here refl),
)

add_target-Covers :
    (t : ProbeTarget) (groups : List (ProbeKey × ProbeGroup)) → Any (Covers t) (add_target t groups)
unfolding add_target
add_target-Covers t [] =
    here (joined t (probe_key t) (new_group t.resolver) (same_key_refl (probe_key t)))
add_target-Covers t ((k, g) ∷ groups) = elim (Bool-cases (same_key k (probe_key t))) [
  | inl same ↦ rw (add_target, same) (here (joined t k g same))
  | inr other ↦ rw (add_target, other) (there (add_target-Covers t groups))
]

-- A later target takes nothing away.
add_target-keeps :
    (t t' : ProbeTarget) (groups : List (ProbeKey × ProbeGroup))
    → Any (Covers t) groups
    → Any (Covers t) (add_target t' groups)
unfolding add_target
add_target-keeps t t' [] h = elim h [ ]
add_target-keeps t t' ((k, g) ∷ groups) (here (same, policy, budget, route)) =
    elim (Bool-cases (same_key k (probe_key t'))) [
      | inl hit ↦
          let le = stricter-left g.policy t'.policy in
          rw (add_target, hit)
            (here (
              same,
              omega (arith, policy, le),
              ground (arith, budget),
              In-append_left t.route g.routes _ route,
            ))
      | inr miss ↦ rw (add_target, miss) (here (same, policy, budget, route))
    ]
add_target-keeps t t' ((k, g) ∷ groups) (there h) = elim (Bool-cases (same_key k (probe_key t'))) [
  | inl hit ↦ rw (add_target, hit) (there h)
  | inr miss ↦ rw (add_target, miss) (there (add_target-keeps t t' groups h))
]

add_targets-keeps :
    (t : ProbeTarget) (targets : List ProbeTarget) (groups : List (ProbeKey × ProbeGroup))
    → Any (Covers t) groups
    → Any (Covers t) (add_targets targets groups)
unfolding add_targets
add_targets-keeps t [] groups h = h
add_targets-keeps t (t' ∷ targets) groups h =
    add_targets-keeps t targets (add_target t' groups) (add_target-keeps t t' groups h)

add_targets-Covers :
    (targets : List ProbeTarget) (groups : List (ProbeKey × ProbeGroup))
    → All (λ t. Any (Covers t) (add_targets targets groups)) targets
unfolding add_targets
add_targets-Covers [] groups = tt
add_targets-Covers (t ∷ targets) groups = (
  add_targets-keeps t targets (add_target t groups) (add_target-Covers t groups),
  add_targets-Covers targets (add_target t groups),
)

apart :
    (t : ProbeTarget) (k : ProbeKey) (groups : List (ProbeKey × ProbeGroup))
    → same_key k (probe_key t) ≡ false
    → All (λ e. same_key k e.0 ≡ false) groups
    → All (λ e. same_key k e.0 ≡ false) (add_target t groups)
unfolding add_target
apart t k [] other h = (other, tt)
apart t k ((j, g) ∷ groups) other h = elim (Bool-cases (same_key j (probe_key t))) [
  | inl hit ↦ rw (add_target, hit) (h.0, h.1)
  | inr miss ↦ rw (add_target, miss) (h.0, apart t k groups other h.1)
]

add_target-Distinct :
    (t : ProbeTarget) (groups : List (ProbeKey × ProbeGroup))
    → Distinct groups
    → Distinct (add_target t groups)
unfolding add_target
add_target-Distinct t [] h = (tt, tt)
add_target-Distinct t ((k, g) ∷ groups) h = elim (Bool-cases (same_key k (probe_key t))) [
  | inl hit ↦ rw (add_target, hit) (h.0, h.1)
  | inr miss ↦ rw (add_target, miss) (apart t k groups miss h.0, add_target-Distinct t groups h.1)
]

In-Any {ℓ κ} : {A : Type ℓ} {P : A → Type κ} (a : A) (xs : List A) → In a xs → P a → Any P xs
In-Any a [] m p = elim m [ ]
In-Any {P = P} a (x ∷ xs) (here e) p = here (subst P (sym e) p)
In-Any a (x ∷ xs) (there m) p = there (In-Any a xs m p)

module _ (targets : List ProbeTarget) where
  joined-Demanded :
      (t : ProbeTarget) (k : ProbeKey) (g : ProbeGroup)
      → In t targets
      → same_key k (probe_key t) ≡ true
      → Demanded targets (k, g)
      → Demanded targets (k, join_group t g)
  joined-Demanded t k g m same h = elim (stricter-cases g.policy t.policy) [
    | inl old ↦ rw old h
    | inr new ↦ rw new (In-Any t targets m (same, refl))
  ]

  add_target-Demanded :
      (t : ProbeTarget) (groups : List (ProbeKey × ProbeGroup))
      → In t targets
      → All (Demanded targets) groups
      → All (Demanded targets) (add_target t groups)
  unfolding add_target
  add_target-Demanded t [] m h =
      (In-Any t targets m (same_key_refl (probe_key t), sym (off_lem t.policy)), tt)
  add_target-Demanded t ((k, g) ∷ groups) m h = elim (Bool-cases (same_key k (probe_key t))) [
    | inl hit ↦ rw (add_target, hit) (joined-Demanded t k g m hit h.0, h.1)
    | inr miss ↦ rw (add_target, miss) (h.0, add_target-Demanded t groups m h.1)
  ]

  add_targets-Demanded :
      (ts : List ProbeTarget) (groups : List (ProbeKey × ProbeGroup))
      → All (λ t. In t targets) ts
      → All (Demanded targets) groups
      → Distinct groups
      → All (Demanded targets) (add_targets ts groups) × Distinct (add_targets ts groups)
  unfolding add_targets
  add_targets-Demanded [] groups m h d = (h, d)
  add_targets-Demanded (t ∷ ts) groups m h d =
      add_targets-Demanded ts (add_target t groups) m.1 (add_target-Demanded t groups m.0 h)
        (add_target-Distinct t groups d)

-- Every target has a group with its key that lists its route and asks for at least its policy and
-- its budget; the groups have pairwise different keys, and each asks for the policy of one of its
-- targets.
pub group_probe_targets-Covers :
    (targets : List ProbeTarget)
    → All (λ t. Any (Covers t) (group_probe_targets targets)) targets
      × All (Demanded targets) (group_probe_targets targets)
      × Distinct (group_probe_targets targets)
unfolding group_probe_targets
group_probe_targets-Covers targets =
    let (demanded, distinct) = add_targets-Demanded targets targets [] (All-In targets) tt tt in
    (add_targets-Covers targets [], demanded, distinct)
