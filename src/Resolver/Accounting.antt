-- ===== src/Resolver/Accounting.antt =====
-- src/resolver.rs, `DynamicResolver::clip`: the plan accounts for every observed name.
use sni_gate.Prelude.{
  ℕ, ◌≡◌, refl, ◌≢◌, ◌⊎◌, inl, inr, true, List, [], ◌∷◌, ◌++◌, none, some, Bool-cases, All,
  All-append, Any, here,
}
use sni_gate.Text.{Text}
use sni_gate.Suffix.{PublicSuffix, host_covered_by}
use sni_gate.Suffix.Coverage.{host_covered_by_iff}
use sni_gate.Router.Build.{RegexEngine}
use sni_gate.Resolver.Clip.{
  Listener, MirrorPlan, normalize_host, verdict, keep_host, clip, clip_loop, no_names,
}
use sni_gate.Resolver.Clipping.{
  Placed, loop-Placed, loop-All_kept, loop-All_dropped, Any-append_left, Any-append_right,
}

module _ (psl : PublicSuffix) (engine : RegexEngine) (self : Listener) (owner : ℕ) where
  -- Where a kept name comes from.
  abbrev pub Origin : Text → List Text → Text → Type 0
  Origin host observed k =
      (k ≡ host)
      ⊎ ((verdict psl engine self owner k ≡ none) × Any (λ san. normalize_host san ≡ k) observed)

  pub record IsAccounted (host : Text) (observed : List Text) (plan : MirrorPlan) : Type 0 where
    pub covers : host_covered_by plan.kept host ≡ true
    pub placed :
        All
          (λ san. normalize_host san ≢ [] → Placed psl engine self owner plan (normalize_host san))
          observed
    pub kept_origin : All (Origin host observed) plan.kept
    pub dropped_reason : All (λ d. verdict psl engine self owner d.0 ≡ some d.1) plan.dropped

  looped : List Text → MirrorPlan
  looped observed = clip_loop psl engine self owner no_names observed

  self_covers : (kept : List Text) (host : Text) → host_covered_by (kept ++ host ∷ []) host ≡ true
  self_covers kept host =
      (host_covered_by_iff (kept ++ host ∷ []) host).1
        (Any-append_right _ kept (host ∷ []) (here (inl refl)))

  Placed-push :
      (plan : MirrorPlan) (host name : Text)
      → Placed psl engine self owner plan name
      → Placed psl engine self owner (record plan { kept = plan.kept ++ host ∷ [] }) name
  Placed-push plan host name (inl (e, a)) = inl (e, Any-append_left _ plan.kept (host ∷ []) a)
  Placed-push plan host name (inr p) = inr p

  Placed-All :
      (plan : MirrorPlan) (host : Text) (observed : List Text)
      → All
          (λ san. normalize_host san ≢ [] → Placed psl engine self owner plan (normalize_host san))
          observed
      → All
          (λ san.
            normalize_host san ≢ []
            → Placed psl engine self owner
                (record plan { kept = plan.kept ++ host ∷ [] })
                (normalize_host san))
          observed
  Placed-All plan host [] h = tt
  Placed-All plan host (san ∷ observed) h = (
    (λ present. Placed-push plan host (normalize_host san) (h.0 present)),
    Placed-All plan host observed h.1,
  )

  keep_host-IsAccounted :
      (host : Text) (observed : List Text)
      → IsAccounted host observed (keep_host (looped observed) host)
  unfolding looped
  keep_host-IsAccounted host observed =
      elim (Bool-cases (host_covered_by (looped observed).kept host)) [
        | inl yet ↦ rw yet (record {
          covers = yet;
          placed = placed;
          kept_origin = origin;
          dropped_reason = reasons;
        })
        | inr not_yet ↦ rw not_yet (record {
          covers = self_covers (looped observed).kept host;
          placed = Placed-All (looped observed) host observed placed;
          kept_origin =
              All-append (Origin host observed) (looped observed).kept (host ∷ []) origin
                (inl refl, tt);
          dropped_reason = reasons;
        })
      ]
    where
      placed :
          All
            (λ san.
              normalize_host san ≢ []
              → Placed psl engine self owner (looped observed) (normalize_host san))
            observed
      placed = loop-Placed psl engine self owner no_names observed tt

      origin : All (Origin host observed) (looped observed).kept
      origin =
          loop-All_kept psl engine self owner (Origin host observed) no_names observed
            (λ name e a. inr (e, a)) tt

      reasons : All (λ d. verdict psl engine self owner d.0 ≡ some d.1) (looped observed).dropped
      reasons =
          loop-All_dropped psl engine self owner (λ d. verdict psl engine self owner d.0 ≡ some d.1)
            no_names observed (λ name why e. e) tt

-- The plan of `clip` covers the host that it is for, and accounts for the observation: every
-- observed name that is not empty is kept if its verdict lets it pass and is dropped with the
-- verdict's reason otherwise; every kept name is the host or an observed name that passes; every
-- dropped name has the reason that is given.
pub clip-IsAccounted :
    (psl : PublicSuffix) (engine : RegexEngine) (self : Listener) (sni_host : Text) (owner : ℕ)
    (observed : List Text)
    → IsAccounted psl engine self owner
        (normalize_host sni_host)
        observed
        (clip psl engine self sni_host owner observed)
unfolding clip looped
clip-IsAccounted psl engine self sni_host owner observed =
    keep_host-IsAccounted psl engine self owner (normalize_host sni_host) observed
