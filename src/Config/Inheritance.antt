-- ===== src/Config/Inheritance.antt =====
-- What a route, a resolver and a probe inherit from the scopes around them.
use sni_gate.Prelude.{◌≡◌, refl, ap, inl, inr, Bool-cases, List, [], ◌∷◌, Option, none, some}
use sni_gate.Prelude.Options.{or_else}
use sni_gate.Prelude.Tiers.{find_map, flatten, and_then}
use sni_gate.Text.{Text}
use sni_gate.Config.Tables.{CommonOpts, EchConfig, Template, Route, Listener, Global, ResolverDef}
use sni_gate.Config.Verify.{merge}
use sni_gate.Config.Ladder.{effective_route_type, dials_tls, ech_of_tiers, effective_verify}
use sni_gate.Config.Resolvers.{mapped, own_ech, effective_of_def, resolve_probe_ech}

-- The name that a certificate is verified against comes from the route and its template alone.
pub effective_verify-name :
    (g g' : Global) (l l' : Listener) (r : Route) (rt lt lt' : Option Template)
    → (effective_verify g l r rt lt).name ≡ (effective_verify g' l' r rt lt').name
unfolding effective_verify merge
effective_verify-name g g' l l' r rt lt lt' =
    elim (Bool-cases (dials_tls (effective_route_type r rt))) [
      | inl tls ↦ rw (effective_verify, tls) refl
      | inr other ↦ rw (effective_verify, other) refl
    ]

or_else_none {ℓ} : {A : Type ℓ} (o : Option A) → or_else o none ≡ o
or_else_none none = refl
or_else_none (some a) = refl

own_ech-tiers :
    (ge : Option EchConfig) (e : EchConfig)
    → own_ech ge e ≡ ech_of_tiers (flatten (some e ∷ ge ∷ []))
unfolding ech_of_tiers find_map flatten
own_ech-tiers none e = refl
own_ech-tiers (some g) e =
    rw
      (
        or_else_none g.mode,
        or_else_none g.config,
        or_else_none g.ech_domain,
        or_else_none g.max_retries,
      )
      refl

-- A resolver and a probe with the same `[ech]` block have the same ECH settings, which are those
-- that a route would have from that block and the global one alone.
pub effective_of_def-tiers :
    (def : ResolverDef) (name : Text) (g : Global) (e : EchConfig)
    → def.ech ≡ some e
    → let own = effective_of_def def name g in
      let probe = resolve_probe_ech e g in
      (own.ech ≡ some (ech_of_tiers (flatten (some e ∷ g.ech ∷ []))))
      × (own.ech ≡ some probe.settings)
      × (own.require_ech ≡ probe.require_ech)
      × (own.ech_refresh ≡ probe.ech_refresh)
      × (own.ech_resolver ≡ probe.ech_resolver)
unfolding effective_of_def resolve_probe_ech
effective_of_def-tiers def name g e h = (
  rw (effective_of_def, h) (ap some (own_ech-tiers g.ech e)),
  rw (effective_of_def, h) refl,
  rw (effective_of_def, h) refl,
  rw (effective_of_def, h) refl,
  rw (effective_of_def, h) refl,
)

-- The scopes of a route that carry common options, deepest first.
abbrev pub scopes_of :
    Global → Listener → Route → Option Template → Option Template → List CommonOpts
scopes_of g l r rt lt = flatten (
    some r.common
    ∷ mapped (λ t. t.common) rt
    ∷ some l.common
    ∷ mapped (λ t. t.common) lt
    ∷ some g.common
    ∷ [])

-- The `[ech]` blocks of those scopes, deepest first.
abbrev pub blocks_of :
    Global → Listener → Route → Option Template → Option Template → List EchConfig
blocks_of g l r rt lt =
    flatten (r.ech ∷ and_then rt (λ t. t.ech) ∷ l.ech ∷ and_then lt (λ t. t.ech) ∷ g.ech ∷ [])
