-- ===== src/CertScope/Reordering.antt =====
-- The key of a scope does not depend on the order in which patterns and pins are written.
use mathlib.Core.List.{Permᴰ}
use sni_gate.Prelude.{ℕ, suc, ◌≡◌, refl, List, [], ◌∷◌, Option}
use sni_gate.Text.{Text}
use sni_gate.Text.Order.{sort-Permᴰ}
use sni_gate.Router.Table.{HashMap}
use sni_gate.Router.Build.{RegexDef}
use sni_gate.Config.Verify.{EffectiveVerify}
use sni_gate.CertScope.{
  Forwarding, canonical_verify, parts, canonical, new, route_parts, router_fingerprint,
}

-- Each route has the same patterns, in some order.
abbrev pub Reordered : List (List Text) → List (List Text) → Type 0
Reordered [] [] = Unit
Reordered (ps ∷ pats) (qs ∷ pats') = Permᴰ ps qs × Reordered pats pats'
Reordered _ _ = ⊥

route_parts-Reordered :
    (id : ℕ) (pats pats' : List (List Text))
    → Reordered pats pats'
    → route_parts id pats ≡ route_parts id pats'
unfolding route_parts
route_parts-Reordered id [] [] h = refl
route_parts-Reordered id [] (qs ∷ pats') h = absurd h
route_parts-Reordered id (ps ∷ pats) [] h = absurd h
route_parts-Reordered id (ps ∷ pats) (qs ∷ pats') h =
    rw (sort-Permᴰ h.0, route_parts-Reordered (suc id) pats pats' h.1) refl

router_fingerprint-Reordered :
    (pats pats' : List (List Text)) (default : Option ℕ) (regexes : HashMap RegexDef)
    → Reordered pats pats'
    → router_fingerprint pats default regexes ≡ router_fingerprint pats' default regexes
unfolding router_fingerprint
router_fingerprint-Reordered pats pats' default regexes h =
    rw (route_parts-Reordered 0 pats pats' h) refl

canonical_verify-Permᴰ :
    (v : EffectiveVerify) (pins : List Text)
    → Permᴰ v.pins pins
    → canonical_verify v ≡ canonical_verify (record v { pins = pins })
unfolding canonical_verify
canonical_verify-Permᴰ v pins h = rw (sort-Permᴰ h) refl

-- Writing the patterns of the routes, or the pins, in another order gives the same scope.
pub new-Reordered :
    (pats pats' : List (List Text)) (default : Option ℕ) (regexes : HashMap RegexDef)
    → (f : Forwarding) (pins : List Text) → Reordered pats pats'
    → Permᴰ f.verify.pins pins
    → new (router_fingerprint pats default regexes) f
      ≡ new
          (router_fingerprint pats' default regexes)
          (record f { verify = record f.verify { pins = pins } })
unfolding new canonical parts
new-Reordered pats pats' default regexes f pins h p =
    rw
      (
        router_fingerprint-Reordered pats pats' default regexes h,
        canonical_verify-Permᴰ f.verify pins p,
      )
      refl
