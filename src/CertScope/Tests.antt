-- ===== src/CertScope/Tests.antt =====
-- Scopes at concrete inputs.
use mathlib.Core.List.{Permᴰ}
use sni_gate.Prelude.{◌≡◌, refl, Bool, true, false, not, ◌&&◌, [], ◌∷◌, none, some, ◌==◌, ℕ, arith}
use sni_gate.Text.{codes, text_eq, contains}
use sni_gate.Config.Tables.{RouteType, SniPolicy, AddressFamily, EchMode}
use sni_gate.Config.Verify.{default}
use sni_gate.CertScope.{
  direct, pool, EchIdentity, Forwarding, canonical, sanitize, fnv1a, new, router_fingerprint,
}
use sni_gate.CertScope.Plain.{literal, IsPlainForwarding}
use sni_gate.CertScope.Separation.{SameForwarding, canonical-SameForwarding}
use sni_gate.CertScope.Component.{IsComponent, new-IsComponent}
use sni_gate.CertScope.Reordering.{new-Reordered}

abbrev doh : EchIdentity
doh = record {
  mode = EchMode.doh;
  domain = some (codes "cloudflare-ech.com");
  resolver = codes "system";
  inline_config = false;
}

-- The route of the tests in src/certscope.rs.
abbrev edge : Forwarding
edge = record {
  route_type = RouteType.ech;
  upstream = direct (some (codes "edge.example.net")) AddressFamily.ipv4 none (codes "dnspod-doh");
  port = 443;
  sni = SniPolicy.reflect;
  ech = some doh;
  verify = record default { pins = codes "b" ∷ codes "a" ∷ [] };
}

-- A route that reflects, and one whose fixed host is called reflect.
abbrev reflecting : Forwarding
reflecting = record edge { upstream = direct none AddressFamily.ipv4 none (codes "dnspod-doh") }

abbrev fixed_reflect : Forwarding
fixed_reflect = record edge {
  upstream = direct (some (codes "reflect")) AddressFamily.ipv4 none (codes "dnspod-doh");
}

unfoldable hash_tests : Bool
unfolding fnv1a
hash_tests =
    fnv1a [] == 0xcbf2_9ce4_8422_2325
    && fnv1a (codes "a") == 0xaf63_dc4c_8601_ec8c
    && fnv1a (codes "foobar") == 0x8594_4171_f739_67e8

fnv1a-tests : hash_tests ≡ true
unfolding hash_tests
fnv1a-tests = refl

unfoldable scope_tests : Bool
unfolding sanitize canonical new
scope_tests =
    text_eq (sanitize (codes "..a b__c/..")) (codes "a_b_c_")
    && text_eq (sanitize (codes "..")) (codes "_")
    && text_eq (canonical 1 reflecting) (canonical 1 fixed_reflect)
    && not (text_eq (canonical 1 edge) (canonical 2 edge))
    && not (text_eq (canonical 1 edge) (canonical 1 (record edge { upstream = pool (codes "x") })))
    && not (text_eq (new 1 edge) (new 1 reflecting))

scopes-tests : scope_tests ≡ true
unfolding scope_tests
scopes-tests = refl

same_canonical : canonical 1 reflecting ≡ canonical 1 fixed_reflect
unfolding canonical
same_canonical = refl

reflecting-IsPlain : IsPlainForwarding reflecting
unfolding contains
reflecting-IsPlain = record {
  upstream = (tt, tt, literal (codes "dnspod-doh") refl);
  sni = tt;
  ech = (literal (codes "cloudflare-ech.com") refl, literal (codes "system") refl);
  name = tt;
  pins = (literal (codes "b") refl, (literal (codes "a") refl, tt));
  ca_file = tt;
}

fixed_reflect-IsPlain : IsPlainForwarding fixed_reflect
unfolding contains
fixed_reflect-IsPlain = record {
  upstream = (literal (codes "reflect") refl, tt, literal (codes "dnspod-doh") refl);
  sni = tt;
  ech = reflecting-IsPlain.ech;
  name = tt;
  pins = reflecting-IsPlain.pins;
  ca_file = tt;
}

canonical-SameForwarding_example : (◌≡◌ {A = ℕ} 1 1) × SameForwarding reflecting fixed_reflect
canonical-SameForwarding_example =
    canonical-SameForwarding 1 1 reflecting fixed_reflect (omega arith) (omega arith)
      reflecting-IsPlain fixed_reflect-IsPlain same_canonical

new-IsComponent_example : IsComponent (new 1 edge)
new-IsComponent_example = new-IsComponent 1 edge

new-Reordered_example :
    new (router_fingerprint ((codes "a.org" ∷ codes "*.b.org" ∷ []) ∷ []) none []) edge
    ≡ new
        (router_fingerprint ((codes "*.b.org" ∷ codes "a.org" ∷ []) ∷ []) none [])
        (record edge { verify = record default { pins = codes "a" ∷ codes "b" ∷ [] } })
new-Reordered_example =
    new-Reordered ((codes "a.org" ∷ codes "*.b.org" ∷ []) ∷ [])
      ((codes "*.b.org" ∷ codes "a.org" ∷ []) ∷ []) none [] edge (codes "a" ∷ codes "b" ∷ [])
      (Permᴰ.swap refl refl, tt) (Permᴰ.swap refl refl)
