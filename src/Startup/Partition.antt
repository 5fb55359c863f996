-- ===== src/Startup/Partition.antt =====
-- src/main.rs, `build_route`: what the forwarding identity of a route says about its runtime.
use sni_gate.Prelude.{ℕ, ◌≡◌, refl, sym, ap, ◌∙◌, subst, [], Option, Result, ok, err, ok_so_far}
use sni_gate.Config.Tables.{RouteType, Template, Route, Listener, Config}
use sni_gate.Config.Upstream.{ResolvedUpstream, resolved_upstream_from}
use sni_gate.Config.Ladder.{
  effective, effective_ech, effective_verify, effective_route_type, sni_policy,
}
use sni_gate.Config.Routes.{upstream_spec, select_for, cert_key, template_for}
use sni_gate.Prelude.Tiers.{unwrap_or}
use sni_gate.CertScope.{UpstreamIdentity, Forwarding}
use sni_gate.Proxy.Dispatch.{Upstream, RouteRuntime}
use sni_gate.Startup.Parts.{
  Built, BuiltRoute, TlsParts, as_build_error, label, missing_type, invalid_upstream, pinned_from,
  or_error, nat64_for, upstream_for, tls_for,
}
use sni_gate.Startup.Building.{close_route, finish_route, build_route}
use sni_gate.Startup.Service.{
  SameSource, SameService, Follows, TlsFollows, SameParts, upstream_for-Follows, Follows-SameTarget,
  tls_for-TlsFollows, TlsFollows-SameParts,
}

ok-injective {ℓ κ} :
    {A : Type ℓ} {E : Type κ} {a b : A} → ◌≡◌ {A = Result A E} (ok a) (ok b) → a ≡ b
ok-injective {a = a} {b = b} h = ap (λ r. elim r [ ok x ↦ x | err e ↦ a ]) h

module _ (built : Built) where
  -- What a built route does, as far as it shows in its identity.
  record Described (f : Forwarding) (r : RouteRuntime) : Type 0 where
    typed : r.route_type ≡ f.route_type
    target : Follows built f.upstream r.upstream
    port : r.upstream_port ≡ f.port
    sni : r.sni_policy ≡ f.sni
    pieces : TlsParts
    made : TlsFollows built f.route_type f.verify f.port f.sni pieces
    identity : pieces.identity ≡ f.ech
    verify : pieces.verify ≡ r.verify
    ech : pieces.ech ≡ r.ech
    tls : pieces.tls ≡ r.tls

  module _ (config : Config) (listener : Listener) (route : Route) where
    close_route-Described :
        (rt_tpl ln_tpl : Option Template) (ty : RouteType) (port : ℕ) (u : Upstream)
        (i : UpstreamIdentity) (b : BuiltRoute)
        → Follows built i u
        → close_route built config listener route rt_tpl ln_tpl ty port (u, i) ≡ ok b
        → Described b.forwarding b.runtime
    unfolding close_route
    close_route-Described rt_tpl ln_tpl ty port u i b f h =
        let sni = sni_policy route rt_tpl in
        let v = effective_verify config.global listener route rt_tpl ln_tpl in
        let eff = effective config.global listener route rt_tpl ln_tpl in
        let eff_ech = effective_ech config.global listener route rt_tpl ln_tpl in
        let (t, made, h1) = ok_so_far (tls_for built (label route) ty eff eff_ech v port sni) _ h in
        let (_, _, h2) = ok_so_far (pinned_from built (label route) (cert_key route rt_tpl)) _ h1 in
        let e : _ ≡ b = ok-injective h2 in
        subst (λ b. Described b.forwarding b.runtime) e
          (record {
            typed = refl;
            target = f;
            port = refl;
            sni = refl;
            pieces = t;
            made = tls_for-TlsFollows built (label route) ty eff eff_ech v port sni t made;
            identity = refl;
            verify = refl;
            ech = refl;
            tls = refl;
          })

    finish_route-Described :
        (rt_tpl ln_tpl : Option Template) (ty : RouteType) (to : ResolvedUpstream) (b : BuiltRoute)
        → finish_route built config listener route rt_tpl ln_tpl ty to ≡ ok b
        → Described b.forwarding b.runtime
    unfolding finish_route
    finish_route-Described rt_tpl ln_tpl ty to b h =
        let eff = effective config.global listener route rt_tpl ln_tpl in
        let (nat64, nat, h1) =
          ok_so_far (nat64_for (label route) eff.nat64_prefix eff.address_family) _ h in
        let (up, got, h2) =
          ok_so_far
            (upstream_for built (label route) to.host (select_for route rt_tpl) eff.address_family
              nat64 eff.nat64_prefix (unwrap_or [] eff.addr_resolver))
            _ h1 in
        close_route-Described rt_tpl ln_tpl ty to.port up.0 up.1 b
          (upstream_for-Follows built (label route) to.host (select_for route rt_tpl)
            eff.address_family nat64 eff.nat64_prefix (unwrap_or [] eff.addr_resolver) nat got)
          h2

    build_route-Described :
        (b : BuiltRoute)
        → build_route built config listener route ≡ ok b
        → Described b.forwarding b.runtime
    unfolding build_route
    build_route-Described b h =
        let (rt_tpl, _, h1) =
          ok_so_far (as_build_error (template_for config route.use_template)) _ h in
        let (ln_tpl, _, h2) =
          ok_so_far (as_build_error (template_for config listener.use_template)) _ h1 in
        let (ty, _, h3) =
          ok_so_far (or_error (effective_route_type route rt_tpl) (missing_type (label route))) _
            h2 in
        let (to, _, h4) =
          ok_so_far
            (or_error (resolved_upstream_from (upstream_spec route rt_tpl) listener.addr.port)
              (invalid_upstream (label route)))
            _ h3 in
        finish_route-Described rt_tpl ln_tpl ty to b h4

  Described-SameService :
      (f : Forwarding) (r r' : RouteRuntime) → Described f r → Described f r' → SameService r r'
  unfolding SameParts
  Described-SameService f r r' d d' =
      let (verify, ech, tls) =
        TlsFollows-SameParts built f.route_type f.verify f.port f.sni d.pieces d'.pieces
          (d.identity ∙ sym d'.identity) d.made d'.made in
      record {
        route_type = d.typed ∙ sym d'.typed;
        target = Follows-SameTarget built f.upstream r.upstream r'.upstream d.target d'.target;
        port = d.port ∙ sym d'.port;
        sni = d.sni ∙ sym d'.sni;
        source =
            subst (λ x. SameSource x r'.ech) d.ech (subst (SameSource d.pieces.ech) d'.ech ech);
        verify = sym d.verify ∙ verify ∙ d'.verify;
        tls = sym d.tls ∙ tls ∙ d'.tls;
      }

-- Routes with equal forwarding identities send a connection to the same place, under the same name,
-- having demanded the same proof of it, whatever listeners they belong to.
pub build_route-SameService :
    (built : Built) (config : Config) (listener listener' : Listener) (route route' : Route)
    → (b b' : BuiltRoute) → build_route built config listener route ≡ ok b
    → build_route built config listener' route' ≡ ok b'
    → b.forwarding ≡ b'.forwarding
    → SameService b.runtime b'.runtime
build_route-SameService built config listener listener' route route' b b' h h' e =
    Described-SameService built b.forwarding b.runtime b'.runtime
      (build_route-Described built config listener route b h)
      (subst (λ f. Described built f b'.runtime) (sym e)
        (build_route-Described built config listener' route' b' h'))
