-- ===== src/Startup/Service.antt =====
-- src/main.rs, `build_route`: upstreams and TLS parts that come from one identity agree.
use sni_gate.Prelude.{
  ℕ, ◌≡◌, refl, sym, ◌∙◌, subst, List, Option, none, some, is_some, Result, ok, err, ◌>>=◌,
  ok_so_far,
}
use sni_gate.Text.{Text}
use sni_gate.Nat64.{Nat64Prefix, Nat64Error, from_str}
use sni_gate.Router.Table.{get}
use sni_gate.Pool.Views.{view_for}
use sni_gate.Config.Tables.{RouteType, SniPolicy, AddressFamily, Selector}
use sni_gate.Config.Upstream.{UpstreamHost}
use sni_gate.Config.Verify.{EffectiveVerify}
use sni_gate.Config.Ladder.{Effective, EffectiveEch}
use sni_gate.CertScope.{UpstreamIdentity}
use sni_gate.Proxy.Dispatch.{DnsResolver, Upstream, EchProvider, RouteRuntime}
use sni_gate.Startup.Parts.{
  Built, BuildError, TlsParts, no_tls, unknown_pool, no_view, bad_verify, or_error, parsed_or,
  ensure, sends_sni, nat64_for, ech_spec, get_resolver, direct_for, upstream_for, tls_for,
}

-- The same target, whichever view of a pool is read.
abbrev pub SameTarget : Upstream → Upstream → Type 0
SameTarget (Upstream.direct h f n d) (Upstream.direct h' f' n' d') =
    (h ≡ h') × (f ≡ f') × (n ≡ n') × (d ≡ d')
SameTarget (Upstream.pool name view) (Upstream.pool name' view') = name ≡ name'
SameTarget _ _ = ⊥

-- The same source of ECH configurations, an inline one counting by its presence.
abbrev pub SameSource : Option EchProvider → Option EchProvider → Type 0
SameSource none none = Unit
SameSource (some e) (some e') =
    (e.settings.mode ≡ e'.settings.mode)
    × (e.settings.ech_domain ≡ e'.settings.ech_domain)
    × (is_some e.settings.config ≡ is_some e'.settings.config)
    × (e.resolver ≡ e'.resolver)
    × (e.upstream_port ≡ e'.upstream_port)
    × (e.enable_sni ≡ e'.enable_sni)
SameSource _ _ = ⊥

-- Two routes that send a connection to the same place, under the same name, having demanded the
-- same proof.
pub record SameService (r r' : RouteRuntime) : Type 0 where
  pub route_type : r.route_type ≡ r'.route_type
  pub target : SameTarget r.upstream r'.upstream
  pub port : r.upstream_port ≡ r'.upstream_port
  pub sni : r.sni_policy ≡ r'.sni_policy
  pub source : SameSource r.ech r'.ech
  pub verify : r.verify ≡ r'.verify
  pub tls : r.tls ≡ r'.tls

parsed_or-same :
    (r : Result Nat64Prefix Nat64Error) (e e' : BuildError) (n n' : Option Nat64Prefix)
    → (parsed_or r e >>= λ p. ok (some p)) ≡ ok n
    → (parsed_or r e' >>= λ p. ok (some p)) ≡ ok n'
    → n ≡ n'
parsed_or-same (ok p) e e' n n' h h' = cc
parsed_or-same (err x) e e' n n' h h' = cc

-- The prefix that is used does not depend on the label, which is for the error.
nat64_for-same :
    (l l' : Text) (p : Option Text) (f : AddressFamily) (n n' : Option Nat64Prefix)
    → nat64_for l p f ≡ ok n
    → nat64_for l' p f ≡ ok n'
    → n ≡ n'
unfolding nat64_for
nat64_for-same l l' p AddressFamily.ipv6 n n' h h' = cc
nat64_for-same l l' none AddressFamily.dual n n' h h' = cc
nat64_for-same l l' none AddressFamily.ipv4 n n' h h' = cc
nat64_for-same l l' (some p) AddressFamily.dual n n' h h' =
    parsed_or-same (from_str p) _ _ n n' h h'
nat64_for-same l l' (some p) AddressFamily.ipv4 n n' h h' =
    parsed_or-same (from_str p) _ _ n n' h h'

module _ (built : Built) where
  -- An upstream that comes from an identity.
  unfoldable pub Follows : UpstreamIdentity → Upstream → Type 0
  Follows (UpstreamIdentity.direct h f prefix spec) u =
      (n : Option Nat64Prefix) × (d : DnsResolver) × (l : Text) × (nat64_for l prefix f ≡ ok n)
      × (get_resolver built spec f ≡ ok d)
      × (u ≡ Upstream.direct h f n d)
  Follows (UpstreamIdentity.pool name) u = (view : ℕ) × (u ≡ Upstream.pool name view)

  direct_for-Follows :
      (l : Text) (h : Option Text) (f : AddressFamily) (n : Option Nat64Prefix)
      (prefix : Option Text) (spec : Text) {u : Upstream} {i : UpstreamIdentity}
      → nat64_for l prefix f ≡ ok n
      → direct_for built h f n prefix spec ≡ ok (u, i)
      → Follows i u
  unfolding direct_for Follows
  direct_for-Follows l h f n prefix spec {u} {i} nat e =
      let (d, got, e1) = ok_so_far (get_resolver built spec f) _ e in
      let ei : UpstreamIdentity.direct h f prefix spec ≡ i = cc in
      let eu : Upstream.direct h f n d ≡ u = cc in
      subst (λ i. Follows i u) ei (n, d, l, nat, got, sym eu)

  pub upstream_for-Follows :
      (l : Text) (host : UpstreamHost) (select : Option (List Selector)) (f : AddressFamily)
      (n : Option Nat64Prefix) (prefix : Option Text) (spec : Text) {u : Upstream}
      {i : UpstreamIdentity}
      → nat64_for l prefix f ≡ ok n
      → upstream_for built l host select f n prefix spec ≡ ok (u, i)
      → Follows i u
  unfolding upstream_for Follows
  upstream_for-Follows l (UpstreamHost.pool name) select f n prefix spec {u} {i} nat e =
      let (views, found, e1) =
        ok_so_far (or_error (get built.pools name) (unknown_pool l name)) _ e in
      let (view, seen, e2) = ok_so_far (or_error (view_for views select) (no_view l name)) _ e1 in
      let ei : UpstreamIdentity.pool name ≡ i = cc in
      let eu : Upstream.pool name view ≡ u = cc in subst (λ i. Follows i u) ei (view, sym eu)
  upstream_for-Follows l UpstreamHost.reflect select f n prefix spec nat e =
      direct_for-Follows l none f n prefix spec nat e
  upstream_for-Follows l (UpstreamHost.fixed host) select f n prefix spec nat e =
      direct_for-Follows l (some host) f n prefix spec nat e

  pub Follows-SameTarget :
      (i : UpstreamIdentity) (u u' : Upstream) → Follows i u → Follows i u' → SameTarget u u'
  unfolding Follows
  Follows-SameTarget (UpstreamIdentity.direct h f prefix spec) u u' a b =
      let (n, d, l, nat, got, e) = a in
      let (n', d', l', nat', got', e') = b in
      let en : n ≡ n' = nat64_for-same l l' prefix f n n' nat nat' in
      let ed : d ≡ d' = cc in rw (e, e') (refl, refl, en, ed)
  Follows-SameTarget (UpstreamIdentity.pool name) u u' a b =
      let (view, e) = a in let (view', e') = b in rw (e, e') refl

  -- The parts of a route that dial TLS, as they come from its type, its policies and the identity
  -- of its ECH source.
  unfoldable pub TlsFollows : RouteType → EffectiveVerify → ℕ → SniPolicy → TlsParts → Type 0
  TlsFollows RouteType.http v port sni t = t ≡ no_tls
  TlsFollows RouteType.raw v port sni t = t ≡ no_tls
  TlsFollows RouteType.tls v port sni t =
      t ≡ record no_tls { verify = some v; tls = some (sends_sni sni) }
  TlsFollows RouteType.ech v port sni t =
      (spec : Text) × (e : EchProvider) × (get_resolver built spec AddressFamily.dual
        ≡ ok e.resolver)
      × (e.upstream_port ≡ port)
      × (e.enable_sni ≡ sends_sni sni)
      × (t ≡ record {
        verify = some v;
        ech = some e;
        tls = none;
        identity = some (record {
          mode = e.settings.mode;
          domain = e.settings.ech_domain;
          resolver = spec;
          inline_config = is_some e.settings.config;
        });
      })

  pub tls_for-TlsFollows :
      (l : Text) (ty : RouteType) (eff : Effective) (ech : EffectiveEch) (v : EffectiveVerify)
      (port : ℕ) (sni : SniPolicy) (t : TlsParts)
      → tls_for built l ty eff ech v port sni ≡ ok t
      → TlsFollows ty v port sni t
  unfolding tls_for TlsFollows
  tls_for-TlsFollows l RouteType.http eff ech v port sni t h = cc
  tls_for-TlsFollows l RouteType.raw eff ech v port sni t h = cc
  tls_for-TlsFollows l RouteType.tls eff ech v port sni t h =
      let (_, _, h1) = ok_so_far (ensure (built.builds_verifier v) (bad_verify l)) _ h in cc
  tls_for-TlsFollows l RouteType.ech eff ech v port sni t h =
      let (_, _, h1) = ok_so_far (ensure (built.builds_verifier v) (bad_verify l)) _ h in
      let (d, got, h2) = ok_so_far (get_resolver built (ech_spec eff) AddressFamily.dual) _ h1 in
      let e : EchProvider = record {
        settings = ech;
        upstream_port = port;
        require_ech = eff.require_ech;
        enable_sni = sends_sni sni;
        resolver = d;
        refresh_bound = eff.ech_refresh;
      } in
      (ech_spec eff, e, got, refl, refl, cc)

  unfoldable pub SameParts : TlsParts → TlsParts → Type 0
  SameParts t t' = (t.verify ≡ t'.verify) × SameSource t.ech t'.ech × (t.tls ≡ t'.tls)

  pub TlsFollows-SameParts :
      (ty : RouteType) (v : EffectiveVerify) (port : ℕ) (sni : SniPolicy) (t t' : TlsParts)
      → t.identity ≡ t'.identity
      → TlsFollows ty v port sni t
      → TlsFollows ty v port sni t'
      → SameParts t t'
  unfolding TlsFollows SameParts
  TlsFollows-SameParts RouteType.http v port sni t t' i a b = rw (a, b) (refl, tt, refl)
  TlsFollows-SameParts RouteType.raw v port sni t t' i a b = rw (a, b) (refl, tt, refl)
  TlsFollows-SameParts RouteType.tls v port sni t t' i a b = rw (a, b) (refl, tt, refl)
  TlsFollows-SameParts RouteType.ech v port sni t t' i a b =
      let (spec, e, got, p, s, eq) = a in
      let (spec', e', got', p', s', eq') = b in
      let i' = rw (eq, eq') at i in
      let same : spec ≡ spec' = cc in
      rw (eq, eq') (refl, (cc, cc, cc, cc, p ∙ sym p', s ∙ sym s'), refl)
