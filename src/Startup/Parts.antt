-- ===== src/Startup/Parts.antt =====
-- src/main.rs: the parts that `build_route` makes, and `get_resolver`; src/config.rs:
-- `Route::label`. A certificate, a verifier and a resolver are what they are made from.
use sni_gate.Prelude.{
  ℕ, Bool, true, false, List, [], ◌∷◌, Option, none, some, if◌then◌else◌, is_some, Result, ok, err,
  ◌>>=◌,
}
use sni_gate.Prelude.Options.{or_else}
use sni_gate.Prelude.Tiers.{unwrap_or, and_then}
use sni_gate.Text.{Text, codes, trim, strip_prefix}
use sni_gate.Router.Table.{HashMap, get}
use sni_gate.Nat64.{Nat64Prefix, from_str}
use sni_gate.Pool.Views.{view_for}
use sni_gate.Config.Tables.{RouteType, SniPolicy, AddressFamily, H2Probe, Selector, Template, Route}
use sni_gate.Config.Upstream.{UpstreamHost}
use sni_gate.Config.Verify.{EffectiveVerify}
use sni_gate.Config.Ladder.{Effective, EffectiveEch, EffectiveHttp2}
use sni_gate.Config.Resolvers.{is_resolver_ref}
use sni_gate.Config.Routes.{RouteError}
use sni_gate.CertScope.{UpstreamIdentity, EchIdentity, Forwarding, route_type_str}
use sni_gate.Proxy.Dispatch.{DnsResolver, Upstream, EchProvider, RouteRuntime}

-- What was built before the routes, and what reading files and building clients comes to:
-- `registry` has the names of the built resolvers and `pools` the views of the built pools.
pub record Built : Type 0 where
  pub registry : HashMap (Unit {0})
  pub pools : HashMap (List (List Selector))
  pub builds_resolver : Text → AddressFamily → Bool
  pub builds_verifier : EffectiveVerify → Bool
  pub loads_certificate : Text → Text → Bool

pub data BuildError : Type 0 where
  bad_template : RouteError → BuildError
  missing_type invalid_upstream invalid_nat64 : (route : Text) → BuildError
  unknown_pool no_view : (route name : Text) → BuildError
  invalid_reference : (spec : Text) → BuildError
  unknown_resolver : (name : Text) → BuildError
  bad_resolver : (spec : Text) → BuildError
  bad_verify bad_certificate : (route : Text) → BuildError

pub record ProbeTarget : Type 0 where
  pub route : Text
  pub host : Text
  pub port : ℕ
  pub policy : H2Probe
  pub budget : ℕ
  pub resolver : DnsResolver
  pub family : AddressFamily
  pub nat64 : Option Nat64Prefix

pub record BuiltRoute : Type 0 where
  pub runtime : RouteRuntime
  pub forwarding : Forwarding
  pub pinned : Option (Text × Text)
  pub probe : Option ProbeTarget

abbrev pub first : List Text → Option Text
first [] = none
first (t ∷ ts) = some t

-- The names of the types in `Debug` form, in lower case.
abbrev pub label : Route → Text
label route = unwrap_or (codes "route") (
    or_else route.name
      (or_else (first route.match_sni) (and_then route.route_type (λ t. some (route_type_str t)))))

abbrev pub or_error {ℓ} : {A : Type ℓ} → Option A → BuildError → Result A BuildError
or_error none e = err e
or_error (some a) e = ok a

abbrev pub parsed_or {ℓ κ} :
    {A : Type ℓ} {E : Type κ} → Result A E → BuildError → Result A BuildError
parsed_or (ok a) e = ok a
parsed_or (err e') e = err e

abbrev pub ensure : Bool → BuildError → Result (Unit {0}) BuildError
ensure true e = ok tt
ensure false e = err e

-- NAT64 is off where only IPv6 is dialed.
unfoldable pub nat64_for :
    Text → Option Text → AddressFamily → Result (Option Nat64Prefix) BuildError
unfolding from_str
nat64_for route prefix AddressFamily.ipv6 = ok none
nat64_for route none AddressFamily.dual = ok none
nat64_for route none AddressFamily.ipv4 = ok none
nat64_for route (some p) AddressFamily.dual =
    parsed_or (from_str p) (invalid_nat64 route) >>= λ n. ok (some n)
nat64_for route (some p) AddressFamily.ipv4 =
    parsed_or (from_str p) (invalid_nat64 route) >>= λ n. ok (some n)

abbrev pub sends_sni : SniPolicy → Bool
sends_sni SniPolicy.reflect = true
sends_sni SniPolicy.omit = false
sends_sni (SniPolicy.fixed name) = true

abbrev pub pinned_from :
    Built → Text → Option Text × Option Text → Result (Option (Text × Text)) BuildError
pinned_from built route (some cert, some key) =
    ensure (built.loads_certificate cert key) (bad_certificate route) >>= λ _. ok (some (cert, key))
pinned_from built route (some cert, none) = ok none
pinned_from built route (none, key) = ok none

abbrev pub is_on : H2Probe → Bool
is_on H2Probe.off = false
is_on H2Probe.warn = true
is_on H2Probe.require = true

abbrev pub is_http : RouteType → Bool
is_http RouteType.ech = false
is_http RouteType.tls = false
is_http RouteType.http = true
is_http RouteType.raw = false

-- Only a fixed host can be probed before the first connection.
abbrev pub probe_of : Text → Upstream → ℕ → EffectiveHttp2 → Option ProbeTarget
probe_of route (Upstream.direct (some host) family nat64 resolver) port http2 = some (record {
  route = route;
  host = host;
  port = port;
  policy = http2.probe;
  budget = http2.probe_timeout;
  resolver = resolver;
  family = family;
  nat64 = nat64;
})
probe_of route (Upstream.direct none family nat64 resolver) port http2 = none
probe_of route (Upstream.pool name view) port http2 = none

-- The resolver of HTTPS records: the one for addresses stands in, then the system's.
abbrev pub ech_spec : Effective → Text
ech_spec eff = unwrap_or (unwrap_or (codes "system") eff.addr_resolver) eff.ech_resolver

pub record TlsParts : Type 0 where
  pub verify : Option EffectiveVerify
  pub ech : Option EchProvider
  pub tls : Option Bool
  pub identity : Option EchIdentity

abbrev pub no_tls : TlsParts
no_tls = record { verify = none; ech = none; tls = none; identity = none }

abbrev pub as_build_error :
    Result (Option Template) RouteError → Result (Option Template) BuildError
as_build_error (ok tpl) = ok tpl
as_build_error (err e) = err (bad_template e)

module _ (built : Built) where
  -- A resolver that an inline specification has made before is taken from the cache, which spares
  -- building it again.
  unfoldable pub named_resolver : Text → Option Text → Result DnsResolver BuildError
  unfolding get
  named_resolver spec none = err (invalid_reference spec)
  named_resolver spec (some name) =
      if is_some (get built.registry name)
      then ok (DnsResolver.named name)
      else err (unknown_resolver name)

  unfoldable pub get_resolver : Text → AddressFamily → Result DnsResolver BuildError
  unfolding named_resolver is_resolver_ref trim
  get_resolver spec family =
      if is_resolver_ref spec
      then named_resolver spec (strip_prefix (codes "@") (trim spec))
      else if built.builds_resolver spec family
      then ok (DnsResolver.inline spec family)
      else err (bad_resolver spec)

  unfoldable pub direct_for :
      Option Text
      → AddressFamily
      → Option Nat64Prefix
      → Option Text
      → Text
      → Result (Upstream × UpstreamIdentity) BuildError
  unfolding get_resolver
  direct_for host family nat64 prefix addr_spec = do
    resolver ← get_resolver addr_spec family
    ok (
      Upstream.direct host family nat64 resolver,
      UpstreamIdentity.direct host family prefix addr_spec,
    )

  -- The upstream, and its identity.
  unfoldable pub upstream_for :
      Text
      → UpstreamHost
      → Option (List Selector)
      → AddressFamily
      → Option Nat64Prefix
      → Option Text
      → Text
      → Result (Upstream × UpstreamIdentity) BuildError
  unfolding direct_for get_resolver get view_for
  upstream_for route (UpstreamHost.pool name) select family nat64 prefix addr_spec = do
    views ← or_error (get built.pools name) (unknown_pool route name)
    view ← or_error (view_for views select) (no_view route name)
    ok (Upstream.pool name view, UpstreamIdentity.pool name)
  upstream_for route UpstreamHost.reflect select family nat64 prefix addr_spec =
      direct_for none family nat64 prefix addr_spec
  upstream_for route (UpstreamHost.fixed host) select family nat64 prefix addr_spec =
      direct_for (some host) family nat64 prefix addr_spec

  -- What a route needs to dial TLS, with the identity of its ECH source.
  unfoldable pub tls_for :
      Text
      → RouteType
      → Effective
      → EffectiveEch
      → EffectiveVerify
      → ℕ
      → SniPolicy
      → Result TlsParts BuildError
  unfolding get_resolver
  tls_for route RouteType.http eff eff_ech eff_verify port sni = ok no_tls
  tls_for route RouteType.raw eff eff_ech eff_verify port sni = ok no_tls
  tls_for route RouteType.tls eff eff_ech eff_verify port sni = do
    _ ← ensure (built.builds_verifier eff_verify) (bad_verify route)
    ok (record no_tls { verify = some eff_verify; tls = some (sends_sni sni) })
  tls_for route RouteType.ech eff eff_ech eff_verify port sni = do
    _ ← ensure (built.builds_verifier eff_verify) (bad_verify route)
    resolver ← get_resolver (ech_spec eff) AddressFamily.dual
    ok (record no_tls {
      verify = some eff_verify;
      ech = some (record {
        settings = eff_ech;
        upstream_port = port;
        require_ech = eff.require_ech;
        enable_sni = sends_sni sni;
        resolver = resolver;
        refresh_bound = eff.ech_refresh;
      });
      identity = some (record {
        mode = eff_ech.mode;
        domain = eff_ech.ech_domain;
        resolver = ech_spec eff;
        inline_config = is_some eff_ech.config;
      });
    })
