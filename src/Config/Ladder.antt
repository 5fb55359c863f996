-- ===== src/Config/Ladder.antt =====
-- src/config.rs: the ladders that resolve a route's settings from the scopes around it
-- (`Config::effective`, `effective_ech`, `effective_http2`, `effective_verify` and their parts), and
-- `SniPolicy::resolve`.
use sni_gate.Prelude.{Bool, true, false, not, ◌&&◌, ℕ, List, [], ◌∷◌, Option, none, some}
use sni_gate.Prelude.Options.{or_else}
use sni_gate.Prelude.Tiers.{find_map, unwrap_or, flatten, and_then}
use sni_gate.Text.{Text, trim}
use sni_gate.Config.Tables.{
  RouteType, SniPolicy, AddressFamily, EchMode, H2Probe, FailPolicy, CommonOpts, EchConfig,
  Http2Config, Template, Route, Listener, Global,
}
use sni_gate.Config.Verify.{EffectiveVerify, default, merge}

abbrev sni_of_trimmed : Text → SniPolicy
sni_of_trimmed [] = SniPolicy.omit
sni_of_trimmed (c ∷ s) = SniPolicy.fixed (c ∷ s)

unfoldable pub resolve_sni : Option Text → SniPolicy
unfolding trim
resolve_sni none = SniPolicy.reflect
resolve_sni (some s) = sni_of_trimmed (trim s)

unfoldable pub sni_policy : Route → Option Template → SniPolicy
unfolding resolve_sni
sni_policy route tpl = resolve_sni (or_else route.override_sni (and_then tpl (λ t. t.override_sni)))

abbrev pub default_ech_refresh : ℕ
default_ech_refresh = 3_600_000

abbrev pub default_connect_timeout : ℕ
default_connect_timeout = 15_000

abbrev pub default_idle_timeout : ℕ
default_idle_timeout = 300_000

abbrev pub default_probe_timeout : ℕ
default_probe_timeout = 3000

pub record Effective : Type 0 where
  pub ech_resolver : Option Text
  pub addr_resolver : Option Text
  pub ech_refresh : ℕ
  pub nat64_prefix : Option Text
  pub address_family : AddressFamily
  pub require_ech : Bool
  pub connect_timeout : ℕ
  pub idle_timeout : ℕ
  pub fail : FailPolicy

pub record EffectiveEch : Type 0 where
  pub mode : EchMode
  pub config : Option Text
  pub ech_domain : Option Text
  pub max_retries : ℕ

pub record EffectiveHttp2 : Type 0 where
  pub enabled : Bool
  pub probe : H2Probe
  pub probe_timeout : ℕ

pub record EchShared : Type 0 where
  pub require_ech : Option Bool
  pub ech_refresh : Option ℕ
  pub ech_resolver : Option Text

abbrev pub effective_route_type : Route → Option Template → Option RouteType
effective_route_type route rt_tpl = or_else route.route_type (and_then rt_tpl (λ t. t.route_type))

abbrev pub is_raw : Option RouteType → Bool
is_raw none = false
is_raw (some RouteType.ech) = false
is_raw (some RouteType.tls) = false
is_raw (some RouteType.http) = false
is_raw (some RouteType.raw) = true

abbrev pub dials_tls : Option RouteType → Bool
dials_tls none = false
dials_tls (some RouteType.ech) = true
dials_tls (some RouteType.tls) = true
dials_tls (some RouteType.http) = false
dials_tls (some RouteType.raw) = false

-- The fields of a list of blocks, deepest first, with the documented defaults.
unfoldable pub ech_of_tiers : List EchConfig → EffectiveEch
unfolding find_map
ech_of_tiers tiers = record {
  mode = unwrap_or EchMode.doh (find_map (λ e. e.mode) tiers);
  config = find_map (λ e. e.config) tiers;
  ech_domain = find_map (λ e. e.ech_domain) tiers;
  max_retries = unwrap_or 2 (find_map (λ e. e.max_retries) tiers);
}

unfoldable pub shared_of_tiers : List EchConfig → EchShared
unfolding find_map
shared_of_tiers tiers = record {
  require_ech = find_map (λ e. e.require_ech) tiers;
  ech_refresh = find_map (λ e. e.ech_refresh) tiers;
  ech_resolver = find_map (λ e. e.ech_resolver) tiers;
}

-- `self` is the global scope; the templates are those that the route and the listener use.
module _ (global : Global) (listener : Listener) (route : Route)
    (rt_tpl ln_tpl : Option Template) where
  unfoldable pub ech_tiers : List EchConfig
  unfolding flatten
  ech_tiers = flatten (
      route.ech
      ∷ and_then rt_tpl (λ t. t.ech)
      ∷ listener.ech
      ∷ and_then ln_tpl (λ t. t.ech)
      ∷ global.ech
      ∷ [])

  abbrev pub effective_ech_shared : EchShared
  effective_ech_shared = shared_of_tiers ech_tiers

  unfoldable pub effective_ech : EffectiveEch
  unfolding ech_of_tiers ech_tiers
  effective_ech = ech_of_tiers ech_tiers

  unfoldable pub http2_tiers : List Http2Config
  unfolding flatten
  http2_tiers = flatten (
      route.http2
      ∷ and_then rt_tpl (λ t. t.http2)
      ∷ listener.http2
      ∷ and_then ln_tpl (λ t. t.http2)
      ∷ global.http2
      ∷ [])

  unfoldable pub effective_http2 : EffectiveHttp2
  unfolding http2_tiers find_map
  effective_http2 = record {
    enabled =
        not (is_raw (effective_route_type route rt_tpl))
        && unwrap_or false (find_map (λ h. h.enabled) http2_tiers);
    probe = unwrap_or H2Probe.warn (find_map (λ h. h.probe) http2_tiers);
    probe_timeout = unwrap_or default_probe_timeout (find_map (λ h. h.probe_timeout) http2_tiers);
  }

  abbrev verify_tiers : Bool → EffectiveVerify
  unfolding merge
  verify_tiers false = default
  verify_tiers true =
      merge (route.verify ∷ and_then rt_tpl (λ t. t.verify) ∷ [])
        (listener.verify ∷ and_then ln_tpl (λ t. t.verify) ∷ global.verify ∷ [])

  unfoldable pub effective_verify : EffectiveVerify
  unfolding verify_tiers merge
  effective_verify = verify_tiers (dials_tls (effective_route_type route rt_tpl))

  abbrev from_template : {A : Type 0} → Option Template → (CommonOpts → Option A) → Option A
  from_template tpl f = and_then tpl (λ t. f t.common)

  -- `pick!`, and the chains of `or` and `or_else`.
  abbrev pick : {A : Type 0} → List (Option A) → Option A
  unfolding find_map
  pick = find_map (λ o. o)

  unfoldable pub effective : Effective
  unfolding pick find_map shared_of_tiers ech_tiers flatten
  effective =
      let g = global.common in
      let l = listener.common in
      let r = route.common in
      record {
        ech_resolver = pick (
            effective_ech_shared.ech_resolver
            ∷ r.ech_resolver
            ∷ r.resolver
            ∷ from_template rt_tpl (λ c. c.ech_resolver)
            ∷ from_template rt_tpl (λ c. c.resolver)
            ∷ l.ech_resolver
            ∷ l.resolver
            ∷ from_template ln_tpl (λ c. c.ech_resolver)
            ∷ from_template ln_tpl (λ c. c.resolver)
            ∷ g.ech_resolver
            ∷ g.resolver
            ∷ []);
        addr_resolver = pick (
            r.addr_resolver
            ∷ r.resolver
            ∷ from_template rt_tpl (λ c. c.addr_resolver)
            ∷ from_template rt_tpl (λ c. c.resolver)
            ∷ l.addr_resolver
            ∷ l.resolver
            ∷ from_template ln_tpl (λ c. c.addr_resolver)
            ∷ from_template ln_tpl (λ c. c.resolver)
            ∷ g.addr_resolver
            ∷ g.resolver
            ∷ []);
        ech_refresh = unwrap_or default_ech_refresh (
            pick (
              effective_ech_shared.ech_refresh
              ∷ r.ech_refresh
              ∷ from_template rt_tpl (λ c. c.ech_refresh)
              ∷ l.ech_refresh
              ∷ from_template ln_tpl (λ c. c.ech_refresh)
              ∷ g.ech_refresh
              ∷ []));
        nat64_prefix = pick (
            r.nat64_prefix
            ∷ from_template rt_tpl (λ c. c.nat64_prefix)
            ∷ l.nat64_prefix
            ∷ from_template ln_tpl (λ c. c.nat64_prefix)
            ∷ g.nat64_prefix
            ∷ []);
        address_family = unwrap_or AddressFamily.dual (
            pick (
              r.address_family
              ∷ from_template rt_tpl (λ c. c.address_family)
              ∷ l.address_family
              ∷ from_template ln_tpl (λ c. c.address_family)
              ∷ g.address_family
              ∷ []));
        require_ech = unwrap_or true (
            pick (
              effective_ech_shared.require_ech
              ∷ r.require_ech
              ∷ from_template rt_tpl (λ c. c.require_ech)
              ∷ l.require_ech
              ∷ from_template ln_tpl (λ c. c.require_ech)
              ∷ g.require_ech
              ∷ []));
        connect_timeout = unwrap_or default_connect_timeout (
            pick (
              r.connect_timeout
              ∷ from_template rt_tpl (λ c. c.connect_timeout)
              ∷ l.connect_timeout
              ∷ from_template ln_tpl (λ c. c.connect_timeout)
              ∷ g.connect_timeout
              ∷ []));
        idle_timeout = unwrap_or default_idle_timeout (
            pick (
              r.idle_timeout
              ∷ from_template rt_tpl (λ c. c.idle_timeout)
              ∷ l.idle_timeout
              ∷ from_template ln_tpl (λ c. c.idle_timeout)
              ∷ g.idle_timeout
              ∷ []));
        fail = unwrap_or global.unmatched (or_else route.fail (and_then rt_tpl (λ t. t.fail)));
      }
