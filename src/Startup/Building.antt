-- ===== src/Startup/Building.antt =====
-- src/main.rs: `build_route`.
use sni_gate.Prelude.{ℕ, ◌&&◌, [], Option, none, if◌then◌else◌, Result, ok, ◌>>=◌}
use sni_gate.Prelude.Tiers.{unwrap_or}
use sni_gate.Config.Tables.{RouteType, Template, Route, Listener, Config}
use sni_gate.Config.Upstream.{ResolvedUpstream, resolved_upstream_from}
use sni_gate.Config.Ladder.{
  sni_policy, effective, effective_ech, effective_http2, effective_verify, effective_route_type,
}
use sni_gate.Config.Routes.{upstream_spec, select_for, cert_key, template_for}
use sni_gate.CertScope.{UpstreamIdentity}
use sni_gate.Proxy.Dispatch.{Upstream}
use sni_gate.Startup.Parts.{
  missing_type, invalid_upstream, Built, BuildError, BuiltRoute, label, or_error, nat64_for,
  pinned_from, is_on, is_http, probe_of, as_build_error, upstream_for, tls_for,
}

module _ (built : Built) where
  -- The last part of `build_route`, once the upstream and its identity are known.
  unfoldable pub close_route :
      Config
      → Listener
      → Route
      → Option Template
      → Option Template
      → RouteType
      → ℕ
      → Upstream × UpstreamIdentity
      → Result BuiltRoute BuildError
  unfolding effective effective_ech effective_verify effective_http2 sni_policy tls_for
  close_route config listener route rt_tpl ln_tpl route_type port (upstream, identity) = do
    let eff = effective config.global listener route rt_tpl ln_tpl
    let sni = sni_policy route rt_tpl
    let eff_ech = effective_ech config.global listener route rt_tpl ln_tpl
    let eff_verify = effective_verify config.global listener route rt_tpl ln_tpl
    tls ← tls_for built (label route) route_type eff eff_ech eff_verify port sni
    let eff_http2 = effective_http2 config.global listener route rt_tpl ln_tpl
    pinned ← pinned_from built (label route) (cert_key route rt_tpl)
    ok (record {
      runtime = record {
        name = label route;
        route_type = route_type;
        upstream = upstream;
        upstream_port = port;
        sni_policy = sni;
        http2 = eff_http2.enabled;
        require_ech = eff.require_ech;
        max_retries = eff_ech.max_retries;
        connect_timeout = eff.connect_timeout;
        idle_timeout = eff.idle_timeout;
        fail = eff.fail;
        ech = tls.ech;
        verify = tls.verify;
        tls = tls.tls;
      };
      forwarding = record {
        route_type = route_type;
        upstream = identity;
        port = port;
        sni = sni;
        ech = tls.identity;
        verify = eff_verify;
      };
      pinned = pinned;
      probe =
          if eff_http2.enabled && is_http route_type && is_on eff_http2.probe
          then probe_of (label route) upstream port eff_http2
          else none;
    })

  -- The part from the resolved upstream on.
  unfoldable pub finish_route :
      Config
      → Listener
      → Route
      → Option Template
      → Option Template
      → RouteType
      → ResolvedUpstream
      → Result BuiltRoute BuildError
  unfolding effective nat64_for upstream_for close_route
  finish_route config listener route rt_tpl ln_tpl route_type resolved = do
    let eff = effective config.global listener route rt_tpl ln_tpl
    nat64 ← nat64_for (label route) eff.nat64_prefix eff.address_family
    up ←
        upstream_for built (label route) resolved.host (select_for route rt_tpl) eff.address_family
          nat64 eff.nat64_prefix (unwrap_or [] eff.addr_resolver)
    close_route config listener route rt_tpl ln_tpl route_type resolved.port up

  unfoldable pub build_route : Config → Listener → Route → Result BuiltRoute BuildError
  unfolding template_for resolved_upstream_from finish_route
  build_route config listener route = do
    rt_tpl ← as_build_error (template_for config route.use_template)
    ln_tpl ← as_build_error (template_for config listener.use_template)
    route_type ← or_error (effective_route_type route rt_tpl) (missing_type (label route))
    resolved ←
        or_error (resolved_upstream_from (upstream_spec route rt_tpl) listener.addr.port)
          (invalid_upstream (label route))
    finish_route config listener route rt_tpl ln_tpl route_type resolved
