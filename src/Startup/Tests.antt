-- ===== src/Startup/Tests.antt =====
-- Listeners at concrete inputs.
use sni_gate.Prelude.{
  List, false, Any, length, ◌≡◌, refl, true, false, [], ◌∷◌, none, some, ok, All,
}
use sni_gate.Text.{codes, text_eq}
use sni_gate.Router.Build.{RegexEngine, Router}
use sni_gate.Config.Samples.{config, public_listener, site, inline_ech}
use sni_gate.Config.Regexes.{validate_regexes}
use sni_gate.Config.Tables.{
  H2Probe, RouteType, SniPolicy, AddressFamily, EchMode, FailPolicy, Route,
}
use sni_gate.Config.Verify.{EffectiveVerify, default}
use sni_gate.CertScope.{UpstreamIdentity, new}
use sni_gate.Peek.Classify.{Inbound}
use sni_gate.Router.Names.{normalize, normalize_scope_suffix}
use sni_gate.Router.Table.{insert_unique}
use sni_gate.Router.Matching.{match_host}
use sni_gate.Proxy.Dispatch.{DnsResolver, Upstream, EchProvider, Action, dispatch}
use sni_gate.Startup.Probes.{group_probe_targets, run_probes}
use sni_gate.Startup.Grouping.{Covers, Demanded, Distinct, group_probe_targets-Covers}
use sni_gate.Startup.Service.{SameService}
use sni_gate.Startup.Partition.{build_route-SameService}
use sni_gate.Startup.Wiring.{Wired, build_listener-Wired}
use sni_gate.Startup.Parts.{ProbeTarget, Built, BuiltRoute}
use sni_gate.Startup.Building.{build_route}
use sni_gate.Startup.Listening.{BuiltListener, build_listener, assembled}
use sni_gate.Startup.Routers.{Routed, validate_regexes-Routed}

-- Every pattern compiles, and matches itself.
abbrev literal : RegexEngine
literal = record { compiles = λ pattern. true; is_match = text_eq }

checked : validate_regexes literal config.regexes config.listeners ≡ ok tt
unfolding validate_regexes
checked = refl

validate_regexes-Routed_example : All (Routed literal config.regexes) config.listeners
validate_regexes-Routed_example =
    validate_regexes-Routed literal config.regexes config.listeners checked

-- Everything that start-up reads is there.
abbrev built : Built
built = record {
  registry = [];
  pools = [];
  builds_resolver = λ spec family. true;
  builds_verifier = λ policy. true;
  loads_certificate = λ cert key. true;
}

abbrev system : DnsResolver
system = DnsResolver.inline (codes "system") AddressFamily.dual

abbrev policy : EffectiveVerify
policy = record default { name = some (codes "edge.example.net") }

abbrev source : EchProvider
source = record {
  settings = record {
    mode = EchMode.static;
    config = some (codes "AEX+DQ==");
    ech_domain = none;
    max_retries = 2;
  };
  upstream_port = 8443;
  require_ech = true;
  enable_sni = true;
  resolver = system;
  refresh_bound = 3_600_000;
}

abbrev built_site : BuiltRoute
built_site = record {
  runtime = record {
    name = codes "site";
    route_type = RouteType.ech;
    upstream = Upstream.direct (some (codes "edge.example.net")) AddressFamily.dual none system;
    upstream_port = 8443;
    sni_policy = SniPolicy.reflect;
    http2 = false;
    require_ech = true;
    max_retries = 2;
    connect_timeout = 5000;
    idle_timeout = 300_000;
    fail = FailPolicy.close;
    ech = some source;
    verify = some policy;
    tls = none;
  };
  forwarding = record {
    route_type = RouteType.ech;
    upstream =
        UpstreamIdentity.direct (some (codes "edge.example.net")) AddressFamily.dual none
          (codes "system");
    port = 8443;
    sni = SniPolicy.reflect;
    ech = some (record {
      mode = EchMode.static;
      domain = none;
      resolver = codes "system";
      inline_config = true;
    });
    verify = policy;
  };
  pinned = none;
  probe = none;
}

-- The same route with keys of its own.
abbrev rekeyed : Route
rekeyed = record site { ech = some (record inline_ech { config = some (codes "AAAA") }) }

abbrev built_rekeyed : BuiltRoute
built_rekeyed = record built_site {
  runtime = record built_site.runtime {
    ech =
        some (record source { settings = record source.settings { config = some (codes "AAAA") } });
  };
}

site_builds : build_route built config public_listener site ≡ ok built_site
unfolding build_route
site_builds = refl

rekeyed_builds : build_route built config public_listener rekeyed ≡ ok built_rekeyed
unfolding build_route
rekeyed_builds = refl

-- Routes that draw on different inline ECH configurations have one identity, and so one scope.
shared_scope_test : new 1 built_site.forwarding ≡ new 1 built_rekeyed.forwarding
shared_scope_test = refl

build_route-SameService_example : SameService built_site.runtime built_rekeyed.runtime
build_route-SameService_example =
    build_route-SameService built config public_listener public_listener site rekeyed built_site
      built_rekeyed site_builds rekeyed_builds refl

abbrev router : Router
router = record {
  exact = (codes "www.example.com", 0) ∷ [];
  wildcard = [];
  suffix = [];
  regex =
      record {
        pattern = codes "cdn[0-9]+[.]example[.]com";
        route_id = 0;
        scope_suffix = codes "*.example.com" ∷ [];
      }
      ∷ [];
  default = none;
}

abbrev listening : BuiltListener
unfolding assembled
listening = assembled config public_listener router (built_site ∷ [])

listener_builds : build_listener literal built config public_listener ≡ ok listening
unfolding build_listener insert_unique listening normalize normalize_scope_suffix
listener_builds = refl

build_listener-Wired_example :
    ((action : Action) × (dispatch literal listening.state
          (Inbound.tls (some (codes "www.example.com")))
        ≡ some action))
    × Wired built config public_listener listening 0
unfolding normalize match_host listening
build_listener-Wired_example =
    build_listener-Wired literal built config public_listener listening
      (Inbound.tls (some (codes "www.example.com"))) (codes "www.example.com") listener_builds

-- Two routes with one backend, of which the second insists on HTTP/2.
abbrev asked : DnsResolver → H2Probe → ProbeTarget
asked resolver policy = record {
  route = codes "site";
  host = codes "edge.example.net";
  port = 80;
  policy = policy;
  budget = 3000;
  resolver = resolver;
  family = AddressFamily.dual;
  nat64 = none;
}

abbrev shared : List ProbeTarget
shared = asked system H2Probe.warn ∷ asked system H2Probe.require ∷ []

probe_tests :
    (run_probes (λ key budget. false) shared ≡ false)
    × (run_probes (λ key budget. true) shared ≡ true)
    × (length (group_probe_targets shared) ≡ 1)
unfolding run_probes group_probe_targets
probe_tests = (refl, refl, refl)

-- A resolver of the configuration that is called system, and the inline specification of that text,
-- have one label: their routes share a probe, although they ask different resolvers.
one_label_test :
    length (
      group_probe_targets
        (asked system H2Probe.warn ∷ asked (DnsResolver.named (codes "system")) H2Probe.warn ∷ []))
    ≡ 1
unfolding group_probe_targets
one_label_test = refl

group_probe_targets-Covers_example :
    All (λ t. Any (Covers t) (group_probe_targets shared)) shared
    × All (Demanded shared) (group_probe_targets shared)
    × Distinct (group_probe_targets shared)
group_probe_targets-Covers_example = group_probe_targets-Covers shared
