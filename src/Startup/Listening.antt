-- ===== src/Startup/Listening.antt =====
-- src/main.rs: `build_listener`, without the TLS settings of the server side. The certificate
-- resolver of a listener is its router with a scope and a pinned certificate for each route.
use sni_gate.Prelude.{List, [], ◌∷◌, ◌++◌, map, Option, Result, ok, err, ◌>>=◌}
use sni_gate.Prelude.Tiers.{flatten}
use sni_gate.Text.{Text}
use sni_gate.Router.Table.{ConfigError}
use sni_gate.Router.Build.{RegexEngine, Router}
use sni_gate.Config.Tables.{SocketAddr, FailPolicy, Route, Listener, Config}
use sni_gate.CertScope.{new, router_fingerprint}
use sni_gate.Proxy.Dispatch.{ListenerState}
use sni_gate.Startup.{patterns_of, default_id, listener_router}
use sni_gate.Startup.Parts.{Built, BuildError, ProbeTarget, BuiltRoute}
use sni_gate.Startup.Building.{build_route}

pub data ListenerError : Type 0 where
  of_route : BuildError → ListenerError
  of_table : ConfigError → ListenerError

pub record BuiltListener : Type 0 where
  pub addr : SocketAddr
  pub state : ListenerState
  pub scopes : List Text
  pub pinned : List (Option (Text × Text))
  pub unmatched : FailPolicy
  pub probe_targets : List ProbeTarget

abbrev pub routed : {A : Type 0} → Result A BuildError → Result A ListenerError
routed (ok a) = ok a
routed (err e) = err (of_route e)

abbrev pub tabled : Result Router ConfigError → Result Router ListenerError
tabled (ok r) = ok r
tabled (err e) = err (of_table e)

-- The state of a listener with these routes, in the order of their ids.
unfoldable pub assembled : Config → Listener → Router → List BuiltRoute → BuiltListener
unfolding flatten
assembled config listener router bs =
    let fp = router_fingerprint (patterns_of listener) (default_id listener) config.regexes in
    record {
      addr = listener.addr;
      state = record { router = router; routes = map (λ b. b.runtime) bs };
      scopes = map (λ b. new fp b.forwarding) bs;
      pinned = map (λ b. b.pinned) bs;
      unmatched = config.global.unmatched;
      probe_targets = flatten (map (λ b. b.probe) bs);
    }

module _ (engine : RegexEngine) (built : Built) (config : Config) (listener : Listener) where
  unfoldable pub build_routes : List Route → Result (List BuiltRoute) BuildError
  unfolding build_route
  build_routes [] = ok []
  build_routes (route ∷ routes) = do
    b ← build_route built config listener route
    bs ← build_routes routes
    ok (b ∷ bs)

  -- The default route is built behind the others and takes the last id.
  unfoldable pub build_listener : Result BuiltListener ListenerError
  unfolding build_routes flatten listener_router assembled
  build_listener = do
    routes ← routed (build_routes listener.routes)
    default ← routed (build_routes (flatten (listener.default_route ∷ [])))
    router ← tabled (listener_router engine config.regexes listener)
    ok (assembled config listener router (routes ++ default))
