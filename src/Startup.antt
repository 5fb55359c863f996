-- ===== src/Startup.antt =====
-- src/main.rs, `build_listener`: the routing table of a listener. A default route takes the last
-- id and no pattern.
pub mod Parts
pub mod Building
pub mod Listening
pub mod Routers
pub mod Wiring
pub mod Service
pub mod Partition
pub mod Probes
pub mod Strictness
pub mod Grouping
mod Tests
use sni_gate.Prelude.{ℕ, List, [], ◌∷◌, ◌++◌, map, Option, none, some, length, Result}
use sni_gate.Text.{Text}
use sni_gate.Router.Table.{HashMap, ConfigError}
use sni_gate.Router.Build.{RegexEngine, RegexDef, Router, build}
use sni_gate.Config.Tables.{Route, Listener}

abbrev pub default_patterns : Option Route → List (List Text)
default_patterns none = []
default_patterns (some d) = [] ∷ []

abbrev pub patterns_of : Listener → List (List Text)
patterns_of l = map (λ r. r.match_sni) l.routes ++ default_patterns l.default_route

abbrev pub id_behind : List Route → Option Route → Option ℕ
id_behind routes none = none
id_behind routes (some d) = some (length routes)

abbrev pub default_id : Listener → Option ℕ
default_id l = id_behind l.routes l.default_route

unfoldable pub listener_router :
    RegexEngine → HashMap RegexDef → Listener → Result Router ConfigError
unfolding build
listener_router engine regexes l = build engine regexes (patterns_of l) (default_id l)
