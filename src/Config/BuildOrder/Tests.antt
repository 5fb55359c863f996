-- ===== src/Config/BuildOrder/Tests.antt =====
-- Build orders of concrete resolvers.
use sni_gate.Prelude.{
  ◌≡◌, refl, inr, List, [], ◌∷◌, Option, none, some, arith, ℕ, if◌then◌else◌, All, In, Result, ok,
  err,
}
use sni_gate.Text.{Text, codes, text_eq}
use sni_gate.Router.Table.{HashMap, keys}
use sni_gate.Config.Tables.{ResolverDef}
use sni_gate.Config.Resolvers.{references, is_resolver_ref}
use sni_gate.Config.BuildOrder.Steps.{target}
use sni_gate.Config.BuildOrder.Ordering.{IsOrdered}
use sni_gate.Config.BuildOrder.Topological.{resolver_build_order-IsOrdered}
use sni_gate.Config.BuildOrder.Termination.{resolver_build_order_ends}
use sni_gate.Config.BuildOrder.Cycles.{IsFault, resolver_build_order-IsFault}
use sni_gate.Config.BuildOrder.Acyclic.{IsRanked, resolver_build_order_found}
use sni_gate.Config.BuildOrder.{OrderError, cycle, resolver_build_order}

abbrev endpoint_of : Text → Option Text → ResolverDef
endpoint_of endpoint bootstrap = record {
  endpoint = endpoint;
  upstream = none;
  override_sni = none;
  bootstrap = bootstrap;
  ech = none;
  verify = none;
  address_family = none;
  nat64_prefix = none;
  connect_timeout = none;
}

-- `edge` is found through `plain`.
abbrev chained : HashMap ResolverDef
chained =
    (codes "edge", endpoint_of (codes "https://dns.example") (some (codes "@plain")))
    ∷ (codes "plain", endpoint_of (codes "udp://192.0.2.1") none)
    ∷ []

-- `a` leads into the cycle of `b` and `c`.
abbrev circular : HashMap ResolverDef
circular =
    (codes "c", endpoint_of (codes "https://c.example") (some (codes "@b")))
    ∷ (codes "a", endpoint_of (codes "https://a.example") (some (codes "@b")))
    ∷ (codes "b", endpoint_of (codes "https://b.example") (some (codes "@c")))
    ∷ []

abbrev lead_in : List Text
lead_in = codes "a" ∷ codes "b" ∷ codes "c" ∷ codes "b" ∷ []

order_tests :
    (resolver_build_order chained ≡ some (ok (codes "plain" ∷ codes "edge" ∷ [])))
    × (resolver_build_order circular ≡ some (err (cycle lead_in)))
unfolding resolver_build_order
order_tests = (refl, refl)

resolver_build_order-IsOrdered_example :
    IsOrdered chained [] (codes "plain" ∷ codes "edge" ∷ [])
    × All (λ k. In k (codes "plain" ∷ codes "edge" ∷ [])) (keys chained)
resolver_build_order-IsOrdered_example =
    resolver_build_order-IsOrdered chained (codes "plain" ∷ codes "edge" ∷ []) order_tests.0

resolver_build_order_ends_example :
    (r : Result (List Text) OrderError) × (resolver_build_order circular ≡ some r)
resolver_build_order_ends_example = resolver_build_order_ends circular

resolver_build_order-IsFault_example : IsFault circular (cycle lead_in)
resolver_build_order-IsFault_example =
    resolver_build_order-IsFault circular (cycle lead_in) order_tests.1

abbrev height : Text → ℕ
height n = if text_eq n (codes "edge") then 1 else 0

chained-IsRanked : All (IsRanked chained height) chained
unfolding references target is_resolver_ref
chained-IsRanked = ((inr (codes "plain", refl, omega arith), tt), (tt, tt))

resolver_build_order_found_example :
    (order : List Text) × (resolver_build_order chained ≡ some (ok order))
resolver_build_order_found_example = resolver_build_order_found chained height chained-IsRanked
