-- ===== src/Proxy/Tests.antt =====
-- Connections at a small listener.
use sni_gate.Prelude.{◌≡◌, refl, ◌↔◌, true, false, List, [], ◌∷◌, none, some, arith, here}
use sni_gate.Text.{Text, codes, to_ascii_lowercase}
use sni_gate.Router.Hosts.{is_host, is_host-IsHost}
use sni_gate.Router.Tests.{literal, sample}
use sni_gate.Peek.Classify.{Inbound}
use sni_gate.Config.Tables.{RouteType, SniPolicy, AddressFamily, FailPolicy}
use sni_gate.Config.Verify.{default}
use sni_gate.Proxy.Dispatch.{
  DnsResolver, Upstream, RouteRuntime, ListenerState, Action, strip_port, dispatch,
}
use sni_gate.Proxy.Alpn.{
  Among, supported_alpn, negotiable_alpn, mirror_choice, advertised, Kept,
  negotiable_alpn-IsPreferred, mirror_choice-negotiable_alpn,
}
use sni_gate.Proxy.Ports.{dispatch-port}

abbrev reflecting : RouteRuntime
reflecting = record {
  name = codes "tls";
  route_type = RouteType.tls;
  upstream =
      Upstream.direct none AddressFamily.dual none
        (DnsResolver.inline (codes "system") AddressFamily.dual);
  upstream_port = 443;
  sni_policy = SniPolicy.reflect;
  http2 = true;
  require_ech = true;
  max_retries = 2;
  connect_timeout = 15_000;
  idle_timeout = 300_000;
  fail = FailPolicy.close;
  ech = none;
  verify = some default;
  tls = some true;
}

abbrev state : ListenerState
state = record { router = sample; routes = reflecting ∷ reflecting ∷ reflecting ∷ reflecting ∷ [] }

abbrev www : Text
www = codes "www.Example.com"

proxy_tests :
    (dispatch literal state (Inbound.tls (some (codes "www.Example.com:8443")))
      ≡ some (Action.mirrored 0 (some www) (some www)))
    × (strip_port (codes "[2001:db8::1]:443") ≡ codes "2001:db8::1")
    × (strip_port (codes "2001:db8::1") ≡ codes "2001:db8::1")
    × (strip_port (codes "a.test") ≡ codes "a.test")
    × (negotiable_alpn (some (codes "http/1.1" ∷ codes "spdy" ∷ codes "h2" ∷ []))
        ≡ codes "h2" ∷ codes "http/1.1" ∷ [])
    × (advertised (mirror_choice none false) ≡ none)
unfolding dispatch negotiable_alpn mirror_choice strip_port
proxy_tests = (refl, refl, refl, refl, refl, refl)

dispatch-port_example :
    (dispatch literal state (Inbound.tls (some (codes "www.Example.com:8443")))
      ≡ dispatch literal state (Inbound.tls (some www)))
    × (dispatch literal state (Inbound.http (some (codes "www.Example.com:8443")))
        ≡ dispatch literal state (Inbound.http (some www)))
unfolding is_host to_ascii_lowercase
dispatch-port_example =
    dispatch-port literal state www (codes "8443") (is_host-IsHost (codes "www.example.com") refl)
      (grind arith)

abbrev offer : List Text
offer = codes "spdy" ∷ codes "http/1.1" ∷ []

negotiable_alpn-IsPreferred_example :
    Kept (negotiable_alpn (some offer)) supported_alpn
    × ((p : Text)
        → Among p (negotiable_alpn (some offer)) ↔ (Among p supported_alpn × Among p offer))
    × (negotiable_alpn (some []) ≡ negotiable_alpn none)
negotiable_alpn-IsPreferred_example = negotiable_alpn-IsPreferred offer

mirror_choice-negotiable_alpn_example :
    (advertised (mirror_choice (some (codes "http/1.1")) true) ≡ some (codes "http/1.1"))
    × Among (codes "http/1.1") offer
unfolding negotiable_alpn
mirror_choice-negotiable_alpn_example =
    mirror_choice-negotiable_alpn offer (codes "http/1.1") (here refl)
