-- ===== src/Resolver/Tests.antt =====
-- Clipping and serving at a small configuration.
use sni_gate.Prelude.{
  In, here, there, sym, ap, ◌∙◌, ℕ, ◌≡◌, refl, ◌⊎◌, inr, true, false, List, [], ◌∷◌, none, some,
  Option,
}
use sni_gate.Text.{Text, codes, split_last}
use sni_gate.Suffix.Tests.{last_label, a_list}
use sni_gate.Suffix.{host_covered_by}
use sni_gate.Router.Build.{Router}
use sni_gate.Router.Hosts.{is_host, is_host-IsHost}
use sni_gate.Router.Matching.{match_host}
use sni_gate.Router.Confine.{Escape}
use sni_gate.Router.Confine.Sound.{IsRouted}
use sni_gate.Router.Tests.{literal, sample, sample-Respects}
use sni_gate.Resolver.Clip.{
  Listener, MirrorPlan, out_of_scope, crosses_registry_boundary, unmintable, normalize_host,
  in_scope, clip,
}
use sni_gate.Resolver.Accounting.{IsAccounted, clip-IsAccounted}
use sni_gate.Resolver.Confinement.{clip-IsRouted}
use sni_gate.Resolver.Issue.{
  Certificate, Issuer, Env, key_for, pinned_for, resolve, record_upstream_sans, mirror_is_current,
}
use sni_gate.Resolver.Serving.{IsServerName, IsSafe}
use sni_gate.Resolver.History.{
  Service, Agree, begun, then_event, handshake, observation, resolve-IsSafe,
}

abbrev listener : Listener
listener = record {
  suffix = a_list;
  router = sample;
  scopes = codes "a" ∷ codes "b" ∷ codes "c" ∷ codes "d" ∷ [];
}

abbrev www : Text
www = codes "www.Example.com"

abbrev claimed : List Text
claimed =
    codes "*.example.com"
    ∷ codes "Example.com."
    ∷ codes "*.com"
    ∷ codes "*.site.test"
    ∷ codes "10.0.0.1"
    ∷ []

abbrev plan : MirrorPlan
plan = record {
  kept = codes "*.example.com" ∷ codes "example.com" ∷ [];
  dropped =
      (codes "*.com", crosses_registry_boundary)
      ∷ (codes "*.site.test", out_of_scope (Escape.host (codes ".site.test") 1))
      ∷ (codes "10.0.0.1", unmintable)
      ∷ [];
}

clip_test : clip last_label literal listener www 0 claimed ≡ plan
unfolding clip split_last
clip_test = refl

clip-IsAccounted_example :
    IsAccounted last_label literal listener 0
      (normalize_host www)
      claimed
      (clip last_label literal listener www 0 claimed)
clip-IsAccounted_example = clip-IsAccounted last_label literal listener www 0 claimed

clip-IsRouted_example : IsRouted literal sample (in_scope listener 0) (codes "shop.example.com")
unfolding clip split_last is_host match_host normalize_host
clip-IsRouted_example =
    clip-IsRouted last_label literal listener www 0 claimed (codes "shop.example.com")
      sample-Respects refl (is_host-IsHost (codes "www.example.com") refl) refl
      (is_host-IsHost (codes "shop.example.com") refl) refl

abbrev willing : Env
willing = record { loads = true; key_loads = true; signs = true; saves = true }

abbrev fresh : Issuer
fresh = record { cache = []; disk = some [] }

abbrev pinned : List (Option Certificate)
pinned = none ∷ none ∷ none ∷ none ∷ []

abbrev served : Issuer
served = (resolve last_label literal listener pinned willing fresh (some www)).0

abbrev observed : Issuer
observed = record_upstream_sans last_label literal listener pinned willing served www claimed

serving_tests :
    ((resolve last_label literal listener pinned willing fresh (some www)).1
      ≡ some (record { names = codes "www.example.com" ∷ [] }))
    × ((resolve last_label literal listener pinned willing observed (some www)).1
        ≡ some (record { names = plan.kept }))
    × (mirror_is_current last_label literal listener pinned served www claimed ≡ false)
    × (mirror_is_current last_label literal listener pinned observed www claimed ≡ true)
unfolding resolve record_upstream_sans mirror_is_current split_last
serving_tests = (refl, refl, refl, refl)

www-IsServerName : IsServerName www
unfolding is_host normalize_host
www-IsServerName = (is_host-IsHost (codes "www.example.com") refl, refl)

abbrev service : Service
service = record { listener = listener; pinned = pinned }

-- The listeners on IPv4 and IPv6, with the same routes.
abbrev services : List Service
services = service ∷ service ∷ []

same_service : (a : Service) → In a services → service ≡ a
same_service a (here e) = e
same_service a (there (here e)) = e
same_service a (there (there m)) = elim m [ ]

services-Agree : Agree literal services
services-Agree a b m m' scope h h' =
    let e = sym (same_service a m) ∙ same_service b m' in
    (ap (λ x. x.listener.router) e, ap (λ x. x.listener.scopes) e)

resolve-IsSafe_example :
    (owner : ℕ) × (match_host literal sample www ≡ some owner)
    × ((pinned_for pinned owner ≡ some (record { names = plan.kept }))
        ⊎ IsSafe literal listener (key_for listener www owner) plan.kept)
resolve-IsSafe_example =
    resolve-IsSafe last_label literal services (sample-Respects, (sample-Respects, tt))
      services-Agree (some []) (inr refl)
      (then_event
        (then_event begun (handshake service (here refl) willing fresh www www-IsServerName))
        (observation service (there (here refl)) willing served www claimed www-IsServerName))
      service (here refl) willing www (record { names = plan.kept }) www-IsServerName
      serving_tests.1

-- A second listener with the same routing table, so with the same fingerprint, whose other route
-- forwards elsewhere than its first: at the first listener both forward alike and have one scope.
abbrev two_routes : Router
two_routes = record {
  exact = (codes "www.example.com", 0) ∷ (codes "other.example.com", 1) ∷ [];
  wildcard = [];
  suffix = (codes "example.com", 0) ∷ [];
  regex = [];
  default = none;
}

abbrev first_listener : Listener
first_listener = record {
  suffix = a_list;
  router = two_routes;
  scopes = codes "x" ∷ codes "x" ∷ [];
}

abbrev second_listener : Listener
second_listener = record first_listener { scopes = codes "x" ∷ codes "y" ∷ [] }

abbrev mirrored : Issuer
mirrored =
    record_upstream_sans last_label literal first_listener [] willing fresh
      (codes "www.example.com") (codes "*.example.com" ∷ [])

abbrev shared_certificate : Option Certificate
shared_certificate =
    (resolve last_label literal second_listener [] willing mirrored
      (some (codes "www.example.com"))).1

-- What the first listener issued is served by the second, though it covers a host that the second
-- routes out of the scope.
shared_scope_tests :
    (shared_certificate ≡ some (record { names = codes "*.example.com" ∷ [] }))
    × (host_covered_by (codes "*.example.com" ∷ []) (codes "other.example.com") ≡ true)
    × (match_host literal two_routes (codes "other.example.com") ≡ some 1)
    × (in_scope second_listener 0 1 ≡ false)
unfolding resolve record_upstream_sans split_last host_covered_by match_host in_scope
shared_scope_tests = (refl, refl, refl, refl)
