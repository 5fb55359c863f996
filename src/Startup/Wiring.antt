-- ===== src/Startup/Wiring.antt =====
-- src/main.rs, `build_listener`: the lists of a listener are indexed by the ids of its router.
use sni_gate.Prelude.{
  ℕ, zero, suc, ◌+◌, ◌<◌, ◌≡◌, refl, sym, ap, ◌∙◌, subst, List, [], ◌∷◌, ◌++◌, map, Option, none,
  some, arith, length, length-append, length-map, get_elem?, get_elem?-length, get_elem?-map, Bool,
  Result, ok, err, ok_so_far,
}
use sni_gate.Prelude.Tiers.{flatten}
use sni_gate.Text.{Text}
use sni_gate.Router.Table.{ConfigError}
use sni_gate.Router.Build.{RegexEngine, Router}
use sni_gate.Router.Build.Ids.{Small, InRange, build-InRange}
use sni_gate.Router.Matching.{match_host}
use sni_gate.Router.Matching.Range.{match_host-Small}
use sni_gate.Config.Tables.{Route, Listener, Config}
use sni_gate.Config.Coherence.{Whenever}
use sni_gate.CertScope.{new, router_fingerprint}
use sni_gate.Peek.Classify.{Inbound, key}
use sni_gate.Proxy.Dispatch.{
  ListenerState, Action, RouteRuntime, route_at, serve_route, key_or_empty, dispatch,
}
use sni_gate.Startup.{default_patterns, patterns_of, id_behind, default_id, listener_router}
use sni_gate.Startup.Parts.{Built, BuildError, BuiltRoute}
use sni_gate.Startup.Building.{build_route}
use sni_gate.Startup.Listening.{
  assembled, BuiltListener, routed, tabled, build_routes, build_listener,
}

-- All routes in the order of their ids, the default last.
unfoldable pub all_routes : Listener → List Route
unfolding flatten
all_routes l = l.routes ++ flatten (l.default_route ∷ [])

-- What the lists of the listener have for an id comes from building the route of that id.
abbrev pub Wired : Built → Config → Listener → BuiltListener → ℕ → Type 0
Wired built config listener l id =
    let fp = router_fingerprint (patterns_of listener) (default_id listener) config.regexes in
    (route : Route) × (b : BuiltRoute) × (get_elem? (all_routes listener) id ≡ some route)
    × (build_route built config listener route ≡ ok b)
    × (get_elem? l.state.routes id ≡ some b.runtime)
    × (get_elem? l.scopes id ≡ some (new fp b.forwarding))
    × (get_elem? l.pinned id ≡ some b.pinned)

routed_ok : {A : Type 0} (r : Result A BuildError) (a : A) → routed r ≡ ok a → r ≡ ok a
routed_ok (ok a') a h = let e : a' ≡ a = cc in ap ok e
routed_ok (err e) a h = cc

tabled_ok : (r : Result Router ConfigError) (a : Router) → tabled r ≡ ok a → r ≡ ok a
tabled_ok (ok a') a h = let e : a' ≡ a = cc in ap ok e
tabled_ok (err e) a h = cc

default-Small :
    (routes : List Route) (d : Option Route) (n : ℕ)
    → length routes + length (default_patterns d) ≡ n
    → Small n (id_behind routes d)
default-Small routes none n e = tt
default-Small routes (some d) n e = omega (arith, e)

default-length : (d : Option Route) → length (default_patterns d) ≡ length (flatten (d ∷ []))
unfolding flatten
default-length none = refl
default-length (some d) = refl

listed :
    (listener : Listener)
    → length (patterns_of listener)
      ≡ length listener.routes + length (default_patterns listener.default_route)
listed listener =
    length-append (map (λ r. r.match_sni) listener.routes) (default_patterns listener.default_route)
    ∙ ap (λ n. n + length (default_patterns listener.default_route))
        (length-map (λ (r : Route). r.match_sni) listener.routes)

module _ (engine : RegexEngine) (built : Built) (config : Config) (listener : Listener) where
  -- The built routes are those of the listener, one by one.
  BuiltFrom : List Route → List BuiltRoute → Type 0
  BuiltFrom [] [] = Unit
  BuiltFrom (route ∷ routes) (b ∷ bs) =
      (build_route built config listener route ≡ ok b) × BuiltFrom routes bs
  BuiltFrom _ _ = ⊥

  build_routes-BuiltFrom :
      (routes : List Route) (bs : List BuiltRoute)
      → build_routes engine built config listener routes ≡ ok bs
      → BuiltFrom routes bs
  unfolding build_routes BuiltFrom
  build_routes-BuiltFrom [] bs h =
      let e : ◌≡◌ {A = List BuiltRoute} [] bs = cc in subst (BuiltFrom []) e tt
  build_routes-BuiltFrom (route ∷ routes) bs h =
      let (b, one, h1) = ok_so_far (build_route built config listener route) _ h in
      let (bs', rest, h2) = ok_so_far (build_routes engine built config listener routes) _ h1 in
      let e : b ∷ bs' ≡ bs = cc in
      subst (BuiltFrom (route ∷ routes)) e (one, build_routes-BuiltFrom routes bs' rest)

  BuiltFrom-append :
      (routes more : List Route) (bs cs : List BuiltRoute)
      → BuiltFrom routes bs
      → BuiltFrom more cs
      → BuiltFrom (routes ++ more) (bs ++ cs)
  unfolding BuiltFrom
  BuiltFrom-append [] more [] cs h k = k
  BuiltFrom-append [] more (b ∷ bs) cs h k = absurd h
  BuiltFrom-append (route ∷ routes) more [] cs h k = absurd h
  BuiltFrom-append (route ∷ routes) more (b ∷ bs) cs h k =
      (h.0, BuiltFrom-append routes more bs cs h.1 k)

  BuiltFrom-length :
      (routes : List Route) (bs : List BuiltRoute) → BuiltFrom routes bs → length bs ≡ length routes
  unfolding BuiltFrom
  BuiltFrom-length [] [] h = refl
  BuiltFrom-length [] (b ∷ bs) h = absurd h
  BuiltFrom-length (route ∷ routes) [] h = absurd h
  BuiltFrom-length (route ∷ routes) (b ∷ bs) h = ap suc (BuiltFrom-length routes bs h.1)

  BuiltFrom-at :
      (routes : List Route) (bs : List BuiltRoute) (id : ℕ) (b : BuiltRoute)
      → BuiltFrom routes bs
      → get_elem? bs id ≡ some b
      → (route : Route) × (get_elem? routes id ≡ some route)
        × (build_route built config listener route ≡ ok b)
  unfolding BuiltFrom
  BuiltFrom-at [] [] id b h e = cc
  BuiltFrom-at [] (c ∷ bs) id b h e = absurd h
  BuiltFrom-at (route ∷ routes) [] id b h e = absurd h
  BuiltFrom-at (route ∷ routes) (c ∷ bs) zero b h e = (
    route,
    refl,
    let e' : c ≡ b = cc in subst (λ x. build_route built config listener route ≡ ok x) e' h.0,
  )
  BuiltFrom-at (route ∷ routes) (c ∷ bs) (suc id) b h e = BuiltFrom-at routes bs id b h.1 e

  assembled-Wired :
      (router : Router) (bs : List BuiltRoute) (id : ℕ)
      → BuiltFrom (all_routes listener) bs
      → id < length bs
      → Wired built config listener (assembled config listener router bs) id
  unfolding assembled all_routes
  assembled-Wired router bs id from small =
      let (b, hit) = get_elem?-length bs id small in
      let (route, at, made) = BuiltFrom-at (all_routes listener) bs id b from hit in
      (
        route,
        b,
        at,
        made,
        get_elem?-map (λ b. b.runtime) bs id hit,
        get_elem?-map (λ b. new _ b.forwarding) bs id hit,
        get_elem?-map (λ b. b.pinned) bs id hit,
      )

  wired :
      (l : BuiltListener)
      → build_listener engine built config listener ≡ ok l
      → (n : ℕ) × InRange n l.state.router × ((id : ℕ) → id < n → Wired built config listener l id)
  unfolding build_listener listener_router all_routes
  wired l h =
      let (routes, r1, h1) =
        ok_so_far (routed (build_routes engine built config listener listener.routes)) _ h in
      let (default, r2, h2) =
        ok_so_far
          (routed
            (build_routes engine built config listener (flatten (listener.default_route ∷ []))))
          _ h1 in
      let (router, r3, h3) =
        ok_so_far (tabled (listener_router engine config.regexes listener)) _ h2 in
      let from : BuiltFrom (all_routes listener) (routes ++ default) =
        BuiltFrom-append listener.routes _ routes default
          (build_routes-BuiltFrom listener.routes routes (routed_ok _ routes r1))
          (build_routes-BuiltFrom _ default (routed_ok _ default r2)) in
      let e : assembled config listener router (routes ++ default) ≡ l = cc in
      let count : length (patterns_of listener) ≡ length (routes ++ default) = omega (
        arith,
        BuiltFrom-length (all_routes listener) (routes ++ default) from,
        length-append listener.routes (flatten (listener.default_route ∷ [])),
        default-length listener.default_route,
        listed listener,
      ) in
      let range : InRange (length (patterns_of listener)) router =
        build-InRange engine config.regexes (patterns_of listener) (default_id listener) router
          (default-Small listener.routes listener.default_route _ (sym (listed listener)))
          (tabled_ok _ router r3) in
      subst
        (λ l.
          (n : ℕ) × InRange n l.state.router
          × ((id : ℕ) → id < n → Wired built config listener l id))
        e
        (
          length (patterns_of listener),
          range,
          λ id small.
              assembled-Wired router (routes ++ default) id from (omega (arith, small, count)),
        )

route_at-some :
    (state : ListenerState) (over_tls : Bool) (k : Option Text) (o : Option ℕ)
    → ((id : ℕ) → o ≡ some id → (rt : RouteRuntime) × (get_elem? state.routes id ≡ some rt))
    → (action : Action) × (route_at state over_tls k o ≡ some action)
route_at-some state over_tls k none h = (Action.unmatched, refl)
route_at-some state over_tls k (some id) h =
    let (rt, e) = h id refl in (serve_route id rt over_tls k, rw (route_at, e) refl)

whenever :
    {n : ℕ} {P : ℕ → Type 0} (o : Option ℕ) → Small n o → ((id : ℕ) → id < n → P id) → Whenever P o
whenever none small at = tt
whenever (some id) small at = at id small

module _ (engine : RegexEngine) (built : Built) (config : Config) (listener : Listener) where
  -- A listener that was built sends every connection somewhere: no id of its router is out of the
  -- range of its routes. Where a host has a route, by its id, that route of the configuration was
  -- built, and the runtime, the scope of its forwarding identity and the pinned certificate that it
  -- was built to are what the listener has under the id.
  pub build_listener-Wired :
      (l : BuiltListener) (inbound : Inbound) (host : Text)
      → build_listener engine built config listener ≡ ok l
      → ((action : Action) × (dispatch engine l.state inbound ≡ some action))
        × Whenever (Wired built config listener l) (match_host engine l.state.router host)
  unfolding dispatch
  build_listener-Wired l inbound host h =
      let (n, range, at) = wired engine built config listener l h in
      let small : (host : Text) → Small n (match_host engine l.state.router host) =
        λ host. match_host-Small n engine l.state.router host range in
      (
        route_at-some l.state _ _ _ (λ id e.
            let name = key_or_empty (key inbound) in
            let (_, b, _, _, hit, _, _) = at id (subst (Small n) e (small name)) in
            (b.runtime, hit)),
        whenever (match_host engine l.state.router host) (small host) at,
      )
