-- ===== src/Config/Validated.antt =====
-- An accepted configuration has listeners of different addresses whose routes can all be served.
use sni_gate.Prelude.{
  ℕ, ◌≡◌, refl, ◌≢◌, inl, inr, Bool, true, false, not, List, [], ◌∷◌, ◌++◌, Option, arith, ==_iff,
  Bool-cases, any, All, All-append, ok, ok_so_far,
}
use sni_gate.Prelude.Tiers.{flatten}
use sni_gate.Text.{Text}
use sni_gate.Text.Parts.{text_eq_refl}
use sni_gate.Config.Tables.{SocketAddr, Template, Route, Listener, Config}
use sni_gate.Config.Routes.{
  require, duplicate_address, RouteError, validate_route, validate_ech, validate_http2, check_route,
  check_routes, check_listener, validate_listeners, addr_eq, template_for,
}
use sni_gate.Config.Servable.{IsServable, IsServable-of_checks}

unless_taken : (taken : Bool) (e : RouteError) → require (not taken) e ≡ ok tt → taken ≡ false
unless_taken true e h = cc
unless_taken false e h = refl

module _ (is_server_name : Text → Bool) (base64_decode : Text → Option (List ℕ))
    (config : Config) where
  -- The route's `use` names a template, or there is none, and the route can be served with it.
  abbrev pub Serves : Listener → Option Template → Route → Type 0
  Serves a ln_tpl r =
      (rt_tpl : Option Template) × (template_for config r.use_template ≡ ok rt_tpl)
      × IsServable is_server_name base64_decode config a ln_tpl r rt_tpl

  abbrev pub routes_of : Listener → List Route
  unfolding flatten
  routes_of a = a.routes ++ flatten (a.default_route ∷ [])

  abbrev pub ServesAll : Listener → Type 0
  unfolding flatten
  ServesAll a =
      (ln_tpl : Option Template) × (template_for config a.use_template ≡ ok ln_tpl)
      × All (Serves a ln_tpl) (routes_of a)

  abbrev pub IsValidated : List Listener → Type 0
  unfolding flatten
  IsValidated [] = Unit
  IsValidated (a ∷ later) = All (λ b. a.addr ≢ b.addr) later × ServesAll a × IsValidated later

  check_route-Serves :
      (a : Listener) (ln_tpl : Option Template) (is_default : Bool) (r : Route)
      → check_route is_server_name base64_decode config a ln_tpl is_default r ≡ ok tt
      → Serves a ln_tpl r
  unfolding check_route
  check_route-Serves a ln_tpl is_default r h =
      let (rt_tpl, found, h1) = ok_so_far (template_for config r.use_template) _ h in
      let (_, route, h2) = ok_so_far (validate_route r is_default a.addr.port rt_tpl) _ h1 in
      let (_, ech, h3) =
        ok_so_far (validate_ech is_server_name base64_decode config a r rt_tpl ln_tpl) _ h2 in
      let (_, _, verify) = ok_so_far (validate_http2 r rt_tpl) _ h3 in
      (
        rt_tpl,
        found,
        IsServable-of_checks is_server_name base64_decode config a ln_tpl r rt_tpl is_default route
            ech verify,
      )

  check_routes-Serves :
      (a : Listener) (ln_tpl : Option Template) (is_default : Bool) (rs : List Route)
      → check_routes is_server_name base64_decode config a ln_tpl is_default rs ≡ ok tt
      → All (Serves a ln_tpl) rs
  unfolding check_routes
  check_routes-Serves a ln_tpl is_default [] h = tt
  check_routes-Serves a ln_tpl is_default (r ∷ rs) h =
      let (_, first, rest) =
        ok_so_far (check_route is_server_name base64_decode config a ln_tpl is_default r) _ h in
      (
        check_route-Serves a ln_tpl is_default r first,
        check_routes-Serves a ln_tpl is_default rs rest,
      )

  addr_eq_refl : (a : SocketAddr) → addr_eq is_server_name base64_decode config a a ≡ true
  addr_eq_refl a = ground (arith, text_eq_refl a.ip, ==_iff a.port a.port)

  unique_lem :
      (a : Listener) (later : List Listener)
      → any (λ b. addr_eq is_server_name base64_decode config a.addr b.addr) later ≡ false
      → All (λ b. a.addr ≢ b.addr) later
  unique_lem a [] h = tt
  unique_lem a (b ∷ later) h =
      elim (Bool-cases (addr_eq is_server_name base64_decode config a.addr b.addr)) [
        | inl hit ↦ let bad : true ≡ false = rw hit at h in cc
        | inr miss ↦ (
          λ same. let bad : false ≡ true = rw (← miss) (rw same (addr_eq_refl b.addr)) in cc,
          unique_lem a later (rw miss at h),
        )
      ]

  check_listener-ServesAll :
      (a : Listener) (later : List Listener)
      → check_listener is_server_name base64_decode config a later ≡ ok tt
      → All (λ b. a.addr ≢ b.addr) later × ServesAll a
  unfolding check_listener flatten
  check_listener-ServesAll a later h =
      let taken = any (λ b. addr_eq is_server_name base64_decode config a.addr b.addr) later in
      let (_, unique, h1) = ok_so_far (require (not taken) (duplicate_address a.addr)) _ h in
      let (ln_tpl, found, h2) = ok_so_far (template_for config a.use_template) _ h1 in
      let (_, routes, default) =
        ok_so_far (check_routes is_server_name base64_decode config a ln_tpl false a.routes) _ h2 in
      (
        unique_lem a later (unless_taken taken _ unique),
        (
          ln_tpl,
          found,
          All-append (Serves a ln_tpl) a.routes _
              (check_routes-Serves a ln_tpl false a.routes routes)
              (check_routes-Serves a ln_tpl true _ default),
        ),
      )

  -- An accepted configuration has listeners of pairwise different addresses, whose templates
  -- exist, and each of whose routes can be served with its template.
  pub validate_listeners-IsValidated :
      (listeners : List Listener)
      → validate_listeners is_server_name base64_decode config listeners ≡ ok tt
      → IsValidated listeners
  unfolding validate_listeners
  validate_listeners-IsValidated [] h = tt
  validate_listeners-IsValidated (a ∷ later) h =
      let (_, first, rest) =
        ok_so_far (check_listener is_server_name base64_decode config a later) _ h in
      let (unique, serves) = check_listener-ServesAll a later first in
      (unique, serves, validate_listeners-IsValidated later rest)
