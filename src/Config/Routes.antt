-- ===== src/Config/Routes.antt =====
-- src/config.rs: `Route::validate`, the checks of a route's resolved settings, and the part of
-- `Config::validate` that applies them to every listener.
use sni_gate.Prelude.{
  ℕ, Bool, true, false, not, ◌&&◌, ◌||◌, List, [], ◌∷◌, Option, none, some, ◌==◌, if◌then◌else◌,
  is_some, any, Result, ok, err, ◌>>=◌,
}
use sni_gate.Prelude.Options.{or_else}
use sni_gate.Prelude.Tiers.{flatten, and_then}
use sni_gate.Text.{Text, trim, text_eq}
use sni_gate.Router.Table.{get}
use sni_gate.Config.Tables.{
  RouteType, EchMode, SocketAddr, Http2Config, Selector, Template, Route, Listener, Config,
}
use sni_gate.Config.Upstream.{resolved_upstream_from}
use sni_gate.Config.Verify.{VerifyError, is_blank, validate}
use sni_gate.Config.Ladder.{
  is_raw, dials_tls, effective_route_type, effective_ech, effective_verify,
}

pub data RouteError : Type 0 where
  blank_upstream invalid_upstream no_pattern missing_type half_a_pair pinned_on_raw : RouteError
  ech_without_config http2_on_raw verify_unused : RouteError
  verify : VerifyError → RouteError
  unknown_template : (name : Text) → RouteError
  duplicate_address : SocketAddr → RouteError

abbrev pub require : Bool → RouteError → Result (Unit {0}) RouteError
require true e = ok tt
require false e = err e

abbrev pub upstream_spec : Route → Option Template → Option Text
upstream_spec route tpl = or_else route.upstream (and_then tpl (λ t. t.upstream))

abbrev pub select_for : Route → Option Template → Option (List Selector)
select_for route tpl = or_else route.select (and_then tpl (λ t. t.select))

-- The pair of the first scope that sets either half.
abbrev pub cert_key : Route → Option Template → Option Text × Option Text
cert_key route tpl =
    if is_some route.cert_file || is_some route.key_file
    then (route.cert_file, route.key_file)
    else (and_then tpl (λ t. t.cert_file), and_then tpl (λ t. t.key_file))

abbrev pub is_empty : List Text → Bool
is_empty [] = true
is_empty (t ∷ ts) = false

abbrev pub is_blank_spec : Option Text → Bool
unfolding trim
is_blank_spec none = false
is_blank_spec (some s) = is_blank (trim s)

abbrev pub same : Bool → Bool → Bool
same true b = b
same false b = not b

unfoldable pub validate_route : Route → Bool → ℕ → Option Template → Result (Unit {0}) RouteError
unfolding is_blank_spec resolved_upstream_from trim
validate_route route is_default listener_port tpl = do
  let spec = upstream_spec route tpl
  let (cert, key) = cert_key route tpl
  _ ← require (not (is_blank_spec spec)) blank_upstream
  _ ← require (is_some (resolved_upstream_from spec listener_port)) invalid_upstream
  _ ← require (is_default || not (is_empty route.match_sni)) no_pattern
  _ ← require (is_some (effective_route_type route tpl)) missing_type
  _ ← require (same (is_some cert) (is_some key)) half_a_pair
  require (not (is_some cert && is_raw (effective_route_type route tpl))) pinned_on_raw

abbrev pub is_ech : Option RouteType → Bool
is_ech none = false
is_ech (some RouteType.ech) = true
is_ech (some RouteType.tls) = false
is_ech (some RouteType.http) = false
is_ech (some RouteType.raw) = false

-- The modes that need an inline `config`.
abbrev pub needs_config : EchMode → Bool
needs_config EchMode.doh = false
needs_config EchMode.static = true
needs_config EchMode.doh_with_fallback = true

abbrev pub enables : Http2Config → Bool
enables h = elim h.enabled [ none ↦ false | some b ↦ b ]

unfoldable pub validate_http2 : Route → Option Template → Result (Unit {0}) RouteError
unfolding flatten
validate_http2 route rt_tpl =
    let explicit = any enables (flatten (route.http2 ∷ and_then rt_tpl (λ t. t.http2) ∷ [])) in
    require (not (is_raw (effective_route_type route rt_tpl) && explicit)) http2_on_raw

abbrev pub as_verify_error : Result (Unit {0}) VerifyError → Result (Unit {0}) RouteError
as_verify_error (ok u) = ok u
as_verify_error (err e) = err (verify e)

-- The policy counts where TLS is dialed. Elsewhere writing one is an error, and a missing type is
-- reported by `Route::validate`.
abbrev pub judge_verify :
    Option RouteType → Result (Unit {0}) RouteError → Bool → Result (Unit {0}) RouteError
judge_verify none checked explicit = ok tt
judge_verify (some t) checked explicit =
    if dials_tls (some t) then checked else require (not explicit) verify_unused

unfoldable pub template_for : Config → Option Text → Result (Option Template) RouteError
unfolding get
template_for config none = ok none
template_for config (some name) = elim (get config.templates name) [
  | none ↦ err (unknown_template name)
  | some t ↦ ok (some t)
]

module _ (is_server_name : Text → Bool) (base64_decode : Text → Option (List ℕ))
    (config : Config) where
  unfoldable pub validate_ech :
      Listener → Route → Option Template → Option Template → Result (Unit {0}) RouteError
  unfolding effective_ech
  validate_ech listener route rt_tpl ln_tpl =
      let eff = effective_ech config.global listener route rt_tpl ln_tpl in
      require
        (not (
          is_ech (effective_route_type route rt_tpl)
          && needs_config eff.mode
          && not (is_some eff.config)))
        ech_without_config

  unfoldable pub validate_verify :
      Listener → Route → Option Template → Option Template → Result (Unit {0}) RouteError
  unfolding effective_verify validate
  validate_verify listener route rt_tpl ln_tpl =
      let checked = as_verify_error (
        validate is_server_name base64_decode
          (effective_verify config.global listener route rt_tpl ln_tpl)) in
      let explicit = is_some route.verify || is_some (and_then rt_tpl (λ t. t.verify)) in
      judge_verify (effective_route_type route rt_tpl) checked explicit

  -- The loop body for one route, and for all routes of a listener.
  unfoldable pub check_route :
      Listener → Option Template → Bool → Route → Result (Unit {0}) RouteError
  unfolding template_for get validate_route validate_ech validate_http2 validate_verify
  check_route listener ln_tpl is_default route = do
    rt_tpl ← template_for config route.use_template
    _ ← validate_route route is_default listener.addr.port rt_tpl
    _ ← validate_ech listener route rt_tpl ln_tpl
    _ ← validate_http2 route rt_tpl
    validate_verify listener route rt_tpl ln_tpl

  unfoldable pub check_routes :
      Listener → Option Template → Bool → List Route → Result (Unit {0}) RouteError
  unfolding check_route
  check_routes listener ln_tpl is_default [] = ok tt
  check_routes listener ln_tpl is_default (route ∷ routes) =
      check_route listener ln_tpl is_default route >>= λ _.
      check_routes listener ln_tpl is_default routes

  abbrev pub addr_eq : SocketAddr → SocketAddr → Bool
  addr_eq a b = text_eq a.ip b.ip && a.port == b.port

  unfoldable pub check_listener : Listener → List Listener → Result (Unit {0}) RouteError
  unfolding template_for get check_routes flatten
  check_listener a later = do
    _ ← require (not (any (λ b. addr_eq a.addr b.addr) later)) (duplicate_address a.addr)
    ln_tpl ← template_for config a.use_template
    _ ← check_routes a ln_tpl false a.routes
    check_routes a ln_tpl true (flatten (a.default_route ∷ []))

  unfoldable pub validate_listeners : List Listener → Result (Unit {0}) RouteError
  unfolding check_listener
  validate_listeners [] = ok tt
  validate_listeners (a ∷ later) = check_listener a later >>= λ _. validate_listeners later
