-- ===== src/Config/Servable.antt =====
-- What the checks of the listeners promise to the code that serves their routes.
use sni_gate.Prelude.{
  ℕ, ◌≡◌, refl, ◌↔◌, inl, inr, Bool, true, false, not, ◌&&◌, List, Option, none, some, arith,
  if◌then◌else◌, Bool-cases, is_some, Result, ok, err,
}
use sni_gate.Text.{Text}
use sni_gate.Config.Tables.{RouteType, Template, Route, Listener, Config}
use sni_gate.Config.Upstream.{ResolvedUpstream, resolved_upstream_from}
use sni_gate.Config.Verify.{VerifyError, default}
use sni_gate.Config.Coherence.{IsCoherent, validate_iff}
use sni_gate.Config.Ladder.{
  is_raw, dials_tls, effective_route_type, effective_ech, effective_http2, effective_verify,
}
use sni_gate.Config.Routes.{
  RouteError, ech_without_config, require, upstream_spec, cert_key, same, is_ech, needs_config,
  validate_route, validate_ech, validate_verify, as_verify_error, judge_verify,
}

require_iff : (b : Bool) (e : RouteError) → (require b e ≡ ok tt) ↔ (b ≡ true)
require_iff true e = ground arith
require_iff false e = ground arith

judged :
    (o : Option RouteType) (checked : Result (Unit {0}) RouteError) (explicit : Bool)
    → dials_tls o ≡ true
    → judge_verify o checked explicit ≡ ok tt
    → checked ≡ ok tt
judged none checked explicit tls h = cc
judged (some t) checked explicit tls h = rw tls at h

as_ok : (r : Result (Unit {0}) VerifyError) → as_verify_error r ≡ ok tt → r ≡ ok tt
as_ok (ok tt) h = refl
as_ok (err e) h = cc

given {ℓ} : {A : Type ℓ} (o : Option A) → is_some o ≡ true → (x : A) × (o ≡ some x)
given none h = cc
given (some x) h = (x, refl)

none_given : (o : Option Text) (b : Bool) → b ≡ true → is_some o && b ≡ false → o ≡ none
none_given none b raw h = refl
none_given (some x) b raw h = cc

same_eq : (b c : Bool) → same b c ≡ true → b ≡ c
same_eq true c h = ground arith
same_eq false c h = ground arith

sourced_by :
    (asked : Bool) (o : Option Text)
    → require (not (asked && not (is_some o))) ech_without_config ≡ ok tt
    → if asked then ((c : Text) × (o ≡ some c)) else Unit
sourced_by true none h = cc
sourced_by true (some c) h = (c, refl)
sourced_by false o h = tt

module _ (is_server_name : Text → Bool) (base64_decode : Text → Option (List ℕ))
    (config : Config) where
  -- A route of a listener, with the templates that they use, can be served as configured.
  pub record IsServable (a : Listener) (ln_tpl : Option Template) (r : Route)
      (rt_tpl : Option Template) : Type 0 where
    pub typed : (t : RouteType) × (effective_route_type r rt_tpl ≡ some t)
    pub dialled :
        (u : ResolvedUpstream) × (resolved_upstream_from (upstream_spec r rt_tpl) a.addr.port
          ≡ some u)
    pub paired : is_some (cert_key r rt_tpl).0 ≡ is_some (cert_key r rt_tpl).1
    pub sourced :
        if is_ech (effective_route_type r rt_tpl)
          && needs_config (effective_ech config.global a r rt_tpl ln_tpl).mode
        then ((c : Text) × ((effective_ech config.global a r rt_tpl ln_tpl).config ≡ some c))
        else Unit
    pub untouched :
        if is_raw (effective_route_type r rt_tpl)
        then ((cert_key r rt_tpl).0 ≡ none)
          × ((effective_http2 config.global a r rt_tpl ln_tpl).enabled ≡ false)
        else Unit
    pub verified :
        IsCoherent is_server_name base64_decode (effective_verify config.global a r rt_tpl ln_tpl)

  default-IsCoherent : IsCoherent is_server_name base64_decode default
  default-IsCoherent = record {
    named = tt;
    pinned = tt;
    at_path = tt;
    name_checked = inl refl;
    anchored = inl refl;
  }

  module _ (a : Listener) (ln_tpl : Option Template) (r : Route) (rt_tpl : Option Template) where
    raw-http2_off :
        is_raw (effective_route_type r rt_tpl) ≡ true
        → (effective_http2 config.global a r rt_tpl ln_tpl).enabled ≡ false
    unfolding effective_http2
    raw-http2_off h = rw h

    validate_verify-IsCoherent :
        validate_verify is_server_name base64_decode config a r rt_tpl ln_tpl ≡ ok tt
        → IsCoherent is_server_name base64_decode (effective_verify config.global a r rt_tpl ln_tpl)
    unfolding validate_verify effective_verify
    validate_verify-IsCoherent h = elim (Bool-cases (dials_tls (effective_route_type r rt_tpl))) [
      | inl tls ↦
          rw (effective_verify, tls)
            ((validate_iff is_server_name base64_decode _).0 (
              as_ok _
                (judged (effective_route_type r rt_tpl) _ _ tls (rw (effective_verify, tls) at h))))
      | inr other ↦ rw other default-IsCoherent
    ]

    validate_route-parts :
        (is_default : Bool)
        → validate_route r is_default a.addr.port rt_tpl ≡ ok tt
        → (is_some (resolved_upstream_from (upstream_spec r rt_tpl) a.addr.port) ≡ true)
          × (is_some (effective_route_type r rt_tpl) ≡ true)
          × (same (is_some (cert_key r rt_tpl).0) (is_some (cert_key r rt_tpl).1) ≡ true)
          × (is_some (cert_key r rt_tpl).0 && is_raw (effective_route_type r rt_tpl) ≡ false)
    unfolding validate_route
    validate_route-parts is_default h = ground arith

  module _ (a : Listener) (ln_tpl : Option Template) (r : Route) (rt_tpl : Option Template) where
    sourced_lem :
        validate_ech is_server_name base64_decode config a r rt_tpl ln_tpl ≡ ok tt
        → if is_ech (effective_route_type r rt_tpl)
            && needs_config (effective_ech config.global a r rt_tpl ln_tpl).mode
          then ((c : Text) × ((effective_ech config.global a r rt_tpl ln_tpl).config ≡ some c))
          else Unit
    unfolding validate_ech
    sourced_lem h = sourced_by _ _ h

    -- Every check of the loop body together.
    pub IsServable-of_checks :
        (is_default : Bool)
        → validate_route r is_default a.addr.port rt_tpl ≡ ok tt
        → validate_ech is_server_name base64_decode config a r rt_tpl ln_tpl ≡ ok tt
        → validate_verify is_server_name base64_decode config a r rt_tpl ln_tpl ≡ ok tt
        → IsServable a ln_tpl r rt_tpl
    IsServable-of_checks is_default route ech verify =
        let (dialled, typed, paired, pinned) =
          validate_route-parts a ln_tpl r rt_tpl is_default route in
        record {
          typed = given _ typed;
          dialled = given _ dialled;
          paired = same_eq _ _ paired;
          sourced = sourced_lem ech;
          untouched = untouched_lem pinned;
          verified = validate_verify-IsCoherent a ln_tpl r rt_tpl verify;
        }
      where
        untouched_lem :
            (is_some (cert_key r rt_tpl).0 && is_raw (effective_route_type r rt_tpl) ≡ false)
            → if is_raw (effective_route_type r rt_tpl)
              then ((cert_key r rt_tpl).0 ≡ none)
                × ((effective_http2 config.global a r rt_tpl ln_tpl).enabled ≡ false)
              else Unit
        untouched_lem pinned = elim (Bool-cases (is_raw (effective_route_type r rt_tpl))) [
          | inl raw ↦ rw raw (none_given _ _ raw pinned, raw-http2_off a ln_tpl r rt_tpl raw)
          | inr other ↦ rw other tt
        ]
