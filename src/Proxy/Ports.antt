-- ===== src/Proxy/Ports.antt =====
-- src/proxy.rs: the port of a routing key has no say in where the connection goes.
use sni_gate.Prelude.{
  ℕ, suc, ◌≡◌, refl, sym, ap, ◌∙◌, ◌≢◌, true, false, [], ◌∷◌, ◌++◌, Option, none, some, arith, All,
  Bool, Option-cases, inl, inr, get_elem?,
}
use mathlib.Core.List.{append-nil}
use sni_gate.Text.{Text, codes, lower, to_ascii_lowercase, strip_prefix}
use sni_gate.Text.Parts.{Lacks}
use sni_gate.Text.Trimming.{split_first-append, split_first_of_Lacks}
use sni_gate.Router.Hosts.{IsPlain, IsHost}
use sni_gate.Router.Build.{RegexEngine}
use sni_gate.Router.Matching.{match_host}
use sni_gate.Router.Matching.Spelling.{match_host-spelling}
use sni_gate.Peek.Classify.{Inbound, key, is_tls}
use sni_gate.Config.Tables.{SniPolicy}
use sni_gate.Proxy.Dispatch.{
  Upstream, RouteRuntime, ListenerState, count_colons, strip_port, dial_host, effective_sni,
  serve_route, route_at, dispatch,
}

count_colons_of_Lacks : (s : Text) → Lacks b':' s → count_colons s ≡ 0
unfolding count_colons
count_colons_of_Lacks [] h = refl
count_colons_of_Lacks (c ∷ s) h = ground (arith, count_colons_of_Lacks s h.1)

count_colons-append : (a b : Text) → Lacks b':' a → Lacks b':' b → count_colons (a ++ b':' ∷ b) ≡ 1
unfolding count_colons
count_colons-append [] b ha hb = ap suc (count_colons_of_Lacks b hb)
count_colons-append (c ∷ a) b ha hb = ground (arith, count_colons-append a b ha.1 hb)

-- Neither of the marks that `strip_port` looks for.
abbrev NoMarks : Text → Type 0
NoMarks s = Lacks b':' s × Lacks b'[' s

NoMarks-cons : (c : ℕ) (s : Text) → IsPlain (lower c) → NoMarks s → NoMarks (c ∷ s)
unfolding lower
NoMarks-cons c s p h =
    (((λ e. p.no_colon (ap lower e)), h.0), ((λ e. p.no_bracket (ap lower e)), h.1))

NoMarks-of_IsPlain : (s : Text) → All IsPlain (to_ascii_lowercase s) → NoMarks s
unfolding to_ascii_lowercase
NoMarks-of_IsPlain [] h = (tt, tt)
NoMarks-of_IsPlain (c ∷ s) h = NoMarks-cons c s h.0 (NoMarks-of_IsPlain s h.1)

unbracketed :
    (s : Text) (t : Text) → s ≢ [] → Lacks b'[' s → strip_prefix (codes "[") (s ++ t) ≡ none
unbracketed [] t ne h = absurd (ne refl)
unbracketed (c ∷ s) t ne h = ground (arith, h.0)

strip_port-port :
    (s port : Text) → s ≢ [] → NoMarks s → Lacks b':' port → strip_port (s ++ b':' ∷ port) ≡ s
unfolding strip_port
strip_port-port s port ne h lacks =
    rw (unbracketed s (b':' ∷ port) ne h.1, count_colons-append s port h.0 lacks)
      (split_first-append b':' s port h.0)

strip_port-bare : (s : Text) → s ≢ [] → NoMarks s → strip_port s ≡ s
unfolding strip_port
strip_port-bare s ne h =
    rw
      (
        ap (strip_prefix (codes "[")) (sym (append-nil s)) ∙ unbracketed s [] ne h.1,
        count_colons_of_Lacks s h.0,
      )
      (split_first_of_Lacks b':' s h.0)

module _ (a b : Text) (same : strip_port a ≡ strip_port b) where
  effective_sni-same : (p : SniPolicy) → effective_sni p (some a) ≡ effective_sni p (some b)
  effective_sni-same SniPolicy.reflect = ap some same
  effective_sni-same SniPolicy.omit = ap some same
  effective_sni-same (SniPolicy.fixed name) = refl

  dial_host-same : (u : Upstream) → dial_host u (some a) ≡ dial_host u (some b)
  dial_host-same (Upstream.direct none family nat64 resolver) = ap some same
  dial_host-same (Upstream.direct (some host) family nat64 resolver) = refl
  dial_host-same (Upstream.pool name view) = refl

  serve_route-same :
      (id : ℕ) (rt : RouteRuntime) (over_tls : Bool)
      → serve_route id rt over_tls (some a) ≡ serve_route id rt over_tls (some b)
  serve_route-same id rt over_tls =
      rw (effective_sni-same rt.sni_policy, dial_host-same rt.upstream) refl

  route_at-same :
      (state : ListenerState) (over_tls : Bool) (o : Option ℕ)
      → route_at state over_tls (some a) o ≡ route_at state over_tls (some b) o
  route_at-same state over_tls none = refl
  route_at-same state over_tls (some id) = elim (Option-cases (get_elem? state.routes id)) [
    | inl miss ↦ rw (route_at, miss) refl
    | inr (rt, hit) ↦ rw (route_at, hit) (ap some (serve_route-same id rt over_tls))
  ]

-- A connection that names a host with a port goes where one goes that names the host alone, to the
-- same route with the same effective SNI and dial host, over TLS as over HTTP; the host is one that
-- the router could hold, in letters of any case.
pub dispatch-port :
    (engine : RegexEngine) (state : ListenerState) (s port : Text)
    → IsHost (to_ascii_lowercase s)
    → Lacks b':' port
    → (dispatch engine state (Inbound.tls (some (s ++ b':' ∷ port)))
        ≡ dispatch engine state (Inbound.tls (some s)))
      × (dispatch engine state (Inbound.http (some (s ++ b':' ∷ port)))
          ≡ dispatch engine state (Inbound.http (some s)))
unfolding dispatch key is_tls
dispatch-port engine state s port i lacks = (goes true, goes false)
  where
    present : s ≢ []
    present e = i.present (ap to_ascii_lowercase e)

    stripped : strip_port (s ++ b':' ∷ port) ≡ strip_port s
    stripped =
        strip_port-port s port present (NoMarks-of_IsPlain s i.plain) lacks
        ∙ sym (strip_port-bare s present (NoMarks-of_IsPlain s i.plain))

    routed : match_host engine state.router (s ++ b':' ∷ port) ≡ match_host engine state.router s
    routed =
        let (bare, ported) = match_host-spelling engine state.router s 0 port i in
        ap (λ t. match_host engine state.router (t ++ b':' ∷ port)) (sym (append-nil s))
        ∙ ported
        ∙ sym (ap (match_host engine state.router) (sym (append-nil s)) ∙ bare)

    goes :
        (over_tls : Bool)
        → route_at state over_tls
            (some (s ++ b':' ∷ port))
            (match_host engine state.router (s ++ b':' ∷ port))
          ≡ route_at state over_tls (some s) (match_host engine state.router s)
    goes over_tls =
        ap (route_at state over_tls (some (s ++ b':' ∷ port))) routed
        ∙ route_at-same (s ++ b':' ∷ port) s stripped state over_tls
            (match_host engine state.router s)
