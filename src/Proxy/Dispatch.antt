-- ===== src/Proxy/Dispatch.antt =====
-- src/proxy.rs: `dispatch` up to the point where it serves the connection, with `strip_port`,
-- `Upstream::dial_host` and the names that a handshake verifies. The serving itself is network
-- I/O.
use sni_gate.Prelude.{
  ℕ, suc, Bool, true, false, ◌&&◌, List, [], ◌∷◌, Option, none, some, ltb, ◌==◌, if◌then◌else◌,
  get_elem?,
}
use sni_gate.Prelude.Options.{or_else}
use sni_gate.Prelude.Tiers.{and_then}
use sni_gate.Text.{Text, codes, strip_prefix, split_once, split_first}
use sni_gate.Router.Build.{RegexEngine, Router}
use sni_gate.Router.Matching.{match_host}
use sni_gate.Config.Tables.{RouteType, SniPolicy, AddressFamily, FailPolicy}
use sni_gate.Config.Verify.{EffectiveVerify}
use sni_gate.Config.Ladder.{EffectiveEch}
use sni_gate.Nat64.{Nat64Prefix}
use sni_gate.Peek.Classify.{Inbound, key, is_tls}

-- A resolver by its entry of `[resolvers]`, or by the inline specification and the family that it
-- was built from.
pub data DnsResolver : Type 0 where
  named : (name : Text) → DnsResolver
  inline : (spec : Text) (family : AddressFamily) → DnsResolver

-- The handle of a pool is the pool's name and the id of a view.
pub data Upstream : Type 0 where
  direct :
      (host : Option Text) (family : AddressFamily) (nat64 : Option Nat64Prefix)
      (resolver : DnsResolver)
      → Upstream
  pool : (name : Text) (view : ℕ) → Upstream

-- What an ECH provider is made from, beside the verification of the route.
pub record EchProvider : Type 0 where
  pub settings : EffectiveEch
  pub upstream_port : ℕ
  pub require_ech : Bool
  pub enable_sni : Bool
  pub resolver : DnsResolver
  pub refresh_bound : ℕ

-- An `UpstreamVerify` is the policy that it checks, and the client configurations of a `tls` route
-- are whether they send an SNI.
pub record RouteRuntime : Type 0 where
  pub name : Text
  pub route_type : RouteType
  pub upstream : Upstream
  pub upstream_port : ℕ
  pub sni_policy : SniPolicy
  pub http2 : Bool
  pub require_ech : Bool
  pub max_retries : ℕ
  pub connect_timeout : ℕ
  pub idle_timeout : ℕ
  pub fail : FailPolicy
  pub ech : Option EchProvider
  pub verify : Option EffectiveVerify
  pub tls : Option Bool

pub record ListenerState : Type 0 where
  pub router : Router
  pub routes : List RouteRuntime

-- `host.matches(':').count()`.
unfoldable pub count_colons : Text → ℕ
count_colons [] = 0
count_colons (c ∷ s) = if c == b':' then suc (count_colons s) else count_colons s

abbrev pub inner_of : Text → Option (Text × Text) → Text
inner_of rest none = rest
inner_of rest (some (inner, tail)) = inner

abbrev pub strip_unbracketed : Text → Option Text → Text
strip_unbracketed host (some rest) = inner_of rest (split_once b']' rest)
strip_unbracketed host none = if ltb 1 (count_colons host) then host else split_first b':' host

unfoldable pub strip_port : Text → Text
unfolding split_once split_first count_colons
strip_port host = strip_unbracketed host (strip_prefix (codes "[") host)

abbrev pub map_key : (Text → Text) → Option Text → Option Text
map_key f none = none
map_key f (some k) = some (f k)

abbrev pub dial_host : Upstream → Option Text → Option Text
dial_host (direct (some host) family nat64 resolver) k = some host
dial_host (direct none family nat64 resolver) k = map_key strip_port k
dial_host (pool name view) k = none

abbrev pub effective_sni : SniPolicy → Option Text → Option Text
effective_sni (SniPolicy.fixed name) k = some name
effective_sni SniPolicy.reflect k = map_key strip_port k
effective_sni SniPolicy.omit k = map_key strip_port k

abbrev pub silent_name_override : RouteRuntime → Option Text
silent_name_override rt = elim rt.sni_policy [
  | SniPolicy.reflect ↦ none
  | SniPolicy.omit ↦ and_then rt.verify (λ v. v.name)
  | SniPolicy.fixed name ↦ none
]

-- `none` is the error.
abbrev pub tls_verification_name : RouteRuntime → Option Text → Option Text → Option Text
tls_verification_name rt sni dial = or_else sni (or_else dial (silent_name_override rt))

abbrev pub ech_inner_name : RouteRuntime → Option Text → Option Text
ech_inner_name rt sni = or_else sni (silent_name_override rt)

-- Which way a connection goes, with its route, its effective SNI and its dial host.
pub data Action : Type 0 where
  unmatched : Action
  raw_passthrough : (id : ℕ) (dial : Option Text) → Action
  mirrored terminated plaintext : (id : ℕ) (sni dial : Option Text) → Action

abbrev pub is_mirrored : RouteType → Bool
is_mirrored RouteType.ech = true
is_mirrored RouteType.tls = true
is_mirrored RouteType.http = false
is_mirrored RouteType.raw = false

abbrev pub is_raw : RouteType → Bool
is_raw RouteType.ech = false
is_raw RouteType.tls = false
is_raw RouteType.http = false
is_raw RouteType.raw = true

abbrev pub serve_route : ℕ → RouteRuntime → Bool → Option Text → Action
serve_route id rt over_tls k =
    let sni = effective_sni rt.sni_policy k in
    let dial = dial_host rt.upstream k in
    if is_raw rt.route_type
    then raw_passthrough id dial
    else if over_tls
    then (if rt.http2 && is_mirrored rt.route_type
        then mirrored id sni dial
        else terminated id sni dial)
    else plaintext id sni dial

-- `state.routes[id]` panics out of range: a route id of the router is an index of `routes`.
abbrev pub route_at : ListenerState → Bool → Option Text → Option ℕ → Option Action
route_at state over_tls k none = some unmatched
route_at state over_tls k (some id) = elim (get_elem? state.routes id) [
  | none ↦ none
  | some rt ↦ some (serve_route id rt over_tls k)
]

abbrev pub key_or_empty : Option Text → Text
key_or_empty none = []
key_or_empty (some k) = k

unfoldable pub dispatch : RegexEngine → ListenerState → Inbound → Option Action
unfolding match_host strip_port key is_tls
dispatch engine state inbound =
    route_at state (is_tls inbound) (key inbound)
      (match_host engine state.router (key_or_empty (key inbound)))
