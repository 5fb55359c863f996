-- ===== src/Config/Resolvers.antt =====
-- src/config.rs: the settings of a named resolver and of a probe's ECH block, and the lookups of
-- resolver references.
use sni_gate.Prelude.{ℕ, Bool, true, List, [], ◌∷◌, Option, none, some, Result, ok, err, ◌>>=◌}
use sni_gate.Prelude.Options.{or_else}
use sni_gate.Prelude.Tiers.{flatten, unwrap_or, and_then}
use sni_gate.Text.{Text, codes, trim, starts_with, strip_prefix}
use sni_gate.Router.Table.{HashMap, get}
use sni_gate.Config.Tables.{
  SniPolicy, AddressFamily, EchMode, EchConfig, Global, ResolverDef, Config,
}
use sni_gate.Config.Verify.{EffectiveVerify, resolve_verify}
use sni_gate.Config.Ladder.{EffectiveEch, default_ech_refresh, default_connect_timeout, resolve_sni}

pub record EffectiveResolver : Type 0 where
  pub name : Text
  pub endpoint : Text
  pub upstream : Option Text
  pub sni_policy : SniPolicy
  pub bootstrap : Option Text
  pub address_family : AddressFamily
  pub nat64_prefix : Option Text
  pub connect_timeout : ℕ
  pub ech : Option EffectiveEch
  pub require_ech : Bool
  pub ech_refresh : ℕ
  pub ech_resolver : Option Text
  pub verify : EffectiveVerify

pub record EffectiveProbeEch : Type 0 where
  pub settings : EffectiveEch
  pub require_ech : Bool
  pub ech_refresh : ℕ
  pub ech_resolver : Option Text

-- `Option::map`.
abbrev pub mapped {ℓ κ} : {A : Type ℓ} {B : Type κ} → (A → B) → Option A → Option B
mapped f none = none
mapped f (some a) = some (f a)

-- An `[ech]` block over `[global.ech]`, field by field.
abbrev pub own_ech : Option EchConfig → EchConfig → EffectiveEch
own_ech ge e = record {
  mode = unwrap_or EchMode.doh (or_else e.mode (and_then ge (λ g. g.mode)));
  config = or_else e.config (and_then ge (λ g. g.config));
  ech_domain = or_else e.ech_domain (and_then ge (λ g. g.ech_domain));
  max_retries = unwrap_or 2 (or_else e.max_retries (and_then ge (λ g. g.max_retries)));
}

abbrev pub own_require_ech : Global → EchConfig → Option Bool
own_require_ech global e =
    or_else e.require_ech
      (or_else (and_then global.ech (λ g. g.require_ech)) global.common.require_ech)

abbrev pub own_ech_refresh : Global → EchConfig → Option ℕ
own_ech_refresh global e =
    or_else e.ech_refresh
      (or_else (and_then global.ech (λ g. g.ech_refresh)) global.common.ech_refresh)

-- `ResolverDef::effective`.
unfoldable pub effective_of_def : ResolverDef → Text → Global → EffectiveResolver
unfolding resolve_sni resolve_verify
effective_of_def def name global =
    let g = global.common in
    record {
      name = name;
      endpoint = def.endpoint;
      upstream = def.upstream;
      sni_policy = resolve_sni def.override_sni;
      bootstrap = def.bootstrap;
      address_family = unwrap_or AddressFamily.dual (or_else def.address_family g.address_family);
      nat64_prefix = or_else def.nat64_prefix g.nat64_prefix;
      connect_timeout =
          unwrap_or default_connect_timeout (or_else def.connect_timeout g.connect_timeout);
      ech = mapped (own_ech global.ech) def.ech;
      require_ech = unwrap_or true (and_then def.ech (own_require_ech global));
      ech_refresh = unwrap_or default_ech_refresh (and_then def.ech (own_ech_refresh global));
      ech_resolver = and_then def.ech (λ e. e.ech_resolver);
      verify = resolve_verify def.verify global;
    }

-- `EffectiveProbeEch::resolve`.
unfoldable pub resolve_probe_ech : EchConfig → Global → EffectiveProbeEch
resolve_probe_ech ech global = record {
  settings = own_ech global.ech ech;
  require_ech = unwrap_or true (own_require_ech global ech);
  ech_refresh = unwrap_or default_ech_refresh (own_ech_refresh global ech);
  ech_resolver = ech.ech_resolver;
}

unfoldable pub references : ResolverDef → List Text
unfolding flatten
references def = flatten (def.bootstrap ∷ and_then def.ech (λ e. e.ech_resolver) ∷ [])

unfoldable pub is_resolver_ref : Text → Bool
unfolding trim
is_resolver_ref spec = starts_with b'@' (trim spec)

pub data ResolverError : Type 0 where
  unknown_resolver : (name : Text) → ResolverError
  not_a_reference : (spec : Text) → ResolverError
  bare_reference : ResolverError

unfoldable pub resolver_def : HashMap ResolverDef → Text → Result ResolverDef ResolverError
unfolding get
resolver_def resolvers name = elim (get resolvers name) [
  | none ↦ err (unknown_resolver name)
  | some def ↦ ok def
]

abbrev pub def_of_name : HashMap ResolverDef → Text → Option Text → Result ResolverDef ResolverError
unfolding resolver_def
def_of_name resolvers spec none = err (not_a_reference spec)
def_of_name resolvers spec (some []) = err bare_reference
def_of_name resolvers spec (some (c ∷ name)) = resolver_def resolvers (c ∷ name)

unfoldable pub resolve_resolver_ref : HashMap ResolverDef → Text → Result ResolverDef ResolverError
unfolding def_of_name resolver_def trim
resolve_resolver_ref resolvers spec =
    def_of_name resolvers spec (strip_prefix (codes "@") (trim spec))

unfoldable pub effective_resolver : Config → Text → Result EffectiveResolver ResolverError
unfolding resolver_def effective_of_def
effective_resolver config name =
    resolver_def config.resolvers name >>= λ def. ok (effective_of_def def name config.global)
