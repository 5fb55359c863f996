-- ===== src/Config/Tests.antt =====
-- Upstreams at concrete inputs.
use sni_gate.Prelude.{ℕ, zero, suc, ◌≡◌, refl, ◌↔◌, true, false, List, [], ◌∷◌, none, some, ok}
use sni_gate.Text.{Text, codes, trim}
use sni_gate.Config.Tables.{VerifyMode, ResolverDef}
use sni_gate.Config.Samples.{
  any_name, config, global, public_listener, site, hidden, named, inline_ech, no_opts,
}
use sni_gate.Config.Verify.{EffectiveVerify, validate}
use sni_gate.Config.Coherence.{IsCoherent, validate_iff}
use sni_gate.Config.Routes.{validate_listeners}
use sni_gate.Config.Validated.{IsValidated, validate_listeners-IsValidated}
use sni_gate.Config.Ladder.{effective, effective_verify}
use sni_gate.Config.Inheritance.{effective_verify-name}
use sni_gate.Config.Upstream.{UpstreamHost, UpstreamSpec, parse_upstream}
use sni_gate.Config.Spelling.{Spelled}
use sni_gate.Config.Scope.{validate_scope_pattern}
use sni_gate.Config.Domains.{IsScopeDomain, ScopeOver, validate_scope_pattern_iff}
use sni_gate.Config.Forms.{parse_upstream_iff}

abbrev edge : UpstreamSpec
edge = record { host = UpstreamHost.pool (codes "edge"); port = some 8443 }

parse_upstream_iff_example :
    (parse_upstream (codes " @edge:8443") ≡ some edge) ↔ Spelled (trim (codes " @edge:8443")) edge
parse_upstream_iff_example = parse_upstream_iff (codes " @edge:8443") edge

validate_scope_pattern_iff_example :
    (validate_scope_pattern (codes "*.example.com") ≡ ok tt)
    ↔ ((d : Text) × IsScopeDomain d × ScopeOver d (trim (codes "*.example.com")))
validate_scope_pattern_iff_example = validate_scope_pattern_iff (codes "*.example.com")

-- A policy that pins a key, under a decoder that finds 32 bytes in everything.
abbrev zeros : ℕ → List ℕ
zeros zero = []
zeros (suc n) = 0 ∷ zeros n

abbrev pinned : EffectiveVerify
pinned = record {
  mode = VerifyMode.chain;
  name = none;
  pins = codes " sha256/AAAA " ∷ [];
  ca_file = some (codes "ca.pem");
  trust_webpki = false;
}

validate_iff_example :
    (validate any_name (λ body. some (zeros 32)) pinned ≡ ok tt)
    ↔ IsCoherent any_name (λ body. some (zeros 32)) pinned
validate_iff_example = validate_iff any_name (λ body. some (zeros 32)) pinned

accepted : validate_listeners any_name (λ body. none) config config.listeners ≡ ok tt
unfolding validate_listeners
accepted = refl

validate_listeners-IsValidated_example : IsValidated any_name (λ body. none) config config.listeners
validate_listeners-IsValidated_example =
    validate_listeners-IsValidated any_name (λ body. none) config config.listeners accepted

effective_verify-name_example :
    (effective_verify global public_listener site (some hidden) none).name
    ≡ (effective_verify
        (record global { verify = some (named (codes "other")) })
        (record public_listener { verify = some (named (codes "third")) })
        site
        (some hidden)
        (some hidden)).name
effective_verify-name_example =
    effective_verify-name global (record global { verify = some (named (codes "other")) })
      public_listener (record public_listener { verify = some (named (codes "third")) }) site
      (some hidden) none (some hidden)

abbrev hidden_resolver : ResolverDef
hidden_resolver = record {
  endpoint = codes "https://dns.example/dns-query";
  upstream = none;
  override_sni = none;
  bootstrap = none;
  ech = some inline_ech;
  verify = none;
  address_family = none;
  nat64_prefix = none;
  connect_timeout = none;
}

-- A route that requires ECH is overruled by a global block that does not.
overruled_tests :
    (effective
      (record global { ech = some (record inline_ech { require_ech = some false }) })
      public_listener
      (record site { common = record no_opts { require_ech = some true } })
      (some hidden)
      none).require_ech
    ≡ false
unfolding effective
overruled_tests = refl

-- What stands in front of the port need not be a name, and the port may have a plus.
loose_tests :
    parse_upstream (codes "a b/?:+443")
    ≡ some (record { host = UpstreamHost.fixed (codes "a b/?"); port = some 443 })
unfolding parse_upstream
loose_tests = refl
