-- ===== src/Startup/Probes.antt =====
-- src/main.rs: `stricter`, `group_probe_targets` and the verdict of `run_probes`.
use sni_gate.Prelude.{
  ℕ, Bool, true, false, not, ◌&&◌, List, [], ◌∷◌, ◌++◌, Option, none, some, ltb, ◌==◌,
  if◌then◌else◌,
}
use sni_gate.Text.{Text, text_eq}
use sni_gate.Nat64.{Nat64Prefix}
use sni_gate.Config.Tables.{AddressFamily, H2Probe}
use sni_gate.Proxy.Dispatch.{DnsResolver}
use sni_gate.Startup.Parts.{ProbeTarget}

pub record ProbeKey : Type 0 where
  pub host : Text
  pub port : ℕ
  pub family : AddressFamily
  pub nat64 : Option Nat64Prefix
  pub resolver : Text

pub record ProbeGroup : Type 0 where
  pub routes : List Text
  pub policy : H2Probe
  pub budget : ℕ
  pub resolver : DnsResolver

abbrev pub resolver_label : DnsResolver → Text
resolver_label (DnsResolver.named name) = name
resolver_label (DnsResolver.inline spec family) = spec

abbrev pub family_eq : AddressFamily → AddressFamily → Bool
family_eq AddressFamily.dual AddressFamily.dual = true
family_eq AddressFamily.ipv4 AddressFamily.ipv4 = true
family_eq AddressFamily.ipv6 AddressFamily.ipv6 = true
family_eq _ _ = false

abbrev pub nat64_eq : Option Nat64Prefix → Option Nat64Prefix → Bool
nat64_eq none none = true
nat64_eq (some p) (some q) = p.prefix == q.prefix
nat64_eq _ _ = false

unfoldable pub same_key : ProbeKey → ProbeKey → Bool
same_key a b =
    text_eq a.host b.host
    && a.port == b.port
    && family_eq a.family b.family
    && nat64_eq a.nat64 b.nat64
    && text_eq a.resolver b.resolver

abbrev pub probe_key : ProbeTarget → ProbeKey
probe_key t = record {
  host = t.host;
  port = t.port;
  family = t.family;
  nat64 = t.nat64;
  resolver = resolver_label t.resolver;
}

abbrev pub stricter : H2Probe → H2Probe → H2Probe
stricter H2Probe.require b = H2Probe.require
stricter H2Probe.warn H2Probe.require = H2Probe.require
stricter H2Probe.warn H2Probe.warn = H2Probe.warn
stricter H2Probe.warn H2Probe.off = H2Probe.warn
stricter H2Probe.off H2Probe.require = H2Probe.require
stricter H2Probe.off H2Probe.warn = H2Probe.warn
stricter H2Probe.off H2Probe.off = H2Probe.off

abbrev pub max : ℕ → ℕ → ℕ
max a b = if ltb a b then b else a

-- A group before its first target.
abbrev pub new_group : DnsResolver → ProbeGroup
new_group resolver = record { routes = []; policy = H2Probe.off; budget = 0; resolver = resolver }

abbrev pub join_group : ProbeTarget → ProbeGroup → ProbeGroup
join_group t g = record g {
  routes = g.routes ++ t.route ∷ [];
  policy = stricter g.policy t.policy;
  budget = max g.budget t.budget;
}

-- `entry(key).or_insert_with(…)`, and what is done with the entry.
unfoldable pub add_target :
    ProbeTarget → List (ProbeKey × ProbeGroup) → List (ProbeKey × ProbeGroup)
unfolding same_key
add_target t [] = (probe_key t, join_group t (new_group t.resolver)) ∷ []
add_target t ((k, g) ∷ groups) =
    if same_key k (probe_key t) then (k, join_group t g) ∷ groups else (k, g) ∷ add_target t groups

unfoldable pub add_targets :
    List ProbeTarget → List (ProbeKey × ProbeGroup) → List (ProbeKey × ProbeGroup)
unfolding add_target
add_targets [] groups = groups
add_targets (t ∷ targets) groups = add_targets targets (add_target t groups)

unfoldable pub group_probe_targets : List ProbeTarget → List (ProbeKey × ProbeGroup)
unfolding add_targets
group_probe_targets targets = add_targets targets []

abbrev pub is_required : H2Probe → Bool
is_required H2Probe.off = false
is_required H2Probe.warn = false
is_required H2Probe.require = true

-- The failures that `run_probes` collects, where `answers` says which probes succeed; start-up goes
-- on if there are none. The order in which probes end decides the order of the failures alone.
module _ (answers : ProbeKey → ℕ → Bool) where
  unfoldable pub probe_failures : List (ProbeKey × ProbeGroup) → List (List Text)
  probe_failures [] = []
  probe_failures ((k, g) ∷ groups) =
      let rest = probe_failures groups in
      if is_required g.policy && not (answers k g.budget) then g.routes ∷ rest else rest

  abbrev pub no_failures : List (List Text) → Bool
  no_failures [] = true
  no_failures (f ∷ fs) = false

  unfoldable pub run_probes : List ProbeTarget → Bool
  unfolding probe_failures group_probe_targets
  run_probes targets = no_failures (probe_failures (group_probe_targets targets))
