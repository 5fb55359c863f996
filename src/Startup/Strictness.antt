-- ===== src/Startup/Strictness.antt =====
-- src/main.rs: `stricter` takes the stricter of two policies, and a key equals itself.
use sni_gate.Prelude.{ℕ, ◌≤◌, ◌≡◌, refl, ◌⊎◌, inl, inr, true, arith, ◌==◌, Option, none, some}
use sni_gate.Text.Parts.{text_eq_refl}
use sni_gate.Nat64.{Nat64Prefix}
use sni_gate.Config.Tables.{AddressFamily, H2Probe}
use sni_gate.Startup.Probes.{ProbeKey, family_eq, nat64_eq, same_key, stricter}

abbrev pub strength : H2Probe → ℕ
strength H2Probe.off = 0
strength H2Probe.warn = 1
strength H2Probe.require = 2

pub stricter-left : (a b : H2Probe) → strength a ≤ strength (stricter a b)
stricter-left H2Probe.off b = omega arith
stricter-left H2Probe.warn H2Probe.off = omega arith
stricter-left H2Probe.warn H2Probe.warn = omega arith
stricter-left H2Probe.warn H2Probe.require = omega arith
stricter-left H2Probe.require b = omega arith

pub stricter-right : (a b : H2Probe) → strength b ≤ strength (stricter a b)
stricter-right H2Probe.off H2Probe.off = omega arith
stricter-right H2Probe.off H2Probe.warn = omega arith
stricter-right H2Probe.off H2Probe.require = omega arith
stricter-right H2Probe.warn H2Probe.off = omega arith
stricter-right H2Probe.warn H2Probe.warn = omega arith
stricter-right H2Probe.warn H2Probe.require = omega arith
stricter-right H2Probe.require H2Probe.off = omega arith
stricter-right H2Probe.require H2Probe.warn = omega arith
stricter-right H2Probe.require H2Probe.require = omega arith

pub stricter-cases : (a b : H2Probe) → (stricter a b ≡ a) ⊎ (stricter a b ≡ b)
stricter-cases H2Probe.off H2Probe.off = inr refl
stricter-cases H2Probe.off H2Probe.warn = inr refl
stricter-cases H2Probe.off H2Probe.require = inr refl
stricter-cases H2Probe.warn H2Probe.off = inl refl
stricter-cases H2Probe.warn H2Probe.warn = inl refl
stricter-cases H2Probe.warn H2Probe.require = inr refl
stricter-cases H2Probe.require b = inl refl

pub off_lem : (b : H2Probe) → stricter H2Probe.off b ≡ b
off_lem H2Probe.off = refl
off_lem H2Probe.warn = refl
off_lem H2Probe.require = refl

family_eq_refl : (f : AddressFamily) → family_eq f f ≡ true
family_eq_refl AddressFamily.dual = refl
family_eq_refl AddressFamily.ipv4 = refl
family_eq_refl AddressFamily.ipv6 = refl

nat64_eq_refl : (p : Option Nat64Prefix) → nat64_eq p p ≡ true
nat64_eq_refl none = refl
nat64_eq_refl (some p) = ground arith

==_refl : (n : ℕ) → (n == n) ≡ true
==_refl n = ground arith

pub same_key_refl : (k : ProbeKey) → same_key k k ≡ true
unfolding same_key
same_key_refl k =
    rw
      (
        text_eq_refl k.host,
        ==_refl k.port,
        family_eq_refl k.family,
        nat64_eq_refl k.nat64,
        text_eq_refl k.resolver,
      )
      refl
