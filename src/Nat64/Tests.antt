-- ===== src/Nat64/Tests.antt =====
-- Prefixes at concrete inputs.
use sni_gate.Prelude.{ℕ, ◌/◌, ◌%◌, ◌≡◌, refl, arith, ok, err}
use sni_gate.Text.{Text, codes, trim}
use sni_gate.Nat64.{Nat64Prefix, Nat64Error, synthesize, from_str}
use sni_gate.Nat64.Embedding.{Names, IsAddress, synthesize-from_str}

abbrev well_known : Nat64Prefix
well_known = record { prefix = 0x64_ff9b_0000_0000_0000_0000_0000_0000 }

nat64_tests :
    (from_str (codes " 64:ff9b::/96 ") ≡ ok well_known)
    × (from_str (codes "64:ff9b:0:0:0:0") ≡ ok well_known)
    × (from_str (codes "64:ff9b::/64") ≡ err Nat64Error.unsupported_length)
    × (from_str (codes "64:ff9b::/300") ≡ err Nat64Error.invalid_length)
    × (from_str (codes "64:ff9b:0:0:0") ≡ err Nat64Error.invalid_address)
unfolding from_str
nat64_tests = (refl, refl, refl, refl, refl)

synthesize-from_str_example :
    (part : Text) × (addr : ℕ) × Names (codes "64:ff9b::/96") part
    × IsAddress part addr
    × (synthesize well_known 0xc000_0201 / 0x1_0000_0000 ≡ addr / 0x1_0000_0000)
    × (synthesize well_known 0xc000_0201 % 0x1_0000_0000 ≡ 0xc000_0201)
unfolding trim
synthesize-from_str_example =
    synthesize-from_str (codes " 64:ff9b::/96 ") 0xc000_0201 nat64_tests.0 (omega arith)
