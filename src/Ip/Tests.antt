-- ===== src/Ip/Tests.antt =====
-- The address parser at addresses that the standard library accepts or refuses.
use sni_gate.Prelude.{◌≡◌, refl, true, false, [], ◌∷◌, some, none}
use sni_gate.Text.{codes}
use sni_gate.Ip.{parse_ipv4, parse_ipv6, is_ip_addr}

ipv6_accepted :
    (parse_ipv6 (codes "64:ff9b::") ≡ some (0x64 ∷ 0xff9b ∷ 0 ∷ 0 ∷ 0 ∷ 0 ∷ 0 ∷ 0 ∷ []))
    × (parse_ipv6 (codes "::1") ≡ some (0 ∷ 0 ∷ 0 ∷ 0 ∷ 0 ∷ 0 ∷ 0 ∷ 1 ∷ []))
    × (parse_ipv6 (codes "::ffff:1.2.3.4") ≡ some (0 ∷ 0 ∷ 0 ∷ 0 ∷ 0 ∷ 0xffff ∷ 0x102 ∷ 0x304 ∷ []))
    × (parse_ipv6 (codes "1:2:3:4:5:6:7:8") ≡ some (1 ∷ 2 ∷ 3 ∷ 4 ∷ 5 ∷ 6 ∷ 7 ∷ 8 ∷ []))
    × (parse_ipv6 (codes "2a01:4f8:c2c:123f:64:5:0:0")
        ≡ some (0x2a01 ∷ 0x4f8 ∷ 0xc2c ∷ 0x123f ∷ 0x64 ∷ 5 ∷ 0 ∷ 0 ∷ []))
unfolding parse_ipv6
ipv6_accepted = (refl, refl, refl, refl, refl)

ipv6_refused :
    (parse_ipv6 (codes "2a01:4f8:c2c") ≡ none)
    × (parse_ipv6 (codes "1:2:3:4:5:6:7::8:9") ≡ none)
    × (parse_ipv6 (codes "1.2.3.4::") ≡ none)
    × (parse_ipv6 (codes "12345::") ≡ none)
    × (parse_ipv6 (codes "") ≡ none)
unfolding parse_ipv6
ipv6_refused = (refl, refl, refl, refl, refl)

ip_addr_tests :
    (is_ip_addr (codes "127.0.0.1") ≡ true)
    × (is_ip_addr (codes "::1") ≡ true)
    × (is_ip_addr (codes "127.0.0.01") ≡ false)
    × (is_ip_addr (codes "256.0.0.1") ≡ false)
    × (is_ip_addr (codes "co.uk") ≡ false)
    × (parse_ipv4 (codes "203.0.113.5") ≡ some 0xcb00_7105)
unfolding is_ip_addr parse_ipv4
ip_addr_tests = (refl, refl, refl, refl, refl, refl)
