-- ===== src/Nat64/Embedding.antt =====
-- src/nat64.rs: where a prefix comes from, and an address that is embedded in it.
use sni_gate.Prelude.{
  ℕ, ◌*◌, ◌/◌, ◌%◌, ◌<◌, ◌≡◌, refl, sym, ap, subst, ◌∙◌, ◌⊎◌, inl, inr, ◌&&◌, not, arith, List, [],
  ◌∷◌, ◌++◌, some, none, ◌==◌, ==_iff, Bool-cases, Option-cases, Result, ok, ok_so_far,
}
use sni_gate.Text.{Text, codes, trim, split_once}
use sni_gate.Text.Numbers.{parse_uint}
use sni_gate.Text.Parts.{Lacks, split_once-some, split_once-none}
use sni_gate.Ip.{parse_ipv6}
use sni_gate.Nat64.{
  Nat64Prefix, number_from, from_ipv6, synthesize, count_groups, has_compression,
  parse_prefix_address, address_part, from_trimmed, from_str,
}

-- A text that names an address alone, or an address and the length 96 behind a slash.
pub data Names : Text → Text → Type 0 where
  bare : (part : Text) → Lacks b'/' part → Names part part
  sized :
      (part len : Text)
      → Lacks b'/' part
      → parse_uint 256 len ≡ some 96
      → Names (part ++ b'/' ∷ len) part

-- The number of the IPv6 address that a text is, or, where it is none, is with two groups of zeros
-- behind it.
abbrev pub IsAddress : Text → ℕ → Type 0
IsAddress part addr =
    ((groups : List ℕ) × (parse_ipv6 part ≡ some groups) × (addr ≡ number_from 0 groups))
    ⊎ ((groups : List ℕ) × (parse_ipv6 part ≡ none)
        × (parse_ipv6 (part ++ codes ":0:0") ≡ some groups)
        × (addr ≡ number_from 0 groups))

same_ok : {A E : Type 0} {a b : A} {r : Result A E} → r ≡ ok a → r ≡ ok b → a ≡ b
same_ok h k = cc

address_part-Names :
    (s : Text) {part : Text} → address_part s (split_once b'/' s) ≡ ok part → Names s part
address_part-Names s {part = part} h = elim (Option-cases (split_once b'/' s)) [
  | inl none' ↦
      subst (Names s) (same_ok refl (rw none' at h)) (bare s (split_once-none b'/' s none'))
  | inr ((a, len), k) ↦
      let (whole, lacks) = split_once-some b'/' s k in
      elim (Option-cases (parse_uint 256 len)) [
        | inl bad ↦ cc (rw (k, bad) at h)
        | inr (n, parsed) ↦ elim (Bool-cases (n == 96)) [
          | inr other ↦ cc (rw (k, parsed, other) at h)
          | inl is_96 ↦ subst (Names s) (same_ok refl (rw (k, parsed, is_96) at h)) (
              subst (λ x. Names x a) (sym whole)
                (sized a len lacks (parsed ∙ ap (λ x. some x) ((==_iff n 96).0 is_96))))
        ]
      ]
]

parse_prefix_address-IsAddress :
    (part : Text) {addr : ℕ} → parse_prefix_address part ≡ ok addr → IsAddress part addr
unfolding parse_prefix_address
parse_prefix_address-IsAddress part {addr = addr} h = elim (Option-cases (parse_ipv6 part)) [
  | inr (groups, k) ↦ inl (groups, k, sym (same_ok refl (rw k at h)))
  | inl short ↦ elim (Bool-cases (count_groups part == 6 && not (has_compression part))) [
    | inr other ↦ cc (rw (short, other) at h)
    | inl six ↦ elim (Option-cases (parse_ipv6 (part ++ codes ":0:0"))) [
      | inl bad ↦ cc (rw (short, six, bad) at h)
      | inr (groups, k) ↦ inr (groups, short, k, sym (same_ok refl (rw (short, six, k) at h)))
    ]
  ]
]

-- What a prefix that was read comes from: the part of the text that names its address, and that
-- address, of which it is the high 96 bits.
from_trimmed-Names :
    (s : Text) {p : Nat64Prefix}
    → from_trimmed s ≡ ok p
    → (part : Text) × (addr : ℕ) × Names s part × IsAddress part addr × (p ≡ from_ipv6 addr)
from_trimmed-Names [] h = cc
from_trimmed-Names (c ∷ s) {p = p} h =
    let (part, at, went) = ok_so_far (address_part (c ∷ s) (split_once b'/' (c ∷ s))) _ h in
    let (addr, read, built) = ok_so_far (parse_prefix_address part) _ went in
    (
      part,
      addr,
      address_part-Names (c ∷ s) at,
      parse_prefix_address-IsAddress part read,
      sym (same_ok refl built),
    )

aligned :
    (addr : ℕ) (p : Nat64Prefix)
    → p ≡ from_ipv6 addr
    → p.prefix ≡ addr / 0x1_0000_0000 * 0x1_0000_0000
unfolding from_ipv6
aligned addr p e = ap (λ q. q.prefix) e

-- A prefix that is parsed comes from the IPv6 address that the text names in front of an optional
-- length of 96, a text that is no address being completed by two groups of zeros; an address that is
-- synthesized under it has the high 96 bits of that address, and the IPv4 address as its low 32 bits.
pub synthesize-from_str :
    (s : Text) {p : Nat64Prefix} (ipv4 : ℕ)
    → from_str s ≡ ok p
    → ipv4 < 0x1_0000_0000
    → (part : Text) × (addr : ℕ) × Names (trim s) part
      × IsAddress part addr
      × (synthesize p ipv4 / 0x1_0000_0000 ≡ addr / 0x1_0000_0000)
      × (synthesize p ipv4 % 0x1_0000_0000 ≡ ipv4)
unfolding from_str synthesize
synthesize-from_str s {p = p} ipv4 h lt =
    let (part, addr, names, read, same) = from_trimmed-Names (trim s) h in
    let low = aligned addr p same in
    (part, addr, names, read, omega (arith, low, lt), omega (arith, low, lt))
