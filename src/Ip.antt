-- ===== src/Ip.antt =====
-- `std::net`: the parser behind `str::parse::<IpAddr>`, `Ipv4Addr::from_str` and
-- `Ipv6Addr::from_str`, as src/suffix.rs, src/resolver.rs and src/nat64.rs use it. A parser takes
-- the text that is left and returns its value with the rest; on `none` nothing is consumed.
pub mod Tests
use sni_gate.Prelude.{
  ℕ, zero, suc, ◌+◌, ◌-◌, ◌*◌, ◌/◌, ◌%◌, Bool, true, false, ◌&&◌, ◌||◌, List, [], ◌∷◌, ◌++◌, Option,
  none, some, ltb, leb, ◌==◌, if◌then◌else◌, length, is_some,
}
use sni_gate.Prelude.Options.{◌>>=◌, or_else}
use sni_gate.Text.{Text}

abbrev Parser : Type 0 → Type 0
Parser A = Text → Option (A × Text)

-- `char::to_digit`.
to_digit : ℕ → ℕ → Option ℕ
to_digit radix c =
    if leb b'0' c && leb c b'9'
    then (if ltb (c - b'0') radix then some (c - b'0') else none)
    else if leb b'a' c && ltb c (b'a' + radix - 10)
    then some (c - b'a' + 10)
    else if leb b'A' c && ltb c (b'A' + radix - 10)
    then some (c - b'A' + 10)
    else none

-- The digits from here on, with their number and their value.
read_digits : ℕ → ℕ → ℕ → Text → (ℕ × ℕ) × Text
unfolding to_digit
read_digits radix count value [] = ((count, value), [])
read_digits radix count value (c ∷ s) = elim (to_digit radix c) [
  | none ↦ ((count, value), c ∷ s)
  | some d ↦ read_digits radix (suc count) (value * radix + d) s
]

abbrev starts_zero : Text → Bool
starts_zero [] = false
starts_zero (c ∷ s) = c == b'0'

-- `read_number` with a limit on the digits; `limit` is one past the largest value of the type.
read_number : ℕ → ℕ → Bool → ℕ → Parser ℕ
unfolding read_digits
read_number radix max_digits zero_prefix limit s =
    let ((count, value), rest) = read_digits radix 0 0 s in
    if count == 0 || ltb max_digits count || leb limit value
    then none
    else if starts_zero s && ltb 1 count && (if zero_prefix then false else true)
    then none
    else some (value, rest)

read_given_char : ℕ → Parser (Unit {0})
read_given_char c [] = none
read_given_char c (d ∷ s) = if d == c then some (tt, s) else none

abbrev read_separator : {A : Type 0} → ℕ → ℕ → Parser A → Parser A
read_separator sep zero inner s = inner s
read_separator sep (suc index) inner s = read_given_char sep s >>= λ r. inner r.1

read_octet : Parser ℕ
unfolding read_number
read_octet = read_number 10 3 false 256

-- The address as a number.
read_ipv4_addr : Parser ℕ
unfolding read_octet read_given_char
read_ipv4_addr s = do
  (a, s1) ← read_separator b'.' 0 read_octet s
  (b, s2) ← read_separator b'.' 1 read_octet s1
  (c, s3) ← read_separator b'.' 2 read_octet s2
  (d, s4) ← read_separator b'.' 3 read_octet s3
  some (((a * 256 + b) * 256 + c) * 256 + d, s4)

read_group : Parser ℕ
unfolding read_number
read_group = read_number 16 4 true 0x1_0000

-- `read_groups` from index `i` with `left` groups to fill: the groups, whether they end in an IPv4
-- address, and the rest.
read_groups : ℕ → ℕ → Text → (List ℕ × Bool) × Text
unfolding read_ipv4_addr read_group read_given_char
read_groups i zero s = (([], false), s)
read_groups i (suc left) s =
    let embedded : Option (ℕ × Text) =
      if ltb 0 left then read_separator b':' i read_ipv4_addr s else none in
    elim embedded [
      | some (v4, rest) ↦ (((v4 / 0x1_0000) ∷ (v4 % 0x1_0000) ∷ [], true), rest)
      | none ↦ elim (read_separator b':' i read_group s) [
        | none ↦ (([], false), s)
        | some (group, rest) ↦
            let ((groups, v4), rest') = read_groups (suc i) left rest in
            ((group ∷ groups, v4), rest')
      ]
    ]

zeros : ℕ → List ℕ
zeros zero = []
zeros (suc n) = 0 ∷ zeros n

-- The eight groups of 16 bits.
read_ipv6_addr : Parser (List ℕ)
unfolding read_groups read_given_char zeros
read_ipv6_addr s =
    let ((head, head_ipv4), s1) = read_groups 0 8 s in
    if length head == 8 then some (head, s1) else if head_ipv4 then none else (do
      (_, s2) ← read_given_char b':' s1
      (_, s3) ← read_given_char b':' s2
      let ((tail, _), s4) = read_groups 0 (7 - length head) s3
      some ((head ++ zeros (8 - length head - length tail)) ++ tail, s4))

-- `parse_with`: nothing may be left.
abbrev at_end : {A : Type 0} → Option (A × Text) → Option A
at_end none = none
at_end (some (a, [])) = some a
at_end (some (a, c ∷ s)) = none

unfoldable pub parse_ipv6 : Text → Option (List ℕ)
unfolding read_ipv6_addr
parse_ipv6 s = at_end (read_ipv6_addr s)

unfoldable pub parse_ipv4 : Text → Option ℕ
unfolding read_ipv4_addr
parse_ipv4 s = if ltb 15 (length s) then none else at_end (read_ipv4_addr s)

abbrev parses : {A : Type 0} → Option (A × Text) → Option (List ℕ × Text) → Bool
parses (some (a, rest)) v6 = is_some (at_end (some (a, rest)))
parses none v6 = is_some (at_end v6)

-- `s.parse::<IpAddr>().is_ok()`.
unfoldable pub is_ip_addr : Text → Bool
unfolding read_ipv4_addr read_ipv6_addr
is_ip_addr s = parses (read_ipv4_addr s) (read_ipv6_addr s)
