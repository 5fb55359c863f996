-- ===== src/Nat64.antt =====
-- src/nat64.rs: `Nat64Prefix` and its parsing. An address is its number: of 128 bits for IPv6, of 32
-- bits for IPv4.
pub mod Embedding
mod Tests
use sni_gate.Prelude.{
  ℕ, zero, suc, ◌+◌, ◌*◌, ◌/◌, Bool, true, false, ◌&&◌, ◌||◌, not, List, [], ◌∷◌, ◌++◌, Option,
  none, some, ◌==◌, if◌then◌else◌, Result, ok, err, ◌>>=◌,
}
use sni_gate.Text.{Text, codes, trim, split_once}
use sni_gate.Text.Numbers.{parse_uint}
use sni_gate.Ip.{parse_ipv6}

pub record Nat64Prefix : Type 0 where
  pub prefix : ℕ

pub data Nat64Error : Type 0 where
  empty_prefix invalid_length unsupported_length invalid_address : Nat64Error

-- `u128::from` of the eight groups.
abbrev pub number_from : ℕ → List ℕ → ℕ
number_from value [] = value
number_from value (group ∷ groups) = number_from (value * 0x1_0000 + group) groups

-- The mask keeps the top 96 of 128 bits.
unfoldable pub from_ipv6 : ℕ → Nat64Prefix
from_ipv6 addr = record { prefix = addr / 0x1_0000_0000 * 0x1_0000_0000 }

-- The low 32 bits of the prefix are zero, so that `|` adds the address.
unfoldable pub synthesize : Nat64Prefix → ℕ → ℕ
synthesize self ipv4 = self.prefix + ipv4

-- `s.split(':').count()`.
unfoldable pub count_splits : Text → ℕ
count_splits [] = 1
count_splits (c ∷ s) = if c == b':' then suc (count_splits s) else count_splits s

abbrev pub count_groups : Text → ℕ
count_groups [] = 0
count_groups (c ∷ s) = count_splits (c ∷ s)

-- `addr.contains("::")`.
unfoldable pub has_compression : Text → Bool
has_compression [] = false
has_compression (c ∷ []) = false
has_compression (c ∷ d ∷ s) = (c == b':' && d == b':') || has_compression (d ∷ s)

abbrev pub or_invalid : Option (List ℕ) → Result ℕ Nat64Error
or_invalid none = err Nat64Error.invalid_address
or_invalid (some groups) = ok (number_from 0 groups)

abbrev pub or_completed : Text → Option (List ℕ) → Result ℕ Nat64Error
or_completed addr (some groups) = ok (number_from 0 groups)
or_completed addr none =
    if count_groups addr == 6 && not (has_compression addr)
    then or_invalid (parse_ipv6 (addr ++ codes ":0:0"))
    else err Nat64Error.invalid_address

unfoldable pub parse_prefix_address : Text → Result ℕ Nat64Error
unfolding parse_ipv6 count_splits has_compression
parse_prefix_address addr = or_completed addr (parse_ipv6 addr)

abbrev pub only_96 : Text → Option ℕ → Result Text Nat64Error
only_96 addr none = err Nat64Error.invalid_length
only_96 addr (some len) = if len == 96 then ok addr else err Nat64Error.unsupported_length

-- The address part, once the length behind a slash is found to be 96.
abbrev pub address_part : Text → Option (Text × Text) → Result Text Nat64Error
address_part trimmed none = ok trimmed
address_part trimmed (some (addr, len)) = only_96 addr (parse_uint 256 len)

abbrev pub from_trimmed : Text → Result Nat64Prefix Nat64Error
from_trimmed [] = err Nat64Error.empty_prefix
from_trimmed (c ∷ s) = do
  addr_part ← address_part (c ∷ s) (split_once b'/' (c ∷ s))
  addr ← parse_prefix_address addr_part
  ok (from_ipv6 addr)

unfoldable pub from_str : Text → Result Nat64Prefix Nat64Error
unfolding trim split_once parse_uint parse_prefix_address from_ipv6
from_str s = from_trimmed (trim s)
