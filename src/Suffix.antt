-- ===== src/Suffix.antt =====
-- src/suffix.rs: the public-suffix list and the coverage rule of a certificate.
pub mod Coverage
pub mod Boundary
pub mod Mintable
pub mod Tests
use sni_gate.Prelude.{
  ℕ, zero, suc, Bool, true, false, ◌&&◌, ◌||◌, not, List, [], ◌∷◌, ◌++◌, Option, none, some,
  if◌then◌else◌, any, is_some, length, Result, ok, err,
}
use sni_gate.Text.{
  Text, codes, text_eq, to_ascii_lowercase, trim_end_dots, strip_prefix, strip_suffix, split_once,
  split_last,
}
use sni_gate.Ip.{is_ip_addr}

pub data Kind : Type 0 where
  icann private : Kind

-- The `publicsuffix` crate. A parsed `List` is represented by the bytes that it was parsed from:
-- `parses` says whether `List::from_bytes` accepts them, `suffix` is the longest suffix of a name
-- with its section, and `domain` the registrable domain of a name.
pub record PublicSuffix : Type 0 where
  pub parses : List ℕ → Bool
  pub suffix : List ℕ → Text → Option (Text × Option Kind)
  pub domain : List ℕ → Text → Option Text

pub record SuffixList : Type 0 where
  pub list : List ℕ

pub data SuffixError : Type 0 where
  parsing sanity_check : SuffixError

-- `embedded` and `from_file` are one function of the bytes.
unfoldable pub from_file : PublicSuffix → List ℕ → Result SuffixList SuffixError
from_file psl bytes = if psl.parses bytes then ok (record { list = bytes }) else err parsing

-- The list after the call, with its result: a list that is refused leaves the old one active.
unfoldable pub replace_from_bytes :
    PublicSuffix → SuffixList → List ℕ → SuffixList × Result (Unit {0}) SuffixError
replace_from_bytes psl self bytes =
    if psl.parses bytes
    then (if is_some (psl.domain bytes (codes "example.co.uk"))
        then (record { list = bytes }, ok tt)
        else (self, err sanity_check))
    else (self, err parsing)

abbrev pub is_private : Option Kind → Bool
is_private (some private) = true
is_private (some icann) = false
is_private none = false

-- The loop that walks a private suffix down to the suffix that encloses it.
unfoldable pub enclosing : PublicSuffix → List ℕ → ℕ → Text → Option Text
unfolding split_once
enclosing psl list zero cur = none
enclosing psl list (suc fuel) cur = elim (split_once b'.' cur) [
  | none ↦ none
  | some (label, rest) ↦ elim (psl.suffix list rest) [
    | none ↦ none
    | some (s, kind) ↦ elim (is_private kind) [
      | false ↦ some s
      | true ↦ enclosing psl list fuel rest
    ]
  ]
]

-- The domain one label below `suffix` within `host`.
unfoldable pub below_left : Text → Text → Option Text
unfolding split_last
below_left suffix left = elim (split_last b'.' left) [
  | [] ↦ none
  | c ∷ last ↦ some ((c ∷ last) ++ b'.' ∷ suffix)
]

abbrev pub and_then : {A B : Type 0} → Option A → (A → Option B) → Option B
and_then none f = none
and_then (some a) f = f a

unfoldable pub one_label_below : Text → Text → Option Text
unfolding strip_suffix below_left
one_label_below host suffix =
    if text_eq host suffix
    then none
    else and_then (strip_suffix suffix host)
        (λ rest. and_then (strip_suffix (codes ".") rest) (below_left suffix))

unfoldable pub boundary : PublicSuffix → List ℕ → Text × Option Kind → Option Text
unfolding enclosing
boundary psl list (suffix, kind) =
    if is_private kind then enclosing psl list (suc (length suffix)) suffix else some suffix

unfoldable pub registrable_icann : PublicSuffix → List ℕ → Text → Option Text
unfolding boundary one_label_below
registrable_icann psl list host =
    and_then (psl.suffix list host)
      (λ found. and_then (boundary psl list found) (one_label_below host))

unfoldable pub wildcard_is_mintable : PublicSuffix → SuffixList → Text → Bool
unfolding is_ip_addr registrable_icann trim_end_dots to_ascii_lowercase
wildcard_is_mintable psl self parent =
    if is_ip_addr parent
    then false
    else is_some (registrable_icann psl self.list (to_ascii_lowercase (trim_end_dots parent)))

abbrev wildcard_covers : Text → Option (Text × Text) → Bool
wildcard_covers suffix none = false
wildcard_covers suffix (some ([], rest)) = false
wildcard_covers suffix (some (c ∷ label, rest)) = text_eq rest suffix

abbrev covers_by_prefix : Text → Option Text → Bool
covers_by_prefix host none = false
covers_by_prefix host (some suffix) = wildcard_covers suffix (split_once b'.' host)

abbrev pub covers : Text → Text → Bool
covers host san =
    if text_eq san host then true else covers_by_prefix host (strip_prefix (codes "*.") san)

unfoldable pub host_covered_by : List Text → Text → Bool
unfolding split_once
host_covered_by sans host = any (covers host) sans
