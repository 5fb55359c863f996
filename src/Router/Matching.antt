-- ===== src/Router/Matching.antt =====
-- src/router.rs, `Router::match_host`.
pub mod Tiers
pub mod Precedence
pub mod Spelling
pub mod Range
use sni_gate.Prelude.{ℕ, zero, suc, List, [], ◌∷◌, Option, none, some, if◌then◌else◌, length}
use sni_gate.Prelude.Options.{or_else}
use sni_gate.Text.{Text, split_once}
use sni_gate.Router.Names.{normalize}
use sni_gate.Router.Table.{HashMap, get}
use sni_gate.Router.Build.{RegexEngine, RegexRoute, Router}

-- The loop over `cur`, its last value with the id that it found. One round drops a label.
unfoldable pub suffix_walk : ℕ → HashMap ℕ → Text → Option (Text × ℕ)
unfolding get split_once
suffix_walk zero m cur = none
suffix_walk (suc fuel) m cur = elim (get m cur) [
  | some id ↦ some (cur, id)
  | none ↦ elim (split_once b'.' cur) [ some (label, rest) ↦ suffix_walk fuel m rest | none ↦ none ]
]

-- Enough rounds for every label of `cur`.
abbrev pub rounds : Text → ℕ
rounds cur = suc (length cur)

abbrev pub id_of : Option (Text × ℕ) → Option ℕ
id_of none = none
id_of (some (cur, id)) = some id

abbrev pub parent_id : HashMap ℕ → Option (Text × Text) → Option ℕ
parent_id m none = none
parent_id m (some (label, parent)) = get m parent

unfoldable pub regex_tier : RegexEngine → List RegexRoute → Text → Option ℕ
regex_tier engine [] host = none
regex_tier engine (route ∷ routes) host =
    if engine.is_match route.pattern host
    then some route.route_id
    else regex_tier engine routes host

abbrev pub suffix_tier : HashMap ℕ → Text → Option ℕ
suffix_tier [] host = none
suffix_tier (entry ∷ m) host = id_of (suffix_walk (rounds host) (entry ∷ m) host)

-- The five tiers, for a host that is normalized and not empty.
unfoldable pub match_normalized : RegexEngine → Router → Text → Option ℕ
unfolding get split_once suffix_walk regex_tier
match_normalized engine r host = or_else (get r.exact host) (
    or_else (parent_id r.wildcard (split_once b'.' host))
      (or_else (suffix_tier r.suffix host) (or_else (regex_tier engine r.regex host) r.default)))

abbrev pub match_or_default : RegexEngine → Router → Text → Option ℕ
match_or_default engine r [] = r.default
match_or_default engine r (c ∷ host) = match_normalized engine r (c ∷ host)

unfoldable pub match_host : RegexEngine → Router → Text → Option ℕ
unfolding normalize match_normalized
match_host engine r host = match_or_default engine r (normalize host)
