-- ===== src/Router/Build.antt =====
-- src/router.rs, `Router` and `Router::build`; src/config.rs, `RegexDef`.
pub mod Tiers
pub mod Exact
pub mod Errors
pub mod Ids
use sni_gate.Prelude.{
  ℕ, suc, Bool, List, [], ◌∷◌, ◌++◌, map, Option, none, some, if◌then◌else◌, Result, ok, err, ◌>>=◌,
}
use sni_gate.Text.{Text, codes, trim, starts_with, strip_prefix}
use sni_gate.Router.Names.{normalize, normalize_scope_suffix}
use sni_gate.Router.Table.{
  ConfigError, unknown_regex, invalid_pattern, inline_regex, HashMap, get, insert_unique,
}

-- The `regex` crate: which patterns compile, and which hosts a compiled one matches. A compiled
-- regex is represented by the pattern that it was made from.
pub record RegexEngine : Type 0 where
  pub compiles : Text → Bool
  pub is_match : Text → Text → Bool

pub record RegexDef : Type 0 where
  pub pattern : Text
  pub scope_suffix : List Text

pub record RegexRoute : Type 0 where
  pub pattern : Text
  pub route_id : ℕ
  pub scope_suffix : List Text

pub record Router : Type 0 where
  pub exact : HashMap ℕ
  pub wildcard : HashMap ℕ
  pub suffix : HashMap ℕ
  pub regex : List RegexRoute
  pub default : Option ℕ

-- What the first characters of a trimmed pattern say that it is.
pub data Pattern : Type 0 where
  blank : Pattern
  regex_ref : (name : Text) → Pattern
  inline : Pattern
  wildcard_of : (rest : Text) → Pattern
  suffix_of : (rest : Text) → Pattern
  exact_of : (host : Text) → Pattern

abbrev pub kind_of_plain : Text → Option Text → Option Text → Pattern
kind_of_plain pat (some rest) dot = wildcard_of rest
kind_of_plain pat none (some rest) = suffix_of rest
kind_of_plain pat none none = exact_of pat

abbrev kind_of_text : Text → Option Text → Pattern
kind_of_text pat (some name) = regex_ref name
kind_of_text pat none =
    if starts_with b'~' pat
    then inline
    else kind_of_plain pat (strip_prefix (codes "*.") pat) (strip_prefix (codes ".") pat)

unfoldable pub kind_of : Text → Pattern
kind_of [] = blank
kind_of (c ∷ pat) = kind_of_text (c ∷ pat) (strip_prefix (codes "@") (c ∷ pat))

module _ (engine : RegexEngine) (regexes : HashMap RegexDef) where
  abbrev compile : ℕ → Text → Option RegexDef → Result RegexRoute ConfigError
  compile id name none = err (unknown_regex id name)
  compile id name (some def) =
      if engine.compiles def.pattern
      then ok (record {
        pattern = def.pattern;
        route_id = id;
        scope_suffix = map normalize_scope_suffix def.scope_suffix;
      })
      else err (invalid_pattern name)

  -- The branches of the loop body; `r` carries the maps built so far.
  abbrev add_kind : Router → ℕ → Text → Pattern → Result Router ConfigError
  add_kind r id pat blank = ok r
  add_kind r id pat (regex_ref name) = do
    route ← compile id name (get regexes name)
    ok (record r { regex = r.regex ++ route ∷ [] })
  add_kind r id pat inline = err (inline_regex id pat)
  add_kind r id pat (wildcard_of rest) = do
    m ← insert_unique r.wildcard (normalize rest) id pat
    ok (record r { wildcard = m })
  add_kind r id pat (suffix_of rest) = do
    m ← insert_unique r.suffix (normalize rest) id pat
    ok (record r { suffix = m })
  add_kind r id pat (exact_of host) = do
    m ← insert_unique r.exact (normalize host) id pat
    ok (record r { exact = m })

  pub add_pattern : Router → ℕ → Text → Result Router ConfigError
  unfolding kind_of trim
  add_pattern r id raw = let pat = trim raw in add_kind r id pat (kind_of pat)

  pub add_patterns : Router → ℕ → List Text → Result Router ConfigError
  unfolding add_pattern
  add_patterns r id [] = ok r
  add_patterns r id (pat ∷ pats) = add_pattern r id pat >>= λ r'. add_patterns r' id pats

  pub build_from : Router → ℕ → List (List Text) → Result Router ConfigError
  unfolding add_patterns
  build_from r id [] = ok r
  build_from r id (pats ∷ patterns) =
      add_patterns r id pats >>= λ r'. build_from r' (suc id) patterns

abbrev pub empty : Option ℕ → Router
empty default = record { exact = []; wildcard = []; suffix = []; regex = []; default = default }

unfoldable pub build :
    RegexEngine → HashMap RegexDef → List (List Text) → Option ℕ → Result Router ConfigError
unfolding build_from
build engine regexes patterns default = build_from engine regexes (empty default) 0 patterns
