-- ===== src/Router/Confine.antt =====
-- src/router.rs, `Escape`, `Router::wildcard_confined` and `Router::name_confined`.
pub mod Sound
use sni_gate.Prelude.{
  ℕ, Bool, ◌&&◌, not, List, [], ◌∷◌, ◌++◌, Option, none, some, if◌then◌else◌, any, is_some, Result,
  ok, err, ◌>>=◌,
}
use sni_gate.Text.{Text, codes, sort}
use sni_gate.Router.Names.{normalize, one_label_above, match_scope_pattern}
use sni_gate.Router.Table.{get, keys}
use sni_gate.Router.Build.{RegexEngine, RegexRoute, Router}
use sni_gate.Router.Matching.{suffix_walk, rounds, match_host}

pub data Escape : Type 0 where
  host : (host : Text) (route : ℕ) → Escape
  regex_tier : (route : ℕ) → Escape
  default_route : (route : ℕ) → Escape
  unmatched : Escape

abbrev pub Confined : Type 0
Confined = Result (Unit {0}) Escape

-- The hosts one label above `parent` that the list names.
unfoldable pub named_above : Text → List Text → List Text
named_above parent [] = []
named_above parent (k ∷ ks) =
    if is_some (one_label_above k parent) then k ∷ named_above parent ks else named_above parent ks

abbrev judge : (ℕ → Bool) → Text → Option ℕ → Confined
judge in_scope name (some id) = if in_scope id then ok tt else err (host name id)
judge in_scope name none = err unmatched

abbrev judge_default : (ℕ → Bool) → Option ℕ → Confined
judge_default in_scope (some id) = if in_scope id then ok tt else err (default_route id)
judge_default in_scope none = err unmatched

module _ (engine : RegexEngine) (r : Router) (in_scope : ℕ → Bool) where
  pub check_named : List Text → Confined
  unfolding match_host
  check_named [] = ok tt
  check_named (k ∷ ks) = judge in_scope k (match_host engine r k) >>= λ _. check_named ks

  pub check_regexes : Text → List RegexRoute → Confined
  unfolding match_scope_pattern
  check_regexes parent [] = ok tt
  check_regexes parent (route ∷ routes) =
      if not (in_scope route.route_id)
        && any (λ scope. match_scope_pattern scope parent) route.scope_suffix
      then err (regex_tier route.route_id)
      else check_regexes parent routes

  -- Past the wildcard tier: the suffix walk, else the default route and then the regex tier.
  abbrev check_walk : Text → Option (Text × ℕ) → Confined
  check_walk parent (some (cur, id)) =
      if in_scope id then ok tt else err (host (codes "." ++ cur) id)
  check_walk parent none = judge_default in_scope r.default >>= λ _. check_regexes parent r.regex

  -- The verdict shared by every host under `*.parent` that is not named.
  abbrev check_generic : Text → Option ℕ → Confined
  check_generic parent (some id) =
      if in_scope id then ok tt else err (host (codes "*." ++ parent) id)
  check_generic parent none = check_walk parent (suffix_walk (rounds parent) r.suffix parent)

  abbrev pub confined_under : Text → Confined
  confined_under parent =
      check_named (sort (named_above parent (keys r.exact ++ keys r.suffix))) >>= λ _.
      check_generic parent (get r.wildcard parent)

unfoldable pub wildcard_confined : RegexEngine → Router → Text → (ℕ → Bool) → Confined
unfolding normalize check_named check_regexes named_above sort suffix_walk get
wildcard_confined engine r parent in_scope = confined_under engine r in_scope (normalize parent)

abbrev judge_name : (ℕ → Bool) → Text → Option ℕ → Confined
judge_name in_scope name (some id) = if in_scope id then ok tt else err (host (normalize name) id)
judge_name in_scope name none = err unmatched

unfoldable pub name_confined : RegexEngine → Router → Text → (ℕ → Bool) → Confined
unfolding match_host normalize
name_confined engine r name in_scope = judge_name in_scope name (match_host engine r name)
