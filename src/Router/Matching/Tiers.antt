-- ===== src/Router/Matching/Tiers.antt =====
-- src/router.rs, `Router::match_host`: which tier answers for a host that stands one label in front
-- of a parent domain.
use sni_gate.Prelude.{ℕ, ◌≡◌, refl, ◌≢◌, ◌∙◌, [], ◌∷◌, ◌++◌, none, some, arith, length}
use sni_gate.Prelude.Options.{or_else}
use sni_gate.Text.{Text}
use sni_gate.Text.Parts.{Lacks, split_once-append}
use sni_gate.Router.Hosts.{IsHost, normalize_of_IsHost}
use sni_gate.Router.Table.{HashMap, get}
use sni_gate.Router.Build.{RegexEngine, Router}
use sni_gate.Router.Walk.{walk-next, suffix_walk-empty, suffix_walk-fuel, length-under}
use sni_gate.Router.Matching.{
  suffix_walk, rounds, regex_tier, match_normalized, match_host, match_or_default, id_of,
  suffix_tier,
}

match_or_default_of_present :
    (engine : RegexEngine) (r : Router) (h : Text)
    → h ≢ []
    → match_or_default engine r h ≡ match_normalized engine r h
match_or_default_of_present engine r [] p = absurd (p refl)
match_or_default_of_present engine r (c ∷ h) p = refl

pub match_host_of_IsHost :
    (engine : RegexEngine) (r : Router) (h : Text)
    → IsHost h
    → match_host engine r h ≡ match_normalized engine r h
unfolding match_host
match_host_of_IsHost engine r h i =
    rw (normalize_of_IsHost h i) (match_or_default_of_present engine r h i.present)

-- The test for an empty table changes nothing.
pub suffix_tier-eq :
    (m : HashMap ℕ) (h : Text) → suffix_tier m h ≡ id_of (suffix_walk (rounds h) m h)
suffix_tier-eq [] h = rw (suffix_walk-empty (rounds h) h)
suffix_tier-eq (entry ∷ m) h = refl

module _ (engine : RegexEngine) (r : Router) (l parent : Text) (plain : Lacks b'.' l) where
  abbrev host : Text
  host = l ++ b'.' ∷ parent

  module _ (x : get r.exact host ≡ none) where
    pub match-wildcard :
        {id : ℕ} → get r.wildcard parent ≡ some id → match_normalized engine r host ≡ some id
    unfolding match_normalized
    match-wildcard e = rw (x, split_once-append b'.' l parent plain) (rw e)

    module _ (w : get r.wildcard parent ≡ none) (s : get r.suffix host ≡ none) where
      walk_from_parent :
          suffix_walk (rounds host) r.suffix host ≡ suffix_walk (rounds parent) r.suffix parent
      walk_from_parent =
          walk-next (length host) r.suffix host s (split_once-append b'.' l parent plain)
          ∙ suffix_walk-fuel (length host) (rounds parent) r.suffix parent
              (length-under l parent host (length host) refl (omega arith)) (omega arith)

      past_wildcard :
          match_normalized engine r host
          ≡ or_else
              (id_of (suffix_walk (rounds parent) r.suffix parent))
              (or_else (regex_tier engine r.regex host) r.default)
      unfolding match_normalized
      past_wildcard =
          rw (x, split_once-append b'.' l parent plain)
            (rw (w, suffix_tier-eq r.suffix host, walk_from_parent))

      pub match-suffix :
          {cur : Text} {id : ℕ}
          → suffix_walk (rounds parent) r.suffix parent ≡ some (cur, id)
          → match_normalized engine r host ≡ some id
      match-suffix e = past_wildcard ∙ rw e

      pub match-rest :
          suffix_walk (rounds parent) r.suffix parent ≡ none
          → match_normalized engine r host ≡ or_else (regex_tier engine r.regex host) r.default
      match-rest e = past_wildcard ∙ rw e
