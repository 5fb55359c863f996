-- ===== src/Router/Matching/Precedence.antt =====
-- src/router.rs, `Router::match_host`: the fixed precedence of the tiers.
use sni_gate.Prelude.{
  ℕ, ◌≡◌, refl, sym, ap, subst, inl, inr, true, false, List, [], ◌∷◌, ◌++◌, Option, none, some,
  arith, Bool-cases,
}
use sni_gate.Prelude.Options.{or_else}
use sni_gate.Text.{Text, split_once}
use sni_gate.Text.Parts.{Lacks, split_once-some, split_once-none, split_once-append}
use sni_gate.Router.Hosts.{IsHost}
use sni_gate.Router.Table.{get}
use sni_gate.Router.Build.{RegexEngine, RegexRoute, Router}
use sni_gate.Router.Walk.{IsDomainOf, IsLongest, Walked, suffix_walk-Walked, no_dot}
use sni_gate.Router.Matching.{
  rounds, regex_tier, match_normalized, match_host, id_of, suffix_tier, parent_id,
}
use sni_gate.Router.Matching.Tiers.{match_host_of_IsHost, suffix_tier-eq}

-- The first regex, in the order of the configuration, that matches the host.
pub data FirstMatch (engine : RegexEngine) (h : Text) : List RegexRoute → ℕ → Type 0 where
  this :
      {route : RegexRoute} {routes : List RegexRoute} {id : ℕ}
      → engine.is_match route.pattern h ≡ true
      → route.route_id ≡ id
      → FirstMatch engine h (route ∷ routes) id
  later :
      {route : RegexRoute} {routes : List RegexRoute} {id : ℕ}
      → engine.is_match route.pattern h ≡ false
      → FirstMatch engine h routes id
      → FirstMatch engine h (route ∷ routes) id

abbrev pub NoMatch : RegexEngine → Text → List RegexRoute → Type 0
NoMatch engine h [] = Unit
NoMatch engine h (route ∷ routes) =
    (engine.is_match route.pattern h ≡ false) × NoMatch engine h routes

-- A wildcard entry for the parent of the host, one label up.
abbrev pub UnderWildcard : Router → Text → ℕ → Type 0
UnderWildcard r h id =
    (l : Text) × (p : Text) × (h ≡ l ++ b'.' ∷ p) × Lacks b'.' l × (get r.wildcard p ≡ some id)

abbrev pub NoWildcard : Router → Text → Type 0
NoWildcard r h = (l p : Text) → h ≡ l ++ b'.' ∷ p → Lacks b'.' l → get r.wildcard p ≡ none

abbrev pub NoSuffix : Router → Text → Type 0
NoSuffix r h = (d : Text) → IsDomainOf d h → get r.suffix d ≡ none

-- The route of a host by the documented precedence: exact, wildcard, the longest suffix, the first
-- regex, the default.
pub data Routes (engine : RegexEngine) (r : Router) (h : Text) (o : Option ℕ) : Type 0 where
  by_exact : (id : ℕ) → get r.exact h ≡ some id → o ≡ some id → Routes engine r h o
  by_wildcard :
      (id : ℕ) → get r.exact h ≡ none → UnderWildcard r h id → o ≡ some id → Routes engine r h o
  by_suffix :
      (id : ℕ) (d : Text)
      → get r.exact h ≡ none
      → NoWildcard r h
      → IsLongest r.suffix h d id
      → o ≡ some id
      → Routes engine r h o
  by_regex :
      (id : ℕ)
      → get r.exact h ≡ none
      → NoWildcard r h
      → NoSuffix r h
      → FirstMatch engine h r.regex id
      → o ≡ some id
      → Routes engine r h o
  by_default :
      get r.exact h ≡ none
      → NoWildcard r h
      → NoSuffix r h
      → NoMatch engine h r.regex
      → o ≡ r.default
      → Routes engine r h o

regex_tier-some :
    (engine : RegexEngine) (h : Text) (routes : List RegexRoute) {id : ℕ}
    → regex_tier engine routes h ≡ some id
    → FirstMatch engine h routes id
unfolding regex_tier
regex_tier-some engine h [] e = cc
regex_tier-some engine h (route ∷ routes) e = elim (Bool-cases (engine.is_match route.pattern h)) [
  | inl m ↦ this m (ground arith)
  | inr n ↦ later n (regex_tier-some engine h routes (ground arith))
]

regex_tier-none :
    (engine : RegexEngine) (h : Text) (routes : List RegexRoute)
    → regex_tier engine routes h ≡ none
    → NoMatch engine h routes
unfolding regex_tier
regex_tier-none engine h [] e = tt
regex_tier-none engine h (route ∷ routes) e = ground (arith, regex_tier-none engine h routes)

-- What the wildcard tier finds.
WildcardTier : Router → Text → Option ℕ → Type 0
WildcardTier r h none = NoWildcard r h
WildcardTier r h (some id) = UnderWildcard r h id

parent_unique :
    (r : Router) (h a p l q : Text)
    → split_once b'.' h ≡ some (a, p)
    → h ≡ l ++ b'.' ∷ q
    → Lacks b'.' l
    → q ≡ p
parent_unique r h a p l q e k lacks = cc (split_once-append b'.' l q lacks, ap (split_once b'.') k)

wildcard_tier_lem :
    (r : Router) (h : Text) (s : Option (Text × Text)) (o : Option ℕ)
    → split_once b'.' h ≡ s
    → parent_id r.wildcard s ≡ o
    → WildcardTier r h o
unfolding WildcardTier
wildcard_tier_lem r h none none e k =
    λ l p eq lacks. absurd (no_dot l p h (split_once-none b'.' h e) eq)
wildcard_tier_lem r h none (some id) e k = cc
wildcard_tier_lem r h (some (a, p)) none e k =
    λ l q eq lacks. rw (parent_unique r h a p l q e eq lacks) k
wildcard_tier_lem r h (some (a, p)) (some id) e k =
    let (eq, lacks) = split_once-some b'.' h e in (a, p, eq, lacks, k)

SuffixTier : Router → Text → Option ℕ → Type 0
SuffixTier r h none = NoSuffix r h
SuffixTier r h (some id) = (d : Text) × IsLongest r.suffix h d id

SuffixTier-Walked :
    (r : Router) (h : Text) (o : Option (Text × ℕ)) → Walked r.suffix h o → SuffixTier r h (id_of o)
unfolding SuffixTier
SuffixTier-Walked r h none w = w
SuffixTier-Walked r h (some (d, id)) w = (d, w)

suffix_tier_lem : (r : Router) (h : Text) → SuffixTier r h (suffix_tier r.suffix h)
suffix_tier_lem r h =
    subst (SuffixTier r h) (sym (suffix_tier-eq r.suffix h))
      (SuffixTier-Walked r h _ (suffix_walk-Walked (rounds h) r.suffix h (omega arith)))

tiers :
    (engine : RegexEngine) (r : Router) (h : Text) (x w s t : Option ℕ)
    → get r.exact h ≡ x
    → WildcardTier r h w
    → SuffixTier r h s
    → regex_tier engine r.regex h ≡ t
    → Routes engine r h (or_else x (or_else w (or_else s (or_else t r.default))))
unfolding WildcardTier SuffixTier
tiers engine r h (some id) w s t ex kw ks et = by_exact id ex refl
tiers engine r h none (some id) s t ex kw ks et = by_wildcard id ex kw refl
tiers engine r h none none (some id) t ex kw ks et = by_suffix id ks.0 ex kw ks.1 refl
tiers engine r h none none none (some id) ex kw ks et =
    by_regex id ex kw ks (regex_tier-some engine h r.regex et) refl
tiers engine r h none none none none ex kw ks et =
    by_default ex kw ks (regex_tier-none engine h r.regex et) refl

-- Every host is routed by the documented precedence: its exact entry, else the wildcard entry of
-- its parent, else the longest suffix entry that is the host or a domain above it, else the first
-- regex that matches, else the default route; each tier is asked only where those before have none.
pub match_host-Routes :
    (engine : RegexEngine) (r : Router) (h : Text)
    → IsHost h
    → Routes engine r h (match_host engine r h)
unfolding match_normalized
match_host-Routes engine r h i =
    rw (match_host_of_IsHost engine r h i) (
      tiers engine r h _ _ _ _ refl (wildcard_tier_lem r h _ _ refl refl) (suffix_tier_lem r h)
        refl)
