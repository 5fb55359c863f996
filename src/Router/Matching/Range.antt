-- ===== src/Router/Matching/Range.antt =====
-- src/router.rs: a host is routed to an id of the routing table.
use sni_gate.Prelude.{
  ℕ, zero, suc, ◌<◌, inl, inr, List, [], ◌∷◌, Option, none, some, Bool-cases, Option-cases, All,
}
use sni_gate.Prelude.Options.{or_else}
use sni_gate.Text.{Text, split_once}
use sni_gate.Router.Names.{normalize}
use sni_gate.Router.Table.{HashMap, get}
use sni_gate.Router.Entries.{get-All}
use sni_gate.Router.Build.{RegexEngine, RegexRoute, Router}
use sni_gate.Router.Matching.{
  suffix_walk, rounds, id_of, parent_id, regex_tier, suffix_tier, match_normalized,
  match_or_default, match_host,
}
use sni_gate.Router.Build.Ids.{Small, SmallIds, InRange}

module _ (n : ℕ) where
  get-small : (m : HashMap ℕ) (key : Text) → SmallIds n m → Small n (get m key)
  get-small m key h = elim (Option-cases (get m key)) [
    | inl missing ↦ rw missing tt
    | inr (id, found) ↦ rw found (get-All (λ entry. entry.1 < n) m key h found)
  ]

  or_else-small : (a b : Option ℕ) → Small n a → Small n b → Small n (or_else a b)
  or_else-small none b ha hb = hb
  or_else-small (some id) b ha hb = ha

  suffix_walk-small :
      (fuel : ℕ) (m : HashMap ℕ) (cur : Text)
      → SmallIds n m
      → Small n (id_of (suffix_walk fuel m cur))
  unfolding suffix_walk
  suffix_walk-small zero m cur h = tt
  suffix_walk-small (suc fuel) m cur h = elim (Option-cases (get m cur)) [
    | inl missing ↦ elim (Option-cases (split_once b'.' cur)) [
      | inl whole ↦ rw (suffix_walk, missing, whole) tt
      | inr ((label, rest), cut) ↦ rw (suffix_walk, missing, cut) (suffix_walk-small fuel m rest h)
    ]
    | inr (id, found) ↦ rw (suffix_walk, found) (get-All (λ entry. entry.1 < n) m cur h found)
  ]

  suffix_tier-small : (m : HashMap ℕ) (host : Text) → SmallIds n m → Small n (suffix_tier m host)
  suffix_tier-small [] host h = tt
  suffix_tier-small (entry ∷ m) host h = suffix_walk-small (rounds host) (entry ∷ m) host h

  parent_id-small :
      (m : HashMap ℕ) (s : Option (Text × Text)) → SmallIds n m → Small n (parent_id m s)
  parent_id-small m none h = tt
  parent_id-small m (some (label, parent)) h = get-small m parent h

  regex_tier-small :
      (engine : RegexEngine) (routes : List RegexRoute) (host : Text)
      → All (λ t. t.route_id < n) routes
      → Small n (regex_tier engine routes host)
  unfolding regex_tier
  regex_tier-small engine [] host h = tt
  regex_tier-small engine (route ∷ routes) host h =
      elim (Bool-cases (engine.is_match route.pattern host)) [
        | inl hit ↦ rw (regex_tier, hit) h.0
        | inr miss ↦ rw (regex_tier, miss) (regex_tier-small engine routes host h.1)
      ]

  match_or_default-small :
      (engine : RegexEngine) (r : Router) (host : Text)
      → InRange n r
      → Small n (match_or_default engine r host)
  unfolding match_normalized
  match_or_default-small engine r [] h = h.default
  match_or_default-small engine r (c ∷ host) h =
      or_else-small (get r.exact (c ∷ host)) _ (get-small r.exact (c ∷ host) h.exact) (
        or_else-small (parent_id r.wildcard (split_once b'.' (c ∷ host))) _
          (parent_id-small r.wildcard _ h.wildcard)
          (or_else-small (suffix_tier r.suffix (c ∷ host)) _
            (suffix_tier-small r.suffix (c ∷ host) h.suffix)
            (or_else-small (regex_tier engine r.regex (c ∷ host)) _
              (regex_tier-small engine r.regex (c ∷ host) h.regex) h.default)))

  -- A routing table with its ids in range gives a host no other id.
  pub match_host-Small :
      (engine : RegexEngine) (r : Router) (host : Text)
      → InRange n r
      → Small n (match_host engine r host)
  unfolding match_host
  match_host-Small engine r host h = match_or_default-small engine r (normalize host) h
