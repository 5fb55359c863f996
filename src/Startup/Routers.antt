-- ===== src/Startup/Routers.antt =====
-- The routers of an accepted configuration fail to build on duplicate patterns alone.
use sni_gate.Prelude.{
  ◌≡◌, ◌⊎◌, inl, inr, false, List, [], ◌∷◌, ◌++◌, map, Option, none, some, arith, ◌==◌, ==_iff,
  Bool-cases, Option-cases, if◌then◌else◌, All, All-append, ok, err, ok_so_far,
}
use sni_gate.Prelude.Tiers.{flatten}
use sni_gate.Text.{Text, codes, trim, starts_with, strip_prefix}
use sni_gate.Router.Table.{ConfigError, HashMap, get}
use sni_gate.Router.Entries.{get-All}
use sni_gate.Router.Build.{RegexEngine, RegexDef, Router, regex_ref, kind_of, kind_of_plain}
use sni_gate.Config.Tables.{Route, Listener}
use sni_gate.Config.Regexes.{
  RegexError, is_regex_ref, regex_def, resolve_regex_ref, regex_of_name, forget, check_regexes,
  check_pattern, check_patterns, check_matches, check_compiles, some_scopes, check_listeners,
  validate_regexes,
}
use sni_gate.Startup.{default_patterns, patterns_of, default_id, listener_router}
use sni_gate.Router.Build.Errors.{
  IsDuplicate, all_patterns, Compiles, IsSound, IsSoundText, build-IsDuplicate,
}

module _ (engine : RegexEngine) (regexes : HashMap RegexDef) where
  check_regexes-Compiles :
      (m : HashMap RegexDef)
      → check_regexes engine regexes m ≡ ok tt
      → All (Compiles engine regexes) m
  unfolding check_regexes
  check_regexes-Compiles [] h = tt
  check_regexes-Compiles ((name, def) ∷ m) h =
      let (_, compiles, h1) = ok_so_far (check_compiles engine regexes name def) _ h in
      let (_, _, rest) = ok_so_far (some_scopes engine regexes name def.scope_suffix) _ h1 in
      (compiled name def compiles, check_regexes-Compiles m rest)
    where
      compiled :
          (name : Text) (def : RegexDef)
          → check_compiles engine regexes name def ≡ ok tt
          → Compiles engine regexes (name, def)
      compiled name def h = elim (Bool-cases (engine.compiles def.pattern)) [
        | inl good ↦ good
        | inr bad ↦ let h' = rw bad at h in cc
      ]

  plain-IsSound :
      (pat : Text) (wild dot : Option Text) → IsSound engine regexes (kind_of_plain pat wild dot)
  plain-IsSound pat (some rest) dot = tt
  plain-IsSound pat none (some rest) = tt
  plain-IsSound pat none none = tt

  named-IsSound :
      (pattern name : Text)
      → All (Compiles engine regexes) regexes
      → forget engine regexes (regex_of_name engine regexes pattern (some name)) ≡ ok tt
      → IsSound engine regexes (regex_ref name)
  unfolding regex_def
  named-IsSound pattern [] all h = cc
  named-IsSound pattern (c ∷ name) all h = elim (Option-cases (get regexes (c ∷ name))) [
    | inl missing ↦ let bad = rw (regex_def, missing) at h in cc
    | inr (def, found) ↦
        (def, found, get-All (Compiles engine regexes) regexes (c ∷ name) all found)
  ]

  trimmed-IsSound :
      (pattern t : Text)
      → All (Compiles engine regexes) regexes
      → (if starts_with b'@' t
          then forget engine regexes
              (regex_of_name engine regexes pattern (strip_prefix (codes "@") t))
          else if starts_with b'~' t
          then err (RegexError.inline_regex pattern)
          else ok tt)
        ≡ ok tt
      → IsSound engine regexes (kind_of t)
  unfolding kind_of
  trimmed-IsSound pattern [] all h = tt
  trimmed-IsSound pattern (c ∷ t) all h = elim (Bool-cases (c == b'@')) [
    | inl at ↦ let e = (==_iff c b'@').0 at in rw e (named-IsSound pattern t all (rw e at h))
    | inr other ↦
        let other' : (b'@' == c) ≡ false = ground arith in
        let h' = rw other at h in
        elim (Bool-cases (c == b'~')) [
          | inl tilde ↦ let bad = rw tilde at h' in cc
          | inr plain ↦ rw (other', plain) (plain-IsSound (c ∷ t) _ _)
        ]
  ]

  -- The router of a listener builds, or two of its patterns have the same key in the same tier.
  abbrev pub Routed : Listener → Type 0
  Routed l =
      ((r : Router) × (listener_router engine regexes l ≡ ok r))
      ⊎ ((e : ConfigError) × (listener_router engine regexes l ≡ err e)
          × IsDuplicate (all_patterns (patterns_of l)) e)

  module _ (all : All (Compiles engine regexes) regexes) where
    check_pattern-IsSound :
        (pattern : Text)
        → check_pattern engine regexes pattern ≡ ok tt
        → IsSoundText engine regexes pattern
    unfolding check_pattern is_regex_ref resolve_regex_ref
    check_pattern-IsSound pattern h = trimmed-IsSound pattern (trim pattern) all h

    check_patterns-IsSound :
        (patterns : List Text)
        → check_patterns engine regexes patterns ≡ ok tt
        → All (IsSoundText engine regexes) patterns
    unfolding check_patterns
    check_patterns-IsSound [] h = tt
    check_patterns-IsSound (pattern ∷ patterns) h =
        let (_, first, rest) = ok_so_far (check_pattern engine regexes pattern) _ h in
        (check_pattern-IsSound pattern first, check_patterns-IsSound patterns rest)

    check_matches-IsSound :
        (routes more : List Route)
        → check_matches engine regexes (routes ++ more) ≡ ok tt
        → All (All (IsSoundText engine regexes)) (map (λ r. r.match_sni) routes)
    unfolding check_matches
    check_matches-IsSound [] more h = tt
    check_matches-IsSound (route ∷ routes) more h =
        let (_, first, rest) = ok_so_far (check_patterns engine regexes route.match_sni) _ h in
        (check_patterns-IsSound route.match_sni first, check_matches-IsSound routes more rest)

    default-IsSound :
        (d : Option Route) → All (All (IsSoundText engine regexes)) (default_patterns d)
    default-IsSound none = tt
    default-IsSound (some d) = (tt, tt)

    check_listeners-Routed :
        (listeners : List Listener)
        → check_listeners engine regexes listeners ≡ ok tt
        → All Routed listeners
    unfolding check_listeners listener_router
    check_listeners-Routed [] h = tt
    check_listeners-Routed (l ∷ listeners) h =
        let (_, first, rest) =
          ok_so_far (check_matches engine regexes (l.routes ++ flatten (l.default_route ∷ []))) _
            h in
        let sound =
          All-append (All (IsSoundText engine regexes)) (map (λ r. r.match_sni) l.routes)
            (default_patterns l.default_route) (check_matches-IsSound l.routes _ first)
            (default-IsSound l.default_route) in
        (
          build-IsDuplicate engine regexes (patterns_of l) (default_id l) sound,
          check_listeners-Routed listeners rest,
        )

  -- Once the regexes are validated, the router of each listener builds, or fails because two of its
  -- patterns have the same key in the same tier, and for no other reason.
  pub validate_regexes-Routed :
      (listeners : List Listener)
      → validate_regexes engine regexes listeners ≡ ok tt
      → All Routed listeners
  unfolding validate_regexes
  validate_regexes-Routed listeners h =
      let (_, compiled, matched) = ok_so_far (check_regexes engine regexes regexes) _ h in
      check_listeners-Routed (check_regexes-Compiles regexes compiled) listeners matched
