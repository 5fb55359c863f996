-- ===== src/Router/Confine/Sound.antt =====
-- src/router.rs, `Router::wildcard_confined`: a wildcard that it lets through covers no host that
-- is routed out of the certificate scope.
use sni_gate.Prelude.{
  ℕ, ◌≡◌, refl, ◌≢◌, inl, inr, Bool, true, List, [], ◌∷◌, ◌++◌, Option, none, some, arith, ok,
  ok_so_far, ◌>>=◌, ◌∙◌, is_some, any, All, All-append_left, All-append_right, Any, here, there,
  Bool-cases, Option-cases,
}
use sni_gate.Prelude.Options.{or_else}
use sni_gate.Text.{Text, text_eq, sort}
use sni_gate.Text.Parts.{text_eq→eq}
use sni_gate.Text.Sorting.{All-sort}
use sni_gate.Router.Names.{one_label_above, match_scope_pattern}
use sni_gate.Router.Hosts.{IsHost, IsLabel, IsHost-parent, normalize_of_IsHost}
use sni_gate.Router.Scopes.{Declares, match_scope_pattern_iff, one_label_above-label}
use sni_gate.Router.Table.{HashMap, get, keys}
use sni_gate.Router.Build.{RegexEngine, RegexRoute, Router}
use sni_gate.Router.Matching.{suffix_walk, rounds, regex_tier, match_normalized, match_host}
use sni_gate.Router.Matching.Tiers.{match_host_of_IsHost, match-wildcard, match-suffix, match-rest}
use sni_gate.Router.Confine.{
  confined_under, named_above, judge_default, check_named, check_regexes, check_generic,
  wildcard_confined,
}

-- A regex matches only hosts that its scope declares.
abbrev pub Respects : RegexEngine → RegexRoute → Type 0
Respects engine route =
    (h : Text)
    → engine.is_match route.pattern h ≡ true
    → Any (λ scope. Declares scope h) route.scope_suffix

named_above-get {ℓ} :
    (P : Text → Type ℓ) (parent k : Text) (m : HashMap ℕ)
    → is_some (one_label_above k parent) ≡ true
    → get m k ≢ none
    → All P (named_above parent (keys m))
    → P k
unfolding named_above get
named_above-get P parent k [] above present h = absurd (present refl)
named_above-get P parent k ((j, v) ∷ m) above present h = elim (Bool-cases (text_eq j k)) [
  | inl same ↦
      let e = text_eq→eq j k same in
      let h' : All P (k ∷ named_above parent (keys m)) = rw (e, above) at h in h'.0
  | inr other ↦ elim (Bool-cases (is_some (one_label_above j parent))) [
    | inl kept ↦
        let h' : All P (j ∷ named_above parent (keys m)) = rw kept at h in
        named_above-get P parent k m above (rw other at present) h'.1
    | inr dropped ↦ named_above-get P parent k m above (rw other at present) (rw dropped at h)
  ]
]

named_above-append :
    (parent : Text) (ks js : List Text)
    → named_above parent (ks ++ js) ≡ named_above parent ks ++ named_above parent js
unfolding named_above
named_above-append parent [] js = refl
named_above-append parent (k ∷ ks) js = ground (arith, named_above-append parent ks js)

module _ (engine : RegexEngine) (r : Router) (in_scope : ℕ → Bool) where
  -- The host is routed, and into the scope.
  abbrev pub IsRouted : Text → Type 0
  IsRouted h = (id : ℕ) × (match_host engine r h ≡ some id) × (in_scope id ≡ true)

  check_named_sound : (ks : List Text) → check_named engine r in_scope ks ≡ ok tt → All IsRouted ks
  unfolding check_named
  check_named_sound [] e = tt
  check_named_sound (k ∷ ks) e = elim (Option-cases (match_host engine r k)) [
    | inl miss ↦ ground arith
    | inr (id, hit) ↦ elim (Bool-cases (in_scope id)) [
      | inl good ↦ ((id, hit, good), check_named_sound ks (ground arith))
      | inr bad ↦ ground arith
    ]
  ]

  any_declared :
      (parent l : Text) (scopes : List Text)
      → IsLabel l
      → Any (λ scope. Declares scope (l ++ b'.' ∷ parent)) scopes
      → any (λ scope. match_scope_pattern scope parent) scopes ≡ true
  any_declared parent l [] label a = elim a [ ]
  any_declared parent l (scope ∷ scopes) label (here d) =
      rw ((match_scope_pattern_iff scope parent).1 (l, label, d))
  any_declared parent l (scope ∷ scopes) label (there a) =
      ground (arith, any_declared parent l scopes label a)

  -- Every regex that matches a host under the wildcard is in the scope.
  check_regexes_sound :
      (parent l : Text) (routes : List RegexRoute) {id : ℕ}
      → IsLabel l
      → All (Respects engine) routes
      → check_regexes engine r in_scope parent routes ≡ ok tt
      → regex_tier engine routes (l ++ b'.' ∷ parent) ≡ some id
      → in_scope id ≡ true
  unfolding check_regexes regex_tier
  check_regexes_sound parent l [] label a e hit = cc
  check_regexes_sound parent l (route ∷ routes) {id} label a e hit =
      elim (Bool-cases (in_scope route.route_id)) [
        | inl good ↦ elim (Bool-cases (engine.is_match route.pattern (l ++ b'.' ∷ parent))) [
          | inl m ↦ ground arith
          | inr n ↦
              check_regexes_sound parent l routes {id = id} label a.1 (ground arith) (ground arith)
        ]
        | inr bad ↦ elim (Bool-cases (engine.is_match route.pattern (l ++ b'.' ∷ parent))) [
          | inl m ↦ ground (arith, any_declared parent l route.scope_suffix label (a.0 _ m))
          | inr n ↦
              check_regexes_sound parent l routes {id = id} label a.1 (ground arith) (ground arith)
        ]
      ]

  generic_sound :
      (parent l : Text) (w : Option ℕ) (o : Option (Text × ℕ))
      → IsLabel l
      → All (Respects engine) r.regex
      → get r.wildcard parent ≡ w
      → suffix_walk (rounds parent) r.suffix parent ≡ o
      → check_generic engine r in_scope parent w ≡ ok tt
      → get r.exact (l ++ b'.' ∷ parent) ≡ none
      → get r.suffix (l ++ b'.' ∷ parent) ≡ none
      → (id : ℕ) × (match_normalized engine r (l ++ b'.' ∷ parent) ≡ some id) × (in_scope id ≡ true)
  generic_sound parent l (some id) o label a ew eo e x s =
      (id, match-wildcard engine r l parent label.1 x ew, ground arith)
  generic_sound parent l none (some (cur, id)) label a ew eo e x s =
      (id, match-suffix engine r l parent label.1 x ew s eo, ground (arith, eo))
  generic_sound parent l none none label a ew eo e x s =
      after_walk (regex_tier engine r.regex (l ++ b'.' ∷ parent)) r.default refl refl
    where
      h : Text
      h = l ++ b'.' ∷ parent

      verdict :
          (judge_default in_scope r.default >>= λ _. check_regexes engine r in_scope parent r.regex)
          ≡ ok tt
      verdict = ground (arith, eo)

      past : match_normalized engine r h ≡ or_else (regex_tier engine r.regex h) r.default
      past = match-rest engine r l parent label.1 x ew s eo

      after_walk :
          (t d : Option ℕ)
          → regex_tier engine r.regex h ≡ t
          → r.default ≡ d
          → (id : ℕ) × (match_normalized engine r h ≡ some id) × (in_scope id ≡ true)
      after_walk (some id) (some d) et ed = (
        id,
        rw (past, et),
        check_regexes_sound parent l r.regex {id = id} label a (ground (arith, verdict)) et,
      )
      after_walk none (some d) et ed = (d, rw (past, et, ed), ground (arith, verdict))
      after_walk t none et ed = absurd (ground (arith, verdict))

-- A wildcard that `wildcard_confined` lets through is safe: every host that it covers is routed,
-- and to a route of the scope. The host is one label in front of the wildcard's parent, written as
-- the router writes hosts, and each regex of the router matches only hosts that its scope declares.
pub wildcard_confined_sound :
    (engine : RegexEngine) (r : Router) (in_scope : ℕ → Bool) (parent l : Text)
    → IsLabel l
    → IsHost (l ++ b'.' ∷ parent)
    → All (Respects engine) r.regex
    → wildcard_confined engine r parent in_scope ≡ ok tt
    → IsRouted engine r in_scope (l ++ b'.' ∷ parent)
unfolding wildcard_confined
wildcard_confined_sound engine r in_scope parent l label host a e =
    elim (Option-cases (get r.exact h)) [
      | inr (id, hit) ↦
          from_named-get r.exact (λ k. cc)
            (All-append_left _ _ (named_above parent (keys r.suffix)) named)
      | inl x ↦ elim (Option-cases (get r.suffix h)) [
        | inr (id, hit) ↦
            from_named-get r.suffix (λ k. cc)
              (All-append_right _ (named_above parent (keys r.exact)) _ named)
        | inl s ↦
            let (id, hit, good) =
              generic_sound engine r in_scope parent l _ _ label a refl refl generic x s in
            (id, match_host_of_IsHost engine r h host ∙ hit, good)
      ]
    ]
  where
    h : Text
    h = l ++ b'.' ∷ parent

    verdict : confined_under engine r in_scope parent ≡ ok tt
    verdict = rw (normalize_of_IsHost parent (IsHost-parent l parent host)) at e

    parts :
        (u : Unit {0}) × (check_named engine r in_scope
            (sort (named_above parent (keys r.exact ++ keys r.suffix)))
          ≡ ok u)
        × (check_generic engine r in_scope parent (get r.wildcard parent) ≡ ok tt)
    parts = ok_so_far _ _ verdict

    generic : check_generic engine r in_scope parent (get r.wildcard parent) ≡ ok tt
    generic = parts.2

    named :
        All
          (IsRouted engine r in_scope)
          (named_above parent (keys r.exact) ++ named_above parent (keys r.suffix))
    named = rw (← named_above-append parent (keys r.exact) (keys r.suffix)) (
        All-sort (IsRouted engine r in_scope) (named_above parent (keys r.exact ++ keys r.suffix))
          (check_named_sound engine r in_scope _ parts.1))

    from_named-get :
        (m : HashMap ℕ)
        → get m h ≢ none
        → All (IsRouted engine r in_scope) (named_above parent (keys m))
        → IsRouted engine r in_scope h
    from_named-get m present all =
        named_above-get (IsRouted engine r in_scope) parent h m
          (rw (one_label_above-label l parent label)) present all
