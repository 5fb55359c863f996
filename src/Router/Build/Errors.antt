-- ===== src/Router/Build/Errors.antt =====
-- src/router.rs, `Router::build`: what it can fail on.
use sni_gate.Prelude.{
  Twice, first, later, Any-left, Any-right, Twice-both, Twice-left, Twice-right, ℕ, suc, refl, none,
  ◌++◌, Any, here, there, Option-cases, ◌≡◌, ◌⊎◌, inl, inr, true, List, [], ◌∷◌, Option, some, All,
  ok, err, Result-cases, err_from,
}
use sni_gate.Text.{Text, trim}
use sni_gate.Router.Names.{normalize}
use sni_gate.Router.Build.Tiers.{Tier, exact, wildcard, suffix, table, claim}
use sni_gate.Router.Build.Exact.{Claims, add_pattern-Grown, add_patterns-Grown}
use sni_gate.Router.Table.{ConfigError, duplicate_pattern, HashMap, get, insert_unique}
use sni_gate.Router.Build.{
  RegexEngine, RegexDef, Router, Pattern, blank, regex_ref, inline, wildcard_of, suffix_of,
  exact_of, kind_of, add_kind, add_pattern, add_patterns, build_from, build, empty,
}

abbrev pub all_patterns : List (List Text) → List Text
all_patterns [] = []
all_patterns (pats ∷ patterns) = pats ++ all_patterns patterns

-- Two of the patterns have one key in one tier, and the error names a pattern.
abbrev pub IsDuplicate : List Text → ConfigError → Type 0
IsDuplicate pats e =
    (p : Text) × (e ≡ duplicate_pattern p) × ((t : Tier) × (key : Text) × Twice (Claims t key) pats)

-- A pattern has a key that the table of its tier holds, or two of them have one key.
abbrev Repeats : Router → List Text → ConfigError → Type 0
Repeats r pats e =
    (p : Text) × (e ≡ duplicate_pattern p)
    × ((t : Tier) × (key : Text) × (((v : ℕ) × (get (table t r) key ≡ some v)
            × Any (Claims t key) pats)
          ⊎ Twice (Claims t key) pats))

insert_unique-taken :
    (m : HashMap ℕ) (key : Text) (id : ℕ) (pat : Text) {e : ConfigError}
    → insert_unique m key id pat ≡ err e
    → (e ≡ duplicate_pattern pat) × ((v : ℕ) × (get m key ≡ some v))
unfolding insert_unique
insert_unique-taken m key id pat {e} h = elim (Option-cases (get m key)) [
  | inl free ↦ let bad = rw (insert_unique, free) at h in cc
  | inr (v, found) ↦ let h' = rw (insert_unique, found) at h in (cc, (v, found))
]

module _ (engine : RegexEngine) (regexes : HashMap RegexDef) where
  abbrev pub Compiles : Text × RegexDef → Type 0
  Compiles (name, def) = engine.compiles def.pattern ≡ true

  -- A reference leads to a regex that compiles, and nothing is inline.
  abbrev pub IsSound : Pattern → Type 0
  IsSound blank = Unit
  IsSound (regex_ref name) = (def : RegexDef) × (get regexes name ≡ some def) × Compiles (name, def)
  IsSound inline = ⊥
  IsSound (wildcard_of rest) = Unit
  IsSound (suffix_of rest) = Unit
  IsSound (exact_of host) = Unit

  -- The key of the pattern is taken.
  Taken : Router → Text → Pattern → ConfigError → Type 0
  Taken r pat kind e =
      (e ≡ duplicate_pattern pat)
      × ((t : Tier) × (key : Text) × (v : ℕ) × (get (table t r) key ≡ some v)
          × (claim t kind ≡ some key))

  add_kind-Taken :
      (r : Router) (id : ℕ) (pat : Text) (kind : Pattern) {e : ConfigError}
      → IsSound kind
      → add_kind engine regexes r id pat kind ≡ err e
      → Taken r pat kind e
  unfolding Taken
  add_kind-Taken r id pat blank s h = cc
  add_kind-Taken r id pat (regex_ref name) (def, found, compiles) h =
      let bad = rw (found, compiles) at h in cc
  add_kind-Taken r id pat inline s h = absurd s
  add_kind-Taken r id pat (wildcard_of rest) s h =
      elim (err_from (insert_unique r.wildcard (normalize rest) id pat) _ h) [
        | inl failed ↦
            let (same, (v, found)) =
              insert_unique-taken r.wildcard (normalize rest) id pat failed in
            (same, (wildcard, normalize rest, v, found, refl))
        | inr (m, _, bad) ↦ cc
      ]
  add_kind-Taken r id pat (suffix_of rest) s h =
      elim (err_from (insert_unique r.suffix (normalize rest) id pat) _ h) [
        | inl failed ↦
            let (same, (v, found)) = insert_unique-taken r.suffix (normalize rest) id pat failed in
            (same, (suffix, normalize rest, v, found, refl))
        | inr (m, _, bad) ↦ cc
      ]
  add_kind-Taken r id pat (exact_of host) s h =
      elim (err_from (insert_unique r.exact (normalize host) id pat) _ h) [
        | inl failed ↦
            let (same, (v, found)) = insert_unique-taken r.exact (normalize host) id pat failed in
            (same, (exact, normalize host, v, found, refl))
        | inr (m, _, bad) ↦ cc
      ]

  abbrev pub IsSoundText : Text → Type 0
  IsSoundText raw = IsSound (kind_of (trim raw))

  add_patterns-Repeats :
      (r : Router) (id : ℕ) (pats : List Text) {e : ConfigError}
      → All IsSoundText pats
      → add_patterns engine regexes r id pats ≡ err e
      → Repeats r pats e
  unfolding add_patterns add_pattern Taken
  add_patterns-Repeats r id [] s h = cc
  add_patterns-Repeats r id (pat ∷ pats) {e} s h =
      elim (err_from (add_pattern engine regexes r id pat) _ h) [
        | inl failed ↦
            let (same, (t, key, v, found, c)) =
              add_kind-Taken r id (trim pat) (kind_of (trim pat)) s.0 failed in
            (trim pat, same, (t, key, inl (v, found, here c)))
        | inr (r', added, rest) ↦
            let (p, same, (t, key, how)) = add_patterns-Repeats r' id pats {e = e} s.1 rest in
            (
              p,
              same,
              (
                t,
                key,
                elim how [
                  | inl (v, found, a) ↦
                      elim ((add_pattern-Grown engine regexes t r r' id pat added key v).0 found) [
                        | inl old ↦ inl (v, old, there a)
                        | inr (_, c) ↦ inr (first c a)
                      ]
                  | inr twice ↦ inr (later twice)
                ],
              ),
            )
      ]

  build_from-Repeats :
      (r : Router) (id : ℕ) (patterns : List (List Text)) {e : ConfigError}
      → All (All IsSoundText) patterns
      → build_from engine regexes r id patterns ≡ err e
      → Repeats r (all_patterns patterns) e
  unfolding build_from
  build_from-Repeats r id [] s h = cc
  build_from-Repeats r id (pats ∷ patterns) {e} s h =
      elim (err_from (add_patterns engine regexes r id pats) _ h) [
        | inl failed ↦
            let (p, same, (t, key, how)) = add_patterns-Repeats r id pats {e = e} s.0 failed in
            (
              p,
              same,
              (
                t,
                key,
                elim how [
                  | inl (v, found, a) ↦ inl (v, found, Any-left pats (all_patterns patterns) a)
                  | inr twice ↦ inr (Twice-left pats (all_patterns patterns) twice)
                ],
              ),
            )
        | inr (r', added, rest) ↦
            let (p, same, (t, key, how)) =
              build_from-Repeats r' (suc id) patterns {e = e} s.1 rest in
            (
              p,
              same,
              (
                t,
                key,
                elim how [
                  | inl (v, found, a) ↦
                      elim ((add_patterns-Grown engine regexes t r r' id pats added key v).0
                        found) [
                          | inl old ↦ inl (v, old, Any-right pats (all_patterns patterns) a)
                          | inr (_, b) ↦ inr (Twice-both pats (all_patterns patterns) b a)
                        ]
                  | inr twice ↦ inr (Twice-right pats (all_patterns patterns) twice)
                ],
              ),
            )
      ]

  empty-none :
      (t : Tier) (default : Option ℕ) (key : Text) → get (table t (empty default)) key ≡ none
  unfolding get
  empty-none exact default key = refl
  empty-none wildcard default key = refl
  empty-none suffix default key = refl

  -- Sound patterns build, or two of them have one key in one tier.
  pub build-IsDuplicate :
      (patterns : List (List Text)) (default : Option ℕ)
      → All (All IsSoundText) patterns
      → ((r : Router) × (build engine regexes patterns default ≡ ok r))
        ⊎ ((e : ConfigError) × (build engine regexes patterns default ≡ err e)
            × IsDuplicate (all_patterns patterns) e)
  unfolding build
  build-IsDuplicate patterns default s =
      elim (Result-cases (build engine regexes patterns default)) [
        | inl (e, failed) ↦
            let (p, same, (t, key, how)) =
              build_from-Repeats (empty default) 0 patterns {e = e} s failed in
            inr (
              e,
              failed,
              (
                p,
                same,
                (
                  t,
                  key,
                  elim how [
                    | inl (v, found, a) ↦ let gone = empty-none t default key in cc
                    | inr twice ↦ twice
                  ],
                ),
              ),
            )
        | inr (r, built) ↦ inl (r, built)
      ]
