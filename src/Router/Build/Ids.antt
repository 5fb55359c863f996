-- ===== src/Router/Build/Ids.antt =====
-- src/router.rs: the ids of a routing table are indexes of the routes that it was built from.
use sni_gate.Prelude.{
  ℕ, suc, ◌+◌, ◌≤◌, ◌<◌, ◌≡◌, subst, inl, inr, List, [], ◌∷◌, ◌++◌, Option, none, some, arith,
  Bool-cases, is_some, length, All, All-append, Result, ok, ok_so_far,
}
use sni_gate.Text.{Text, text_eq, trim}
use sni_gate.Router.Names.{normalize}
use sni_gate.Router.Table.{ConfigError, HashMap, get, insert, insert_unique}
use sni_gate.Router.Build.{
  RegexEngine, RegexDef, RegexRoute, Router, Pattern, blank, regex_ref, inline, wildcard_of,
  suffix_of, exact_of, kind_of, compile, add_kind, add_pattern, add_patterns, build_from, build,
  empty,
}

module _ (n : ℕ) where
  abbrev pub Small : Option ℕ → Type 0
  Small none = Unit
  Small (some id) = id < n

  abbrev pub SmallIds : HashMap ℕ → Type 0
  SmallIds = All (λ entry. entry.1 < n)

  -- Every id is below the number of routes.
  pub record InRange (r : Router) : Type 0 where
    pub exact : SmallIds r.exact
    pub wildcard : SmallIds r.wildcard
    pub suffix : SmallIds r.suffix
    pub regex : All (λ t. t.route_id < n) r.regex
    pub default : Small r.default

  insert-SmallIds :
      (m : HashMap ℕ) (key : Text) (id : ℕ) → id < n → SmallIds m → SmallIds (insert m key id)
  unfolding insert
  insert-SmallIds [] key id small h = (small, tt)
  insert-SmallIds ((k, v) ∷ m) key id small h = elim (Bool-cases (text_eq k key)) [
    | inl same ↦ rw (insert, same) (small, h.1)
    | inr other ↦ rw (insert, other) (h.0, insert-SmallIds m key id small h.1)
  ]

  insert_unique-SmallIds :
      (m m' : HashMap ℕ) (key : Text) (id : ℕ) (pat : Text)
      → id < n
      → SmallIds m
      → insert_unique m key id pat ≡ ok m'
      → SmallIds m'
  unfolding insert_unique
  insert_unique-SmallIds m m' key id pat small h e = elim (Bool-cases (is_some (get m key))) [
    | inl taken ↦ let bad = rw (insert_unique, taken) at e in cc
    | inr free ↦
        let e' : insert m key id ≡ m' = let h' = rw (insert_unique, free) at e in cc in
        subst SmallIds e' (insert-SmallIds m key id small h)
  ]

  module _ (engine : RegexEngine) (regexes : HashMap RegexDef) where
    compile-small :
        (id : ℕ) (name : Text) (o : Option RegexDef) (route : RegexRoute)
        → id < n
        → compile engine regexes id name o ≡ ok route
        → route.route_id < n
    compile-small id name none route small e = cc
    compile-small id name (some def) route small e =
        elim (Bool-cases (engine.compiles def.pattern)) [
          | inl good ↦
              let e' : id ≡ route.route_id = let h = rw good at e in cc in
              subst (λ i. i < n) e' small
          | inr bad ↦ let h = rw bad at e in cc
        ]

    carried :
        (r r' : Router)
        → InRange r
        → ◌≡◌ {A = Result Router ConfigError} (ok r) (ok r')
        → InRange r'
    carried r r' h e = let e' : r ≡ r' = cc in subst InRange e' h

    add_kind-InRange :
        (r r' : Router) (id : ℕ) (pat : Text) (kind : Pattern)
        → id < n
        → InRange r
        → add_kind engine regexes r id pat kind ≡ ok r'
        → InRange r'
    add_kind-InRange r r' id pat blank small h e = carried r r' h e
    add_kind-InRange r r' id pat (regex_ref name) small h e =
        let (route, compiled, e1) =
          ok_so_far (compile engine regexes id name (get regexes name)) _ e in
        let small' = compile-small id name (get regexes name) route small compiled in
        let regex =
          All-append (λ (t : RegexRoute). t.route_id < n) r.regex (route ∷ []) h.regex
            (small', tt) in
        carried (record r { regex = r.regex ++ route ∷ [] }) r'
          (record {
            exact = h.exact;
            wildcard = h.wildcard;
            suffix = h.suffix;
            regex = regex;
            default = h.default;
          })
          e1
    add_kind-InRange r r' id pat inline small h e = cc
    add_kind-InRange r r' id pat (wildcard_of rest) small h e =
        let (m, added, e1) = ok_so_far (insert_unique r.wildcard (normalize rest) id pat) _ e in
        let ids = insert_unique-SmallIds r.wildcard m _ id pat small h.wildcard added in
        carried (record r { wildcard = m }) r'
          (record {
            exact = h.exact;
            wildcard = ids;
            suffix = h.suffix;
            regex = h.regex;
            default = h.default;
          })
          e1
    add_kind-InRange r r' id pat (suffix_of rest) small h e =
        let (m, added, e1) = ok_so_far (insert_unique r.suffix (normalize rest) id pat) _ e in
        let ids = insert_unique-SmallIds r.suffix m _ id pat small h.suffix added in
        carried (record r { suffix = m }) r'
          (record {
            exact = h.exact;
            wildcard = h.wildcard;
            suffix = ids;
            regex = h.regex;
            default = h.default;
          })
          e1
    add_kind-InRange r r' id pat (exact_of host) small h e =
        let (m, added, e1) = ok_so_far (insert_unique r.exact (normalize host) id pat) _ e in
        let ids = insert_unique-SmallIds r.exact m _ id pat small h.exact added in
        carried (record r { exact = m }) r'
          (record {
            exact = ids;
            wildcard = h.wildcard;
            suffix = h.suffix;
            regex = h.regex;
            default = h.default;
          })
          e1

    add_patterns-InRange :
        (r r' : Router) (id : ℕ) (pats : List Text)
        → id < n
        → InRange r
        → add_patterns engine regexes r id pats ≡ ok r'
        → InRange r'
    unfolding add_patterns add_pattern
    add_patterns-InRange r r' id [] small h e = carried r r' h e
    add_patterns-InRange r r' id (pat ∷ pats) small h e =
        let (r1, added, e1) = ok_so_far (add_pattern engine regexes r id pat) _ e in
        let h1 = add_kind-InRange r r1 id (trim pat) (kind_of (trim pat)) small h added in
        add_patterns-InRange r1 r' id pats small h1 e1

    build_from-InRange :
        (r r' : Router) (id : ℕ) (patterns : List (List Text))
        → id + length patterns ≤ n
        → InRange r
        → build_from engine regexes r id patterns ≡ ok r'
        → InRange r'
    unfolding build_from
    build_from-InRange r r' id [] le h e = carried r r' h e
    build_from-InRange r r' id (pats ∷ patterns) le h e =
        let (r1, added, e1) = ok_so_far (add_patterns engine regexes r id pats) _ e in
        let h1 = add_patterns-InRange r r1 id pats (omega (arith, le)) h added in
        build_from-InRange r1 r' (suc id) patterns (omega (arith, le)) h1 e1

-- The ids of a built table are below the number of its routes, if the default is.
pub build-InRange :
    (engine : RegexEngine) (regexes : HashMap RegexDef) (patterns : List (List Text))
    → (default : Option ℕ) (r : Router) → Small (length patterns) default
    → build engine regexes patterns default ≡ ok r
    → InRange (length patterns) r
unfolding build
build-InRange engine regexes patterns default r small e =
    build_from-InRange (length patterns) engine regexes (empty default) r 0 patterns (omega arith)
      (record { exact = tt; wildcard = tt; suffix = tt; regex = tt; default = small }) e
