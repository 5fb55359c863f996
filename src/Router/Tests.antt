-- ===== src/Router/Tests.antt =====
-- The router at a small configuration, and its theorems at inputs that meet their hypotheses.
use sni_gate.Prelude.{
  ◌≡◌, refl, ◌↔◌, true, List, [], ◌∷◌, ◌++◌, none, some, arith, ok, err, ◌==◌, All, Any, here,
  get_elem?,
}
use sni_gate.Text.{Text, codes, text_eq, to_ascii_lowercase}
use sni_gate.Text.Parts.{text_eq→eq}
use sni_gate.Router.Names.{normalize, match_scope_pattern, normalize_scope_suffix}
use sni_gate.Router.Hosts.{is_host, is_host-IsHost}
use sni_gate.Router.Scopes.{at_exact, Meets, match_scope_pattern_iff}
use sni_gate.Router.Table.{HashMap, get, insert_unique, unknown_regex, duplicate_pattern}
use sni_gate.Router.Build.{RegexEngine, RegexDef, Router, build}
use sni_gate.Router.Build.Tiers.{table, suffix}
use sni_gate.Router.Build.Exact.{Claims, build-table_iff}
use sni_gate.Router.Matching.{match_host}
use sni_gate.Router.Matching.Precedence.{Routes, match_host-Routes}
use sni_gate.Router.Matching.Spelling.{dots, match_host-spelling}
use sni_gate.Router.Confine.{Escape, wildcard_confined}
use sni_gate.Router.Confine.Sound.{IsRouted, wildcard_confined_sound, Respects}

-- A stand-in for the regex crate: a pattern matches itself only.
abbrev pub literal : RegexEngine
literal = record { compiles = λ p. true; is_match = text_eq }

abbrev pub mail : Text
mail = codes "mail.other.test"

abbrev regexes : HashMap RegexDef
regexes =
    (codes "mail", record { pattern = mail; scope_suffix = codes "Mail.Other.Test." ∷ [] }) ∷ []

abbrev patterns : List (List Text)
patterns =
    (codes "Example.com" ∷ codes " *.example.com " ∷ [])
    ∷ (codes ".site.test" ∷ codes "" ∷ [])
    ∷ (codes "@mail" ∷ [])
    ∷ []

abbrev pub sample : Router
sample = record {
  exact = (codes "example.com", 0) ∷ [];
  wildcard = (codes "example.com", 0) ∷ [];
  suffix = (codes "site.test", 1) ∷ [];
  regex = record { pattern = mail; route_id = 2; scope_suffix = mail ∷ [] } ∷ [];
  default = some 3;
}

sample-built : build literal regexes patterns (some 3) ≡ ok sample
unfolding build normalize normalize_scope_suffix insert_unique
sample-built = refl

-- Opens the router for the tests.
routing : Unit {0}
unfolding match_host wildcard_confined match_scope_pattern build insert_unique
routing = tt

build_errors :
    (build literal [] (((codes "@mail") ∷ []) ∷ []) none ≡ err (unknown_regex 0 (codes "mail")))
    × (build literal [] (((codes "a.b") ∷ []) ∷ ((codes "A.b.") ∷ []) ∷ []) none
        ≡ err (duplicate_pattern (codes "A.b.")))
unfolding routing
build_errors = (refl, refl)

match_host_tests :
    (match_host literal sample (codes "EXAMPLE.com:443") ≡ some 0)
    × (match_host literal sample (codes "www.example.com") ≡ some 0)
    × (match_host literal sample (codes "a.b.site.test") ≡ some 1)
    × (match_host literal sample mail ≡ some 2)
    × (match_host literal sample (codes "a.b.example.com") ≡ some 3)
unfolding routing
match_host_tests = (refl, refl, refl, refl, refl)

wildcard_confined_tests :
    (wildcard_confined literal sample (codes "example.com") (λ id. id == 0) ≡ ok tt)
    × (wildcard_confined literal sample (codes "other.test") (λ id. id == 3)
        ≡ err (Escape.regex_tier 2))
    × (wildcard_confined literal sample (codes "test") (λ id. id == 3)
        ≡ err (Escape.host (codes "site.test") 1))
    × (wildcard_confined literal sample (codes "b.site.test") (λ id. id == 3)
        ≡ err (Escape.host (codes ".site.test") 1))
    × (wildcard_confined literal sample (codes "b.org") (λ id. id == 0)
        ≡ err (Escape.default_route 3))
unfolding routing
wildcard_confined_tests = (refl, refl, refl, refl, refl)

pub sample-Respects : All (Respects literal) sample.regex
sample-Respects = ((λ h m. here (at_exact refl refl (text_eq→eq mail h m))), tt)

abbrev www : Text
www = codes "www"

wildcard_confined_sound_example :
    IsRouted literal sample (λ id. id == 3) (www ++ b'.' ∷ codes "example.org")
unfolding routing is_host
wildcard_confined_sound_example =
    wildcard_confined_sound literal sample (λ id. id == 3) (codes "example.org") www
      ((λ e. cc), omega arith) (is_host-IsHost (codes "www.example.org") refl) sample-Respects refl

match_scope_pattern_iff_example :
    (match_scope_pattern (codes ".a.site.test") (codes "site.test") ≡ true)
    ↔ Meets (codes ".a.site.test") (codes "site.test")
match_scope_pattern_iff_example = match_scope_pattern_iff (codes ".a.site.test") (codes "site.test")

match_host-Routes_example :
    Routes literal sample
      (codes "a.b.site.test")
      (match_host literal sample (codes "a.b.site.test"))
unfolding is_host
match_host-Routes_example =
    match_host-Routes literal sample (codes "a.b.site.test")
      (is_host-IsHost (codes "a.b.site.test") refl)

match_host-spelling_example :
    (match_host literal sample (codes "WWW.Example.com" ++ dots 1)
      ≡ match_host literal sample (to_ascii_lowercase (codes "WWW.Example.com")))
    × (match_host literal sample ((codes "WWW.Example.com" ++ dots 1) ++ b':' ∷ codes "443")
        ≡ match_host literal sample (to_ascii_lowercase (codes "WWW.Example.com")))
unfolding is_host to_ascii_lowercase
match_host-spelling_example =
    match_host-spelling literal sample (codes "WWW.Example.com") 1 (codes "443")
      (is_host-IsHost (codes "www.example.com") refl)

build-table_iff_example : (get (table suffix sample) (codes "site.test") ≡ some 1) ↔ (
    (pats : List Text) × (get_elem? patterns 1 ≡ some pats)
    × Any (Claims suffix (codes "site.test")) pats)
build-table_iff_example =
    build-table_iff literal regexes patterns (some 3) sample sample-built suffix (codes "site.test")
      1
