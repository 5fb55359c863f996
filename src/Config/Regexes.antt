-- ===== src/Config/Regexes.antt =====
-- src/config.rs: `is_regex_ref`, `regex_def`, `resolve_regex_ref` and `validate_regexes`.
use sni_gate.Prelude.{
  Bool, List, [], ◌∷◌, ◌++◌, Option, none, some, if◌then◌else◌, Result, ok, err, ◌>>=◌,
}
use sni_gate.Prelude.Tiers.{flatten}
use sni_gate.Text.{Text, codes, trim, starts_with, strip_prefix}
use sni_gate.Router.Table.{HashMap, get}
use sni_gate.Router.Build.{RegexEngine, RegexDef}
use sni_gate.Config.Tables.{Route, Listener}
use sni_gate.Config.Scope.{ScopeError, validate_scope_pattern}

pub data RegexError : Type 0 where
  bad_regex no_scopes unknown_regex : (name : Text) → RegexError
  bad_scope : (name : Text) → ScopeError → RegexError
  not_a_regex inline_regex : (pattern : Text) → RegexError
  bare_regex : RegexError

unfoldable pub is_regex_ref : Text → Bool
unfolding trim
is_regex_ref pattern = starts_with b'@' (trim pattern)

module _ (engine : RegexEngine) (regexes : HashMap RegexDef) where
  unfoldable pub regex_def : Text → Result RegexDef RegexError
  unfolding get
  regex_def name = elim (get regexes name) [
    | none ↦ err (RegexError.unknown_regex name)
    | some def ↦ ok def
  ]

  abbrev pub regex_of_name : Text → Option Text → Result RegexDef RegexError
  regex_of_name pattern none = err (not_a_regex pattern)
  regex_of_name pattern (some []) = err bare_regex
  regex_of_name pattern (some (c ∷ name)) = regex_def (c ∷ name)

  unfoldable pub resolve_regex_ref : Text → Result RegexDef RegexError
  unfolding regex_def trim
  resolve_regex_ref pattern = regex_of_name pattern (strip_prefix (codes "@") (trim pattern))

  abbrev pub as_regex_error : Text → Result (Unit {0}) ScopeError → Result (Unit {0}) RegexError
  as_regex_error name (ok u) = ok tt
  as_regex_error name (err e) = err (bad_scope name e)

  unfoldable pub check_scopes : Text → List Text → Result (Unit {0}) RegexError
  unfolding validate_scope_pattern
  check_scopes name [] = ok tt
  check_scopes name (scope ∷ scopes) =
      as_regex_error name (validate_scope_pattern scope) >>= λ _. check_scopes name scopes

  abbrev pub some_scopes : Text → List Text → Result (Unit {0}) RegexError
  some_scopes name [] = err (no_scopes name)
  some_scopes name (scope ∷ scopes) = check_scopes name (scope ∷ scopes)

  abbrev pub check_compiles : Text → RegexDef → Result (Unit {0}) RegexError
  check_compiles name def = if engine.compiles def.pattern then ok tt else err (bad_regex name)

  -- The loop over `[regexes]`.
  unfoldable pub check_regexes : HashMap RegexDef → Result (Unit {0}) RegexError
  unfolding check_scopes
  check_regexes [] = ok tt
  check_regexes ((name, def) ∷ m) = do
    _ ← check_compiles name def
    _ ← some_scopes name def.scope_suffix
    check_regexes m

  -- The definition is not used.
  abbrev pub forget : Result RegexDef RegexError → Result (Unit {0}) RegexError
  forget (ok def) = ok tt
  forget (err e) = err e

  unfoldable pub check_pattern : Text → Result (Unit {0}) RegexError
  unfolding is_regex_ref resolve_regex_ref trim
  check_pattern pattern =
      if is_regex_ref pattern
      then forget (resolve_regex_ref pattern)
      else if starts_with b'~' (trim pattern)
      then err (RegexError.inline_regex pattern)
      else ok tt

  unfoldable pub check_patterns : List Text → Result (Unit {0}) RegexError
  unfolding check_pattern
  check_patterns [] = ok tt
  check_patterns (pattern ∷ patterns) = check_pattern pattern >>= λ _. check_patterns patterns

  unfoldable pub check_matches : List Route → Result (Unit {0}) RegexError
  unfolding check_patterns
  check_matches [] = ok tt
  check_matches (route ∷ routes) = check_patterns route.match_sni >>= λ _. check_matches routes

  unfoldable pub check_listeners : List Listener → Result (Unit {0}) RegexError
  unfolding check_matches flatten
  check_listeners [] = ok tt
  check_listeners (l ∷ listeners) =
      check_matches (l.routes ++ flatten (l.default_route ∷ [])) >>= λ _. check_listeners listeners

  unfoldable pub validate_regexes : List Listener → Result (Unit {0}) RegexError
  unfolding check_regexes check_listeners
  validate_regexes listeners = check_regexes regexes >>= λ _. check_listeners listeners
