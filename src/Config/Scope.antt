-- ===== src/Config/Scope.antt =====
-- src/config.rs: `validate_scope_pattern`.
use sni_gate.Prelude.{
  ℕ, ◌≡◌, refl, Bool, ◌&&◌, ◌||◌, List, [], ◌∷◌, Option, none, some, leb, ◌==◌, if◌then◌else◌,
  Result, ok, err, ◌>>=◌, all,
}
use sni_gate.Text.{Text, codes, trim, contains, starts_with, ends_with, strip_prefix}

pub data ScopeError : Type 0 where
  empty_entry no_domain bare_tld empty_label misplaced_hyphen invalid_character : ScopeError

-- `domain.split('.')`: never empty.
abbrev pub onto_label : ℕ → List Text → List Text
onto_label c [] = (c ∷ []) ∷ []
onto_label c (label ∷ labels) = (c ∷ label) ∷ labels

unfoldable pub split_dots : Text → List Text
split_dots [] = [] ∷ []
split_dots (c ∷ s) = let rest = split_dots s in if c == b'.' then [] ∷ rest else onto_label c rest

abbrev pub is_alphanumeric : ℕ → Bool
is_alphanumeric c =
    (leb b'0' c && leb c b'9') || (leb b'A' c && leb c b'Z') || (leb b'a' c && leb c b'z')

abbrev pub is_label_char : ℕ → Bool
is_label_char c = is_alphanumeric c || c == b'-'

abbrev pub check_label : Text → Result (Unit {0}) ScopeError
check_label [] = err ScopeError.empty_label
check_label (c ∷ s) =
    if starts_with b'-' (c ∷ s) || ends_with (codes "-") (c ∷ s)
    then err ScopeError.misplaced_hyphen
    else if all is_label_char (c ∷ s)
    then ok tt
    else err ScopeError.invalid_character

unfoldable pub check_labels : List Text → Result (Unit {0}) ScopeError
unfolding ends_with
check_labels [] = ok tt
check_labels (label ∷ labels) = check_label label >>= λ _. check_labels labels

abbrev pub check_domain : Text → Result (Unit {0}) ScopeError
check_domain [] = err ScopeError.no_domain
check_domain (c ∷ s) =
    if contains b'.' (c ∷ s) then check_labels (split_dots (c ∷ s)) else err ScopeError.bare_tld

abbrev pub strip_dot : Text → Option Text → Text
strip_dot scope none = scope
strip_dot scope (some rest) = rest

abbrev pub strip_wildcard : Text → Option Text → Text
strip_wildcard scope none = strip_dot scope (strip_prefix (codes ".") scope)
strip_wildcard scope (some rest) = rest

-- The domain part.
abbrev pub domain_of : Text → Text
domain_of scope = strip_wildcard scope (strip_prefix (codes "*.") scope)

abbrev pub validate_trimmed : Text → Result (Unit {0}) ScopeError
validate_trimmed [] = err ScopeError.empty_entry
validate_trimmed (c ∷ s) = check_domain (domain_of (c ∷ s))

unfoldable pub validate_scope_pattern : Text → Result (Unit {0}) ScopeError
unfolding trim contains split_dots check_labels
validate_scope_pattern scope = validate_trimmed (trim scope)

scope_tests :
    (validate_scope_pattern (codes " *.example.com ") ≡ ok tt)
    × (validate_scope_pattern (codes ".example.com") ≡ ok tt)
    × (validate_scope_pattern (codes "*.com") ≡ err ScopeError.bare_tld)
    × (validate_scope_pattern (codes "*.") ≡ err ScopeError.no_domain)
    × (validate_scope_pattern (codes "a..com") ≡ err ScopeError.empty_label)
    × (validate_scope_pattern (codes "-a.com") ≡ err ScopeError.misplaced_hyphen)
    × (validate_scope_pattern (codes "a_b.com") ≡ err ScopeError.invalid_character)
unfolding validate_scope_pattern ends_with
scope_tests = (refl, refl, refl, refl, refl, refl, refl)
