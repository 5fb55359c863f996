-- ===== src/Router/Names.antt =====
-- src/router.rs: the helpers on host names and scope patterns.
use sni_gate.Prelude.{Bool, true, ◌||◌, [], ◌∷◌, ◌++◌, Option, none, some, if◌then◌else◌, is_some}
use sni_gate.Text.{
  Text, codes, text_eq, to_ascii_lowercase, trim, trim_end_dots, contains, starts_with,
  strip_prefix, split_first, strip_suffix, ends_with,
}

unfoldable pub cut_port : Text → Text
unfolding split_first
cut_port host = if starts_with b'[' host then host else split_first b':' host

unfoldable pub normalize : Text → Text
unfolding cut_port trim trim_end_dots to_ascii_lowercase
normalize host = to_ascii_lowercase (trim_end_dots (cut_port (trim host)))

abbrev pub map_or : Option Text → (Text → Text) → Text → Text
map_or none f d = d
map_or (some a) f d = f a

unfoldable pub normalize_scope_suffix : Text → Text
unfolding normalize trim
normalize_scope_suffix scope =
    let s = trim scope in
    map_or (strip_prefix (codes "*.") s) (λ rest. codes "*." ++ normalize rest)
      (map_or (strip_prefix (codes ".") s) (λ rest. codes "." ++ normalize rest) (normalize s))

abbrev pub a_label : Text → Option Text
a_label [] = none
a_label (c ∷ s) = if contains b'.' (c ∷ s) then none else some (c ∷ s)

abbrev pub and_then {ℓ κ} : {A : Type ℓ} {B : Type κ} → Option A → (A → Option B) → Option B
and_then none f = none
and_then (some a) f = f a

-- `key.strip_suffix(parent)?.strip_suffix('.')?`, when that is one label.
unfoldable pub one_label_above : Text → Text → Option Text
unfolding strip_suffix contains
one_label_above key parent =
    and_then (strip_suffix parent key) (λ left. and_then (strip_suffix (codes ".") left) a_label)

unfoldable pub is_suffix_of_or_equal : Text → Text → Bool
unfolding ends_with
is_suffix_of_or_equal candidate suffix =
    if text_eq candidate suffix then true else ends_with (codes "." ++ suffix) candidate

abbrev pub match_plain_scope : Text → Text → Option Text → Bool
match_plain_scope scope parent (some suffix) =
    is_suffix_of_or_equal parent suffix || is_some (one_label_above suffix parent)
match_plain_scope scope parent none = is_some (one_label_above scope parent)

abbrev pub match_scope : Text → Text → Option Text → Bool
match_scope scope parent (some suffix) = text_eq parent suffix
match_scope scope parent none = match_plain_scope scope parent (strip_prefix (codes ".") scope)

unfoldable pub match_scope_pattern : Text → Text → Bool
unfolding is_suffix_of_or_equal one_label_above
match_scope_pattern scope parent = match_scope scope parent (strip_prefix (codes "*.") scope)
