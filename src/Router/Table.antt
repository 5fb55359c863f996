-- ===== src/Router/Table.antt =====
-- `HashMap<String, V>` as an association list, and `insert_unique` of src/router.rs.
use sni_gate.Prelude.{
  ℕ, List, [], ◌∷◌, map, Option, none, some, if◌then◌else◌, is_some, Result, ok, err,
}
use sni_gate.Text.{Text, text_eq}

-- What the message of `ConfigError::Invalid` interpolates stands for the message.
pub data ConfigError : Type 0 where
  unknown_regex : (route : ℕ) (name : Text) → ConfigError
  invalid_pattern : (name : Text) → ConfigError
  inline_regex : (route : ℕ) (pattern : Text) → ConfigError
  duplicate_pattern : (pattern : Text) → ConfigError

abbrev pub HashMap {ℓ} : Type ℓ → Type ℓ
HashMap V = List (Text × V)

module _ {ℓ} {V : Type ℓ} where
  unfoldable pub get : HashMap V → Text → Option V
  get [] key = none
  get ((k, v) ∷ m) key = if text_eq k key then some v else get m key

  unfoldable pub insert : HashMap V → Text → V → HashMap V
  insert [] key value = (key, value) ∷ []
  insert ((k, v) ∷ m) key value =
      if text_eq k key then (key, value) ∷ m else (k, v) ∷ insert m key value

  abbrev pub keys : HashMap V → List Text
  keys = map (λ entry. entry.0)

unfoldable pub insert_unique : HashMap ℕ → Text → ℕ → Text → Result (HashMap ℕ) ConfigError
unfolding get insert
insert_unique m key id pat =
    if is_some (get m key) then err (duplicate_pattern pat) else ok (insert m key id)
