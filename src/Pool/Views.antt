-- ===== src/Pool/Views.antt =====
-- src/pool.rs: the views of a pool (`PoolBuilder::register_view`, `Pool::view_for`).
use sni_gate.Prelude.{
  ℕ, suc, Bool, true, false, ◌&&◌, List, [], ◌∷◌, ◌++◌, Option, none, some, ◌==◌, length,
}
use sni_gate.Prelude.Tiers.{unwrap_or}
use sni_gate.Text.{text_eq}
use sni_gate.Config.Tables.{Selector}

abbrev pub selector_eq : Selector → Selector → Bool
selector_eq (Selector.index i) (Selector.index j) = i == j
selector_eq (Selector.tag s) (Selector.tag t) = text_eq s t
selector_eq _ _ = false

unfoldable pub selectors_eq : List Selector → List Selector → Bool
selectors_eq [] [] = true
selectors_eq (s ∷ ss) (t ∷ ts) = selector_eq s t && selectors_eq ss ts
selectors_eq _ _ = false

abbrev next : Option ℕ → Option ℕ
next none = none
next (some i) = some (suc i)

-- `position` of the view with these selectors.
unfoldable pub position : List (List Selector) → List Selector → Option ℕ
unfolding selectors_eq
position [] wanted = none
position (view ∷ views) wanted = elim (selectors_eq view wanted) [
  | true ↦ some 0
  | false ↦ next (position views wanted)
]

unfoldable pub view_for : List (List Selector) → Option (List Selector) → Option ℕ
unfolding position
view_for views selectors = position views (unwrap_or [] selectors)

abbrev pub registered : List (List Selector) → List Selector → Option ℕ → List (List Selector) × ℕ
registered views selectors (some existing) = (views, existing)
registered views selectors none = (views ++ selectors ∷ [], length views)

unfoldable pub register_view :
    List (List Selector) → Option (List Selector) → List (List Selector) × ℕ
unfolding position
register_view views selectors =
    let selectors' = unwrap_or [] selectors in
    registered views selectors' (position views selectors')
