-- ===== src/Config/BuildOrder.antt =====
-- src/config.rs: `Config::resolver_build_order`, the depth-first walk over the resolvers with an
-- explicit stack.
pub mod Edges
pub mod Steps
pub mod Rounds
pub mod Termination
pub mod Ordering
pub mod Topological
pub mod Paths
pub mod Cycles
pub mod Acyclic
mod Tests
use sni_gate.Prelude.{
  ℕ, zero, suc, ◌*◌, Bool, true, false, List, [], ◌∷◌, ◌++◌, Option, none, some, if◌then◌else◌,
  length, Result, ok, err, ◌>>=◌,
}
use sni_gate.Text.{Text, codes, text_eq, strip_prefix, sort}
use sni_gate.Router.Table.{HashMap, get, insert, keys}
use sni_gate.Config.Tables.{ResolverDef}
use sni_gate.Config.Resolvers.{ResolverError, references, is_resolver_ref, resolver_def}

-- `Mark::Open` is `opened`.
pub data Mark : Type 0 where
  opened done : Mark

pub data Step : Type 0 where
  enter : (name : Text) (path : List Text) → Step
  exit : (name : Text) → Step

pub data OrderError : Type 0 where
  cycle : (path : List Text) → OrderError
  undeclared : ResolverError → OrderError
  invalid_reference unknown_reference : (name e : Text) → OrderError

-- `filter` of an iterator.
unfoldable pub filter : (Text → Bool) → List Text → List Text
filter p [] = []
filter p (t ∷ ts) = let rest = filter p ts in if p t then t ∷ rest else rest

-- `dedup`: of equal neighbours the first stays.
abbrev pub unless_first : Text → List Text → List Text
unless_first t [] = t ∷ []
unless_first t (u ∷ us) = if text_eq t u then t ∷ us else t ∷ u ∷ us

unfoldable pub dedup : List Text → List Text
dedup [] = []
dedup (t ∷ ts) = unless_first t (dedup ts)

unfoldable pub edges : ResolverDef → List Text
unfolding filter dedup sort references is_resolver_ref
edges def = dedup (sort (filter is_resolver_ref (references def)))

-- `get_key_value`, of which the key is used.
unfoldable pub get_key {ℓ} : {V : Type ℓ} → HashMap V → Text → Option Text
get_key [] key = none
get_key ((k, v) ∷ m) key = if text_eq k key then some k else get_key m key

pub record Walk : Type 0 where
  pub marks : HashMap Mark
  pub order : List Text
  pub stack : List Step

module _ (resolvers : HashMap ResolverDef) where
  unfoldable pub key_of : Text → Text → Option Text → Result Text OrderError
  unfolding get_key
  key_of name e none = err (invalid_reference name e)
  key_of name e (some bare) = elim (get_key resolvers bare) [
    | none ↦ err (unknown_reference name e)
    | some key ↦ ok key
  ]

  -- `for e in edges`: the keys are pushed with the path that leads to them.
  unfoldable pub push_edges :
      Text → List Text → List Text → List Step → Result (List Step) OrderError
  unfolding key_of get_key
  push_edges name path [] stack = ok stack
  push_edges name path (e ∷ es) stack = key_of name e (strip_prefix (codes "@") e) >>= λ key.
      push_edges name path es (enter key (path ++ key ∷ []) ∷ stack)

  abbrev pub as_order_error : Result ResolverDef ResolverError → Result ResolverDef OrderError
  as_order_error (ok def) = ok def
  as_order_error (err e) = err (undeclared e)

  -- A resolver that has no mark yet.
  unfoldable pub open_resolver : Text → List Text → Walk → Result Walk OrderError
  unfolding insert resolver_def edges push_edges
  open_resolver name path w = do
    let marks' = insert w.marks name opened
    def ← as_order_error (resolver_def resolvers name)
    stack ← push_edges name path (edges def) (exit name ∷ w.stack)
    ok (record w { marks = marks'; stack = stack })

  abbrev pub enter_by_mark : Option Mark → Text → List Text → Walk → Result Walk OrderError
  unfolding open_resolver
  enter_by_mark (some done) name path w = ok w
  enter_by_mark (some opened) name path w = err (cycle path)
  enter_by_mark none name path w = open_resolver name path w

  -- The loop body for a step that was popped from the stack.
  unfoldable pub take_step : Step → Walk → Result Walk OrderError
  unfolding enter_by_mark open_resolver get insert
  take_step (exit name) w =
      ok (record w { marks = insert w.marks name done; order = w.order ++ name ∷ [] })
  take_step (enter name path) w = enter_by_mark (get w.marks name) name path w

  -- `while let Some(step) = stack.pop()`; `none` means that the fuel ran out.
  unfoldable pub walk : ℕ → Walk → Option (Result Walk OrderError)
  unfolding take_step
  walk zero w = elim w.stack [ [] ↦ some (ok w) | _ ∷ _ ↦ none ]
  walk (suc fuel) w = elim w.stack [
    | [] ↦ some (ok w)
    | step ∷ rest ↦ elim (take_step step (record w { stack = rest })) [
      | err e ↦ some (err e)
      | ok w' ↦ walk fuel w'
    ]
  ]

  abbrev pub is_done : Option Mark → Bool
  is_done none = false
  is_done (some opened) = false
  is_done (some done) = true

  -- `for root in names`.
  unfoldable pub walk_roots : ℕ → Walk → List Text → Option (Result (List Text) OrderError)
  unfolding get walk
  walk_roots fuel w [] = some (ok w.order)
  walk_roots fuel w (root ∷ names) = elim (is_done (get w.marks root)) [
    | true ↦ walk_roots fuel w names
    | false ↦ elim (walk fuel (record w { stack = enter root (root ∷ []) ∷ [] })) [
      | none ↦ none
      | some (err e) ↦ some (err e)
      | some (ok w') ↦ walk_roots fuel w' names
    ]
  ]

  -- A resolver is opened once, and pushes its exit and at most two edges.
  unfoldable pub resolver_build_order : Option (Result (List Text) OrderError)
  unfolding walk_roots sort
  resolver_build_order =
      walk_roots (suc (3 * length resolvers)) (record { marks = []; order = []; stack = [] })
        (sort (keys resolvers))
