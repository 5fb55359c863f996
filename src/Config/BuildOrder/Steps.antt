-- ===== src/Config/BuildOrder/Steps.antt =====
-- What opening a resolver leaves: its exit, and an entry for each of its dependencies on top.
use sni_gate.Prelude.{
  ◌≡◌, inl, inr, List, [], ◌∷◌, ◌++◌, Option, none, some, arith, Option-cases, ok, ok_so_far,
}
use sni_gate.Prelude.Tiers.{and_then}
use sni_gate.Text.{Text, codes, strip_prefix}
use sni_gate.Router.Table.{HashMap, get, insert}
use sni_gate.Config.Tables.{ResolverDef}
use sni_gate.Config.Resolvers.{resolver_def}
use sni_gate.Config.BuildOrder.{
  opened, Step, enter, exit, Walk, edges, get_key, key_of, push_edges, as_order_error,
  open_resolver,
}

module _ (resolvers : HashMap ResolverDef) where
  -- The declared resolver that a reference names.
  unfoldable pub target : Text → Option Text
  unfolding get_key
  target e = and_then (strip_prefix (codes "@") e) (get_key resolvers)

  abbrev pub Targets : List Text → List Text → Type 0
  Targets [] [] = Unit
  Targets (e ∷ es) (k ∷ ks) = (target e ≡ some k) × Targets es ks
  Targets _ _ = ⊥

  abbrev pub entered : List Text → List Text → List Step → List Step
  entered path [] stack = stack
  entered path (k ∷ ks) stack = entered path ks (enter k (path ++ k ∷ []) ∷ stack)

  key_of-ok :
      (name e : Text) (o : Option Text) {key : Text}
      → key_of resolvers name e o ≡ ok key
      → and_then o (get_key resolvers) ≡ some key
  unfolding key_of
  key_of-ok name e none h = cc
  key_of-ok name e (some bare) h = elim (Option-cases (get_key resolvers bare)) [
    | inl e' ↦ ground arith
    | inr (key', e') ↦ ground arith
  ]

  pub push_edges-ok :
      (name : Text) (path es : List Text) (stack : List Step) {stack' : List Step}
      → push_edges resolvers name path es stack ≡ ok stack'
      → (ks : List Text) × Targets es ks × (stack' ≡ entered path ks stack)
  unfolding push_edges target
  push_edges-ok name path [] stack h = ([], tt, ground arith)
  push_edges-ok name path (e ∷ es) stack h =
      let (key, named, rest) =
        ok_so_far (key_of resolvers name e (strip_prefix (codes "@") e)) _ h in
      let (ks, targets, left) =
        push_edges-ok name path es (enter key (path ++ key ∷ []) ∷ stack) rest in
      (key ∷ ks, (key_of-ok name e (strip_prefix (codes "@") e) named, targets), left)

  pub found_def :
      (name : Text) {def : ResolverDef}
      → as_order_error resolvers (resolver_def resolvers name) ≡ ok def
      → get resolvers name ≡ some def
  unfolding resolver_def
  found_def name h = elim (Option-cases (get resolvers name)) [
    | inl e ↦ ground arith
    | inr (d, e) ↦ ground arith
  ]

  pub open_resolver-ok :
      (name : Text) (path : List Text) (w : Walk) {w' : Walk}
      → open_resolver resolvers name path w ≡ ok w'
      → (def : ResolverDef) × (ks : List Text) × (get resolvers name ≡ some def)
        × Targets (edges def) ks
        × (w' ≡ record w {
          marks = insert w.marks name opened;
          stack = entered path ks (exit name ∷ w.stack);
        })
  unfolding open_resolver
  open_resolver-ok name path w h =
      let (def, found, h1) =
        ok_so_far (as_order_error resolvers (resolver_def resolvers name)) _ h in
      let (stack, pushed, h2) =
        ok_so_far (push_edges resolvers name path (edges def) (exit name ∷ w.stack)) _ h1 in
      let (ks, targets, left) = push_edges-ok name path (edges def) (exit name ∷ w.stack) pushed in
      (def, ks, found_def name found, targets, ground arith)
