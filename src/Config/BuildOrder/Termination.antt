-- ===== src/Config/BuildOrder/Termination.antt =====
-- The walk over the resolvers ends within its fuel.
use sni_gate.Prelude.{
  ℕ, zero, suc, ◌+◌, ◌*◌, ◌≤◌, ◌≡◌, refl, ap, inl, inr, List, [], ◌∷◌, ◌++◌, Option, none, some,
  arith, if◌then◌else◌, Bool-cases, is_some, length, length-map, In, here, there, Result, ok, err,
  Result-cases,
}
use sni_gate.Text.{Text, sort}
use sni_gate.Text.Parts.{text_eq_refl}
use sni_gate.Router.Table.{HashMap, get, insert, keys}
use sni_gate.Router.Entries.{get-insert, get-In}
use sni_gate.Config.Tables.{ResolverDef}
use sni_gate.Config.BuildOrder.Edges.{length-edges}
use sni_gate.Config.BuildOrder.Steps.{Targets, entered, open_resolver-ok}
use sni_gate.Config.BuildOrder.{
  Mark, opened, done, Step, enter, exit, OrderError, Walk, edges, open_resolver, take_step,
  enter_by_mark, walk, is_done, walk_roots, resolver_build_order,
}

unmarked : HashMap Mark → List Text → ℕ
unmarked marks [] = 0
unmarked marks (k ∷ ks) =
    if is_some (get marks k) then unmarked marks ks else suc (unmarked marks ks)

unmarked-insert :
    (m : HashMap Mark) (n : Text) (v : Mark) (ks : List Text)
    → unmarked (insert m n v) ks ≤ unmarked m ks
unfolding unmarked
unmarked-insert m n v [] = omega arith
unmarked-insert m n v (k ∷ ks) = ground (arith, get-insert m n v k, unmarked-insert m n v ks)

unmarked-open :
    (m : HashMap Mark) (n : Text) (v : Mark) (ks : List Text)
    → In n ks
    → get m n ≡ none
    → suc (unmarked (insert m n v) ks) ≤ unmarked m ks
unfolding unmarked
unmarked-open m n v [] h free = elim h [ ]
unmarked-open m n v (k ∷ ks) (here e) free =
    ground (arith, get-insert m n v n, text_eq_refl n, e, unmarked-insert m n v ks)
unmarked-open m n v (k ∷ ks) (there h) free =
    ground (arith, get-insert m n v k, unmarked-open m n v ks h free)

unmarked-le-length : (m : HashMap Mark) (ks : List Text) → unmarked m ks ≤ length ks
unfolding unmarked
unmarked-le-length m [] = omega arith
unmarked-le-length m (k ∷ ks) = ground (arith, unmarked-le-length m ks)

module _ (resolvers : HashMap ResolverDef) where
  abbrev work : Walk → ℕ
  unfolding unmarked
  work w = length w.stack + 3 * unmarked w.marks (keys resolvers)

  length-entered :
      (path es ks : List Text) (stack : List Step)
      → Targets resolvers es ks
      → length (entered resolvers path ks stack) ≡ length es + length stack
  length-entered path [] [] stack h = omega arith
  length-entered path [] (k ∷ ks) stack h = elim h [ ]
  length-entered path (e ∷ es) [] stack h = elim h [ ]
  length-entered path (e ∷ es) (k ∷ ks) stack h =
      omega (arith, length-entered path es ks (enter k (path ++ k ∷ []) ∷ stack) h.1)

  open_resolver-work :
      (name : Text) (path : List Text) (w : Walk) {w' : Walk}
      → get w.marks name ≡ none
      → open_resolver resolvers name path w ≡ ok w'
      → work w' ≤ work w
  unfolding work
  open_resolver-work name path w free h =
      let (def, ks, found, targets, e) = open_resolver-ok resolvers name path w h in
      rw e (
        omega (
          arith,
          length-entered path (edges def) ks (exit name ∷ w.stack) targets,
          length-edges def,
          unmarked-open w.marks name opened (keys resolvers) (get-In resolvers name found) free,
        ))

  -- A step that leaves the walk going takes it nearer to its end.
  take_step-work :
      (step : Step) (w : Walk) {w' : Walk} → take_step resolvers step w ≡ ok w' → work w' ≤ work w
  unfolding take_step work
  take_step-work (exit name) w h =
      ground (arith, unmarked-insert w.marks name done (keys resolvers))
  take_step-work (enter name path) w h = by_mark (get w.marks name) refl h
    where
      by_mark :
          (o : Option Mark)
          → get w.marks name ≡ o
          → {w' : Walk} → enter_by_mark resolvers o name path w ≡ ok w'
          → work w' ≤ work w
      by_mark none e h = open_resolver-work name path w e h
      by_mark (some opened) e h = cc
      by_mark (some done) e h = ground arith

  -- The fuel bounds the work that is left.
  walk_ends :
      (fuel : ℕ) (w : Walk) (stack : List Step)
      → w.stack ≡ stack
      → work w ≤ fuel
      → (r : Result Walk OrderError) × (walk resolvers fuel w ≡ some r)
  unfolding walk work
  walk_ends zero w [] e le = (ok w, rw (walk, e) (ap (λ s. some (ok (record w { stack = s }))) e))
  walk_ends zero w (step ∷ rest) e le = absurd (omega (arith, ap length e))
  walk_ends (suc fuel) w [] e le =
      (ok w, rw (walk, e) (ap (λ s. some (ok (record w { stack = s }))) e))
  walk_ends (suc fuel) w (step ∷ rest) e le =
      let w0 = record w { stack = rest } in
      elim (Result-cases (take_step resolvers step w0)) [
        | inl (fault, failed) ↦ (err fault, rw (walk, e, failed) refl)
        | inr (w', went) ↦
            let less = take_step-work step w0 went in
            let (r, ends) =
              walk_ends fuel w' w'.stack refl (omega (arith, less, le, ap length e)) in
            (r, rw (walk, e, went) ends)
      ]

  walk_roots_ends :
      (fuel : ℕ) (names : List Text) (w : Walk)
      → suc (3 * length resolvers) ≤ fuel
      → (r : Result (List Text) OrderError) × (walk_roots resolvers fuel w names ≡ some r)
  unfolding walk_roots work
  walk_roots_ends fuel [] w le = (ok w.order, refl)
  walk_roots_ends fuel (root ∷ names) w le =
      elim (Bool-cases (is_done resolvers (get w.marks root))) [
        | inl visited ↦ rw (walk_roots, visited) (walk_roots_ends fuel names w le)
        | inr fresh ↦
            let w0 = record w { stack = enter root (root ∷ []) ∷ [] } in
            let bound = unmarked-le-length w.marks (keys resolvers) in
            let (r, ends) =
              walk_ends fuel w0 w0.stack refl
                (omega (arith, bound, length-map (λ entry. entry.0) resolvers)) in
            elim (Result-cases r) [
              | inl (fault, e) ↦ (err fault, rw (walk_roots, fresh, ends, e) refl)
              | inr (w', e) ↦
                  let (r', ends') = walk_roots_ends fuel names w' le in
                  (r', rw (walk_roots, fresh, ends, e) ends')
            ]
      ]

  -- The walk over the resolvers comes to a result, whatever the resolvers refer to.
  pub resolver_build_order_ends :
      (r : Result (List Text) OrderError) × (resolver_build_order resolvers ≡ some r)
  unfolding resolver_build_order
  resolver_build_order_ends =
      walk_roots_ends (suc (3 * length resolvers)) (sort (keys resolvers)) _ (omega arith)
