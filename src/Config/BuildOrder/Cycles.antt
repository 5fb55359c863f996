-- ===== src/Config/BuildOrder/Cycles.antt =====
-- Every error of the walk names a fault of the resolvers, and a cycle is reported only where there
-- is one.
use sni_gate.Prelude.{
  ℕ, suc, ◌*◌, ◌≡◌, refl, subst, inl, inr, true, false, List, [], ◌∷◌, ◌++◌, Option, none, some,
  arith, Bool-cases, Option-cases, All, All_map, All_both, All-In, Any, In, here, there,
  In-append_left, In-append_right, In-append_cases, length, ok, err, Result-cases, err_from,
}
use sni_gate.Text.{Text, codes, text_eq, strip_prefix, sort}
use sni_gate.Text.Parts.{text_eq→eq, text_eq_refl}
use sni_gate.Text.Sorting.{sort-All}
use sni_gate.Router.Table.{HashMap, get, insert, keys}
use sni_gate.Router.Entries.{get-insert, get-keys}
use sni_gate.Config.Tables.{ResolverDef}
use sni_gate.Config.Resolvers.{resolver_def, references, is_resolver_ref}
use sni_gate.Config.BuildOrder.Edges.{Any-edges}
use sni_gate.Config.BuildOrder.Steps.{target, found_def, open_resolver-ok}
use sni_gate.Config.BuildOrder.Rounds.{Left, walk_keeps}
use sni_gate.Config.BuildOrder.{
  Mark, opened, done, Step, enter, exit, OrderError, cycle, undeclared, invalid_reference,
  unknown_reference, Walk, edges, get_key, key_of, push_edges, as_order_error, open_resolver,
  enter_by_mark, take_step, walk, is_done, walk_roots, resolver_build_order,
}
use sni_gate.Config.BuildOrder.Paths.{
  exits, Refers, IsChain, IsCycle, IsDeclared, Placed, Placed-entered, Targets-Any,
  Targets-IsDeclared,
}

module _ (resolvers : HashMap ResolverDef) where
  record Inv (w : Walk) : Type 0 where
    open_below : (k : Text) → get w.marks k ≡ some opened → In k (exits w.stack)
    placed : Placed resolvers w.stack

  -- A reference of a declared resolver that is none, or that names no declared resolver.
  abbrev pub IsUnresolved : Text → Text → Type 0
  IsUnresolved n e =
      (def : ResolverDef) × (get resolvers n ≡ some def)
      × Any (λ m. (is_resolver_ref m ≡ true) × (m ≡ e)) (references def)
      × (target resolvers e ≡ none)

  -- What an error says of the resolvers.
  abbrev pub IsFault : OrderError → Type 0
  IsFault (cycle path) = IsCycle resolvers path
  IsFault (undeclared e) = ⊥
  IsFault (invalid_reference n e) = IsUnresolved n e
  IsFault (unknown_reference n e) = IsUnresolved n e

  only : {k n : Text} → In k (n ∷ []) → n ≡ k
  only (here e) = e
  only (there m) = elim m [ ]

  exit-Inv :
      (n : Text) (order : List Text) (rest : List Step) (w : Walk)
      → Inv (record w { stack = exit n ∷ rest })
      → Inv (record w { marks = insert w.marks n done; order = order; stack = rest })
  exit-Inv n order rest w inv = record {
    open_below = λ k h. elim (Bool-cases (text_eq n k)) [
      | inl hit ↦ let bad = rw (get-insert w.marks n done k, hit) at h in cc
      | inr miss ↦
          let h' : get w.marks k ≡ some opened = rw (get-insert w.marks n done k, miss) at h in
          elim (In-append_cases k (exits rest) (n ∷ []) (inv.open_below k h')) [
            | inl m ↦ m
            | inr m ↦ let bad : true ≡ false = rw (← text_eq_refl k) (rw (only m) at miss) in cc
          ]
    ];
    placed = inv.placed;
  }

  open-Inv :
      (n : Text) (path : List Text) (rest : List Step) (w : Walk) {w' : Walk}
      → Inv (record w { stack = enter n path ∷ rest })
      → open_resolver resolvers n path (record w { stack = rest }) ≡ ok w'
      → Inv w'
  open-Inv n path rest w {w'} inv h =
      let (def, ks, found, targets, e) =
        open_resolver-ok resolvers n path (record w { stack = rest }) h in
      let refers =
        All_both (Refers resolvers n) (IsDeclared resolvers) ks
          (All_map (λ k m. (def, found, Any-edges _ def m)) ks
            (Targets-Any resolvers (edges def) ks targets))
          (Targets-IsDeclared resolvers (edges def) ks targets) in
      let (at, chain, _, below) = inv.placed in
      let (placed, same) =
        Placed-entered resolvers (exits rest) n ks (exit n ∷ rest)
          (subst (IsChain resolvers) at chain) refl refers below in
      rw e (record {
        open_below = λ k h'. rw at (
            rw same (elim (Bool-cases (text_eq n k)) [
              | inl hit ↦
                  rw (text_eq→eq n k hit) (In-append_right k (exits rest) (k ∷ []) (here refl))
              | inr miss ↦
                  In-append_left k (exits rest) (n ∷ [])
                    (inv.open_below k (rw (get-insert w.marks n opened k, miss) at h'))
            ]));
        placed = rw at placed;
      })

  module _ (name : Text) (def : ResolverDef) (found : get resolvers name ≡ some def) where
    key_of-IsFault :
        (e : Text) (o : Option Text) {fault : OrderError}
        → strip_prefix (codes "@") e ≡ o
        → In e (edges def)
        → key_of resolvers name e o ≡ err fault
        → IsFault fault
    unfolding key_of target
    key_of-IsFault e none {fault} stripped m h =
        let same : invalid_reference name e ≡ fault = cc in
        subst IsFault same (def, found, Any-edges _ def m, rw stripped refl)
    key_of-IsFault e (some bare) {fault} stripped m h =
        elim (Option-cases (get_key resolvers bare)) [
          | inl missing ↦
              let h' = rw (key_of, missing) at h in
              let same : unknown_reference name e ≡ fault = cc in
              subst IsFault same (def, found, Any-edges _ def m, rw (stripped, missing) refl)
          | inr (key, known) ↦ let bad = rw (key_of, known) at h in cc
        ]

    push_edges-IsFault :
        (path es : List Text) (stack : List Step) {fault : OrderError}
        → All (λ e. In e (edges def)) es
        → push_edges resolvers name path es stack ≡ err fault
        → IsFault fault
    unfolding push_edges
    push_edges-IsFault path [] stack ms h = cc
    push_edges-IsFault path (e ∷ es) stack ms h =
        elim (err_from (key_of resolvers name e (strip_prefix (codes "@") e)) _ h) [
          | inl failed ↦ key_of-IsFault e (strip_prefix (codes "@") e) refl ms.0 failed
          | inr (key, _, later) ↦
              push_edges-IsFault path es (enter key (path ++ key ∷ []) ∷ stack) ms.1 later
        ]

  declared-ok :
      (name : Text) {fault : OrderError}
      → IsDeclared resolvers name
      → ¬ (as_order_error resolvers (resolver_def resolvers name) ≡ err fault)
  unfolding resolver_def
  declared-ok name declared failed = elim (Option-cases (get resolvers name)) [
    | inl missing ↦ let bad : false ≡ true = rw missing at declared in cc
    | inr (def, found) ↦ ground arith
  ]

  open_resolver-IsFault :
      (name : Text) (path : List Text) (w : Walk) {fault : OrderError}
      → IsDeclared resolvers name
      → open_resolver resolvers name path w ≡ err fault
      → IsFault fault
  unfolding open_resolver
  open_resolver-IsFault name path w declared h =
      elim (err_from (as_order_error resolvers (resolver_def resolvers name)) _ h) [
        | inl failed ↦ absurd (declared-ok name declared failed)
        | inr (def, known, later) ↦
            elim (err_from (push_edges resolvers name path (edges def) (exit name ∷ w.stack)) _
              later) [
                | inl failed ↦
                    push_edges-IsFault name def (found_def resolvers name known) path (edges def)
                      (exit name ∷ w.stack) (All-In (edges def)) failed
                | inr (stack, _, bad) ↦ cc
              ]
      ]

  take_step-Inv :
      (step : Step) (rest : List Step) (w : Walk)
      → Inv (record w { stack = step ∷ rest })
      → Left Inv IsFault (take_step resolvers step (record w { stack = rest }))
  unfolding take_step
  take_step-Inv (exit n) rest w inv = exit-Inv n (w.order ++ n ∷ []) rest w inv
  take_step-Inv (enter n path) rest w inv = by_mark (get w.marks n) refl
    where
      by_mark :
          (o : Option Mark)
          → get w.marks n ≡ o
          → Left Inv IsFault (enter_by_mark resolvers o n path (record w { stack = rest }))
      by_mark none e =
          elim (Result-cases (open_resolver resolvers n path (record w { stack = rest }))) [
            | inl (fault, failed) ↦
                rw failed
                  (open_resolver-IsFault n path (record w { stack = rest }) inv.placed.2 failed)
            | inr (w', went) ↦ rw went (open-Inv n path rest w inv went)
          ]
      by_mark (some opened) e = (exits rest, n, inv.placed.0, inv.open_below n e, inv.placed.1)
      by_mark (some done) e = record { open_below = inv.open_below; placed = inv.placed.3 }

  walk_roots-IsFault :
      (fuel : ℕ) (names : List Text) (w : Walk) {fault : OrderError}
      → All (IsDeclared resolvers) names
      → Inv (record w { stack = [] })
      → walk_roots resolvers fuel w names ≡ some (err fault)
      → IsFault fault
  unfolding walk_roots
  walk_roots-IsFault fuel [] w declared inv h = cc
  walk_roots-IsFault fuel (root ∷ names) w {fault} declared inv h =
      elim (Bool-cases (is_done resolvers (get w.marks root))) [
        | inl visited ↦
            walk_roots-IsFault fuel names w declared.1 inv (rw (walk_roots, visited) at h)
        | inr fresh ↦
            let w0 : Walk = record w { stack = enter root (root ∷ []) ∷ [] } in
            let started : Inv w0 = record {
              open_below = inv.open_below;
              placed = (refl, tt, declared.0, tt);
            } in
            let h1 = rw (walk_roots, fresh) at h in
            elim (Option-cases (walk resolvers fuel w0)) [
              | inl out ↦ let bad = rw out at h1 in cc
              | inr (r, went) ↦
                  let kept = walk_keeps resolvers Inv IsFault take_step-Inv fuel w0 started went in
                  elim (Result-cases r) [
                    | inl (fault', e) ↦
                        let h2 = rw (went, e) at h1 in
                        let same : fault' ≡ fault = cc in
                        subst IsFault same
                          (subst (Left (λ v. Inv (record v { stack = [] })) IsFault) e kept)
                    | inr (w', e) ↦
                        walk_roots-IsFault fuel names w' declared.1
                          (subst (Left (λ v. Inv (record v { stack = [] })) IsFault) e kept)
                          (rw (went, e) at h1)
                  ]
            ]
      ]

  -- An error is what it says: the path of a cycle is a chain of references between declared
  -- resolvers that ends at a resolver that it has passed before, and any other error names a
  -- reference of a declared resolver that leads to no declared resolver.
  pub resolver_build_order-IsFault :
      (fault : OrderError) → resolver_build_order resolvers ≡ some (err fault) → IsFault fault
  unfolding resolver_build_order
  resolver_build_order-IsFault fault h =
      walk_roots-IsFault (suc (3 * length resolvers)) (sort (keys resolvers)) _
        (sort-All (IsDeclared resolvers) (keys resolvers) (get-keys resolvers))
        (record { open_below = λ k e. absurd (no_marks k e); placed = tt }) h
    where
      no_marks : (k : Text) → ¬ (get [] k ≡ some opened)
      no_marks k e = cc
