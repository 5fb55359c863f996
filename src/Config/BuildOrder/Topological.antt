-- ===== src/Config/BuildOrder/Topological.antt =====
-- In the build order each resolver stands behind those that it refers to.
use sni_gate.Prelude.{
  ℕ, suc, ◌*◌, ◌≡◌, refl, subst, inl, inr, true, List, [], ◌∷◌, ◌++◌, Option, none, some,
  Bool-cases, Option-cases, All, All_map, In, here, there, In-append_left, In-append_right, length,
  ok, Result-cases,
}
use sni_gate.Text.{Text, text_eq, sort}
use sni_gate.Text.Parts.{text_eq→eq}
use sni_gate.Text.Sorting.{All-sort}
use sni_gate.Router.Table.{HashMap, get, insert, keys}
use sni_gate.Router.Entries.{get-insert}
use sni_gate.Config.Tables.{ResolverDef}
use sni_gate.Config.BuildOrder.Edges.{All-edges}
use sni_gate.Config.BuildOrder.Steps.{open_resolver-ok}
use sni_gate.Config.BuildOrder.Rounds.{Left, walk_keeps}
use sni_gate.Config.BuildOrder.{
  Mark, opened, done, Step, enter, exit, Walk, edges, open_resolver, enter_by_mark, take_step, walk,
  is_done, walk_roots, resolver_build_order,
}
use sni_gate.Config.BuildOrder.Ordering.{
  Covers, IsOrdered, Meets, Meets-mono, Meets-entered, IsOrdered-snoc, Targets-In,
}

module _ (resolvers : HashMap ResolverDef) where
  record Inv (goals : List Text) (w : Walk) : Type 0 where
    marked : (k : Text) → get w.marks k ≡ some done → In k w.order
    ordered : IsOrdered resolvers [] w.order
    meets : Meets resolvers goals w.order w.stack

  known : (n : Text) (xs : List Text) → In n xs → Covers (n ∷ xs) xs
  known n xs h k (here e) = rw (← e) h
  known n xs h k (there m) = m

  exit-Inv :
      (goals : List Text) (n : Text) (rest : List Step) (w : Walk)
      → Inv goals (record w { stack = exit n ∷ rest })
      → Inv goals
          (record w { marks = insert w.marks n done; order = w.order ++ n ∷ []; stack = rest })
  exit-Inv goals n rest w inv = record {
    marked = λ k h. elim (Bool-cases (text_eq n k)) [
      | inl hit ↦ rw (text_eq→eq n k hit) (In-append_right k w.order (k ∷ []) (here refl))
      | inr miss ↦
          let h' : get w.marks k ≡ some done = rw (get-insert w.marks n done k, miss) at h in
          In-append_left k w.order (n ∷ []) (inv.marked k h')
    ];
    ordered = IsOrdered-snoc resolvers [] w.order n inv.ordered inv.meets.0;
    meets = Meets-mono resolvers goals (n ∷ w.order) (w.order ++ n ∷ []) rest moved inv.meets.1;
  }
    where
      moved : Covers (n ∷ w.order) (w.order ++ n ∷ [])
      moved k (here e) = In-append_right k w.order (n ∷ []) (here e)
      moved k (there h) = In-append_left k w.order (n ∷ []) h

  open-Inv :
      (goals : List Text) (n : Text) (path : List Text) (rest : List Step) (w : Walk) {w' : Walk}
      → Inv goals (record w { stack = enter n path ∷ rest })
      → open_resolver resolvers n path (record w { stack = rest }) ≡ ok w'
      → Inv goals w'
  open-Inv goals n path rest w {w'} inv h =
      let (def, ks, found, targets, e) =
        open_resolver-ok resolvers n path (record w { stack = rest }) h in
      let ready = All-edges _ def (Targets-In resolvers (edges def) ks w.order targets) in
      rw e (record {
        marked = λ k h. elim (Bool-cases (text_eq n k)) [
          | inl hit ↦ let bad = rw (get-insert w.marks n opened k, hit) at h in cc
          | inr miss ↦ inv.marked k (rw (get-insert w.marks n opened k, miss) at h)
        ];
        ordered = inv.ordered;
        meets = Meets-entered resolvers goals w.order path ks (exit n ∷ rest) (
          (def, found, ready),
          Meets-mono resolvers goals (n ∷ w.order) (n ∷ ks ++ w.order) rest (grown ks) inv.meets,
        );
      })
    where
      grown : (ks : List Text) → Covers (n ∷ w.order) (n ∷ ks ++ w.order)
      grown ks k (here e) = here e
      grown ks k (there h) = there (In-append_right k ks w.order h)

  take_step-Inv :
      (goals : List Text) (step : Step) (rest : List Step) (w : Walk)
      → Inv goals (record w { stack = step ∷ rest })
      → Left (Inv goals) (λ e. Unit) (take_step resolvers step (record w { stack = rest }))
  unfolding take_step
  take_step-Inv goals (exit n) rest w inv = exit-Inv goals n rest w inv
  take_step-Inv goals (enter n path) rest w inv = by_mark (get w.marks n) refl
    where
      by_mark :
          (o : Option Mark)
          → get w.marks n ≡ o
          → Left
              (Inv goals)
              (λ e. Unit)
              (enter_by_mark resolvers o n path (record w { stack = rest }))
      by_mark none e =
          elim (Result-cases (open_resolver resolvers n path (record w { stack = rest }))) [
            | inl (fault, failed) ↦ rw failed tt
            | inr (w', went) ↦ rw went (open-Inv goals n path rest w inv went)
          ]
      by_mark (some opened) e = tt
      by_mark (some done) e = record {
        marked = inv.marked;
        ordered = inv.ordered;
        meets =
            Meets-mono resolvers goals (n ∷ w.order) w.order rest (known n w.order (inv.marked n e))
              inv.meets;
      }

  abbrev Outcome : List Text → List Text → List Text → Type 0
  Outcome goals names order =
      IsOrdered resolvers [] order × All (λ k. In k order) goals × All (λ k. In k order) names

  walk_roots-ordered :
      (fuel : ℕ) (names goals : List Text) (w : Walk) {order : List Text}
      → Inv goals (record w { stack = [] })
      → walk_roots resolvers fuel w names ≡ some (ok order)
      → Outcome goals names order
  unfolding walk_roots
  walk_roots-ordered fuel [] goals w {order} inv h =
      let e : w.order ≡ order = cc in subst (Outcome goals []) e (inv.ordered, inv.meets, tt)
  walk_roots-ordered fuel (root ∷ names) goals w {order} inv h =
      elim (Bool-cases (is_done resolvers (get w.marks root))) [
        | inl visited ↦
            let m = inv.marked root (when_done (get w.marks root) visited) in
            turn (
              walk_roots-ordered fuel names (root ∷ goals) w
                (record { marked = inv.marked; ordered = inv.ordered; meets = (m, inv.meets) })
                (rw (walk_roots, visited) at h))
        | inr fresh ↦
            let w0 : Walk = record w { stack = enter root (root ∷ []) ∷ [] } in
            let started : Inv (root ∷ goals) w0 = record {
              marked = inv.marked;
              ordered = inv.ordered;
              meets = (here refl, All_map (λ k m. there m) goals inv.meets);
            } in
            let h1 = rw (walk_roots, fresh) at h in
            elim (Option-cases (walk resolvers fuel w0)) [
              | inl out ↦ let bad = rw out at h1 in cc
              | inr (r, went) ↦
                  let kept =
                    walk_keeps resolvers (Inv (root ∷ goals)) (λ e. Unit)
                      (take_step-Inv (root ∷ goals)) fuel w0 started went in
                  elim (Result-cases r) [
                    | inl (fault, e) ↦ let bad = rw (went, e) at h1 in cc
                    | inr (w', e) ↦ turn (
                        walk_roots-ordered fuel names (root ∷ goals) w'
                          (subst
                            (Left (λ v. Inv (root ∷ goals) (record v { stack = [] })) (λ e. Unit)) e
                            kept)
                          (rw (went, e) at h1))
                  ]
            ]
      ]
    where
      turn : Outcome (root ∷ goals) names order → Outcome goals (root ∷ names) order
      turn (ordered, met, listed) = (ordered, met.1, (met.0, listed))

      when_done : (o : Option Mark) → is_done resolvers o ≡ true → o ≡ some done
      when_done none h = cc
      when_done (some opened) h = cc
      when_done (some done) h = refl

  -- A build order lists every declared resolver, and each resolver of it is declared and stands
  -- behind those that it refers to.
  pub resolver_build_order-IsOrdered :
      (order : List Text)
      → resolver_build_order resolvers ≡ some (ok order)
      → IsOrdered resolvers [] order × All (λ k. In k order) (keys resolvers)
  unfolding resolver_build_order
  resolver_build_order-IsOrdered order h =
      let w0 : Walk = record { marks = []; order = []; stack = [] } in
      let start : Inv [] w0 = record {
        marked = λ k e. absurd (no_marks k e);
        ordered = tt;
        meets = tt;
      } in
      let (ordered, _, listed) =
        walk_roots-ordered (suc (3 * length resolvers)) (sort (keys resolvers)) [] w0 start h in
      (ordered, All-sort (λ k. In k order) (keys resolvers) listed)
    where
      no_marks : (k : Text) → ¬ (get [] k ≡ some done)
      no_marks k e = cc
