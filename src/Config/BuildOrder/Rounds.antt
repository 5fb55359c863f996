-- ===== src/Config/BuildOrder/Rounds.antt =====
-- What every step of the walk keeps, the whole walk keeps.
use sni_gate.Prelude.{
  ℕ, zero, suc, ◌≡◌, subst, inl, inr, List, [], ◌∷◌, some, Result, ok, err, Result-cases,
}
use sni_gate.Text.{Text}
use sni_gate.Router.Table.{HashMap}
use sni_gate.Config.Tables.{ResolverDef}
use sni_gate.Config.BuildOrder.{Mark, Step, OrderError, Walk, take_step, walk}

-- `P` between two steps, and `E` for the errors.
abbrev pub Left {ℓ} : (Walk → Type ℓ) → (OrderError → Type ℓ) → Result Walk OrderError → Type ℓ
Left P E (ok w) = P w
Left P E (err e) = E e

module _ {ℓ} (resolvers : HashMap ResolverDef) (P : Walk → Type ℓ) (E : OrderError → Type ℓ)
    (keep : (step : Step) (rest : List Step) (w : Walk)
      → P (record w { stack = step ∷ rest })
      → Left P E (take_step resolvers step (record w { stack = rest }))) where
  abbrev AtEnd : Result Walk OrderError → Type ℓ
  AtEnd = Left (λ w. P (record w { stack = [] })) E

  at_end :
      (marks : HashMap Mark) (order : List Text) {r : Result Walk OrderError}
      → P (record { marks = marks; order = order; stack = [] })
      → some (ok (record { marks = marks; order = order; stack = [] })) ≡ some r
      → AtEnd r
  at_end marks order {r} p h =
      let e : ok (record { marks = marks; order = order; stack = [] }) ≡ r = cc in subst AtEnd e p

  walk_from_keeps :
      (fuel : ℕ) (marks : HashMap Mark) (order : List Text) (stack : List Step)
      → {r : Result Walk OrderError} → P (record { marks = marks; order = order; stack = stack })
      → walk resolvers fuel (record { marks = marks; order = order; stack = stack }) ≡ some r
      → AtEnd r
  unfolding walk
  walk_from_keeps zero marks order [] p h = at_end marks order p h
  walk_from_keeps zero marks order (step ∷ rest) p h = cc
  walk_from_keeps (suc fuel) marks order [] p h = at_end marks order p h
  walk_from_keeps (suc fuel) marks order (step ∷ rest) {r} p h =
      let w0 : Walk = record { marks = marks; order = order; stack = rest } in
      let kept = keep step rest w0 p in
      elim (Result-cases (take_step resolvers step w0)) [
        | inl (fault, failed) ↦
            let e : err fault ≡ r = let h' = rw (walk, failed) at h in cc in
            subst AtEnd e (subst (Left P E) failed kept)
        | inr (w', went) ↦
            walk_from_keeps fuel w'.marks w'.order w'.stack (subst (Left P E) went kept)
              (rw (walk, went) at h)
      ]

  pub walk_keeps :
      (fuel : ℕ) (w : Walk) {r : Result Walk OrderError}
      → P w
      → walk resolvers fuel w ≡ some r
      → AtEnd r
  walk_keeps fuel w p h = walk_from_keeps fuel w.marks w.order w.stack p h
