-- ===== src/Config/BuildOrder/Ordering.antt =====
-- Lists of resolvers in which each stands behind those that it refers to, and what the stack of
-- the walk still adds to such a list.
use sni_gate.Prelude.{
  ◌≡◌, refl, ◌⊎◌, inl, inr, false, List, [], ◌∷◌, ◌++◌, some, All, All_map, In, here, there,
}
use mathlib.Core.List.{append-nil, append_assoc}
use sni_gate.Text.{Text}
use sni_gate.Router.Table.{HashMap, get}
use sni_gate.Config.Tables.{ResolverDef}
use sni_gate.Config.Resolvers.{references, is_resolver_ref}
use sni_gate.Config.BuildOrder.Steps.{target, Targets, entered}
use sni_gate.Config.BuildOrder.{Step, enter, exit}

abbrev pub Covers : List Text → List Text → Type 0
Covers xs ys = (k : Text) → In k xs → In k ys

module _ (resolvers : HashMap ResolverDef) where
  -- A declared resolver, each of whose references to a resolver names one of a list.
  abbrev pub IsReady : List Text → Text → Type 0
  IsReady have n =
      (def : ResolverDef) × (get resolvers n ≡ some def)
      × All
          (λ e.
            (is_resolver_ref e ≡ false) ⊎ ((k : Text) × (target resolvers e ≡ some k) × In k have))
          (references def)

  -- Each resolver of a list stands behind those that it refers to.
  abbrev pub IsOrdered : List Text → List Text → Type 0
  IsOrdered before [] = Unit
  IsOrdered before (n ∷ rest) = IsReady before n × IsOrdered (before ++ n ∷ []) rest

  -- The goals are met once the steps of the stack are done, from top to bottom.
  abbrev pub Meets : List Text → List Text → List Step → Type 0
  Meets goals have [] = All (λ k. In k have) goals
  Meets goals have (enter k path ∷ stack) = Meets goals (k ∷ have) stack
  Meets goals have (exit n ∷ stack) = IsReady have n × Meets goals (n ∷ have) stack

  IsReady-mono : (xs ys : List Text) (n : Text) → Covers xs ys → IsReady xs n → IsReady ys n
  IsReady-mono xs ys n sub (def, found, all) = (
    def,
    found,
    All_map (λ e h. elim h [ inl plain ↦ inl plain | inr (k, named, m) ↦ inr (k, named, sub k m) ])
        (references def) all,
  )

  Covers-cons : (k : Text) (xs ys : List Text) → Covers xs ys → Covers (k ∷ xs) (k ∷ ys)
  Covers-cons k xs ys sub j (here e) = here e
  Covers-cons k xs ys sub j (there h) = there (sub j h)

  pub Meets-mono :
      (goals xs ys : List Text) (stack : List Step)
      → Covers xs ys
      → Meets goals xs stack
      → Meets goals ys stack
  Meets-mono goals xs ys [] sub h = All_map sub goals h
  Meets-mono goals xs ys (enter k path ∷ stack) sub h =
      Meets-mono goals (k ∷ xs) (k ∷ ys) stack (Covers-cons k xs ys sub) h
  Meets-mono goals xs ys (exit n ∷ stack) sub h = (
    IsReady-mono xs ys n sub h.0,
    Meets-mono goals (n ∷ xs) (n ∷ ys) stack (Covers-cons n xs ys sub) h.1,
  )

  pub Meets-entered :
      (goals have path ks : List Text) (stack : List Step)
      → Meets goals (ks ++ have) stack
      → Meets goals have (entered resolvers path ks stack)
  Meets-entered goals have path [] stack h = h
  Meets-entered goals have path (k ∷ ks) stack h =
      Meets-entered goals have path ks (enter k (path ++ k ∷ []) ∷ stack) h

  pub IsOrdered-snoc :
      (before xs : List Text) (n : Text)
      → IsOrdered before xs
      → IsReady (before ++ xs) n
      → IsOrdered before (xs ++ n ∷ [])
  IsOrdered-snoc before [] n h ready = (rw (append-nil before) at ready, tt)
  IsOrdered-snoc before (x ∷ xs) n h ready =
      (h.0, IsOrdered-snoc (before ++ x ∷ []) xs n h.1 (rw (append_assoc before (x ∷ []) xs) ready))

  pub Targets-In :
      (es ks have : List Text)
      → Targets resolvers es ks
      → All (λ e. (k : Text) × (target resolvers e ≡ some k) × In k (ks ++ have)) es
  Targets-In [] ks have h = tt
  Targets-In (e ∷ es) [] have h = elim h [ ]
  Targets-In (e ∷ es) (k ∷ ks) have h = (
    (k, h.0, here refl),
    All_map (λ e' (k', named, m). (k', named, there m)) es (Targets-In es ks have h.1),
  )
