-- ===== src/Config/BuildOrder/Acyclic.antt =====
-- Resolvers without a cycle have a build order.
use sni_gate.Prelude.{
  ℕ, ◌<◌, ◌≡◌, ◌≢◌, subst, ◌⊎◌, inl, inr, true, false, List, [], ◌∷◌, ◌++◌, none, some, arith, All,
  Any, In, here, there, ok, Result-cases,
}
use sni_gate.Text.{Text}
use sni_gate.Router.Entries.{get-All}
use sni_gate.Router.Table.{HashMap, get}
use sni_gate.Config.Tables.{ResolverDef}
use sni_gate.Config.Resolvers.{references, is_resolver_ref}
use sni_gate.Config.BuildOrder.Steps.{target}
use sni_gate.Config.BuildOrder.Paths.{Refers, IsChain}
use sni_gate.Config.BuildOrder.Cycles.{IsFault, resolver_build_order-IsFault}
use sni_gate.Config.BuildOrder.Termination.{resolver_build_order_ends}
use sni_gate.Config.BuildOrder.{
  OrderError, cycle, undeclared, invalid_reference, unknown_reference, resolver_build_order,
}

module _ (resolvers : HashMap ResolverDef) (rank : Text → ℕ) where
  -- Each reference of a resolver leads to a declared resolver of a lower rank.
  abbrev pub IsRanked : Text × ResolverDef → Type 0
  IsRanked (n, def) =
      All
        (λ e.
          (is_resolver_ref e ≡ false)
          ⊎ ((k : Text) × (target resolvers e ≡ some k) × (rank k < rank n)))
        (references def)

  module _ (all : All IsRanked resolvers) where
    Refers-lower : (n d : Text) → Refers resolvers n d → rank d < rank n
    Refers-lower n d (def, found, m) =
        meet (references def) (get-All IsRanked resolvers n all found) m
      where
        meet :
            (es : List Text)
            → All
                (λ e.
                  (is_resolver_ref e ≡ false)
                  ⊎ ((k : Text) × (target resolvers e ≡ some k) × (rank k < rank n)))
                es
            → Any (λ e. (is_resolver_ref e ≡ true) × (target resolvers e ≡ some d)) es
            → rank d < rank n
        meet [] h m = elim m [ ]
        meet (e ∷ es) h (there m) = meet es h.1 m
        meet (e ∷ es) h (here (ref, named)) = elim h.0 [
          | inl plain ↦ let bad : false ≡ true = rw plain at ref in cc
          | inr (k, named', lower) ↦
              let same : k ≡ d = let both = rw named' at named in cc in
              subst (λ x. rank x < rank n) same lower
        ]

    -- Along a chain the rank falls.
    chain_falls :
        (x : Text) (xs : List Text) (n : Text)
        → IsChain resolvers (x ∷ xs ++ n ∷ [])
        → rank n < rank x
    chain_falls x [] n h = Refers-lower x n h.0
    chain_falls x (y ∷ xs) n h = omega (arith, Refers-lower x y h.0, chain_falls y xs n h.1)

    no_return :
        (before : List Text) (n : Text) → In n before → ¬ (IsChain resolvers (before ++ n ∷ []))
    no_return [] n m h = elim m [ ]
    no_return (x ∷ xs) n (here e) h =
        let falls = chain_falls x xs n h in omega (arith, subst (λ y. rank n < rank y) e falls)
    no_return (x ∷ []) n (there m) h = elim m [ ]
    no_return (x ∷ y ∷ xs) n (there m) h = no_return (y ∷ xs) n m h.1

    not_unresolved :
        (n e : Text) (def : ResolverDef)
        → get resolvers n ≡ some def
        → Any (λ m. (is_resolver_ref m ≡ true) × (m ≡ e)) (references def)
        → target resolvers e ≢ none
    not_unresolved n e def found m lost =
        meet (references def) (get-All IsRanked resolvers n all found) m
      where
        meet :
            (es : List Text)
            → All
                (λ e.
                  (is_resolver_ref e ≡ false)
                  ⊎ ((k : Text) × (target resolvers e ≡ some k) × (rank k < rank n)))
                es
            → Any (λ m. (is_resolver_ref m ≡ true) × (m ≡ e)) es
            → ⊥
        meet [] h m = elim m [ ]
        meet (e' ∷ es) h (there m) = meet es h.1 m
        meet (e' ∷ es) h (here (ref, same)) = elim h.0 [
          | inl plain ↦ let bad : false ≡ true = rw plain at ref in cc
          | inr (k, named, lower) ↦ let bad = rw (same, lost) at named in cc
        ]

    no-IsFault : (fault : OrderError) → ¬ (IsFault resolvers fault)
    no-IsFault (cycle path) (before, n, spelled, m, chain) =
        no_return before n m (subst (IsChain resolvers) spelled chain)
    no-IsFault (undeclared e) h = h
    no-IsFault (invalid_reference n e) (def, found, m, lost) = not_unresolved n e def found m lost
    no-IsFault (unknown_reference n e) (def, found, m, lost) = not_unresolved n e def found m lost

    -- Resolvers whose references all lead to declared resolvers, without a cycle, get an order.
    pub resolver_build_order_found :
        (order : List Text) × (resolver_build_order resolvers ≡ some (ok order))
    resolver_build_order_found =
        let (r, ends) = resolver_build_order_ends resolvers in
        elim (Result-cases r) [
          | inl (fault, e) ↦
              absurd
                (no-IsFault fault (resolver_build_order-IsFault resolvers fault (rw e at ends)))
          | inr (order, e) ↦ (order, rw e at ends)
        ]
