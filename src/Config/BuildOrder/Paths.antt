-- ===== src/Config/BuildOrder/Paths.antt =====
-- The chains of references that lead to the entries of the stack.
use sni_gate.Prelude.{
  ◌≡◌, refl, inl, inr, true, List, [], ◌∷◌, ◌++◌, some, arith, Bool-cases, Option-cases, is_some,
  All, All_map, Any, In, here, there,
}
use sni_gate.Text.{Text, codes, text_eq, strip_prefix}
use sni_gate.Text.Parts.{text_eq_refl}
use sni_gate.Router.Table.{HashMap, get}
use sni_gate.Config.Tables.{ResolverDef}
use sni_gate.Config.Resolvers.{references, is_resolver_ref}
use sni_gate.Config.BuildOrder.Steps.{target, Targets, entered}
use sni_gate.Config.BuildOrder.{Step, enter, exit, get_key}

-- The resolvers that are open on a stack, the outermost first.
abbrev pub exits : List Step → List Text
exits [] = []
exits (enter k path ∷ stack) = exits stack
exits (exit n ∷ stack) = exits stack ++ n ∷ []

get_key-get :
    (m : HashMap ResolverDef) (bare : Text) {k : Text}
    → get_key m bare ≡ some k
    → is_some (get m k) ≡ true
unfolding get_key get
get_key-get [] bare h = cc
get_key-get ((j, v) ∷ m) bare {k} h = elim (Bool-cases (text_eq j bare)) [
  | inl hit ↦ let e : j ≡ k = let h' = rw hit at h in cc in rw e (rw (text_eq_refl k) refl)
  | inr miss ↦ let ih = get_key-get m bare {k = k} (rw miss at h) in ground (arith, ih)
]

module _ (resolvers : HashMap ResolverDef) where
  -- A declared resolver refers to another.
  abbrev pub Refers : Text → Text → Type 0
  Refers n d =
      (def : ResolverDef) × (get resolvers n ≡ some def)
      × Any (λ e. (is_resolver_ref e ≡ true) × (target resolvers e ≡ some d)) (references def)

  -- Each resolver of the path refers to the next.
  abbrev pub IsChain : List Text → Type 0
  IsChain [] = Unit
  IsChain (n ∷ []) = Unit
  IsChain (n ∷ d ∷ path) = Refers n d × IsChain (d ∷ path)

  -- A chain that ends at a resolver that it has passed before.
  abbrev pub IsCycle : List Text → Type 0
  IsCycle path =
      (before : List Text) × (n : Text) × (path ≡ before ++ n ∷ []) × In n before × IsChain path

  abbrev pub IsDeclared : Text → Type 0
  IsDeclared k = is_some (get resolvers k) ≡ true

  -- The path of an entry is the chain of the open resolvers below it.
  abbrev pub Placed : List Step → Type 0
  Placed [] = Unit
  Placed (enter k path ∷ stack) =
      (path ≡ exits stack ++ k ∷ []) × IsChain path × IsDeclared k × Placed stack
  Placed (exit n ∷ stack) = Placed stack

  IsChain-snoc :
      (xs : List Text) (n d : Text)
      → IsChain (xs ++ n ∷ [])
      → Refers n d
      → IsChain ((xs ++ n ∷ []) ++ d ∷ [])
  IsChain-snoc [] n d h refers = (refers, tt)
  IsChain-snoc (x ∷ []) n d h refers = (h.0, (refers, tt))
  IsChain-snoc (x ∷ y ∷ xs) n d h refers = (h.0, IsChain-snoc (y ∷ xs) n d h.1 refers)

  pub Placed-entered :
      (before : List Text) (n : Text) (ks : List Text) (stack : List Step)
      → IsChain (before ++ n ∷ [])
      → exits stack ≡ before ++ n ∷ []
      → All (λ k. Refers n k × IsDeclared k) ks
      → Placed stack
      → Placed (entered resolvers (before ++ n ∷ []) ks stack)
        × (exits (entered resolvers (before ++ n ∷ []) ks stack) ≡ before ++ n ∷ [])
  Placed-entered before n [] stack chain e refers h = (h, e)
  Placed-entered before n (k ∷ ks) stack chain e refers h =
      Placed-entered before n ks (enter k ((before ++ n ∷ []) ++ k ∷ []) ∷ stack) chain e refers.1
        (rw e refl, IsChain-snoc before n k chain refers.0.0, refers.0.1, h)

  pub Targets-Any :
      (es ks : List Text)
      → Targets resolvers es ks
      → All (λ k. Any (λ e. target resolvers e ≡ some k) es) ks
  Targets-Any [] [] h = tt
  Targets-Any [] (k ∷ ks) h = elim h [ ]
  Targets-Any (e ∷ es) [] h = tt
  Targets-Any (e ∷ es) (k ∷ ks) h = (here h.0, All_map (λ k' m. there m) ks (Targets-Any es ks h.1))

  target-IsDeclared : (e : Text) {k : Text} → target resolvers e ≡ some k → IsDeclared k
  unfolding target
  target-IsDeclared e h = elim (Option-cases (strip_prefix (codes "@") e)) [
    | inl plain ↦ let bad = rw plain at h in cc
    | inr (bare, stripped) ↦ get_key-get resolvers bare (rw stripped at h)
  ]

  pub Targets-IsDeclared : (es ks : List Text) → Targets resolvers es ks → All IsDeclared ks
  Targets-IsDeclared [] [] h = tt
  Targets-IsDeclared [] (k ∷ ks) h = elim h [ ]
  Targets-IsDeclared (e ∷ es) [] h = tt
  Targets-IsDeclared (e ∷ es) (k ∷ ks) h = (target-IsDeclared e h.0, Targets-IsDeclared es ks h.1)
