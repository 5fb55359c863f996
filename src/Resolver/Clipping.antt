-- ===== src/Resolver/Clipping.antt =====
-- src/resolver.rs, `DynamicResolver::clip`: what becomes of each observed name.
use sni_gate.Prelude.{
  ℕ, ◌≡◌, refl, sym, ap, ◌∙◌, ◌≢◌, ◌⊎◌, inl, inr, true, List, [], ◌∷◌, ◌++◌, Option, none, some,
  Any, here, there, All, All-append, Bool-cases, Option-cases,
}
use sni_gate.Text.{Text, text_eq}
use sni_gate.Text.Parts.{text_eq→eq}
use sni_gate.Suffix.{PublicSuffix}
use sni_gate.Router.Build.{RegexEngine}
use sni_gate.Resolver.Clip.{
  Listener, Drop, MirrorPlan, normalize_host, verdict, holds, push, clip_name, clip_loop,
}

holds-Any : (name : Text) (kept : List Text) → holds name kept ≡ true → Any (λ k. k ≡ name) kept
holds-Any name [] h = cc
holds-Any name (k ∷ kept) h = elim (Bool-cases (text_eq k name)) [
  | inl same ↦ here (text_eq→eq k name same)
  | inr other ↦ there (holds-Any name kept (rw other at h))
]

pub Any-append_left {ℓ κ} :
    {A : Type ℓ} (P : A → Type κ) (xs ys : List A) → Any P xs → Any P (xs ++ ys)
Any-append_left P [] ys a = elim a [ ]
Any-append_left P (x ∷ xs) ys (here p) = here p
Any-append_left P (x ∷ xs) ys (there a) = there (Any-append_left P xs ys a)

pub Any-append_right {ℓ κ} :
    {A : Type ℓ} (P : A → Type κ) (xs ys : List A) → Any P ys → Any P (xs ++ ys)
Any-append_right P [] ys a = a
Any-append_right P (x ∷ xs) ys a = there (Any-append_right P xs ys a)

pub All-Any {ℓ κ} :
    {A : Type ℓ} (P Q : A → Type κ) (xs : List A) → All P xs → Any Q xs → (x : A) × P x × Q x
All-Any P Q [] h a = elim a [ ]
All-Any P Q (x ∷ xs) h (here q) = (x, h.0, q)
All-Any P Q (x ∷ xs) h (there a) = All-Any P Q xs h.1 a

module _ (psl : PublicSuffix) (engine : RegexEngine) (self : Listener) (owner : ℕ) where
  abbrev pub judged : Text → Option Drop
  judged = verdict psl engine self owner

  abbrev step : MirrorPlan → Text → MirrorPlan
  step = clip_name psl engine self owner

  abbrev pub loop : MirrorPlan → List Text → MirrorPlan
  loop = clip_loop psl engine self owner

  -- What one name does to the plan.
  data Step (plan : MirrorPlan) (name : Text) (plan' : MirrorPlan) : Type 0 where
    skipped : name ≡ [] → plan' ≡ plan → Step plan name plan'
    held : Any (λ k. k ≡ name) plan.kept → plan' ≡ plan → Step plan name plan'
    pushed : judged name ≡ none → plan' ≡ push plan name none → Step plan name plan'
    refused :
        (why : Drop)
        → judged name ≡ some why
        → plan' ≡ push plan name (some why)
        → Step plan name plan'

  clip_name-Step : (plan : MirrorPlan) (name : Text) → Step plan name (step plan name)
  clip_name-Step plan [] = skipped refl refl
  clip_name-Step plan (c ∷ name) = elim (Bool-cases (holds (c ∷ name) plan.kept)) [
    | inl h ↦ held (holds-Any (c ∷ name) plan.kept h) (rw h)
    | inr n ↦ elim (Option-cases (judged (c ∷ name))) [
      | inl e ↦ pushed e (rw (n, e))
      | inr (why, e) ↦ refused why e (rw (n, e))
    ]
  ]

  Step-kept {ℓ} :
      (Q : Text → Type ℓ) {plan plan' : MirrorPlan} {name : Text}
      → Step plan name plan'
      → Any Q plan.kept
      → Any Q plan'.kept
  Step-kept Q (skipped e k) a = rw k a
  Step-kept Q (held h k) a = rw k a
  Step-kept Q {plan} {plan'} {name} (pushed e k) a =
      rw k (Any-append_left Q plan.kept (name ∷ []) a)
  Step-kept Q (refused why e k) a = rw k a

  Step-dropped {ℓ} :
      (Q : Text × Drop → Type ℓ) {plan plan' : MirrorPlan} {name : Text}
      → Step plan name plan'
      → Any Q plan.dropped
      → Any Q plan'.dropped
  Step-dropped Q (skipped e k) a = rw k a
  Step-dropped Q (held h k) a = rw k a
  Step-dropped Q (pushed e k) a = rw k a
  Step-dropped Q {plan} {plan'} {name} (refused why e k) a =
      rw k (Any-append_left Q plan.dropped ((name, why) ∷ []) a)

  pub loop-kept {ℓ} :
      (Q : Text → Type ℓ) (plan : MirrorPlan) (observed : List Text)
      → Any Q plan.kept
      → Any Q (loop plan observed).kept
  unfolding clip_loop
  loop-kept Q plan [] a = a
  loop-kept Q plan (san ∷ observed) a =
      loop-kept Q (step plan (normalize_host san)) observed
        (Step-kept Q (clip_name-Step plan (normalize_host san)) a)

  pub loop-dropped {ℓ} :
      (Q : Text × Drop → Type ℓ) (plan : MirrorPlan) (observed : List Text)
      → Any Q plan.dropped
      → Any Q (loop plan observed).dropped
  unfolding clip_loop
  loop-dropped Q plan [] a = a
  loop-dropped Q plan (san ∷ observed) a =
      loop-dropped Q (step plan (normalize_host san)) observed
        (Step-dropped Q (clip_name-Step plan (normalize_host san)) a)

  -- What holds of the kept names so far and of the names that pass holds of all that are kept.
  pub loop-All_kept {ℓ} :
      (P : Text → Type ℓ) (plan : MirrorPlan) (observed : List Text)
      → ((name : Text)
          → judged name ≡ none
          → Any (λ san. normalize_host san ≡ name) observed
          → P name)
      → All P plan.kept
      → All P (loop plan observed).kept
  unfolding clip_loop
  loop-All_kept P plan [] f h = h
  loop-All_kept P plan (san ∷ observed) f h =
      loop-All_kept P (step plan (normalize_host san)) observed (λ name e a. f name e (there a))
        (after (clip_name-Step plan (normalize_host san)))
    where
      after : {plan' : MirrorPlan} → Step plan (normalize_host san) plan' → All P plan'.kept
      after (skipped e k) = rw k h
      after (held a k) = rw k h
      after (pushed e k) = rw k (
          All-append P plan.kept (normalize_host san ∷ []) h
            (f (normalize_host san) e (here refl), tt))
      after (refused why e k) = rw k h

  pub loop-All_dropped {ℓ} :
      (P : Text × Drop → Type ℓ) (plan : MirrorPlan) (observed : List Text)
      → ((name : Text) (why : Drop) → judged name ≡ some why → P (name, why))
      → All P plan.dropped
      → All P (loop plan observed).dropped
  unfolding clip_loop
  loop-All_dropped P plan [] f h = h
  loop-All_dropped P plan (san ∷ observed) f h =
      loop-All_dropped P (step plan (normalize_host san)) observed f
        (after (clip_name-Step plan (normalize_host san)))
    where
      after : {plan' : MirrorPlan} → Step plan (normalize_host san) plan' → All P plan'.dropped
      after (skipped e k) = rw k h
      after (held a k) = rw k h
      after (pushed e k) = rw k h
      after (refused why e k) = rw k (
          All-append P plan.dropped ((normalize_host san, why) ∷ []) h
            (f (normalize_host san) why e, tt))

  -- Where a name ends up: kept if it passes, else dropped with its reason.
  abbrev pub Placed : MirrorPlan → Text → Type 0
  Placed plan name =
      ((judged name ≡ none) × Any (λ k. k ≡ name) plan.kept)
      ⊎ ((why : Drop) × (judged name ≡ some why) × Any (λ d. d ≡ (name, why)) plan.dropped)

  Step-Placed :
      (plan : MirrorPlan) (name : Text) {plan' : MirrorPlan}
      → All (λ k. judged k ≡ none) plan.kept
      → name ≢ []
      → Step plan name plan'
      → Placed plan' name
  Step-Placed plan name inv present (skipped e k) = absurd (present e)
  Step-Placed plan name inv present (held a k) =
      let (x, good, same) = All-Any (λ k. judged k ≡ none) (λ k. k ≡ name) plan.kept inv a in
      inl (ap judged (sym same) ∙ good, rw k a)
  Step-Placed plan name inv present (pushed e k) =
      inl (e, rw k (Any-append_right (λ t. t ≡ name) plan.kept (name ∷ []) (here refl)))
  Step-Placed plan name inv present (refused why e k) = inr (
    why,
    e,
    rw k (Any-append_right (λ d. d ≡ (name, why)) plan.dropped ((name, why) ∷ []) (here refl)),
  )

  pub loop-Placed :
      (plan : MirrorPlan) (observed : List Text)
      → All (λ k. judged k ≡ none) plan.kept
      → All
          (λ san. normalize_host san ≢ [] → Placed (loop plan observed) (normalize_host san))
          observed
  unfolding clip_loop
  loop-Placed plan [] inv = tt
  loop-Placed plan (san ∷ observed) inv = (
    (λ present. later (Step-Placed plan name inv present (clip_name-Step plan name))),
    loop-Placed (step plan name) observed
        (loop-All_kept (λ k. judged k ≡ none) plan (san ∷ []) (λ n e a. e) inv),
  )
    where
      name : Text
      name = normalize_host san

      later : Placed (step plan name) name → Placed (loop (step plan name) observed) name
      later (inl (e, a)) = inl (e, loop-kept _ (step plan name) observed a)
      later (inr (why, e, a)) = inr (why, e, loop-dropped _ (step plan name) observed a)
