-- ===== src/Proxy/Alpn.antt =====
-- src/proxy.rs: `negotiable_alpn` and `mirror_choice`.
use sni_gate.Prelude.{
  ◌≡◌, refl, sym, ap, subst, ◌↔◌, inl, inr, Bool, true, List, [], ◌∷◌, Option, none, some,
  if◌then◌else◌, any, Any, here, there, Bool-cases,
}
use sni_gate.Text.{Text, codes, text_eq}
use sni_gate.Text.Parts.{text_eq_refl, text_eq→eq}

abbrev pub supported_alpn : List Text
supported_alpn = codes "h2" ∷ codes "http/1.1" ∷ []

abbrev pub keep_offered : List Text → List Text → List Text
keep_offered offered [] = []
keep_offered offered (ours ∷ rest) =
    let kept = keep_offered offered rest in
    if any (λ theirs. text_eq theirs ours) offered then ours ∷ kept else kept

unfoldable pub negotiable_alpn : Option (List Text) → List Text
negotiable_alpn none = []
negotiable_alpn (some offered) = keep_offered offered supported_alpn

-- The server configuration by the protocol that it advertises.
pub data ServerConfig : Type 0 where
  h2 h1 none_advertised : ServerConfig

abbrev pub advertised : ServerConfig → Option Text
advertised h2 = some (codes "h2")
advertised h1 = some (codes "http/1.1")
advertised none_advertised = none

abbrev pub unnamed : Bool → ServerConfig
unnamed client_offered_any = if client_offered_any then h1 else none_advertised

unfoldable pub mirror_choice : Option Text → Bool → ServerConfig
mirror_choice none client_offered_any = unnamed client_offered_any
mirror_choice (some selected) client_offered_any =
    if text_eq selected (codes "h2")
    then h2
    else if text_eq selected (codes "http/1.1")
    then h1
    else unnamed client_offered_any

abbrev pub Among : Text → List Text → Type 0
Among p list = Any (λ q. q ≡ p) list

any-Among : (p : Text) (list : List Text) → (any (λ q. text_eq q p) list ≡ true) ↔ Among p list
any-Among p [] = ((λ h. cc), λ a. elim a [ ])
any-Among p (q ∷ list) = elim (Bool-cases (text_eq q p)) [
  | inl hit ↦ ((λ _. here (text_eq→eq q p hit)), λ _. rw hit refl)
  | inr miss ↦ (
    (λ h. there ((any-Among p list).0 (rw miss at h))),
    λ a. elim a [
      | here e ↦ absurd (cc (text_eq_refl p, ap (λ x. text_eq x p) e, miss))
      | there b ↦ rw miss ((any-Among p list).1 b)
    ],
  )
]

keep_offered_iff :
    (offered ours : List Text) (p : Text)
    → Among p (keep_offered offered ours) ↔ (Among p ours × Among p offered)
keep_offered_iff offered [] p = ((λ a. elim a [ ]), λ (a, b). elim a [ ])
keep_offered_iff offered (q ∷ ours) p = elim (Bool-cases (any (λ t. text_eq t q) offered)) [
  | inl hit ↦ (
    (λ a. elim (rw hit at a) [
      | here e ↦ (here e, subst (λ x. Among x offered) e ((any-Among q offered).0 hit))
      | there b ↦ let (mine, theirs) = (keep_offered_iff offered ours p).0 b in (there mine, theirs)
    ]),
    λ (a, b). rw hit (elim a [
      | here e ↦ here e
      | there mine ↦ there ((keep_offered_iff offered ours p).1 (mine, b))
    ]),
  )
  | inr miss ↦ (
    (λ a.
        let (mine, theirs) = (keep_offered_iff offered ours p).0 (rw miss at a) in
        (there mine, theirs)),
    λ (a, b). rw miss (elim a [
      | here e ↦
          absurd (cc ((any-Among q offered).1 (subst (λ x. Among x offered) (sym e) b), miss))
      | there mine ↦ (keep_offered_iff offered ours p).1 (mine, b)
    ]),
  )
]

answered : (p : Text) → Among p supported_alpn → advertised (mirror_choice (some p) true) ≡ some p
unfolding mirror_choice
answered p (here e) = subst (λ x. advertised (mirror_choice (some x) true) ≡ some x) e refl
answered p (there (here e)) = subst (λ x. advertised (mirror_choice (some x) true) ≡ some x) e refl
answered p (there (there a)) = elim a [ ]

negotiable_alpn_iff :
    (offered : List Text) (p : Text)
    → Among p (negotiable_alpn (some offered)) ↔ (Among p supported_alpn × Among p offered)
unfolding negotiable_alpn
negotiable_alpn_iff offered p = keep_offered_iff offered supported_alpn p

-- A list that keeps some of the entries of another, in its order and each at most once.
pub data Kept : List Text → List Text → Type 0 where
  done : Kept [] []
  keep : (p : Text) {kept all : List Text} → Kept kept all → Kept (p ∷ kept) (p ∷ all)
  skip : (p : Text) {kept all : List Text} → Kept kept all → Kept kept (p ∷ all)

keep_offered-Kept : (offered ours : List Text) → Kept (keep_offered offered ours) ours
keep_offered-Kept offered [] = done
keep_offered-Kept offered (q ∷ ours) = elim (Bool-cases (any (λ t. text_eq t q) offered)) [
  | inl hit ↦ rw hit (keep q (keep_offered-Kept offered ours))
  | inr miss ↦ rw miss (skip q (keep_offered-Kept offered ours))
]

-- The protocols that are offered to the upstream are those that the gateway supports and the client
-- offered, no more and no less, in the gateway's order of preference and each once, whatever order
-- and repetitions the client's offer has; none are offered when the client offers none.
pub negotiable_alpn-IsPreferred :
    (offered : List Text)
    → Kept (negotiable_alpn (some offered)) supported_alpn
      × ((p : Text)
          → Among p (negotiable_alpn (some offered)) ↔ (Among p supported_alpn × Among p offered))
      × (negotiable_alpn (some []) ≡ negotiable_alpn none)
unfolding negotiable_alpn
negotiable_alpn-IsPreferred offered =
    (keep_offered-Kept offered supported_alpn, negotiable_alpn_iff offered, refl)

-- When the upstream selects a protocol that it was offered, the client is answered with this one,
-- and had offered it.
pub mirror_choice-negotiable_alpn :
    (offered : List Text) (p : Text)
    → Among p (negotiable_alpn (some offered))
    → (advertised (mirror_choice (some p) true) ≡ some p) × Among p offered
mirror_choice-negotiable_alpn offered p a =
    let (ours, theirs) = (negotiable_alpn_iff offered p).0 a in (answered p ours, theirs)
