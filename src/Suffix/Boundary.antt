-- ===== src/Suffix/Boundary.antt =====
-- src/suffix.rs, `wildcard_is_mintable` and `registrable_icann`: the registry boundary.
use sni_gate.Prelude.{
  ℕ, zero, suc, ◌≡◌, refl, sym, ap, ◌∙◌, ◌≢◌, ◌⊎◌, inl, inr, true, false, List, [], ◌∷◌, ◌++◌,
  Option, some, arith, length, Bool-cases, Option-cases, ==_iff, ◌==◌,
}
use sni_gate.Text.{
  Text, codes, text_eq, contains, to_ascii_lowercase, trim_end_dots, strip_suffix, split_once,
  split_last,
}
use sni_gate.Text.Parts.{
  Lacks, text_eq_refl, contains-false_iff, strip_suffix-some, split_once-some,
}
use sni_gate.Ip.{is_ip_addr}
use sni_gate.Router.Hosts.{IsLabel}
use sni_gate.Router.Walk.{IsDomainOf, IsDomainOf-under}
use sni_gate.Suffix.{
  Kind, PublicSuffix, SuffixList, is_private, enclosing, below_left, one_label_below, boundary,
  registrable_icann, wildcard_is_mintable,
}

-- What stands behind the last `c` has no `c`, and is the whole text or stands behind a `c`.
abbrev IsLastPart : ℕ → Text → Text → Type 0
IsLastPart c s t = Lacks c t × ((s ≡ t) ⊎ ((x : Text) × (s ≡ x ++ c ∷ t)))

split_last_lem : (c : ℕ) (s : Text) → IsLastPart c s (split_last c s)
unfolding split_last
split_last_lem c [] = (tt, inl refl)
split_last_lem c (d ∷ s) = elim (Bool-cases (contains c s)) [
  | inl more ↦
      let (lacks, at) = split_last_lem c s in
      rw more (
        lacks,
        elim at [
          | inl e ↦ absurd (cc ((contains-false_iff c s).1 (rw (← e) at lacks)))
          | inr (x, e) ↦ inr (d ∷ x, ap (λ t. d ∷ t) e)
        ],
      )
  | inr last ↦
      let lacks = (contains-false_iff c s).0 last in
      elim (Bool-cases (d == c)) [
        | inl hit ↦ rw (last, hit) (lacks, inr ([], ap (λ t. t ∷ s) ((==_iff d c).0 hit)))
        | inr miss ↦ rw (last, miss) (((λ e. ground arith), lacks), inl refl)
      ]
]

module _ (psl : PublicSuffix) (list : List ℕ) where
  -- Of the domains above a name, the first whose suffix is not a private one, with that suffix.
  pub data Encloses : Text → Text → Type 0 where
    nearest :
        (label rest : Text) (kind : Option Kind) {cur b : Text}
        → cur ≡ label ++ b'.' ∷ rest
        → Lacks b'.' label
        → psl.suffix list rest ≡ some (b, kind)
        → is_private kind ≡ false
        → Encloses cur b
    above :
        (label rest s : Text) (kind : Option Kind) {cur b : Text}
        → cur ≡ label ++ b'.' ∷ rest
        → Lacks b'.' label
        → psl.suffix list rest ≡ some (s, kind)
        → is_private kind ≡ true
        → Encloses rest b
        → Encloses cur b

  -- The registry boundary of a name: its own suffix, or what encloses this if it is a private one.
  abbrev pub IsBoundary : Text → Text → Type 0
  IsBoundary h b =
      ((kind : Option Kind) × (psl.suffix list h ≡ some (b, kind)) × (is_private kind ≡ false))
      ⊎ ((s : Text) × (kind : Option Kind) × (psl.suffix list h ≡ some (s, kind))
          × (is_private kind ≡ true)
          × Encloses s b)

  enclosing-Encloses :
      (fuel : ℕ) (cur : Text) {b : Text} → enclosing psl list fuel cur ≡ some b → Encloses cur b
  unfolding enclosing
  enclosing-Encloses zero cur e = cc
  enclosing-Encloses (suc fuel) cur {b} e = elim (Option-cases (split_once b'.' cur)) [
    | inl done ↦ ground arith
    | inr ((label, rest), k) ↦
        let (eq, lacks) = split_once-some b'.' cur k in
        elim (Option-cases (psl.suffix list rest)) [
          | inl missing ↦ ground arith
          | inr ((s, kind), found) ↦ elim (Bool-cases (is_private kind)) [
            | inl vendor ↦
                above label rest s kind eq lacks found vendor
                  (enclosing-Encloses fuel rest {b = b} (ground arith))
            | inr registry ↦
                let same : s ≡ b = ground arith in
                nearest label rest kind eq lacks (found ∙ ap (λ x. some (x, kind)) same) registry
          ]
        ]
  ]

  boundary-IsBoundary :
      (q : Text) (found : Text × Option Kind) {b : Text}
      → psl.suffix list q ≡ some found
      → boundary psl list found ≡ some b
      → IsBoundary q b
  unfolding boundary
  boundary-IsBoundary q (s, kind) {b} e k = elim (Bool-cases (is_private kind)) [
    | inl vendor ↦
        inr (s, kind, e, vendor, enclosing-Encloses (suc (length s)) s {b = b} (ground arith))
    | inr registry ↦
        let same : s ≡ b = ground arith in inl (kind, e ∙ ap (λ x. some (x, kind)) same, registry)
  ]

below_left-some :
    (suffix left : Text) {d : Text}
    → below_left suffix left ≡ some d
    → (d ≡ split_last b'.' left ++ b'.' ∷ suffix) × (split_last b'.' left ≢ [])
unfolding below_left
below_left-some suffix left e = ground arith

pub regroup : (x l t : Text) → (x ++ l) ++ t ≡ x ++ (l ++ t)
regroup [] l t = refl
regroup (c ∷ x) l t = ap (λ s. c ∷ s) (regroup x l t)

-- The registrable domain is one label in front of the boundary, and the host is it or below it.
one_label_below-some :
    (host b : Text) {d : Text}
    → one_label_below host b ≡ some d
    → ((l : Text) × IsLabel l × (d ≡ l ++ b'.' ∷ b)) × IsDomainOf d host × (host ≢ b)
unfolding one_label_below
one_label_below-some host b {d} e = elim (Bool-cases (text_eq host b)) [
  | inl same ↦ ground arith
  | inr other ↦ elim (Option-cases (strip_suffix b host)) [
    | inl miss ↦ ground arith
    | inr (rest, k) ↦ elim (Option-cases (strip_suffix (codes ".") rest)) [
      | inl miss ↦ ground arith
      | inr (left, k') ↦
          let (eq, present) = below_left-some b left {d = d} (ground arith) in
          let (lacks, at) = split_last_lem b'.' left in
          let whole : host ≡ left ++ b'.' ∷ b =
            strip_suffix-some b host k
            ∙ ap (λ t. t ++ b) (strip_suffix-some (codes ".") rest k')
            ∙ regroup left (b'.' ∷ []) b in
          (
            (split_last b'.' left, (present, lacks), eq),
            elim at [
              | inl e' ↦ inl (whole ∙ ap (λ t. t ++ b'.' ∷ b) e' ∙ sym eq)
              | inr (x, e') ↦ inr (
                x,
                whole
                    ∙ ap (λ t. t ++ b'.' ∷ b) e'
                    ∙ regroup x (b'.' ∷ split_last b'.' left) (b'.' ∷ b)
                    ∙ ap (λ t. x ++ b'.' ∷ t) (sym eq),
              )
            ],
            λ same. cc (text_eq_refl b, ap (λ t. text_eq t b) same),
          )
    ]
  ]
]

-- The registrable domain of a name: one label in front of the registry boundary of that name.
abbrev pub IsRegistrable : PublicSuffix → List ℕ → Text → Text → Type 0
IsRegistrable psl list h d =
    (b : Text) × IsBoundary psl list h b × ((l : Text) × IsLabel l × (d ≡ l ++ b'.' ∷ b))

registrable_icann-some :
    (psl : PublicSuffix) (list : List ℕ) (host : Text) {d : Text}
    → registrable_icann psl list host ≡ some d
    → IsRegistrable psl list host d × IsDomainOf d host
unfolding registrable_icann
registrable_icann-some psl list host {d} e = elim (Option-cases (psl.suffix list host)) [
  | inl miss ↦ ground arith
  | inr (found, k) ↦ elim (Option-cases (boundary psl list found)) [
    | inl miss ↦ ground arith
    | inr (b, k') ↦
        let (label, below, _) = one_label_below-some host b {d = d} (ground arith) in
        ((b, boundary-IsBoundary psl list host found {b = b} k k', label), below)
  ]
]

abbrev pub parent_name : Text → Text
parent_name parent = to_ascii_lowercase (trim_end_dots parent)

-- A wildcard that may be minted stays inside the registrable domain of its parent: the parent is no
-- address, and there is a name one label in front of the parent's registry boundary that the parent
-- and every name in front of the parent are or are below. The boundary is the public suffix of the
-- parent, or, if this is a private one, the suffix of the first domain above it that has one which is
-- not.
pub wildcard_is_mintable-IsRegistrable :
    (psl : PublicSuffix) (self : SuffixList) (parent : Text)
    → wildcard_is_mintable psl self parent ≡ true
    → (is_ip_addr parent ≡ false)
      × ((d : Text) × IsRegistrable psl self.list (parent_name parent) d
          × IsDomainOf d (parent_name parent)
          × ((l : Text) → IsDomainOf d (l ++ b'.' ∷ parent_name parent)))
unfolding wildcard_is_mintable
wildcard_is_mintable-IsRegistrable psl self parent h = elim (Bool-cases (is_ip_addr parent)) [
  | inl ip ↦ ground arith
  | inr name ↦ elim (Option-cases (registrable_icann psl self.list (parent_name parent))) [
    | inl miss ↦ ground arith
    | inr (d, k) ↦
        let (registrable, below) =
          registrable_icann-some psl self.list (parent_name parent) {d = d} k in
        (name, (d, registrable, below, λ l. IsDomainOf-under l (parent_name parent) d below))
  ]
]

-- A public suffix itself, when it is not a private one, is never the parent of a wildcard.
pub wildcard_is_mintable-suffix :
    (psl : PublicSuffix) (self : SuffixList) (parent : Text) (kind : Option Kind)
    → psl.suffix self.list (parent_name parent) ≡ some (parent_name parent, kind)
    → is_private kind ≡ false
    → wildcard_is_mintable psl self parent ≡ false
unfolding wildcard_is_mintable registrable_icann boundary one_label_below
wildcard_is_mintable-suffix psl self parent kind e k = elim (Bool-cases (is_ip_addr parent)) [
  | inl ip ↦ rw ip
  | inr name ↦ rw (name, e, k, text_eq_refl (parent_name parent))
]
