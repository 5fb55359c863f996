-- ===== src/Config/Domains.antt =====
-- src/config.rs, `validate_scope_pattern`: which scope patterns are valid.
use sni_gate.Prelude.{
  ℕ, ◌≡◌, refl, ap, sym, subst, ◌∙◌, ◌≢◌, ◌↔◌, inl, inr, arith, true, false, List, [], ==_iff, ◌∷◌,
  ◌++◌, ◌==◌, ok, ok_so_far, all, All, Bool-cases, Option-cases,
}
use sni_gate.Text.{Text, codes, trim, contains, strip_prefix}
use sni_gate.Text.Parts.{Lacks, strip_prefix-some, contains-append}
use sni_gate.Config.Scope.{
  onto_label, split_dots, is_label_char, check_label, check_labels, check_domain, domain_of,
  validate_trimmed, validate_scope_pattern,
}
use sni_gate.Config.Labels.{IsScopeLabel, check_label-IsScopeLabel, check_label_of_IsScopeLabel}

-- A domain of labels with dots between them.
abbrev pub join_dots : List Text → Text
join_dots [] = []
join_dots (label ∷ []) = label
join_dots (label ∷ next ∷ labels) = label ++ b'.' ∷ join_dots (next ∷ labels)

abbrev pub IsScopeDomain : Text → Type 0
IsScopeDomain d =
    (a : Text) × (b : Text) × (labels : List Text) × (d ≡ join_dots (a ∷ b ∷ labels))
    × All IsScopeLabel (a ∷ b ∷ labels)

split_dots-cons :
    (s : Text) → (label : Text) × (labels : List Text) × (split_dots s ≡ label ∷ labels)
unfolding split_dots
split_dots-cons [] = ([], [], refl)
split_dots-cons (c ∷ s) =
    let (label, labels, e) = split_dots-cons s in
    elim (Bool-cases (c == b'.')) [
      | inl dot ↦ ([], split_dots s, rw dot refl)
      | inr other ↦ (c ∷ label, labels, rw (other, e) refl)
    ]

join_onto : (c : ℕ) (labels : List Text) → join_dots (onto_label c labels) ≡ c ∷ join_dots labels
join_onto c [] = refl
join_onto c (label ∷ []) = refl
join_onto c (label ∷ next ∷ labels) = refl

split_dots-join : (s : Text) → join_dots (split_dots s) ≡ s
unfolding split_dots
split_dots-join [] = refl
split_dots-join (c ∷ s) = elim (Bool-cases (c == b'.')) [
  | inr other ↦ rw (other, join_onto c (split_dots s), split_dots-join s) refl
  | inl dot ↦
      let (label, labels, e) = split_dots-cons s in
      let again = split_dots-join s in
      rw (dot, e)
        (ap (λ t. b'.' ∷ t) (rw e at again) ∙ ap (λ x. x ∷ s) (sym ((==_iff c b'.').0 dot)))
]

split_dots_of_Lacks : (label : Text) → Lacks b'.' label → split_dots label ≡ label ∷ []
unfolding split_dots
split_dots_of_Lacks [] h = refl
split_dots_of_Lacks (c ∷ s) h = rw (split_dots_of_Lacks s h.1) (ground arith)

split_dots-append :
    (label rest : Text)
    → Lacks b'.' label
    → split_dots (label ++ b'.' ∷ rest) ≡ label ∷ split_dots rest
unfolding split_dots
split_dots-append [] rest h = refl
split_dots-append (c ∷ s) rest h = rw (split_dots-append s rest h.1) (ground arith)

split-join :
    (label : Text) (labels : List Text)
    → All (Lacks b'.') (label ∷ labels)
    → split_dots (join_dots (label ∷ labels)) ≡ label ∷ labels
split-join label [] h = split_dots_of_Lacks label h.0
split-join label (next ∷ labels) h =
    split_dots-append label (join_dots (next ∷ labels)) h.0
    ∙ ap (λ t. label ∷ t) (split-join next labels h.1)

IsScopeLabel-Lacks : (label : Text) → All (λ c. is_label_char c ≡ true) label → Lacks b'.' label
IsScopeLabel-Lacks [] h = tt
IsScopeLabel-Lacks (c ∷ s) h = (λ e. cc (ap is_label_char e, h.0), IsScopeLabel-Lacks s h.1)

labels-Lacks : (labels : List Text) → All IsScopeLabel labels → All (Lacks b'.') labels
labels-Lacks [] h = tt
labels-Lacks (label ∷ labels) h = (IsScopeLabel-Lacks label h.0.chars, labels-Lacks labels h.1)

check_labels-All : (labels : List Text) → check_labels labels ≡ ok tt → All IsScopeLabel labels
unfolding check_labels
check_labels-All [] h = tt
check_labels-All (label ∷ labels) h =
    let (u, first, went) = ok_so_far (check_label label) _ h in
    (check_label-IsScopeLabel label first, check_labels-All labels went)

check_labels_of_All : (labels : List Text) → All IsScopeLabel labels → check_labels labels ≡ ok tt
unfolding check_labels
check_labels_of_All [] h = refl
check_labels_of_All (label ∷ labels) h =
    rw (check_label_of_IsScopeLabel label h.0) (check_labels_of_All labels h.1)

split_dots-single : (s label : Text) → split_dots s ≡ label ∷ [] → contains b'.' s ≡ false
unfolding split_dots contains
split_dots-single [] label h = refl
split_dots-single (c ∷ s) label h =
    let (first, rest, e) = split_dots-cons s in
    elim (Bool-cases (c == b'.')) [
      | inl dot ↦ cc (rw (dot, e) at h)
      | inr other ↦
          rw other
            (split_dots-single s first (e ∙ ap (λ t. first ∷ t) (no_more (rw (other, e) at h))))
    ]
  where
    no_more : {a b : Text} {t : List Text} → a ∷ t ≡ b ∷ [] → t ≡ []
    no_more q = cc

split_dots-contains :
    (s : Text)
    → contains b'.' s ≡ true
    → (a : Text) × (b : Text) × (labels : List Text) × (split_dots s ≡ a ∷ b ∷ labels)
unfolding contains
split_dots-contains s h = let (label, labels, e) = split_dots-cons s in more label labels e
  where
    more :
        (label : Text) (labels : List Text)
        → split_dots s ≡ label ∷ labels
        → (a : Text) × (b : Text) × (labels : List Text) × (split_dots s ≡ a ∷ b ∷ labels)
    more a (b ∷ labels) e = (a, b, labels, e)
    more a [] e = cc (h, split_dots-single s a e)

join-contains :
    (a b : Text) (labels : List Text) → contains b'.' (join_dots (a ∷ b ∷ labels)) ≡ true
join-contains a b labels =
    contains-append b'.' a (b'.' ∷ join_dots (b ∷ labels)) (unfold contains in refl)

check_domain-IsScopeDomain : (d : Text) → check_domain d ≡ ok tt → IsScopeDomain d
check_domain-IsScopeDomain [] h = cc
check_domain-IsScopeDomain (c ∷ s) h = elim (Bool-cases (contains b'.' (c ∷ s))) [
  | inr single ↦ cc (rw single at h)
  | inl dotted ↦
      let (a, b, labels, e) = split_dots-contains (c ∷ s) dotted in
      (
        a,
        b,
        labels,
        sym (split_dots-join (c ∷ s)) ∙ ap join_dots e,
        check_labels-All (a ∷ b ∷ labels) (rw (dotted, e) at h),
      )
]

check_domain_of_IsScopeDomain : (d : Text) → d ≢ [] → IsScopeDomain d → check_domain d ≡ ok tt
check_domain_of_IsScopeDomain [] ne i = absurd (ne refl)
check_domain_of_IsScopeDomain (c ∷ s) ne (a, b, labels, e, all) =
    rw
      (
        ap (contains b'.') e ∙ join-contains a b labels,
        ap split_dots e ∙ split-join a (b ∷ labels) (labels-Lacks (a ∷ b ∷ labels) all),
      )
      (check_labels_of_All (a ∷ b ∷ labels) all)

-- The spellings of a scope over a domain: the wildcard, the suffix, and the domain itself.
pub data ScopeOver (d : Text) : Text → Type 0 where
  wildcard : ScopeOver d (codes "*." ++ d)
  suffix : ScopeOver d (codes "." ++ d)
  apex : ScopeOver d d

-- A domain begins with a letter or a digit.
not_mark : (m c : ℕ) → is_label_char m ≡ false → is_label_char c ≡ true → (m == c) ≡ false
not_mark m c hm hc = elim (Bool-cases (m == c)) [
  | inr other ↦ other
  | inl same ↦ cc (ap is_label_char ((==_iff m c).0 same), hm, hc)
]

domain_of-head : (c : ℕ) (s : Text) → is_label_char c ≡ true → domain_of (c ∷ s) ≡ c ∷ s
domain_of-head c s h = rw (not_mark b'*' c refl h, not_mark b'.' c refl h) refl

domain_of-apex : (d : Text) → IsScopeDomain d → (domain_of d ≡ d) × (d ≢ [])
domain_of-apex d ([], b, labels, e, all) = absurd (all.0.nonempty refl)
domain_of-apex d (c ∷ a, b, labels, e, all) =
    subst (λ x. (domain_of x ≡ x) × (x ≢ [])) (sym e)
      (domain_of-head c (a ++ b'.' ∷ join_dots (b ∷ labels)) all.0.chars.0, λ q. cc)

validate_domain :
    (scope : Text) → scope ≢ [] → IsScopeDomain (domain_of scope) → validate_trimmed scope ≡ ok tt
validate_domain [] ne i = absurd (ne refl)
validate_domain (c ∷ s) ne i =
    check_domain_of_IsScopeDomain (domain_of (c ∷ s)) (domain_of-apex (domain_of (c ∷ s)) i).1 i

domain_of-ScopeOver : (scope : Text) → ScopeOver (domain_of scope) scope
domain_of-ScopeOver scope = elim (Option-cases (strip_prefix (codes "*.") scope)) [
  | inr (d, starred) ↦
      rw starred (subst (ScopeOver d) (sym (strip_prefix-some (codes "*.") scope starred)) wildcard)
  | inl bare ↦ elim (Option-cases (strip_prefix (codes ".") scope)) [
    | inr (d, dotted) ↦
        rw (bare, dotted)
          (subst (ScopeOver d) (sym (strip_prefix-some (codes ".") scope dotted)) suffix)
    | inl plain ↦ rw (bare, plain) apex
  ]
]

validate_trimmed-ScopeOver :
    (scope : Text)
    → validate_trimmed scope ≡ ok tt
    → (d : Text) × IsScopeDomain d × ScopeOver d scope
validate_trimmed-ScopeOver [] h = cc
validate_trimmed-ScopeOver (c ∷ s) h = (
  domain_of (c ∷ s),
  check_domain-IsScopeDomain (domain_of (c ∷ s)) h,
  domain_of-ScopeOver (c ∷ s),
)

ScopeOver-validate :
    (d scope : Text) → IsScopeDomain d → ScopeOver d scope → validate_trimmed scope ≡ ok tt
ScopeOver-validate d scope i wildcard = validate_domain (codes "*." ++ d) (λ e. cc) i
ScopeOver-validate d scope i suffix = validate_domain (codes "." ++ d) (λ e. cc) i
ScopeOver-validate d scope i apex =
    let (same, ne) = domain_of-apex d i in validate_domain d ne (subst IsScopeDomain (sym same) i)

-- A scope pattern is accepted exactly when it is, trimmed, a domain of two labels or more, with `*.`
-- or a dot or nothing in front; the labels are letters, digits and hyphens, with no hyphen at an end.
pub validate_scope_pattern_iff :
    (scope : Text)
    → (validate_scope_pattern scope ≡ ok tt)
      ↔ ((d : Text) × IsScopeDomain d × ScopeOver d (trim scope))
unfolding validate_scope_pattern
validate_scope_pattern_iff scope = (
  validate_trimmed-ScopeOver (trim scope),
  λ (d, i, over). ScopeOver-validate d (trim scope) i over,
)
