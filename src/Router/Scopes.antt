-- ===== src/Router/Scopes.antt =====
-- src/router.rs, `one_label_above`, `is_suffix_of_or_equal` and `match_scope_pattern`: which scope
-- patterns meet the hosts under a wildcard.
use sni_gate.Prelude.{
  ◌≡◌, refl, sym, ap, ◌∙◌, ◌↔◌, inl, inr, Bool, true, false, ◌||◌, [], ◌∷◌, ◌++◌, Option, none,
  some, arith, is_some, Bool-cases, Option-cases,
}
use sni_gate.Text.{Text, codes, text_eq, contains, strip_prefix, strip_suffix, split_once}
use sni_gate.Text.Parts.{
  Lacks, text_eq_iff, contains-false_iff, strip_suffix-append, strip_suffix-some, strip_prefix-some,
  ends_with_iff, split_once-append,
}
use sni_gate.Router.Names.{
  one_label_above, a_label, is_suffix_of_or_equal, match_scope_pattern, match_scope,
  match_plain_scope,
}
use sni_gate.Router.Hosts.{IsLabel}
use sni_gate.Router.Walk.{IsDomainOf, IsDomainOf-split, IsDomainOf-under}

-- The hosts that a scope pattern declares: `*.d` the names one label above `d`, `.d` the domain `d`
-- and all below it, anything else itself alone.
pub data Declares (scope h : Text) : Type 0 where
  at_wildcard :
      (d l : Text) → scope ≡ codes "*." ++ d → IsLabel l → h ≡ l ++ b'.' ∷ d → Declares scope h
  at_suffix : (d : Text) → scope ≡ codes "." ++ d → IsDomainOf d h → Declares scope h
  at_exact :
      strip_prefix (codes "*.") scope ≡ none
      → strip_prefix (codes ".") scope ≡ none
      → scope ≡ h
      → Declares scope h

a_label_of_IsLabel : (l : Text) → IsLabel l → a_label l ≡ some l
a_label_of_IsLabel [] h = absurd (h.0 refl)
a_label_of_IsLabel (c ∷ l) h = rw ((contains-false_iff b'.' (c ∷ l)).1 h.1)

a_label-some : (l : Text) {k : Text} → a_label l ≡ some k → (l ≡ k) × IsLabel l
a_label-some [] h = cc
a_label-some (c ∷ l) h = elim (Bool-cases (contains b'.' (c ∷ l))) [
  | inl dotted ↦ ground arith
  | inr plain ↦ (ground arith, (λ e. cc, (contains-false_iff b'.' (c ∷ l)).0 plain))
]

append_regroup : (l t : Text) → l ++ b'.' ∷ t ≡ (l ++ b'.' ∷ []) ++ t
append_regroup [] t = refl
append_regroup (c ∷ l) t = ap (λ s. c ∷ s) (append_regroup l t)

pub one_label_above-label :
    (l parent : Text) → IsLabel l → one_label_above (l ++ b'.' ∷ parent) parent ≡ some l
unfolding one_label_above
one_label_above-label l parent h =
    rw
      (
        append_regroup l parent,
        strip_suffix-append parent (l ++ b'.' ∷ []),
        strip_suffix-append (codes ".") l,
      )
      (a_label_of_IsLabel l h)

-- `one_label_above` answers exactly for the keys that are one label above the parent.
pub one_label_above-some :
    (key parent : Text) {l : Text}
    → one_label_above key parent ≡ some l
    → (key ≡ l ++ b'.' ∷ parent) × IsLabel l
unfolding one_label_above
one_label_above-some key parent {l} h = elim (Option-cases (strip_suffix parent key)) [
  | inl e ↦ ground arith
  | inr (left, e) ↦ elim (Option-cases (strip_suffix (codes ".") left)) [
    | inl e' ↦ ground arith
    | inr (left', e') ↦
        let (same, label) = a_label-some left' {k = l} (ground arith) in
        (
          strip_suffix-some parent key e
              ∙ ap (λ s. s ++ parent) (strip_suffix-some (codes ".") left e')
              ∙ sym (append_regroup left' parent)
              ∙ ap (λ s. s ++ b'.' ∷ parent) same,
          rw (← same) label,
        )
  ]
]

pub is_suffix_of_or_equal_iff :
    (candidate suffix : Text)
    → (is_suffix_of_or_equal candidate suffix ≡ true) ↔ IsDomainOf suffix candidate
unfolding is_suffix_of_or_equal
is_suffix_of_or_equal_iff candidate suffix = (
  λ h. elim (Bool-cases (text_eq candidate suffix)) [
    | inl same ↦ inl ((text_eq_iff candidate suffix).0 same)
    | inr other ↦ inr ((ends_with_iff (codes "." ++ suffix) candidate).0 (rw other at h))
  ],
  λ d. elim d [
    | inl e ↦ rw ((text_eq_iff candidate suffix).1 e)
    | inr under ↦ elim (Bool-cases (text_eq candidate suffix)) [
      | inl same ↦ rw same
      | inr other ↦ rw other ((ends_with_iff (codes "." ++ suffix) candidate).1 under)
    ]
  ],
)

-- A domain with one label in front is below the domain.
label_in_front :
    (l parent d : Text)
    → IsLabel l
    → IsDomainOf d (l ++ b'.' ∷ parent)
    → (is_suffix_of_or_equal parent d || is_some (one_label_above d parent)) ≡ true
label_in_front l parent d label k = elim (IsDomainOf-split l parent d label.1 k) [
  | inl e ↦
      rw (← e, one_label_above-label l parent label)
        (or-true (is_suffix_of_or_equal parent (l ++ b'.' ∷ parent)))
  | inr below ↦ rw ((is_suffix_of_or_equal_iff parent d).1 below)
]
  where
    or-true : (b : Bool) → (b || true) ≡ true
    or-true true = refl
    or-true false = refl

dots_agree :
    (l l' : Text) {p d : Text}
    → Lacks b'.' l
    → Lacks b'.' l'
    → l ++ b'.' ∷ p ≡ l' ++ b'.' ∷ d
    → p ≡ d
dots_agree l l' {p} {d} h h' e =
    cc (split_once-append b'.' l p h, split_once-append b'.' l' d h', ap (split_once b'.') e)

match_scope_complete :
    (scope parent l : Text)
    → IsLabel l
    → Declares scope (l ++ b'.' ∷ parent)
    → match_scope_pattern scope parent ≡ true
unfolding match_scope_pattern
match_scope_complete scope parent l label (at_wildcard d l' e label' h) =
    rw e ((text_eq_iff parent d).1 (dots_agree l l' label.1 label'.1 h))
match_scope_complete scope parent l label (at_suffix d e h) =
    rw e (label_in_front l parent d label h)
match_scope_complete scope parent l label (at_exact e e' h) =
    rw (e, match_scope) (rw (e', match_plain_scope) (rw (h, one_label_above-label l parent label)))

a_host : Text
a_host = codes "a"

a_host-IsLabel : IsLabel a_host
unfolding a_host
a_host-IsLabel = ((λ e. cc), (omega arith))

-- The hosts under the wildcard that a scope declares.
abbrev pub Meets : Text → Text → Type 0
Meets scope parent = (l : Text) × IsLabel l × Declares scope (l ++ b'.' ∷ parent)

Meets-plain :
    (scope parent : Text) (o : Option Text)
    → strip_prefix (codes "*.") scope ≡ none
    → strip_prefix (codes ".") scope ≡ o
    → match_plain_scope scope parent o ≡ true
    → Meets scope parent
Meets-plain scope parent none e e' h = elim (Option-cases (one_label_above scope parent)) [
  | inl k ↦ ground arith
  | inr (l, k) ↦
      let (same, label) = one_label_above-some scope parent k in (l, label, at_exact e e' same)
]
Meets-plain scope parent (some d) e e' h = elim (Bool-cases (is_suffix_of_or_equal parent d)) [
  | inl k ↦ (
    a_host,
    a_host-IsLabel,
    at_suffix d (strip_prefix-some (codes ".") scope e')
        (IsDomainOf-under a_host parent d ((is_suffix_of_or_equal_iff parent d).0 k)),
  )
  | inr k ↦ elim (Option-cases (one_label_above d parent)) [
    | inl k' ↦ ground arith
    | inr (l, k') ↦
        let (same, label) = one_label_above-some d parent k' in
        (l, label, at_suffix d (strip_prefix-some (codes ".") scope e') (inl (sym same)))
  ]
]

Meets-scope :
    (scope parent : Text) (o : Option Text)
    → strip_prefix (codes "*.") scope ≡ o
    → match_scope scope parent o ≡ true
    → Meets scope parent
Meets-scope scope parent none e h = Meets-plain scope parent _ e refl h
Meets-scope scope parent (some d) e h = (
  a_host,
  a_host-IsLabel,
  at_wildcard d a_host (strip_prefix-some (codes "*.") scope e) a_host-IsLabel
      (ap (λ t. a_host ++ b'.' ∷ t) ((text_eq_iff parent d).0 h)),
)

-- `match_scope_pattern` holds exactly when some host one label above the parent is declared by the
-- scope.
pub match_scope_pattern_iff :
    (scope parent : Text) → (match_scope_pattern scope parent ≡ true) ↔ Meets scope parent
unfolding match_scope_pattern
match_scope_pattern_iff scope parent = (
  Meets-scope scope parent (strip_prefix (codes "*.") scope) refl,
  λ m. match_scope_complete scope parent m.0 m.1 m.2,
)
