-- ===== src/Suffix/Coverage.antt =====
-- src/suffix.rs, `host_covered_by`, against the rule of RFC 6125 that it implements.
use sni_gate.Prelude.{
  ◌≡◌, refl, ap, ◌∙◌, ◌↔◌, ◌⊎◌, inl, inr, true, List, [], ◌∷◌, ◌++◌, Option, none, some, Any, here,
  there, Bool-cases,
}
use sni_gate.Text.{Text, codes, text_eq, strip_prefix, split_once}
use sni_gate.Text.Parts.{text_eq_iff, split_once-some, split_once-append, strip_prefix-some}
use sni_gate.Router.Hosts.{IsLabel}
use sni_gate.Suffix.{covers, covers_by_prefix, wildcard_covers, host_covered_by}

-- A name on a certificate speaks for the host: it is the host, or a wildcard one label above it.
abbrev pub Covers : Text → Text → Type 0
Covers host san =
    (san ≡ host)
    ⊎ ((l : Text) × (p : Text) × (san ≡ codes "*." ++ p) × (host ≡ l ++ b'.' ∷ p) × IsLabel l)

wildcard_covers_sound :
    (host suffix : Text) (o : Option (Text × Text))
    → split_once b'.' host ≡ o
    → wildcard_covers suffix o ≡ true
    → (l : Text) × (host ≡ l ++ b'.' ∷ suffix) × IsLabel l
wildcard_covers_sound host suffix none e h = cc
wildcard_covers_sound host suffix (some ([], rest)) e h = cc
wildcard_covers_sound host suffix (some (c ∷ label, rest)) e h =
    let (eq, lacks) = split_once-some b'.' host e in
    (
      c ∷ label,
      eq ∙ ap (λ t. (c ∷ label) ++ b'.' ∷ t) ((text_eq_iff rest suffix).0 h),
      ((λ k. cc), lacks),
    )

covers_by_prefix_sound :
    (host san : Text) (o : Option Text)
    → strip_prefix (codes "*.") san ≡ o
    → covers_by_prefix host o ≡ true
    → Covers host san
covers_by_prefix_sound host san none e h = cc
covers_by_prefix_sound host san (some p) e h =
    let (l, eq, label) = wildcard_covers_sound host p _ refl h in
    inr (l, p, strip_prefix-some (codes "*.") san e, eq, label)

wildcard_covers-label : (l p : Text) → IsLabel l → wildcard_covers p (some (l, p)) ≡ true
wildcard_covers-label [] p h = absurd (h.0 refl)
wildcard_covers-label (c ∷ l) p h = (text_eq_iff p p).1 refl

covers_iff : (host san : Text) → (covers host san ≡ true) ↔ Covers host san
covers_iff host san = elim (Bool-cases (text_eq san host)) [
  | inl same ↦ (λ h. inl ((text_eq_iff san host).0 same), λ h. rw same)
  | inr other ↦ (
    λ h. covers_by_prefix_sound host san _ refl (rw other at h),
    λ h. elim h [
      | inl e ↦ rw ((text_eq_iff san host).1 e)
      | inr (l, p, e, e', label) ↦
          rw other
            (rw (e, e', split_once-append b'.' l p label.1) (wildcard_covers-label l p label))
    ],
  )
]

-- A certificate is held to cover a host exactly when one of its names is the host, or is `*.p` for
-- a host that is one label, not empty, in front of `p`.
pub host_covered_by_iff :
    (sans : List Text) (host : Text) → (host_covered_by sans host ≡ true) ↔ Any (Covers host) sans
unfolding host_covered_by
host_covered_by_iff [] host = ((λ h. cc), λ a. elim a [ ])
host_covered_by_iff (san ∷ sans) host = elim (Bool-cases (covers host san)) [
  | inl hit ↦ (λ _. here ((covers_iff host san).0 hit), λ _. rw hit)
  | inr miss ↦ (
    λ h. there ((host_covered_by_iff sans host).0 (rw miss at h)),
    λ a. elim a [
      | here c ↦ absurd (cc ((covers_iff host san).1 c))
      | there b ↦ rw miss ((host_covered_by_iff sans host).1 b)
    ],
  )
]
