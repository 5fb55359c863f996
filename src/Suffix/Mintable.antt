-- ===== src/Suffix/Mintable.antt =====
-- src/suffix.rs, `wildcard_is_mintable`: which wildcards it lets pass.
use sni_gate.Prelude.{
  ℕ, zero, suc, ◌<◌, ◌≡◌, refl, sym, ap, subst, ◌∙◌, ◌↔◌, inl, inr, true, false, List, [], ◌∷◌,
  ◌++◌, Option, some, arith, length, length-append, Bool-cases, ==_iff, ◌==◌,
}
use sni_gate.Text.{Text, codes, text_eq, contains, strip_suffix, split_last}
use sni_gate.Text.Parts.{
  Lacks, text_eq→eq, contains-false_iff, contains-append, strip_suffix-append, split_once-append,
}
use sni_gate.Ip.{is_ip_addr}
use sni_gate.Router.Hosts.{IsLabel}
use sni_gate.Router.Walk.{IsDomainOf, length-under}
use sni_gate.Suffix.{
  Kind, PublicSuffix, SuffixList, is_private, enclosing, below_left, one_label_below, boundary,
  registrable_icann, wildcard_is_mintable,
}
use sni_gate.Suffix.Boundary.{
  Encloses, nearest, above, IsBoundary, IsRegistrable, parent_name,
  wildcard_is_mintable-IsRegistrable, regroup,
}

split_last_of_Lacks : (c : ℕ) (s : Text) → Lacks c s → split_last c s ≡ s
unfolding split_last
split_last_of_Lacks c [] h = refl
split_last_of_Lacks c (d ∷ s) h =
    let no = (contains-false_iff c s).1 h.1 in
    elim (Bool-cases (d == c)) [
      | inl hit ↦ absurd (h.0 ((==_iff d c).0 hit))
      | inr miss ↦ rw (no, miss) refl
    ]

split_last-append : (c : ℕ) (x l : Text) → Lacks c l → split_last c (x ++ c ∷ l) ≡ l
unfolding split_last contains
split_last-append c [] l h = rw ((contains-false_iff c l).1 h) (ground arith)
split_last-append c (d ∷ x) l h =
    rw (contains-append c x (c ∷ l) (ground arith)) (split_last-append c x l h)

-- One round of the walk to the suffix that encloses a name.
module _ (psl : PublicSuffix) (list : List ℕ) (fuel : ℕ) (label rest s : Text)
    (kind : Option Kind) where
  enclosing-next :
      psl.suffix list rest ≡ some (s, kind)
      → is_private kind ≡ true
      → Lacks b'.' label
      → enclosing psl list (suc fuel) (label ++ b'.' ∷ rest) ≡ enclosing psl list fuel rest
  unfolding enclosing
  enclosing-next found vendor lacks =
      rw (enclosing, split_once-append b'.' label rest lacks, found, vendor) refl

  enclosing-stop :
      psl.suffix list rest ≡ some (s, kind)
      → is_private kind ≡ false
      → Lacks b'.' label
      → enclosing psl list (suc fuel) (label ++ b'.' ∷ rest) ≡ some s
  unfolding enclosing
  enclosing-stop found registry lacks =
      rw (enclosing, split_once-append b'.' label rest lacks, found, registry) refl

module _ (psl : PublicSuffix) (list : List ℕ) where
  -- The walk finds what encloses a name, in no more rounds than the name has characters.
  enclosing_of :
      (fuel : ℕ) {cur b : Text}
      → Encloses psl list cur b
      → length cur < fuel
      → enclosing psl list fuel cur ≡ some b
  enclosing_of zero e lt = absurd (omega arith)
  enclosing_of (suc fuel) (nearest label rest kind {cur} {b} eq lacks found registry) lt =
      ap (enclosing psl list (suc fuel)) eq
      ∙ enclosing-stop psl list fuel label rest b kind found registry lacks
  enclosing_of (suc fuel) (above label rest s kind {cur} {b} eq lacks found vendor e) lt =
      ap (enclosing psl list (suc fuel)) eq
      ∙ enclosing-next psl list fuel label rest s kind found vendor lacks
      ∙ enclosing_of fuel e (length-under label rest cur fuel eq lt)

  boundary_of :
      (q : Text) {b : Text}
      → IsBoundary psl list q b
      → (found : Text × Option Kind) × (psl.suffix list q ≡ some found)
        × (boundary psl list found ≡ some b)
  unfolding boundary
  boundary_of q {b} (inl (kind, e, registry)) = ((b, kind), e, rw registry refl)
  boundary_of q (inr (s, kind, e, vendor, up)) =
      ((s, kind), e, rw vendor (enclosing_of (suc (length s)) up (omega arith)))

-- What stands in front of a boundary, up to a label right in front of it.
below_left_of :
    (b left l : Text)
    → IsLabel l
    → split_last b'.' left ≡ l
    → below_left b left ≡ some (l ++ b'.' ∷ b)
unfolding below_left
below_left_of b left [] (ne, lacks) e = absurd (ne refl)
below_left_of b left (c ∷ l) label e = rw (below_left, e) refl

one_label_below_of_left :
    (left l b : Text)
    → IsLabel l
    → split_last b'.' left ≡ l
    → one_label_below (left ++ b'.' ∷ b) b ≡ some (l ++ b'.' ∷ b)
unfolding one_label_below
one_label_below_of_left left l b label e =
    let dotted = sym (regroup left (b'.' ∷ []) b) in
    let stripped : strip_suffix b (left ++ b'.' ∷ b) ≡ some (left ++ b'.' ∷ []) =
      ap (strip_suffix b) dotted ∙ strip_suffix-append b (left ++ b'.' ∷ []) in
    elim (Bool-cases (text_eq (left ++ b'.' ∷ b) b)) [
      | inl same ↦ absurd (
          omega (
            arith,
            length-append {0} left (b'.' ∷ b),
            ap length (text_eq→eq (left ++ b'.' ∷ b) b same),
          ))
      | inr other ↦
          rw (other, stripped, strip_suffix-append (codes ".") left)
            (below_left_of b left l label e)
    ]

one_label_below_of :
    (host b l : Text)
    → IsLabel l
    → IsDomainOf (l ++ b'.' ∷ b) host
    → one_label_below host b ≡ some (l ++ b'.' ∷ b)
one_label_below_of host b l label (inl e) =
    ap (λ h. one_label_below h b) e
    ∙ one_label_below_of_left l l b label (split_last_of_Lacks b'.' l label.1)
one_label_below_of host b l label (inr (x, e)) =
    ap (λ h. one_label_below h b) (e ∙ sym (regroup x (b'.' ∷ l) (b'.' ∷ b)))
    ∙ one_label_below_of_left (x ++ b'.' ∷ l) l b label (split_last-append b'.' x l label.1)

registrable_icann_of :
    (psl : PublicSuffix) (list : List ℕ) (host : Text) {d : Text}
    → IsRegistrable psl list host d
    → IsDomainOf d host
    → registrable_icann psl list host ≡ some d
unfolding registrable_icann
registrable_icann_of psl list host {d} (b, at, (l, label, e)) below =
    let (found, suffix, bound) = boundary_of psl list host at in
    let here : one_label_below host b ≡ some (l ++ b'.' ∷ b) =
      one_label_below_of host b l label (subst (λ t. IsDomainOf t host) e below) in
    rw (suffix, bound) (here ∙ ap (λ t. some t) (sym e))

-- A wildcard may be minted exactly when its parent is no address and is or is below a name one label
-- in front of the registry boundary of the parent: the walk of `enclosing` to that boundary finds it
-- within the rounds given.
pub wildcard_is_mintable_iff :
    (psl : PublicSuffix) (self : SuffixList) (parent : Text)
    → (wildcard_is_mintable psl self parent ≡ true) ↔ (
        (is_ip_addr parent ≡ false)
        × ((d : Text) × IsRegistrable psl self.list (parent_name parent) d
            × IsDomainOf d (parent_name parent)))
unfolding wildcard_is_mintable
wildcard_is_mintable_iff psl self parent = (
  (λ h.
      let (name, (d, registrable, below, _)) =
        wildcard_is_mintable-IsRegistrable psl self parent h in
      (name, (d, registrable, below))),
  λ (name, (d, registrable, below)).
      rw (name, registrable_icann_of psl self.list (parent_name parent) registrable below) refl,
)
