-- ===== src/Router/Build/Tiers.antt =====
-- src/router.rs, `Router::build`: what one pattern does to the three tables of the router.
use sni_gate.Prelude.{
  ℕ, ◌≡◌, refl, sym, ap, ◌∙◌, inl, inr, Option, none, some, arith, ok, ◌>>=◌, ok_so_far,
  Option-cases,
}
use sni_gate.Text.{Text}
use sni_gate.Router.Names.{normalize}
use sni_gate.Router.Table.{HashMap, get, insert, insert_unique}
use sni_gate.Router.Build.{
  RegexEngine, RegexDef, Router, Pattern, blank, regex_ref, inline, wildcard_of, suffix_of,
  exact_of, add_kind,
}

-- The tiers that are tables.
pub data Tier : Type 0 where
  exact wildcard suffix : Tier

abbrev pub table : Tier → Router → HashMap ℕ
table exact r = r.exact
table wildcard r = r.wildcard
table suffix r = r.suffix

-- The key that a pattern takes in a tier, if it belongs there.
abbrev pub claim : Tier → Pattern → Option Text
claim exact (exact_of host) = some (normalize host)
claim wildcard (wildcard_of rest) = some (normalize rest)
claim suffix (suffix_of rest) = some (normalize rest)
claim _ _ = none

pub insert_unique-ok :
    (m : HashMap ℕ) (key : Text) (id : ℕ) (pat : Text) {m' : HashMap ℕ}
    → insert_unique m key id pat ≡ ok m'
    → (get m key ≡ none) × (m' ≡ insert m key id)
unfolding insert_unique
insert_unique-ok m key id pat e = elim (Option-cases (get m key)) [
  | inl free ↦ (free, ground arith)
  | inr (v, taken) ↦ ground arith
]

-- One step of the loop on one tier: a key that is claimed was free and now leads to the route;
-- nothing else changes.
abbrev pub Stepped : Router → Router → ℕ → Tier → Option Text → Type 0
Stepped r r' id t none = table t r' ≡ table t r
Stepped r r' id t (some key) =
    (get (table t r) key ≡ none) × (table t r' ≡ insert (table t r) key id)

taken :
    (m : HashMap ℕ) (host : Text) (id : ℕ) (pat : Text) (t : Tier) (put : HashMap ℕ → Router)
    → ((m' : HashMap ℕ) → table t (put m') ≡ m')
    → {r' : Router} → (insert_unique m (normalize host) id pat >>= λ m'. ok (put m')) ≡ ok r'
    → (get m (normalize host) ≡ none) × (table t r' ≡ insert m (normalize host) id)
taken m host id pat t put h {r'} e =
    let (m', e', k) = ok_so_far (insert_unique m (normalize host) id pat) _ e in
    let (free, same) = insert_unique-ok m (normalize host) id pat {m' = m'} e' in
    let put_is : put m' ≡ r' = cc in (free, ap (table t) (sym put_is) ∙ h m' ∙ same)

module _ (engine : RegexEngine) (regexes : HashMap RegexDef) where
  pub add_kind-Stepped :
      (r : Router) (id : ℕ) (pat : Text) (kind : Pattern) {r' : Router} (t : Tier)
      → add_kind engine regexes r id pat kind ≡ ok r'
      → Stepped r r' id t (claim t kind)
  add_kind-Stepped r id pat blank exact e = ground arith
  add_kind-Stepped r id pat blank wildcard e = ground arith
  add_kind-Stepped r id pat blank suffix e = ground arith
  add_kind-Stepped r id pat (regex_ref name) exact e = ground arith
  add_kind-Stepped r id pat (regex_ref name) wildcard e = ground arith
  add_kind-Stepped r id pat (regex_ref name) suffix e = ground arith
  add_kind-Stepped r id pat inline t e = cc
  add_kind-Stepped r id pat (wildcard_of rest) wildcard e =
      taken r.wildcard rest id pat wildcard (λ m. record r { wildcard = m }) (λ m. refl) e
  add_kind-Stepped r id pat (wildcard_of rest) exact e = ground arith
  add_kind-Stepped r id pat (wildcard_of rest) suffix e = ground arith
  add_kind-Stepped r id pat (suffix_of rest) suffix e =
      taken r.suffix rest id pat suffix (λ m. record r { suffix = m }) (λ m. refl) e
  add_kind-Stepped r id pat (suffix_of rest) exact e = ground arith
  add_kind-Stepped r id pat (suffix_of rest) wildcard e = ground arith
  add_kind-Stepped r id pat (exact_of host) exact e =
      taken r.exact host id pat exact (λ m. record r { exact = m }) (λ m. refl) e
  add_kind-Stepped r id pat (exact_of host) wildcard e = ground arith
  add_kind-Stepped r id pat (exact_of host) suffix e = ground arith
