-- ===== src/Resolver/Confinement.antt =====
-- src/resolver.rs, `DynamicResolver::clip`: no name of the plan speaks for a host that is routed out
-- of the certificate scope.
use sni_gate.Prelude.{
  ℕ, ◌≡◌, refl, sym, ap, subst, ◌∙◌, ◌≢◌, inl, inr, Bool, true, List, [], ◌∷◌, ◌++◌, map, Option,
  none, some, arith, ok, err, All, Bool-cases, Option-cases, ◌==◌,
}
use sni_gate.Text.{
  Text, codes, strip_prefix, trim, trim_end_by, trim_end_dots, to_ascii_lowercase, keep_unless,
  starts_with, lower,
}
use sni_gate.Text.Parts.{Lacks, strip_prefix-some, strip_prefix-append, text_eq_refl}
use sni_gate.Text.Trimming.{
  split_first_of_Lacks, trim_of_Fails, trim_end_dots_of_NoEndDot, to_ascii_lowercase_of_All,
}
use sni_gate.Suffix.{PublicSuffix, host_covered_by}
use sni_gate.Suffix.Coverage.{Covers, host_covered_by_iff}
use sni_gate.Router.Names.{normalize, cut_port}
use sni_gate.Router.Hosts.{IsPlain, IsHost, IsLabel, normalize_of_IsHost, All-map}
use sni_gate.Router.Build.{RegexEngine, Router}
use sni_gate.Router.Matching.{match_host, match_or_default}
use sni_gate.Router.Confine.{wildcard_confined, name_confined, Confined}
use sni_gate.Router.Confine.Sound.{Respects, IsRouted, wildcard_confined_sound}
use sni_gate.Resolver.Clip.{
  Listener, normalize_host, verdict, judge_by_prefix, judge_wildcard, judge_name, in_scope,
  scope_of, drop_unless_confined, clip,
}
use sni_gate.Resolver.Clipping.{All-Any}
use sni_gate.Resolver.Accounting.{clip-IsAccounted}

star : Text
star = codes "*"

star-IsLabel : IsLabel star
unfolding star
star-IsLabel = ((λ e. cc), omega arith)

drop_none : (c : Confined) → drop_unless_confined c ≡ none → c ≡ ok tt
drop_none (ok u) e = refl
drop_none (err x) e = cc

module _ (engine : RegexEngine) (r : Router) (scope : ℕ → Bool) where
  name_confined_sound :
      (name : Text) → name_confined engine r name scope ≡ ok tt → IsRouted engine r scope name
  unfolding name_confined
  name_confined_sound name e = elim (Option-cases (match_host engine r name)) [
    | inl miss ↦ ground arith
    | inr (id, hit) ↦ (id, hit, ground arith)
  ]

module _ (psl : PublicSuffix) (engine : RegexEngine) (self : Listener) (owner : ℕ)
    (respects : All (Respects engine) self.router.regex) where
  abbrev scope : ℕ → Bool
  scope = in_scope self owner

  -- Every host that the name speaks for is routed into the scope.
  abbrev Confines : Text → Type 0
  Confines k = (h : Text) → IsHost h → Covers h k → IsRouted engine self.router scope h

  wildcard-Confines :
      (k parent : Text)
      → k ≡ codes "*." ++ parent
      → wildcard_confined engine self.router parent scope ≡ ok tt
      → Confines k
  unfolding star
  wildcard-Confines k parent e c h host (inl same) =
      let e' : star ++ b'.' ∷ parent ≡ h = sym e ∙ same in
      subst (IsRouted engine self.router scope) e' (
        wildcard_confined_sound engine self.router scope parent star star-IsLabel
          (subst IsHost (sym e') host) respects c)
  wildcard-Confines k parent e c h host (inr (l, p, e', eq, label)) =
      let same : p ≡ parent = ground (arith, e, e') in
      let eq' : h ≡ l ++ b'.' ∷ parent = eq ∙ ap (λ t. l ++ b'.' ∷ t) same in
      subst (IsRouted engine self.router scope) (sym eq') (
        wildcard_confined_sound engine self.router scope parent l label (subst IsHost eq' host)
          respects c)

  name-Confines :
      (k : Text)
      → strip_prefix (codes "*.") k ≡ none
      → IsRouted engine self.router scope k
      → Confines k
  name-Confines k plain routed h host (inl same) =
      subst (IsRouted engine self.router scope) same routed
  name-Confines k plain routed h host (inr (l, p, e', eq, label)) =
      absurd (cc (ap (strip_prefix (codes "*.")) e', strip_prefix-append (codes "*.") p, plain))

  judge_wildcard-none :
      (parent : Text)
      → judge_wildcard psl engine self owner parent ≡ none
      → wildcard_confined engine self.router parent scope ≡ ok tt
  judge_wildcard-none [] e = cc
  judge_wildcard-none (c ∷ parent) e = drop_none _ (ground arith)

  judge_name-none :
      (name : Text)
      → judge_name psl engine self owner name ≡ none
      → name_confined engine self.router name scope ≡ ok tt
  judge_name-none name e = drop_none _ (ground arith)

  judged-Confines :
      (k : Text) (o : Option Text)
      → strip_prefix (codes "*.") k ≡ o
      → judge_by_prefix psl engine self owner k o ≡ none
      → Confines k
  judged-Confines k none e v =
      name-Confines k e (name_confined_sound engine self.router scope k (judge_name-none k v))
  judged-Confines k (some parent) e v =
      wildcard-Confines k parent (strip_prefix-some (codes "*.") k e) (judge_wildcard-none parent v)

  -- A name that passes confines.
  verdict-Confines : (k : Text) → verdict psl engine self owner k ≡ none → Confines k
  unfolding verdict
  verdict-Confines k v = judged-Confines k _ refl v

-- What has no colons once the dots behind it are trimmed had none.
Lacks-trimmed : (s : Text) → Lacks b':' (to_ascii_lowercase (trim_end_dots s)) → Lacks b':' s
unfolding trim_end_dots trim_end_by to_ascii_lowercase lower
Lacks-trimmed [] h = tt
Lacks-trimmed (c ∷ s) h = go (trim_end_by (λ d. d == b'.') s) refl (Lacks-trimmed s) h
  where
    go :
        (t : Text)
        → trim_end_by (λ d. d == b'.') s ≡ t
        → (Lacks b':' (map lower (trim_end_by (λ d. d == b'.') s)) → Lacks b':' s)
        → Lacks b':' (map lower (keep_unless (λ d. d == b'.') c t))
        → Lacks b':' (c ∷ s)
    go [] e rest k = elim (Bool-cases (c == b'.')) [
      | inl dot ↦ ((λ x. ground arith), rest (rw e tt))
      | inr other ↦
          let k' : (lower c ≢ b':') × Unit {0} = rw other at k in
          ((λ x. k'.0 (ground arith)), rest (rw e tt))
    ]
    go (d ∷ t) e rest k = ((λ x. k.0 (ground arith)), rest (rw e k.1))

All-no_colon : (s : Text) → All IsPlain s → Lacks b':' s
All-no_colon s h = All-map (λ c p. p.no_colon) s h

cut_port_of_host : (s : Text) → IsHost (to_ascii_lowercase (trim_end_dots s)) → cut_port s ≡ s
unfolding cut_port
cut_port_of_host s i =
    let whole = split_first_of_Lacks b':' s (Lacks-trimmed s (All-no_colon _ i.plain)) in
    elim (Bool-cases (starts_with b'[' s)) [ inl y ↦ rw y | inr n ↦ rw n whole ]

-- A host that the resolver normalizes to a host name, the router normalizes alike.
normalize-normalize_host : (s : Text) → IsHost (normalize_host s) → normalize s ≡ normalize_host s
unfolding normalize normalize_host
normalize-normalize_host s i = rw (cut_port_of_host (trim s) i)

pub normalize_host_of_IsHost : (h : Text) → IsHost h → normalize_host h ≡ h
unfolding normalize_host
normalize_host_of_IsHost h i =
    rw (trim_of_Fails h (All-map (λ _ q. q.no_space) h i.plain), trim_end_dots_of_NoEndDot h i.end)
      (to_ascii_lowercase_of_All h (All-map (λ _ q. q.no_upper) h i.plain))

pub match_host-normalize_host :
    (engine : RegexEngine) (r : Router) (s : Text)
    → IsHost (normalize_host s)
    → match_host engine r (normalize_host s) ≡ match_host engine r s
unfolding match_host
match_host-normalize_host engine r s i =
    ap (match_or_default engine r)
      (normalize_of_IsHost (normalize_host s) i ∙ sym (normalize-normalize_host s i))

-- A certificate that mirrors an upstream never lets a client past the routing: whatever the upstream
-- claims, every host that the kept names cover is routed to a route of the same certificate scope as
-- the requested host. The owner is the route of the requested host, which is a host name and no
-- wildcard, and each regex matches only hosts that its scope declares.
pub clip-IsRouted :
    (psl : PublicSuffix) (engine : RegexEngine) (self : Listener) (sni_host : Text) (owner : ℕ)
    (observed : List Text) (h : Text)
    → All (Respects engine) self.router.regex
    → match_host engine self.router sni_host ≡ some owner
    → IsHost (normalize_host sni_host)
    → strip_prefix (codes "*.") (normalize_host sni_host) ≡ none
    → IsHost h
    → host_covered_by (clip psl engine self sni_host owner observed).kept h ≡ true
    → IsRouted engine self.router (in_scope self owner) h
clip-IsRouted psl engine self sni_host owner observed h respects routed is_host plain host covered =
    let accounted = clip-IsAccounted psl engine self sni_host owner observed in
    let (k, origin, covers) =
      All-Any _ (Covers h) _ accounted.kept_origin ((host_covered_by_iff _ h).0 covered) in
    elim origin [
      | inl own ↦
          name-Confines psl engine self owner respects k (rw own plain) (rw own requested) h host
            covers
      | inr (passed, _) ↦ verdict-Confines psl engine self owner respects k passed h host covers
    ]
  where
    requested : IsRouted engine self.router (in_scope self owner) (normalize_host sni_host)
    requested = (
      owner,
      match_host-normalize_host engine self.router sni_host is_host ∙ routed,
      unfold in_scope in text_eq_refl (scope_of self.scopes owner),
    )
