-- ===== src/Resolver/Serving.antt =====
-- src/resolver.rs: what the certificates in the cache and on disk cover, through every sequence of
-- handshakes, observations, evictions and restarts.
use sni_gate.Prelude.{
  ℕ, ◌≡◌, refl, ap, subst, ◌∙◌, inl, inr, true, List, [], ◌∷◌, Option, none, some, arith, Result,
  ok, err, All, Any, here, there, Bool-cases, Option-cases,
}
use mathlib.Core.Bool.{and-eq-true_iff}
use sni_gate.Text.{Text, codes, strip_prefix}
use sni_gate.Text.Parts.{text_eq→eq, strip_prefix-append}
use sni_gate.Suffix.{host_covered_by}
use sni_gate.Suffix.Coverage.{Covers, host_covered_by_iff}
use sni_gate.Router.Hosts.{IsHost}
use sni_gate.Router.Build.{RegexEngine}
use sni_gate.Router.Matching.{match_host}
use sni_gate.Resolver.Clip.{Listener, normalize_host, scope_of}
use sni_gate.Resolver.Confinement.{match_host-normalize_host}
use sni_gate.Resolver.Issue.{
  Certificate, CacheKey, CachedCert, StoredCertificate, Issuer, Env, IssueError, key_eq, find, load,
  save, sign, issue_exact, issue_or_load, cached_or_issue, key_for, get_or_issue,
  unobserved_but_broad,
}

-- A server name as a TLS client sends it: a host name, and no wildcard.
abbrev pub IsServerName : Text → Type 0
IsServerName s = IsHost (normalize_host s) × (strip_prefix (codes "*.") (normalize_host s) ≡ none)

module _ (engine : RegexEngine) (listener : Listener) where
  -- The host is routed to a route of the scope.
  abbrev pub RoutedInto : Text → Text → Type 0
  RoutedInto scope h =
      (id : ℕ) × (match_host engine listener.router h ≡ some id)
      × (scope_of listener.scopes id ≡ scope)

  -- The names cover the host of the key, and no host that is routed out of its scope.
  pub record IsSafe (key : CacheKey) (names : List Text) : Type 0 where
    pub covers : host_covered_by names key.sni_host ≡ true
    pub confined : (h : Text) → IsHost h → host_covered_by names h ≡ true → RoutedInto key.scope h

  -- The exact certificate of a host.
  exact-IsSafe :
      (key : CacheKey) (owner : ℕ)
      → strip_prefix (codes "*.") key.sni_host ≡ none
      → match_host engine listener.router key.sni_host ≡ some owner
      → scope_of listener.scopes owner ≡ key.scope
      → IsSafe key (key.sni_host ∷ [])
  exact-IsSafe key owner plain routed scope = record {
    covers = (host_covered_by_iff (key.sni_host ∷ []) key.sni_host).1 (here (inl refl));
    confined = λ h host c. confined h ((host_covered_by_iff (key.sni_host ∷ []) h).0 c);
  }
    where
      confined : (h : Text) → Any (Covers h) (key.sni_host ∷ []) → RoutedInto key.scope h
      confined h (here (inl same)) = subst (RoutedInto key.scope) same (owner, routed, scope)
      confined h (here (inr (l, p, e, eq, label))) =
          absurd (cc (ap (strip_prefix (codes "*.")) e, strip_prefix-append (codes "*.") p, plain))
      confined h (there a) = elim a [ ]

  -- The key of a server name that is routed, and its exact certificate.
  pub key_for-IsSafe :
      (s : Text) (owner : ℕ)
      → IsServerName s
      → match_host engine listener.router s ≡ some owner
      → IsSafe (key_for listener s owner) (normalize_host s ∷ [])
  key_for-IsSafe s owner name routed =
      exact-IsSafe (key_for listener s owner) owner name.1
        (match_host-normalize_host engine listener.router s name.0 ∙ routed) refl

key_eq→eq : (a b : CacheKey) → key_eq a b ≡ true → a ≡ b
key_eq→eq a b h =
    let (s, n) = (and-eq-true_iff _ _).0 h in
    let p = text_eq→eq a.scope b.scope s in
    let q = text_eq→eq a.sni_host b.sni_host n in λ i. record { scope = p i; sni_host = q i }

pub find-All :
    {V : Type 0} (P : CacheKey → V → Type 0) (key : CacheKey) (m : List (CacheKey × V)) {v : V}
    → find key m ≡ some v
    → All (λ entry. P entry.0 entry.1) m
    → P key v
unfolding find
find-All P key [] e h = cc
find-All P key ((k, w) ∷ m) {v} e h = elim (Bool-cases (key_eq k key)) [
  | inl same ↦
      let w_is : w ≡ v = ground arith in
      subst (P key) w_is (subst (λ x. P x w) (key_eq→eq k key same) h.0)
  | inr other ↦ find-All P key m (rw other at e) h.1
]

-- What the issuer does keeps a property of its certificates and their keys.
module _ (Good : CacheKey → List Text → Type 0) where
  abbrev pub AllSafe : Option (List (CacheKey × StoredCertificate)) → Type 0
  AllSafe none = Unit
  AllSafe (some files) = All (λ entry. Good entry.0 entry.1.sans) files

  -- Every certificate that the issuer holds is good.
  pub record Inv (self : Issuer) : Type 0 where
    pub cached : All (λ entry. Good entry.0 entry.1.certified.names) self.cache
    pub stored : AllSafe self.disk

  -- Signing keeps the invariant, for names that are good.
  pub sign-Inv :
      (env : Env) (self : Issuer) (key : CacheKey) (sans : List Text)
      (observed : Option (List Text)) {self' : Issuer} {c : Certificate}
      → Inv self
      → Good key sans
      → sign env self key sans observed ≡ some (self', c)
      → Inv self' × Good key c.names
  unfolding sign
  sign-Inv env self key sans observed {self'} {c} inv safe e = elim (Bool-cases env.signs) [
    | inl y ↦
        let e' : some (signed, record { names = sans }) ≡ some (self', c) = rw y at e in
        (
          subst Inv (ap fst_of e')
              (record { cached = (safe, inv.cached); stored = saved self.disk inv.stored }),
          subst (λ n. Good key n) (ap names_of e') safe,
        )
    | inr n ↦ ground arith
  ]
    where
      signed : Issuer
      signed = record {
        cache =
            (key, record { certified = record { names = sans }; observed = observed }) ∷ self.cache;
        disk = save env key (record { sans = sans; observed = observed }) self.disk;
      }

      fst_of : Option (Issuer × Certificate) → Issuer
      fst_of none = self
      fst_of (some p) = p.0

      names_of : Option (Issuer × Certificate) → List Text
      names_of none = []
      names_of (some p) = p.1.names

      saved :
          (d : Option (List (CacheKey × StoredCertificate)))
          → AllSafe d
          → AllSafe (save env key (record { sans = sans; observed = observed }) d)
      saved none h = tt
      saved (some files) h = elim (Bool-cases env.saves) [ inl y ↦ rw y (safe, h) | inr n ↦ rw n h ]

  -- What a call that may issue does.
  abbrev pub Issued : CacheKey → Issuer × Result Certificate IssueError → Type 0
  Issued key (self', ok c) = Inv self' × Good key c.names
  Issued key (self', err e) = Inv self'

  issue_exact-Issued :
      (env : Env) (self : Issuer) (key : CacheKey)
      → Inv self
      → Good key (key.sni_host ∷ [])
      → Issued key (issue_exact env self key)
  issue_exact-Issued env self key inv safe =
      elim (Option-cases (sign env self key (key.sni_host ∷ []) none)) [
        | inl e ↦ rw e inv
        | inr ((self', c), e) ↦ rw e (sign-Inv env self key _ none inv safe e)
      ]

  stored-Good :
      (env : Env) (key : CacheKey) (disk : Option (List (CacheKey × StoredCertificate)))
      {stored : StoredCertificate}
      → AllSafe disk
      → load env key disk ≡ some stored
      → Good key stored.sans
  stored-Good env key none h e = cc
  stored-Good env key (some files) h e = elim (Bool-cases env.loads) [
    | inl y ↦ find-All (λ k v. Good k v.sans) key files (rw y at e) h
    | inr n ↦ ground arith
  ]

  issue_or_load-Issued :
      (env : Env) (self : Issuer) (key : CacheKey) (o : Option StoredCertificate)
      → Inv self
      → Good key (key.sni_host ∷ [])
      → load env key self.disk ≡ o
      → Issued key (issue_or_load env self key o)
  issue_or_load-Issued env self key none inv safe e = issue_exact-Issued env self key inv safe
  issue_or_load-Issued env self key (some stored) inv safe e =
      elim (Bool-cases (unobserved_but_broad stored key.sni_host)) [
        | inl broad ↦ rw broad (issue_exact-Issued env self key inv safe)
        | inr fine ↦ elim (Bool-cases (host_covered_by stored.sans key.sni_host)) [
          | inr uncovered ↦ rw (fine, uncovered) (issue_exact-Issued env self key inv safe)
          | inl covered ↦
              let good = stored-Good env key self.disk inv.stored e in
              elim (Bool-cases env.key_loads) [
                | inl y ↦
                    rw (fine, covered, y)
                      (record { cached = (good, inv.cached); stored = inv.stored }, good)
                | inr n ↦ rw (fine, covered, n) inv
              ]
        ]
      ]

  cached_or_issue-Issued :
      (env : Env) (self : Issuer) (key : CacheKey) (o : Option CachedCert)
      → Inv self
      → Good key (key.sni_host ∷ [])
      → find key self.cache ≡ o
      → Issued key (cached_or_issue env self key o)
  cached_or_issue-Issued env self key none inv safe e =
      issue_or_load-Issued env self key _ inv safe refl
  cached_or_issue-Issued env self key (some cached) inv safe e =
      (inv, find-All (λ k v. Good k v.certified.names) key self.cache e inv.cached)

  pub get_or_issue-Issued :
      (env : Env) (listener : Listener) (self : Issuer) (s : Text) (owner : ℕ)
      → Inv self
      → Good (key_for listener s owner) (normalize_host s ∷ [])
      → Issued (key_for listener s owner) (get_or_issue env listener self s owner)
  unfolding get_or_issue
  get_or_issue-Issued env listener self s owner inv good =
      cached_or_issue-Issued env self (key_for listener s owner) _ inv good refl
