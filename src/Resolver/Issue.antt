-- ===== src/Resolver/Issue.antt =====
-- src/resolver.rs: `Issuer`, `CacheKey`, `CachedCert` and the operations of `DynamicResolver` that
-- serve and record certificates; src/store.rs: `StoredCertificate`. A call runs alone: the code
-- holds the lock of its cache key from the second look at the cache on.
use sni_gate.Prelude.{
  ℕ, zero, suc, Bool, true, false, ◌&&◌, not, List, [], ◌∷◌, Option, none, some, if◌then◌else◌,
  Result, ok, err,
}
use sni_gate.Text.{Text, text_eq}
use sni_gate.Suffix.{PublicSuffix, host_covered_by}
use sni_gate.Router.Build.{RegexEngine}
use sni_gate.Router.Matching.{match_host}
use sni_gate.Resolver.Clip.{Listener, normalize_host, scope_of, clip}

-- A certificate with its key, by the names that it carries.
pub record Certificate : Type 0 where
  pub names : List Text

pub record CacheKey : Type 0 where
  pub scope : Text
  pub sni_host : Text

pub record CachedCert : Type 0 where
  pub certified : Certificate
  pub observed : Option (List Text)

pub record StoredCertificate : Type 0 where
  pub sans : List Text
  pub observed : Option (List Text)

-- The shared state. The disk is what the files of the store say, if there is a store.
pub record Issuer : Type 0 where
  pub cache : List (CacheKey × CachedCert)
  pub disk : Option (List (CacheKey × StoredCertificate))

-- What the environment decides of a call: whether the certificate on disk is read and is not near
-- its expiry, whether its key loads, whether the CA signs, and whether the signed certificate is
-- written to disk.
pub record Env : Type 0 where
  pub loads : Bool
  pub key_loads : Bool
  pub signs : Bool
  pub saves : Bool

pub data IssueError : Type 0 where
  loading_key signing : IssueError

abbrev pub key_eq : CacheKey → CacheKey → Bool
key_eq a b = text_eq a.scope b.scope && text_eq a.sni_host b.sni_host

module _ {V : Type 0} where
  unfoldable pub find : CacheKey → List (CacheKey × V) → Option V
  find key [] = none
  find key ((k, v) ∷ m) = if key_eq k key then some v else find key m

abbrev pub texts_eq : List Text → List Text → Bool
texts_eq [] [] = true
texts_eq (a ∷ s) (b ∷ t) = text_eq a b && texts_eq s t
texts_eq _ _ = false

abbrev pub same_observation : List Text → Option (List Text) → Bool
same_observation observed none = false
same_observation observed (some cached) = texts_eq cached observed

abbrev pub mirrors : List Text → Option CachedCert → Bool
mirrors observed none = false
mirrors observed (some cached) = same_observation observed cached.observed

abbrev pub load :
    Env → CacheKey → Option (List (CacheKey × StoredCertificate)) → Option StoredCertificate
load env key none = none
load env key (some files) = if env.loads then find key files else none

abbrev pub save :
    Env
    → CacheKey
    → StoredCertificate
    → Option (List (CacheKey × StoredCertificate))
    → Option (List (CacheKey × StoredCertificate))
save env key stored none = none
save env key stored (some files) = if env.saves then some ((key, stored) ∷ files) else some files

-- A certificate with the names, in the cache and, where that succeeds, on disk.
unfoldable pub sign :
    Env → Issuer → CacheKey → List Text → Option (List Text) → Option (Issuer × Certificate)
sign env self key sans observed =
    if env.signs
    then some (
      record {
        cache =
            (key, record { certified = record { names = sans }; observed = observed }) ∷ self.cache;
        disk = save env key (record { sans = sans; observed = observed }) self.disk;
      },
      record { names = sans },
    )
    else none

abbrev is_none {ℓ} : {A : Type ℓ} → Option A → Bool
is_none none = true
is_none (some a) = false

-- Broader than its own host, though no upstream was observed.
abbrev pub unobserved_but_broad : StoredCertificate → Text → Bool
unobserved_but_broad stored host = is_none stored.observed && not (texts_eq stored.sans (host ∷ []))

abbrev pub or_signing_error :
    Issuer → Option (Issuer × Certificate) → Issuer × Result Certificate IssueError
or_signing_error self none = (self, err signing)
or_signing_error self (some (self', certified)) = (self', ok certified)

abbrev pub issue_exact : Env → Issuer → CacheKey → Issuer × Result Certificate IssueError
issue_exact env self key = or_signing_error self (sign env self key (key.sni_host ∷ []) none)

abbrev pub cache_stored :
    Env → Issuer → CacheKey → StoredCertificate → Issuer × Result Certificate IssueError
cache_stored env self key stored =
    if env.key_loads
    then (
      record self {
        cache =
            (key, record { certified = record { names = stored.sans }; observed = stored.observed })
            ∷ self.cache;
      },
      ok (record { names = stored.sans }),
    )
    else (self, err loading_key)

abbrev pub issue_or_load :
    Env → Issuer → CacheKey → Option StoredCertificate → Issuer × Result Certificate IssueError
issue_or_load env self key none = issue_exact env self key
issue_or_load env self key (some stored) =
    if unobserved_but_broad stored key.sni_host
    then issue_exact env self key
    else if host_covered_by stored.sans key.sni_host
    then cache_stored env self key stored
    else issue_exact env self key

abbrev pub cached_or_issue :
    Env → Issuer → CacheKey → Option CachedCert → Issuer × Result Certificate IssueError
cached_or_issue env self key (some cached) = (self, ok cached.certified)
cached_or_issue env self key none = issue_or_load env self key (load env key self.disk)

abbrev pub key_for : Listener → Text → ℕ → CacheKey
key_for listener sni_host owner = record {
  scope = scope_of listener.scopes owner;
  sni_host = normalize_host sni_host;
}

unfoldable pub get_or_issue :
    Env → Listener → Issuer → Text → ℕ → Issuer × Result Certificate IssueError
unfolding find sign host_covered_by scope_of normalize_host
get_or_issue env listener self sni_host owner =
    let key = key_for listener sni_host owner in cached_or_issue env self key (find key self.cache)

-- `self.pinned.get(id)`, where a route may pin no certificate.
unfoldable pub pinned_for : List (Option Certificate) → ℕ → Option Certificate
pinned_for [] id = none
pinned_for (pin ∷ pinned) zero = pin
pinned_for (pin ∷ pinned) (suc id) = pinned_for pinned id

module _ (psl : PublicSuffix) (engine : RegexEngine) (listener : Listener)
    (pinned : List (Option Certificate)) where
  abbrev pub serve_or_issue :
      Env → Issuer → Text → ℕ → Option Certificate → Issuer × Result Certificate IssueError
  serve_or_issue env self sni_host owner (some pin) = (self, ok pin)
  serve_or_issue env self sni_host owner none = get_or_issue env listener self sni_host owner

  unfoldable pub certificate_for : Env → Issuer → Text → ℕ → Issuer × Result Certificate IssueError
  unfolding pinned_for get_or_issue
  certificate_for env self sni_host owner =
      serve_or_issue env self sni_host owner (pinned_for pinned owner)

  abbrev pub certified : Issuer × Result Certificate IssueError → Issuer × Option Certificate
  certified (self, ok c) = (self, some c)
  certified (self, err e) = (self, none)

  abbrev pub resolve_route : Env → Issuer → Text → Option ℕ → Issuer × Option Certificate
  resolve_route env self host none = (self, none)
  resolve_route env self host (some owner) = certified (certificate_for env self host owner)

  -- `ResolvesServerCert::resolve`, with the server name of the client hello.
  unfoldable pub resolve : Env → Issuer → Option Text → Issuer × Option Certificate
  unfolding certificate_for match_host
  resolve env self none = (self, none)
  resolve env self (some host) =
      resolve_route env self host (match_host engine listener.router host)

  abbrev pub current_for : Issuer → Text → List Text → ℕ → Option Certificate → Bool
  current_for self sni_host observed owner (some pin) = true
  current_for self sni_host observed owner none =
      mirrors observed (find (key_for listener sni_host owner) self.cache)

  abbrev pub current_route : Issuer → Text → List Text → Option ℕ → Bool
  current_route self sni_host observed none = true
  current_route self sni_host observed (some owner) =
      current_for self sni_host observed owner (pinned_for pinned owner)

  unfoldable pub mirror_is_current : Issuer → Text → List Text → Bool
  unfolding match_host pinned_for find scope_of normalize_host
  mirror_is_current self sni_host observed =
      current_route self sni_host observed (match_host engine listener.router sni_host)

  abbrev pub kept_current : Issuer → Option (Issuer × Certificate) → Issuer
  kept_current self none = self
  kept_current self (some (self', certified)) = self'

  abbrev pub record_for : Env → Issuer → Text → List Text → ℕ → Option Certificate → Issuer
  record_for env self sni_host observed owner (some pin) = self
  record_for env self sni_host observed owner none =
      let key = key_for listener sni_host owner in
      if mirrors observed (find key self.cache)
      then self
      else kept_current self (
          sign env self key (clip psl engine listener key.sni_host owner observed).kept
            (some observed))

  abbrev pub record_route : Env → Issuer → Text → List Text → Option ℕ → Issuer
  record_route env self sni_host observed none = self
  record_route env self sni_host observed (some owner) =
      record_for env self sni_host observed owner (pinned_for pinned owner)

  unfoldable pub record_upstream_sans : Env → Issuer → Text → List Text → Issuer
  unfolding match_host pinned_for find sign clip scope_of normalize_host
  record_upstream_sans env self sni_host observed =
      record_route env self sni_host observed (match_host engine listener.router sni_host)
