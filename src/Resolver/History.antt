-- ===== src/Resolver/History.antt =====
-- src/resolver.rs: what the listeners of a process serve over every history of the issuer that they
-- share.
use sni_gate.Prelude.{
  ℕ, ◌≡◌, refl, subst, In, here, there, ◌⊎◌, inl, inr, Bool, List, [], ◌∷◌, Option, none, some, All,
  Bool-cases, if◌then◌else◌,
}
use sni_gate.Text.{Text}
use sni_gate.Suffix.{PublicSuffix}
use sni_gate.Router.Build.{RegexEngine}
use sni_gate.Router.Matching.{match_host}
use sni_gate.Router.Confine.Sound.{Respects}
use sni_gate.Resolver.Clip.{Listener, scope_of}
use sni_gate.Resolver.Issue.{
  Certificate, CacheKey, StoredCertificate, Issuer, Env, key_for, pinned_for, resolve,
  record_upstream_sans,
}
use sni_gate.Resolver.Serving.{IsServerName, IsSafe, Inv, AllSafe}
use sni_gate.Resolver.Mirroring.{record_upstream_sans-Inv, Answered, resolve-Answered, Answered-Inv}

-- The entries that a test keeps.
abbrev pub retain : {V : Type 0} → (CacheKey → Bool) → List (CacheKey × V) → List (CacheKey × V)
retain keep [] = []
retain keep ((k, v) ∷ m) = if keep k then (k, v) ∷ retain keep m else retain keep m

abbrev pub retain_files :
    (CacheKey → Bool)
    → Option (List (CacheKey × StoredCertificate))
    → Option (List (CacheKey × StoredCertificate))
retain_files keep none = none
retain_files keep (some files) = some (retain keep files)

-- One listener's certificate resolver: its routing table with its scopes, and the pinned certificates.
pub record Service : Type 0 where
  pub listener : Listener
  pub pinned : List (Option Certificate)

module _ (engine : RegexEngine) where
  -- Some host has a route of the listener in the scope.
  abbrev pub Serves : Listener → Text → Type 0
  Serves l scope =
      (h : Text) × (id : ℕ) × (match_host engine l.router h ≡ some id)
      × (scope_of l.scopes id ≡ scope)

  -- Listeners that route hosts into one scope agree in all routes and all scopes.
  abbrev pub Agree : List Service → Type 0
  Agree services =
      (a b : Service)
      → In a services
      → In b services
      → (scope : Text) → Serves a.listener scope
      → Serves b.listener scope
      → (a.listener.router ≡ b.listener.router) × (a.listener.scopes ≡ b.listener.scopes)

All-at {ℓ κ} : {A : Type ℓ} (P : A → Type κ) (a : A) (xs : List A) → In a xs → All P xs → P a
All-at P a [] m h = elim m [ ]
All-at P a (x ∷ xs) (here e) h = subst P e h.0
All-at P a (x ∷ xs) (there m) h = All-at P a xs m h.1

retain-All :
    {V : Type 0} (P : CacheKey × V → Type 0) (keep : CacheKey → Bool) (m : List (CacheKey × V))
    → All P m
    → All P (retain keep m)
retain-All P keep [] h = tt
retain-All P keep ((k, v) ∷ m) h = elim (Bool-cases (keep k)) [
  | inl y ↦ rw y (h.0, retain-All P keep m h.1)
  | inr n ↦ rw n (retain-All P keep m h.1)
]

retain_files-AllSafe :
    (Good : CacheKey → List Text → Type 0) (keep : CacheKey → Bool)
    (files : Option (List (CacheKey × StoredCertificate)))
    → AllSafe Good files
    → AllSafe Good (retain_files keep files)
retain_files-AllSafe Good keep none h = tt
retain_files-AllSafe Good keep (some files) h = retain-All _ keep files h

module _ (psl : PublicSuffix) (engine : RegexEngine) (services : List Service) where
  -- One event in the life of the issuer, at any of the listeners that share it. A restart evicts the
  -- whole cache.
  pub data Event : Issuer → Issuer → Type 0 where
    handshake :
        (at : Service)
        → In at services
        → (env : Env) (self : Issuer) (s : Text) → IsServerName s
        → Event self (resolve psl engine at.listener at.pinned env self (some s)).0
    observation :
        (at : Service)
        → In at services
        → (env : Env) (self : Issuer) (s : Text) (observed : List Text) → IsServerName s
        → Event self (record_upstream_sans psl engine at.listener at.pinned env self s observed)
    eviction :
        (keep : CacheKey → Bool) (self : Issuer)
        → Event self (record self { cache = retain keep self.cache })
    removal :
        (keep : CacheKey → Bool) (self : Issuer)
        → Event self (record self { disk = retain_files keep self.disk })

  pub data History (start : Issuer) : Issuer → Type 0 where
    begun : History start start
    then_event : {s t : Issuer} → History start s → Event s t → History start t

  -- Safe at every listener that serves the scope.
  Good : CacheKey → List Text → Type 0
  Good key names =
      (at : Service)
      → In at services
      → Serves engine at.listener key.scope
      → IsSafe engine at.listener key names

  module _ (respects : All (λ at. All (Respects engine) at.listener.router.regex) services)
      (agree : Agree engine services) where
    lift :
        (at : Service)
        → In at services
        → (s : Text) (owner : ℕ) (names : List Text)
        → match_host engine at.listener.router s ≡ some owner
        → IsSafe engine at.listener (key_for at.listener s owner) names
        → Good (key_for at.listener s owner) names
    unfolding Good
    lift at m s owner names routed safe b m' serves =
        let (routers, scopes) =
          agree at b m m' (scope_of at.listener.scopes owner) (s, owner, routed, refl) serves in
        record {
          covers = safe.covers;
          confined = λ h i c.
              let (id, hit, same) = safe.confined h i c in
              (
                id,
                subst (λ r. match_host engine r h ≡ some id) routers hit,
                subst (λ x. scope_of x id ≡ scope_of at.listener.scopes owner) scopes same,
              );
        }

    respects_at : (at : Service) → In at services → All (Respects engine) at.listener.router.regex
    respects_at at m = All-at _ at services m respects

    Event-Inv : {s t : Issuer} → Event s t → Inv Good s → Inv Good t
    Event-Inv (handshake at m env self s name) inv =
        Answered-Inv psl engine at.listener at.pinned (respects_at at m) Good (lift at m) s _ (
          resolve-Answered psl engine at.listener at.pinned (respects_at at m) Good (lift at m) env
            self s inv name)
    Event-Inv (observation at m env self s observed name) inv =
        record_upstream_sans-Inv psl engine at.listener at.pinned (respects_at at m) Good
          (lift at m) env self s observed inv name
    Event-Inv (eviction keep self) inv = record {
      cached = retain-All _ keep self.cache inv.cached;
      stored = inv.stored;
    }
    Event-Inv (removal keep self) inv = record {
      cached = inv.cached;
      stored = retain_files-AllSafe Good keep self.disk inv.stored;
    }

    History-Inv : {s t : Issuer} → History s t → Inv Good s → Inv Good t
    History-Inv begun inv = inv
    History-Inv (then_event h e) inv = Event-Inv e (History-Inv h inv)

    served :
        (at : Service) (s : Text) (c : Certificate) (r : Issuer × Option Certificate)
        (m : In at services)
        → r.1 ≡ some c
        → Answered psl engine at.listener at.pinned (respects_at at m) Good (lift at m) s r
        → (owner : ℕ) × (match_host engine at.listener.router s ≡ some owner)
          × ((pinned_for at.pinned owner ≡ some c)
              ⊎ IsSafe engine at.listener (key_for at.listener s owner) c.names)
    unfolding Good
    served at s c (self', none) m q a = cc
    served at s c (self', some d) m q (inv, (owner, routed, how)) =
        let cert : d ≡ c = cc in
        (
          owner,
          routed,
          elim how [
            | inl pin ↦ inl (subst (λ x. pinned_for at.pinned owner ≡ some x) cert pin)
            | inr good ↦ inr (
                subst (λ x. IsSafe engine at.listener (key_for at.listener s owner) x.names) cert
                  (good at m (s, owner, routed, refl)))
          ],
        )

    nothing :
        (d : Option (List (CacheKey × StoredCertificate))) → d ≡ none ⊎ d ≡ some [] → AllSafe Good d
    nothing d (inl q) = rw q tt
    nothing d (inr q) = rw q tt

    -- Whatever has happened to an issuer since it held nothing, in any order of handshakes and
    -- observations of upstream certificates at the listeners that share it, of evictions, restarts
    -- and lost files, a certificate that a listener serves for a server name is the one that its
    -- route pins, or it covers the requested host and covers no host that this listener routes out of
    -- the certificate scope of that route. Each regex matches only hosts that its scope declares, a
    -- server name is a host name and no wildcard, and listeners that route hosts into one scope agree
    -- in all routes and all scopes.
    pub resolve-IsSafe :
        (disk : Option (List (CacheKey × StoredCertificate)))
        → disk ≡ none ⊎ disk ≡ some []
        → {self : Issuer} → History (record { cache = []; disk = disk }) self
        → (at : Service) → In at services
        → (env : Env) (s : Text) (c : Certificate) → IsServerName s
        → (resolve psl engine at.listener at.pinned env self (some s)).1 ≡ some c
        → (owner : ℕ) × (match_host engine at.listener.router s ≡ some owner)
          × ((pinned_for at.pinned owner ≡ some c)
              ⊎ IsSafe engine at.listener (key_for at.listener s owner) c.names)
    resolve-IsSafe disk fresh {self} history at m env s c name e =
        served at s c (resolve psl engine at.listener at.pinned env self (some s)) m e (
          resolve-Answered psl engine at.listener at.pinned (respects_at at m) Good (lift at m) env
            self s (History-Inv history (record { cached = tt; stored = nothing disk fresh })) name)
