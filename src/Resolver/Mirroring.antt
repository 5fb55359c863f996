-- ===== src/Resolver/Mirroring.antt =====
-- src/resolver.rs, `record_upstream_sans` and `resolve`: both keep every certificate of the issuer
-- safe.
use sni_gate.Prelude.{
  ℕ, ◌≡◌, refl, subst, ◌∙◌, ◌⊎◌, inl, inr, true, List, Option, none, some, Result, ok, err, All,
  Bool-cases, Option-cases,
}
use sni_gate.Text.{Text}
use sni_gate.Text.Parts.{text_eq→eq}
use sni_gate.Suffix.{PublicSuffix, host_covered_by}
use sni_gate.Router.Build.{RegexEngine}
use sni_gate.Router.Matching.{match_host}
use sni_gate.Router.Confine.Sound.{Respects}
use sni_gate.Resolver.Clip.{Listener, normalize_host, scope_of, in_scope, clip}
use sni_gate.Resolver.Accounting.{clip-IsAccounted}
use sni_gate.Resolver.Confinement.{
  clip-IsRouted, match_host-normalize_host, normalize_host_of_IsHost,
}
use sni_gate.Resolver.Issue.{
  Certificate, CacheKey, Issuer, IssueError, Env, find, sign, key_for, pinned_for, certificate_for,
  resolve, certified, serve_or_issue, record_for, record_upstream_sans, mirrors,
}
use sni_gate.Resolver.Serving.{
  IsServerName, RoutedInto, IsSafe, Inv, Issued, key_for-IsSafe, sign-Inv, get_or_issue-Issued,
}

module _ (psl : PublicSuffix) (engine : RegexEngine) (listener : Listener)
    (pinned : List (Option Certificate))
    (respects : All (Respects engine) listener.router.regex) where
  mirrored-IsSafe :
      (s : Text) (owner : ℕ) (observed : List Text)
      → IsServerName s
      → match_host engine listener.router s ≡ some owner
      → IsSafe engine listener
          (key_for listener s owner)
          (clip psl engine listener (normalize_host s) owner observed).kept
  mirrored-IsSafe s owner observed name routed = record {
    covers =
        subst (λ h. host_covered_by (clip psl engine listener host owner observed).kept h ≡ true)
          again (clip-IsAccounted psl engine listener host owner observed).covers;
    confined = λ h i c. into_scope h (
        clip-IsRouted psl engine listener host owner observed h respects
          (match_host-normalize_host engine listener.router s name.0 ∙ routed) (rw again name.0)
          (rw again name.1) i c);
  }
    where
      host : Text
      host = normalize_host s

      again : normalize_host host ≡ host
      again = normalize_host_of_IsHost host name.0

      into_scope :
          (h : Text)
          → (id : ℕ) × (match_host engine listener.router h ≡ some id)
            × (in_scope listener owner id ≡ true)
          → RoutedInto engine listener (scope_of listener.scopes owner) h
      into_scope h (id, hit, same) = (id, hit, unfold in_scope in text_eq→eq _ _ same)

  -- The property holds of the names that are safe for a routed server name of this listener.
  module _ (Good : CacheKey → List Text → Type 0)
      (lift : (s : Text) (owner : ℕ) (names : List Text)
        → match_host engine listener.router s ≡ some owner
        → IsSafe engine listener (key_for listener s owner) names
        → Good (key_for listener s owner) names) where
    record_for-Inv :
        (env : Env) (self : Issuer) (s : Text) (observed : List Text) (owner : ℕ)
        (pin : Option Certificate)
        → Inv Good self
        → IsServerName s
        → match_host engine listener.router s ≡ some owner
        → Inv Good (record_for psl engine listener pinned env self s observed owner pin)
    record_for-Inv env self s observed owner (some pin) inv name routed = inv
    record_for-Inv env self s observed owner none inv name routed =
        elim (Bool-cases (mirrors observed (find key self.cache))) [
          | inl current ↦ rw current inv
          | inr changed ↦ elim (Option-cases (sign env self key kept (some observed))) [
            | inl failed ↦ rw (changed, failed) inv
            | inr ((self', c), e) ↦
                rw (changed, e)
                  (sign-Inv Good env self key kept (some observed) inv
                    (lift s owner kept routed (mirrored-IsSafe s owner observed name routed)) e).0
          ]
        ]
      where
        key : CacheKey
        key = key_for listener s owner

        kept : List Text
        kept = (clip psl engine listener (normalize_host s) owner observed).kept

    pub record_upstream_sans-Inv :
        (env : Env) (self : Issuer) (s : Text) (observed : List Text)
        → Inv Good self
        → IsServerName s
        → Inv Good (record_upstream_sans psl engine listener pinned env self s observed)
    unfolding record_upstream_sans
    record_upstream_sans-Inv env self s observed inv name =
        elim (Option-cases (match_host engine listener.router s)) [
          | inl unrouted ↦ rw unrouted inv
          | inr (owner, routed) ↦
              rw routed
                (record_for-Inv env self s observed owner (pinned_for pinned owner) inv name routed)
        ]

    -- What `resolve` answers for a server name: the pinned certificate of its route, or a safe one.
    abbrev pub Answered : Text → Issuer × Option Certificate → Type 0
    Answered s (self', none) = Inv Good self'
    Answered s (self', some c) =
        Inv Good self'
        × ((owner : ℕ) × (match_host engine listener.router s ≡ some owner)
            × ((pinned_for pinned owner ≡ some c) ⊎ Good (key_for listener s owner) c.names))

    certified-Answered :
        (s : Text) (owner : ℕ) (r : Issuer × Result Certificate IssueError)
        → match_host engine listener.router s ≡ some owner
        → Issued Good (key_for listener s owner) r
        → Answered s (certified psl engine listener pinned r)
    certified-Answered s owner (self', ok c) routed (inv, safe) = (inv, (owner, routed, inr safe))
    certified-Answered s owner (self', err e) routed inv = inv

    serve-Answered :
        (env : Env) (self : Issuer) (s : Text) (owner : ℕ) (pin : Option Certificate)
        → Inv Good self
        → IsServerName s
        → match_host engine listener.router s ≡ some owner
        → pinned_for pinned owner ≡ pin
        → Answered s (
            certified psl engine listener pinned
              (serve_or_issue psl engine listener pinned env self s owner pin))
    serve-Answered env self s owner (some pin) inv name routed e = (inv, (owner, routed, inl e))
    serve-Answered env self s owner none inv name routed e = certified-Answered s owner _ routed (
        get_or_issue-Issued Good env listener self s owner inv
          (lift s owner _ routed (key_for-IsSafe engine listener s owner name routed)))

    pub resolve-Answered :
        (env : Env) (self : Issuer) (s : Text)
        → Inv Good self
        → IsServerName s
        → Answered s (resolve psl engine listener pinned env self (some s))
    unfolding resolve certificate_for
    resolve-Answered env self s inv name =
        elim (Option-cases (match_host engine listener.router s)) [
          | inl unrouted ↦ rw unrouted inv
          | inr (owner, routed) ↦
              rw routed
                (serve-Answered env self s owner (pinned_for pinned owner) inv name routed refl)
        ]

    pub Answered-Inv : (s : Text) (r : Issuer × Option Certificate) → Answered s r → Inv Good r.0
    Answered-Inv s (self', none) a = a
    Answered-Inv s (self', some c) a = a.0
