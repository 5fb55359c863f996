-- ===== src/Resolver/Clip.antt =====
-- src/resolver.rs: `MirrorPlan`, `Drop`, `normalize_host` and `DynamicResolver::clip`.
use sni_gate.Prelude.{
  ℕ, zero, suc, Bool, ◌||◌, List, [], ◌∷◌, ◌++◌, Option, none, some, if◌then◌else◌, any, ok, err,
}
use sni_gate.Text.{
  Text, codes, text_eq, to_ascii_lowercase, trim, trim_end_dots, contains, strip_prefix,
}
use sni_gate.Ip.{is_ip_addr}
use sni_gate.Suffix.{PublicSuffix, SuffixList, wildcard_is_mintable, host_covered_by}
use sni_gate.Router.Build.{RegexEngine, Router}
use sni_gate.Router.Confine.{Escape, Confined, wildcard_confined, name_confined}

-- The part of a `DynamicResolver` that clipping reads: the list of the shared issuer, the routing
-- table of the listener, and the certificate scope of each route id.
pub record Listener : Type 0 where
  pub suffix : SuffixList
  pub router : Router
  pub scopes : List Text

pub data Drop : Type 0 where
  out_of_scope : Escape → Drop
  crosses_registry_boundary : Drop
  unmintable : Drop

pub record MirrorPlan : Type 0 where
  pub kept : List Text
  pub dropped : List (Text × Drop)

unfoldable pub normalize_host : Text → Text
unfolding trim trim_end_dots to_ascii_lowercase
normalize_host host = to_ascii_lowercase (trim_end_dots (trim host))

-- `self.scopes[id]`, which panics past the end: a route id of the router is an index of `scopes`.
unfoldable pub scope_of : List Text → ℕ → Text
scope_of [] id = []
scope_of (scope ∷ scopes) zero = scope
scope_of (scope ∷ scopes) (suc id) = scope_of scopes id

unfoldable pub in_scope : Listener → ℕ → ℕ → Bool
unfolding scope_of
in_scope self owner id = text_eq (scope_of self.scopes id) (scope_of self.scopes owner)

abbrev pub drop_unless_confined : Confined → Option Drop
drop_unless_confined (ok u) = none
drop_unless_confined (err escape) = some (out_of_scope escape)

abbrev pub holds : Text → List Text → Bool
holds name kept = any (λ k. text_eq k name) kept

abbrev pub push : MirrorPlan → Text → Option Drop → MirrorPlan
push plan name none = record plan { kept = plan.kept ++ name ∷ [] }
push plan name (some why) = record plan { dropped = plan.dropped ++ (name, why) ∷ [] }

abbrev pub keep_host : MirrorPlan → Text → MirrorPlan
keep_host plan host =
    if host_covered_by plan.kept host then plan else record plan { kept = plan.kept ++ host ∷ [] }

module _ (psl : PublicSuffix) (engine : RegexEngine) (self : Listener) (owner : ℕ) where
  abbrev pub judge_wildcard : Text → Option Drop
  judge_wildcard [] = some unmintable
  judge_wildcard (c ∷ parent) =
      if contains b'*' (c ∷ parent)
      then some unmintable
      else if wildcard_is_mintable psl self.suffix (c ∷ parent)
      then drop_unless_confined
          (wildcard_confined engine self.router (c ∷ parent) (in_scope self owner))
      else some crosses_registry_boundary

  abbrev pub judge_name : Text → Option Drop
  judge_name name =
      if contains b'*' name || is_ip_addr name
      then some unmintable
      else drop_unless_confined (name_confined engine self.router name (in_scope self owner))

  abbrev pub judge_by_prefix : Text → Option Text → Option Drop
  judge_by_prefix name (some parent) = judge_wildcard parent
  judge_by_prefix name none = judge_name name

  -- Why the name is dropped, if it is: the branches of the loop body.
  unfoldable pub verdict : Text → Option Drop
  unfolding contains wildcard_is_mintable wildcard_confined in_scope is_ip_addr name_confined
  verdict name = judge_by_prefix name (strip_prefix (codes "*.") name)

  abbrev pub clip_name : MirrorPlan → Text → MirrorPlan
  clip_name plan [] = plan
  clip_name plan (c ∷ name) =
      if holds (c ∷ name) plan.kept then plan else push plan (c ∷ name) (verdict (c ∷ name))

  unfoldable pub clip_loop : MirrorPlan → List Text → MirrorPlan
  unfolding normalize_host verdict
  clip_loop plan [] = plan
  clip_loop plan (san ∷ observed) = clip_loop (clip_name plan (normalize_host san)) observed

abbrev pub no_names : MirrorPlan
no_names = record { kept = []; dropped = [] }

unfoldable pub clip : PublicSuffix → RegexEngine → Listener → Text → ℕ → List Text → MirrorPlan
unfolding normalize_host clip_loop host_covered_by
clip psl engine self sni_host owner observed =
    keep_host (clip_loop psl engine self owner no_names observed) (normalize_host sni_host)
