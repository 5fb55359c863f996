-- ===== src/CertScope/Separation.antt =====
-- Which forwarding identities the canonical form tells apart.
use sni_gate.Prelude.{
  ℕ, ◌^◌, ◌<◌, ◌≡◌, refl, sym, ap, ◌∙◌, List, [], ◌∷◌, ◌++◌, Option, some, arith, All,
}
use sni_gate.Text.{Text, codes, split_once}
use sni_gate.Text.Parts.{split_once-append}
use sni_gate.Text.Printing.{decimal, hex, hex-eq, decimal-eq}
use sni_gate.Config.Tables.{RouteType, SniPolicy, AddressFamily}
use sni_gate.CertScope.Plain.{IsPlain, IsPlainForwarding, parts-IsPlain}
use sni_gate.CertScope.{
  UpstreamIdentity, direct, pool, Forwarding, route_type_str, sni_str, family_str, or_dash,
  canonical_verify, ech_str, host_str, upstream_parts, parts, terminated, canonical,
}

-- Up to the first semicolon.
cut : (a b s t : Text) → IsPlain a → IsPlain b → a ++ b';' ∷ s ≡ b ++ b';' ∷ t → (a ≡ b) × (s ≡ t)
cut a b s t ha hb h =
    let e : ◌≡◌ {A = Option (Text × Text)} (some (a, s)) (some (b, t)) =
      sym (split_once-append b';' a s ha)
      ∙ ap (split_once b';') h
      ∙ split_once-append b';' b t hb in
    (cc, cc)

not_ended : (t s : Text) → ¬ ([] ≡ t ++ b';' ∷ s)
not_ended [] s h = cc
not_ended (c ∷ t) s h = cc

terminated-eq :
    (xs ys : List Text) → All IsPlain xs → All IsPlain ys → terminated xs ≡ terminated ys → xs ≡ ys
unfolding terminated
terminated-eq [] [] hx hy h = refl
terminated-eq [] (y ∷ ys) hx hy h = absurd (not_ended y (terminated ys) h)
terminated-eq (x ∷ xs) [] hx hy h = absurd (not_ended x (terminated xs) (sym h))
terminated-eq (x ∷ xs) (y ∷ ys) hx hy h =
    let (first, rest) = cut x y (terminated xs) (terminated ys) hx.0 hy.0 h in
    let ih = terminated-eq xs ys hx.1 hy.1 rest in cc

behind : (p a b : Text) → p ++ a ≡ p ++ b → a ≡ b
behind [] a b h = h
behind (c ∷ p) a b h = behind p a b cc

route_type-eq : (a b : RouteType) → route_type_str a ≡ route_type_str b → a ≡ b
route_type-eq RouteType.ech RouteType.ech h = refl
route_type-eq RouteType.ech RouteType.tls h = ground arith
route_type-eq RouteType.ech RouteType.http h = ground arith
route_type-eq RouteType.ech RouteType.raw h = ground arith
route_type-eq RouteType.tls RouteType.ech h = ground arith
route_type-eq RouteType.tls RouteType.tls h = refl
route_type-eq RouteType.tls RouteType.http h = ground arith
route_type-eq RouteType.tls RouteType.raw h = ground arith
route_type-eq RouteType.http RouteType.ech h = ground arith
route_type-eq RouteType.http RouteType.tls h = ground arith
route_type-eq RouteType.http RouteType.http h = refl
route_type-eq RouteType.http RouteType.raw h = ground arith
route_type-eq RouteType.raw RouteType.ech h = ground arith
route_type-eq RouteType.raw RouteType.tls h = ground arith
route_type-eq RouteType.raw RouteType.http h = ground arith
route_type-eq RouteType.raw RouteType.raw h = refl

family-eq : (a b : AddressFamily) → family_str a ≡ family_str b → a ≡ b
family-eq AddressFamily.dual AddressFamily.dual h = refl
family-eq AddressFamily.dual AddressFamily.ipv4 h = ground arith
family-eq AddressFamily.dual AddressFamily.ipv6 h = ground arith
family-eq AddressFamily.ipv4 AddressFamily.dual h = ground arith
family-eq AddressFamily.ipv4 AddressFamily.ipv4 h = refl
family-eq AddressFamily.ipv4 AddressFamily.ipv6 h = ground arith
family-eq AddressFamily.ipv6 AddressFamily.dual h = ground arith
family-eq AddressFamily.ipv6 AddressFamily.ipv4 h = ground arith
family-eq AddressFamily.ipv6 AddressFamily.ipv6 h = refl

sni-eq : (a b : SniPolicy) → sni_str a ≡ sni_str b → a ≡ b
sni-eq SniPolicy.reflect SniPolicy.reflect h = refl
sni-eq SniPolicy.reflect SniPolicy.omit h = ground arith
sni-eq SniPolicy.reflect (SniPolicy.fixed b) h = ground arith
sni-eq SniPolicy.omit SniPolicy.reflect h = ground arith
sni-eq SniPolicy.omit SniPolicy.omit h = refl
sni-eq SniPolicy.omit (SniPolicy.fixed b) h = ground arith
sni-eq (SniPolicy.fixed a) SniPolicy.reflect h = ground arith
sni-eq (SniPolicy.fixed a) SniPolicy.omit h = ground arith
sni-eq (SniPolicy.fixed a) (SniPolicy.fixed b) h =
    ap SniPolicy.fixed (behind (codes "fixed:") a b h)

-- The same destination, as far as `canonical` writes it: no host is written as `reflect`, and no
-- NAT64 prefix as a dash.
abbrev pub SameUpstream : UpstreamIdentity → UpstreamIdentity → Type 0
SameUpstream (direct h f n a) (direct h' f' n' a') =
    (host_str h ≡ host_str h') × (f ≡ f') × (or_dash n ≡ or_dash n') × (a ≡ a')
SameUpstream (pool name) (pool name') = name ≡ name'
SameUpstream _ _ = ⊥

abbrev pub SameForwarding : Forwarding → Forwarding → Type 0
SameForwarding f g =
    (f.route_type ≡ g.route_type)
    × SameUpstream f.upstream g.upstream
    × (f.port ≡ g.port)
    × (f.sni ≡ g.sni)
    × (ech_str f.ech ≡ ech_str g.ech)
    × (canonical_verify f.verify ≡ canonical_verify g.verify)

-- The last parts, behind those of the upstream.
abbrev ends : Forwarding → List Text
ends f =
    (codes "port=" ++ decimal f.port)
    ∷ (codes "sni=" ++ sni_str f.sni)
    ∷ (codes "ech=" ++ ech_str f.ech)
    ∷ (codes "verify=" ++ canonical_verify f.verify)
    ∷ []

ends-eq :
    (f g : Forwarding)
    → ends f ≡ ends g
    → (f.port ≡ g.port)
      × (f.sni ≡ g.sni)
      × (ech_str f.ech ≡ ech_str g.ech)
      × (canonical_verify f.verify ≡ canonical_verify g.verify)
ends-eq f g h = (
  decimal-eq f.port g.port (behind (codes "port=") _ _ cc),
  sni-eq f.sni g.sni (behind (codes "sni=") _ _ cc),
  behind (codes "ech=") (ech_str f.ech) (ech_str g.ech) cc,
  behind (codes "verify=") (canonical_verify f.verify) (canonical_verify g.verify) cc,
)

not_a_pool : (a b : Text) → ¬ (codes "host=" ++ a ≡ codes "pool=" ++ b)
not_a_pool a b h = ground arith

upstream-eq :
    (u v : UpstreamIdentity) (f g : Forwarding)
    → upstream_parts u ++ ends f ≡ upstream_parts v ++ ends g
    → SameUpstream u v × (ends f ≡ ends g)
upstream-eq (direct h a n r) (direct h' a' n' r') f g e = (
  (
    behind (codes "host=") (host_str h) (host_str h') cc,
    family-eq a a' (behind (codes "family=") (family_str a) (family_str a') cc),
    behind (codes "nat64=") (or_dash n) (or_dash n') cc,
    behind (codes "addr_resolver=") r r' cc,
  ),
  cc,
)
upstream-eq (pool name) (pool name') f g e = (behind (codes "pool=") name name' cc, cc)
upstream-eq (direct h a n r) (pool name) f g e = absurd (not_a_pool (host_str h) name cc)
upstream-eq (pool name) (direct h a n r) f g e = absurd (not_a_pool (host_str h) name (sym cc))

-- Without semicolons in the texts of two identities, equal canonical forms come from the same
-- routing table and from identities that agree in everything that is written.
pub canonical-SameForwarding :
    (fp fp' : ℕ) (f g : Forwarding)
    → fp < 2 ^ 64
    → fp' < 2 ^ 64
    → IsPlainForwarding f
    → IsPlainForwarding g
    → canonical fp f ≡ canonical fp' g
    → (fp ≡ fp') × SameForwarding f g
unfolding canonical parts
canonical-SameForwarding fp fp' f g small small' hf hg h =
    let same : parts fp f ≡ parts fp' g =
      terminated-eq (parts fp f) (parts fp' g) (parts-IsPlain fp f hf) (parts-IsPlain fp' g hg) h in
    let (up, rest) = upstream-eq f.upstream g.upstream f g cc in
    let (port, sni, ech, verify) = ends-eq f g rest in
    (
      hex-eq 16 fp fp' small small' (behind (codes "router=") (hex 16 fp) (hex 16 fp') cc),
      (
        route_type-eq f.route_type g.route_type
            (behind (codes "type=") (route_type_str f.route_type) (route_type_str g.route_type) cc),
        up,
        port,
        sni,
        ech,
        verify,
      ),
    )
