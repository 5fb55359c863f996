-- ===== src/CertScope/Plain.antt =====
-- Without a semicolon in the texts of an identity there is none in the parts of its canonical form.
use sni_gate.Prelude.{
  ℕ, zero, suc, ◌/◌, ◌%◌, ◌≡◌, refl, ◌≢◌, inl, inr, Bool, true, false, List, [], ◌∷◌, ◌++◌, Option,
  none, some, arith, ltb, ltb-true, Bool-cases, All, All-append,
}
use sni_gate.Text.{Text, codes, contains, sort}
use sni_gate.Text.Parts.{Lacks, contains-false_iff}
use sni_gate.Text.Sorting.{sort-All}
use sni_gate.Text.Printing.{digit, decimal_digits, decimal, hex, join, concat}
use sni_gate.Config.Tables.{RouteType, SniPolicy, AddressFamily, EchMode, VerifyMode}
use sni_gate.Config.Coherence.{Whenever}
use sni_gate.CertScope.{
  UpstreamIdentity, direct, pool, EchIdentity, Forwarding, route_type_str, sni_str, family_str,
  ech_mode_str, mode_str, bool_str, or_dash, verify_pieces, canonical_verify, ech_pieces, ech_str,
  host_str, upstream_parts, parts,
}

-- No semicolon.
abbrev pub IsPlain : Text → Type 0
IsPlain = Lacks b';'

-- The texts of an identity come from the configuration; none of them has a semicolon.
abbrev pub IsPlainUpstream : UpstreamIdentity → Type 0
IsPlainUpstream (direct host family nat64 addr_resolver) =
    Whenever IsPlain host × Whenever IsPlain nat64 × IsPlain addr_resolver
IsPlainUpstream (pool name) = IsPlain name

abbrev pub IsPlainSni : SniPolicy → Type 0
IsPlainSni SniPolicy.reflect = Unit
IsPlainSni SniPolicy.omit = Unit
IsPlainSni (SniPolicy.fixed name) = IsPlain name

pub record IsPlainForwarding (f : Forwarding) : Type 0 where
  pub upstream : IsPlainUpstream f.upstream
  pub sni : IsPlainSni f.sni
  pub ech : Whenever (λ (e : EchIdentity). Whenever IsPlain e.domain × IsPlain e.resolver) f.ech
  pub name : Whenever IsPlain f.verify.name
  pub pins : All IsPlain f.verify.pins
  pub ca_file : Whenever IsPlain f.verify.ca_file

pub literal : (s : Text) → contains b';' s ≡ false → IsPlain s
literal s = (contains-false_iff b';' s).0

both : (s t : Text) → IsPlain s → IsPlain t → IsPlain (s ++ t)
both = All-append (λ d. d ≢ b';')

dashed : (o : Option Text) → Whenever IsPlain o → IsPlain (or_dash o)
unfolding contains
dashed none h = literal (codes "-") refl
dashed (some s) h = h

digit-ne : (d : ℕ) → digit d ≢ b';'
digit-ne d h = ground arith

hex-IsPlain : (width n : ℕ) → IsPlain (hex width n)
unfolding hex
hex-IsPlain zero n = tt
hex-IsPlain (suc width) n = both _ _ (hex-IsPlain width (n / 16)) (digit-ne (n % 16), tt)

decimal_digits-IsPlain : (fuel n : ℕ) → IsPlain (decimal_digits fuel n)
unfolding decimal_digits
decimal_digits-IsPlain zero n = (digit-ne (n % 10), tt)
decimal_digits-IsPlain (suc fuel) n = elim (Bool-cases (ltb n 10)) [
  | inl small ↦ rw (decimal_digits, small) ((λ e. omega (arith, e, ltb-true n 10 small)), tt)
  | inr large ↦
      rw (decimal_digits, large)
        (both _ _ (decimal_digits-IsPlain fuel (n / 10)) (digit-ne (n % 10), tt))
]

join-IsPlain : (ts : List Text) → All IsPlain ts → IsPlain (join (codes ",") ts)
unfolding join contains
join-IsPlain [] h = tt
join-IsPlain (t ∷ []) h = h.0
join-IsPlain (t ∷ u ∷ ts) h =
    both (t ++ codes ",") _ (both t _ h.0 (literal (codes ",") refl)) (join-IsPlain (u ∷ ts) h.1)

route_type-IsPlain : (t : RouteType) → IsPlain (route_type_str t)
unfolding contains
route_type-IsPlain RouteType.ech = literal (codes "ech") refl
route_type-IsPlain RouteType.tls = literal (codes "tls") refl
route_type-IsPlain RouteType.http = literal (codes "http") refl
route_type-IsPlain RouteType.raw = literal (codes "raw") refl

bool-IsPlain : (b : Bool) → IsPlain (bool_str b)
unfolding contains
bool-IsPlain true = literal (codes "true") refl
bool-IsPlain false = literal (codes "false") refl

family-IsPlain : (t : AddressFamily) → IsPlain (family_str t)
unfolding contains
family-IsPlain AddressFamily.dual = literal (codes "Dual") refl
family-IsPlain AddressFamily.ipv4 = literal (codes "Ipv4") refl
family-IsPlain AddressFamily.ipv6 = literal (codes "Ipv6") refl

ech_mode-IsPlain : (t : EchMode) → IsPlain (ech_mode_str t)
unfolding contains
ech_mode-IsPlain EchMode.doh = literal (codes "Doh") refl
ech_mode-IsPlain EchMode.static = literal (codes "Static") refl
ech_mode-IsPlain EchMode.doh_with_fallback = literal (codes "DohWithFallback") refl

mode-IsPlain : (t : VerifyMode) → IsPlain (mode_str t)
unfolding contains
mode-IsPlain VerifyMode.full = literal (codes "full") refl
mode-IsPlain VerifyMode.chain = literal (codes "chain") refl
mode-IsPlain VerifyMode.none = literal (codes "none") refl

sni-IsPlain : (p : SniPolicy) → IsPlainSni p → IsPlain (sni_str p)
unfolding contains
sni-IsPlain SniPolicy.reflect h = literal (codes "reflect") refl
sni-IsPlain SniPolicy.omit h = literal (codes "omit") refl
sni-IsPlain (SniPolicy.fixed name) h = both (codes "fixed:") name (literal (codes "fixed:") refl) h

-- A name and a value.
field : (name value : Text) → contains b';' name ≡ false → IsPlain value → IsPlain (name ++ value)
field name value clear h = both name value (literal name clear) h

concat-IsPlain : (ts : List Text) → All IsPlain ts → IsPlain (concat ts)
unfolding concat
concat-IsPlain [] h = tt
concat-IsPlain (t ∷ ts) h = both t (concat ts) h.0 (concat-IsPlain ts h.1)

verify-IsPlain : (f : Forwarding) → IsPlainForwarding f → IsPlain (canonical_verify f.verify)
unfolding canonical_verify contains
verify-IsPlain f h = concat-IsPlain (verify_pieces f.verify) (
  literal (codes "mode:") refl,
  (
    mode-IsPlain f.verify.mode,
    (
      literal (codes ",name:") refl,
      (
        dashed f.verify.name h.name,
        (
          literal (codes ",pins:[") refl,
          (
            join-IsPlain (sort f.verify.pins) (sort-All IsPlain f.verify.pins h.pins),
            (
              literal (codes "],ca:") refl,
              (
                dashed f.verify.ca_file h.ca_file,
                (literal (codes ",webpki:") refl, (bool-IsPlain f.verify.trust_webpki, tt)),
              ),
            ),
          ),
        ),
      ),
    ),
  ),
)

ech-IsPlain :
    (o : Option EchIdentity)
    → Whenever (λ (e : EchIdentity). Whenever IsPlain e.domain × IsPlain e.resolver) o
    → IsPlain (ech_str o)
unfolding ech_str contains
ech-IsPlain none h = literal (codes "-") refl
ech-IsPlain (some e) (domain, resolver) = concat-IsPlain (ech_pieces e) (
  literal (codes "mode:") refl,
  (
    ech_mode-IsPlain e.mode,
    (
      literal (codes ",domain:") refl,
      (
        dashed e.domain domain,
        (
          literal (codes ",resolver:") refl,
          (resolver, (literal (codes ",inline:") refl, (bool-IsPlain e.inline_config, tt))),
        ),
      ),
    ),
  ),
)

host-IsPlain : (o : Option Text) → Whenever IsPlain o → IsPlain (host_str o)
unfolding contains
host-IsPlain none h = literal (codes "reflect") refl
host-IsPlain (some s) h = h

upstream-IsPlain : (u : UpstreamIdentity) → IsPlainUpstream u → All IsPlain (upstream_parts u)
unfolding contains
upstream-IsPlain (direct host family nat64 addr_resolver) (h, n, a) = (
  field (codes "host=") _ refl (host-IsPlain host h),
  (
    field (codes "family=") _ refl (family-IsPlain family),
    (field (codes "nat64=") _ refl (dashed nat64 n), (field (codes "addr_resolver=") _ refl a, tt)),
  ),
)
upstream-IsPlain (pool name) h = (field (codes "pool=") name refl h, tt)

pub parts-IsPlain :
    (router_fp : ℕ) (f : Forwarding) → IsPlainForwarding f → All IsPlain (parts router_fp f)
unfolding parts contains decimal
parts-IsPlain router_fp f h = (
  field (codes "router=") (hex 16 router_fp) refl (hex-IsPlain 16 router_fp),
  (
    field (codes "type=") _ refl (route_type-IsPlain f.route_type),
    All-append IsPlain (upstream_parts f.upstream) _ (upstream-IsPlain f.upstream h.upstream) (
      field (codes "port=") (decimal f.port) refl (decimal_digits-IsPlain f.port f.port),
      (
        field (codes "sni=") _ refl (sni-IsPlain f.sni h.sni),
        (
          field (codes "ech=") (ech_str f.ech) refl (ech-IsPlain f.ech h.ech),
          (field (codes "verify=") (canonical_verify f.verify) refl (verify-IsPlain f h), tt),
        ),
      ),
    ),
  ),
)
