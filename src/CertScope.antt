-- ===== src/CertScope.antt =====
-- src/certscope.rs: the key of a certificate scope, `EffectiveVerify::canonical` of src/config.rs,
-- and the fingerprint of a routing table. A `u64` wraps at 2 ^ 64.
pub mod Plain
pub mod Separation
pub mod Component
pub mod Reordering
mod Tests
use sni_gate.Prelude.{
  ℕ, suc, ◌*◌, ◌%◌, ◌^◌, Bool, true, false, ◌||◌, List, [], ◌∷◌, ◌++◌, Option, none, some, ◌==◌,
  if◌then◌else◌,
}
use sni_gate.Prelude.Tiers.{unwrap_or}
use sni_gate.Text.{Text, codes, text_leb, trim_start_by, trim_end_by, ends_with, sort}
use sni_gate.Text.Printing.{decimal, hex, join, concat, as_bytes}
use sni_gate.Router.Table.{HashMap}
use sni_gate.Router.Build.{RegexDef}
use sni_gate.Config.Scope.{is_alphanumeric}
use sni_gate.Config.Tables.{RouteType, SniPolicy, AddressFamily, EchMode, VerifyMode}
use sni_gate.Config.Verify.{EffectiveVerify}
use Prim.Native.Nat.{bit_xor}

pub data UpstreamIdentity : Type 0 where
  direct :
      (host : Option Text) (family : AddressFamily) (nat64 : Option Text) (addr_resolver : Text)
      → UpstreamIdentity
  pool : (name : Text) → UpstreamIdentity

pub record EchIdentity : Type 0 where
  pub mode : EchMode
  pub domain : Option Text
  pub resolver : Text
  pub inline_config : Bool

pub record Forwarding : Type 0 where
  pub route_type : RouteType
  pub upstream : UpstreamIdentity
  pub port : ℕ
  pub sni : SniPolicy
  pub ech : Option EchIdentity
  pub verify : EffectiveVerify

-- `REFLECT`.
abbrev pub reflect_host : Text
reflect_host = codes "reflect"

abbrev pub route_type_str : RouteType → Text
route_type_str RouteType.ech = codes "ech"
route_type_str RouteType.tls = codes "tls"
route_type_str RouteType.http = codes "http"
route_type_str RouteType.raw = codes "raw"

abbrev pub sni_str : SniPolicy → Text
sni_str SniPolicy.reflect = codes "reflect"
sni_str SniPolicy.omit = codes "omit"
sni_str (SniPolicy.fixed name) = codes "fixed:" ++ name

-- The `Debug` forms.
abbrev pub family_str : AddressFamily → Text
family_str AddressFamily.dual = codes "Dual"
family_str AddressFamily.ipv4 = codes "Ipv4"
family_str AddressFamily.ipv6 = codes "Ipv6"

abbrev pub ech_mode_str : EchMode → Text
ech_mode_str EchMode.doh = codes "Doh"
ech_mode_str EchMode.static = codes "Static"
ech_mode_str EchMode.doh_with_fallback = codes "DohWithFallback"

abbrev pub mode_str : VerifyMode → Text
mode_str VerifyMode.full = codes "full"
mode_str VerifyMode.chain = codes "chain"
mode_str VerifyMode.none = codes "none"

abbrev pub bool_str : Bool → Text
bool_str true = codes "true"
bool_str false = codes "false"

-- `unwrap_or("-")`.
abbrev pub or_dash : Option Text → Text
or_dash = unwrap_or (codes "-")

abbrev pub verify_pieces : EffectiveVerify → List Text
verify_pieces v =
    codes "mode:"
    ∷ mode_str v.mode
    ∷ codes ",name:"
    ∷ or_dash v.name
    ∷ codes ",pins:["
    ∷ join (codes ",") (sort v.pins)
    ∷ codes "],ca:"
    ∷ or_dash v.ca_file
    ∷ codes ",webpki:"
    ∷ bool_str v.trust_webpki
    ∷ []

unfoldable pub canonical_verify : EffectiveVerify → Text
unfolding sort join concat
canonical_verify v = concat (verify_pieces v)

abbrev pub ech_pieces : EchIdentity → List Text
ech_pieces e =
    codes "mode:"
    ∷ ech_mode_str e.mode
    ∷ codes ",domain:"
    ∷ or_dash e.domain
    ∷ codes ",resolver:"
    ∷ e.resolver
    ∷ codes ",inline:"
    ∷ bool_str e.inline_config
    ∷ []

unfoldable pub ech_str : Option EchIdentity → Text
unfolding concat
ech_str none = codes "-"
ech_str (some e) = concat (ech_pieces e)

abbrev pub host_str : Option Text → Text
host_str = unwrap_or reflect_host

-- The parts that `canonical` pushes, each of which it ends with a semicolon.
abbrev pub upstream_parts : UpstreamIdentity → List Text
upstream_parts (direct host family nat64 addr_resolver) =
    (codes "host=" ++ host_str host)
    ∷ (codes "family=" ++ family_str family)
    ∷ (codes "nat64=" ++ or_dash nat64)
    ∷ (codes "addr_resolver=" ++ addr_resolver)
    ∷ []
upstream_parts (pool name) = (codes "pool=" ++ name) ∷ []

unfoldable pub parts : ℕ → Forwarding → List Text
unfolding hex decimal canonical_verify ech_str
parts router_fp f =
    (codes "router=" ++ hex 16 router_fp)
    ∷ (codes "type=" ++ route_type_str f.route_type)
    ∷ (upstream_parts f.upstream
        ++ (codes "port=" ++ decimal f.port)
          ∷ (codes "sni=" ++ sni_str f.sni)
          ∷ (codes "ech=" ++ ech_str f.ech)
          ∷ (codes "verify=" ++ canonical_verify f.verify)
          ∷ [])

unfoldable pub terminated : List Text → Text
terminated [] = []
terminated (t ∷ ts) = t ++ b';' ∷ terminated ts

unfoldable pub canonical : ℕ → Forwarding → Text
unfolding terminated parts
canonical router_fp f = terminated (parts router_fp f)

abbrev pub is_safe : ℕ → Bool
is_safe c = is_alphanumeric c || c == b'.' || c == b'-'

-- The loop of `sanitize`; `out` is what was pushed so far.
unfoldable pub sanitize_from : Text → Text → Text
unfolding ends_with
sanitize_from out [] = out
sanitize_from out (c ∷ s) =
    sanitize_from
      (if is_safe c
        then out ++ c ∷ []
        else if ends_with (codes "_") out
        then out
        else out ++ b'_' ∷ [])
      s

abbrev pub or_underscore : Text → Text
or_underscore [] = codes "_"
or_underscore (c ∷ s) = c ∷ s

abbrev pub is_dot : ℕ → Bool
is_dot c = c == b'.'

unfoldable pub sanitize : Text → Text
unfolding sanitize_from trim_start_by trim_end_by
sanitize s = or_underscore (trim_end_by is_dot (trim_start_by is_dot (sanitize_from [] s)))

abbrev pub fnv_offset : ℕ
fnv_offset = 0xcbf2_9ce4_8422_2325

abbrev pub fnv_prime : ℕ
fnv_prime = 0x0000_0100_0000_01b3

unfoldable pub fnv1a_from : ℕ → List ℕ → ℕ
fnv1a_from h [] = h
fnv1a_from h (b ∷ bytes) = fnv1a_from (bit_xor h b * fnv_prime % 2 ^ 64) bytes

unfoldable pub fnv1a : List ℕ → ℕ
unfolding fnv1a_from
fnv1a bytes = fnv1a_from fnv_offset bytes

abbrev pub host_of : UpstreamIdentity → Text
host_of (direct host family nat64 addr_resolver) = host_str host
host_of (pool name) = codes "pool." ++ name

-- `CertScope::new`, the key of the scope.
unfoldable pub new : ℕ → Forwarding → Text
unfolding sanitize fnv1a canonical as_bytes decimal hex
new router_fp f =
    sanitize (
      route_type_str f.route_type ++ codes "_" ++ host_of f.upstream ++ codes "_" ++ decimal f.port)
    ++ codes "-"
    ++ hex 16 (fnv1a (as_bytes (canonical router_fp f)))

unfoldable pub route_parts : ℕ → List (List Text) → Text
unfolding sort join decimal
route_parts id [] = []
route_parts id (pats ∷ patterns) =
    decimal id
    ++ codes "="
    ++ join (codes ",") (sort pats)
    ++ codes ";"
    ++ route_parts (suc id) patterns

abbrev pub default_str : Option ℕ → Text
unfolding decimal
default_str none = codes "none"
default_str (some id) = decimal id

unfoldable pub insert_entry : {V : Type 0} → Text × V → List (Text × V) → List (Text × V)
insert_entry (k, v) [] = (k, v) ∷ []
insert_entry (k, v) ((j, w) ∷ m) =
    if text_leb k j then (k, v) ∷ (j, w) ∷ m else (j, w) ∷ insert_entry (k, v) m

-- `sort_by_key` on the names, which are all different.
unfoldable pub sort_entries : {V : Type 0} → List (Text × V) → List (Text × V)
unfolding insert_entry
sort_entries [] = []
sort_entries (e ∷ m) = insert_entry e (sort_entries m)

unfoldable pub regex_parts : List (Text × RegexDef) → Text
unfolding sort join
regex_parts [] = []
regex_parts ((name, def) ∷ m) =
    name
    ++ codes ":"
    ++ def.pattern
    ++ codes "["
    ++ join (codes ",") (sort def.scope_suffix)
    ++ codes "];"
    ++ regex_parts m

abbrev pub regexes_str : HashMap RegexDef → Text
unfolding regex_parts sort_entries
regexes_str [] = []
regexes_str (e ∷ m) = codes ";regexes={" ++ regex_parts (sort_entries (e ∷ m)) ++ codes "}"

unfoldable pub router_fingerprint : List (List Text) → Option ℕ → HashMap RegexDef → ℕ
unfolding route_parts default_str decimal regexes_str regex_parts sort_entries fnv1a as_bytes
router_fingerprint patterns default regexes = fnv1a (
    as_bytes
      (route_parts 0 patterns ++ codes "default=" ++ default_str default ++ regexes_str regexes))
