-- ===== src/Config/Forms.antt =====
-- src/config.rs, `parse_upstream`, against the forms of an upstream.
use sni_gate.Prelude.{
  ℕ, ◌≡◌, refl, sym, ap, subst, ◌∙◌, ◌≢◌, ◌↔◌, inl, inr, true, false, [], ◌∷◌, ◌++◌, Option, none,
  some, all, Bool-cases, Option-cases,
}
use sni_gate.Text.{Text, codes, trim, contains, strip_prefix}
use sni_gate.Text.Parts.{Lacks, contains-false_iff, contains-append, strip_prefix-some}
use sni_gate.Text.Trimming.{trim-trim}
use sni_gate.Text.Numbers.{
  is_digit, parse_uint, rsplit_once, rsplit_once-some, rsplit_once-none, rsplit_once-append,
  rsplit_once_of_Lacks,
}
use sni_gate.Config.Upstream.{
  UpstreamHost, UpstreamSpec, parse_port, split_trimmed, split_host_port, pool_named,
  pool_reference, fixed_host, parse_plain, parse_trimmed, parse_upstream,
}
use sni_gate.Config.Spelling.{
  Unmarked, Addressed, host_port, v6_port, Spelled, only_pool, pool_port, only_port, host_with_port,
  only_host, parse_port_iff, strip_one-none, strip_one_of_Unmarked, port-Lacks,
  split_trimmed-Addressed, split_trimmed_of_Addressed,
}

pool_named-Spelled :
    (name : Text) (o : Option ℕ) {u : UpstreamSpec}
    → pool_named name o ≡ some u
    → (name ≢ []) × (u ≡ record { host = UpstreamHost.pool name; port = o })
pool_named-Spelled [] o h = cc
pool_named-Spelled (c ∷ s) o h = (λ e. cc, cc)

pool_named_of :
    (name : Text) (o : Option ℕ)
    → name ≢ []
    → pool_named name o ≡ some (record { host = UpstreamHost.pool name; port = o })
pool_named_of [] o ne = absurd (ne refl)
pool_named_of (c ∷ s) o ne = refl

pool_reference-Spelled :
    (rest : Text) {u : UpstreamSpec}
    → pool_reference rest (rsplit_once b':' rest) ≡ some u
    → Spelled (b'@' ∷ rest) u
pool_reference-Spelled rest {u = u} e = elim (Option-cases (rsplit_once b':' rest)) [
  | inl miss ↦
      let (ne, same) = pool_named-Spelled (trim rest) none (rw miss at e) in
      subst (Spelled (b'@' ∷ rest)) (sym same) (only_pool rest (rsplit_once-none b':' rest miss) ne)
  | inr ((name, port), hit) ↦ elim (Option-cases (parse_port port)) [
    | inl bad ↦ cc (rw (hit, bad) at e)
    | inr (n, k) ↦
        let (ne, same) = pool_named-Spelled (trim name) (some n) (rw (hit, k) at e) in
        let (parts, _) = rsplit_once-some b':' rest hit in
        subst (λ x. Spelled (b'@' ∷ x) u) (sym parts)
          (subst (Spelled (b'@' ∷ name ++ b':' ∷ port)) (sym same)
            (pool_port name port ne ((parse_port_iff port n).0 k)))
  ]
]

fixed_host-some :
    (o : Option (Text × ℕ)) {u : UpstreamSpec}
    → fixed_host o ≡ some u
    → (h : Text) × (n : ℕ) × (o ≡ some (h, n))
      × (u ≡ record { host = UpstreamHost.fixed h; port = some n })
fixed_host-some none e = cc
fixed_host-some (some (h, n)) e = (h, n, refl, cc)

agreed : {u v : UpstreamSpec} → Option.some u ≡ some v → u ≡ v
agreed h = cc

parse_plain-Spelled :
    (s : Text) {u : UpstreamSpec}
    → s ≢ []
    → trim s ≡ s
    → Unmarked b'@' s
    → parse_plain s ≡ some u
    → Spelled s u
unfolding split_host_port
parse_plain-Spelled s {u = u} ne trimmed um e = elim (Bool-cases (all is_digit s)) [
  | inl digits ↦ elim (Option-cases (parse_port s)) [
    | inl bad ↦ cc (rw (digits, bad) at e)
    | inr (n, k) ↦
        subst (Spelled s) (agreed (rw (digits, k) at e))
          (only_port s digits ((parse_port_iff s n).0 k))
  ]
  | inr other ↦ elim (Bool-cases (contains b':' s)) [
    | inl colon ↦
        let (h, n, split, same) =
          fixed_host-some (split_trimmed s) (rw (other, colon, trimmed) at e) in
        subst (Spelled s) (sym same) (host_with_port s h um (split_trimmed-Addressed s split))
    | inr bare ↦
        subst (Spelled s) (agreed (rw (other, bare) at e))
          (only_host s ne um ((contains-false_iff b':' s).0 bare) other)
  ]
]

all-Lacks : (c : ℕ) (s : Text) → is_digit c ≡ false → all is_digit s ≡ true → Lacks c s
all-Lacks c [] d h = tt
all-Lacks c (e ∷ s) d h = elim (Bool-cases (is_digit e)) [
  | inl digit ↦ (λ same. cc (ap is_digit same, digit, d), all-Lacks c s d (rw digit at h))
  | inr other ↦ cc (rw other at h)
]

Addressed-contains : {s h : Text} {n : ℕ} → Addressed s h n → contains b':' s ≡ true
unfolding contains
Addressed-contains (host_port host port ne um lacks k) =
    contains-append b':' host (b':' ∷ port) refl
Addressed-contains (v6_port v6 port lacks v k) =
    contains-append b':' (b'[' ∷ v6) (b']' ∷ b':' ∷ port) refl

-- No text with a colon is all digits.
not_digits : (s : Text) → contains b':' s ≡ true → all is_digit s ≡ false
not_digits s h = elim (Bool-cases (all is_digit s)) [
  | inr other ↦ other
  | inl digits ↦ cc ((contains-false_iff b':' s).1 (all-Lacks b':' s refl digits), h)
]

parse_trimmed_plain : (s : Text) → s ≢ [] → Unmarked b'@' s → parse_trimmed s ≡ parse_plain s
parse_trimmed_plain [] ne um = absurd (ne refl)
parse_trimmed_plain (c ∷ s) ne um = rw (strip_one_of_Unmarked b'@' (c ∷ s) um) refl

Addressed-nonempty : {s h : Text} {n : ℕ} → Addressed s h n → s ≢ []
Addressed-nonempty (host_port [] port ne um lacks k) = absurd (ne refl)
Addressed-nonempty (host_port (c ∷ host) port ne um lacks k) = λ e. cc
Addressed-nonempty (v6_port v6 port lacks v k) = λ e. cc

digits_nonempty : (s : Text) {n : ℕ} → parse_port s ≡ some n → s ≢ []
unfolding parse_uint
digits_nonempty [] h = cc
digits_nonempty (c ∷ s) h = λ e. cc

digits-Unmarked : (s : Text) → all is_digit s ≡ true → Unmarked b'@' s
digits-Unmarked [] h = tt
digits-Unmarked (c ∷ s) h = (all-Lacks b'@' (c ∷ s) refl h).0

parse_trimmed_of_Spelled :
    {s : Text} {u : UpstreamSpec} → trim s ≡ s → Spelled s u → parse_trimmed s ≡ some u
unfolding split_host_port
parse_trimmed_of_Spelled t (only_pool name lacks ne) =
    rw (rsplit_once_of_Lacks b':' name lacks) (pool_named_of (trim name) none ne)
parse_trimmed_of_Spelled t (pool_port name port {n = n} ne numeral) =
    let k = (parse_port_iff port n).1 numeral in
    rw (rsplit_once-append b':' name port (port-Lacks port k), k)
      (pool_named_of (trim name) (some n) ne)
parse_trimmed_of_Spelled t (only_port s {n = n} digits numeral) =
    let k = (parse_port_iff s n).1 numeral in
    parse_trimmed_plain s (digits_nonempty s k) (digits-Unmarked s digits) ∙ rw (digits, k) refl
parse_trimmed_of_Spelled t (host_with_port s h um a) =
    parse_trimmed_plain s (Addressed-nonempty a) um
    ∙ rw
        (not_digits s (Addressed-contains a), Addressed-contains a, t, split_trimmed_of_Addressed a)
        refl
parse_trimmed_of_Spelled t (only_host s ne um lacks other) =
    parse_trimmed_plain s ne um ∙ rw (other, (contains-false_iff b':' s).1 lacks) refl

parse_trimmed-Spelled :
    (s : Text) {u : UpstreamSpec} → trim s ≡ s → parse_trimmed s ≡ some u → Spelled s u
parse_trimmed-Spelled [] t h = cc
parse_trimmed-Spelled (c ∷ s) {u = u} t h = elim (Option-cases (strip_prefix (codes "@") (c ∷ s))) [
  | inl plain ↦
      parse_plain-Spelled (c ∷ s) (λ e. cc) t (strip_one-none b'@' (c ∷ s) plain) (rw plain at h)
  | inr (rest, at_sign) ↦
      subst (λ x. Spelled x u) (sym (strip_prefix-some (codes "@") (c ∷ s) at_sign))
        (pool_reference-Spelled rest (rw at_sign at h))
]

-- An upstream is accepted exactly when it is, trimmed, spelled in one of six ways, and means what they
-- say: a pool, a pool with a port, a port, a host or a bracketed IPv6 address with a port, or a host.
-- A host is any text without a colon, whatever its characters, that does not start with an at sign,
-- nor with a bracket in front of a port, and that is not made of digits where it stands alone. A port
-- is a decimal numeral below 65536, behind a plus or not; where it stands alone it has digits only.
pub parse_upstream_iff :
    (s : Text) (u : UpstreamSpec) → (parse_upstream s ≡ some u) ↔ Spelled (trim s) u
unfolding parse_upstream
parse_upstream_iff s u =
    (parse_trimmed-Spelled (trim s) (trim-trim s), parse_trimmed_of_Spelled (trim-trim s))
