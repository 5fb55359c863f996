-- ===== src/Config/Spelling.antt =====
-- src/config.rs: the forms of an upstream, and `split_host_port` against them.
use sni_gate.Prelude.{
  ℕ, ◌≡◌, refl, sym, ap, subst, ◌∙◌, ◌≢◌, ◌↔◌, inl, inr, Bool, true, false, ◌||◌, [], ◌∷◌, ◌++◌,
  Option, none, some, all, is_some, arith, Bool-cases, Option-cases,
}
use sni_gate.Text.{Text, codes, trim, contains, split_once, strip_prefix}
use sni_gate.Text.Parts.{
  Lacks, contains-false_iff, split_once-some, split_once-append, strip_prefix-some,
}
use sni_gate.Text.Decimal.{IsNumeral, parse_uint_iff}
use sni_gate.Text.Numbers.{
  is_digit, rsplit_once, rsplit_once-some, rsplit_once-append, parse_uint-Lacks,
}
use sni_gate.Ip.{parse_ipv6}
use sni_gate.Config.Upstream.{
  UpstreamHost, UpstreamSpec, parse_port, with_port, bracketed, is_empty, one_colon, split_trimmed,
}

-- A text whose first character is not the mark.
abbrev pub Unmarked : ℕ → Text → Type 0
Unmarked mark [] = Unit
Unmarked mark (c ∷ s) = c ≢ mark

-- A host with a port: a text without a colon, which does not start with a bracket, or an IPv6 address
-- in brackets, in front of a colon and a number of 16 bits.
pub data Addressed : Text → Text → ℕ → Type 0 where
  host_port :
      (host port : Text) {n : ℕ}
      → host ≢ []
      → Unmarked b'[' host
      → Lacks b':' host
      → IsNumeral 0x1_0000 port n
      → Addressed (host ++ b':' ∷ port) host n
  v6_port :
      (v6 port : Text) {n : ℕ}
      → Lacks b']' v6
      → is_some (parse_ipv6 v6) ≡ true
      → IsNumeral 0x1_0000 port n
      → Addressed (b'[' ∷ v6 ++ b']' ∷ b':' ∷ port) v6 n

-- A pool or a pool with a port behind an at sign, a port of digits only, a host with a port, or a host
-- alone: a text without a colon, not of digits only. A host does not start with an at sign.
pub data Spelled : Text → UpstreamSpec → Type 0 where
  only_pool :
      (name : Text)
      → Lacks b':' name
      → trim name ≢ []
      → Spelled (b'@' ∷ name) (record { host = UpstreamHost.pool (trim name); port = none })
  pool_port :
      (name port : Text) {n : ℕ}
      → trim name ≢ []
      → IsNumeral 0x1_0000 port n
      → Spelled
          (b'@' ∷ name ++ b':' ∷ port)
          (record { host = UpstreamHost.pool (trim name); port = some n })
  only_port :
      (s : Text) {n : ℕ}
      → all is_digit s ≡ true
      → IsNumeral 0x1_0000 s n
      → Spelled s (record { host = UpstreamHost.reflect; port = some n })
  host_with_port :
      (s host : Text) {n : ℕ}
      → Unmarked b'@' s
      → Addressed s host n
      → Spelled s (record { host = UpstreamHost.fixed host; port = some n })
  only_host :
      (s : Text)
      → s ≢ []
      → Unmarked b'@' s
      → Lacks b':' s
      → all is_digit s ≡ false
      → Spelled s (record { host = UpstreamHost.fixed s; port = none })

is_empty-false : (s : Text) → is_empty s ≡ false → s ≢ []
is_empty-false [] h = cc
is_empty-false (c ∷ s) h = λ e. cc

is_empty_of : (s : Text) → s ≢ [] → is_empty s ≡ false
is_empty_of [] h = absurd (h refl)
is_empty_of (c ∷ s) h = refl

with_port-some :
    (host : Text) (o : Option ℕ) {h : Text} {n : ℕ}
    → with_port host o ≡ some (h, n)
    → (o ≡ some n) × (host ≡ h)
with_port-some host none e = cc
with_port-some host (some m) e = (cc, cc)

pub strip_one-none : (mark : ℕ) (s : Text) → strip_prefix (mark ∷ []) s ≡ none → Unmarked mark s
strip_one-none mark [] h = tt
strip_one-none mark (c ∷ s) h = λ same. ground arith

pub strip_one_of_Unmarked :
    (mark : ℕ) (s : Text) → Unmarked mark s → strip_prefix (mark ∷ []) s ≡ none
strip_one_of_Unmarked mark [] h = refl
strip_one_of_Unmarked mark (c ∷ s) h = ground arith

Unmarked-append : (mark : ℕ) (s t : Text) → s ≢ [] → Unmarked mark s → Unmarked mark (s ++ t)
Unmarked-append mark [] t ne h = absurd (ne refl)
Unmarked-append mark (c ∷ s) t ne h = h

-- A port is what the standard library reads as a `u16`.
pub parse_port_iff : (port : Text) (n : ℕ) → (parse_port port ≡ some n) ↔ IsNumeral 0x1_0000 port n
parse_port_iff port n = parse_uint_iff 0x1_0000 port n (omega arith)

pub port-Lacks : (port : Text) {n : ℕ} → parse_port port ≡ some n → Lacks b':' port
port-Lacks port h = parse_uint-Lacks 0x1_0000 b':' port refl refl h

one_colon-Addressed :
    (s : Text) {h : Text} {n : ℕ}
    → Unmarked b'[' s
    → one_colon (rsplit_once b':' s) ≡ some (h, n)
    → Addressed s h n
one_colon-Addressed s {h = h} {n = n} um e = elim (Option-cases (rsplit_once b':' s)) [
  | inl miss ↦ cc (rw miss at e)
  | inr ((host, port), hit) ↦ elim (Bool-cases (is_empty host || contains b':' host)) [
    | inl bad ↦ cc (rw (hit, bad) at e)
    | inr good ↦
        let (k, same) = with_port-some host (parse_port port) (rw (hit, good) at e) in
        let (parts, _) = rsplit_once-some b':' s hit in
        let ok = neither (is_empty host) (contains b':' host) good in
        subst (λ x. Addressed s x n) same
          (subst (λ x. Addressed x host n) (sym parts)
            (host_port host port (is_empty-false host ok.0)
              (start host port (subst (Unmarked b'[') parts um) (is_empty-false host ok.0))
              ((contains-false_iff b':' host).0 ok.1) ((parse_port_iff port n).0 k)))
  ]
]
  where
    neither : (a b : Bool) → a || b ≡ false → (a ≡ false) × (b ≡ false)
    neither true b h = cc
    neither false b h = (refl, h)

    start :
        (host port : Text) → Unmarked b'[' (host ++ b':' ∷ port) → host ≢ [] → Unmarked b'[' host
    start [] port h ne = tt
    start (c ∷ host) port h ne = h

bracketed-Addressed :
    (rest : Text) {h : Text} {n : ℕ}
    → bracketed (split_once b']' rest) ≡ some (h, n)
    → Addressed (b'[' ∷ rest) h n
bracketed-Addressed rest {h = h} {n = n} e = elim (Option-cases (split_once b']' rest)) [
  | inl miss ↦ cc (rw miss at e)
  | inr ((v6, tail), hit) ↦ elim (Bool-cases (is_some (parse_ipv6 v6))) [
    | inr bad ↦ cc (rw (hit, bad) at e)
    | inl good ↦ elim (Option-cases (strip_prefix (codes ":") tail)) [
      | inl none' ↦ cc (rw (hit, good, none') at e)
      | inr (port, colon) ↦
          let (k, same) = with_port-some v6 (parse_port port) (rw (hit, good, colon) at e) in
          let (parts, lacks) = split_once-some b']' rest hit in
          subst (λ x. Addressed (b'[' ∷ rest) x n) same
            (subst (λ x. Addressed (b'[' ∷ x) v6 n)
              (sym (parts ∙ ap (λ t. v6 ++ b']' ∷ t) (strip_prefix-some (codes ":") tail colon)))
              (v6_port v6 port lacks good ((parse_port_iff port n).0 k)))
    ]
  ]
]

pub split_trimmed-Addressed :
    (s : Text) {h : Text} {n : ℕ} → split_trimmed s ≡ some (h, n) → Addressed s h n
split_trimmed-Addressed s {h = h} {n = n} e = elim (Option-cases (strip_prefix (codes "[") s)) [
  | inl plain ↦ one_colon-Addressed s (strip_one-none b'[' s plain) (rw plain at e)
  | inr (rest, bracket) ↦
      subst (λ x. Addressed x h n) (sym (strip_prefix-some (codes "[") s bracket))
        (bracketed-Addressed rest (rw bracket at e))
]

pub split_trimmed_of_Addressed :
    {s h : Text} {n : ℕ} → Addressed s h n → split_trimmed s ≡ some (h, n)
split_trimmed_of_Addressed (host_port host port {n = n} ne um lacks numeral) =
    let k = (parse_port_iff port n).1 numeral in
    rw
      (
        strip_one_of_Unmarked b'[' (host ++ b':' ∷ port)
            (Unmarked-append b'[' host (b':' ∷ port) ne um),
        rsplit_once-append b':' host port (port-Lacks port k),
        is_empty_of host ne,
        (contains-false_iff b':' host).1 lacks,
        k,
      )
      refl
split_trimmed_of_Addressed (v6_port v6 port {n = n} lacks v numeral) =
    let k = (parse_port_iff port n).1 numeral in
    rw (split_once-append b']' v6 (b':' ∷ port) lacks, v, k) refl
