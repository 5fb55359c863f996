-- ===== src/CertScope/Component.antt =====
-- The key of a certificate scope is one component of a path.
use sni_gate.Prelude.{
  ℕ, zero, suc, ◌/◌, ◌%◌, ◌≡◌, refl, ap, ◌≢◌, inl, inr, Bool, true, false, ◌||◌, [], ◌∷◌, ◌++◌,
  arith, ◌==◌, if◌then◌else◌, Bool-cases, All, All-append,
}
use sni_gate.Text.{Text, codes, keep_unless, trim_start_by, trim_end_by, ends_with}
use sni_gate.Text.Printing.{digit, hex, decimal, as_bytes}
use sni_gate.CertScope.{
  Forwarding, is_safe, is_dot, sanitize_from, or_underscore, sanitize, host_of, route_type_str,
  fnv1a, canonical, new,
}

-- A letter, a digit, a dot, a dash or an underscore.
abbrev pub IsSafe : ℕ → Type 0
IsSafe c = is_safe c || c == b'_' ≡ true

-- Not empty, without a separator, and neither hidden nor a way to the directory above.
pub record IsComponent (s : Text) : Type 0 where
  pub safe : All IsSafe s
  pub visible : (c : ℕ) × (rest : Text) × (s ≡ c ∷ rest) × (c ≢ b'.')

sanitize_from-IsSafe : (s out : Text) → All IsSafe out → All IsSafe (sanitize_from out s)
unfolding sanitize_from
sanitize_from-IsSafe [] out h = h
sanitize_from-IsSafe (c ∷ s) out h = sanitize_from-IsSafe s _ (pushed (is_safe c) refl)
  where
    pushed :
        (b : Bool)
        → is_safe c ≡ b
        → All IsSafe (
            if b
            then out ++ c ∷ []
            else if ends_with (codes "_") out
            then out
            else out ++ b'_' ∷ [])
    pushed true e = All-append IsSafe out (c ∷ []) h (rw e refl, tt)
    pushed false e = elim (Bool-cases (ends_with (codes "_") out)) [
      | inl same ↦ rw same h
      | inr other ↦ rw other (All-append IsSafe out (b'_' ∷ []) h (refl, tt))
    ]

trim_start_by-All : (p : ℕ → Bool) (s : Text) → All IsSafe s → All IsSafe (trim_start_by p s)
unfolding trim_start_by
trim_start_by-All p [] h = tt
trim_start_by-All p (c ∷ s) h = elim (Bool-cases (p c)) [
  | inl cut ↦ rw (trim_start_by, cut) (trim_start_by-All p s h.1)
  | inr kept ↦ rw (trim_start_by, kept) h
]

keep_unless-All :
    (p : ℕ → Bool) (c : ℕ) (s : Text) → IsSafe c → All IsSafe s → All IsSafe (keep_unless p c s)
keep_unless-All p c [] h hs = elim (Bool-cases (p c)) [
  | inl cut ↦ rw cut tt
  | inr kept ↦ rw kept (h, tt)
]
keep_unless-All p c (d ∷ s) h hs = (h, hs)

trim_end_by-All : (p : ℕ → Bool) (s : Text) → All IsSafe s → All IsSafe (trim_end_by p s)
unfolding trim_end_by
trim_end_by-All p [] h = tt
trim_end_by-All p (c ∷ s) h = keep_unless-All p c (trim_end_by p s) h.0 (trim_end_by-All p s h.1)

-- Trimmed of dots on both sides, with something in place of nothing, it does not begin with one.
kept_lem :
    (c : ℕ) (t : Text)
    → is_dot c ≡ false
    → (d : ℕ) × (rest : Text) × (or_underscore (keep_unless is_dot c t) ≡ d ∷ rest) × (d ≢ b'.')
kept_lem c [] h = (c, [], rw h refl, λ e. ground (arith, h, e))
kept_lem c (d ∷ t) h = (c, d ∷ t, refl, λ e. ground (arith, h, e))

visible_lem :
    (s : Text)
    → let t = or_underscore (trim_end_by is_dot (trim_start_by is_dot s)) in
      (c : ℕ) × (rest : Text) × (t ≡ c ∷ rest) × (c ≢ b'.')
unfolding trim_start_by trim_end_by
visible_lem [] = (b'_', [], refl, λ e. omega (arith, e))
visible_lem (c ∷ s) = elim (Bool-cases (is_dot c)) [
  | inl cut ↦ rw (trim_start_by, cut) (visible_lem s)
  | inr kept ↦ rw (trim_start_by, kept) (kept_lem c (trim_end_by is_dot s) kept)
]

or_underscore-IsSafe : (s : Text) → All IsSafe s → All IsSafe (or_underscore s)
or_underscore-IsSafe [] h = (refl, tt)
or_underscore-IsSafe (c ∷ s) h = h

hex-IsSafe : (width n : ℕ) → All IsSafe (hex width n)
unfolding hex
hex-IsSafe zero n = tt
hex-IsSafe (suc width) n =
    All-append IsSafe (hex width (n / 16)) (digit (n % 16) ∷ []) (hex-IsSafe width (n / 16))
      (ground arith, tt)

-- The key that names the directory of a scope is one component of a path: letters, digits, dots,
-- dashes and underscores, not empty, and not beginning with a dot.
pub new-IsComponent : (router_fp : ℕ) (f : Forwarding) → IsComponent (new router_fp f)
unfolding new sanitize
new-IsComponent router_fp f = record {
  safe =
      All-append IsSafe (readable ++ codes "-") _
        (All-append IsSafe readable (codes "-") readable-safe (refl, tt)) (hex-IsSafe 16 digest);
  visible =
      let (c, rest, e, ne) = visible_lem (sanitize_from [] named) in
      (c, (rest ++ codes "-") ++ hex 16 digest, ap (λ t. (t ++ codes "-") ++ hex 16 digest) e, ne);
}
  where
    named : Text
    named =
        route_type_str f.route_type
        ++ codes "_"
        ++ host_of f.upstream
        ++ codes "_"
        ++ decimal f.port

    digest : ℕ
    digest = fnv1a (as_bytes (canonical router_fp f))

    readable : Text
    readable = sanitize named

    readable-safe : All IsSafe readable
    readable-safe =
        or_underscore-IsSafe _
          (trim_end_by-All is_dot _ (trim_start_by-All is_dot _ (sanitize_from-IsSafe named [] tt)))
