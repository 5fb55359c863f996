-- ===== src/Config/Coherence.antt =====
-- Which verification policies the configuration accepts.
use sni_gate.Prelude.{
  ℕ, ◌≡◌, refl, ◌≢◌, ◌↔◌, ◌⊎◌, inl, inr, Bool, true, false, List, [], ◌∷◌, ◌++◌, Option, none, some,
  arith, ◌==◌, if◌then◌else◌, ==_iff, Bool-cases, Option-cases, is_some, All, length, ok,
}
use sni_gate.Text.{Text, codes, trim, strip_prefix}
use sni_gate.Text.Parts.{strip_prefix-some}
use sni_gate.Config.Tables.{VerifyMode}
use sni_gate.Config.Verify.{
  EffectiveVerify, VerifyError, is_unchecked, is_blank, guard, parse_spki_pin, check_verify_name,
  check_verify_pins, check_verify_ca_file, check_mode, check_anchors, validate,
}

-- An option that, where it is set, has a property.
abbrev pub Whenever {ℓ} : {A : Type ℓ} → (A → Type 0) → Option A → Type 0
Whenever P none = Unit
Whenever P (some a) = P a

pub guard_iff : (b : Bool) (e : VerifyError) → (guard b e ≡ ok tt) ↔ (b ≡ false)
guard_iff true e = ground arith
guard_iff false e = ground arith

is_blank_iff : (s : Text) → (is_blank s ≡ false) ↔ (s ≢ [])
is_blank_iff [] = ground arith
is_blank_iff (c ∷ s) = ground arith

module _ (is_server_name : Text → Bool) (base64_decode : Text → Option (List ℕ)) where
  -- `sha256/` and the base64 form of 32 bytes, with space around both.
  abbrev pub IsPin : Text → Type 0
  unfolding trim
  IsPin pin =
      (body : Text) × (digest : List ℕ) × (trim pin ≡ codes "sha256/" ++ body)
      × (base64_decode (trim body) ≡ some digest)
      × (length digest ≡ 32)

  abbrev pub IsName : Text → Type 0
  unfolding trim
  IsName name = (trim name ≢ []) × (is_server_name name ≡ true)

  -- Without a chain there is nothing to trust, and with one there has to be something.
  abbrev pub IsAnchored : VerifyMode → Option Text → Bool → Type 0
  IsAnchored mode ca_file trust_webpki =
      if is_unchecked mode
      then (ca_file ≡ none) × (trust_webpki ≡ true)
      else (trust_webpki ≡ true)
      ⊎ (is_some ca_file ≡ true)

  pub record IsCoherent (v : EffectiveVerify) : Type 0 where
    pub named : Whenever IsName v.name
    pub pinned : All IsPin v.pins
    pub at_path : Whenever (λ path. path ≢ []) v.ca_file
    pub name_checked : (v.name ≡ none) ⊎ (v.mode ≡ VerifyMode.full)
    pub anchored : IsAnchored v.mode v.ca_file v.trust_webpki

  IsPin-of_parse :
      (pin : Text) → is_some (parse_spki_pin is_server_name base64_decode pin) ≡ true → IsPin pin
  unfolding parse_spki_pin trim
  IsPin-of_parse pin h = elim (Option-cases (strip_prefix (codes "sha256/") (trim pin))) [
    | inl e ↦ let bad : false ≡ true = rw e at h in cc
    | inr (body, e) ↦
        let h' = rw e at h in
        elim (Option-cases (base64_decode (trim body))) [
          | inl e' ↦ let bad : false ≡ true = rw e' at h' in cc
          | inr (raw, e') ↦ elim (Bool-cases (length raw == 32)) [
            | inl e'' ↦ (
              body,
              raw,
              strip_prefix-some (codes "sha256/") (trim pin) e,
              e',
              (==_iff (length raw) 32).0 e'',
            )
            | inr e'' ↦ let bad : false ≡ true = rw e'' at (rw e' at h') in cc
          ]
        ]
  ]

  parse-of_IsPin :
      (pin : Text) → IsPin pin → is_some (parse_spki_pin is_server_name base64_decode pin) ≡ true
  unfolding parse_spki_pin trim
  parse-of_IsPin pin (body, raw, spelled, decoded, long) =
      let full = (==_iff (length raw) 32).1 long in rw (spelled, decoded, full) refl

  check_verify_name_iff :
      (name : Option Text)
      → (check_verify_name is_server_name base64_decode name ≡ ok tt) ↔ Whenever IsName name
  unfolding check_verify_name trim
  check_verify_name_iff none = ground arith
  check_verify_name_iff (some name) = ground (arith, is_blank_iff (trim name))

  check_verify_pins_iff :
      (pins : List Text)
      → (check_verify_pins is_server_name base64_decode pins ≡ ok tt) ↔ All IsPin pins
  unfolding check_verify_pins
  check_verify_pins_iff [] = ground arith
  check_verify_pins_iff (pin ∷ pins) =
      ground (arith, IsPin-of_parse pin, parse-of_IsPin pin, check_verify_pins_iff pins)

  check_verify_ca_file_iff :
      (path : Option Text)
      → (check_verify_ca_file is_server_name base64_decode path ≡ ok tt)
        ↔ Whenever (λ p. p ≢ []) path
  check_verify_ca_file_iff none = ground arith
  check_verify_ca_file_iff (some path) = ground (arith, is_blank_iff path)

  check_anchors_iff :
      (mode : VerifyMode) (ca_file : Option Text) (trust_webpki : Bool)
      → (check_anchors is_server_name base64_decode mode ca_file trust_webpki ≡ ok tt)
        ↔ IsAnchored mode ca_file trust_webpki
  unfolding check_anchors
  check_anchors_iff VerifyMode.full ca_file trust_webpki = ground arith
  check_anchors_iff VerifyMode.chain ca_file trust_webpki = ground arith
  check_anchors_iff VerifyMode.none ca_file trust_webpki = ground arith

  check_mode_iff :
      (mode : VerifyMode) (name : Option Text)
      → (check_mode is_server_name base64_decode mode name ≡ ok tt)
        ↔ ((name ≡ none) ⊎ (mode ≡ VerifyMode.full))
  check_mode_iff VerifyMode.full name = ground arith
  check_mode_iff VerifyMode.chain name = ground arith
  check_mode_iff VerifyMode.none name = ground arith

  -- A policy is accepted exactly if it is coherent.
  pub validate_iff :
      (v : EffectiveVerify) → (validate is_server_name base64_decode v ≡ ok tt) ↔ IsCoherent v
  unfolding validate
  validate_iff v = ground (
    arith,
    check_verify_name_iff v.name,
    check_verify_pins_iff v.pins,
    check_verify_ca_file_iff v.ca_file,
    check_mode_iff v.mode v.name,
    check_anchors_iff v.mode v.ca_file v.trust_webpki,
  )
