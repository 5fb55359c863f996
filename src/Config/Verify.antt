-- ===== src/Config/Verify.antt =====
-- src/config.rs: `EffectiveVerify` and the checks of `[verify]` blocks, with `parse_spki_pin`.
use sni_gate.Prelude.{
  ℕ, Bool, true, false, not, ◌&&◌, List, [], ◌∷◌, ◌++◌, Option, none, some, ◌==◌, if◌then◌else◌,
  is_some, length, Result, ok, err, ◌>>=◌,
}
use sni_gate.Prelude.Tiers.{find_map, unwrap_or, flatten}
use sni_gate.Text.{Text, codes, trim, strip_prefix}
use sni_gate.Config.Tables.{VerifyMode, VerifyConfig, Global}

pub record EffectiveVerify : Type 0 where
  pub mode : VerifyMode
  pub name : Option Text
  pub pins : List Text
  pub ca_file : Option Text
  pub trust_webpki : Bool

abbrev pub default : EffectiveVerify
default = record {
  mode = VerifyMode.full;
  name = none;
  pins = [];
  ca_file = none;
  trust_webpki = true;
}

-- The tiers of a ladder, deepest first, are the blocks that were written.
unfoldable pub merge : List (Option VerifyConfig) → List (Option VerifyConfig) → EffectiveVerify
unfolding find_map flatten
merge own outer =
    let all = flatten (own ++ outer) in
    record {
      mode = unwrap_or default.mode (find_map (λ v. v.mode) all);
      name = find_map (λ v. v.name) (flatten own);
      pins = unwrap_or default.pins (find_map (λ v. v.pins) all);
      ca_file = find_map (λ v. v.ca_file) all;
      trust_webpki = unwrap_or default.trust_webpki (find_map (λ v. v.trust_webpki) all);
    }

unfoldable pub resolve_verify : Option VerifyConfig → Global → EffectiveVerify
unfolding merge
resolve_verify own global = merge (own ∷ []) (global.verify ∷ [])

-- A message of `ConfigError::Invalid` by what it is about, without the scope that it names.
pub data VerifyError : Type 0 where
  blank_name bad_name bad_pin blank_ca_file name_out_of_scope : VerifyError
  meaningless_name meaningless_ca_file meaningless_trust_webpki no_anchors : VerifyError

abbrev pub is_full : VerifyMode → Bool
is_full VerifyMode.full = true
is_full VerifyMode.chain = false
is_full VerifyMode.none = false

abbrev pub is_unchecked : VerifyMode → Bool
is_unchecked VerifyMode.full = false
is_unchecked VerifyMode.chain = false
is_unchecked VerifyMode.none = true

abbrev pub is_blank : Text → Bool
is_blank [] = true
is_blank (c ∷ s) = false

abbrev pub guard : Bool → VerifyError → Result (Unit {0}) VerifyError
guard true e = err e
guard false e = ok tt

-- `ServerName::try_from` of rustls and the standard `base64` engine.
module _ (is_server_name : Text → Bool) (base64_decode : Text → Option (List ℕ)) where
  abbrev of_32 : Option (List ℕ) → Option (List ℕ)
  of_32 none = none
  of_32 (some raw) = if length raw == 32 then some raw else none

  abbrev pin_body : Option Text → Option (List ℕ)
  unfolding trim
  pin_body none = none
  pin_body (some body) = of_32 (base64_decode (trim body))

  unfoldable pub parse_spki_pin : Text → Option (List ℕ)
  unfolding trim
  parse_spki_pin pin = pin_body (strip_prefix (codes "sha256/") (trim pin))

  unfoldable pub check_verify_name : Option Text → Result (Unit {0}) VerifyError
  unfolding trim
  check_verify_name none = ok tt
  check_verify_name (some name) = do
    _ ← guard (is_blank (trim name)) blank_name
    guard (not (is_server_name name)) bad_name

  unfoldable pub check_verify_pins : List Text → Result (Unit {0}) VerifyError
  unfolding parse_spki_pin
  check_verify_pins [] = ok tt
  check_verify_pins (pin ∷ pins) =
      guard (not (is_some (parse_spki_pin pin))) bad_pin >>= λ _. check_verify_pins pins

  abbrev pub check_verify_ca_file : Option Text → Result (Unit {0}) VerifyError
  check_verify_ca_file none = ok tt
  check_verify_ca_file (some path) = guard (is_blank path) blank_ca_file

  abbrev pub check_mode : VerifyMode → Option Text → Result (Unit {0}) VerifyError
  check_mode mode name = guard (not (is_full mode) && is_some name) meaningless_name

  unfoldable pub check_anchors : VerifyMode → Option Text → Bool → Result (Unit {0}) VerifyError
  check_anchors mode ca_file trust_webpki =
      if is_unchecked mode
      then (guard (is_some ca_file) meaningless_ca_file >>= λ _.
          guard (not trust_webpki) meaningless_trust_webpki)
      else guard (not trust_webpki && not (is_some ca_file)) no_anchors

  unfoldable pub validate : EffectiveVerify → Result (Unit {0}) VerifyError
  unfolding check_verify_name check_verify_pins check_anchors
  validate v = do
    _ ← check_verify_name v.name
    _ ← check_verify_pins v.pins
    _ ← check_verify_ca_file v.ca_file
    _ ← check_mode v.mode v.name
    check_anchors v.mode v.ca_file v.trust_webpki

  unfoldable pub validate_syntax : VerifyConfig → Result (Unit {0}) VerifyError
  unfolding check_verify_name check_verify_pins
  validate_syntax v = do
    _ ← check_verify_name v.name
    _ ← check_verify_pins (unwrap_or [] v.pins)
    check_verify_ca_file v.ca_file

abbrev pub reject_name : VerifyConfig → Result (Unit {0}) VerifyError
reject_name v = guard (is_some v.name) name_out_of_scope
