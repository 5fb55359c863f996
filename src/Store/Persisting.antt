-- ===== src/Store/Persisting.antt =====
-- src/store.rs: what `save` writes is what `load` reads.
use sni_gate.Prelude.{
  ℕ, ◌+◌, ◌≡◌, refl, inl, inr, if◌then◌else◌, leb, Bool-cases, ap, List, Option, none, some, ok,
  All,
}
use sni_gate.Text.{Text}
use sni_gate.Store.Observed.{encode_observed, IsLine, decode_observed-encode_observed}
use sni_gate.Store.{
  Chain, File, Files, CertStore, Io, load, save, missing, intact, read_observed, save_observed,
}

abbrev pub AllLines : Option (List Text) → Type 0
AllLines none = Unit
AllLines (some sans) = All IsLine sans

abbrev sidecar : Option (List Text) → File Text
sidecar none = missing
sidecar (some sans) = intact (encode_observed sans)

abbrev filed : Chain → ℕ → Option (List Text) → Files
filed chain key observed = record {
  crt = intact chain;
  key = intact key;
  observed = sidecar observed;
}

save_observed-filed :
    (io : Io) (old : File Text) (chain : Chain) (key : ℕ) (observed : Option (List Text))
    → (save_observed io
        (record { crt = intact chain; key = intact key; observed = old })
        observed).1
      ≡ ok tt
    → (save_observed io
        (record { crt = intact chain; key = intact key; observed = old })
        observed).0
      ≡ filed chain key observed
save_observed-filed io old chain key none h = elim (Bool-cases io.removes_sidecar) [
  | inl done ↦ rw done refl
  | inr failed ↦ cc (rw failed at h)
]
save_observed-filed io old chain key (some sans) h = elim (Bool-cases io.writes_sidecar) [
  | inl done ↦ rw done refl
  | inr failed ↦ cc (rw failed at h)
]

save-filed :
    (io : Io) (files : Files) (chain : Chain) (key : ℕ) (observed : Option (List Text))
    → (save io files chain key observed).1 ≡ ok tt
    → (save io files chain key observed).0 ≡ filed chain key observed
unfolding save
save-filed io files chain key observed h = elim (Bool-cases io.creates_directory) [
  | inr failed ↦ cc (rw failed at h)
  | inl made ↦ elim (Bool-cases io.writes_chain) [
    | inr failed ↦ cc (rw (made, failed) at h)
    | inl chain_written ↦ elim (Bool-cases io.writes_key) [
      | inr failed ↦ cc (rw (made, chain_written, failed) at h)
      | inl key_written ↦
          rw (made, chain_written, key_written)
            (save_observed-filed io files.observed chain key observed
              (rw (made, chain_written, key_written) at h))
    ]
  ]
]

read_observed-sidecar :
    (observed : Option (List Text))
    → AllLines observed
    → read_observed (sidecar observed) ≡ observed
read_observed-sidecar none h = refl
read_observed-sidecar (some sans) h = ap some (decode_observed-encode_observed sans h)

-- A call of `save` that reports success has filed the certificate: whatever the files held before,
-- `load` answers with it, its key and its observation until the margin before its expiry, and with
-- nothing from then on. The observed names stand on lines of their own.
pub load-save :
    (self : CertStore) (io : Io) (files : Files) (chain : Chain) (key : ℕ)
    (observed : Option (List Text)) (now : ℕ)
    → AllLines observed
    → (save io files chain key observed).1 ≡ ok tt
    → load self now (save io files chain key observed).0 ≡ (
        if leb chain.not_after (now + self.renew_margin)
        then none
        else some (record {
          chain = chain;
          key = key;
          not_after = chain.not_after;
          sans = chain.sans;
          observed = observed;
        }))
unfolding load
load-save self io files chain key observed now lines h =
    rw (save-filed io files chain key observed h, read_observed-sidecar observed lines) refl
