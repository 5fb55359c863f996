-- ===== src/Store.antt =====
-- src/store.rs: `CertStore`, for one host within one scope, whose three files have names of their
-- own. A chain is what `leaf_metadata` reads of it; a key is a number. That a file is unreadable or
-- does not parse is `garbled`. Times are in seconds.
pub mod Observed
pub mod Persisting
mod Tests
use sni_gate.Prelude.{
  ℕ, ◌+◌, ◌*◌, Bool, true, false, List, [], ◌∷◌, ◌++◌, map, Option, none, some, ltb, leb,
  if◌then◌else◌, Result, ok, err,
}
use sni_gate.Text.{Text}
use sni_gate.Store.Observed.{encode_observed, decode_observed}

pub record Chain : Type 0 where
  pub serial : ℕ
  pub not_after : ℕ
  pub sans : List Text

pub data File (A : Type 0) : Type 0 where
  missing garbled : File A
  intact : A → File A

pub record Files : Type 0 where
  pub crt : File Chain
  pub key : File ℕ
  pub observed : File Text

pub record CertStore : Type 0 where
  pub renew_margin : ℕ

pub record StoredCertificate : Type 0 where
  pub chain : Chain
  pub key : ℕ
  pub not_after : ℕ
  pub sans : List Text
  pub observed : Option (List Text)

pub data StoreError : Type 0 where
  creating_directory persisting_chain persisting_key persisting_sidecar removing_sidecar :
      StoreError

-- Which of the operations on the file system succeed in a call.
pub record Io : Type 0 where
  pub creates_directory : Bool
  pub writes_chain : Bool
  pub writes_key : Bool
  pub writes_sidecar : Bool
  pub removes_sidecar : Bool

abbrev pub needs_renewal : CertStore → ℕ → ℕ → Bool
needs_renewal self now not_after = leb not_after (now + self.renew_margin)

-- A sidecar that is missing or cannot be read is no observation.
abbrev pub read_observed : File Text → Option (List Text)
read_observed missing = none
read_observed garbled = none
read_observed (intact text) = some (decode_observed text)

abbrev pub load_inner : Files → Option StoredCertificate
load_inner files = elim files.crt [
  | missing ↦ none
  | garbled ↦ none
  | intact chain ↦ elim files.key [
    | missing ↦ none
    | garbled ↦ none
    | intact key ↦ some (record {
      chain = chain;
      key = key;
      not_after = chain.not_after;
      sans = chain.sans;
      observed = read_observed files.observed;
    })
  ]
]

abbrev pub unless_due : CertStore → ℕ → Option StoredCertificate → Option StoredCertificate
unless_due self now none = none
unless_due self now (some stored) =
    if needs_renewal self now stored.not_after then none else some stored

unfoldable pub load : CertStore → ℕ → Files → Option StoredCertificate
unfolding decode_observed
load self now files = unless_due self now (load_inner files)

-- Written last, or removed.
abbrev pub save_observed : Io → Files → Option (List Text) → Files × Result (Unit {0}) StoreError
save_observed io files (some sans) =
    if io.writes_sidecar
    then (record files { observed = intact (encode_observed sans) }, ok tt)
    else (files, err persisting_sidecar)
save_observed io files none =
    if io.removes_sidecar
    then (record files { observed = missing }, ok tt)
    else (files, err removing_sidecar)

abbrev pub save_key : Io → Files → ℕ → Option (List Text) → Files × Result (Unit {0}) StoreError
save_key io files key observed =
    if io.writes_key
    then save_observed io (record files { key = intact key }) observed
    else (files, err persisting_key)

-- The files after the call, with its result. A write is atomic: it happens as a whole or not.
unfoldable pub save :
    Io → Files → Chain → ℕ → Option (List Text) → Files × Result (Unit {0}) StoreError
unfolding encode_observed
save io files chain key observed =
    if io.creates_directory
    then (if io.writes_chain
        then save_key io (record files { crt = intact chain }) key observed
        else (files, err persisting_chain))
    else (files, err creating_directory)
