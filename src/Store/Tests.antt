-- ===== src/Store/Tests.antt =====
-- A store at a concrete certificate.
use sni_gate.Prelude.{◌≡◌, refl, arith, true, false, List, [], ◌∷◌, none, some}
use sni_gate.Text.{Text, codes}
use sni_gate.Store.{Chain, Files, CertStore, Io, garbled, intact, load, save}
use sni_gate.Store.Observed.{decode_observed}
use sni_gate.Store.Persisting.{load-save}

abbrev store : CertStore
store = record { renew_margin = 30 }

abbrev chain : Chain
chain = record { serial = 1; not_after = 100; sans = codes "*.a.test" ∷ [] }

abbrev io : Io
io = record {
  creates_directory = true;
  writes_chain = true;
  writes_key = true;
  writes_sidecar = true;
  removes_sidecar = true;
}

abbrev stale : Files
stale = record { crt = garbled; key = intact 7; observed = intact (codes "b.test") }

abbrev names : List Text
names = codes "*.a.test" ∷ codes "*.com" ∷ []

load-save_example :
    load store 69 (save io stale chain 8 (some names)).0
    ≡ some (record {
      chain = chain;
      key = 8;
      not_after = 100;
      sans = codes "*.a.test" ∷ [];
      observed = some names;
    })
unfolding save decode_observed
load-save_example =
    load-save store io stale chain 8 (some names) 69
      (((λ e. cc), grind arith, refl), (((λ e. cc), grind arith, refl), tt)) refl

store_tests :
    (load store 70 (save io stale chain 8 none).0 ≡ none)
    × (decode_observed (codes "a.test\r\n\n b.test\n") ≡ codes "a.test" ∷ codes "b.test" ∷ [])
unfolding load save decode_observed
store_tests = (refl, refl)

-- A crash between the writes leaves the new chain with the old key, and the old sidecar beside a
-- certificate that it does not describe; `load` answers with both.
crash_tests :
    (load store 0
        (save
          (record io { writes_key = false })
          (record stale { crt = intact chain })
          (record chain { serial = 2 })
          8
          none).0
      ≡ some (record {
        chain = record chain { serial = 2 };
        key = 7;
        not_after = 100;
        sans = codes "*.a.test" ∷ [];
        observed = some (codes "b.test" ∷ []);
      }))
    × (load store 0
          (save
            (record io { removes_sidecar = false })
            (record stale { crt = intact chain })
            (record chain { serial = 2 })
            8
            none).0
        ≡ some (record {
          chain = record chain { serial = 2 };
          key = 8;
          not_after = 100;
          sans = codes "*.a.test" ∷ [];
          observed = some (codes "b.test" ∷ []);
        }))
unfolding load save decode_observed
crash_tests = (refl, refl)
