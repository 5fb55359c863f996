-- ===== src/Peek/Longer.antt =====
-- src/peek.rs: a server name that `parse_tls_sni` has found stays found when more bytes arrive.
use sni_gate.Prelude.{
  leb-true, leb_of_le, ltb-false, ltb_of_le, ℕ, zero, suc, ◌+◌, ◌≤◌, ◌≡◌, refl, ap, ◌∙◌, inl, inr,
  Bool, true, false, ◌++◌, Option, none, some, arith, ltb, leb, ◌==◌, min, if◌then◌else◌, length,
  get_elem?, Bool-cases, Option-cases,
}
use sni_gate.Text.{Text}
use sni_gate.Prelude.Options.{◌>>=◌}
use sni_gate.Bytes.{Bytes, slice}
use sni_gate.Bytes.Growing.{get_elem?-append, length-le, slice-append}
use sni_gate.Peek.Tls.{
  TlsParse, sni, no_sni, need_more, read_u16, ext_loop, parse_extensions, parse_compression,
  parse_ciphers, parse_session, parse_handshake, parse_tls_sni,
}

bound :
    {A B : Type 0} (o : Option A) (k : A → Option B) {b : B}
    → (o >>= k) ≡ some b
    → (a : A) × (o ≡ some a) × (k a ≡ some b)
bound none k h = cc
bound (some a) k h = (a, refl, h)

after :
    {A B : Type 0} (o : Option A) (k : A → Option B) {a : A} {r : Option B}
    → o ≡ some a
    → k a ≡ r
    → (o >>= k) ≡ r
after o k e h = ap (λ x. x >>= k) e ∙ h

if-sni :
    (c : Bool) (x y : Option TlsParse) {n : Text}
    → x ≡ some need_more
    → (if c then x else y) ≡ some (sni n)
    → (c ≡ false) × (y ≡ some (sni n))
if-sni true x y q h = absurd (cc (q, h))
if-sni false x y q h = (refl, h)

read_u16-append :
    (b more : Bytes) (p : ℕ) {x : ℕ} → read_u16 b p ≡ some x → read_u16 (b ++ more) p ≡ some x
read_u16-append b more p h =
    let (hi, e, h') = bound (get_elem? b p) _ h in
    let (lo, e', h'') = bound (get_elem? b (p + 1)) _ h' in
    rw (get_elem?-append b more p e, get_elem?-append b more (p + 1) e') h''

not_found : (c : Bool) {n : Text} → some (if c then need_more else no_sni) ≡ some (sni n) → ⊥
not_found true h = cc
not_found false h = cc

module _ (more : Bytes) {n : Text} where
  ext_loop-longer :
      (f f' : ℕ) (b : Bytes) (e e' p : ℕ)
      → f ≤ f'
      → e ≤ e'
      → ext_loop f b e p ≡ some (sni n)
      → ext_loop f' (b ++ more) e' p ≡ some (sni n)
  unfolding ext_loop
  ext_loop-longer zero f' b e e' p lf le h = cc
  ext_loop-longer (suc f) zero b e e' p lf le h = absurd (omega arith)
  ext_loop-longer (suc f) (suc f') b e e' p lf le h = elim (Bool-cases (leb (p + 4) e)) [
    | inr done ↦ absurd (not_found (ltb e p) (rw (ext_loop, done) at h))
    | inl more_left ↦
        let (ext_type, q, h1) = bound (read_u16 b p) _ (rw (ext_loop, more_left) at h) in
        let (len, q', h2) = bound (read_u16 b (p + 2)) _ h1 in
        elim (Bool-cases (ltb (length b) (p + 4 + len))) [
          | inl cut ↦ cc (rw cut at h2)
          | inr whole ↦
              let goes = leb_of_le (p + 4) e' (omega (arith, le, leb-true (p + 4) e more_left)) in
              let fits =
                ltb_of_le (length (b ++ more)) (p + 4 + len)
                  (omega (arith, ltb-false (length b) (p + 4 + len) whole, length-le b more)) in
              elim (Bool-cases (ext_type == 0)) [
                | inl server_name ↦
                    let (body, cut_out, found) =
                      bound (slice b (p + 4) len) _ (rw (whole, server_name) at h2) in
                    rw (ext_loop, goes)
                      (after _ _ (read_u16-append b more p q) (
                        after _ _ (read_u16-append b more (p + 2) q') (
                          rw (fits, server_name)
                            (after _ _ (slice-append b more (p + 4) len cut_out) found))))
                | inr other ↦
                    rw (ext_loop, goes)
                      (after _ _ (read_u16-append b more p q) (
                        after _ _ (read_u16-append b more (p + 2) q') (
                          rw (fits, other)
                            (ext_loop-longer f f' b e e' (p + 4 + len) (omega (arith, lf)) le
                              (rw (whole, other) at h2)))))
              ]
        ]
  ]

  module _ (b : Bytes) (hs_end hs_end' : ℕ) (le : hs_end ≤ hs_end') where
    parse_extensions-longer :
        (p : ℕ)
        → parse_extensions b hs_end p ≡ some (sni n)
        → parse_extensions (b ++ more) hs_end' p ≡ some (sni n)
    unfolding parse_extensions
    parse_extensions-longer p h = elim (Bool-cases (ltb hs_end (p + 2))) [
      | inl cut ↦ absurd (not_found' (leb p hs_end) (rw cut at h))
      | inr whole ↦
          let (total, q, found) = bound (read_u16 b p) _ (rw whole at h) in
          rw (fits whole, read_u16-append b more p q)
            (ext_loop-longer (suc (length b)) (suc (length (b ++ more))) b
              (min (p + 2 + total) hs_end) (min (p + 2 + total) hs_end') (p + 2)
              (omega (arith, length-le b more)) (omega (arith, le)) found)
    ]
      where
        not_found' : (c : Bool) → some (if c then no_sni else need_more) ≡ some (sni n) → ⊥
        not_found' true h = cc
        not_found' false h = cc

        fits : ltb hs_end (p + 2) ≡ false → ltb hs_end' (p + 2) ≡ false
        fits w = ltb_of_le hs_end' (p + 2) (omega (arith, le, ltb-false hs_end (p + 2) w))

    parse_compression-longer :
        (p : ℕ)
        → parse_compression b hs_end p ≡ some (sni n)
        → parse_compression (b ++ more) hs_end' p ≡ some (sni n)
    unfolding parse_compression
    parse_compression-longer p h =
        let (whole, h') = if-sni (ltb hs_end (p + 1)) _ _ refl h in
        let (comp_len, q, found) = bound (get_elem? b p) _ h' in
        rw
          (
            ltb_of_le hs_end' (p + 1) (omega (arith, le, ltb-false hs_end (p + 1) whole)),
            get_elem?-append b more p q,
          )
          (parse_extensions-longer (p + 1 + comp_len) found)

    parse_ciphers-longer :
        (p : ℕ)
        → parse_ciphers b hs_end p ≡ some (sni n)
        → parse_ciphers (b ++ more) hs_end' p ≡ some (sni n)
    unfolding parse_ciphers
    parse_ciphers-longer p h =
        let (whole, h') = if-sni (ltb hs_end (p + 2)) _ _ refl h in
        let (cs_len, q, found) = bound (read_u16 b p) _ h' in
        rw
          (
            ltb_of_le hs_end' (p + 2) (omega (arith, le, ltb-false hs_end (p + 2) whole)),
            read_u16-append b more p q,
          )
          (parse_compression-longer (p + 2 + cs_len) found)

    parse_session-longer :
        (p : ℕ)
        → parse_session b hs_end p ≡ some (sni n)
        → parse_session (b ++ more) hs_end' p ≡ some (sni n)
    unfolding parse_session
    parse_session-longer p h =
        let (whole, h') = if-sni (ltb hs_end p) _ _ refl h in
        elim (Option-cases (get_elem? b p)) [
          | inl miss ↦ cc (rw miss at h')
          | inr (sid_len, hit) ↦
              rw
                (
                  ltb_of_le hs_end' p (omega (arith, le, ltb-false hs_end p whole)),
                  get_elem?-append b more p hit,
                )
                (parse_ciphers-longer (p + 1 + sid_len) (rw hit at h'))
        ]

  parse_handshake-longer :
      (b : Bytes) (end end' : ℕ)
      → end ≤ end'
      → parse_handshake b end ≡ some (sni n)
      → parse_handshake (b ++ more) end' ≡ some (sni n)
  unfolding parse_handshake
  parse_handshake-longer b end end' le h =
      let (whole, h0) = if-sni (ltb end 9) _ _ refl h in
      let (msg_type, q, h1) = bound (get_elem? b 5) _ h0 in
      elim (Bool-cases (msg_type == 1)) [
        | inr other ↦ cc (rw other at h1)
        | inl client_hello ↦
            let (hi, q6, h2) = bound (get_elem? b 6) _ (rw client_hello at h1) in
            let (mid, q7, h3) = bound (get_elem? b 7) _ h2 in
            let (lo, q8, found) = bound (get_elem? b 8) _ h3 in
            rw
              (
                ltb_of_le end' 9 (omega (arith, le, ltb-false end 9 whole)),
                get_elem?-append b more 5 q,
                client_hello,
                get_elem?-append b more 6 q6,
                get_elem?-append b more 7 q7,
                get_elem?-append b more 8 q8,
              )
              (parse_session-longer b _ _ (omega (arith, length-le b more)) 43 found)
      ]

-- A server name that has been found in what has arrived is found in all that arrives: bytes behind
-- it change nothing.
pub parse_tls_sni-longer :
    (b more : Bytes) {n : Text}
    → parse_tls_sni b ≡ some (sni n)
    → parse_tls_sni (b ++ more) ≡ some (sni n)
unfolding parse_tls_sni
parse_tls_sni-longer b more h =
    let (whole, h0) = if-sni (ltb (length b) 5) _ _ refl h in
    let (record_type, q, h1) = bound (get_elem? b 0) _ h0 in
    elim (Bool-cases (record_type == 0x16)) [
      | inr other ↦ cc (rw other at h1)
      | inl handshake ↦
          let (rec_len, q3, found) = bound (read_u16 b 3) _ (rw handshake at h1) in
          rw
            (
              ltb_of_le (length (b ++ more)) 5
                  (omega (arith, ltb-false (length b) 5 whole, length-le b more)),
              get_elem?-append b more 0 q,
              handshake,
              read_u16-append b more 3 q3,
            )
            (parse_handshake-longer more b (min (5 + rec_len) (length b))
              (min (5 + rec_len) (length (b ++ more))) (omega (arith, length-le b more)) found)
    ]
