-- ===== src/Peek/Bounds.antt =====
-- src/peek.rs: `parse_tls_sni` stays within its buffer, and its loops end.
use sni_gate.Prelude.{
  ℕ, zero, suc, ◌+◌, ◌≤◌, ◌<◌, ◌≡◌, refl, inl, inr, Bool, true, false, [], ◌∷◌, Option, some, arith,
  ltb, leb, ◌==◌, min, if◌then◌else◌, length, get_elem?, take, drop, Option-cases,
}
use sni_gate.Prelude.Options.{◌>>=◌}
use sni_gate.Bytes.{Bytes, slice, from_be_bytes}
use sni_gate.Bytes.Utf8.{from_utf8}
use sni_gate.Peek.Tls.{
  no_sni, need_more, not_client_hello, read_u16, host_name, sni_loop, parse_sni_extension, ext_loop,
  parse_extensions, parse_compression, parse_ciphers, parse_session, parse_handshake, parse_tls_sni,
}

-- Neither a panic nor out of fuel.
abbrev pub Answers {ℓ} : {A : Type ℓ} → Option A → Type ℓ
Answers {A = A} o = (a : A) × (o ≡ some a)

module _ {A : Type 0} where
  >>=-Answers :
      {B : Type 0} (o : Option A) (k : A → Option B)
      → Answers o
      → ((a : A) → Answers (k a))
      → Answers (o >>= k)
  >>=-Answers o k (a, e) h = rw e (h a)

  elim-Answers :
      (b : Bool) (x y : Option A)
      → (b ≡ true → Answers x)
      → (b ≡ false → Answers y)
      → Answers (elim b [ true ↦ x | false ↦ y ])
  elim-Answers true x y hx hy = hx refl
  elim-Answers false x y hx hy = hy refl

  if-Answers :
      (b : Bool) (x y : Option A)
      → (b ≡ true → Answers x)
      → (b ≡ false → Answers y)
      → Answers (if b then x else y)
  if-Answers true x y hx hy = hx refl
  if-Answers false x y hx hy = hy refl

get_elem?-Answers : (b : Bytes) (i : ℕ) → i < length b → Answers (get_elem? b i)
get_elem?-Answers [] i lt = absurd (omega arith)
get_elem?-Answers (x ∷ b) zero lt = (x, refl)
get_elem?-Answers (x ∷ b) (suc i) lt = get_elem?-Answers b i (omega arith)

read_u16-Answers : (b : Bytes) (p : ℕ) → p + 1 < length b → Answers (read_u16 b p)
read_u16-Answers b p lt = >>=-Answers (get_elem? b p) _ (get_elem?-Answers b p (omega arith)) λ hi.
    >>=-Answers (get_elem? b (p + 1)) _ (get_elem?-Answers b (p + 1) (omega arith))
      λ lo. (from_be_bytes hi lo, refl)

slice-Answers : (b : Bytes) (p len : ℕ) → p + len ≤ length b → Answers (slice b p len)
slice-Answers b p len le = (take len (drop p b), ground arith)

sni_loop-Answers :
    (fuel : ℕ) (b : Bytes) (end p : ℕ)
    → end ≤ length b
    → p ≤ length b
    → length b < fuel + p
    → Answers (sni_loop fuel b end p)
unfolding sni_loop
sni_loop-Answers zero b end p le lp lt = absurd (omega arith)
sni_loop-Answers (suc fuel) b end p le lp lt =
    elim-Answers (leb (p + 3) end) _ _
      (λ more.
        let within : p + 3 ≤ end = ground arith in
        >>=-Answers (get_elem? b p) _ (get_elem?-Answers b p (omega arith)) λ name_type.
          >>=-Answers (read_u16 b (p + 1)) _ (read_u16-Answers b (p + 1) (omega arith)) λ len.
            elim-Answers (ltb (length b) (p + 3 + len)) _ _ (λ cut. (need_more, refl))
              λ whole.
                let fits : p + 3 + len ≤ length b = ground arith in
                elim-Answers (name_type == 0) _ _
                  (λ named.
                    >>=-Answers (slice b (p + 3) len) _ (slice-Answers b (p + 3) len fits)
                      λ name. (host_name (from_utf8 name), refl))
                  (λ other. sni_loop-Answers fuel b end (p + 3 + len) le fits (omega arith)))
      (λ done. (no_sni, refl))

parse_sni_extension-Answers : (b : Bytes) → Answers (parse_sni_extension b)
unfolding parse_sni_extension
parse_sni_extension-Answers b =
    if-Answers (ltb (length b) 2) _ _ (λ cut. (need_more, refl))
      λ whole.
        let two : 2 ≤ length b = ground arith in
        >>=-Answers (read_u16 b 0) _ (read_u16-Answers b 0 (omega arith)) λ list_len.
          sni_loop-Answers (suc (length b)) b (min (2 + list_len) (length b)) 2 (omega arith)
            (omega arith) (omega arith)

ext_loop-Answers :
    (fuel : ℕ) (b : Bytes) (ext_end p : ℕ)
    → ext_end ≤ length b
    → p ≤ length b
    → length b < fuel + p
    → Answers (ext_loop fuel b ext_end p)
unfolding ext_loop
ext_loop-Answers zero b ext_end p le lp lt = absurd (omega arith)
ext_loop-Answers (suc fuel) b ext_end p le lp lt =
    elim-Answers (leb (p + 4) ext_end) _ _
      (λ more.
        let within : p + 4 ≤ ext_end = ground arith in
        >>=-Answers (read_u16 b p) _ (read_u16-Answers b p (omega arith)) λ ext_type.
          >>=-Answers (read_u16 b (p + 2)) _ (read_u16-Answers b (p + 2) (omega arith)) λ len.
            elim-Answers (ltb (length b) (p + 4 + len)) _ _ (λ cut. (need_more, refl))
              λ whole.
                let fits : p + 4 + len ≤ length b = ground arith in
                elim-Answers (ext_type == 0) _ _
                  (λ server_name.
                    >>=-Answers (slice b (p + 4) len) _ (slice-Answers b (p + 4) len fits)
                      λ body. parse_sni_extension-Answers body)
                  (λ other. ext_loop-Answers fuel b ext_end (p + 4 + len) le fits (omega arith)))
      (λ done. (if ltb ext_end p then need_more else no_sni, refl))

module _ (b : Bytes) (hs_end : ℕ) (le : hs_end ≤ length b) where
  parse_extensions-Answers : (p : ℕ) → Answers (parse_extensions b hs_end p)
  unfolding parse_extensions
  parse_extensions-Answers p =
      if-Answers (ltb hs_end (p + 2)) _ _
        (λ cut. (if leb p hs_end then no_sni else need_more, refl))
        λ whole.
          let fits : p + 2 ≤ hs_end = ground arith in
          >>=-Answers (read_u16 b p) _ (read_u16-Answers b p (omega arith)) λ total.
            ext_loop-Answers (suc (length b)) b (min (p + 2 + total) hs_end) (p + 2) (omega arith)
              (omega arith) (omega arith)

  parse_compression-Answers : (p : ℕ) → Answers (parse_compression b hs_end p)
  unfolding parse_compression
  parse_compression-Answers p =
      if-Answers (ltb hs_end (p + 1)) _ _ (λ cut. (need_more, refl))
        λ whole.
          let fits : p + 1 ≤ hs_end = ground arith in
          >>=-Answers (get_elem? b p) _ (get_elem?-Answers b p (omega arith))
            λ comp_len. parse_extensions-Answers (p + 1 + comp_len)

  parse_ciphers-Answers : (p : ℕ) → Answers (parse_ciphers b hs_end p)
  unfolding parse_ciphers
  parse_ciphers-Answers p =
      if-Answers (ltb hs_end (p + 2)) _ _ (λ cut. (need_more, refl))
        λ whole.
          let fits : p + 2 ≤ hs_end = ground arith in
          >>=-Answers (read_u16 b p) _ (read_u16-Answers b p (omega arith))
            λ cs_len. parse_compression-Answers (p + 2 + cs_len)

  parse_session-Answers : (p : ℕ) → Answers (parse_session b hs_end p)
  unfolding parse_session
  parse_session-Answers p =
      if-Answers (ltb hs_end p) _ _ (λ cut. (need_more, refl))
        λ whole. elim (Option-cases (get_elem? b p)) [
          | inl miss ↦ rw miss (need_more, refl)
          | inr (sid_len, hit) ↦ rw hit (parse_ciphers-Answers (p + 1 + sid_len))
        ]

parse_handshake-Answers : (b : Bytes) (end : ℕ) → end ≤ length b → Answers (parse_handshake b end)
unfolding parse_handshake
parse_handshake-Answers b end le =
    if-Answers (ltb end 9) _ _ (λ cut. (need_more, refl))
      λ whole.
        let fits : 9 ≤ length b = ground arith in
        >>=-Answers (get_elem? b 5) _ (get_elem?-Answers b 5 (omega arith)) λ msg_type.
          if-Answers (msg_type == 1) _ _
            (λ client_hello.
              >>=-Answers (get_elem? b 6) _ (get_elem?-Answers b 6 (omega arith)) λ hi.
                >>=-Answers (get_elem? b 7) _ (get_elem?-Answers b 7 (omega arith)) λ mid.
                  >>=-Answers (get_elem? b 8) _ (get_elem?-Answers b 8 (omega arith))
                    λ lo. parse_session-Answers b _ (omega arith) 43)
            (λ other. (not_client_hello, refl))

-- Every byte string, however malformed or truncated, is answered: no index or slice is out of
-- bounds, and no loop runs out of rounds.
pub parse_tls_sni-Answers : (b : Bytes) → Answers (parse_tls_sni b)
unfolding parse_tls_sni
parse_tls_sni-Answers b =
    if-Answers (ltb (length b) 5) _ _ (λ cut. (need_more, refl))
      λ whole.
        let fits : 5 ≤ length b = ground arith in
        >>=-Answers (get_elem? b 0) _ (get_elem?-Answers b 0 (omega arith)) λ record_type.
          if-Answers (record_type == 0x16) _ _
            (λ handshake.
              >>=-Answers (read_u16 b 3) _ (read_u16-Answers b 3 (omega arith))
                λ rec_len. parse_handshake-Answers b (min (5 + rec_len) (length b)) (omega arith))
            (λ other. (not_client_hello, refl))
