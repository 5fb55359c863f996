-- ===== src/Peek/Tls.antt =====
-- src/peek.rs: `parse_tls_sni` and `parse_sni_extension`. An index or a slice out of bounds, where
-- the source panics, is `none`; so is a loop that runs out of fuel.
use sni_gate.Prelude.{
  ℕ, zero, suc, ◌+◌, ◌*◌, true, false, [], ◌∷◌, Option, none, some, ltb, leb, ◌==◌, min,
  if◌then◌else◌, length, get_elem?,
}
use sni_gate.Prelude.Options.{◌>>=◌}
use sni_gate.Text.{Text}
use sni_gate.Bytes.{Bytes, slice, from_be_bytes}
use sni_gate.Bytes.Utf8.{from_utf8}

pub data TlsParse : Type 0 where
  sni : (name : Text) → TlsParse
  no_sni need_more not_client_hello : TlsParse

-- `u16::from_be_bytes([b[p], b[p + 1]])`.
abbrev pub read_u16 : Bytes → ℕ → Option ℕ
read_u16 b p = do hi ← get_elem? b p; lo ← get_elem? b (p + 1); some (from_be_bytes hi lo)

abbrev pub host_name : Option Text → TlsParse
host_name none = no_sni
host_name (some []) = no_sni
host_name (some (c ∷ s)) = sni (c ∷ s)

-- The loop over the entries of the server name list.
unfoldable pub sni_loop : ℕ → Bytes → ℕ → ℕ → Option TlsParse
unfolding from_utf8
sni_loop zero b end p = none
sni_loop (suc fuel) b end p = elim (leb (p + 3) end) [
  | false ↦ some no_sni
  | true ↦ do
    name_type ← get_elem? b p
    name_len ← read_u16 b (p + 1)
    elim (ltb (length b) (p + 3 + name_len)) [
      | true ↦ some need_more
      | false ↦ elim (name_type == 0) [
        | true ↦ do name ← slice b (p + 3) name_len; some (host_name (from_utf8 name))
        | false ↦ sni_loop fuel b end (p + 3 + name_len)
      ]
    ]
]

unfoldable pub parse_sni_extension : Bytes → Option TlsParse
unfolding sni_loop
parse_sni_extension b =
    if ltb (length b) 2
    then some need_more
    else (do list_len ← read_u16 b 0; sni_loop (suc (length b)) b (min (2 + list_len) (length b)) 2)

-- The loop over the extensions.
unfoldable pub ext_loop : ℕ → Bytes → ℕ → ℕ → Option TlsParse
unfolding parse_sni_extension
ext_loop zero b ext_end p = none
ext_loop (suc fuel) b ext_end p = elim (leb (p + 4) ext_end) [
  | false ↦ some (if ltb ext_end p then need_more else no_sni)
  | true ↦ do
    ext_type ← read_u16 b p
    ext_len ← read_u16 b (p + 2)
    elim (ltb (length b) (p + 4 + ext_len)) [
      | true ↦ some need_more
      | false ↦ elim (ext_type == 0) [
        | true ↦ do body ← slice b (p + 4) ext_len; parse_sni_extension body
        | false ↦ ext_loop fuel b ext_end (p + 4 + ext_len)
      ]
    ]
]

unfoldable pub parse_extensions : Bytes → ℕ → ℕ → Option TlsParse
unfolding ext_loop
parse_extensions b hs_end p =
    if ltb hs_end (p + 2) then some (if leb p hs_end then no_sni else need_more) else (do
      ext_total ← read_u16 b p
      ext_loop (suc (length b)) b (min (p + 2 + ext_total) hs_end) (p + 2))

unfoldable pub parse_compression : Bytes → ℕ → ℕ → Option TlsParse
unfolding parse_extensions
parse_compression b hs_end p =
    if ltb hs_end (p + 1)
    then some need_more
    else (do comp_len ← get_elem? b p; parse_extensions b hs_end (p + 1 + comp_len))

unfoldable pub parse_ciphers : Bytes → ℕ → ℕ → Option TlsParse
unfolding parse_compression
parse_ciphers b hs_end p =
    if ltb hs_end (p + 2)
    then some need_more
    else (do cs_len ← read_u16 b p; parse_compression b hs_end (p + 2 + cs_len))

-- The session id: `b.get(p)` misses without a panic.
unfoldable pub parse_session : Bytes → ℕ → ℕ → Option TlsParse
unfolding parse_ciphers
parse_session b hs_end p = if ltb hs_end p then some need_more else elim (get_elem? b p) [
  | none ↦ some need_more
  | some sid_len ↦ parse_ciphers b hs_end (p + 1 + sid_len)
]

-- The handshake header, at 5; the version and the random take 34 bytes behind it.
unfoldable pub parse_handshake : Bytes → ℕ → Option TlsParse
unfolding parse_session
parse_handshake b end = if ltb end 9 then some need_more else (do
  msg_type ← get_elem? b 5
  if msg_type == 1
      then (do
        hi ← get_elem? b 6
        mid ← get_elem? b 7
        lo ← get_elem? b 8
        parse_session b (min (9 + (hi * 0x1_0000 + mid * 256 + lo)) (length b)) 43)
      else some not_client_hello)

unfoldable pub parse_tls_sni : Bytes → Option TlsParse
unfolding parse_handshake
parse_tls_sni b = if ltb (length b) 5 then some need_more else (do
  record_type ← get_elem? b 0
  if record_type == 0x16
      then (do rec_len ← read_u16 b 3; parse_handshake b (min (5 + rec_len) (length b)))
      else some not_client_hello)
