-- ===== src/Bytes.antt =====
-- Byte strings: what the standard library does with `&[u8]`, and `std::str::from_utf8`.
pub mod Utf8
pub mod Growing
use sni_gate.Prelude.{
  ℕ, zero, suc, ◌+◌, ◌*◌, ◌≤◌, Bool, true, false, ◌||◌, List, [], ◌∷◌, Option, none, some, leb,
  ◌==◌, if◌then◌else◌, length, take, drop,
}
use sni_gate.Text.{trim_start_by, trim_end_by}

abbrev pub Bytes : Type 0
Bytes = List ℕ

-- `&b[p..p + len]`; `none` is the panic out of bounds.
abbrev pub slice : Bytes → ℕ → ℕ → Option Bytes
slice b p len = if leb (p + len) (length b) then some (take len (drop p b)) else none

-- `u16::from_be_bytes`.
abbrev pub from_be_bytes : ℕ → ℕ → ℕ
from_be_bytes hi lo = hi * 256 + lo

unfoldable pub is_ascii_whitespace : ℕ → Bool
is_ascii_whitespace c = c == 0x20 || c == 9 || c == 10 || c == 12 || c == 13

unfoldable pub trim_ascii : Bytes → Bytes
unfolding trim_start_by trim_end_by is_ascii_whitespace
trim_ascii b = trim_end_by is_ascii_whitespace (trim_start_by is_ascii_whitespace b)
