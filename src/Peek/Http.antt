-- ===== src/Peek/Http.antt =====
-- src/peek.rs: `header_block_end`, `looks_like_http` and `parse_http_host`.
use sni_gate.Prelude.{
  ℕ, suc, ◌+◌, ◌≡◌, refl, Bool, ◌&&◌, List, [], ◌∷◌, map, Option, none, some, leb, ◌==◌,
  if◌then◌else◌, length, take, any, is_some,
}
use sni_gate.Prelude.Options.{or_else}
use sni_gate.Text.{Text, codes, text_eq, strip_suffix, split_once, to_ascii_lowercase}
use sni_gate.Bytes.{Bytes, trim_ascii}
use sni_gate.Bytes.Utf8.{from_utf8}

pub data HttpParse : Type 0 where
  host : (name : Text) → HttpParse
  no_host need_more not_http : HttpParse

-- What `b[i + 1..]` begins with: `\n` or `\r\n`.
abbrev pub blank_line : ℕ → Bytes → Option ℕ
blank_line i [] = none
blank_line i (c ∷ []) = if c == 0xa then some (i + 2) else none
blank_line i (c ∷ d ∷ s) =
    if c == 0xa then some (i + 2) else if c == 0xd && d == 0xa then some (i + 3) else none

-- The loop of `header_block_end`, from index `i` on.
unfoldable pub end_from : ℕ → Bytes → Option ℕ
end_from i [] = none
end_from i (c ∷ s) =
    let later = end_from (suc i) s in if c == 0xa then or_else (blank_line i s) later else later

unfoldable pub header_block_end : Bytes → Option ℕ
unfolding end_from
header_block_end b = end_from 0 b

abbrev pub methods : List Bytes
methods =
    map codes
      ("GET " ∷ "POST " ∷ "PUT " ∷ "HEAD " ∷ "DELE" ∷ "OPTI" ∷ "PATC" ∷ "TRAC" ∷ "CONN" ∷ [])

abbrev pub begins : Bytes → Bytes → Bool
begins b m = leb (length m) (length b) && text_eq (take (length m) b) m

unfoldable pub looks_like_http : Bytes → Bool
looks_like_http b = any (begins b) methods

abbrev pub or_whole : Bytes → Option Bytes → Bytes
or_whole line none = line
or_whole line (some rest) = rest

abbrev pub decoded : Option Text → HttpParse
decoded none = no_host
decoded (some []) = no_host
decoded (some (c ∷ s)) = host (c ∷ s)

-- One header line: its answer, if it is a `Host` line.
abbrev pub host_line : Option (Bytes × Bytes) → Option HttpParse
host_line none = none
host_line (some (name, value)) =
    if text_eq (to_ascii_lowercase (trim_ascii name)) (codes "host")
    then some (decoded (from_utf8 (trim_ascii value)))
    else none

-- `head.split('\n')`: never empty.
abbrev pub onto_first : ℕ → List Bytes → List Bytes
onto_first c [] = (c ∷ []) ∷ []
onto_first c (line ∷ lines) = (c ∷ line) ∷ lines

unfoldable pub split_lines : Bytes → List Bytes
split_lines [] = [] ∷ []
split_lines (c ∷ s) = let rest = split_lines s in if c == 0xa then [] ∷ rest else onto_first c rest

-- A line without its `\r`; the empty one ends the block.
abbrev pub judge_line : Bytes → Option HttpParse → Option HttpParse
judge_line [] later = none
judge_line (c ∷ s) later = or_else (host_line (split_once b':' (c ∷ s))) later

-- The loop over the lines.
unfoldable pub scan_lines : List Bytes → Option HttpParse
unfolding strip_suffix split_once to_ascii_lowercase trim_ascii from_utf8
scan_lines [] = none
scan_lines (line ∷ lines) =
    judge_line (or_whole line (strip_suffix (codes "\r") line)) (scan_lines lines)

abbrev pub head_of : Bytes → Option ℕ → Bytes
head_of b none = b
head_of b (some end) = take end b

abbrev pub answer : Option ℕ → Option HttpParse → HttpParse
answer end (some a) = a
answer end none = if is_some end then no_host else need_more

unfoldable pub parse_http_host : Bytes → HttpParse
unfolding looks_like_http header_block_end split_lines scan_lines
parse_http_host b =
    if looks_like_http b
    then answer (header_block_end b) (scan_lines (split_lines (head_of b (header_block_end b))))
    else not_http

http_tests :
    (parse_http_host (codes "GET / HTTP/1.1\r\nHost: p.example.com\r\nConnection: close\r\n\r\n")
      ≡ host (codes "p.example.com"))
    × (parse_http_host (codes "GET / HTTP/1.1\r\n") ≡ need_more)
    × (parse_http_host (codes "GET / HTTP/1.1\nA: b\n\nHost: x\n") ≡ no_host)
    × (parse_http_host (codes "\u{16}x") ≡ not_http)
unfolding parse_http_host
http_tests = (refl, refl, refl, refl)
