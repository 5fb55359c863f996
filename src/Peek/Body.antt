-- ===== src/Peek/Body.antt =====
-- src/peek.rs, `parse_http_host`: the bytes behind the header block have no say.
use sni_gate.Prelude.{
  take-append, ℕ, suc, ◌+◌, ◌≤◌, ◌≡◌, refl, ◌⊎◌, inl, inr, true, false, List, [], ◌∷◌, ◌++◌, Option,
  none, some, arith, leb, ◌==◌, if◌then◌else◌, length, take, any, All, ◌≢◌, Bool-cases,
}
use sni_gate.Text.{Text, codes, text_eq, contains, strip_suffix, split_once, to_ascii_lowercase}
use sni_gate.Text.Parts.{Lacks}
use sni_gate.Prelude.Options.{or_else}
use sni_gate.Bytes.{Bytes, trim_ascii}
use sni_gate.Bytes.Utf8.{from_utf8}
use sni_gate.Peek.Http.{
  HttpParse, blank_line, end_from, header_block_end, methods, begins, looks_like_http, answer,
  split_lines, scan_lines, parse_http_host, decoded, host_line, judge_line, or_whole,
}

blank_line-append :
    (i : ℕ) (s body : Bytes) {e : ℕ}
    → blank_line i s ≡ some e
    → (blank_line i (s ++ body) ≡ some e) × (e ≤ i + 1 + length s)
blank_line-append i [] body h = cc
blank_line-append i (c ∷ []) [] h = ground arith
blank_line-append i (c ∷ []) (d ∷ body) h = ground arith
blank_line-append i (c ∷ d ∷ s) body h = ground arith

-- A later end leaves two bytes at least, and they decide whether a blank line is here.
blank_line-later :
    (i j : ℕ) (s body : Bytes) {e : ℕ}
    → end_from j s ≡ some e
    → blank_line i (s ++ body) ≡ blank_line i s
unfolding end_from
blank_line-later i j [] body h = cc
blank_line-later i j (c ∷ []) body h = ground arith
blank_line-later i j (c ∷ d ∷ s) body h = refl

or_else-cases :
    (o later : Option ℕ) {e : ℕ}
    → or_else o later ≡ some e
    → (o ≡ some e) ⊎ ((o ≡ none) × (later ≡ some e))
or_else-cases none later h = inr (refl, h)
or_else-cases (some a) later h = inl h

end_from-append :
    (i : ℕ) (b body : Bytes) {e : ℕ}
    → end_from i b ≡ some e
    → (end_from i (b ++ body) ≡ some e) × (e ≤ i + length b)
unfolding end_from
end_from-append i [] body h = cc
end_from-append i (c ∷ s) body {e = e} h = elim (Bool-cases (c == 0xa)) [
  | inl newline ↦ elim (or_else-cases (blank_line i s) (end_from (suc i) s) (rw newline at h)) [
    | inl here ↦
        let (same, le) = blank_line-append i s body here in
        (rw (newline, same) refl, omega (arith, le))
    | inr (miss, later) ↦
        let (same, le) = end_from-append (suc i) s body later in
        (rw (newline, blank_line-later i (suc i) s body later, miss) same, omega (arith, le))
  ]
  | inr other ↦
      let (same, le) = end_from-append (suc i) s body (rw other at h) in
      (rw other same, omega (arith, le))
]

begins-cons :
    (c d : ℕ) (b m : Bytes) → begins (c ∷ b) (d ∷ m) ≡ (if c == d then begins b m else false)
begins-cons c d b m = elim (Bool-cases (c == d)) [
  | inl same ↦ elim (Bool-cases (leb (length m) (length b))) [
    | inl le ↦ ground arith
    | inr more ↦ ground arith
  ]
  | inr other ↦ ground arith
]

-- Text that holds a newline is no beginning of a text that holds none.
begins-append :
    (b body m : Bytes) → contains 0xa b ≡ true → Lacks 0xa m → begins (b ++ body) m ≡ begins b m
unfolding contains
begins-append [] body m h lacks = cc
begins-append (c ∷ b) body [] h lacks = ground arith
begins-append (c ∷ b) body (d ∷ m) h lacks = elim (Bool-cases (c == d)) [
  | inl same ↦
      rw (begins-cons c d (b ++ body) m, begins-cons c d b m, same)
        (begins-append b body m (ground arith) lacks.1)
  | inr other ↦ rw (begins-cons c d (b ++ body) m, begins-cons c d b m, other) refl
]

end_from-contains : (i : ℕ) (b : Bytes) {e : ℕ} → end_from i b ≡ some e → contains 0xa b ≡ true
unfolding end_from contains
end_from-contains i [] h = cc
end_from-contains i (c ∷ s) h = elim (Bool-cases (c == 0xa)) [
  | inl newline ↦ rw newline refl
  | inr other ↦ rw other (end_from-contains (suc i) s (rw other at h))
]

any-begins :
    (b body : Bytes) (ms : List Bytes)
    → contains 0xa b ≡ true
    → All (Lacks 0xa) ms
    → any (begins (b ++ body)) ms ≡ any (begins b) ms
any-begins b body [] h lacks = refl
any-begins b body (m ∷ ms) h lacks =
    rw (begins-append b body m h lacks.0, any-begins b body ms h lacks.1) refl

methods-Lacks : All (Lacks 0xa) methods
methods-Lacks = ground arith

-- A `Host` line answers for good.
abbrev Final : HttpParse → Type 0
Final a = a ≢ HttpParse.need_more

abbrev FinalIfAny : Option HttpParse → Type 0
FinalIfAny none = Unit
FinalIfAny (some a) = Final a

decoded-Final : (name : Option Text) → Final (decoded name)
decoded-Final none = λ e. cc
decoded-Final (some []) = λ e. cc
decoded-Final (some (c ∷ s)) = λ e. cc

host_line-Final : (parts : Option (Bytes × Bytes)) → FinalIfAny (host_line parts)
host_line-Final none = tt
host_line-Final (some (name, value)) =
    elim (Bool-cases (text_eq (to_ascii_lowercase (trim_ascii name)) (codes "host"))) [
      | inl named ↦ rw named (decoded-Final (from_utf8 (trim_ascii value)))
      | inr other ↦ rw other tt
    ]

judge_line-Final :
    (line : Bytes) (later : Option HttpParse)
    → FinalIfAny later
    → FinalIfAny (judge_line line later)
judge_line-Final [] later h = tt
judge_line-Final (c ∷ s) later h = next (host_line parts) (host_line-Final parts)
  where
    parts : Option (Bytes × Bytes)
    parts = split_once b':' (c ∷ s)

    next : (now : Option HttpParse) → FinalIfAny now → FinalIfAny (or_else now later)
    next none final = h
    next (some a) final = final

scan_lines-Final : (lines : List Bytes) → FinalIfAny (scan_lines lines)
unfolding scan_lines
scan_lines-Final [] = tt
scan_lines-Final (line ∷ lines) =
    judge_line-Final (or_whole line (strip_suffix (codes "\r") line)) (scan_lines lines)
      (scan_lines-Final lines)

answer-Final : (e : ℕ) (found : Option HttpParse) → FinalIfAny found → Final (answer (some e) found)
answer-Final e none final = λ h. cc
answer-Final e (some a) final = final

-- Once the header block has ended, the request is answered: whatever bytes follow it, the answer is
-- the same, and it is not that more bytes are needed.
pub parse_http_host-body :
    (b body : Bytes) {e : ℕ}
    → header_block_end b ≡ some e
    → (parse_http_host (b ++ body) ≡ parse_http_host b) × (parse_http_host b ≢ HttpParse.need_more)
unfolding parse_http_host header_block_end looks_like_http
parse_http_host-body b body {e = e} h =
    let (same, le) = end_from-append 0 b body h in
    let looks = any-begins b body methods (end_from-contains 0 b h) methods-Lacks in
    (
      rw (looks, same, h, take-append {0} e b body (omega (arith, le))) refl,
      elim (Bool-cases (any (begins b) methods)) [
        | inl http ↦ rw (http, h) (answer-Final e _ (scan_lines-Final (split_lines (take e b))))
        | inr other ↦ rw other (λ q. cc)
      ],
    )
