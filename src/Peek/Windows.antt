-- ===== src/Peek/Windows.antt =====
-- src/peek.rs, `classify`: it ends, and its answer is the parser's at a prefix of what was sent.
use sni_gate.Prelude.{
  ltb-true, ℕ, zero, suc, ◌+◌, ◌≤◌, ◌<◌, ◌≡◌, refl, ◌∙◌, ap, inl, inr, Bool, true, false, List, [],
  ◌∷◌, Option, none, some, arith, ltb, leb, ◌==◌, min, take, Bool-cases, Option-cases,
}
use sni_gate.Text.{Text}
use sni_gate.Bytes.{Bytes}
use sni_gate.Peek.Tls.{TlsParse, parse_tls_sni}
use sni_gate.Peek.Http.{HttpParse, parse_http_host}
use sni_gate.Peek.Bounds.{parse_tls_sni-Answers}
use sni_gate.Peek.Classify.{
  Inbound, key, is_tls, Report, max_peek, ready, peek_at_least, judge_tls, judge_http, parsed,
  undecided, classify_loop, starts_tls, classify,
}

-- The parser's own answer for a window.
abbrev pub Revealed : Bool → Bytes → Text → Type 0
Revealed true window name = parse_tls_sni window ≡ some (TlsParse.sni name)
Revealed false window name = parse_http_host window ≡ HttpParse.host name

-- What an answer says: its kind follows the first byte, and a key is what the parser found in a
-- window of at most `max_peek` bytes.
pub record IsJust (sent : Bytes) (answer : Inbound) : Type 0 where
  pub kind : is_tls answer ≡ true → starts_tls sent ≡ true
  pub found :
      (name : Text)
      → key answer ≡ some name
      → (n : ℕ) × (n ≤ max_peek) × Revealed (starts_tls sent) (take n sent) name

ready-max : (m : ℕ) {n : ℕ} → ready m ≡ some n → n ≤ m
ready-max zero h = cc
ready-max (suc m) {n = n} h = omega (arith, same h)
  where
    same : some (suc m) ≡ some n → suc m ≡ n
    same e = cc

peek_at_least-max :
    (want : ℕ) (reports : List Report) {n : ℕ}
    → (peek_at_least want reports).0 ≡ some n
    → n ≤ max_peek
unfolding peek_at_least
peek_at_least-max want [] h = cc
peek_at_least-max want (Report.failed ∷ reports) h = cc
peek_at_least-max want (Report.timed_out ∷ []) h = cc
peek_at_least-max want (Report.timed_out ∷ Report.failed ∷ reports) h = cc
peek_at_least-max want (Report.timed_out ∷ Report.timed_out ∷ reports) h = cc
peek_at_least-max want (Report.timed_out ∷ Report.holds m ∷ reports) h =
    omega (arith, ready-max (min m max_peek) h)
peek_at_least-max want (Report.holds m ∷ reports) {n = n} h =
    elim (Bool-cases (min m max_peek == 0)) [
      | inl eof ↦ cc (rw eof at h)
      | inr alive ↦ elim (Bool-cases (leb want (min m max_peek))) [
        | inl enough ↦ omega (arith, same (rw (alive, enough) at h))
        | inr short ↦ peek_at_least-max want reports (rw (alive, short) at h)
      ]
    ]
  where
    same : some (min m max_peek) ≡ some n → min m max_peek ≡ n
    same e = cc

module _ (sent : Bytes) where
  abbrev IfAny : Option Inbound → Type 0
  IfAny none = Unit
  IfAny (some a) = IsJust sent a

  keyless :
      (a : Inbound) → key a ≡ none → (is_tls a ≡ true → starts_tls sent ≡ true) → IsJust sent a
  keyless a e kind = record { kind = kind; found = λ name h. absurd (cc (e, h)) }

  -- What one look at a window decides.
  judge_tls-IfAny :
      (have : ℕ) (room : Bool) (p : TlsParse)
      → have ≤ max_peek
      → starts_tls sent ≡ true
      → parse_tls_sni (take have sent) ≡ some p
      → IfAny (judge_tls room p)
  unfolding key
  judge_tls-IfAny have room (TlsParse.sni name) le begun e = record {
    kind = λ _. begun;
    found = λ other h. (have, le, rw begun (e ∙ ap (λ t. some (TlsParse.sni t)) (same other h)));
  }
    where
      same : (other : Text) → some name ≡ some other → name ≡ other
      same other h = cc
  judge_tls-IfAny have room TlsParse.no_sni le begun e =
      keyless (Inbound.tls none) refl (λ _. begun)
  judge_tls-IfAny have true TlsParse.need_more le begun e = tt
  judge_tls-IfAny have false TlsParse.need_more le begun e =
      keyless (Inbound.tls none) refl (λ _. begun)
  judge_tls-IfAny have room TlsParse.not_client_hello le begun e =
      keyless (Inbound.tls none) refl (λ _. begun)

  judge_http-IfAny :
      (have : ℕ) (room : Bool) (p : HttpParse)
      → have ≤ max_peek
      → starts_tls sent ≡ false
      → parse_http_host (take have sent) ≡ p
      → IfAny (judge_http room p)
  unfolding key is_tls
  judge_http-IfAny have room (HttpParse.host name) le begun e = record {
    kind = λ h. cc;
    found = λ other h. (have, le, rw begun (e ∙ ap HttpParse.host (same other h)));
  }
    where
      same : (other : Text) → some name ≡ some other → name ≡ other
      same other h = cc
  judge_http-IfAny have room HttpParse.no_host le begun e =
      keyless (Inbound.http none) refl (λ h. cc)
  judge_http-IfAny have true HttpParse.need_more le begun e = tt
  judge_http-IfAny have false HttpParse.need_more le begun e =
      keyless (Inbound.http none) refl (λ h. cc)
  judge_http-IfAny have room HttpParse.not_http le begun e = keyless Inbound.unknown refl (λ h. cc)

  undecided-IsJust :
      (over_tls : Bool) → starts_tls sent ≡ over_tls → IsJust sent (undecided over_tls)
  unfolding key is_tls
  undecided-IsJust true begun = keyless (Inbound.tls none) refl (λ _. begun)
  undecided-IsJust false begun = keyless (Inbound.http none) refl (λ h. cc)

  parsed-IfAny :
      (over_tls : Bool) (have : ℕ)
      → starts_tls sent ≡ over_tls
      → have ≤ max_peek
      → (o : Option Inbound) × (parsed over_tls have (take have sent) ≡ some o)
        × IfAny o
        × (o ≡ none → have < max_peek)
  parsed-IfAny true have begun le =
      let (p, e) = parse_tls_sni-Answers (take have sent) in
      (
        judge_tls (ltb have max_peek) p,
        rw (parsed, e) refl,
        judge_tls-IfAny have _ p le begun e,
        room p,
      )
    where
      room : (p : TlsParse) → judge_tls (ltb have max_peek) p ≡ none → have < max_peek
      room (TlsParse.sni name) h = cc
      room TlsParse.no_sni h = cc
      room TlsParse.need_more h = ground arith
      room TlsParse.not_client_hello h = cc
  parsed-IfAny false have begun le =
      let p = parse_http_host (take have sent) in
      (judge_http (ltb have max_peek) p, refl, judge_http-IfAny have _ p le begun refl, room p)
    where
      room : (p : HttpParse) → judge_http (ltb have max_peek) p ≡ none → have < max_peek
      room (HttpParse.host name) h = cc
      room HttpParse.no_host h = cc
      room HttpParse.need_more h = ground arith
      room HttpParse.not_http h = cc

  -- Every round has more bytes than the one before, and none has more than `max_peek`.
  classify_loop-IsJust :
      (fuel : ℕ) (over_tls : Bool) (have : ℕ) (reports : List Report)
      → starts_tls sent ≡ over_tls
      → have ≤ max_peek
      → max_peek < fuel + have
      → (a : Inbound) × (classify_loop fuel over_tls sent have reports ≡ some a) × IsJust sent a
  unfolding classify_loop
  classify_loop-IsJust zero over_tls have reports begun le lt = absurd (omega arith)
  classify_loop-IsJust (suc fuel) over_tls have reports begun le lt =
      let (o, e, just, room) = parsed-IfAny over_tls have begun le in
      let next = peek_at_least (min (have + 1) max_peek) reports in
      elim (Option-cases o) [
        | inr (a, answered) ↦ (a, rw (classify_loop, e, answered) refl, rw answered at just)
        | inl open_still ↦ elim (Option-cases next.0) [
          | inl stuck ↦ (
            undecided over_tls,
            rw (classify_loop, e, open_still, stuck) refl,
            undecided-IsJust over_tls begun,
          )
          | inr (n, more) ↦ elim (Bool-cases (ltb have n)) [
            | inl grown ↦
                let less : have < n = ltb-true have n grown in
                let (a, run, just') =
                  classify_loop-IsJust fuel over_tls n next.1 begun
                    (peek_at_least-max _ reports more) (omega (arith, lt, less)) in
                (a, rw (classify_loop, e, open_still, more, grown) run, just')
            | inr same ↦ (
              undecided over_tls,
              rw (classify_loop, e, open_still, more, same) refl,
              undecided-IsJust over_tls begun,
            )
          ]
        ]
      ]

-- Whatever the socket reports, a connection is classified: the parsers do not panic and the rounds
-- suffice. It is called TLS only if its first byte is that of a handshake record, and a routing key
-- is what the parser of its kind finds in a prefix of at most `max_peek` of the bytes sent.
pub classify-IsJust :
    (sent : Bytes) (reports : List Report)
    → (a : Inbound) × (classify sent reports ≡ some a) × IsJust sent a
unfolding classify key is_tls
classify-IsJust sent reports = elim (Option-cases (peek_at_least 1 reports).0) [
  | inl ended ↦
      (Inbound.unknown, rw (classify, ended) refl, keyless sent Inbound.unknown refl (λ h. cc))
  | inr (n, more) ↦
      let (a, run, just) =
        classify_loop-IsJust sent (suc max_peek) (starts_tls sent) n (peek_at_least 1 reports).1
          refl (peek_at_least-max 1 reports more) (omega arith) in
      (a, rw (classify, more) run, just)
]
