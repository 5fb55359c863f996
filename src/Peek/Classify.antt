-- ===== src/Peek/Classify.antt =====
-- src/peek.rs: `Inbound`, `classify` and `peek_at_least`. The socket is what the client has sent,
-- with what each `peek` reports and where the overall timeout strikes; a list of reports that ends
-- stands for a connection that fails then. Back-off sleeps are left out.
use sni_gate.Prelude.{
  ℕ, zero, suc, ◌+◌, ◌*◌, Bool, true, false, List, [], ◌∷◌, Option, none, some, ltb, leb, ◌==◌, min,
  if◌then◌else◌, take,
}
use sni_gate.Text.{Text}
use sni_gate.Bytes.{Bytes}
use sni_gate.Peek.Tls.{TlsParse, parse_tls_sni}
use sni_gate.Peek.Http.{HttpParse, parse_http_host}

pub data Inbound : Type 0 where
  tls : (sni : Option Text) → Inbound
  http : (host : Option Text) → Inbound
  unknown : Inbound

unfoldable pub key : Inbound → Option Text
key (Inbound.tls sni) = sni
key (Inbound.http host) = host
key Inbound.unknown = none

unfoldable pub is_tls : Inbound → Bool
is_tls (Inbound.tls sni) = true
is_tls (Inbound.http host) = false
is_tls Inbound.unknown = false

-- What one `stream.peek` reports: the bytes that the socket holds, an error, or that the timeout
-- struck first.
pub data Report : Type 0 where
  holds : ℕ → Report
  failed timed_out : Report

abbrev pub max_peek : ℕ
max_peek = 8 * 1024

-- The buffer takes what it has room for; nothing is the end of the stream.
abbrev pub ready : ℕ → Option ℕ
ready zero = none
ready (suc n) = some (suc n)

-- The peek after the timeout.
abbrev pub last_peek : List Report → Option ℕ × List Report
last_peek (Report.holds n ∷ reports) = (ready (min n max_peek), reports)
last_peek (Report.failed ∷ reports) = (none, reports)
last_peek (Report.timed_out ∷ reports) = (none, reports)
last_peek [] = (none, [])

-- The number of bytes that the buffer has then, with the reports that are left.
unfoldable pub peek_at_least : ℕ → List Report → Option ℕ × List Report
peek_at_least want [] = (none, [])
peek_at_least want (Report.failed ∷ reports) = (none, reports)
peek_at_least want (Report.timed_out ∷ reports) = last_peek reports
peek_at_least want (Report.holds n ∷ reports) =
    let more = peek_at_least want reports in
    let have = min n max_peek in
    if have == 0 then (none, reports) else if leb want have then (some have, reports) else more

-- An answer, or that more has to be peeked.
abbrev pub judge_tls : Bool → TlsParse → Option Inbound
judge_tls room (TlsParse.sni name) = some (Inbound.tls (some name))
judge_tls room TlsParse.no_sni = some (Inbound.tls none)
judge_tls room TlsParse.need_more = if room then none else some (Inbound.tls none)
judge_tls room TlsParse.not_client_hello = some (Inbound.tls none)

abbrev pub judge_http : Bool → HttpParse → Option Inbound
judge_http room (HttpParse.host name) = some (Inbound.http (some name))
judge_http room HttpParse.no_host = some (Inbound.http none)
judge_http room HttpParse.need_more = if room then none else some (Inbound.http none)
judge_http room HttpParse.not_http = some Inbound.unknown

-- `none` outside is a panic of the parser.
abbrev pub parsed : Bool → ℕ → Bytes → Option (Option Inbound)
parsed true have window = elim (parse_tls_sni window) [
  | none ↦ none
  | some p ↦ some (judge_tls (ltb have max_peek) p)
]
parsed false have window = some (judge_http (ltb have max_peek) (parse_http_host window))

abbrev pub undecided : Bool → Inbound
undecided true = Inbound.tls none
undecided false = Inbound.http none

-- The loop, with `have` bytes in the buffer; `none` is a panic or out of rounds.
unfoldable pub classify_loop : ℕ → Bool → Bytes → ℕ → List Report → Option Inbound
unfolding parse_tls_sni parse_http_host peek_at_least
classify_loop zero over_tls sent have reports = none
classify_loop (suc fuel) over_tls sent have reports = elim (parsed over_tls have (take have sent)) [
  | none ↦ none
  | some (some answer) ↦ some answer
  | some none ↦
      let (next, rest) = peek_at_least (min (have + 1) max_peek) reports in
      elim next [
        | none ↦ some (undecided over_tls)
        | some n ↦ elim (ltb have n) [
          | true ↦ classify_loop fuel over_tls sent n rest
          | false ↦ some (undecided over_tls)
        ]
      ]
]

abbrev pub starts_tls : Bytes → Bool
starts_tls [] = false
starts_tls (c ∷ s) = c == 0x16

-- With a round for every size of the buffer.
unfoldable pub classify : Bytes → List Report → Option Inbound
unfolding classify_loop peek_at_least
classify sent reports =
    let (first, rest) = peek_at_least 1 reports in
    elim first [
      | none ↦ some Inbound.unknown
      | some n ↦ classify_loop (suc max_peek) (starts_tls sent) sent n rest
    ]
