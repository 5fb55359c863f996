-- ===== src/Peek/Tests.antt =====
-- The parsers and the classification at small inputs.
use sni_gate.Prelude.{◌≡◌, refl, ◌≢◌, [], ◌∷◌, ◌++◌, some, take}
use sni_gate.Text.{codes}
use sni_gate.Bytes.{Bytes}
use sni_gate.Peek.Tls.{TlsParse, parse_tls_sni}
use sni_gate.Peek.Http.{HttpParse, parse_http_host}
use sni_gate.Peek.Bounds.{Answers, parse_tls_sni-Answers}
use sni_gate.Peek.Longer.{parse_tls_sni-longer}
use sni_gate.Peek.Body.{parse_http_host-body}
use sni_gate.Peek.Classify.{Inbound, Report, classify}
use sni_gate.Peek.Windows.{IsJust, classify-IsJust}

abbrev random : Bytes
random = codes "0123456789abcdef0123456789abcdefxx"

-- A ClientHello for `a.test`, behind an extension of another type.
abbrev hello : Bytes
hello =
    0x16 ∷ 3 ∷ 1 ∷ 0 ∷ 68 ∷ 1 ∷ 0 ∷ 0 ∷ 64 ∷ random
    ++ 0
      ∷ 0
      ∷ 2
      ∷ 0x13
      ∷ 1
      ∷ 1
      ∷ 0
      ∷ 0
      ∷ 21
      ∷ 0
      ∷ 0x17
      ∷ 0
      ∷ 0
      ∷ 0
      ∷ 0
      ∷ 0
      ∷ 11
      ∷ 0
      ∷ 9
      ∷ 0
      ∷ 0
      ∷ 6
      ∷ codes "a.test"

hello_tests :
    (parse_tls_sni hello ≡ some (TlsParse.sni (codes "a.test")))
    × (parse_tls_sni (take 60 hello) ≡ some TlsParse.need_more)
    × (parse_tls_sni (0x16 ∷ 3 ∷ 1 ∷ 0 ∷ 4 ∷ 2 ∷ 0 ∷ 0 ∷ 0 ∷ []) ≡ some TlsParse.not_client_hello)
unfolding parse_tls_sni
hello_tests = (refl, refl, refl)

-- Cut behind its compression methods, and between two of its extensions, the same ClientHello is
-- said to name no server.
cut_tests :
    (parse_tls_sni (take 50 hello) ≡ some TlsParse.no_sni)
    × (parse_tls_sni (take 56 hello) ≡ some TlsParse.no_sni)
unfolding parse_tls_sni
cut_tests = (refl, refl)

-- Cut within its `Host` line, a request is said to be for a host of which only the beginning is there.
cut_host_test :
    parse_http_host (codes "GET / HTTP/1.1\r\nHost: p.exam") ≡ HttpParse.host (codes "p.exam")
unfolding parse_http_host
cut_host_test = refl

parse_tls_sni-longer_example :
    parse_tls_sni (hello ++ codes "more") ≡ some (TlsParse.sni (codes "a.test"))
parse_tls_sni-longer_example = parse_tls_sni-longer hello (codes "more") hello_tests.0

parse_tls_sni-Answers_example : Answers (parse_tls_sni hello)
parse_tls_sni-Answers_example = parse_tls_sni-Answers hello

abbrev upload : Bytes
upload = codes "POST /u HTTP/1.1\r\nHost: a.test\r\n\r\n"

parse_http_host-body_example :
    (parse_http_host (upload ++ 0x89 ∷ 0xff ∷ []) ≡ parse_http_host upload)
    × (parse_http_host upload ≢ HttpParse.need_more)
unfolding parse_http_host
parse_http_host-body_example = parse_http_host-body upload (0x89 ∷ 0xff ∷ []) refl

classify_tests :
    (classify hello (Report.holds 60 ∷ Report.holds 60 ∷ Report.holds 77 ∷ [])
      ≡ some (Inbound.tls (some (codes "a.test"))))
    × (classify hello (Report.failed ∷ []) ≡ some Inbound.unknown)
    × (classify upload (Report.holds 40 ∷ []) ≡ some (Inbound.http (some (codes "a.test"))))
unfolding classify
classify_tests = (refl, refl, refl)

classify-IsJust_example :
    (a : Inbound) × (classify hello (Report.holds 77 ∷ []) ≡ some a) × IsJust hello a
classify-IsJust_example = classify-IsJust hello (Report.holds 77 ∷ [])
