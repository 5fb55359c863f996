-- ===== src/Pool/Tests.antt =====
-- The history of one endpoint, and the filter of a view.
use sni_gate.Prelude.{ℕ, ◌≡◌, refl, true, false, List, [], ◌∷◌, arith}
use sni_gate.Text.{codes}
use sni_gate.Config.Tables.{index, tag}
use sni_gate.Pool.Health.{Health, matches, new, record_failure, record_success}
use sni_gate.Pool.Schedule.{
  Outcome, succeeded, failed, time_of, trailing, run, Scheduled, run-Scheduled,
}

abbrev last_sample : ℕ → ℕ → ℕ
last_sample old sample = sample

-- Two failures degrade it; the third doubles the delay of 30 to the interval of 50.
abbrev failures : List Outcome
failures = failed 80 ∷ failed 40 ∷ succeeded 10 3 ∷ failed 5 ∷ []

abbrev endpoint : Health ℕ
endpoint = run last_sample 2 50 30 (new 0 0 30) (failed 110 ∷ failures)

health_tests :
    (endpoint.degraded ≡ true)
    × (endpoint.next_probe ≡ 160)
    × ((run last_sample 2 50 30 (new 0 0 30) failures).next_probe ≡ 110)
    × (matches (record { target = 1; tags = codes "eu" ∷ [] }) (index 0 ∷ tag (codes "eu") ∷ [])
        ≡ true)
    × (matches (record { target = 1; tags = [] }) (index 0 ∷ []) ≡ false)
unfolding new record_failure record_success
health_tests = (refl, refl, refl, refl, refl)

run-Scheduled_example :
    Scheduled last_sample 2 50 30 (time_of (failed 110)) (trailing (failed 110 ∷ failures)) endpoint
run-Scheduled_example =
    run-Scheduled last_sample 2 50 30 0 0 (omega arith) (omega arith) (failed 110) failures
