-- ===== src/Pool/Schedule.antt =====
-- src/pool.rs, `Health`: the state of an endpoint after every history of probes.
use sni_gate.Prelude.{
  leb-true, leb-false, leb_of_le, leb_of_lt, ℕ, zero, suc, ◌+◌, ◌-◌, ◌*◌, ◌^◌, ◌≤◌, ◌≡◌, refl, sym,
  ap, ◌∙◌, inl, inr, true, false, List, [], ◌∷◌, arith, leb, min, if◌then◌else◌, Bool-cases,
}
use native.Mathlib.Nat.{mul_assoc}
use sni_gate.Pool.Health.{Health, max_u32, saturating_suc, new, record_success, record_failure}

-- The outcome of one probe, with its time.
pub data Outcome : Type 0 where
  succeeded : (now sample : ℕ) → Outcome
  failed : (now : ℕ) → Outcome

pub time_of : Outcome → ℕ
time_of (succeeded now sample) = now
time_of (failed now) = now

-- The failures since the last success; the latest outcome is the first.
pub trailing : List Outcome → ℕ
trailing [] = 0
trailing (succeeded now sample ∷ outcomes) = 0
trailing (failed now ∷ outcomes) = suc (trailing outcomes)

-- The delay of an endpoint that was degraded and has failed `k` times since.
pub doubled : ℕ → ℕ → ℕ → ℕ
doubled base interval zero = base
doubled base interval (suc k) = min (base * 2 ^ suc k) interval

-- The delay before the next probe, behind `n` failures in a row.
pub delay : ℕ → ℕ → ℕ → ℕ → ℕ
unfolding doubled
delay threshold interval base zero = interval
delay threshold interval base (suc n) =
    if leb threshold (suc n) then doubled base interval (suc n - threshold) else base

module _ {Kalman : Type 0} (update : Kalman → ℕ → Kalman) (threshold interval base : ℕ) where
  abbrev pub step : Health Kalman → Outcome → Health Kalman
  step self (succeeded now sample) = record_success update now self sample interval base
  step self (failed now) = record_failure now self threshold interval base

  abbrev pub run : Health Kalman → List Outcome → Health Kalman
  run self [] = self
  run self (outcome ∷ outcomes) = step (run self outcomes) outcome

  -- What the state says behind `n` failures in a row.
  pub record Counts (n : ℕ) (self : Health Kalman) : Type 0 where
    pub counted : self.consecutive_failures ≡ min n max_u32
    pub flagged : self.degraded ≡ leb threshold n
    pub backed_off : self.degraded ≡ true → self.backoff ≡ doubled base interval (n - threshold)

  -- And when its next probe is due, behind one at a given time.
  pub record Scheduled (at n : ℕ) (self : Health Kalman) : Type 0 where
    pub counts : Counts n self
    pub due : self.next_probe ≡ at + delay threshold interval base n

  doubled-suc : (k : ℕ) → min (doubled base interval k * 2) interval ≡ doubled base interval (suc k)
  unfolding doubled
  doubled-suc zero = refl
  doubled-suc (suc k) = twice base (2 ^ suc k) interval (2 ^ suc (suc k)) (omega arith)
    where
      twice : (b x i y : ℕ) → y ≡ x * 2 → min (min (b * x) i * 2) i ≡ min (b * y) i
      twice b x i y e = omega (arith, ap (λ z. b * z) e ∙ sym (mul_assoc b x 2))

  counted-suc : (n cf : ℕ) → cf ≡ min n max_u32 → saturating_suc cf ≡ min (suc n) max_u32
  counted-suc n cf e = omega (arith, e)

  module _ (n now : ℕ) (self : Health Kalman) (le : threshold ≤ max_u32) (c : Counts n self) where
    again :
        leb threshold n ≡ true
        → Scheduled now (suc n) (record_failure now self threshold interval base)
    unfolding record_failure delay
    again reached = record {
      counts = record {
        counted = rw flag (counted-suc n self.consecutive_failures c.counted);
        flagged = rw flag (sym (leb_of_le threshold (suc n) (omega (arith, le_n))));
        backed_off = λ h. rw flag waits;
      };
      due = rw (flag, leb_of_le threshold (suc n) (omega (arith, le_n)), waits) refl;
    }
      where
        flag : self.degraded ≡ true
        flag = c.flagged ∙ reached

        le_n : threshold ≤ n
        le_n = leb-true threshold n reached

        later : suc n - threshold ≡ suc (n - threshold)
        later = omega (arith, le_n)

        waits : min (self.backoff * 2) interval ≡ doubled base interval (suc n - threshold)
        waits = rw (c.backed_off flag, later) (doubled-suc (n - threshold))

    newly :
        leb threshold n ≡ false
        → leb threshold (suc n) ≡ true
        → Scheduled now (suc n) (record_failure now self threshold interval base)
    unfolding record_failure delay
    newly before reached = record {
      counts = record {
        counted = rw (flag, now_reached) (counted-suc n self.consecutive_failures c.counted);
        flagged = rw (flag, now_reached) (sym reached);
        backed_off = λ h. rw (flag, now_reached) waits;
      };
      due = rw (flag, now_reached, reached) (ap (λ d. now + d) waits);
    }
      where
        flag : self.degraded ≡ false
        flag = c.flagged ∙ before

        now_reached : leb threshold (saturating_suc self.consecutive_failures) ≡ true
        now_reached =
            leb_of_le threshold (saturating_suc self.consecutive_failures)
              (omega (arith, le, leb-true threshold (suc n) reached, counted-suc n _ c.counted))

        first : suc n - threshold ≡ 0
        first = omega (arith, leb-false threshold n before)

        waits : base ≡ doubled base interval (suc n - threshold)
        waits = rw first (unfold doubled in refl)

    early :
        leb threshold n ≡ false
        → leb threshold (suc n) ≡ false
        → Scheduled now (suc n) (record_failure now self threshold interval base)
    unfolding record_failure delay
    early before still = record {
      counts = record {
        counted = rw (flag, not_reached) (counted-suc n self.consecutive_failures c.counted);
        flagged = rw (flag, not_reached) (sym still);
        backed_off = λ h. cc (rw (flag, not_reached) at h);
      };
      due = rw (flag, not_reached, still) refl;
    }
      where
        flag : self.degraded ≡ false
        flag = c.flagged ∙ before

        not_reached : leb threshold (saturating_suc self.consecutive_failures) ≡ false
        not_reached =
            leb_of_lt threshold (saturating_suc self.consecutive_failures)
              (omega (arith, leb-false threshold (suc n) still, counted-suc n _ c.counted))

  record_failure-Scheduled :
      (n now : ℕ) (self : Health Kalman)
      → threshold ≤ max_u32
      → Counts n self
      → Scheduled now (suc n) (record_failure now self threshold interval base)
  record_failure-Scheduled n now self le c = elim (Bool-cases (leb threshold n)) [
    | inl reached ↦ again n now self le c reached
    | inr before ↦ elim (Bool-cases (leb threshold (suc n))) [
      | inl reached ↦ newly n now self le c before reached
      | inr still ↦ early n now self le c before still
    ]
  ]

  record_success-Scheduled :
      (now sample : ℕ) (self : Health Kalman)
      → 1 ≤ threshold
      → Scheduled now 0 (record_success update now self sample interval base)
  unfolding record_success delay
  record_success-Scheduled now sample self ge = record {
    counts = record {
      counted = refl;
      flagged = sym (leb_of_lt threshold 0 (omega (arith, ge)));
      backed_off = λ h. cc;
    };
    due = refl;
  }

  module _ (kalman : Kalman) (start : ℕ) (ge : 1 ≤ threshold) (le : threshold ≤ max_u32) where
    run-Counts :
        (outcomes : List Outcome)
        → Counts (trailing outcomes) (run (new kalman start base) outcomes)
    unfolding new trailing
    run-Counts [] = record {
      counted = refl;
      flagged = sym (leb_of_lt threshold 0 (omega (arith, ge)));
      backed_off = λ h. cc;
    }
    run-Counts (succeeded now sample ∷ outcomes) =
        (record_success-Scheduled now sample (run (new kalman start base) outcomes) ge).counts
    run-Counts (failed now ∷ outcomes) =
        (record_failure-Scheduled (trailing outcomes) now _ le (run-Counts outcomes)).counts

    -- An endpoint is degraded exactly when it has failed as often in a row as the threshold says,
    -- and is probed next after the interval if its last probe succeeded, after the base delay while
    -- it is not degraded, and then after a delay that doubles up to the interval with each failure;
    -- for every history of probes, the threshold being at least 1.
    pub run-Scheduled :
        (outcome : Outcome) (outcomes : List Outcome)
        → Scheduled
            (time_of outcome)
            (trailing (outcome ∷ outcomes))
            (run (new kalman start base) (outcome ∷ outcomes))
    unfolding trailing time_of
    run-Scheduled (succeeded now sample) outcomes =
        record_success-Scheduled now sample (run (new kalman start base) outcomes) ge
    run-Scheduled (failed now) outcomes =
        record_failure-Scheduled (trailing outcomes) now _ le (run-Counts outcomes)
