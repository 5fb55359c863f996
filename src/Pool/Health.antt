-- ===== src/Pool/Health.antt =====
-- src/pool.rs: `Health`, which decides when an endpoint is degraded and when it is probed next;
-- `Candidate::matches`. Times are numbers of one unit. The estimator over
-- round trips computes with floating-point numbers and is a parameter; nothing else reads it here. A
-- duration that overflows, where the source panics, is left out.
use sni_gate.Prelude.{
  ℕ, ◌+◌, ◌-◌, ◌*◌, ◌^◌, Bool, true, false, ◌&&◌, not, List, [], ◌∷◌, leb, ◌==◌, min, if◌then◌else◌,
  any,
}
use sni_gate.Text.{Text, text_eq}
use sni_gate.Config.Tables.{Selector, index, tag}

pub record Candidate : Type 0 where
  pub target : ℕ
  pub tags : List Text

abbrev pub matches_one : Candidate → Selector → Bool
matches_one self (index i) = i == self.target
matches_one self (tag t) = any (λ own. text_eq own t) self.tags

abbrev pub matches : Candidate → List Selector → Bool
matches self [] = true
matches self (s ∷ sel) = any (matches_one self) (s ∷ sel)

pub record Health (Kalman : Type 0) : Type 0 where
  pub kalman : Kalman
  pub consecutive_failures : ℕ
  pub degraded : Bool
  pub next_probe : ℕ
  pub backoff : ℕ

abbrev pub max_u32 : ℕ
max_u32 = 2 ^ 32 - 1

-- `saturating_add(1)`.
abbrev pub saturating_suc : ℕ → ℕ
saturating_suc n = min (n + 1) max_u32

module _ {Kalman : Type 0} where
  unfoldable pub new : Kalman → ℕ → ℕ → Health Kalman
  new kalman due backoff = record {
    kalman = kalman;
    consecutive_failures = 0;
    degraded = false;
    next_probe = due;
    backoff = backoff;
  }

  unfoldable pub record_success :
      (update : Kalman → ℕ → Kalman) (now : ℕ)
      → Health Kalman
      → (sample interval base_backoff : ℕ) → Health Kalman
  record_success update now self sample interval base_backoff = record {
    kalman = update self.kalman sample;
    consecutive_failures = 0;
    degraded = false;
    next_probe = now + interval;
    backoff = base_backoff;
  }

  -- The flag and the backoff behind the first test.
  abbrev pub degrade : Bool → Health Kalman → ℕ → ℕ → Health Kalman
  degrade true self interval base_backoff = record self { degraded = true; backoff = base_backoff }
  degrade false self interval base_backoff =
      if self.degraded then record self { backoff = min (self.backoff * 2) interval } else self

  abbrev pub schedule : ℕ → Health Kalman → ℕ → Health Kalman
  schedule now self base_backoff = record self {
    next_probe = now + (if self.degraded then self.backoff else base_backoff);
  }

  unfoldable pub record_failure :
      (now : ℕ) → Health Kalman → (threshold interval base_backoff : ℕ) → Health Kalman
  record_failure now self threshold interval base_backoff =
      let failed = record self {
        consecutive_failures = saturating_suc self.consecutive_failures;
      } in
      let newly_degraded = not failed.degraded && leb threshold failed.consecutive_failures in
      schedule now (degrade newly_degraded failed interval base_backoff) base_backoff
