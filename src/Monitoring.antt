-- ===== src/Monitoring.antt =====
-- The observation window and the health of the crawl queue in apps/api/src/services/monitoring.ts.
-- The environment is a parameter, and so is `Number` of a text, as `none` when the result is not
-- finite; the settings are natural numbers.
pub mod Health
pub mod Growth
pub mod Exported
use vn_phone_dp.Prelude.{
  ℕ, ◌-◌, ◌*◌, ◌/◌, Bool, ◌||◌, Option, none, some, [], ◌∷◌, Text, codes, leb, if◌then◌else◌,
}
use vn_phone_dp.Schema.{Timestamp}

pub data QueueStatus : Type 0 where
  healthy warning critical : QueueStatus

pub record QueueHealthThresholds : Type 0 where
  pub warning_pending : ℕ
  pub critical_pending : ℕ
  pub warning_age_minutes : ℕ
  pub critical_age_minutes : ℕ

pub record ObservationWindow : Type 0 where
  pub started_at : Option Timestamp
  pub elapsed_seconds : ℕ
  pub target_seconds : ℕ
  pub remaining_seconds : ℕ

abbrev unstarted : ℕ → ObservationWindow
unstarted target_seconds = record {
  started_at = none;
  elapsed_seconds = 0;
  target_seconds = target_seconds;
  remaining_seconds = target_seconds;
}

module _ (env : Text → Option Text) (number : Text → Option ℕ) where
  -- A variable that is missing or empty has the fallback.
  unfoldable pub env_int : Text → ℕ → ℕ
  env_int name fallback = elim (env name) [
    | none ↦ fallback
    | some [] ↦ fallback
    | some (c ∷ raw) ↦ elim (number (c ∷ raw)) [ none ↦ fallback | some parsed ↦ parsed ]
  ]

  unfoldable pub read_queue_health_thresholds : QueueHealthThresholds
  read_queue_health_thresholds = record {
    warning_pending = env_int (codes "QUEUE_WARNING_PENDING_JOBS") 10;
    critical_pending = env_int (codes "QUEUE_CRITICAL_PENDING_JOBS") 30;
    warning_age_minutes = env_int (codes "QUEUE_WARNING_AGE_MINUTES") 60;
    critical_age_minutes = env_int (codes "QUEUE_CRITICAL_AGE_MINUTES") 180;
  }

  -- `date` is the time of a text, `now` is `Date.now()`.
  unfoldable pub get_observation_window : (Text → Timestamp) → Timestamp → ObservationWindow
  get_observation_window date now =
      let target_seconds = env_int (codes "OBSERVATION_DURATION_HOURS") 72 * 3600 in
      elim (env (codes "OBSERVATION_STARTED_AT")) [
        | none ↦ unstarted target_seconds
        | some [] ↦ unstarted target_seconds
        | some (c ∷ raw) ↦
            let elapsed_seconds = (now - date (c ∷ raw)) / 1000 in
            record {
              started_at = some (date (c ∷ raw));
              elapsed_seconds = elapsed_seconds;
              target_seconds = target_seconds;
              remaining_seconds = target_seconds - elapsed_seconds;
            }
      ]

-- `seconds / 60 >= minutes`, where no pending job counts as an age of 0.
unfoldable pub is_aged : Option ℕ → ℕ → Bool
is_aged none minutes = leb minutes 0
is_aged (some seconds) minutes = leb (minutes * 60) seconds

unfoldable pub evaluate_queue_health : ℕ → Option ℕ → QueueHealthThresholds → QueueStatus
evaluate_queue_health pending_jobs oldest t =
    if leb t.critical_pending pending_jobs || is_aged oldest t.critical_age_minutes
    then QueueStatus.critical
    else if leb t.warning_pending pending_jobs || is_aged oldest t.warning_age_minutes
    then QueueStatus.warning
    else QueueStatus.healthy
