-- ===== src/Tests/Queue.antt =====
-- The cases of apps/api/src/__tests__/monitoring.test.ts at the default thresholds.
use vn_phone_dp.Prelude.{◌≤◌, ◌≡◌, refl, none, some, arith}
use vn_phone_dp.Monitoring.{
  QueueStatus, QueueHealthThresholds, env_int, read_queue_health_thresholds, is_aged,
  evaluate_queue_health,
}
use vn_phone_dp.Monitoring.Health.{severity, evaluate_queue_health-monotone}

-- With no variable set.
abbrev defaults : QueueHealthThresholds
unfolding read_queue_health_thresholds env_int
defaults = read_queue_health_thresholds (λ name. none) (λ s. none)

statuses :
    (evaluate_queue_health 2 (some 120) defaults ≡ QueueStatus.healthy)
    × (evaluate_queue_health 15 (some 60) defaults ≡ QueueStatus.warning)
    × (evaluate_queue_health 1 (some 3660) defaults ≡ QueueStatus.warning)
    × (evaluate_queue_health 31 (some 60) defaults ≡ QueueStatus.critical)
    × (evaluate_queue_health 1 (some 10860) defaults ≡ QueueStatus.critical)
    × (evaluate_queue_health 0 none defaults ≡ QueueStatus.healthy)
unfolding evaluate_queue_health is_aged defaults
statuses = (refl, refl, refl, refl, refl, refl)

evaluate_queue_health-monotone_example :
    severity (evaluate_queue_health 5 none defaults)
    ≤ severity (evaluate_queue_health 12 (some 60) defaults)
unfolding defaults
evaluate_queue_health-monotone_example =
    evaluate_queue_health-monotone 5 12 none (some 60) defaults defaults (omega arith) (omega arith)
      (omega arith) (omega arith) (omega arith) (omega arith)
