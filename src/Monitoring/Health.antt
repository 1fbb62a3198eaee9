-- ===== src/Monitoring/Health.antt =====
-- How the health follows the queue.
use vn_phone_dp.Prelude.{
  ℕ, ◌*◌, ◌≤◌, ◌≡◌, refl, Bool, true, false, ◌||◌, Option, none, some, arith, leb, if◌then◌else◌,
}
use vn_phone_dp.Monitoring.{QueueStatus, QueueHealthThresholds, is_aged, evaluate_queue_health}

abbrev pub severity : QueueStatus → ℕ
severity QueueStatus.healthy = 0
severity QueueStatus.warning = 1
severity QueueStatus.critical = 2

-- The age in seconds, 0 when no job is pending.
abbrev pub age : Option ℕ → ℕ
age none = 0
age (some seconds) = seconds

is_aged_lem :
    (oldest : Option ℕ) (minutes : ℕ) → is_aged oldest minutes ≡ leb (minutes * 60) (age oldest)
unfolding is_aged
is_aged_lem none minutes = ground arith
is_aged_lem (some seconds) minutes = ground arith

-- A threshold of jobs or of minutes is reached.
abbrev reached : ℕ → Option ℕ → ℕ → ℕ → Bool
reached pending oldest jobs minutes = leb jobs pending || is_aged oldest minutes

reached-monotone :
    (pending more : ℕ) (oldest older : Option ℕ) (jobs jobs' minutes minutes' : ℕ)
    → pending ≤ more
    → age oldest ≤ age older
    → jobs' ≤ jobs
    → minutes' ≤ minutes
    → reached pending oldest jobs minutes ≡ true
    → reached more older jobs' minutes' ≡ true
reached-monotone pending more oldest older jobs jobs' minutes minutes' h k j m r =
    ground (arith, is_aged_lem oldest minutes, is_aged_lem older minutes')

graded :
    (c w c' w' : Bool)
    → (c ≡ true → c' ≡ true)
    → (w ≡ true → w' ≡ true)
    → severity
        (if c then QueueStatus.critical else if w then QueueStatus.warning else QueueStatus.healthy)
      ≤ severity (
          if c'
          then QueueStatus.critical
          else if w'
          then QueueStatus.warning
          else QueueStatus.healthy)
graded true w true w' h k = omega arith
graded true w false w' h k = absurd (ground (arith, h refl))
graded false true true w' h k = omega arith
graded false true false true h k = omega arith
graded false true false false h k = absurd (ground (arith, k refl))
graded false false true w' h k = omega arith
graded false false false true h k = omega arith
graded false false false false h k = omega arith

-- A queue with no fewer pending jobs, of which the oldest is no younger, is never reported
-- healthier, at thresholds that are no higher.
pub evaluate_queue_health-monotone :
    (pending more : ℕ) (oldest older : Option ℕ) (t u : QueueHealthThresholds)
    → pending ≤ more
    → age oldest ≤ age older
    → u.warning_pending ≤ t.warning_pending
    → u.critical_pending ≤ t.critical_pending
    → u.warning_age_minutes ≤ t.warning_age_minutes
    → u.critical_age_minutes ≤ t.critical_age_minutes
    → severity (evaluate_queue_health pending oldest t)
      ≤ severity (evaluate_queue_health more older u)
unfolding evaluate_queue_health
evaluate_queue_health-monotone pending more oldest older t u h k wp cp wa ca =
    graded _ _ _ _
      (reached-monotone pending more oldest older t.critical_pending u.critical_pending
        t.critical_age_minutes u.critical_age_minutes h k cp ca)
      (reached-monotone pending more oldest older t.warning_pending u.warning_pending
        t.warning_age_minutes u.warning_age_minutes h k wp wa)
