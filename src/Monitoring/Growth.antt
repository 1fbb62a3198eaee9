-- ===== src/Monitoring/Growth.antt =====
-- The counts of apps/api/src/services/monitoring.ts: the growth of the numbers that reach a phone, the
-- jobs of the last hours and those that run. `now` is the time of the query, and the hours of
-- `date_trunc` are those of UTC.
use vn_phone_dp.Prelude.{
  ℕ, ◌+◌, ◌-◌, ◌*◌, ◌/◌, ◌==◌, Bool, true, false, not, ◌&&◌, Option, none, some, List, map, Text,
  text_eq, length, filter, any, leb, ltb,
}
use vn_phone_dp.Prelude.Groups.{distinct, count}
use vn_phone_dp.Prelude.Sorting.{sort_by, total}
use vn_phone_dp.Schema.{Uuid, Timestamp, PhoneNumber, DataSource}
use vn_phone_dp.Directory.{Tables, is_callable, is_rejected, has_trusted_evidence}
use vn_phone_dp.Jobs.{JobType, JobStatus, CrawlJob, status_eq, source_name_of}
use vn_phone_dp.Statistics.{Ratio, ratio}
use vn_phone_dp.Statistics.Acquisition.{durations}

-- PRODUCTION_FILTER_SQL
unfoldable pub is_production : Tables → PhoneNumber → Bool
is_production t pn =
    is_callable pn.phone_type
    && any
        (λ pi.
          text_eq pi.phone_number_id pn.id
          && not (is_rejected pi.status)
          && has_trusted_evidence t pi)
        t.phone_identities

abbrev pub hour_ms : ℕ
hour_ms = 3600 * 1000

abbrev pub productions : Tables → List PhoneNumber
productions t = filter (is_production t) t.phone_numbers

-- `time > now() - interval 'h hours'`
abbrev pub is_within : Timestamp → ℕ → Timestamp → Bool
is_within now hours time = ltb now (time + hours * hour_ms)

abbrev pub added_within : Timestamp → ℕ → Tables → ℕ
added_within now hours t =
    length (filter (λ pn. is_within now hours pn.first_seen_at) (productions t))

pub record DataGrowth : Type 0 where
  pub total_numbers : ℕ
  pub added_1h : ℕ
  pub added_3h : ℕ
  pub added_6h : ℕ
  pub added_9h : ℕ
  pub added_12h : ℕ
  pub added_24h : ℕ
  pub added_observation : ℕ

-- The observation starts at the beginning of time where none was started.
abbrev start_of : Option Timestamp → Timestamp
start_of none = 0
start_of (some time) = time

unfoldable pub get_data_growth : Option Timestamp → Timestamp → Tables → DataGrowth
get_data_growth started_at now t = record {
  total_numbers = length (productions t);
  added_1h = added_within now 1 t;
  added_3h = added_within now 3 t;
  added_6h = added_within now 6 t;
  added_9h = added_within now 9 t;
  added_12h = added_within now 12 t;
  added_24h = added_within now 24 t;
  added_observation =
      length (filter (λ pn. ltb (start_of started_at) pn.first_seen_at) (productions t));
}

pub record GrowthBucket : Type 0 where
  pub bucket : Timestamp
  pub count : ℕ

abbrev pub hour_of : Timestamp → Timestamp
hour_of time = time / hour_ms * hour_ms

unfoldable pub get_data_growth_time_series : ℕ → Timestamp → Tables → List GrowthBucket
get_data_growth_time_series window_hours now t =
    let hours =
      map (λ pn. hour_of pn.first_seen_at)
        (filter (λ pn. is_within now window_hours pn.first_seen_at) (productions t)) in
    sort_by (λ a b. leb a.bucket b.bucket)
      (map (λ h. record { bucket = h; count = count (λ a b. a == b) h hours })
        (distinct (λ a b. a == b) hours))

abbrev pub jobs_with : JobStatus → List CrawlJob → List CrawlJob
jobs_with status jobs = filter (λ cj. status_eq cj.status status) jobs

-- `finished_at > now() - interval 'h hours'`; a missing time is not.
abbrev pub is_finished_within : Timestamp → ℕ → CrawlJob → Bool
is_finished_within now hours cj = elim (cj.finished_at) [
  | none ↦ false
  | some time ↦ is_within now hours time
]

pub record JobsSummary : Type 0 where
  pub pending : ℕ
  pub running : ℕ
  pub completed : ℕ
  pub failed : ℕ
  pub completed_1h : ℕ
  pub completed_6h : ℕ
  pub completed_24h : ℕ
  pub failed_1h : ℕ
  pub failed_24h : ℕ
  pub average_duration_seconds : Ratio

abbrev pub recent_jobs : Timestamp → ℕ → JobStatus → List CrawlJob → List CrawlJob
recent_jobs now hours status jobs =
    filter (λ cj. is_finished_within now hours cj) (jobs_with status jobs)

-- The average in seconds is the quotient of the milliseconds by a thousand times the jobs.
unfoldable pub get_jobs_summary : Timestamp → List CrawlJob → JobsSummary
get_jobs_summary now jobs =
    let lately = durations (recent_jobs now 24 JobStatus.success jobs) in
    record {
      pending = length (jobs_with JobStatus.pending jobs);
      running = length (jobs_with JobStatus.running jobs);
      completed = length (jobs_with JobStatus.success jobs);
      failed = length (jobs_with JobStatus.failed jobs);
      completed_1h = length (recent_jobs now 1 JobStatus.success jobs);
      completed_6h = length (recent_jobs now 6 JobStatus.success jobs);
      completed_24h = length (recent_jobs now 24 JobStatus.success jobs);
      failed_1h = length (recent_jobs now 1 JobStatus.failed jobs);
      failed_24h = length (recent_jobs now 24 JobStatus.failed jobs);
      average_duration_seconds = ratio (total (λ d. d) lately) (1000 * length lately);
    }

pub record RunningJob : Type 0 where
  pub id : Uuid
  pub job_type : JobType
  pub source_name : Option Text
  pub started_at : Option Timestamp
  pub duration_seconds : Option ℕ
  pub attempt_count : ℕ
  pub max_attempts : ℕ

abbrev pub elapsed : Timestamp → Option Timestamp → Option ℕ
elapsed now none = none
elapsed now (some time) = some ((now - time) / 1000)

-- `ORDER BY cj.started_at ASC`, in which a missing time comes last.
abbrev pub starts_no_later : RunningJob → RunningJob → Bool
starts_no_later a b = elim (a.started_at) [
  | none ↦ elim (b.started_at) [ none ↦ true | some time ↦ false ]
  | some time ↦ elim (b.started_at) [ none ↦ true | some other ↦ leb time other ]
]

unfoldable pub get_running_jobs :
    (List RunningJob → List RunningJob)
    → Timestamp
    → List DataSource
    → List CrawlJob
    → List RunningJob
get_running_jobs arrange now sources jobs = sort_by starts_no_later (
    arrange (
      map
        (λ cj. record {
          id = cj.id;
          job_type = cj.job_type;
          source_name = source_name_of sources cj.source_id;
          started_at = cj.started_at;
          duration_seconds = elapsed now cj.started_at;
          attempt_count = cj.attempt_count;
          max_attempts = cj.max_attempts;
        })
        (jobs_with JobStatus.running jobs)))
