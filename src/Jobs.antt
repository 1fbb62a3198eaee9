-- ===== src/Jobs.antt =====
-- The crawl jobs: the list, the single job and the new discovery in
-- apps/api/src/services/acquisition.ts, and the counts in apps/api/src/services/jobStats.ts. The rows
-- are those of database/migrations/0003_acquisition_engine.sql; the JSON object of a job is the list
-- of its members, whose values are texts here.
pub mod Listed
pub mod Counts
use vn_phone_dp.Prelude.{
  ◌>>=◌, ℕ, zero, suc, ◌+◌, ◌*◌, Bool, true, false, ◌&&◌, Option, none, some, List, [], ◌∷◌, ◌++◌,
  map, Text, codes, text_eq, includes, length, filter, all, take, leb, max, if◌then◌else◌,
}
use vn_phone_dp.Prelude.Groups.{distinct, count}
use vn_phone_dp.Prelude.Sorting.{sort_by}
use vn_phone_dp.Schema.{Uuid, Timestamp, DataSource}

pub data JobType : Type 0 where
  crawl_source crawl_url discover_domain discover_sitemap ingest_dataset recrawl : JobType

pub data JobStatus : Type 0 where
  pending running success failed retry cancelled : JobStatus

abbrev pub Metadata : Type 0
Metadata = List (Text × Text)

pub record CrawlJob : Type 0 where
  pub id : Uuid
  pub job_type : JobType
  pub source_id : Option Uuid
  pub crawl_target_id : Option Uuid
  pub priority : ℕ
  pub status : JobStatus
  pub attempt_count : ℕ
  pub max_attempts : ℕ
  pub scheduled_at : Timestamp
  pub started_at : Option Timestamp
  pub finished_at : Option Timestamp
  pub error_message : Option Text
  pub metadata : Metadata
  pub created_at : Timestamp

pub record AcquisitionJob : Type 0 where
  pub id : Uuid
  pub job_type : JobType
  pub source_id : Option Uuid
  pub source_name : Option Text
  pub crawl_target_id : Option Uuid
  pub priority : ℕ
  pub status : JobStatus
  pub attempt_count : ℕ
  pub max_attempts : ℕ
  pub scheduled_at : Timestamp
  pub started_at : Option Timestamp
  pub finished_at : Option Timestamp
  pub error_message : Option Text
  pub metadata : Metadata
  pub created_at : Timestamp

abbrev pub type_name : JobType → Text
type_name JobType.crawl_source = codes "CRAWL_SOURCE"
type_name JobType.crawl_url = codes "CRAWL_URL"
type_name JobType.discover_domain = codes "DISCOVER_DOMAIN"
type_name JobType.discover_sitemap = codes "DISCOVER_SITEMAP"
type_name JobType.ingest_dataset = codes "INGEST_DATASET"
type_name JobType.recrawl = codes "RECRAWL"

abbrev pub status_name : JobStatus → Text
status_name JobStatus.pending = codes "PENDING"
status_name JobStatus.running = codes "RUNNING"
status_name JobStatus.success = codes "SUCCESS"
status_name JobStatus.failed = codes "FAILED"
status_name JobStatus.retry = codes "RETRY"
status_name JobStatus.cancelled = codes "CANCELLED"

abbrev pub job_types : List JobType
job_types =
    JobType.crawl_source ∷ JobType.crawl_url ∷ JobType.discover_domain ∷ JobType.discover_sitemap
    ∷ JobType.ingest_dataset ∷ JobType.recrawl ∷ []

abbrev pub job_statuses : List JobStatus
job_statuses =
    JobStatus.pending ∷ JobStatus.running ∷ JobStatus.success ∷ JobStatus.failed ∷ JobStatus.retry
    ∷ JobStatus.cancelled ∷ []

-- The joined row's name, as `LEFT JOIN data_sources ds ON ds.id = cj.source_id` gives it; the id is
-- the primary key, so that there is one row at most.
unfoldable pub source_name_of : List DataSource → Option Uuid → Option Text
source_name_of sources none = none
source_name_of [] (some id) = none
source_name_of (ds ∷ sources) (some id) =
    let rest = source_name_of sources (some id) in if text_eq ds.id id then some ds.name else rest

abbrev pub map_job_row : List DataSource → CrawlJob → AcquisitionJob
map_job_row sources cj = record {
  id = cj.id;
  job_type = cj.job_type;
  source_id = cj.source_id;
  source_name = source_name_of sources cj.source_id;
  crawl_target_id = cj.crawl_target_id;
  priority = cj.priority;
  status = cj.status;
  attempt_count = cj.attempt_count;
  max_attempts = cj.max_attempts;
  scheduled_at = cj.scheduled_at;
  started_at = cj.started_at;
  finished_at = cj.finished_at;
  error_message = cj.error_message;
  metadata = cj.metadata;
  created_at = cj.created_at;
}

-- One condition of the WHERE clause, if the request has the parameter and it is not empty. The
-- column is an enumeration: PostgreSQL refuses to compare it with a text that is none of its names.
unfoldable pub condition :
    List Text → (CrawlJob → Text) → Option Text → Option (List (CrawlJob → Bool))
condition names column none = some []
condition names column (some []) = some []
condition names column (some (c ∷ s)) =
    if includes names (c ∷ s) then some ((λ cj. text_eq (column cj) (c ∷ s)) ∷ []) else none

-- The rows that meet all conditions, the newest first; `none` if PostgreSQL refuses the query.
-- `arrange` is the order of the rows of one time.
unfoldable pub list_jobs :
    (List CrawlJob → List CrawlJob)
    → List DataSource
    → List CrawlJob
    → Option Text
    → Option Text
    → ℕ
    → Option (List AcquisitionJob)
list_jobs arrange sources jobs status job_type limit = do
  by_status ← condition (map status_name job_statuses) (λ cj. status_name cj.status) status
  by_type ← condition (map type_name job_types) (λ cj. type_name cj.job_type) job_type
  some (
      map (map_job_row sources) (
        take limit (
          sort_by (λ a b. leb b.created_at a.created_at)
            (arrange (filter (λ cj. all (λ meets. meets cj) (by_status ++ by_type)) jobs)))))

unfoldable pub get_job : List DataSource → List CrawlJob → Uuid → Option AcquisitionJob
get_job sources [] id = none
get_job sources (cj ∷ jobs) id =
    let rest = get_job sources jobs id in
    if text_eq cj.id id then some (map_job_row sources cj) else rest

-- `JSON.stringify` leaves out a member that is undefined.
abbrev pub discovery_metadata : Text → Option Text → Metadata
discovery_metadata domain none = (codes "domain", domain) ∷ []
discovery_metadata domain (some name) = (codes "domain", domain) ∷ (codes "source_name", name) ∷ []

abbrev pub discovery_job : Uuid → Timestamp → Text → Option Text → CrawlJob
discovery_job id now domain source_name = record {
  id = id;
  job_type = JobType.discover_domain;
  source_id = none;
  crawl_target_id = none;
  priority = 150;
  status = JobStatus.pending;
  attempt_count = 0;
  max_attempts = 5;
  scheduled_at = now;
  started_at = none;
  finished_at = none;
  error_message = none;
  metadata = discovery_metadata domain source_name;
  created_at = now;
}

-- The new table, and the id that is returned.
unfoldable pub enqueue_domain_discovery :
    Uuid → Timestamp → Text → Option Text → List CrawlJob → List CrawlJob × Uuid
enqueue_domain_discovery id now domain source_name jobs =
    (jobs ++ discovery_job id now domain source_name ∷ [], id)

-- `Record<string, number>`, with a number for each state.
abbrev pub StatusCounts : Type 0
StatusCounts = JobStatus → ℕ

pub record JobStats : Type 0 where
  pub by_status : StatusCounts
  pub active : ℕ
  pub completed_24h : ℕ
  pub failed_24h : ℕ
  pub last_job_started_at : Option Timestamp

abbrev pub status_eq : JobStatus → JobStatus → Bool
status_eq a b = text_eq (status_name a) (status_name b)

abbrev pub no_jobs : StatusCounts
no_jobs status = 0

-- `counts[row.status] = Number(row.n)`
unfoldable pub set_count : JobStatus → ℕ → StatusCounts → StatusCounts
set_count status n counts other = if status_eq status other then n else counts other

unfoldable pub assign_counts : List (JobStatus × ℕ) → StatusCounts → StatusCounts
assign_counts [] counts = counts
assign_counts ((status, n) ∷ rows) counts = assign_counts rows (set_count status n counts)

abbrev pub statuses : List CrawlJob → List JobStatus
statuses jobs = map (λ cj. cj.status) jobs

-- `SELECT status, count(*) … GROUP BY status`
unfoldable pub status_rows : List CrawlJob → List (JobStatus × ℕ)
status_rows jobs =
    map (λ s. (s, count status_eq s (statuses jobs))) (distinct status_eq (statuses jobs))

abbrev pub day_ms : ℕ
day_ms = 24 * 3600 * 1000

-- `status = … AND finished_at > now() - interval '24 hours'`
abbrev pub finished_lately : Timestamp → JobStatus → CrawlJob → Bool
finished_lately now status cj = elim (cj.finished_at) [
  | none ↦ false
  | some time ↦ status_eq cj.status status && leb (now + 1) (time + day_ms)
]

-- `max(started_at)` of the rows that have one
unfoldable pub last_started : List CrawlJob → Option Timestamp
last_started [] = none
last_started (cj ∷ jobs) = elim (cj.started_at) [
  | none ↦ last_started jobs
  | some time ↦ elim (last_started jobs) [ none ↦ some time | some later ↦ some (max time later) ]
]

-- `arrange` is the order of the groups.
unfoldable pub get_job_stats :
    (List (JobStatus × ℕ) → List (JobStatus × ℕ)) → Timestamp → List CrawlJob → JobStats
get_job_stats arrange now jobs =
    let counts = assign_counts (arrange (status_rows jobs)) no_jobs in
    record {
      by_status = counts;
      active = counts JobStatus.pending + counts JobStatus.running + counts JobStatus.retry;
      completed_24h = length (filter (finished_lately now JobStatus.success) jobs);
      failed_24h = length (filter (finished_lately now JobStatus.failed) jobs);
      last_job_started_at = last_started jobs;
    }
