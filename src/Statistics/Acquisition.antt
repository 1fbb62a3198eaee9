-- ===== src/Statistics/Acquisition.antt =====
-- getAcquisitionStats in apps/api/src/services/acquisition.ts. No job finishes before it starts.
use vn_phone_dp.Prelude.{
  ℕ, ◌+◌, ◌-◌, ◌*◌, ◌/◌, Bool, true, false, not, ◌&&◌, none, some, List, [], ◌∷◌, map, Text,
  text_eq, length, filter, ◌==◌, if◌then◌else◌,
}
use vn_phone_dp.Prelude.Groups.{distinct}
use vn_phone_dp.Prelude.Sorting.{total}
use vn_phone_dp.Schema.{Uuid}
use vn_phone_dp.Directory.{Tables}
use vn_phone_dp.Jobs.{JobType, JobStatus, CrawlJob, status_eq}
use vn_phone_dp.Statistics.{Ratio, ratio, is_none, duplicate_content_ratio}

pub data CrawlStatus : Type 0 where
  pending processing success failed skipped : CrawlStatus

pub record CrawlTarget : Type 0 where
  pub id : Uuid
  pub source_id : Uuid
  pub url : Text
  pub crawl_status : CrawlStatus

pub record DomainDiscovery : Type 0 where
  pub id : Uuid
  pub domain : Text
  pub sitemaps_found : ℕ
  pub urls_discovered : ℕ
  pub urls_high_priority : ℕ
  pub urls_queued : ℕ

abbrev is_pending_target : CrawlTarget → Bool
is_pending_target ct = elim (ct.crawl_status) [
  | CrawlStatus.pending ↦ true
  | CrawlStatus.processing ↦ false
  | CrawlStatus.success ↦ false
  | CrawlStatus.failed ↦ false
  | CrawlStatus.skipped ↦ false
]

-- `job_type IN ('CRAWL_URL','CRAWL_SOURCE','RECRAWL')`
abbrev pub is_crawl : JobType → Bool
is_crawl JobType.crawl_url = true
is_crawl JobType.crawl_source = true
is_crawl JobType.recrawl = true
is_crawl _ = false

abbrev pub crawls_with : JobStatus → List CrawlJob → ℕ
crawls_with status jobs =
    length (filter (λ cj. is_crawl cj.job_type && status_eq cj.status status) jobs)

-- The times, in milliseconds, that the finished jobs took.
unfoldable pub durations : List CrawlJob → List ℕ
durations [] = []
durations (cj ∷ jobs) =
    let rest = durations jobs in
    elim (cj.finished_at) [
      | none ↦ rest
      | some finished ↦ elim (cj.started_at) [
        | none ↦ rest
        | some started ↦ (finished - started) ∷ rest
      ]
    ]

-- `Math.round(AVG(…))`, 0 where there is none.
unfoldable pub rounded_average : List ℕ → ℕ
rounded_average ds =
    let n = length ds in if n == 0 then 0 else (2 * total (λ d. d) ds + n) / (2 * n)

pub record AcquisitionStats : Type 0 where
  pub total_sources : ℕ
  pub active_sources : ℕ
  pub total_crawl_targets : ℕ
  pub pending_targets : ℕ
  pub successful_crawls : ℕ
  pub failed_crawls : ℕ
  pub average_crawl_duration_ms : ℕ
  pub domains_discovered : ℕ
  pub sitemaps_discovered : ℕ
  pub urls_discovered : ℕ
  pub urls_high_priority : ℕ
  pub urls_queued : ℕ
  pub raw_documents : ℕ
  pub phone_observations : ℕ
  pub unique_phone_numbers : ℕ
  pub phones_per_document : Ratio
  pub duplicate_content_ratio : Ratio
  pub invalid_phone_ratio : Ratio
  pub normalization_success_rate : Ratio

unfoldable pub get_acquisition_stats :
    Tables → List CrawlTarget → List CrawlJob → List DomainDiscovery → AcquisitionStats
get_acquisition_stats t targets jobs discoveries =
    let observations = length t.observations in
    let invalid = length (filter (λ po. is_none po.phone_normalized) t.observations) in
    record {
      total_sources = length t.data_sources;
      active_sources = length (filter (λ ds. ds.is_active) t.data_sources);
      total_crawl_targets = length targets;
      pending_targets = length (filter is_pending_target targets);
      successful_crawls = crawls_with JobStatus.success jobs;
      failed_crawls = crawls_with JobStatus.failed jobs;
      average_crawl_duration_ms = rounded_average (durations jobs);
      domains_discovered = length (distinct text_eq (map (λ dd. dd.domain) discoveries));
      sitemaps_discovered = total (λ dd. dd.sitemaps_found) discoveries;
      urls_discovered = total (λ dd. dd.urls_discovered) discoveries;
      urls_high_priority = total (λ dd. dd.urls_high_priority) discoveries;
      urls_queued = total (λ dd. dd.urls_queued) discoveries;
      raw_documents = length t.raw_documents;
      phone_observations = observations;
      unique_phone_numbers = length t.phone_numbers;
      phones_per_document = ratio observations (length t.raw_documents);
      duplicate_content_ratio = duplicate_content_ratio t.raw_documents;
      invalid_phone_ratio = ratio invalid observations;
      normalization_success_rate =
          ratio (length (filter (λ po. not (is_none po.phone_normalized)) t.observations))
            observations;
    }
