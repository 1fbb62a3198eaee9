-- ===== src/Tests/Jobs.antt =====
-- Runs of the job queue's functions.
use Prim.Native.String.{String}
use vn_phone_dp.Prelude.{ℕ, ◌+◌, ◌≤◌, ◌≡◌, refl, none, some, List, [], ◌∷◌, codes, length}
use vn_phone_dp.Prelude.Groups.{count, distinct}
use vn_phone_dp.Prelude.Sorting.{IsOrdered, total, sort_by, insert_by}
use mathlib.Core.List.{Memᴰ}
use mathlib.Core.List.Permᴰ
use vn_phone_dp.Jobs.{
  JobStatus, CrawlJob, AcquisitionJob, discovery_job, job_statuses, status_name, type_name,
  map_job_row, condition, source_name_of, status_eq, statuses, list_jobs, get_job, set_count,
  assign_counts, status_rows, get_job_stats, enqueue_domain_discovery, last_started,
}
use vn_phone_dp.Jobs.Counts.{get_job_stats-counts}
use vn_phone_dp.Jobs.Listed.{IsAsked, list_jobs-listed}

unfoldable program : Unit {0}
unfolding distinct sort_by insert_by condition source_name_of list_jobs get_job set_count
    assign_counts status_rows get_job_stats enqueue_domain_discovery last_started
program = tt

abbrev job : String → JobStatus → ℕ → CrawlJob
job id status created_at = record (discovery_job (codes id) created_at (codes "a.vn") none) {
  status = status;
}

abbrev jobs : List CrawlJob
jobs = job "1" JobStatus.pending 5 ∷ job "2" JobStatus.success 6 ∷ job "3" JobStatus.pending 7 ∷ []

abbrev listed : List AcquisitionJob
listed =
    map_job_row [] (job "3" JobStatus.pending 7) ∷ map_job_row [] (job "1" JobStatus.pending 5) ∷ []

pending_jobs : list_jobs (λ js. js) [] jobs (some (codes "PENDING")) (some []) 50 ≡ some listed
unfolding program
pending_jobs = refl

unknown_status : list_jobs (λ js. js) [] jobs (some (codes "DONE")) none 50 ≡ none
unfolding program
unknown_status = refl

enqueued :
    get_job []
      (enqueue_domain_discovery (codes "9") 8 (codes "b.vn") (some (codes "B")) jobs).0
      (codes "9")
    ≡ some (map_job_row [] (discovery_job (codes "9") 8 (codes "b.vn") (some (codes "B"))))
unfolding program
enqueued = refl

list_jobs-listed_example :
    (length listed ≤ 50)
    × IsOrdered (λ a b. b.created_at ≤ a.created_at) listed
    × ((a : AcquisitionJob)
        → Memᴰ a listed
        → (cj : CrawlJob) × Memᴰ cj jobs
          × IsAsked (status_name cj.status) (some (codes "PENDING"))
          × IsAsked (type_name cj.job_type) (some [])
          × (map_job_row [] cj ≡ a))
    × (length jobs ≤ 50
        → (cj : CrawlJob) → Memᴰ cj jobs
        → IsAsked (status_name cj.status) (some (codes "PENDING"))
        → IsAsked (type_name cj.job_type) (some [])
        → Memᴰ (map_job_row [] cj) listed)
list_jobs-listed_example =
    list_jobs-listed (λ js. js) (λ js. Permᴰ.refl js) [] jobs (some (codes "PENDING")) (some []) 50
      listed pending_jobs

get_job_stats-counts_example :
    ((s : JobStatus)
      → (get_job_stats (λ rs. rs) 9 jobs).by_status s ≡ count status_eq s (statuses jobs))
    × (total (get_job_stats (λ rs. rs) 9 jobs).by_status job_statuses ≡ length jobs)
    × ((get_job_stats
          (λ rs. rs)
          9
          (enqueue_domain_discovery (codes "9") 9 (codes "b.vn") none jobs).0).active
        ≡ (get_job_stats (λ rs. rs) 9 jobs).active + 1)
get_job_stats-counts_example =
    get_job_stats-counts (λ rs. rs) (λ rs. Permᴰ.refl rs) 9 jobs (codes "9") (codes "b.vn") none
