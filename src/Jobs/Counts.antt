-- ===== src/Jobs/Counts.antt =====
-- The counts of the jobs' states.
use mathlib.Core.List.{Permᴰ, Memᴰ}
use mathlib.Core.List.Permᴰ
use mathlib.Core.List.Memᴰ
use vn_phone_dp.Prelude.{
  Text, ℕ, ◌+◌, ◌≡◌, ◌↔◌, refl, sym, ap, ◌∙◌, true, List, [], ◌∷◌, ◌++◌, map, arith, length,
  length-map, any, text_eq, text_eq_iff, All, ◌⊎◌, Option, if◌then◌else◌, Bool-cases, inl, inr,
}
use vn_phone_dp.Prelude.Groups.{distinct, count, total-count, mem-distinct, mem-any, count-zero}
use vn_phone_dp.Prelude.Sorting.{total, Memᴰ-perm, All-perm, All-of_mem}
use vn_phone_dp.Prelude.Members.{any-of_mem, All-map}
use vn_phone_dp.Schema.{Uuid, Timestamp}
use vn_phone_dp.Jobs.{
  JobStatus, CrawlJob, StatusCounts, status_name, status_eq, statuses, set_count, assign_counts,
  job_statuses, no_jobs, status_rows, get_job_stats, discovery_job, enqueue_domain_discovery,
}

status_of : Text → List JobStatus → JobStatus
status_of name [] = JobStatus.pending
status_of name (s ∷ ss) = if text_eq (status_name s) name then s else status_of name ss

status_of-status_name : (s : JobStatus) → status_of (status_name s) job_statuses ≡ s
unfolding status_of
status_of-status_name JobStatus.pending = refl
status_of-status_name JobStatus.running = refl
status_of-status_name JobStatus.success = refl
status_of-status_name JobStatus.failed = refl
status_of-status_name JobStatus.retry = refl
status_of-status_name JobStatus.cancelled = refl

-- No two states have one name.
pub status_eq_iff : (a b : JobStatus) → (status_eq a b ≡ true) ↔ (a ≡ b)
status_eq_iff a b = (
  λ h.
      sym (status_of-status_name a)
      ∙ ap (λ n. status_of n job_statuses) ((text_eq_iff (status_name a) (status_name b)).0 h)
      ∙ status_of-status_name b,
  λ e. (text_eq_iff (status_name a) (status_name b)).1 (ap (λ s. status_name s) e),
)

-- The last row of a state gives its count; the rows have one for each state.
assign_counts-mem :
    (f : JobStatus → ℕ) (rows : List (JobStatus × ℕ)) (counts : StatusCounts) (s : JobStatus)
    → All (λ (r : JobStatus × ℕ). r.1 ≡ f r.0) rows
    → ((any (λ r. status_eq r.0 s) rows ≡ true) ⊎ (counts s ≡ f s))
    → assign_counts rows counts s ≡ f s
unfolding assign_counts set_count
assign_counts-mem f [] counts s all' (inl h) = absurd (ground arith)
assign_counts-mem f [] counts s all' (inr h) = h
assign_counts-mem f ((t, n) ∷ rows) counts s (e, es) h =
    assign_counts-mem f rows (set_count t n counts) s es (elim (Bool-cases (status_eq t s)) [
      | inl same ↦ inr (rw same (e ∙ ap f ((status_eq_iff t s).0 same)))
      | inr other ↦ elim h [ inl h' ↦ inl (rw other at h') | inr k ↦ inr (rw other k) ]
    ])

module _ (arrange : List (JobStatus × ℕ) → List (JobStatus × ℕ))
    (perm : (rows : List (JobStatus × ℕ)) → Permᴰ (arrange rows) rows) (now : Timestamp) where
  by_status-count :
      (jobs : List CrawlJob) (s : JobStatus)
      → (get_job_stats arrange now jobs).by_status s ≡ count status_eq s (statuses jobs)
  unfolding get_job_stats status_rows
  by_status-count jobs s =
      let number : JobStatus → ℕ = λ t. count status_eq t (statuses jobs) in
      let row_of : JobStatus → JobStatus × ℕ = λ t. (t, number t) in
      let rows : List (JobStatus × ℕ) = map row_of (distinct status_eq (statuses jobs)) in
      assign_counts-mem number (arrange rows) no_jobs s
        (All-perm (λ (r : JobStatus × ℕ). r.1 ≡ number r.0) (Permᴰ.symm (perm rows))
          (All-map row_of (λ (r : JobStatus × ℕ). r.1 ≡ number r.0)
            (distinct status_eq (statuses jobs))
            (All-of_mem (λ (t : JobStatus). number t ≡ number t)
              (distinct status_eq (statuses jobs)) (λ t m. refl))))
        (elim (Bool-cases (any (status_eq s) (statuses jobs))) [
          | inl some' ↦
              let key =
                (mem-distinct status_eq status_eq_iff s (statuses jobs)).0
                  (mem-any status_eq status_eq_iff s (statuses jobs) some') in
              let row : Memᴰ (s, number s) rows = Memᴰ.map row_of key in
              let row' = Memᴰ-perm (Permᴰ.symm (perm rows)) row in
              inl (
                any-of_mem (λ (r : JobStatus × ℕ). status_eq r.0 s) (arrange rows) row'
                  ((status_eq_iff s s).1 refl))
          | inr none' ↦ inr (sym (count-zero status_eq s (statuses jobs) none'))
        ])

-- Each state is one of the six, once.
once : (s : JobStatus) → count status_eq s job_statuses ≡ 1
once JobStatus.pending = refl
once JobStatus.running = refl
once JobStatus.success = refl
once JobStatus.failed = refl
once JobStatus.retry = refl
once JobStatus.cancelled = refl

count-snoc :
    (s : JobStatus) (jobs : List CrawlJob) (cj : CrawlJob)
    → count status_eq s (statuses (jobs ++ cj ∷ []))
      ≡ count status_eq s (statuses jobs) + (if status_eq s cj.status then 1 else 0)
count-snoc s [] cj = omega arith
count-snoc s (k ∷ jobs) cj = omega (arith, count-snoc s jobs cj)

-- Each state has as many jobs as its count says, in whatever order PostgreSQL returns the groups; the
-- six counts add up to the number of jobs; and a discovery that is enqueued adds one to the active
-- jobs.
pub get_job_stats-counts :
    (arrange : List (JobStatus × ℕ) → List (JobStatus × ℕ))
    (perm : (rows : List (JobStatus × ℕ)) → Permᴰ (arrange rows) rows) (now : Timestamp)
    (jobs : List CrawlJob) (id : Uuid) (domain : Text) (source_name : Option Text)
    → ((s : JobStatus)
        → (get_job_stats arrange now jobs).by_status s ≡ count status_eq s (statuses jobs))
      × (total (get_job_stats arrange now jobs).by_status job_statuses ≡ length jobs)
      × ((get_job_stats arrange now
            (enqueue_domain_discovery id now domain source_name jobs).0).active
          ≡ (get_job_stats arrange now jobs).active + 1)
unfolding get_job_stats enqueue_domain_discovery
get_job_stats-counts arrange perm now jobs id domain source_name =
    let is = by_status-count arrange perm now jobs in
    let job = discovery_job id now domain source_name in
    let is' = by_status-count arrange perm now (jobs ++ job ∷ []) in
    let more = λ (s : JobStatus). count-snoc s jobs job in
    (
      is,
      omega (
        arith,
        is JobStatus.pending,
        is JobStatus.running,
        is JobStatus.success,
        is JobStatus.failed,
        is JobStatus.retry,
        is JobStatus.cancelled,
        total-count status_eq status_eq_iff job_statuses (statuses jobs) (
            All-of_mem (λ (s : JobStatus). count status_eq s job_statuses ≡ 1) (statuses jobs)
              (λ s m. once s)),
        length-map (λ (cj : CrawlJob). cj.status) jobs,
      ),
      omega (
        arith,
        is JobStatus.pending,
        is JobStatus.running,
        is JobStatus.retry,
        is' JobStatus.pending,
        is' JobStatus.running,
        is' JobStatus.retry,
        more JobStatus.pending,
        more JobStatus.running,
        more JobStatus.retry,
      ),
    )
