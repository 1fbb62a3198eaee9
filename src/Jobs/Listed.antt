-- ===== src/Jobs/Listed.antt =====
-- The list of the jobs that a request asks for.
use mathlib.Core.List.{Permᴰ, Memᴰ}
use mathlib.Core.List.Permᴰ
use mathlib.Core.List.Memᴰ
use vn_phone_dp.Prelude.{
  ℕ, zero, suc, ◌≤◌, ◌≡◌, ◌↔◌, refl, ap, Bool, true, ◌&&◌, Option, none, some, List, [], ◌∷◌, ◌++◌,
  map, Text, arith, length, length-map, length-filter, filter, take, all, leb, includes, text_eq,
  text_eq_iff, All, Bool-cases, Option-cases, inl, inr,
}
use vn_phone_dp.Prelude.Sorting.{sort_by, sort_by-perm, sort_by-IsOrdered, IsOrdered, Memᴰ-perm}
use vn_phone_dp.Prelude.Members.{length-perm, mem-filter, mem-of_filter, IsOrdered-map}
use vn_phone_dp.Schema.{DataSource}
use vn_phone_dp.Jobs.{
  CrawlJob, AcquisitionJob, type_name, status_name, job_types, job_statuses, map_job_row, condition,
  list_jobs,
}

-- The first elements of a list.
module _ {ℓ} {A : Type ℓ} where
  mem-take : (n : ℕ) (xs : List A) {x : A} → Memᴰ x (take n xs) → Memᴰ x xs
  mem-take zero xs m = absurd (Memᴰ.not-nil m)
  mem-take (suc n) [] m = absurd (Memᴰ.not-nil m)
  mem-take (suc n) (y ∷ ys) (Memᴰ.head e) = Memᴰ.head e
  mem-take (suc n) (y ∷ ys) (Memᴰ.tail m) = Memᴰ.tail (mem-take n ys m)

  length-take_le : (n : ℕ) (xs : List A) → length (take n xs) ≤ n
  length-take_le zero xs = omega arith
  length-take_le (suc n) [] = omega arith
  length-take_le (suc n) (y ∷ ys) = omega (arith, length-take_le n ys)

  take_all : (n : ℕ) (xs : List A) → length xs ≤ n → take n xs ≡ xs
  take_all zero [] h = refl
  take_all zero (y ∷ ys) h = absurd (omega arith)
  take_all (suc n) [] h = refl
  take_all (suc n) (y ∷ ys) h = ap (λ zs. y ∷ zs) (take_all n ys (omega arith))

  All-take {κ} : (P : A → Type κ) (n : ℕ) (xs : List A) → All P xs → All P (take n xs)
  All-take P zero xs h = tt
  All-take P (suc n) [] h = tt
  All-take P (suc n) (y ∷ ys) (h, hs) = (h, All-take P n ys hs)

  IsOrdered-take {κ} :
      (R : A → A → Type κ) (n : ℕ) (xs : List A) → IsOrdered R xs → IsOrdered R (take n xs)
  IsOrdered-take R zero xs h = tt
  IsOrdered-take R (suc n) [] h = tt
  IsOrdered-take R (suc n) (y ∷ ys) (h, hs) = (All-take (R y) n ys h, IsOrdered-take R n ys hs)

  all-append : (p : A → Bool) (xs ys : List A) → all p (xs ++ ys) ≡ (all p xs && all p ys)
  all-append p [] ys = refl
  all-append p (x ∷ xs) ys = ground (arith, all-append p xs ys)

-- What a parameter of the request asks of a column: nothing, if it is missing or empty.
abbrev pub IsAsked : Text → Option Text → Type 0
IsAsked value none = Unit
IsAsked value (some []) = Unit
IsAsked value (some (c ∷ s)) = value ≡ c ∷ s

some_injective {ℓ} : {A : Type ℓ} (a b : A) → some a ≡ some b → a ≡ b
some_injective {A = A} a b h = ap (λ (o : Option A). elim o [ none ↦ a | some c ↦ c ]) h

condition-IsAsked :
    (names : List Text) (column : CrawlJob → Text) (asked : Option Text)
    (conditions : List (CrawlJob → Bool)) (cj : CrawlJob)
    → condition names column asked ≡ some conditions
    → (all (λ meets. meets cj) conditions ≡ true) ↔ IsAsked (column cj) asked
unfolding condition
condition-IsAsked names column none conditions cj h =
    rw (← some_injective [] conditions h) ((λ e. tt), λ t. refl)
condition-IsAsked names column (some []) conditions cj h =
    rw (← some_injective [] conditions h) ((λ e. tt), λ t. refl)
condition-IsAsked names column (some (c ∷ s)) conditions cj h =
    elim (Bool-cases (includes names (c ∷ s))) [
      | inl known ↦
          rw (← some_injective ((λ j. text_eq (column j) (c ∷ s)) ∷ []) conditions (rw known at h))
            (
              λ e. (text_eq_iff (column cj) (c ∷ s)).0 (ground arith),
              λ e. rw ((text_eq_iff (column cj) (c ∷ s)).1 e) refl,
            )
      | inr unknown ↦ absurd (ground (arith, rw unknown at h))
    ]

module _ (arrange : List CrawlJob → List CrawlJob)
    (perm : (jobs : List CrawlJob) → Permᴰ (arrange jobs) jobs) (sources : List DataSource)
    (jobs : List CrawlJob) (limit : ℕ) where
  -- The rows that meet the conditions, sorted and cut.
  abbrev rows_for : List (CrawlJob → Bool) → List CrawlJob
  rows_for conditions =
      sort_by (λ a b. leb b.created_at a.created_at)
        (arrange (filter (λ cj. all (λ meets. meets cj) conditions) jobs))

  rows_for-perm :
      (conditions : List (CrawlJob → Bool))
      → Permᴰ (rows_for conditions) (filter (λ cj. all (λ meets. meets cj) conditions) jobs)
  rows_for-perm conditions =
      Permᴰ.trans
        (sort_by-perm (λ (a b : CrawlJob). leb b.created_at a.created_at)
          (arrange (filter (λ cj. all (λ meets. meets cj) conditions) jobs)))
        (perm (filter (λ cj. all (λ meets. meets cj) conditions) jobs))

  rows_for-IsOrdered :
      (conditions : List (CrawlJob → Bool))
      → IsOrdered
          (λ (a b : AcquisitionJob). b.created_at ≤ a.created_at)
          (map (map_job_row sources) (take limit (rows_for conditions)))
  rows_for-IsOrdered conditions =
      IsOrdered-map (map_job_row sources) (λ (a b : AcquisitionJob). b.created_at ≤ a.created_at)
        (take limit (rows_for conditions))
        (IsOrdered-take (λ (a b : CrawlJob). b.created_at ≤ a.created_at) limit
          (rows_for conditions)
          (sort_by-IsOrdered (λ (a b : CrawlJob). b.created_at ≤ a.created_at)
            (λ (a b : CrawlJob). leb b.created_at a.created_at) (λ x y z h k. omega arith)
            (λ x y h. ground arith) (λ x y h. ground arith) _))

-- A list that PostgreSQL does not refuse has at most as many jobs as the limit, the newest first;
-- each is a job of the table that has the state and the type asked for, with the name of its source;
-- and if the table has no more jobs than the limit, every such job is listed. A parameter that is
-- missing or empty asks for nothing.
pub list_jobs-listed :
    (arrange : List CrawlJob → List CrawlJob)
    (perm : (jobs : List CrawlJob) → Permᴰ (arrange jobs) jobs) (sources : List DataSource)
    (jobs : List CrawlJob) (status job_type : Option Text) (limit : ℕ)
    (listed : List AcquisitionJob)
    → list_jobs arrange sources jobs status job_type limit ≡ some listed
    → (length listed ≤ limit)
      × IsOrdered (λ a b. b.created_at ≤ a.created_at) listed
      × ((a : AcquisitionJob)
          → Memᴰ a listed
          → (cj : CrawlJob) × Memᴰ cj jobs
            × IsAsked (status_name cj.status) status
            × IsAsked (type_name cj.job_type) job_type
            × (map_job_row sources cj ≡ a))
      × (length jobs ≤ limit
          → (cj : CrawlJob) → Memᴰ cj jobs
          → IsAsked (status_name cj.status) status
          → IsAsked (type_name cj.job_type) job_type
          → Memᴰ (map_job_row sources cj) listed)
unfolding list_jobs
list_jobs-listed arrange perm sources jobs status job_type limit listed h =
    elim (Option-cases
      (condition (map status_name job_statuses) (λ cj. status_name cj.status) status)) [
        | inl refused ↦ absurd (ground (arith, rw refused at h))
        | inr (by_status, e) ↦
            elim (Option-cases
              (condition (map type_name job_types) (λ cj. type_name cj.job_type) job_type)) [
                | inl refused ↦ absurd (ground (arith, rw (e, refused) at h))
                | inr (by_type, f) ↦
                    let rows = rows_for arrange perm sources jobs limit (by_status ++ by_type) in
                    let same =
                      some_injective (map (map_job_row sources) (take limit rows)) listed
                        (rw (e, f) at h) in
                    let meets = λ (cj : CrawlJob). all (λ c. c cj) (by_status ++ by_type) in
                    let kept =
                      rows_for-perm arrange perm sources jobs limit (by_status ++ by_type) in
                    let split = λ (cj : CrawlJob). all-append (λ c. c cj) by_status by_type in
                    let first = λ (cj : CrawlJob). condition-IsAsked _ _ status by_status cj e in
                    let second = λ (cj : CrawlJob). condition-IsAsked _ _ job_type by_type cj f in
                    rw (← same) (
                      omega (
                        arith,
                        length-map (map_job_row sources) (take limit rows),
                        length-take_le limit rows,
                      ),
                      rows_for-IsOrdered arrange perm sources jobs limit (by_status ++ by_type),
                      λ a m.
                          let (cj, n, q) = Memᴰ.of_map (map_job_row sources) (take limit rows) m in
                          let (stored, met) =
                            mem-of_filter meets jobs (Memᴰ-perm kept (mem-take limit rows n)) in
                          (
                            cj,
                            stored,
                            (first cj).0 (ground (arith, met, split cj)),
                            (second cj).0 (ground (arith, met, split cj)),
                            q,
                          ),
                      λ few cj m s t.
                          rw
                            (take_all limit rows
                              (omega (arith, length-perm kept, length-filter meets jobs, few)))
                            (Memᴰ.map (map_job_row sources) (
                              Memᴰ-perm (Permᴰ.symm kept) (
                                mem-filter meets jobs m
                                  (rw (split cj, (first cj).1 s) ((second cj).1 t))))),
                    )
              ]
      ]
