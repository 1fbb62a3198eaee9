-- ===== src/Statistics.antt =====
-- The counts of apps/api/src/services/stats.ts, and those of one source in
-- apps/api/src/services/acquisition.ts. A quotient is kept as its two numbers: `toFixed` writes it
-- with two or four places.
pub mod Acquisition
use vn_phone_dp.Prelude.{
  ℕ, ◌+◌, ◌-◌, ◌*◌, ◌/◌, Bool, true, false, not, ◌&&◌, ◌||◌, Option, none, some, List, [], ◌∷◌,
  ◌++◌, map, Text, codes, text_eq, length, filter, take, leb, ltb, ◌==◌, if◌then◌else◌,
}
use vn_phone_dp.Prelude.Groups.{distinct, count}
use vn_phone_dp.Prelude.Sorting.{sort_by, total}
use vn_phone_dp.Phone.{PhoneType}
use vn_phone_dp.Schema.{
  Uuid, Timestamp, SourceType, TrustLevel, DataSource, RawDocument, PhoneObservation, PhoneNumber,
}
use vn_phone_dp.Directory.{Tables}
use vn_phone_dp.Jobs.{JobType, JobStatus, CrawlJob, status_eq}

pub record Ratio : Type 0 where
  pub part : ℕ
  pub whole : ℕ

-- A quotient by zero counts as 0.
unfoldable pub ratio : ℕ → ℕ → Ratio
ratio part whole =
    if whole == 0 then record { part = 0; whole = 1 } else record { part = part; whole = whole }

abbrev is_unknown_type : PhoneType → Bool
is_unknown_type PhoneType.unknown = true
is_unknown_type _ = false

abbrev pub is_none : Option Text → Bool
is_none none = true
is_none (some s) = false

unfoldable pub duplicate_content_ratio : List RawDocument → Ratio
duplicate_content_ratio documents =
    let total = length documents in
    ratio (total - length (distinct text_eq (map (λ rd. rd.content_hash) documents))) total

-- The names of the sources of the observations, one for each row of the join.
unfoldable pub source_names_of_document : List DataSource → RawDocument → List Text
source_names_of_document sources rd =
    map (λ ds. ds.name) (filter (λ ds. text_eq ds.id rd.source_id) sources)

unfoldable pub source_names_in : List DataSource → List RawDocument → List Text
source_names_in sources [] = []
source_names_in sources (rd ∷ documents) =
    source_names_of_document sources rd ++ source_names_in sources documents

unfoldable pub observed_source_names :
    List DataSource → List RawDocument → List PhoneObservation → List Text
observed_source_names sources documents [] = []
observed_source_names sources documents (po ∷ observations) =
    source_names_in sources (filter (λ rd. text_eq rd.id po.raw_document_id) documents)
    ++ observed_source_names sources documents observations

pub record SourceCount : Type 0 where
  pub name : Text
  pub phone_count : ℕ

-- The five names with the most observations; `arrange` is the order of the groups.
unfoldable pub top_sources : (List SourceCount → List SourceCount) → Tables → List SourceCount
top_sources arrange t =
    let names = observed_source_names t.data_sources t.raw_documents t.observations in
    take 5 (
      sort_by (λ a b. leb b.phone_count a.phone_count)
        (arrange (
          map (λ name. record { name = name; phone_count = count text_eq name names })
            (distinct text_eq names))))

pub record DataQualityStats : Type 0 where
  pub total_raw_documents : ℕ
  pub total_observations : ℕ
  pub total_unique_phone_numbers : ℕ
  pub valid_phones : ℕ
  pub invalid_phone_candidates : ℕ
  pub phones_with_multiple_evidence : ℕ
  pub duplicate_content_ratio : Ratio
  pub top_sources_by_phone_count : List SourceCount

unfoldable pub get_data_quality_stats :
    (List SourceCount → List SourceCount) → Tables → DataQualityStats
get_data_quality_stats arrange t = record {
  total_raw_documents = length t.raw_documents;
  total_observations = length t.observations;
  total_unique_phone_numbers = length t.phone_numbers;
  valid_phones = length (filter (λ pn. not (is_unknown_type pn.phone_type)) t.phone_numbers);
  invalid_phone_candidates = length (filter (λ po. is_none po.phone_normalized) t.observations);
  phones_with_multiple_evidence =
      length (filter (λ pn. ltb 3 pn.observation_count) t.phone_numbers);
  duplicate_content_ratio = duplicate_content_ratio t.raw_documents;
  top_sources_by_phone_count = top_sources arrange t;
}

-- The rows of a source in `raw_documents LEFT JOIN phone_observations`.
abbrev pub documents_of : Tables → DataSource → List RawDocument
documents_of t ds = filter (λ rd. text_eq rd.source_id ds.id) t.raw_documents

unfoldable pub observations_in : List PhoneObservation → List RawDocument → List PhoneObservation
observations_in observations [] = []
observations_in observations (rd ∷ documents) =
    filter (λ po. text_eq po.raw_document_id rd.id) observations
    ++ observations_in observations documents

abbrev pub observations_of : Tables → DataSource → List PhoneObservation
observations_of t ds = observations_in t.observations (documents_of t ds)

abbrev pub document_count : Tables → DataSource → ℕ
document_count t ds = length (distinct text_eq (map (λ rd. rd.id) (documents_of t ds)))

pub record SourceStats : Type 0 where
  pub id : Uuid
  pub name : Text
  pub source_type : SourceType
  pub trust_level : TrustLevel
  pub raw_documents : ℕ
  pub observations : ℕ

-- `ORDER BY ds.name`, where `no_later` is the collation of the database.
unfoldable pub get_source_stats :
    (Text → Text → Bool) → (List SourceStats → List SourceStats) → Tables → List SourceStats
get_source_stats no_later arrange t =
    sort_by (λ a b. no_later a.name b.name)
      (arrange (
        map
          (λ ds. record {
            id = ds.id;
            name = ds.name;
            source_type = ds.source_type;
            trust_level = ds.trust_level;
            raw_documents = document_count t ds;
            observations = length (observations_of t ds);
          })
          t.data_sources))

pub record SourcePerformance : Type 0 where
  pub source_id : Uuid
  pub source_name : Text
  pub trust_level : TrustLevel
  pub urls_crawled : ℕ
  pub phone_observations : ℕ
  pub unique_phones : ℕ
  pub yield_per_page : Ratio

-- The values that are not null.
abbrev pub known_numbers : List PhoneObservation → List Text
known_numbers [] = []
known_numbers (po ∷ observations) =
    let rest = known_numbers observations in
    elim (po.phone_normalized) [ none ↦ rest | some phone ↦ phone ∷ rest ]

abbrev pub performance_of : Tables → DataSource → SourcePerformance
performance_of t ds =
    let observations = observations_of t ds in
    record {
      source_id = ds.id;
      source_name = ds.name;
      trust_level = ds.trust_level;
      urls_crawled = document_count t ds;
      phone_observations = length observations;
      unique_phones = length (distinct text_eq (known_numbers observations));
      yield_per_page = ratio (length observations) (document_count t ds);
    }

-- `WHERE ds.id = $1`; the id is the primary key.
unfoldable pub find_source : List DataSource → Uuid → Option DataSource
find_source [] id = none
find_source (ds ∷ sources) id =
    let rest = find_source sources id in if text_eq ds.id id then some ds else rest

unfoldable pub get_source_performance : Tables → Uuid → Option SourcePerformance
get_source_performance t id = elim (find_source t.data_sources id) [
  | none ↦ none
  | some ds ↦ some (performance_of t ds)
]
