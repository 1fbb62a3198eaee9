-- ===== src/Routes.antt =====
-- The routes of apps/api/src/routes that check a request: what they ask of it, the service they call
-- and the reply. A member of a body that is missing, or has another type than the route asks for, is
-- `none`; the names of the members of a reply are left out.
pub mod App
pub mod Suppressed
pub mod Reports
pub mod Calls
use vn_phone_dp.Prelude.{
  ℕ, Bool, true, false, not, Option, none, some, List, [], ◌∷◌, Text, codes, filter, length, trim,
  if◌then◌else◌,
}
use vn_phone_dp.Phone.{normalize_vietnam_phone}
use vn_phone_dp.Schema.{Uuid, Timestamp, LabelSuppression, PhoneNumber}
use vn_phone_dp.Suppression.{SuppressionResult, suppress_number, unsuppress_number, is_suppressed}
use vn_phone_dp.Settings.{
  AppSetting, set_setting, auto_block_high_risk, is_auto_block_high_risk_enabled,
}
use vn_phone_dp.Directory.{Tables}
use vn_phone_dp.UserConfirmed.{
  UserConfirmedEntry, UserConfirmedResult, Fresh, import_user_confirmed_identities,
}
use vn_phone_dp.Lookup.{FoundPhone, search_phones}
use vn_phone_dp.Schema.{DataSource}
use vn_phone_dp.Jobs.{CrawlJob, AcquisitionJob, get_job, enqueue_domain_discovery}
use vn_phone_dp.Statistics.{SourcePerformance, get_source_performance}

-- 200, 400, 404 and 422; the last with the number that was sent; and 500 for a statement that
-- PostgreSQL refuses.
pub data Reply {ℓ} (A : Type ℓ) : Type ℓ where
  ok : A → Reply A
  bad_request : Text → Reply A
  not_found : Text → Reply A
  unprocessable : Text → Text → Reply A
  server_error : Reply A

-- routes/settings.ts
abbrev pub get_app : List AppSetting → Reply Bool
get_app rows = ok (is_auto_block_high_risk_enabled rows)

unfoldable pub put_app : Timestamp → Option Bool → List AppSetting → List AppSetting × Reply Bool
put_app now none rows = (rows, bad_request (codes "auto_block_high_risk_must_be_boolean"))
put_app now (some value) rows = (set_setting now auto_block_high_risk value rows, ok value)

-- The reply of both routes that change the table: the number, and whether it is suppressed now.
unfoldable pub suppression_reply : Text → Bool → SuppressionResult → Reply (Option Text × Bool)
suppression_reply phone_raw suppressed result =
    if not result.valid
    then unprocessable (codes "invalid_phone_format") phone_raw
    else ok (result.phone_normalized, suppressed)

unfoldable pub post_suppressed_number :
    Timestamp
    → Option Text
    → Option Text
    → List LabelSuppression
    → List LabelSuppression × Reply (Option Text × Bool)
post_suppressed_number now none reason rows = (rows, bad_request (codes "missing_phone_raw"))
post_suppressed_number now (some []) reason rows = (rows, bad_request (codes "missing_phone_raw"))
post_suppressed_number now (some (c ∷ s)) reason rows =
    let result = suppress_number now (c ∷ s) reason rows in
    (result.0, suppression_reply (c ∷ s) true result.1)

unfoldable pub delete_suppressed_number :
    Text → List LabelSuppression → List LabelSuppression × Reply (Option Text × Bool)
delete_suppressed_number phone rows =
    let result = unsuppress_number phone rows in (result.0, suppression_reply phone false result.1)

unfoldable pub get_suppression_status : List LabelSuppression → Text → Reply (Option Text × Bool)
get_suppression_status rows phone = elim ((normalize_vietnam_phone phone).normalized) [
  | none ↦ unprocessable (codes "invalid_phone_format") phone
  | some normalized ↦ ok (some normalized, is_suppressed rows normalized)
]

-- routes/phones.ts
unfoldable pub get_search :
    (List PhoneNumber → List PhoneNumber)
    → List PhoneNumber
    → Option Text
    → Reply (Text × List FoundPhone)
get_search arrange numbers none = bad_request (codes "missing_query_param_q")
get_search arrange numbers (some raw) = elim (trim raw) [
  | [] ↦ bad_request (codes "missing_query_param_q")
  | ◌∷◌ c s ↦ ok (c ∷ s, search_phones arrange numbers (c ∷ s) 20)
]

-- routes/userConfirmedIdentity.ts
pub record ImportReply : Type 0 where
  pub imported : ℕ
  pub skipped : ℕ
  pub results : List UserConfirmedResult

unfoldable pub post_user_confirmed :
    (Text → Text)
    → (Text → Text)
    → Uuid
    → (ℕ → Fresh)
    → Option (List UserConfirmedEntry)
    → Tables
    → Tables × Reply ImportReply
post_user_confirmed sha256 to_lower_case new_source fresh none t =
    (t, bad_request (codes "entries must be a non-empty array"))
post_user_confirmed sha256 to_lower_case new_source fresh (some []) t =
    (t, bad_request (codes "entries must be a non-empty array"))
post_user_confirmed sha256 to_lower_case new_source fresh (some (e ∷ entries)) t =
    let done =
      import_user_confirmed_identities sha256 to_lower_case new_source fresh (e ∷ entries) t in
    (
      done.0,
      ok (record {
        imported = length (filter (λ r. r.valid) done.1);
        skipped = length (filter (λ r. not r.valid) done.1);
        results = done.1;
      }),
    )

-- routes/acquisition.ts
unfoldable pub post_discovery :
    Uuid
    → Timestamp
    → Option Text
    → Option Text
    → List CrawlJob
    → List CrawlJob × Reply (Uuid × Text)
post_discovery id now none source_name jobs = (jobs, bad_request (codes "domain is required"))
post_discovery id now (some []) source_name jobs = (jobs, bad_request (codes "domain is required"))
post_discovery id now (some (c ∷ domain)) source_name jobs =
    let queued = enqueue_domain_discovery id now (c ∷ domain) source_name jobs in
    (queued.0, ok (queued.1, codes "PENDING"))

unfoldable pub get_acquisition_job : List DataSource → List CrawlJob → Uuid → Reply AcquisitionJob
get_acquisition_job sources jobs id = elim (get_job sources jobs id) [
  | none ↦ not_found (codes "job not found")
  | some job ↦ ok job
]

unfoldable pub get_performance : Tables → Uuid → Reply SourcePerformance
get_performance t id = elim (get_source_performance t id) [
  | none ↦ not_found (codes "source not found")
  | some performance ↦ ok performance
]
