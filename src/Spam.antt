-- ===== src/Spam.antt =====
-- apps/api/src/services/spamReports.ts over the table `spam_reports`. The id and the time that
-- PostgreSQL gives to a new row are arguments; so is the order in which it returns the rows of a
-- query that names none, as a function that rearranges them.
pub mod Summary
pub mod Reporters
use vn_phone_dp.Prelude.{
  ℕ, ◌+◌, suc, Bool, true, false, Option, none, some, List, [], ◌∷◌, ◌++◌, map, Text, text_eq,
  length, take, filter, leb, ◌==◌, if◌then◌else◌,
}
use vn_phone_dp.Prelude.Groups.{distinct, count}
use vn_phone_dp.Prelude.Sorting.{sort_by}
use vn_phone_dp.Phone.{normalize_vietnam_phone}
use vn_phone_dp.Schema.{
  Uuid, Timestamp, SpamReport, SpamReportCategory, SpamRiskLevel, spam, scam, telemarketing,
  harassment, other,
}

pub data SkippedReason : Type 0 where
  invalid_phone_format : SkippedReason

pub record SubmitSpamReportInput : Type 0 where
  pub phone_raw : Text
  pub category : Option SpamReportCategory
  pub note : Option Text
  pub reporter_ref : Option Text

pub record SpamSummary : Type 0 where
  pub report_count : ℕ
  pub distinct_reporters : ℕ
  pub risk_level : SpamRiskLevel
  pub top_category : Option SpamReportCategory
  pub category_breakdown : List (SpamReportCategory × ℕ)

pub record SubmitSpamReportResult : Type 0 where
  pub phone_raw : Text
  pub phone_normalized : Option Text
  pub valid : Bool
  pub skipped_reason : Option SkippedReason
  pub summary : Option SpamSummary

unfoldable pub compute_risk_level : ℕ → SpamRiskLevel
compute_risk_level distinct_reporters =
    if leb 10 distinct_reporters
    then SpamRiskLevel.high
    else if leb 1 distinct_reporters
    then SpamRiskLevel.medium
    else SpamRiskLevel.none

-- Equality of two values of the enumeration.
abbrev pub category_index : SpamReportCategory → ℕ
category_index spam = 0
category_index scam = 1
category_index telemarketing = 2
category_index harassment = 3
category_index other = 4

abbrev pub category_eq : SpamReportCategory → SpamReportCategory → Bool
category_eq a b = category_index a == category_index b

-- `phone_normalized = $1`, which no NULL satisfies.
abbrev pub is_for : Text → Option Text → Bool
is_for phone none = false
is_for phone (some p) = text_eq p phone

-- `COALESCE(reporter_ref, id::text)`
abbrev pub coalesce : Option Text → Text → Text
coalesce none id = id
coalesce (some r) id = r

abbrev pub reporter_key : SpamReport → Text
reporter_key r = coalesce r.reporter_ref r.id

-- The query's `filtered`, `totals` and `by_category`.
unfoldable pub filtered : Text → List SpamReport → List SpamReport
filtered phone = filter (λ r. is_for phone r.phone_normalized)

unfoldable pub distinct_reporters : List SpamReport → ℕ
distinct_reporters rows = length (distinct text_eq (map (λ r. reporter_key r) rows))

abbrev pub categories : List SpamReport → List SpamReportCategory
categories rows = map (λ r. r.category) rows

unfoldable pub by_category : List SpamReport → List (SpamReportCategory × ℕ)
by_category rows =
    map (λ c. (c, count category_eq c (categories rows))) (distinct category_eq (categories rows))

-- `record[key] = value`
unfoldable pub assign :
    SpamReportCategory → ℕ → List (SpamReportCategory × ℕ) → List (SpamReportCategory × ℕ)
assign k v [] = (k, v) ∷ []
assign k v ((j, w) ∷ m) = if category_eq j k then (k, v) ∷ m else (j, w) ∷ assign k v m

-- The variables of the loop over the rows; `above` is `topCount + 1`, so that -1 is 0.
pub record Tally : Type 0 where
  pub category_breakdown : List (SpamReportCategory × ℕ)
  pub top_category : Option SpamReportCategory
  pub above : ℕ

abbrev pub empty_tally : Tally
empty_tally = record { category_breakdown = []; top_category = none; above = 0 }

unfoldable pub tally_row : Tally → SpamReportCategory × ℕ → Tally
tally_row t (category, category_count) =
    let breakdown = assign category category_count t.category_breakdown in
    if leb t.above category_count
    then record {
      category_breakdown = breakdown;
      top_category = some category;
      above = category_count + 1;
    }
    else record t { category_breakdown = breakdown }

unfoldable pub tally : Tally → List (SpamReportCategory × ℕ) → Tally
tally t [] = t
tally t (row ∷ rows) = tally (tally_row t row) rows

abbrev pub no_reports : SpamSummary
no_reports = record {
  report_count = 0;
  distinct_reporters = 0;
  risk_level = SpamRiskLevel.none;
  top_category = none;
  category_breakdown = [];
}

-- The answer for the rows of `filtered`, in the order in which the groups come.
unfoldable pub summarize : List SpamReport → List (SpamReportCategory × ℕ) → SpamSummary
summarize rows [] = no_reports
summarize rows (g ∷ groups) =
    let t = tally empty_tally (g ∷ groups) in
    let reporters = distinct_reporters rows in
    record {
      report_count = length rows;
      distinct_reporters = reporters;
      risk_level = compute_risk_level reporters;
      top_category = t.top_category;
      category_breakdown = t.category_breakdown;
    }

-- `category ?? "SPAM"`
abbrev or_spam : Option SpamReportCategory → SpamReportCategory
or_spam none = spam
or_spam (some c) = c

-- The row of the `INSERT`.
abbrev report_row : Uuid → Timestamp → SubmitSpamReportInput → Text → SpamReport
report_row id now input phone = record {
  id = id;
  phone_raw = input.phone_raw;
  phone_normalized = some phone;
  category = or_spam input.category;
  note = input.note;
  reporter_ref = input.reporter_ref;
  reported_at = now;
}

module _ (arrange : List (SpamReportCategory × ℕ) → List (SpamReportCategory × ℕ)) where
  unfoldable pub get_spam_summary : List SpamReport → Text → SpamSummary
  get_spam_summary reports phone =
      let rows = filtered phone reports in summarize rows (arrange (by_category rows))

  unfoldable pub submit_spam_report :
      Uuid
      → Timestamp
      → SubmitSpamReportInput
      → List SpamReport
      → List SpamReport × SubmitSpamReportResult
  submit_spam_report id now input reports =
      elim ((normalize_vietnam_phone input.phone_raw).normalized) [
        | none ↦ (
          reports,
          record {
            phone_raw = input.phone_raw;
            phone_normalized = none;
            valid = false;
            skipped_reason = some invalid_phone_format;
            summary = none;
          },
        )
        | some phone ↦
            let stored = reports ++ report_row id now input phone ∷ [] in
            (
              stored,
              record {
                phone_raw = input.phone_raw;
                phone_normalized = some phone;
                valid = true;
                skipped_reason = none;
                summary = some (get_spam_summary stored phone);
              },
            )
      ]

pub record RecentSpamReport : Type 0 where
  pub category : SpamReportCategory
  pub note : Option Text
  pub reported_at : Timestamp

-- `ORDER BY reported_at DESC LIMIT limit`; `arrange` is the order of rows of one time.
unfoldable pub get_recent_spam_reports :
    (List SpamReport → List SpamReport) → List SpamReport → Text → ℕ → List RecentSpamReport
get_recent_spam_reports arrange reports phone limit =
    map (λ r. record { category = r.category; note = r.note; reported_at = r.reported_at })
      (take limit
        (sort_by (λ a b. leb b.reported_at a.reported_at) (arrange (filtered phone reports))))
