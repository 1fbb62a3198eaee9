-- ===== src/Routes/Reports.antt =====
-- routes/spamReports.ts
use vn_phone_dp.Prelude.{
  ℕ, not, Option, none, some, List, [], ◌∷◌, Text, codes, text_eq, if◌then◌else◌,
}
use vn_phone_dp.Phone.{normalize_vietnam_phone}
use vn_phone_dp.Schema.{Uuid, Timestamp, SpamReportCategory, SpamRiskLevel, SpamReport}
use vn_phone_dp.Spam.{
  SpamSummary, SubmitSpamReportResult, RecentSpamReport, get_spam_summary, submit_spam_report,
  get_recent_spam_reports,
}
use vn_phone_dp.Spam.Summary.{Group}
use vn_phone_dp.Routes.{Reply, ok, bad_request, unprocessable, server_error}

pub record ReportBody : Type 0 where
  pub phone_raw : Option Text
  pub category : Option Text
  pub note : Option Text
  pub reporter_ref : Option Text

pub record ReportReply : Type 0 where
  pub phone_raw : Text
  pub phone_normalized : Option Text
  pub report_count : ℕ
  pub distinct_reporters : ℕ
  pub risk_level : SpamRiskLevel

abbrev pub category_name : SpamReportCategory → Text
category_name SpamReportCategory.spam = codes "SPAM"
category_name SpamReportCategory.scam = codes "SCAM"
category_name SpamReportCategory.telemarketing = codes "TELEMARKETING"
category_name SpamReportCategory.harassment = codes "HARASSMENT"
category_name SpamReportCategory.other = codes "OTHER"

abbrev pub valid_categories : List SpamReportCategory
valid_categories =
    SpamReportCategory.spam ∷ SpamReportCategory.scam ∷ SpamReportCategory.telemarketing
    ∷ SpamReportCategory.harassment ∷ SpamReportCategory.other ∷ []

-- The category with a name, if it is one.
unfoldable pub category_named : List SpamReportCategory → Text → Option SpamReportCategory
category_named [] name = none
category_named (c ∷ cs) name =
    let rest = category_named cs name in if text_eq (category_name c) name then some c else rest

-- The reply to a result; the counts of a missing summary are 0, its level is NONE.
unfoldable pub report_reply : SubmitSpamReportResult → Reply ReportReply
report_reply result =
    if not result.valid
    then unprocessable (codes "invalid_phone_format") result.phone_raw
    else ok (elim (result.summary) [
      | none ↦ record {
        phone_raw = result.phone_raw;
        phone_normalized = result.phone_normalized;
        report_count = 0;
        distinct_reporters = 0;
        risk_level = SpamRiskLevel.none;
      }
      | some summary ↦ record {
        phone_raw = result.phone_raw;
        phone_normalized = result.phone_normalized;
        report_count = summary.report_count;
        distinct_reporters = summary.distinct_reporters;
        risk_level = summary.risk_level;
      }
    ])

module _ (arrange : List Group → List Group) where
  abbrev submitted :
      Uuid
      → Timestamp
      → Text
      → Option SpamReportCategory
      → ReportBody
      → List SpamReport
      → List SpamReport × Reply ReportReply
  submitted id now phone_raw category body reports =
      let result =
        submit_spam_report arrange id now
          (record {
            phone_raw = phone_raw;
            category = category;
            note = body.note;
            reporter_ref = body.reporter_ref;
          })
          reports in
      (result.0, report_reply result.1)

  -- An empty category passes the check, and is no value of the enumeration: a number that can be
  -- normalized then fails in the `INSERT`.
  unfoldable pub empty_category : Text → List SpamReport → List SpamReport × Reply ReportReply
  empty_category phone_raw reports = elim ((normalize_vietnam_phone phone_raw).normalized) [
    | none ↦ (reports, unprocessable (codes "invalid_phone_format") phone_raw)
    | some phone ↦ (reports, server_error)
  ]

  unfoldable pub post_report_with :
      Uuid → Timestamp → Text → ReportBody → List SpamReport → List SpamReport × Reply ReportReply
  post_report_with id now phone_raw body reports = elim (body.category) [
    | none ↦ submitted id now phone_raw none body reports
    | some name ↦ elim name [
      | [] ↦ empty_category phone_raw reports
      | ◌∷◌ c s ↦ elim (category_named valid_categories (c ∷ s)) [
        | none ↦ (reports, bad_request (codes "invalid_category"))
        | some category ↦ submitted id now phone_raw (some category) body reports
      ]
    ]
  ]

  unfoldable pub post_report :
      Uuid → Timestamp → ReportBody → List SpamReport → List SpamReport × Reply ReportReply
  post_report id now body reports = elim (body.phone_raw) [
    | none ↦ (reports, bad_request (codes "missing_phone_raw"))
    | some phone_raw ↦ elim phone_raw [
      | [] ↦ (reports, bad_request (codes "missing_phone_raw"))
      | ◌∷◌ c s ↦ post_report_with id now (c ∷ s) body reports
    ]
  ]

  -- The summary and the recent reports of a number.
  unfoldable pub get_reports :
      (List SpamReport → List SpamReport)
      → List SpamReport
      → Text
      → Reply (Text × SpamSummary × List RecentSpamReport)
  get_reports arrange_reports reports phone = elim ((normalize_vietnam_phone phone).normalized) [
    | none ↦ unprocessable (codes "invalid_phone_format") phone
    | some normalized ↦ ok (
      normalized,
      get_spam_summary arrange reports normalized,
      get_recent_spam_reports arrange_reports reports normalized 10,
    )
  ]
