-- ===== src/Tests/Spam.antt =====
-- The cases of spamReports.test.ts and labelSuppressions.test.ts that need no server.
use mathlib.Core.List.Permᴰ
use Prim.Native.String.{String}
use vn_phone_dp.Prelude.{
  ap, false, arith, ◌≤◌, ◌<◌, ◌≡◌, ◌≢◌, ◌↔◌, refl, true, false, not, ◌&&◌, ◌||◌, none, some, List,
  [], ◌∷◌, arith, Text, codes, text_eq, length, includes, All,
}
use vn_phone_dp.Prelude.Groups.{distinct}
use vn_phone_dp.Schema.{SpamReport, SpamReportCategory, SpamRiskLevel, scam, spam, LabelSuppression}
use vn_phone_dp.Spam.{SubmitSpamReportInput, filtered, get_spam_summary, submit_spam_report}
use vn_phone_dp.Spam.Summary.{Group, IsSummary, get_spam_summary-IsSummary}
use vn_phone_dp.Spam.Reporters.{
  IsAdded, reporter_keys, submit_spam_report-accepted, get_spam_summary-high,
}
use vn_phone_dp.Phone.{normalizer}
use vn_phone_dp.Suppression.{suppress_number, unsuppress_number, is_suppressed}
use vn_phone_dp.Suppression.Table.{
  IsUnique, suppress_number-accepted, unsuppress_number-accepted, unsuppress-suppress,
}
use vn_phone_dp.Settings.{AppSetting, get_setting}
use vn_phone_dp.Directory.{get_blocked_digits}
use vn_phone_dp.Routes.{ok, get_app, put_app}
use vn_phone_dp.Routes.App.{put_app-get_app}
use vn_phone_dp.Tests.Program.{program}

abbrev test_phone : Text
test_phone = codes "+84399000222"

abbrev as_is : List Group → List Group
as_is groups = groups

abbrev input : String → SpamReportCategory → String → SubmitSpamReportInput
input phone c ref = record {
  phone_raw = codes phone;
  category = some c;
  note = none;
  reporter_ref = some (codes ref);
}

-- The table after four reports, two of them by one reporter.
abbrev after : List SpamReport → SubmitSpamReportInput → List SpamReport
after reports i = (submit_spam_report as_is (codes "id") 0 i reports).0

four : List SpamReport
four =
    after
      (after
        (after (after [] (input "0399000222" scam "device-a"))
          (input "0399 000 222" scam "device-a"))
        (input "+84399000222" spam "device-b"))
      (input "0399000222" scam "device-c")

accumulates : get_spam_summary as_is four test_phone ≡ record {
  report_count = 4;
  distinct_reporters = 3;
  risk_level = SpamRiskLevel.medium;
  top_category = some scam;
  category_breakdown = (spam, 1) ∷ (scam, 3) ∷ [];
}
unfolding program four
accumulates = refl

get_spam_summary-IsSummary_example :
    IsSummary (filtered test_phone four) (get_spam_summary as_is four test_phone)
get_spam_summary-IsSummary_example = get_spam_summary-IsSummary as_is Permᴰ.refl four test_phone

submit_spam_report-accepted_example :
    let (stored, reply) =
      submit_spam_report as_is (codes "id") 7 (input "0399.000.222" scam "device-d") four in
    IsAdded as_is test_phone (codes "device-d") four stored
    × (reply.valid ≡ true)
    × (reply.phone_normalized ≡ some test_phone)
    × (reply.summary ≡ some (get_spam_summary as_is stored test_phone))
unfolding program
submit_spam_report-accepted_example =
    submit_spam_report-accepted as_is (codes "id") 7 (input "0399.000.222" scam "device-d") four
      test_phone refl

get_spam_summary-high_example :
    let s = get_spam_summary as_is four test_phone in
    ((s.risk_level ≡ SpamRiskLevel.high)
      ↔ (10 ≤ length (distinct text_eq (reporter_keys (filtered test_phone four)))))
    × ((ks : List Text)
        → All (λ k. includes ks k ≡ true) (reporter_keys (filtered test_phone four))
        → length ks < 10
        → s.risk_level ≢ SpamRiskLevel.high)
get_spam_summary-high_example = get_spam_summary-high as_is Permᴰ.refl four test_phone

abbrev silenced : List LabelSuppression
silenced = record { phone_normalized = test_phone; reason = none; created_at = 3 } ∷ []

silenced-IsUnique : IsUnique silenced
unfolding program
silenced-IsUnique q = ground arith

suppress_number-accepted_example :
    let (stored, reply) = suppress_number 5 (codes "0912345678") none silenced in
    ((q : Text)
      → is_suppressed stored q ≡ (text_eq (codes "+84912345678") q || is_suppressed silenced q))
    × IsUnique stored
    × (reply.phone_normalized ≡ some (codes "+84912345678"))
    × (reply.valid ≡ true)
unfolding normalizer
suppress_number-accepted_example =
    suppress_number-accepted 5 (codes "0912345678") none silenced (codes "+84912345678") refl
      silenced-IsUnique

unsuppress_number-accepted_example :
    let (stored, reply) = unsuppress_number (codes "0399 000 222") silenced in
    ((q : Text) → is_suppressed stored q ≡ (not (text_eq test_phone q) && is_suppressed silenced q))
    × IsUnique stored
    × (reply.phone_normalized ≡ some test_phone)
    × (reply.valid ≡ true)
unfolding normalizer
unsuppress_number-accepted_example =
    unsuppress_number-accepted (codes "0399 000 222") silenced test_phone refl silenced-IsUnique

unsuppress-suppress_example :
    is_suppressed
      (unsuppress_number
        (codes "+84 912 345 678")
        (suppress_number 5 (codes "0912345678") none silenced).0).0
      test_phone
    ≡ is_suppressed silenced test_phone
unfolding program
unsuppress-suppress_example =
    unsuppress-suppress 5 (codes "0912345678") (codes "+84 912 345 678") none silenced
      (codes "+84912345678") refl refl refl test_phone

abbrev stored_settings : List AppSetting
stored_settings = record { key = codes "other"; value = true; updated_at = 0 } ∷ []

put_app-get_app_example :
    let (after, reply) = put_app 1 (some true) stored_settings in
    (reply ≡ ok true)
    × (get_app after ≡ ok true)
    × (get_setting (codes "other") false after ≡ get_setting (codes "other") false stored_settings)
    × (get_blocked_digits (λ xs. xs) (put_app 1 (some false) stored_settings).0 four silenced ≡ [])
    × (get_blocked_digits (λ xs. xs) (put_app 1 none stored_settings).0 four silenced
        ≡ get_blocked_digits (λ xs. xs) stored_settings four silenced)
put_app-get_app_example =
    put_app-get_app 1 true false (codes "other") stored_settings (λ xs. xs) four silenced
      (λ e. absurd (ground (arith, ap (λ (t : Text). length t) e)))
