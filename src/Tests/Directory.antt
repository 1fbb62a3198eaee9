-- ===== src/Tests/Directory.antt =====
-- The cases of apps/api/src/__tests__/callBlocking.test.ts, and the export of an identity.
use mathlib.Core.List.{Memᴰ}
use mathlib.Core.List.Permᴰ
use vn_phone_dp.Prelude.{
  ℕ, zero, suc, ◌<◌, ◌≡◌, ◌≢◌, refl, true, none, some, List, [], ◌∷◌, ◌++◌, arith, Text, codes, All,
}
use vn_phone_dp.Schema.{SpamReport, SpamReportCategory, scam, telemarketing, LabelSuppression}
use vn_phone_dp.Settings.{
  AppSetting, get_setting, auto_block_high_risk, is_auto_block_high_risk_enabled,
}
use vn_phone_dp.Phone.{digits_only}
use vn_phone_dp.Spam.{filtered}
use vn_phone_dp.Spam.Summary.{tallied}
use vn_phone_dp.Directory.{get_blocked_digits, known_phones}
use vn_phone_dp.Directory.Flags.{IsFlag, get_spam_flags-IsFlag}
use vn_phone_dp.Directory.Order.{IsAscending}
use vn_phone_dp.Directory.Stored.{IsStored}
use vn_phone_dp.Directory.Blocked.{
  IsHighRisk, IsSurelyHighRisk, get_blocked_digits-IsAscending, get_blocked_digits_sound,
  get_blocked_digits_complete,
}
use vn_phone_dp.Tests.Program.{program}

abbrev scam_phone : Text
scam_phone = codes "+84399000444"

abbrev report : SpamReportCategory → Text → ℕ → SpamReport
report c phone i = record {
  id = codes "id";
  phone_raw = phone;
  phone_normalized = some phone;
  category = c;
  note = none;
  reporter_ref = some (i ∷ []);
  reported_at = i;
}

abbrev ten_from : (ℕ → SpamReport) → ℕ → List SpamReport
ten_from f zero = []
ten_from f (suc n) = f n ∷ ten_from f n

abbrev reports : List SpamReport
reports =
    ten_from (report scam scam_phone) 10
    ++ ten_from (report telemarketing (codes "+84399000555")) 10

abbrev switched_on : List AppSetting
switched_on = record { key = auto_block_high_risk; value = true; updated_at = 0 } ∷ []

abbrev silenced : List LabelSuppression
silenced = record { phone_normalized = scam_phone; reason = none; created_at = 0 } ∷ []

blocking :
    (get_blocked_digits (λ rows. rows) [] reports [] ≡ [])
    × (get_blocked_digits (λ rows. rows) switched_on reports [] ≡ codes "84399000444" ∷ [])
    × (get_blocked_digits (λ rows. rows) switched_on reports silenced ≡ [])
unfolding program
blocking = (refl, refl, refl)

get_blocked_digits_sound_example :
    (is_auto_block_high_risk_enabled switched_on ≡ true)
    × ((p : Text) × (codes "84399000444" ≡ digits_only p) × IsHighRisk reports [] p)
get_blocked_digits_sound_example =
    get_blocked_digits_sound (λ rows. rows) Permᴰ.refl switched_on reports [] (codes "84399000444")
      (rw (blocking.1) (Memᴰ.head refl))

scam_on_top :
    (k : SpamReportCategory)
    → k ≢ scam
    → tallied (filtered scam_phone reports) k < tallied (filtered scam_phone reports) scam
unfolding program
scam_on_top SpamReportCategory.scam ne = absurd (ne refl)
scam_on_top SpamReportCategory.spam ne = omega arith
scam_on_top SpamReportCategory.telemarketing ne = omega arith
scam_on_top SpamReportCategory.harassment ne = omega arith
scam_on_top SpamReportCategory.other ne = omega arith

reports-IsSurelyHighRisk : IsSurelyHighRisk reports [] scam_phone
unfolding program
reports-IsSurelyHighRisk = record {
  reporters = omega arith;
  top = scam_on_top;
  announced = refl;
  callable = refl;
}

get_blocked_digits_complete_example :
    Memᴰ (digits_only scam_phone) (get_blocked_digits (λ rows. rows) switched_on reports [])
unfolding is_auto_block_high_risk_enabled get_setting
get_blocked_digits_complete_example =
    get_blocked_digits_complete (λ rows. rows) Permᴰ.refl switched_on reports [] refl scam_phone
      reports-IsSurelyHighRisk

abbrev pub two_reports : List SpamReport
two_reports = report scam scam_phone 1 ∷ report telemarketing (codes "+84912345678") 2 ∷ []

pub two_reports-IsStored : All IsStored (known_phones two_reports)
unfolding program
two_reports-IsStored = ((codes "0399000444", refl), ((codes "0912345678", refl), tt))

get_blocked_digits-IsAscending_example :
    IsAscending (λ x. x) (get_blocked_digits (λ rows. rows) switched_on two_reports [])
get_blocked_digits-IsAscending_example =
    get_blocked_digits-IsAscending (λ rows. rows) Permᴰ.refl switched_on two_reports []
      two_reports-IsStored

get_spam_flags-IsFlag_example :
    IsFlag (filtered scam_phone reports) (record { distinct_reporters = 10; top_category = scam })
unfolding program
get_spam_flags-IsFlag_example =
    get_spam_flags-IsFlag (λ rows. rows) Permᴰ.refl reports scam_phone
      (record { distinct_reporters = 10; top_category = scam }) refl
