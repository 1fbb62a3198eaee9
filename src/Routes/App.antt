-- ===== src/Routes/App.antt =====
-- The switch of the settings routes, and what it makes of the list of blocked numbers.
use vn_phone_dp.Prelude.{
  ◌≡◌, ◌≢◌, text_eq_iff, Bool-cases, inl, inr, refl, false, Bool, none, some, List, [], Text,
  text_eq, ap, ◌∙◌,
}
use vn_phone_dp.Schema.{Timestamp, SpamReport, LabelSuppression}
use vn_phone_dp.Settings.{
  AppSetting, get_setting, auto_block_high_risk, is_auto_block_high_risk_enabled,
  get_setting-set_setting,
}
use vn_phone_dp.Directory.{FlagRow, get_blocked_digits}
use vn_phone_dp.Routes.{ok, get_app, put_app}

-- A PUT of a Boolean is what it replies and what the next GET replies, whatever was stored before,
-- and a setting of another name reads as before. After a PUT of `false`, no number is blocked,
-- whatever has been reported; a PUT without a Boolean leaves the settings, and so what is blocked.
pub put_app-get_app :
    (now : Timestamp) (value default_value : Bool) (other : Text) (rows : List AppSetting)
    (arrange : List FlagRow → List FlagRow) (reports : List SpamReport)
    (suppressions : List LabelSuppression)
    → auto_block_high_risk ≢ other
    → let (after, reply) = put_app now (some value) rows in
      (reply ≡ ok value)
      × (get_app after ≡ ok value)
      × (get_setting other default_value after ≡ get_setting other default_value rows)
      × (get_blocked_digits arrange (put_app now (some false) rows).0 reports suppressions ≡ [])
      × (get_blocked_digits arrange (put_app now none rows).0 reports suppressions
          ≡ get_blocked_digits arrange rows reports suppressions)
unfolding put_app is_auto_block_high_risk_enabled get_blocked_digits
put_app-get_app now value default_value other rows arrange reports suppressions h =
    let key = auto_block_high_risk in
    let elsewhere : text_eq key other ≡ false = elim (Bool-cases (text_eq key other)) [
      | inl same ↦ absurd (h ((text_eq_iff key other).0 same))
      | inr apart ↦ apart
    ] in
    (
      refl,
      ap ok (get_setting-set_setting now key key value false rows),
      get_setting-set_setting now key other value default_value rows ∙ rw elsewhere refl,
      rw (get_setting-set_setting now key key false false rows) (refl),
      refl,
    )
