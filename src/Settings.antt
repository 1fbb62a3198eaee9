-- ===== src/Settings.antt =====
-- apps/api/src/services/appSettings.ts over the table `app_settings`. `getSetting` and `setSetting`
-- are modelled at Booleans: the only values that a caller reads or stores. `JSON.stringify` writes
-- them as `true` and `false`, which `jsonb` keeps and the driver reads back as the same Booleans.
use vn_phone_dp.Prelude.{
  ◌≡◌, Bool, false, List, [], ◌∷◌, arith, Text, codes, text_eq, text_eq_iff, if◌then◌else◌,
}
use vn_phone_dp.Schema.{Timestamp}

pub record AppSetting : Type 0 where
  pub key : Text
  pub value : Bool
  pub updated_at : Timestamp

unfoldable pub get_setting : Text → Bool → List AppSetting → Bool
get_setting key default_value [] = default_value
get_setting key default_value (row ∷ rows) =
    if text_eq row.key key then row.value else get_setting key default_value rows

-- `INSERT … ON CONFLICT (key) DO UPDATE`
unfoldable pub set_setting : Timestamp → Text → Bool → List AppSetting → List AppSetting
set_setting now key value [] = record { key = key; value = value; updated_at = now } ∷ []
set_setting now key value (row ∷ rows) =
    if text_eq row.key key
    then record row { value = value; updated_at = now } ∷ rows
    else row ∷ set_setting now key value rows

-- A setting reads as it was last written, and no other setting is changed by the write.
pub get_setting-set_setting :
    (now : Timestamp) (key other : Text) (value default_value : Bool) (rows : List AppSetting)
    → get_setting other default_value (set_setting now key value rows)
      ≡ (if text_eq key other then value else get_setting other default_value rows)
unfolding get_setting set_setting
get_setting-set_setting now key other value default_value [] = ground arith
get_setting-set_setting now key other value default_value (row ∷ rows) = ground (
  arith,
  get_setting-set_setting now key other value default_value rows,
  text_eq_iff row.key key,
  text_eq_iff row.key other,
  text_eq_iff key other,
)

abbrev pub auto_block_high_risk : Text
auto_block_high_risk = codes "auto_block_high_risk"

unfoldable pub is_auto_block_high_risk_enabled : List AppSetting → Bool
is_auto_block_high_risk_enabled rows = get_setting auto_block_high_risk false rows
