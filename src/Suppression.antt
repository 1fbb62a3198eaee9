-- ===== src/Suppression.antt =====
-- apps/api/src/services/labelSuppressions.ts over the table `label_suppressions`, whose unique
-- column is `phone_normalized` (database/migrations/0007_label_suppressions.sql).
pub mod Table
use vn_phone_dp.Prelude.{
  ℕ, Bool, true, false, not, Option, none, some, List, [], ◌∷◌, ◌++◌, map, Text, text_eq, any,
  filter, leb, if◌then◌else◌,
}
use vn_phone_dp.Prelude.Sorting.{sort_by}
use vn_phone_dp.Phone.{normalize_vietnam_phone}
use vn_phone_dp.Schema.{Timestamp, LabelSuppression}

pub record SuppressionResult : Type 0 where
  pub phone_normalized : Option Text
  pub valid : Bool

-- `INSERT … ON CONFLICT (phone_normalized) DO UPDATE SET reason`
unfoldable pub upsert :
    Timestamp → Text → Option Text → List LabelSuppression → List LabelSuppression
upsert now phone reason [] =
    record { phone_normalized = phone; reason = reason; created_at = now } ∷ []
upsert now phone reason (row ∷ rows) =
    if text_eq row.phone_normalized phone
    then record row { reason = reason } ∷ rows
    else row ∷ upsert now phone reason rows

unfoldable pub suppress_number :
    Timestamp
    → Text
    → Option Text
    → List LabelSuppression
    → List LabelSuppression × SuppressionResult
suppress_number now phone_raw reason rows = elim ((normalize_vietnam_phone phone_raw).normalized) [
  | none ↦ (rows, record { phone_normalized = none; valid = false })
  | some phone ↦
      (upsert now phone reason rows, record { phone_normalized = some phone; valid = true })
]

-- `DELETE … WHERE phone_normalized = $1`
unfoldable pub delete_phone : Text → List LabelSuppression → List LabelSuppression
delete_phone phone = filter (λ row. not (text_eq row.phone_normalized phone))

unfoldable pub unsuppress_number :
    Text → List LabelSuppression → List LabelSuppression × SuppressionResult
unsuppress_number phone_raw rows = elim ((normalize_vietnam_phone phone_raw).normalized) [
  | none ↦ (rows, record { phone_normalized = none; valid = false })
  | some phone ↦ (delete_phone phone rows, record { phone_normalized = some phone; valid = true })
]

unfoldable pub is_suppressed : List LabelSuppression → Text → Bool
is_suppressed rows phone = any (λ row. text_eq row.phone_normalized phone) rows

pub record SuppressionEntry : Type 0 where
  pub phone_normalized : Text
  pub reason : Option Text
  pub created_at : Timestamp

-- `ORDER BY created_at DESC`; `arrange` is the order of rows of one time.
unfoldable pub list_suppressions :
    (List LabelSuppression → List LabelSuppression) → List LabelSuppression → List SuppressionEntry
list_suppressions arrange rows =
    map
      (λ r. record {
        phone_normalized = r.phone_normalized;
        reason = r.reason;
        created_at = r.created_at;
      })
      (sort_by (λ a b. leb b.created_at a.created_at) (arrange rows))

-- The set, as the list of its members.
unfoldable pub get_suppressed_set : List LabelSuppression → List Text
get_suppressed_set rows = map (λ r. r.phone_normalized) rows
