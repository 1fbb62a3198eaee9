-- ===== src/CallLog.antt =====
-- apps/api/src/services/callLog.ts over the tables `personal_call_logs`, `phone_numbers` and
-- `phone_identities`. The orders that a query leaves open are fields of `Orders`. The clock is a
-- parameter: `now n` is the time of the insertion into a table of n rows.
pub mod Summary
pub mod Unknown
pub mod Priority
pub mod Import
use vn_phone_dp.Prelude.{
  ℕ, zero, suc, ◌+◌, ◌-◌, ◌*◌, ◌/◌, min, max, Bool, true, false, not, ◌&&◌, Option, none, some,
  List, [], ◌∷◌, ◌++◌, map, Text, text_eq, any, filter, length, ltb, leb, ◌==◌, if◌then◌else◌,
  is_some, or_else, option_eq, ℤ, pos, negsuc,
}
use vn_phone_dp.Prelude.Groups.{distinct}
use vn_phone_dp.Prelude.Sorting.{sort_by, total}
use vn_phone_dp.Phone.{NormalizedPhoneResult, normalize_vietnam_phone}
use vn_phone_dp.Schema.{
  Day, Timestamp, PersonalCallLog, PhoneNumber, PhoneIdentity, IdentityCategory,
}
use vn_phone_dp.Directory.{highest, is_rejected}

-- A number of a request body: a whole number, or a number strictly between one and the next.
pub data JsonNumber : Type 0 where
  whole : ℤ → JsonNumber
  fraction_above : ℤ → JsonNumber

pub record CallLogImportEntry : Type 0 where
  pub phone_raw : Text
  pub call_count : Option JsonNumber
  pub notes : Option Text

pub record CallLogImportResult : Type 0 where
  pub phone_raw : Text
  pub phone_normalized : Option Text
  pub valid : Bool
  pub known : Bool
  pub identity_name : Option Text

-- A row of the grouped queries: the fields of `UnknownNumberRow` and the first date.
pub record CallGroup : Type 0 where
  pub phone_raw : Text
  pub phone_normalized : Option Text
  pub total_calls : ℕ
  pub days_called : ℕ
  pub first_call_date : Day
  pub last_call_date : Day

pub record CallLogSummaryRow : Type 0 where
  pub calls : CallGroup
  pub known : Bool
  pub identity_name : Option Text
  pub identity_category : Option IdentityCategory

pub record UnknownNumberPriority : Type 0 where
  pub calls : CallGroup
  pub priority_score : ℕ

-- The tables of identities, and the orders that the queries leave open: of identities of the same
-- confidence, of rows imported at the same time, and of groups with the same number of calls.
pub record Orders : Type 0 where
  pub identities : List PhoneIdentity → List PhoneIdentity
  pub logs : List PersonalCallLog → List PersonalCallLog
  pub groups : List CallGroup → List CallGroup

pub record Identities : Type 0 where
  pub phone_numbers : List PhoneNumber
  pub phone_identities : List PhoneIdentity

-- The rows of the join with `pn.phone_e164 = $1 AND pi.status != 'REJECTED'`.
unfoldable pub identities_of : Identities → Text → List PhoneIdentity
identities_of t phone =
    filter
      (λ pi.
        not (is_rejected pi.status)
        && any (λ pn. text_eq pn.id pi.phone_number_id && text_eq pn.phone_e164 phone)
            t.phone_numbers)
      t.phone_identities

-- `ORDER BY pi.confidence DESC LIMIT 1`, for a number that may be NULL.
unfoldable pub best_identity : Orders → Identities → Option Text → Option PhoneIdentity
best_identity o t none = none
best_identity o t (some phone) = highest (o.identities (identities_of t phone))

abbrev pub name_of : Option PhoneIdentity → Option Text
name_of none = none
name_of (some pi) = some pi.display_name

-- A column of the type INTEGER: PostgreSQL refuses a number outside its range.
abbrev pub integer_max : ℕ
integer_max = 2147483647

unfoldable pub integer_column : ℕ → Option ℕ
integer_column n = if leb n integer_max then some n else none

-- `entry.callCount && entry.callCount > 0 ? entry.callCount : 1`, as the parameter of the INSERT. It
-- is sent as a text, and PostgreSQL refuses the text of a fraction for an INTEGER.
unfoldable pub call_count_of : Option JsonNumber → Option ℕ
call_count_of none = some 1
call_count_of (some (JsonNumber.whole (pos zero))) = some 1
call_count_of (some (JsonNumber.whole (pos (suc n)))) = integer_column (suc n)
call_count_of (some (JsonNumber.whole (negsuc n))) = some 1
call_count_of (some (JsonNumber.fraction_above (pos n))) = none
call_count_of (some (JsonNumber.fraction_above (negsuc n))) = some 1

unfoldable pub log_row : Timestamp → Day → Option Text → CallLogImportEntry → ℕ → PersonalCallLog
log_row at call_date batch_notes entry count = record {
  phone_raw = entry.phone_raw;
  phone_normalized = (normalize_vietnam_phone entry.phone_raw).normalized;
  call_date = call_date;
  call_count = count;
  notes = or_else entry.notes batch_notes;
  imported_at = at;
}

unfoldable pub import_result : Orders → Identities → CallLogImportEntry → CallLogImportResult
import_result o t entry =
    let normalized = normalize_vietnam_phone entry.phone_raw in
    let identity_name = name_of (best_identity o t normalized.normalized) in
    record {
      phone_raw = entry.phone_raw;
      phone_normalized = normalized.normalized;
      valid = normalized.valid;
      known = is_some identity_name;
      identity_name = identity_name;
    }

abbrev pub add_result :
    CallLogImportResult → Option (List CallLogImportResult) → Option (List CallLogImportResult)
add_result result none = none
add_result result (some results) = some (result ∷ results)

-- The loop over the entries: the table after it, and the results, which are missing when PostgreSQL
-- refuses a row. Then the call fails, and the rows of the entries before it stay.
unfoldable pub import_call_log_entries :
    Orders
    → Identities
    → (ℕ → Timestamp)
    → Day
    → Option Text
    → List CallLogImportEntry
    → List PersonalCallLog
    → List PersonalCallLog × Option (List CallLogImportResult)
import_call_log_entries o t now call_date batch_notes [] logs = (logs, some [])
import_call_log_entries o t now call_date batch_notes (entry ∷ entries) logs =
    elim (call_count_of entry.call_count) [
      | none ↦ (logs, none)
      | some count ↦
          let row = log_row (now (length logs)) call_date batch_notes entry count in
          let rest =
            import_call_log_entries o t now call_date batch_notes entries (logs ++ row ∷ []) in
          (rest.0, add_result (import_result o t entry) rest.1)
    ]

-- `GROUP BY COALESCE(phone_normalized, phone_raw), phone_normalized`
abbrev pub GroupKey : Type 0
GroupKey = Text × Option Text

abbrev pub coalesce : Option Text → Text → Text
coalesce none raw = raw
coalesce (some phone) raw = phone

unfoldable pub group_key : PersonalCallLog → GroupKey
group_key r = (coalesce r.phone_normalized r.phone_raw, r.phone_normalized)

abbrev pub key_eq : GroupKey → GroupKey → Bool
key_eq a b = text_eq a.0 b.0 && option_eq text_eq a.1 b.1

-- The first row of `ORDER BY imported_at DESC`.
unfoldable pub latest_from : PersonalCallLog → List PersonalCallLog → PersonalCallLog
latest_from r [] = r
latest_from r (s ∷ rows) = latest_from (if ltb r.imported_at s.imported_at then s else r) rows

abbrev pub dates : List PersonalCallLog → List Day
dates rows = map (λ r. r.call_date) rows

abbrev pub least : Day → List Day → Day
least d [] = d
least d (e ∷ ds) = least (min d e) ds

abbrev pub greatest : Day → List Day → Day
greatest d [] = d
greatest d (e ∷ ds) = greatest (max d e) ds

-- The row of a group of log rows, which is not empty.
unfoldable pub call_group : PersonalCallLog → List PersonalCallLog → CallGroup
call_group r rows = record {
  phone_raw = (latest_from r rows).phone_raw;
  phone_normalized = r.phone_normalized;
  total_calls = total (λ s. s.call_count) (r ∷ rows);
  days_called = length (distinct (λ d e. d == e) (dates (r ∷ rows)));
  first_call_date = least r.call_date (dates rows);
  last_call_date = greatest r.call_date (dates rows);
}

abbrev pub add_group : List PersonalCallLog → List CallGroup → List CallGroup
add_group [] groups = groups
add_group (r ∷ rows) groups = call_group r rows ∷ groups

abbrev pub of_key : GroupKey → List PersonalCallLog → List PersonalCallLog
of_key key logs = filter (λ r. key_eq key (group_key r)) logs

unfoldable pub groups_of : Orders → List PersonalCallLog → List GroupKey → List CallGroup
groups_of o logs [] = []
groups_of o logs (key ∷ keys) = add_group (o.logs (of_key key logs)) (groups_of o logs keys)

abbrev pub keys : List PersonalCallLog → List GroupKey
keys logs = map (λ r. group_key r) logs

-- The groups, with `ORDER BY total_calls DESC`.
unfoldable pub grouped : Orders → List PersonalCallLog → List CallGroup
grouped o logs =
    sort_by (λ a b. leb b.total_calls a.total_calls)
      (o.groups (groups_of o logs (distinct key_eq (keys logs))))

unfoldable pub summary_row : Orders → Identities → CallGroup → CallLogSummaryRow
summary_row o t g =
    let identity = best_identity o t g.phone_normalized in
    record {
      calls = g;
      known = is_some (name_of identity);
      identity_name = name_of identity;
      identity_category = elim identity [ none ↦ none | some pi ↦ pi.category ];
    }

-- `call_date BETWEEN $1 AND $2`
unfoldable pub between : Day → Day → List PersonalCallLog → List PersonalCallLog
between from to = filter (λ r. leb from r.call_date && leb r.call_date to)

unfoldable pub get_call_log_summary :
    Orders → Identities → List PersonalCallLog → Day → Day → List CallLogSummaryRow
get_call_log_summary o t logs from to = map (summary_row o t) (grouped o (between from to logs))

-- The test of `NOT EXISTS (SELECT 1 FROM phone_identities …)`.
unfoldable pub is_unknown : Identities → Option Text → Bool
is_unknown t none = true
is_unknown t (some phone) = length (identities_of t phone) == 0

unfoldable pub get_unknown_numbers : Orders → Identities → List PersonalCallLog → List CallGroup
get_unknown_numbers o t logs = grouped o (filter (λ r. is_unknown t r.phone_normalized) logs)

-- The score of a row at a time; `time` is `new Date(…).getTime()`.
unfoldable pub priority_score : (Day → Timestamp) → Timestamp → CallGroup → ℕ
priority_score time now r =
    let days_since_last_call = (now - time r.last_call_date) / 86400000 in
    let call_count_weight = min (r.total_calls * 5) 50 in
    let recency_weight = 30 - days_since_last_call in
    let repeat_call_weight = min (r.days_called * 3) 20 in
    min 100 (call_count_weight + recency_weight + repeat_call_weight)

abbrev pub scored : (Day → Timestamp) → Timestamp → CallGroup → UnknownNumberPriority
scored time now r = record { calls = r; priority_score = priority_score time now r }

unfoldable pub get_unknown_numbers_priority :
    (Day → Timestamp)
    → Timestamp
    → Orders
    → Identities
    → List PersonalCallLog
    → List UnknownNumberPriority
get_unknown_numbers_priority time now o t logs =
    sort_by (λ a b. leb b.priority_score a.priority_score)
      (map (scored time now) (get_unknown_numbers o t logs))
