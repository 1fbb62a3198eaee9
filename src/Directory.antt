-- ===== src/Directory.antt =====
-- apps/api/src/services/callDirectoryExport.ts. The tables are arguments; so are the orders in which
-- PostgreSQL returns rows that no `ORDER BY` tells apart, as functions that rearrange them. A `Map`
-- is the list of its entries in the order of insertion.
pub mod Rows
pub mod Flags
pub mod Order
pub mod Stored
pub mod Blocked
pub mod Identity
pub mod Entries
pub mod Labels
pub mod Export
use vn_phone_dp.Prelude.{
  ℕ, zero, suc, ◌+◌, ◌-◌, ◌*◌, ◌/◌, ◌%◌, Bool, true, false, not, ◌&&◌, ◌||◌, Option, none, some,
  List, [], ◌∷◌, ◌++◌, map, Text, codes, text_eq, starts_with, includes, drop, all, any, filter,
  ltb, leb, ◌==◌, if◌then◌else◌,
}
use vn_phone_dp.Prelude.Groups.{distinct}
use vn_phone_dp.Prelude.Sorting.{sort_by}
use vn_phone_dp.Phone.{PhoneType, digits_only, normalize_vietnam_phone}
use vn_phone_dp.Schema.{
  SpamReport, SpamReportCategory, DataSource, RawDocument, PhoneObservation, PhoneNumber,
  PhoneIdentity, PhoneIdentityEvidence, LabelSuppression, TrustLevel, IdentityStatus,
}
use vn_phone_dp.Spam.{filtered, distinct_reporters, by_category}
use vn_phone_dp.Suppression.{get_suppressed_set}
use vn_phone_dp.Settings.{AppSetting, is_auto_block_high_risk_enabled}

pub record CallDirectoryEntry : Type 0 where
  pub phone_digits : Text
  pub label : Text

-- What `.` does not match.
abbrev is_line_end : ℕ → Bool
is_line_end c = c == 10 || c == 13 || c == 0x2028 || c == 0x2029

-- The text before a closing bracket at its end.
unfoldable pub before_close : Text → Option Text
before_close [] = none
before_close (c ∷ []) = if c == b')' then some [] else none
before_close (c ∷ d ∷ s) = elim (before_close (d ∷ s)) [ none ↦ none | some m ↦ some (c ∷ m) ]

-- `(.+)` of the pattern
abbrev wrapped : Text → Option Text → Text
wrapped name none = name
wrapped name (some []) = name
wrapped name (some (c ∷ m)) = if any is_line_end (c ∷ m) then name else c ∷ m

unfoldable pub best_label : Text → Text
best_label display_name =
    if starts_with display_name (codes "Unknown (")
    then wrapped display_name (before_close (drop 9 display_name))
    else display_name

pub record SpamFlag : Type 0 where
  pub distinct_reporters : ℕ
  pub top_category : SpamReportCategory

-- A row of the query of `getSpamFlags`.
pub record FlagRow : Type 0 where
  pub phone_normalized : Text
  pub distinct_reporters : ℕ
  pub category : SpamReportCategory
  pub category_count : ℕ

-- A value of the map that the loop fills.
pub record TopFlag : Type 0 where
  pub distinct_reporters : ℕ
  pub top_category : SpamReportCategory
  pub top_count : ℕ

-- The numbers of `totals`: the groups of the rows whose number is not NULL. A group has a row, so
-- that it passes `HAVING count(DISTINCT reporter_key) >= 1`.
abbrev pub known_phone : SpamReport → List Text → List Text
known_phone r rest = elim r.phone_normalized [ none ↦ rest | some p ↦ p ∷ rest ]

unfoldable pub known_phones : List SpamReport → List Text
known_phones [] = []
known_phones (r ∷ reports) = known_phone r (known_phones reports)

unfoldable pub phone_rows : List SpamReport → Text → List FlagRow
phone_rows reports phone =
    let rows = filtered phone reports in
    map
      (λ g. record {
        phone_normalized = phone;
        distinct_reporters = distinct_reporters rows;
        category = g.0;
        category_count = g.1;
      })
      (by_category rows)

abbrev pub rows_of : List SpamReport → List Text → List FlagRow
rows_of reports [] = []
rows_of reports (phone ∷ phones) = phone_rows reports phone ++ rows_of reports phones

unfoldable pub flag_rows : List SpamReport → List FlagRow
flag_rows reports = rows_of reports (distinct text_eq (known_phones reports))

abbrev pub top_flag : FlagRow → TopFlag
top_flag row = record {
  distinct_reporters = row.distinct_reporters;
  top_category = row.category;
  top_count = row.category_count;
}

-- One round of the loop of `getSpamFlags`.
unfoldable pub note_row : List (Text × TopFlag) → FlagRow → List (Text × TopFlag)
note_row [] row = (row.phone_normalized, top_flag row) ∷ []
note_row ((phone, existing) ∷ flags) row =
    if text_eq phone row.phone_normalized
    then (phone, if ltb existing.top_count row.category_count then top_flag row else existing)
      ∷ flags
    else (phone, existing) ∷ note_row flags row

unfoldable pub note_rows : List (Text × TopFlag) → List FlagRow → List (Text × TopFlag)
note_rows flags [] = flags
note_rows flags (row ∷ rows) = note_rows (note_row flags row) rows

abbrev pub spam_flag : TopFlag → SpamFlag
spam_flag f = record { distinct_reporters = f.distinct_reporters; top_category = f.top_category }

unfoldable pub get_spam_flags :
    (List FlagRow → List FlagRow) → List SpamReport → List (Text × SpamFlag)
get_spam_flags arrange reports =
    map (λ e. (e.0, spam_flag e.1)) (note_rows [] (arrange (flag_rows reports)))

unfoldable pub is_scam : SpamReportCategory → Bool
is_scam SpamReportCategory.scam = true
is_scam _ = false

-- `type === "MOBILE" || type === "LANDLINE"`
abbrev pub is_callable : PhoneType → Bool
is_callable PhoneType.mobile = true
is_callable PhoneType.landline = true
is_callable _ = false

-- `BigInt(digits)`, for a text of decimal digits.
unfoldable pub big_int_from : ℕ → Text → ℕ
big_int_from n [] = n
big_int_from n (c ∷ s) = big_int_from (n * 10 + (c - b'0')) s

unfoldable pub big_int : Text → ℕ
unfolding big_int_from
big_int s = big_int_from 0 s

-- The loop of `getBlockedDigits`.
unfoldable pub select_blocked : List Text → List (Text × SpamFlag) → List Text
select_blocked suppressed [] = []
select_blocked suppressed ((phone, flag) ∷ flags) =
    let rest = select_blocked suppressed flags in
    if ltb flag.distinct_reporters 10 || not (is_scam flag.top_category)
    then rest
    else if includes suppressed phone
    then rest
    else if not (is_callable (normalize_vietnam_phone phone).type)
    then rest
    else digits_only phone ∷ rest

unfoldable pub get_blocked_digits :
    (List FlagRow → List FlagRow)
    → List AppSetting
    → List SpamReport
    → List LabelSuppression
    → List Text
get_blocked_digits arrange settings reports suppressions =
    if not (is_auto_block_high_risk_enabled settings)
    then []
    else sort_by (λ a b. ltb (big_int a) (big_int b))
        (select_blocked (get_suppressed_set suppressions) (get_spam_flags arrange reports))

-- The tables that the identity query joins.
pub record Tables : Type 0 where
  pub phone_numbers : List PhoneNumber
  pub phone_identities : List PhoneIdentity
  pub evidence : List PhoneIdentityEvidence
  pub observations : List PhoneObservation
  pub raw_documents : List RawDocument
  pub data_sources : List DataSource

abbrev is_high : TrustLevel → Bool
is_high TrustLevel.high = true
is_high _ = false

abbrev pub is_rejected : IdentityStatus → Bool
is_rejected IdentityStatus.rejected = true
is_rejected _ = false

-- `ds.trust_level = 'HIGH' AND ds.name NOT LIKE 'Fixture%'`
unfoldable pub is_trusted_source : DataSource → Bool
is_trusted_source ds = is_high ds.trust_level && not (starts_with ds.name (codes "Fixture"))

-- The `EXISTS` of the identity query: evidence from a trusted source.
unfoldable pub has_trusted_evidence : Tables → PhoneIdentity → Bool
has_trusted_evidence t pi =
    any
      (λ pie.
        text_eq pie.phone_identity_id pi.id
        && any
            (λ po.
              text_eq po.id pie.phone_observation_id
              && any
                  (λ rd.
                    text_eq rd.id po.raw_document_id
                    && any (λ ds. text_eq ds.id rd.source_id && is_trusted_source ds)
                        t.data_sources)
                  t.raw_documents)
            t.observations)
      t.evidence

unfoldable pub candidates : Tables → PhoneNumber → List PhoneIdentity
candidates t pn =
    filter
      (λ pi.
        text_eq pi.phone_number_id pn.id
        && not (is_rejected pi.status)
        && has_trusted_evidence t pi)
      t.phone_identities

-- The first row of `ORDER BY pi.confidence DESC`.
unfoldable pub highest_from : PhoneIdentity → List PhoneIdentity → PhoneIdentity
highest_from i [] = i
highest_from i (j ∷ js) = highest_from (if ltb i.confidence j.confidence then j else i) js

abbrev pub highest : List PhoneIdentity → Option PhoneIdentity
highest [] = none
highest (i ∷ is) = some (highest_from i is)

-- The rows of the identity query: a number and a display name.
abbrev pub add_row : Text → Option PhoneIdentity → List (Text × Text) → List (Text × Text)
add_row phone none rest = rest
add_row phone (some i) rest = (phone, i.display_name) ∷ rest

-- The identities that the query joins with the rows of a number.
unfoldable pub joined : Tables → Text → List PhoneNumber → List PhoneIdentity
joined t phone [] = []
joined t phone (pn ∷ pns) =
    let rest = joined t phone pns in
    if is_callable pn.phone_type && text_eq pn.phone_e164 phone
    then candidates t pn ++ rest
    else rest

abbrev pub callable_phones : List PhoneNumber → List Text
callable_phones pns = map (λ pn. pn.phone_e164) (filter (λ pn. is_callable pn.phone_type) pns)

-- `DISTINCT ON (pn.phone_e164)`: the first row of each number.
unfoldable pub rows_on :
    (List PhoneIdentity → List PhoneIdentity)
    → Tables
    → List PhoneNumber
    → List Text
    → List (Text × Text)
rows_on arrange t pns [] = []
rows_on arrange t pns (phone ∷ phones) =
    add_row phone (highest (arrange (joined t phone pns))) (rows_on arrange t pns phones)

-- The query sorts its rows by number; their order here is another one, which the sort of the entries
-- by number makes good.
unfoldable pub identity_rows :
    (List PhoneIdentity → List PhoneIdentity) → Tables → List PhoneNumber → List (Text × Text)
identity_rows arrange t pns = rows_on arrange t pns (distinct text_eq (callable_phones pns))

-- `${n}` of a natural number. The fuel is one more than the number, which falls at each digit.
decimal_digits : ℕ → ℕ → Text → Text
decimal_digits zero n rest = rest
decimal_digits (suc fuel) n rest =
    let digits = (b'0' + n % 10) ∷ rest in
    let more = decimal_digits fuel (n / 10) digits in if ltb n 10 then digits else more

unfoldable pub decimal : ℕ → Text
unfolding decimal_digits
decimal n = decimal_digits (n + 1) n []

-- The warning sign, its variation selector and a space.
abbrev warning : Text
warning = 0x26a0 ∷ 0xfe0f ∷ 0x20 ∷ []

unfoldable pub spam_label : SpamFlag → Text
spam_label flag =
    warning
    ++ (codes "Nghi ngờ "
        ++ ((if is_scam flag.top_category then codes "LỪA ĐẢO" else codes "SPAM")
            ++ (codes " (" ++ (decimal flag.distinct_reporters ++ codes " báo cáo)"))))

-- `map.get(key)`
unfoldable pub lookup {ℓ} : {V : Type ℓ} → Text → List (Text × V) → Option V
lookup key [] = none
lookup key ((k, v) ∷ entries) = if text_eq k key then some v else lookup key entries

unfoldable pub label_of : Option SpamFlag → Text → Text
label_of none display_name = best_label display_name
label_of (some flag) display_name =
    if leb 10 flag.distinct_reporters then spam_label flag else warning ++ best_label display_name

abbrev pub entry : Text → Text → CallDirectoryEntry
entry phone label = record { phone_digits = digits_only phone; label = label }

-- The entries of the numbers with an identity.
unfoldable pub known_entries : List (Text × SpamFlag) → List (Text × Text) → List CallDirectoryEntry
known_entries flags rows = map (λ r. entry r.0 (label_of (lookup r.0 flags) r.1)) rows

-- The loop over the flags of numbers that no row has.
unfoldable pub flagged_entries : List Text → List (Text × SpamFlag) → List CallDirectoryEntry
flagged_entries seen [] = []
flagged_entries seen ((phone, flag) ∷ flags) =
    let rest = flagged_entries seen flags in
    if includes seen phone
    then rest
    else if not (is_callable (normalize_vietnam_phone phone).type)
    then rest
    else entry phone (spam_label flag) ∷ rest

unfoldable pub is_visible : List Text → CallDirectoryEntry → Bool
is_visible suppressed e = not (includes suppressed (b'+' ∷ e.phone_digits))

unfoldable pub get_call_directory_entries :
    (List PhoneIdentity → List PhoneIdentity)
    → (List FlagRow → List FlagRow)
    → Tables
    → List SpamReport
    → List LabelSuppression
    → List CallDirectoryEntry
get_call_directory_entries arrange_identities arrange t reports suppressions =
    let rows = identity_rows arrange_identities t t.phone_numbers in
    let flags = get_spam_flags arrange reports in
    let entries = known_entries flags rows ++ flagged_entries (map (λ r. r.0) rows) flags in
    sort_by (λ a b. ltb (big_int a.phone_digits) (big_int b.phone_digits))
      (filter (is_visible (get_suppressed_set suppressions)) entries)
