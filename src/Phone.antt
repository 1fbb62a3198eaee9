-- ===== src/Phone.antt =====
-- apps/api/src/normalizers/vietnamPhone.ts, with the result types of
-- packages/shared-types/src/index.ts. Confidences are in hundredths; `null` is `none`.
-- `normalizeVietnamPhone` is cut at its early returns: `dialed_hotline`, `uncoded` and `national_result`
-- are its three stages, in the order in which the function tries them.
pub mod Separators
pub mod Stages
pub mod Spellings
pub mod Canonical
pub mod Types
use vn_phone_dp.Prelude.{
  ℕ, Bool, true, false, ◌&&◌, ◌||◌, not, Option, none, some, List, [], ◌∷◌, ◌++◌, or_else, Text,
  codes, text_eq, starts_with, slice, includes, is_digit, trim, length, drop, all, filter, leb,
  ◌==◌, if◌then◌else◌,
}

pub data PhoneType : Type 0 where
  mobile landline hotline_1800 hotline_1900 short_code unknown : PhoneType

pub data Country : Type 0 where
  vn : Country

pub data Reason : Type 0 where
  empty_input no_recognizable_national_prefix malformed unrecognized_prefix invalid_length : Reason

pub record NormalizedPhoneResult : Type 0 where
  pub raw : Text
  pub normalized : Option Text
  pub country : Country
  pub type : PhoneType
  pub valid : Bool
  pub normalization_confidence : ℕ
  pub reason : Option Reason

pub record Classified : Type 0 where
  pub type : PhoneType
  pub valid : Bool
  pub confidence : ℕ

abbrev pub plus84 : Text
plus84 = codes "+84"

unfoldable pub mobile_prefixes : List Text
mobile_prefixes =
    codes "032"
    ∷ codes "033"
    ∷ codes "034"
    ∷ codes "035"
    ∷ codes "036"
    ∷ codes "037"
    ∷ codes "038"
    ∷ codes "039"
    ∷ codes "086"
    ∷ codes "096"
    ∷ codes "097"
    ∷ codes "098"
    ∷ codes "070"
    ∷ codes "076"
    ∷ codes "077"
    ∷ codes "078"
    ∷ codes "079"
    ∷ codes "089"
    ∷ codes "090"
    ∷ codes "093"
    ∷ codes "081"
    ∷ codes "082"
    ∷ codes "083"
    ∷ codes "084"
    ∷ codes "085"
    ∷ codes "088"
    ∷ codes "091"
    ∷ codes "094"
    ∷ codes "052"
    ∷ codes "056"
    ∷ codes "058"
    ∷ codes "092"
    ∷ codes "059"
    ∷ codes "099"
    ∷ codes "087"
    ∷ []

unfoldable pub landline_2digit_area : List Text
landline_2digit_area = codes "24" ∷ codes "28" ∷ []

-- `[\d+]`
abbrev pub is_dialed : ℕ → Bool
is_dialed c = is_digit c || c == b'+'

unfoldable pub only_digits_keep_plus : Text → Text
only_digits_keep_plus input = filter is_dialed input

unfoldable pub to_national_form : Text → Option Text
to_national_form s =
    if starts_with s plus84
    then some (b'0' ∷ drop 3 s)
    else if starts_with s (codes "84") && leb 11 (length s)
    then some (b'0' ∷ drop 2 s)
    else if starts_with s (codes "0")
    then some s
    else none

abbrev pub classified : PhoneType → ℕ → Option Classified
classified t c = some (record { type = t; valid = true; confidence = c })

unfoldable pub classify_mobile : Text → Option Classified
classify_mobile national =
    if not (length national == 10)
    then none
    else if includes mobile_prefixes (slice 0 3 national)
    then classified mobile 95
    else none

unfoldable pub classify_landline : Text → Option Classified
classify_landline national =
    if not (length national == 11) || not (text_eq (slice 1 2 national) (codes "2"))
    then none
    else if includes landline_2digit_area (slice 1 3 national)
    then classified landline 85
    else classified landline 75

unfoldable pub classify_hotline : Text → Option Classified
classify_hotline national =
    if starts_with national (codes "1900") && leb 8 (length national) && leb (length national) 11
    then classified hotline_1900 90
    else if starts_with national (codes "1800")
        && leb 8 (length national)
        && leb (length national) 11
    then classified hotline_1800 90
    else none

unfoldable pub classify_short_code : Text → Option Classified
classify_short_code national =
    if all is_digit national && leb 3 (length national) && leb (length national) 6
    then classified short_code 50
    else none

-- The two forms of the object literals that the function returns.
abbrev pub accepted : Text → Text → Classified → NormalizedPhoneResult
accepted raw number c = record {
  raw = raw;
  normalized = some number;
  country = vn;
  type = c.type;
  valid = c.valid;
  normalization_confidence = c.confidence;
  reason = none;
}

abbrev pub refused : Text → Option Text → ℕ → Reason → NormalizedPhoneResult
refused raw number confidence why = record {
  raw = raw;
  normalized = number;
  country = vn;
  type = unknown;
  valid = false;
  normalization_confidence = confidence;
  reason = some why;
}

-- `cleaned.replace(/^\+/, "")`
unfoldable pub digits_only : Text → Text
digits_only [] = []
digits_only (c ∷ s) = if c == b'+' then s else c ∷ s

-- `/^\d+$/.test(s)`
abbrev pub is_digits : Text → Bool
is_digits [] = false
is_digits (c ∷ s) = all is_digit (c ∷ s)

-- The first stage: hotlines are dialed with no prefix.
unfoldable pub dialed_hotline : Text → Option Classified
dialed_hotline digits =
    if is_digits digits && (starts_with digits (codes "1900") || starts_with digits (codes "1800"))
    then classify_hotline digits
    else none

-- The guard of the second stage: no country or national prefix.
unfoldable pub is_uncoded : Text → Bool
is_uncoded cleaned =
    not (starts_with cleaned (codes "0"))
    && not (starts_with cleaned plus84)
    && not (starts_with cleaned (codes "84") && leb 11 (length cleaned))

unfoldable pub uncoded : Text → Text → NormalizedPhoneResult
uncoded raw digits = elim (classify_short_code digits) [
  | none ↦ refused raw none 10 no_recognizable_national_prefix
  | some c ↦
      if leb (length digits) 6
      then accepted raw digits
          (record { type = short_code; valid = true; confidence = c.confidence })
      else refused raw none 10 no_recognizable_national_prefix
]

unfoldable pub classify_national : Text → Option Classified
classify_national national =
    or_else (classify_hotline national)
      (or_else (classify_mobile national) (classify_landline national))

-- `"+84" + national.slice(1)`
abbrev pub e164 : Text → Text
e164 national = plus84 ++ drop 1 national

unfoldable pub national_result : Text → Text → NormalizedPhoneResult
national_result raw national = elim (classify_national national) [
  | some c ↦ accepted raw (e164 national) c
  | none ↦
      if length national == 10 || length national == 11
      then refused raw (some (e164 national)) 30 unrecognized_prefix
      else refused raw none 10 invalid_length
]

-- The third stage.
unfoldable pub coded : Text → Text → NormalizedPhoneResult
coded raw cleaned = elim (to_national_form cleaned) [
  | none ↦ refused raw none 10 malformed
  | some national ↦
      if is_digits national then national_result raw national else refused raw none 10 malformed
]

unfoldable pub normalize_cleaned : Text → Text → NormalizedPhoneResult
normalize_cleaned raw [] = refused raw none 0 empty_input
normalize_cleaned raw (c ∷ s) = elim (dialed_hotline (digits_only (c ∷ s))) [
  | some hotline ↦
      accepted raw (digits_only (c ∷ s))
        (record { type = hotline.type; valid = true; confidence = hotline.confidence })
  | none ↦ if is_uncoded (c ∷ s) then uncoded raw (digits_only (c ∷ s)) else coded raw (c ∷ s)
]

unfoldable pub normalize_vietnam_phone : Text → NormalizedPhoneResult
normalize_vietnam_phone raw_input =
    normalize_cleaned raw_input (only_digits_keep_plus (trim raw_input))

-- For runs at concrete inputs: opening this opens the whole normaliser.
unfoldable pub normalizer : Unit {0}
unfolding mobile_prefixes landline_2digit_area normalize_vietnam_phone normalize_cleaned
    only_digits_keep_plus trim digits_only dialed_hotline is_uncoded uncoded coded to_national_form
    national_result classify_national classify_hotline classify_mobile classify_landline
    classify_short_code
normalizer = tt
