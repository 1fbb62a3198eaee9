-- ===== src/Lookup.antt =====
-- apps/api/src/services/lookup.ts: what the API says of one number, and the search by digits. The
-- times are those of the tables; `toISOString` only writes them out.
pub mod Answer
pub mod Number
use vn_phone_dp.Prelude.{
  ℕ, ◌+◌, ◌-◌, Bool, true, false, ◌||◌, Option, none, some, List, [], ◌∷◌, ◌++◌, map, Text, codes,
  text_eq, is_digit, any, filter, length, take, starts_with, leb, if◌then◌else◌,
}
use vn_phone_dp.Prelude.Groups.{distinct}
use vn_phone_dp.Prelude.Sorting.{sort_by}
use vn_phone_dp.Phone.{PhoneType, NormalizedPhoneResult, normalize_vietnam_phone}
use vn_phone_dp.Schema.{
  Uuid, Timestamp, IdentityType, IdentityCategory, IdentityStatus, SpamReportCategory,
  SpamRiskLevel, RawDocument, PhoneObservation, PhoneNumber, PhoneIdentity, SpamReport,
}
use vn_phone_dp.Spam.{is_for, get_spam_summary, SpamSummary}
use vn_phone_dp.Spam.Summary.{Group}
use vn_phone_dp.Directory.{Tables}

pub record PhoneAnswer : Type 0 where
  pub raw_input : Text
  pub normalized : Option Text
  pub type : PhoneType
  pub valid : Bool

pub record StatisticsAnswer : Type 0 where
  pub observation_count : ℕ
  pub source_count : ℕ
  pub first_seen_at : Option Timestamp
  pub last_seen_at : Option Timestamp

-- `confidence` in hundredths.
pub record IdentityAnswer : Type 0 where
  pub name : Text
  pub type : IdentityType
  pub category : Option IdentityCategory
  pub confidence : ℕ
  pub evidence_count : ℕ
  pub status : IdentityStatus

pub record SpamAnswer : Type 0 where
  pub report_count : ℕ
  pub distinct_reporters : ℕ
  pub risk_level : SpamRiskLevel
  pub top_category : Option SpamReportCategory

pub record PhoneLookupResponse : Type 0 where
  pub phone : PhoneAnswer
  pub statistics : StatisticsAnswer
  pub identities : List IdentityAnswer
  pub spam : SpamAnswer

abbrev pub no_spam_reports : SpamAnswer
no_spam_reports = record {
  report_count = 0;
  distinct_reporters = 0;
  risk_level = SpamRiskLevel.none;
  top_category = none;
}

abbrev pub no_statistics : StatisticsAnswer
no_statistics = record {
  observation_count = 0;
  source_count = 0;
  first_seen_at = none;
  last_seen_at = none;
}

unfoldable pub spam_answer : SpamSummary → SpamAnswer
spam_answer s = record {
  report_count = s.report_count;
  distinct_reporters = s.distinct_reporters;
  risk_level = s.risk_level;
  top_category = s.top_category;
}

-- `WHERE phone_e164 = $1 LIMIT 1`
unfoldable pub phone_row : List PhoneNumber → Text → Option PhoneNumber
phone_row [] phone = none
phone_row (pn ∷ numbers) phone =
    let rest = phone_row numbers phone in if text_eq pn.phone_e164 phone then some pn else rest

-- The sources of the documents in which the number was observed, one for each row of the join.
unfoldable pub source_ids : List RawDocument → List PhoneObservation → Text → List Uuid
source_ids documents [] phone = []
source_ids documents (po ∷ observations) phone =
    let rest = source_ids documents observations phone in
    if is_for phone po.phone_normalized
    then map (λ rd. rd.source_id) (filter (λ rd. text_eq rd.id po.raw_document_id) documents)
      ++ rest
    else rest

unfoldable pub source_count : List RawDocument → List PhoneObservation → Text → ℕ
source_count documents observations phone =
    length (distinct text_eq (source_ids documents observations phone))

abbrev pub identity_answer : PhoneIdentity → IdentityAnswer
identity_answer i = record {
  name = i.display_name;
  type = i.identity_type;
  category = i.category;
  confidence = i.confidence;
  evidence_count = i.evidence_count;
  status = i.status;
}

-- `WHERE phone_number_id = $1 ORDER BY confidence DESC`; `arrange` is the order of rows of one
-- confidence.
unfoldable pub identity_answers :
    (List PhoneIdentity → List PhoneIdentity) → Uuid → List PhoneIdentity → List IdentityAnswer
identity_answers arrange number_id identities = map identity_answer (
    sort_by (λ a b. leb b.confidence a.confidence)
      (arrange (filter (λ i. text_eq i.phone_number_id number_id) identities)))

-- A number that cannot be normalized.
abbrev pub refused_answer : Text → NormalizedPhoneResult → PhoneLookupResponse
refused_answer raw_input normalized = record {
  phone = record {
    raw_input = raw_input;
    normalized = none;
    type = normalized.type;
    valid = false;
  };
  statistics = no_statistics;
  identities = [];
  spam = no_spam_reports;
}

-- The answer for the row of the number, if there is one.
unfoldable pub row_answer :
    (List PhoneIdentity → List PhoneIdentity)
    → Tables
    → Text
    → NormalizedPhoneResult
    → Text
    → SpamAnswer
    → Option PhoneNumber
    → PhoneLookupResponse
row_answer arrange t raw_input normalized phone spam none = record {
  phone = record {
    raw_input = raw_input;
    normalized = some phone;
    type = normalized.type;
    valid = normalized.valid;
  };
  statistics = no_statistics;
  identities = [];
  spam = spam;
}
row_answer arrange t raw_input normalized phone spam (some row) = record {
  phone = record {
    raw_input = raw_input;
    normalized = some row.phone_e164;
    type = row.phone_type;
    valid = normalized.valid;
  };
  statistics = record {
    observation_count = row.observation_count;
    source_count = source_count t.raw_documents t.observations phone;
    first_seen_at = some row.first_seen_at;
    last_seen_at = some row.last_seen_at;
  };
  identities = identity_answers arrange row.id t.phone_identities;
  spam = spam;
}

-- The branches after the first: the number normalizes to `phone`, or to nothing.
unfoldable pub normalized_answer :
    (List PhoneIdentity → List PhoneIdentity)
    → (List Group → List Group)
    → Tables
    → List SpamReport
    → Text
    → NormalizedPhoneResult
    → Option Text
    → PhoneLookupResponse
normalized_answer arrange arrange_groups t reports raw_input normalized none =
    refused_answer raw_input normalized
normalized_answer arrange arrange_groups t reports raw_input normalized (some phone) =
    row_answer arrange t raw_input normalized phone
      (spam_answer (get_spam_summary arrange_groups reports phone))
      (phone_row t.phone_numbers phone)

unfoldable pub lookup_phone :
    (List PhoneIdentity → List PhoneIdentity)
    → (List Group → List Group)
    → Tables
    → List SpamReport
    → Text
    → PhoneLookupResponse
lookup_phone arrange arrange_groups t reports raw_input =
    let normalized = normalize_vietnam_phone raw_input in
    normalized_answer arrange arrange_groups t reports raw_input normalized normalized.normalized

pub record FoundPhone : Type 0 where
  pub phone_e164 : Text
  pub phone_type : PhoneType
  pub observation_count : ℕ

-- `s LIKE '%digits%'`: no digit has a meaning of its own in a pattern.
unfoldable pub is_like : Text → Text → Bool
is_like [] digits = starts_with [] digits
is_like (c ∷ s) digits = starts_with (c ∷ s) digits || is_like s digits

unfoldable pub search_phones :
    (List PhoneNumber → List PhoneNumber) → List PhoneNumber → Text → ℕ → List FoundPhone
search_phones arrange numbers query limit =
    map
      (λ pn. record {
        phone_e164 = pn.phone_e164;
        phone_type = pn.phone_type;
        observation_count = pn.observation_count;
      })
      (take limit
        (arrange (filter (λ pn. is_like pn.national_number (filter is_digit query)) numbers)))
