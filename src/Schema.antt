-- ===== src/Schema.antt =====
-- The tables of apps/api/src/db/schema.ts, and the enumerations and answers of
-- packages/shared-types/src/index.ts. A table is the list of its rows. A uuid is its text, a
-- timestamp a number of milliseconds, a date the number of its day, and a `numeric` column a whole number of its last places.
use vn_phone_dp.Prelude.{ℕ, Bool, Option, Text}
use vn_phone_dp.Phone.{PhoneType}

abbrev pub Uuid : Type 0
Uuid = Text

abbrev pub Timestamp : Type 0
Timestamp = ℕ

abbrev pub Day : Type 0
Day = ℕ

pub data SourceType : Type 0 where
  official_website business_directory public_dataset news government user_submitted other :
      SourceType

pub data TrustLevel : Type 0 where
  high medium low : TrustLevel

pub data IdentityType : Type 0 where
  person business hotline organization unknown : IdentityType

pub data IdentityCategory : Type 0 where
  bank insurance telecom hospital government delivery ecommerce real_estate : IdentityCategory
  telemarketing spam scam other : IdentityCategory

pub data IdentityStatus : Type 0 where
  candidate confirmed rejected : IdentityStatus

pub data SpamReportCategory : Type 0 where
  spam scam telemarketing harassment other : SpamReportCategory

pub data SpamRiskLevel : Type 0 where
  none low medium high : SpamRiskLevel

pub record DataSource : Type 0 where
  pub id : Uuid
  pub name : Text
  pub base_url : Text
  pub source_type : SourceType
  pub country : Text
  pub trust_level : TrustLevel
  pub robots_checked : Bool
  pub license_notes : Option Text
  pub is_active : Bool

pub record RawDocument : Type 0 where
  pub id : Uuid
  pub source_id : Uuid
  pub url : Text
  pub final_url : Text
  pub title : Option Text
  pub content_type : Option Text
  pub http_status : Option ℕ
  pub content_hash : Text
  pub raw_content : Text
  pub fetched_at : Timestamp

-- `confidence` in ten-thousandths.
pub record PhoneObservation : Type 0 where
  pub id : Uuid
  pub raw_document_id : Uuid
  pub phone_raw : Text
  pub phone_normalized : Option Text
  pub context_text : Text
  pub context_before : Text
  pub context_after : Text
  pub extraction_method : Text
  pub confidence : ℕ
  pub position_start : ℕ
  pub position_end : ℕ

pub record PhoneNumber : Type 0 where
  pub id : Uuid
  pub phone_e164 : Text
  pub country_code : Text
  pub national_number : Text
  pub phone_type : PhoneType
  pub first_seen_at : Timestamp
  pub last_seen_at : Timestamp
  pub observation_count : ℕ

-- `confidence` in hundredths.
pub record PhoneIdentity : Type 0 where
  pub id : Uuid
  pub phone_number_id : Uuid
  pub display_name : Text
  pub normalized_name : Text
  pub identity_type : IdentityType
  pub category : Option IdentityCategory
  pub claim_source : Text
  pub confidence : ℕ
  pub evidence_count : ℕ
  pub last_seen_at : Timestamp
  pub status : IdentityStatus

pub record PhoneIdentityEvidence : Type 0 where
  pub phone_identity_id : Uuid
  pub phone_observation_id : Uuid
  pub evidence_weight : ℕ

pub record PersonalCallLog : Type 0 where
  pub phone_raw : Text
  pub phone_normalized : Option Text
  pub call_date : Day
  pub call_count : ℕ
  pub notes : Option Text
  pub imported_at : Timestamp

pub record SpamReport : Type 0 where
  pub id : Uuid
  pub phone_raw : Text
  pub phone_normalized : Option Text
  pub category : SpamReportCategory
  pub note : Option Text
  pub reporter_ref : Option Text
  pub reported_at : Timestamp

pub record LabelSuppression : Type 0 where
  pub phone_normalized : Text
  pub reason : Option Text
  pub created_at : Timestamp
