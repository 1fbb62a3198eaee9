-- ===== src/UserConfirmed.antt =====
-- apps/api/src/services/userConfirmedIdentity.ts over the tables of the identity query. The ids and
-- the times that PostgreSQL and the clock give in one round of the loop are a record `Fresh`; the
-- digest of `node:crypto` and `toLowerCase` are parameters.
pub mod Counts
pub mod Upserts
pub mod Resubmit
pub mod Written
pub mod Found
pub mod Export
use vn_phone_dp.Prelude.{
  ℕ, ◌+◌, Bool, true, false, ◌&&◌, Option, none, some, List, [], ◌∷◌, ◌++◌, map, Text, codes,
  text_eq, any, length, filter, starts_with, drop, if◌then◌else◌,
}
use vn_phone_dp.Phone.{PhoneType, normalize_vietnam_phone, plus84}
use vn_phone_dp.Schema.{
  Uuid, Timestamp, SourceType, TrustLevel, IdentityType, IdentityCategory, IdentityStatus,
  DataSource, RawDocument, PhoneObservation, PhoneNumber, PhoneIdentity, PhoneIdentityEvidence,
}
use vn_phone_dp.Directory.{Tables, decimal}
use vn_phone_dp.Guess.{collapse, normalize_name_key}

pub record UserConfirmedEntry : Type 0 where
  pub phone_raw : Text
  pub display_name : Text
  pub identity_type : Option IdentityType
  pub category : Option IdentityCategory
  pub note_source : Option Text

pub data SkippedReason : Type 0 where
  invalid_phone_format : SkippedReason

pub record UserConfirmedResult : Type 0 where
  pub phone_raw : Text
  pub phone_normalized : Option Text
  pub valid : Bool
  pub identity_id : Option Uuid
  pub skipped_reason : Option SkippedReason

-- What PostgreSQL's `gen_random_uuid()` and `now()` and the clock give for one entry.
pub record Fresh : Type 0 where
  pub document : Uuid
  pub observation : Uuid
  pub number : Uuid
  pub identity : Uuid
  pub now : Timestamp
  pub clock : Timestamp

abbrev pub source_name : Text
source_name = codes "Người dùng tự xác nhận"

abbrev pub user_source : Uuid → DataSource
user_source id = record {
  id = id;
  name = source_name;
  base_url = codes "manual://user-confirmed";
  source_type = SourceType.user_submitted;
  country = codes "VN";
  trust_level = TrustLevel.high;
  robots_checked = true;
  license_notes = some (
      codes
        "Người dùng tự đọc và xác nhận nhãn định danh (vd: từ app caller-ID khác), không phải dữ liệu crawl tự động.");
  is_active = true;
}

-- The table after the call, and the id: of the row with the name, or of a new one.
unfoldable pub ensure_user_submitted_source : Uuid → List DataSource → List DataSource × Uuid
ensure_user_submitted_source id [] = (user_source id ∷ [], id)
ensure_user_submitted_source id (ds ∷ sources) =
    let rest = ensure_user_submitted_source id sources in
    if text_eq ds.name source_name then (ds ∷ sources, ds.id) else (ds ∷ rest.0, rest.1)

abbrev or_unknown : Option Text → Text
or_unknown none = codes "unknown"
or_unknown (some note) = note

unfoldable pub raw_content : UserConfirmedEntry → Text
raw_content entry =
    codes "phone="
    ++ (entry.phone_raw
        ++ (codes " display_name="
            ++ (entry.display_name ++ (codes " note_source=" ++ or_unknown entry.note_source))))

unfoldable pub document_of : (Text → Text) → Fresh → Uuid → Text → UserConfirmedEntry → RawDocument
document_of sha256 fresh source_id phone entry =
    let url = codes "manual://user-confirmed/" ++ (phone ++ (codes "/" ++ decimal fresh.clock)) in
    record {
      id = fresh.document;
      source_id = source_id;
      url = url;
      final_url = url;
      title = none;
      content_type = some (codes "text/plain");
      http_status = some 200;
      content_hash = sha256 (raw_content entry);
      raw_content = raw_content entry;
      fetched_at = fresh.now;
    }

unfoldable pub observation_of : Fresh → Text → UserConfirmedEntry → PhoneObservation
observation_of fresh phone entry = record {
  id = fresh.observation;
  raw_document_id = fresh.document;
  phone_raw = entry.phone_raw;
  phone_normalized = some phone;
  context_text = entry.display_name;
  context_before = [];
  context_after = [];
  extraction_method = codes "user_confirmed_manual";
  confidence = 10000;
  position_start = 0;
  position_end = length entry.phone_raw;
}

-- `s.replace(/^\+84/, "0")`
unfoldable pub national_number : Text → Text
national_number phone = if starts_with phone plus84 then b'0' ∷ drop 3 phone else phone

-- `INSERT … ON CONFLICT (phone_e164) DO UPDATE`: the table, and the id that is returned.
unfoldable pub upsert_number :
    Uuid → Timestamp → Text → PhoneType → List PhoneNumber → List PhoneNumber × Uuid
upsert_number id now phone type [] = (
  record {
    id = id;
    phone_e164 = phone;
    country_code = codes "84";
    national_number = national_number phone;
    phone_type = type;
    first_seen_at = now;
    last_seen_at = now;
    observation_count = 1;
  }
      ∷ [],
  id,
)
upsert_number id now phone type (pn ∷ numbers) =
    let rest = upsert_number id now phone type numbers in
    if text_eq pn.phone_e164 phone
    then (
      record pn { observation_count = pn.observation_count + 1; last_seen_at = now } ∷ numbers,
      pn.id,
    )
    else (pn ∷ rest.0, rest.1)

abbrev pub user_claim : Text
user_claim = codes "user_confirmed_v1"

-- The target of the conflict.
abbrev pub is_claim_of : Uuid → Text → PhoneIdentity → Bool
is_claim_of number_id name i =
    text_eq i.phone_number_id number_id
    && text_eq i.normalized_name name
    && text_eq i.claim_source user_claim

abbrev or_unknown_type : Option IdentityType → IdentityType
or_unknown_type none = IdentityType.unknown
or_unknown_type (some type) = type

unfoldable pub confirmed_identity :
    Uuid → Timestamp → Uuid → Text → UserConfirmedEntry → PhoneIdentity
confirmed_identity id now number_id name entry = record {
  id = id;
  phone_number_id = number_id;
  display_name = entry.display_name;
  normalized_name = name;
  identity_type = or_unknown_type entry.identity_type;
  category = entry.category;
  claim_source = user_claim;
  confidence = 9500;
  evidence_count = 1;
  last_seen_at = now;
  status = IdentityStatus.confirmed;
}

-- `INSERT … ON CONFLICT (phone_number_id, normalized_name, claim_source) DO UPDATE`
unfoldable pub upsert_claim :
    Uuid
    → Timestamp
    → Uuid
    → Text
    → UserConfirmedEntry
    → List PhoneIdentity
    → List PhoneIdentity × Uuid
upsert_claim id now number_id name entry [] =
    (confirmed_identity id now number_id name entry ∷ [], id)
upsert_claim id now number_id name entry (i ∷ identities) =
    let rest = upsert_claim id now number_id name entry identities in
    if is_claim_of number_id name i
    then (record i { category = entry.category; last_seen_at = now } ∷ identities, i.id)
    else (i ∷ rest.0, rest.1)

-- `INSERT … ON CONFLICT (phone_identity_id, phone_observation_id) DO NOTHING`
abbrev pub is_pair : Uuid → Uuid → PhoneIdentityEvidence → Bool
is_pair identity_id observation_id e =
    text_eq e.phone_identity_id identity_id && text_eq e.phone_observation_id observation_id

abbrev pub pair : Uuid → Uuid → PhoneIdentityEvidence
pair identity_id observation_id = record {
  phone_identity_id = identity_id;
  phone_observation_id = observation_id;
  evidence_weight = 100;
}

unfoldable pub add_evidence : Uuid → Uuid → List PhoneIdentityEvidence → List PhoneIdentityEvidence
add_evidence identity_id observation_id evidence =
    if any (is_pair identity_id observation_id) evidence
    then evidence
    else evidence ++ pair identity_id observation_id ∷ []

-- `SELECT count(*) … WHERE phone_identity_id = $1`
unfoldable pub evidence_rows : Uuid → List PhoneIdentityEvidence → ℕ
evidence_rows id evidence = length (filter (λ e. text_eq e.phone_identity_id id) evidence)

-- `UPDATE phone_identities SET evidence_count = … WHERE id = $1`
unfoldable pub recount : Uuid → ℕ → List PhoneIdentity → List PhoneIdentity
recount id n = map (λ i. if text_eq i.id id then record i { evidence_count = n } else i)

-- The body of the loop for a number: the tables, and the id of the identity.
unfoldable pub confirm :
    (Text → Text)
    → (Text → Text)
    → Uuid
    → Fresh
    → Text
    → PhoneType
    → UserConfirmedEntry
    → Tables
    → Tables × Uuid
confirm sha256 to_lower_case source_id fresh phone type entry t =
    let numbers = upsert_number fresh.number fresh.now phone type t.phone_numbers in
    let claims =
      upsert_claim fresh.identity fresh.now numbers.1
        (normalize_name_key to_lower_case entry.display_name) entry t.phone_identities in
    let evidence = add_evidence claims.1 fresh.observation t.evidence in
    (
      record t {
        phone_numbers = numbers.0;
        phone_identities = recount claims.1 (evidence_rows claims.1 evidence) claims.0;
        evidence = evidence;
        observations = t.observations ++ observation_of fresh phone entry ∷ [];
        raw_documents = t.raw_documents ++ document_of sha256 fresh source_id phone entry ∷ [];
      },
      claims.1,
    )

abbrev pub skipped : UserConfirmedEntry → UserConfirmedResult
skipped entry = record {
  phone_raw = entry.phone_raw;
  phone_normalized = none;
  valid = false;
  identity_id = none;
  skipped_reason = some invalid_phone_format;
}

abbrev pub stored : UserConfirmedEntry → Text → Uuid → UserConfirmedResult
stored entry phone id = record {
  phone_raw = entry.phone_raw;
  phone_normalized = some phone;
  valid = true;
  identity_id = some id;
  skipped_reason = none;
}

unfoldable pub import_entry :
    (Text → Text)
    → (Text → Text)
    → Uuid
    → Fresh
    → UserConfirmedEntry
    → Tables
    → Tables × UserConfirmedResult
import_entry sha256 to_lower_case source_id fresh entry t =
    elim ((normalize_vietnam_phone entry.phone_raw).normalized) [
      | none ↦ (t, skipped entry)
      | some phone ↦
          let confirmed =
            confirm sha256 to_lower_case source_id fresh phone
              (normalize_vietnam_phone entry.phone_raw).type entry t in
          (confirmed.0, stored entry phone confirmed.1)
    ]

-- The loop; round n has the values `fresh n`.
unfoldable pub import_entries :
    (Text → Text)
    → (Text → Text)
    → Uuid
    → (ℕ → Fresh)
    → ℕ
    → List UserConfirmedEntry
    → Tables
    → Tables × List UserConfirmedResult
import_entries sha256 to_lower_case source_id fresh n [] t = (t, [])
import_entries sha256 to_lower_case source_id fresh n (entry ∷ entries) t =
    let first = import_entry sha256 to_lower_case source_id (fresh n) entry t in
    let rest = import_entries sha256 to_lower_case source_id fresh (n + 1) entries first.0 in
    (rest.0, first.1 ∷ rest.1)

unfoldable pub import_user_confirmed_identities :
    (Text → Text)
    → (Text → Text)
    → Uuid
    → (ℕ → Fresh)
    → List UserConfirmedEntry
    → Tables
    → Tables × List UserConfirmedResult
import_user_confirmed_identities sha256 to_lower_case new_source fresh entries t =
    let source = ensure_user_submitted_source new_source t.data_sources in
    import_entries sha256 to_lower_case source.1 fresh 0 entries
      (record t { data_sources = source.0 })
