-- ===== src/Candidates.antt =====
-- The reading part of runAggregation in apps/api/src/services/aggregation.ts: from the observations
-- of a number to the candidates for its identity. A `Map` is the list of its entries in the order of
-- insertion; `candidatesByKey` is the list of the candidates, each of which has its key.
pub mod Scores
use vn_phone_dp.Prelude.{
  ℕ, zero, suc, ◌+◌, ◌*◌, min, Bool, true, false, ◌&&◌, ◌||◌, Option, none, some, List, [], ◌∷◌,
  ◌++◌, map, Text, codes, text_eq, length, any, filter, if◌then◌else◌, or_else,
}
use vn_phone_dp.Schema.{
  Uuid, Timestamp, SourceType, TrustLevel, IdentityType, IdentityCategory, IdentityStatus,
  DataSource, RawDocument, PhoneObservation, PhoneNumber, PhoneIdentity, PhoneIdentityEvidence,
}
use vn_phone_dp.Guess.{Guess, guess_identity, normalize_name_key, mentions, hotline_keywords}

pub record ObservationRow : Type 0 where
  pub observation_id : Uuid
  pub phone_normalized : Text
  pub context_text : Text
  pub context_before : Text
  pub context_after : Text
  pub source_id : Uuid
  pub source_name : Text
  pub source_type : SourceType
  pub trust_level : TrustLevel

pub record IdentityCandidate : Type 0 where
  pub display_name : Text
  pub normalized_name : Text
  pub identity_type : IdentityType
  pub category : Option IdentityCategory
  pub observation_ids : List Uuid
  pub source_is_official : Bool
  pub source_trust_high : Bool
  pub has_hotline_keyword : Bool
  pub has_cong_ty_keyword : Bool

unfoldable pub compute_score : IdentityCandidate → ℕ
compute_score candidate =
    let score =
      (if candidate.source_trust_high then 20 else 0)
      + 10 * length candidate.observation_ids
      + (if candidate.has_hotline_keyword then 15 else 0)
      + (if candidate.has_cong_ty_keyword then 15 else 0)
      + (if candidate.source_is_official then 20 else 0) in
    min score 100

-- The two inner joins and `isNotNull(phoneNormalized)`.
abbrev row_of : PhoneObservation → Text → DataSource → ObservationRow
row_of po phone ds = record {
  observation_id = po.id;
  phone_normalized = phone;
  context_text = po.context_text;
  context_before = po.context_before;
  context_after = po.context_after;
  source_id = ds.id;
  source_name = ds.name;
  source_type = ds.source_type;
  trust_level = ds.trust_level;
}

unfoldable pub rows_from_documents :
    List DataSource → PhoneObservation → Text → List RawDocument → List ObservationRow
rows_from_documents sources po phone [] = []
rows_from_documents sources po phone (rd ∷ documents) =
    let rest = rows_from_documents sources po phone documents in
    if text_eq po.raw_document_id rd.id
    then map (row_of po phone) (filter (λ ds. text_eq rd.source_id ds.id) sources) ++ rest
    else rest

unfoldable pub observation_rows :
    List DataSource → List RawDocument → List PhoneObservation → List ObservationRow
observation_rows sources documents [] = []
observation_rows sources documents (po ∷ observations) =
    let rest = observation_rows sources documents observations in
    elim po.phone_normalized [
      | none ↦ rest
      | some phone ↦ rows_from_documents sources po phone documents ++ rest
    ]

-- `byPhone`: one more row of its number. An empty number is passed over.
unfoldable pub push_row :
    List (Text × List ObservationRow) → ObservationRow → List (Text × List ObservationRow)
push_row [] row = (row.phone_normalized, row ∷ []) ∷ []
push_row ((phone, rows) ∷ entries) row =
    if text_eq phone row.phone_normalized
    then (phone, rows ++ row ∷ []) ∷ entries
    else (phone, rows) ∷ push_row entries row

abbrev is_empty : Text → Bool
is_empty [] = true
is_empty (c ∷ s) = false

unfoldable pub by_phone :
    List (Text × List ObservationRow) → List ObservationRow → List (Text × List ObservationRow)
by_phone entries [] = entries
by_phone entries (row ∷ rows) =
    by_phone (if is_empty row.phone_normalized then entries else push_row entries row) rows

abbrev is_official_type : SourceType → Bool
is_official_type SourceType.official_website = true
is_official_type SourceType.government = true
is_official_type _ = false

abbrev is_high_trust : TrustLevel → Bool
is_high_trust TrustLevel.high = true
is_high_trust _ = false

abbrev cong_ty_keywords : List Text
cong_ty_keywords = codes "công ty" ∷ codes "cty" ∷ codes "doanh nghiệp" ∷ []

-- The candidate of one observation alone.
unfoldable pub candidate_of : (ℕ → ℕ) → (Text → Text) → ObservationRow → IdentityCandidate
candidate_of canonicalize to_lower_case obs =
    let guess =
      guess_identity canonicalize obs.context_text obs.context_before obs.context_after
        obs.source_name in
    record {
      display_name = guess.display_name;
      normalized_name = normalize_name_key to_lower_case guess.display_name;
      identity_type = guess.identity_type;
      category = guess.category;
      observation_ids = obs.observation_id ∷ [];
      source_is_official = is_official_type obs.source_type;
      source_trust_high = is_high_trust obs.trust_level;
      has_hotline_keyword = mentions canonicalize hotline_keywords obs.context_text;
      has_cong_ty_keyword = mentions canonicalize cong_ty_keywords obs.context_text;
    }

-- What an observation with the candidate `c` of its own changes in an existing candidate.
unfoldable pub merge : IdentityCandidate → IdentityCandidate → IdentityCandidate
merge existing c = record existing {
  observation_ids = existing.observation_ids ++ c.observation_ids;
  source_is_official = existing.source_is_official || c.source_is_official;
  source_trust_high = existing.source_trust_high || c.source_trust_high;
  has_hotline_keyword = existing.has_hotline_keyword || c.has_hotline_keyword;
  has_cong_ty_keyword = existing.has_cong_ty_keyword || c.has_cong_ty_keyword;
}

-- `candidatesByKey`, of which the key is the normalized name.
unfoldable pub note_candidate : List IdentityCandidate → IdentityCandidate → List IdentityCandidate
note_candidate [] c = c ∷ []
note_candidate (existing ∷ candidates) c =
    if text_eq existing.normalized_name c.normalized_name
    then merge existing c ∷ candidates
    else existing ∷ note_candidate candidates c

unfoldable pub candidates_by_key :
    (ℕ → ℕ) → (Text → Text) → List IdentityCandidate → List ObservationRow → List IdentityCandidate
candidates_by_key canonicalize to_lower_case candidates [] = candidates
candidates_by_key canonicalize to_lower_case candidates (obs ∷ observations) =
    candidates_by_key canonicalize to_lower_case
      (note_candidate candidates (candidate_of canonicalize to_lower_case obs)) observations
