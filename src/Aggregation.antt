-- ===== src/Aggregation.antt =====
-- The writing part of runAggregation in apps/api/src/services/aggregation.ts: the identities of the
-- candidates and their evidence. The clock and the ids of new rows are parameters: `now n` is the
-- time of the upsert after n others, `new_id n` the id of the identity that is inserted into a table
-- of n rows.
pub mod Evidence
pub mod Rerun
use vn_phone_dp.Prelude.{
  ℕ, zero, suc, ◌+◌, ◌*◌, min, Bool, true, false, ◌&&◌, ◌||◌, Option, none, some, List, [], ◌∷◌,
  ◌++◌, map, Text, codes, text_eq, length, any, filter, if◌then◌else◌, or_else,
}
use vn_phone_dp.Schema.{
  Uuid, Timestamp, SourceType, TrustLevel, IdentityType, IdentityCategory, IdentityStatus,
  DataSource, RawDocument, PhoneObservation, PhoneNumber, PhoneIdentity, PhoneIdentityEvidence,
}
use vn_phone_dp.Directory.{Tables}
use vn_phone_dp.Candidates.{
  ObservationRow, IdentityCandidate, compute_score, observation_rows, by_phone, candidates_by_key,
}

-- The tables that the aggregation writes, and its counters.
pub record AggregationState : Type 0 where
  pub phone_identities : List PhoneIdentity
  pub evidence : List PhoneIdentityEvidence
  pub identities_upserted : ℕ
  pub evidence_links_created : ℕ

abbrev pub claim_source : Text
claim_source = codes "rule_based_aggregation_v1"

-- The target of the conflict: the same number, name and claim source.
abbrev pub is_same_identity : Uuid → IdentityCandidate → PhoneIdentity → Bool
is_same_identity phone_id candidate i =
    text_eq i.phone_number_id phone_id
    && text_eq i.normalized_name candidate.normalized_name
    && text_eq i.claim_source claim_source

abbrev pub new_identity : Uuid → Timestamp → Uuid → IdentityCandidate → PhoneIdentity
new_identity id now phone_id candidate = record {
  id = id;
  phone_number_id = phone_id;
  display_name = candidate.display_name;
  normalized_name = candidate.normalized_name;
  identity_type = candidate.identity_type;
  category = candidate.category;
  claim_source = claim_source;
  confidence = compute_score candidate * 100;
  evidence_count = length candidate.observation_ids;
  last_seen_at = now;
  status = IdentityStatus.candidate;
}

-- The `set` of the conflict; a category that is `undefined` is left as it was.
abbrev pub updated_identity : Timestamp → IdentityCandidate → PhoneIdentity → PhoneIdentity
updated_identity now candidate i = record i {
  category = or_else candidate.category i.category;
  confidence = compute_score candidate * 100;
  evidence_count = length candidate.observation_ids;
  last_seen_at = now;
}

-- The table after the upsert, and the id that it returns.
unfoldable pub upsert_identity :
    Uuid → Timestamp → Uuid → IdentityCandidate → List PhoneIdentity → List PhoneIdentity × Uuid
upsert_identity id now phone_id candidate [] = (new_identity id now phone_id candidate ∷ [], id)
upsert_identity id now phone_id candidate (i ∷ identities) =
    let rest = upsert_identity id now phone_id candidate identities in
    if is_same_identity phone_id candidate i
    then (updated_identity now candidate i ∷ identities, i.id)
    else (i ∷ rest.0, rest.1)

abbrev pub is_link : Uuid → Uuid → PhoneIdentityEvidence → Bool
is_link identity_id observation_id e =
    text_eq e.phone_identity_id identity_id && text_eq e.phone_observation_id observation_id

-- `onConflictDoNothing`, and the counter of new rows.
unfoldable pub link_observation : Uuid → Uuid → AggregationState → AggregationState
link_observation identity_id observation_id st =
    if any (is_link identity_id observation_id) st.evidence then st else record st {
      evidence =
          st.evidence
          ++ record {
            phone_identity_id = identity_id;
            phone_observation_id = observation_id;
            evidence_weight = 100;
          }
            ∷ [];
      evidence_links_created = st.evidence_links_created + 1;
    }

-- The loop over the observations of a candidate.
unfoldable pub link_evidence : Uuid → List Uuid → AggregationState → AggregationState
link_evidence identity_id [] st = st
link_evidence identity_id (observation_id ∷ ids) st =
    link_evidence identity_id ids (link_observation identity_id observation_id st)

unfoldable pub store_candidate :
    (ℕ → Uuid) → (ℕ → Timestamp) → Uuid → IdentityCandidate → AggregationState → AggregationState
store_candidate new_id now phone_id candidate st =
    let stored =
      upsert_identity (new_id (length st.phone_identities)) (now st.identities_upserted) phone_id
        candidate st.phone_identities in
    link_evidence stored.1 candidate.observation_ids
      (record st { phone_identities = stored.0; identities_upserted = st.identities_upserted + 1 })

unfoldable pub store_candidates :
    (ℕ → Uuid)
    → (ℕ → Timestamp)
    → Uuid
    → List IdentityCandidate
    → AggregationState
    → AggregationState
store_candidates new_id now phone_id [] st = st
store_candidates new_id now phone_id (c ∷ candidates) st =
    store_candidates new_id now phone_id candidates (store_candidate new_id now phone_id c st)

-- `SELECT id FROM phone_numbers WHERE phone_e164 = … LIMIT 1`
unfoldable pub phone_id_of : List PhoneNumber → Text → Option Uuid
phone_id_of [] phone = none
phone_id_of (pn ∷ phone_numbers) phone =
    let rest = phone_id_of phone_numbers phone in
    if text_eq pn.phone_e164 phone then some pn.id else rest

unfoldable pub aggregate_phones :
    (ℕ → ℕ)
    → (Text → Text)
    → (ℕ → Uuid)
    → (ℕ → Timestamp)
    → List PhoneNumber
    → List (Text × List ObservationRow)
    → AggregationState
    → AggregationState
aggregate_phones canonicalize to_lower_case new_id now numbers [] st = st
aggregate_phones canonicalize to_lower_case new_id now numbers ((phone, rows) ∷ entries) st =
    aggregate_phones canonicalize to_lower_case new_id now numbers entries
      (elim (phone_id_of numbers phone) [
        | none ↦ st
        | some phone_id ↦
            store_candidates new_id now phone_id
              (candidates_by_key canonicalize to_lower_case [] rows) st
      ])

pub record AggregationResult : Type 0 where
  pub phones_processed : ℕ
  pub identities_upserted : ℕ
  pub evidence_links_created : ℕ

unfoldable pub run_aggregation :
    (ℕ → ℕ)
    → (Text → Text)
    → (ℕ → Uuid)
    → (ℕ → Timestamp)
    → (List ObservationRow → List ObservationRow)
    → Tables
    → Tables × AggregationResult
run_aggregation canonicalize to_lower_case new_id now arrange t =
    let phones =
      by_phone [] (arrange (observation_rows t.data_sources t.raw_documents t.observations)) in
    let st = aggregate_phones canonicalize to_lower_case new_id now t.phone_numbers phones (record {
      phone_identities = t.phone_identities;
      evidence = t.evidence;
      identities_upserted = 0;
      evidence_links_created = 0;
    }) in
    (
      record t { phone_identities = st.phone_identities; evidence = st.evidence },
      record {
        phones_processed = length phones;
        identities_upserted = st.identities_upserted;
        evidence_links_created = st.evidence_links_created;
      },
    )
