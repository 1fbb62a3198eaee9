-- ===== src/Aggregation/Rerun.antt =====
-- A second run of the aggregation.
use vn_phone_dp.Prelude.{
  ℕ, ◌≡◌, refl, ap, ◌∙◌, none, some, List, [], ◌∷◌, Text, All, Option-cases, inl, inr,
}
use vn_phone_dp.Schema.{Uuid, Timestamp, PhoneNumber}
use vn_phone_dp.Directory.{Tables}
use vn_phone_dp.Candidates.{
  ObservationRow, IdentityCandidate, candidates_by_key, by_phone, observation_rows,
}
use vn_phone_dp.Aggregation.{
  AggregationState, store_candidates, phone_id_of, aggregate_phones, run_aggregation,
}
use vn_phone_dp.Aggregation.Evidence.{
  IsStored, links, store_candidates-keeps, store_candidates-IsStored, store_candidates-again,
}

module _ (canonicalize : ℕ → ℕ) (to_lower_case : Text → Text) (numbers : List PhoneNumber) where
  abbrev candidates : List ObservationRow → List IdentityCandidate
  candidates rows = candidates_by_key canonicalize to_lower_case [] rows

  -- The candidates of a number that has a row are stored.
  abbrev IsPhoneStored : AggregationState → Text × List ObservationRow → Type 0
  IsPhoneStored st e =
      (p : Uuid) → phone_id_of numbers e.0 ≡ some p → All (IsStored st p) (candidates e.1)

  module _ (new_id : ℕ → Uuid) (now : ℕ → Timestamp) where
    abbrev aggregated : List (Text × List ObservationRow) → AggregationState → AggregationState
    aggregated entries st =
        aggregate_phones canonicalize to_lower_case new_id now numbers entries st

    All-candidates :
        (p : Uuid) (cs : List IdentityCandidate) (st : AggregationState) (q : Uuid)
        (ds : List IdentityCandidate)
        → All (IsStored st q) ds
        → All (IsStored (store_candidates new_id now p cs st) q) ds
    All-candidates p cs st q [] h = tt
    All-candidates p cs st q (d ∷ ds) (h, hs) =
        (store_candidates-keeps new_id now p cs st q d h, All-candidates p cs st q ds hs)

    aggregated-keeps :
        (entries : List (Text × List ObservationRow)) (st : AggregationState) (q : Uuid)
        (ds : List IdentityCandidate)
        → All (IsStored st q) ds
        → All (IsStored (aggregated entries st) q) ds
    unfolding aggregate_phones
    aggregated-keeps [] st q ds h = h
    aggregated-keeps ((phone, rows) ∷ entries) st q ds h =
        elim (Option-cases (phone_id_of numbers phone)) [
          | inl missing ↦ rw missing (aggregated-keeps entries st q ds h)
          | inr (p, found) ↦ rw found (
              aggregated-keeps entries (store_candidates new_id now p (candidates rows) st) q ds
                (All-candidates p (candidates rows) st q ds h))
        ]

    aggregated-stored :
        (entries : List (Text × List ObservationRow)) (st : AggregationState)
        → All (IsPhoneStored (aggregated entries st)) entries
    unfolding aggregate_phones
    aggregated-stored [] st = tt
    aggregated-stored ((phone, rows) ∷ entries) st = (
      λ p found. rw found (
          aggregated-keeps entries (store_candidates new_id now p (candidates rows) st) p
            (candidates rows) (store_candidates-IsStored new_id now p (candidates rows) st)),
      aggregated-stored entries _,
    )

    All-entries :
        (p : Uuid) (cs : List IdentityCandidate) (st : AggregationState)
        (entries : List (Text × List ObservationRow))
        → All (IsPhoneStored st) entries
        → All (IsPhoneStored (store_candidates new_id now p cs st)) entries
    All-entries p cs st [] h = tt
    All-entries p cs st (e ∷ entries) (h, hs) = (
      λ q found. All-candidates p cs st q (candidates e.1) (h q found),
      All-entries p cs st entries hs,
    )

    aggregated-missing :
        (phone : Text) (rows : List ObservationRow) (entries : List (Text × List ObservationRow))
        (st : AggregationState)
        → phone_id_of numbers phone ≡ none
        → aggregated ((phone, rows) ∷ entries) st ≡ aggregated entries st
    unfolding aggregate_phones
    aggregated-missing phone rows entries st missing = rw missing refl

    aggregated-found :
        (phone : Text) (rows : List ObservationRow) (entries : List (Text × List ObservationRow))
        (st : AggregationState) (p : Uuid)
        → phone_id_of numbers phone ≡ some p
        → aggregated ((phone, rows) ∷ entries) st
          ≡ aggregated entries (store_candidates new_id now p (candidates rows) st)
    unfolding aggregate_phones
    aggregated-found phone rows entries st p found = rw found refl

    aggregated-again :
        (entries : List (Text × List ObservationRow)) (st : AggregationState)
        → All (IsPhoneStored st) entries
        → links (aggregated entries st) ≡ links st
    unfolding aggregate_phones
    aggregated-again [] st h = refl
    aggregated-again ((phone, rows) ∷ entries) st (h, hs) =
        elim (Option-cases (phone_id_of numbers phone)) [
          | inl missing ↦
              ap links (aggregated-missing phone rows entries st missing)
              ∙ aggregated-again entries st hs
          | inr (p, found) ↦
              ap links (aggregated-found phone rows entries st p found)
              ∙ aggregated-again entries (store_candidates new_id now p (candidates rows) st)
                  (All-entries p (candidates rows) st entries hs)
              ∙ store_candidates-again new_id now p (candidates rows) st (h p found)
        ]

-- A run of the aggregation on what a run has left, with the observations in the same order, adds no
-- evidence and counts no new link, whatever ids and times it would give to new rows.
pub run_aggregation-again :
    (canonicalize : ℕ → ℕ) (to_lower_case : Text → Text) (new_id new_id' : ℕ → Uuid)
    (now now' : ℕ → Timestamp) (arrange : List ObservationRow → List ObservationRow) (t : Tables)
    → ((run_aggregation canonicalize to_lower_case new_id' now' arrange
          (run_aggregation canonicalize to_lower_case new_id now arrange
            t).0).1.evidence_links_created
        ≡ 0)
      × ((run_aggregation canonicalize to_lower_case new_id' now' arrange
            (run_aggregation canonicalize to_lower_case new_id now arrange t).0).0.evidence
          ≡ (run_aggregation canonicalize to_lower_case new_id now arrange t).0.evidence)
unfolding run_aggregation
run_aggregation-again canonicalize to_lower_case new_id new_id' now now' arrange t =
    let phones =
      by_phone [] (arrange (observation_rows t.data_sources t.raw_documents t.observations)) in
    let same =
      aggregated-again canonicalize to_lower_case t.phone_numbers new_id' now' phones _
        (aggregated-stored canonicalize to_lower_case t.phone_numbers new_id now phones _) in
    (ap (λ l. l.1) same, ap (λ l. l.0) same)
