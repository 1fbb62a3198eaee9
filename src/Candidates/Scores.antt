-- ===== src/Candidates/Scores.antt =====
-- The candidates of a number and their scores.
use vn_phone_dp.Prelude.{
  ℕ, ◌+◌, ◌≤◌, ◌≡◌, min, refl, ap, false, List, [], ◌∷◌, map, arith, Text, text_eq, length,
  length-append, All, Bool-cases, inl, inr,
}
use vn_phone_dp.Prelude.Groups.{count, count-append}
use vn_phone_dp.Prelude.Sorting.{total, IsOrdered}
use vn_phone_dp.Candidates.{
  ObservationRow, IdentityCandidate, compute_score, candidate_of, merge, note_candidate,
  candidates_by_key,
}

-- One more observation of a name raises the score by ten points at least, as long as it stays within
-- 100; no score is over 100.
pub compute_score-merge :
    (existing c : IdentityCandidate)
    → 1 ≤ length c.observation_ids
    → (min 100 (compute_score existing + 10) ≤ compute_score (merge existing c))
      × (compute_score (merge existing c) ≤ 100)
unfolding compute_score merge
compute_score-merge existing c h =
    (ground (arith, length-append existing.observation_ids c.observation_ids), omega arith)

-- How many of the observations of the candidates have an id.
abbrev pub evidence_of : Text → List IdentityCandidate → ℕ
evidence_of id candidates = total (λ c. count text_eq id c.observation_ids) candidates

evidence_of-note :
    (id : Text) (candidates : List IdentityCandidate) (c : IdentityCandidate)
    → evidence_of id (note_candidate candidates c)
      ≡ evidence_of id candidates + count text_eq id c.observation_ids
unfolding note_candidate merge
evidence_of-note id [] c = omega arith
evidence_of-note id (e ∷ candidates) c = ground (
  arith,
  evidence_of-note id candidates c,
  count-append text_eq id e.observation_ids c.observation_ids,
)

-- Two candidates have different names.
abbrev pub IsApart : IdentityCandidate → IdentityCandidate → Type 0
IsApart c d = text_eq c.normalized_name d.normalized_name ≡ false

IsApart-note :
    (e : IdentityCandidate) (candidates : List IdentityCandidate) (c : IdentityCandidate)
    → All (IsApart e) candidates
    → IsApart e c
    → All (IsApart e) (note_candidate candidates c)
unfolding note_candidate merge
IsApart-note e [] c h k = (k, tt)
IsApart-note e (f ∷ candidates) c (h, hs) k =
    elim (Bool-cases (text_eq f.normalized_name c.normalized_name)) [
      | inl same ↦ rw same (h, hs)
      | inr other ↦ rw other (h, IsApart-note e candidates c hs k)
    ]

All-merge :
    (e c : IdentityCandidate) (candidates : List IdentityCandidate)
    → All (IsApart e) candidates
    → All (IsApart (merge e c)) candidates
unfolding merge
All-merge e c [] h = tt
All-merge e c (f ∷ candidates) (h, hs) = (h, All-merge e c candidates hs)

note_candidate-IsOrdered :
    (candidates : List IdentityCandidate) (c : IdentityCandidate)
    → IsOrdered IsApart candidates
    → IsOrdered IsApart (note_candidate candidates c)
unfolding note_candidate
note_candidate-IsOrdered [] c h = (tt, tt)
note_candidate-IsOrdered (e ∷ candidates) c (h, hs) =
    elim (Bool-cases (text_eq e.normalized_name c.normalized_name)) [
      | inl same ↦ rw same (All-merge e c candidates h, hs)
      | inr other ↦
          rw other (IsApart-note e candidates c h other, note_candidate-IsOrdered candidates c hs)
    ]

-- A candidate has an observation, so that its score is from 10 to 100.
abbrev pub IsScored : IdentityCandidate → Type 0
IsScored c = (1 ≤ length c.observation_ids) × (10 ≤ compute_score c) × (compute_score c ≤ 100)

IsScored-of_length : (c : IdentityCandidate) → 1 ≤ length c.observation_ids → IsScored c
unfolding compute_score
IsScored-of_length c h = (h, ground arith, omega arith)

merge-length :
    (e c : IdentityCandidate)
    → 1 ≤ length c.observation_ids
    → 1 ≤ length (merge e c).observation_ids
unfolding merge
merge-length e c h = omega (arith, length-append e.observation_ids c.observation_ids)

IsScored-note :
    (candidates : List IdentityCandidate) (c : IdentityCandidate)
    → All IsScored candidates
    → 1 ≤ length c.observation_ids
    → All IsScored (note_candidate candidates c)
unfolding note_candidate
IsScored-note [] c h k = (IsScored-of_length c k, tt)
IsScored-note (e ∷ candidates) c (h, hs) k =
    elim (Bool-cases (text_eq e.normalized_name c.normalized_name)) [
      | inl same ↦ rw same (IsScored-of_length (merge e c) (merge-length e c k), hs)
      | inr other ↦ rw other (h, IsScored-note candidates c hs k)
    ]

module _ (canonicalize : ℕ → ℕ) (to_lower_case : Text → Text) where
  candidate_of-ids :
      (obs : ObservationRow)
      → (candidate_of canonicalize to_lower_case obs).observation_ids ≡ obs.observation_id ∷ []
  unfolding candidate_of
  candidate_of-ids obs = refl

  from-evidence :
      (id : Text) (candidates : List IdentityCandidate) (rows : List ObservationRow)
      → evidence_of id (candidates_by_key canonicalize to_lower_case candidates rows)
        ≡ evidence_of id candidates + count text_eq id (map (λ r. r.observation_id) rows)
  unfolding candidates_by_key
  from-evidence id candidates [] = omega arith
  from-evidence id candidates (obs ∷ rows) =
      let c = candidate_of canonicalize to_lower_case obs in
      omega (
        arith,
        from-evidence id (note_candidate candidates c) rows,
        evidence_of-note id candidates c,
        ap (λ (ids : List Text). count text_eq id ids) (candidate_of-ids obs),
      )

  from-candidates :
      (candidates : List IdentityCandidate) (rows : List ObservationRow)
      → IsOrdered IsApart candidates
      → All IsScored candidates
      → IsOrdered IsApart (candidates_by_key canonicalize to_lower_case candidates rows)
        × All IsScored (candidates_by_key canonicalize to_lower_case candidates rows)
  unfolding candidates_by_key
  from-candidates candidates [] h k = (h, k)
  from-candidates candidates (obs ∷ rows) h k =
      let c = candidate_of canonicalize to_lower_case obs in
      from-candidates (note_candidate candidates c) rows (note_candidate-IsOrdered candidates c h)
        (IsScored-note candidates c k (rw (candidate_of-ids obs) (omega arith)))

  -- Each observation of a number is evidence of one of its candidates: an id occurs as often among
  -- their observations as among the rows. The candidates have different names, and scores from 10
  -- to 100.
  pub candidates_by_key-accepted :
      (rows : List ObservationRow)
      → ((id : Text)
          → evidence_of id (candidates_by_key canonicalize to_lower_case [] rows)
            ≡ count text_eq id (map (λ r. r.observation_id) rows))
        × IsOrdered IsApart (candidates_by_key canonicalize to_lower_case [] rows)
        × All IsScored (candidates_by_key canonicalize to_lower_case [] rows)
  candidates_by_key-accepted rows = (
    λ id. omega (arith, from-evidence id [] rows),
    (from-candidates [] rows tt tt).0,
    (from-candidates [] rows tt tt).1,
  )
