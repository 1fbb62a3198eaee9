-- ===== src/Aggregation/Evidence.antt =====
-- What a run of the aggregation stores, and that a second run finds it stored.
use vn_phone_dp.Prelude.{
  ℕ, ◌≡◌, refl, ap, ◌∙◌, true, Option, none, some, List, [], ◌∷◌, arith, text_eq_refl, length, any,
  All, if◌then◌else◌, Bool-cases, inl, inr, any-append,
}
use vn_phone_dp.Schema.{Uuid, Timestamp, PhoneIdentity, PhoneIdentityEvidence}
use vn_phone_dp.Candidates.{IdentityCandidate}
use vn_phone_dp.Aggregation.{
  AggregationState, is_same_identity, upsert_identity, is_link, link_observation, link_evidence,
  store_candidate, store_candidates, claim_source,
}

-- The id of the row that an upsert finds.
abbrev pub stored_id : Uuid → IdentityCandidate → List PhoneIdentity → Option Uuid
stored_id p c [] = none
stored_id p c (i ∷ is) = if is_same_identity p c i then some i.id else stored_id p c is

upsert_identity-stored :
    (id : Uuid) (now : Timestamp) (p : Uuid) (c : IdentityCandidate) (is : List PhoneIdentity)
    → stored_id p c (upsert_identity id now p c is).0 ≡ some (upsert_identity id now p c is).1
unfolding upsert_identity
upsert_identity-stored id now p c [] =
    ground (arith, text_eq_refl p, text_eq_refl c.normalized_name, text_eq_refl claim_source)
upsert_identity-stored id now p c (i ∷ is) = elim (Bool-cases (is_same_identity p c i)) [
  | inl same ↦ rw (same, same) refl
  | inr other ↦ rw (other, other) (upsert_identity-stored id now p c is)
]

upsert_identity-keeps :
    (id : Uuid) (now : Timestamp) (p : Uuid) (c : IdentityCandidate) (is : List PhoneIdentity)
    (q : Uuid) (d : IdentityCandidate) (u : Uuid)
    → stored_id q d is ≡ some u
    → stored_id q d (upsert_identity id now p c is).0 ≡ some u
unfolding upsert_identity
upsert_identity-keeps id now p c [] q d u h = absurd (ground arith)
upsert_identity-keeps id now p c (i ∷ is) q d u h =
    ground (arith, upsert_identity-keeps id now p c is q d u)

upsert_identity-found :
    (id : Uuid) (now : Timestamp) (p : Uuid) (c : IdentityCandidate) (is : List PhoneIdentity)
    (u : Uuid)
    → stored_id p c is ≡ some u
    → (upsert_identity id now p c is).1 ≡ u
unfolding upsert_identity
upsert_identity-found id now p c [] u h = absurd (ground arith)
upsert_identity-found id now p c (i ∷ is) u h =
    ground (arith, upsert_identity-found id now p c is u)

abbrev pub IsLinked : Uuid → AggregationState → Uuid → Type 0
IsLinked u st o = any (is_link u o) st.evidence ≡ true

link_observation-identities :
    (u o : Uuid) (st : AggregationState)
    → (link_observation u o st).phone_identities ≡ st.phone_identities
unfolding link_observation
link_observation-identities u o st = elim (Bool-cases (any (is_link u o) st.evidence)) [
  | inl linked ↦ rw linked refl
  | inr new' ↦ rw new' refl
]

link_observation-keeps :
    (u o : Uuid) (st : AggregationState) (v p : Uuid)
    → IsLinked v st p
    → IsLinked v (link_observation u o st) p
unfolding link_observation
link_observation-keeps u o st v p h = elim (Bool-cases (any (is_link u o) st.evidence)) [
  | inl linked ↦ rw linked h
  | inr new' ↦ rw new' (rw (any-append (is_link v p) st.evidence _, h) refl)
]

link_observation-IsLinked :
    (u o : Uuid) (st : AggregationState) → IsLinked u (link_observation u o st) o
unfolding link_observation
link_observation-IsLinked u o st = elim (Bool-cases (any (is_link u o) st.evidence)) [
  | inl linked ↦ rw linked linked
  | inr new' ↦
      rw new' (
        rw (any-append (is_link u o) st.evidence _)
          (ground (arith, text_eq_refl u, text_eq_refl o)))
]

link_evidence-identities :
    (u : Uuid) (ids : List Uuid) (st : AggregationState)
    → (link_evidence u ids st).phone_identities ≡ st.phone_identities
unfolding link_evidence
link_evidence-identities u [] st = refl
link_evidence-identities u (o ∷ ids) st =
    link_evidence-identities u ids (link_observation u o st) ∙ link_observation-identities u o st

link_evidence-keeps :
    (u : Uuid) (ids : List Uuid) (st : AggregationState) (v o : Uuid)
    → IsLinked v st o
    → IsLinked v (link_evidence u ids st) o
unfolding link_evidence
link_evidence-keeps u [] st v o h = h
link_evidence-keeps u (p ∷ ids) st v o h =
    link_evidence-keeps u ids (link_observation u p st) v o (link_observation-keeps u p st v o h)

link_evidence-IsLinked :
    (u : Uuid) (ids : List Uuid) (st : AggregationState)
    → All (IsLinked u (link_evidence u ids st)) ids
unfolding link_evidence
link_evidence-IsLinked u [] st = tt
link_evidence-IsLinked u (o ∷ ids) st = (
  link_evidence-keeps u ids (link_observation u o st) u o (link_observation-IsLinked u o st),
  link_evidence-IsLinked u ids (link_observation u o st),
)

link_evidence-again :
    (u : Uuid) (ids : List Uuid) (st : AggregationState)
    → All (IsLinked u st) ids
    → link_evidence u ids st ≡ st
unfolding link_evidence link_observation
link_evidence-again u [] st h = refl
link_evidence-again u (o ∷ ids) st (h, hs) = rw h (link_evidence-again u ids st hs)

-- The candidate of a number has its identity, and its observations are evidence of that.
abbrev pub IsStored : AggregationState → Uuid → IdentityCandidate → Type 0
IsStored st p c =
    (u : Uuid) × (stored_id p c st.phone_identities ≡ some u)
    × All (IsLinked u st) c.observation_ids

abbrev IsStoredAll : AggregationState → Uuid → List IdentityCandidate → Type 0
IsStoredAll st p cs = All (IsStored st p) cs

-- The evidence and its counter.
abbrev pub links : AggregationState → List PhoneIdentityEvidence × ℕ
links st = (st.evidence, st.evidence_links_created)

module _ (new_id : ℕ → Uuid) (now : ℕ → Timestamp) where
  abbrev upserted : Uuid → IdentityCandidate → AggregationState → List PhoneIdentity × Uuid
  upserted p c st =
      upsert_identity (new_id (length st.phone_identities)) (now st.identities_upserted) p c
        st.phone_identities

  store_candidate-IsStored :
      (p : Uuid) (c : IdentityCandidate) (st : AggregationState)
      → IsStored (store_candidate new_id now p c st) p c
  unfolding store_candidate
  store_candidate-IsStored p c st = (
    (upserted p c st).1,
    ap (λ is. stored_id p c is) (link_evidence-identities (upserted p c st).1 c.observation_ids _)
        ∙ upsert_identity-stored _ _ p c st.phone_identities,
    link_evidence-IsLinked (upserted p c st).1 c.observation_ids _,
  )

  All-IsLinked :
      (u v : Uuid) (ids os : List Uuid) (st : AggregationState)
      → All (IsLinked v st) os
      → All (IsLinked v (link_evidence u ids st)) os
  All-IsLinked u v ids [] st h = tt
  All-IsLinked u v ids (o ∷ os) st (h, hs) =
      (link_evidence-keeps u ids st v o h, All-IsLinked u v ids os st hs)

  store_candidate-keeps :
      (p : Uuid) (c : IdentityCandidate) (st : AggregationState) (q : Uuid) (d : IdentityCandidate)
      → IsStored st q d
      → IsStored (store_candidate new_id now p c st) q d
  unfolding store_candidate
  store_candidate-keeps p c st q d (u, e, hs) = (
    u,
    ap (λ is. stored_id q d is) (link_evidence-identities (upserted p c st).1 c.observation_ids _)
        ∙ upsert_identity-keeps _ _ p c st.phone_identities q d u e,
    All-IsLinked (upserted p c st).1 u c.observation_ids d.observation_ids _ hs,
  )

  store_candidate-again :
      (p : Uuid) (c : IdentityCandidate) (st : AggregationState)
      → IsStored st p c
      → links (store_candidate new_id now p c st) ≡ links st
  unfolding store_candidate
  store_candidate-again p c st (u, e, hs) =
      rw (upsert_identity-found _ (now st.identities_upserted) p c st.phone_identities u e) (
        ap (λ (s : AggregationState). (s.evidence, s.evidence_links_created))
          (link_evidence-again u c.observation_ids _ hs))

  pub store_candidates-keeps :
      (p : Uuid) (cs : List IdentityCandidate) (st : AggregationState) (q : Uuid)
      (d : IdentityCandidate)
      → IsStored st q d
      → IsStored (store_candidates new_id now p cs st) q d
  unfolding store_candidates
  store_candidates-keeps p [] st q d h = h
  store_candidates-keeps p (c ∷ cs) st q d h =
      store_candidates-keeps p cs (store_candidate new_id now p c st) q d
        (store_candidate-keeps p c st q d h)

  pub store_candidates-IsStored :
      (p : Uuid) (cs : List IdentityCandidate) (st : AggregationState)
      → All (IsStored (store_candidates new_id now p cs st) p) cs
  unfolding store_candidates
  store_candidates-IsStored p [] st = tt
  store_candidates-IsStored p (c ∷ cs) st = (
    store_candidates-keeps p cs (store_candidate new_id now p c st) p c
        (store_candidate-IsStored p c st),
    store_candidates-IsStored p cs (store_candidate new_id now p c st),
  )

  All-IsStored :
      (p : Uuid) (c : IdentityCandidate) (st : AggregationState) (q : Uuid)
      (ds : List IdentityCandidate)
      → All (IsStored st q) ds
      → All (IsStored (store_candidate new_id now p c st) q) ds
  All-IsStored p c st q [] h = tt
  All-IsStored p c st q (d ∷ ds) (h, hs) =
      (store_candidate-keeps p c st q d h, All-IsStored p c st q ds hs)

  pub store_candidates-again :
      (p : Uuid) (cs : List IdentityCandidate) (st : AggregationState)
      → All (IsStored st p) cs
      → links (store_candidates new_id now p cs st) ≡ links st
  unfolding store_candidates
  store_candidates-again p [] st h = refl
  store_candidates-again p (c ∷ cs) st (h, hs) =
      store_candidates-again p cs (store_candidate new_id now p c st) (All-IsStored p c st p cs hs)
      ∙ store_candidate-again p c st h
