-- ===== src/UserConfirmed/Resubmit.antt =====
-- The same entries, imported again.
use vn_phone_dp.Prelude.{
  ℕ, ◌+◌, ◌≡◌, refl, sym, ap, ◌∙◌, Option, none, some, List, [], ◌∷◌, Text, length, Option-cases,
  inl, inr,
}
use vn_phone_dp.Phone.{PhoneType, normalize_vietnam_phone}
use vn_phone_dp.Schema.{Uuid, DataSource}
use vn_phone_dp.Directory.{Tables}
use vn_phone_dp.Guess.{normalize_name_key}
use vn_phone_dp.Aggregation.{phone_id_of}
use vn_phone_dp.UserConfirmed.{
  UserConfirmedEntry, UserConfirmedResult, Fresh, ensure_user_submitted_source, confirm, skipped,
  stored, import_entry, import_entries, import_user_confirmed_identities,
}
use vn_phone_dp.UserConfirmed.Upserts.{
  claim_id, upsert_number-found, upsert_number-keeps, upsert_number-again, upsert_claim-found,
  upsert_claim-keeps, upsert_claim-again, claim_id-recount, length-recount, ensure_again,
}

-- How many numbers and identities there are.
abbrev pub sizes : Tables → ℕ × ℕ
sizes t = (length t.phone_numbers, length t.phone_identities)

module _ (sha256 to_lower_case : Text → Text) where
  -- The number of an entry has the identity of its name, with the id u.
  abbrev IsRecorded : Tables → UserConfirmedEntry → Text → Uuid → Type 0
  IsRecorded t entry phone u =
      (p : Uuid) × (phone_id_of t.phone_numbers phone ≡ some p)
      × (claim_id p (normalize_name_key to_lower_case entry.display_name) t.phone_identities
          ≡ some u)

  abbrev Told : Tables → UserConfirmedEntry → UserConfirmedResult → Option Text → Type 0
  Told t entry r none = r ≡ skipped entry
  Told t entry r (some phone) = (u : Uuid) × IsRecorded t entry phone u × (r ≡ stored entry phone u)

  -- The result of an entry is the one that the tables would give it again.
  abbrev IsTold : Tables → UserConfirmedEntry → UserConfirmedResult → Type 0
  IsTold t entry r = Told t entry r ((normalize_vietnam_phone entry.phone_raw).normalized)

  module _ (source_id : Uuid) (fresh : Fresh) where
    abbrev confirmed : Text → PhoneType → UserConfirmedEntry → Tables → Tables × Uuid
    confirmed phone type entry t = confirm sha256 to_lower_case source_id fresh phone type entry t

    abbrev imported : UserConfirmedEntry → Tables → Tables × UserConfirmedResult
    imported entry t = import_entry sha256 to_lower_case source_id fresh entry t

    confirm-IsRecorded :
        (phone : Text) (type : PhoneType) (entry : UserConfirmedEntry) (t : Tables)
        → IsRecorded (confirmed phone type entry t).0 entry phone (confirmed phone type entry t).1
    unfolding confirm
    confirm-IsRecorded phone type entry t = (
      _,
      upsert_number-found fresh.number fresh.now phone type t.phone_numbers,
      claim_id-recount _ _ _ _ _
          ∙ upsert_claim-found fresh.identity fresh.now _ _ entry t.phone_identities,
    )

    confirm-keeps :
        (phone : Text) (type : PhoneType) (entry : UserConfirmedEntry) (t : Tables)
        (other : UserConfirmedEntry) (q : Text) (u : Uuid)
        → IsRecorded t other q u
        → IsRecorded (confirmed phone type entry t).0 other q u
    unfolding confirm
    confirm-keeps phone type entry t other q u (p, n, c) = (
      p,
      upsert_number-keeps fresh.number fresh.now phone type t.phone_numbers q p n,
      claim_id-recount _ _ _ _ _
          ∙ upsert_claim-keeps fresh.identity fresh.now _ _ entry t.phone_identities p _ u c,
    )

    confirm-again :
        (phone : Text) (type : PhoneType) (entry : UserConfirmedEntry) (t : Tables) (u : Uuid)
        → IsRecorded t entry phone u
        → ((confirmed phone type entry t).1 ≡ u)
          × (sizes (confirmed phone type entry t).0 ≡ sizes t)
    unfolding confirm
    confirm-again phone type entry t u (p, n, c) =
        let (same, as_many) =
          upsert_number-again fresh.number fresh.now phone type t.phone_numbers p n in
        let again =
          upsert_claim-again fresh.identity fresh.now p
            (normalize_name_key to_lower_case entry.display_name) entry t.phone_identities u c in
        rw same (again.0, simp (as_many, length-recount, again.1))

    import_entry-IsTold :
        (entry : UserConfirmedEntry) (t : Tables)
        → IsTold (imported entry t).0 entry (imported entry t).1
    unfolding import_entry
    import_entry-IsTold entry t =
        elim (Option-cases ((normalize_vietnam_phone entry.phone_raw).normalized)) [
          | inl missing ↦ rw (missing, import_entry) refl
          | inr (phone, e) ↦
              rw (e, import_entry)
                (
                  _,
                  confirm-IsRecorded phone (normalize_vietnam_phone entry.phone_raw).type entry t,
                  refl,
                )
        ]

    Told-confirm :
        (phone : Text) (type : PhoneType) (entry : UserConfirmedEntry) (t : Tables)
        (other : UserConfirmedEntry) (r : UserConfirmedResult) (n : Option Text)
        → Told t other r n
        → Told (confirmed phone type entry t).0 other r n
    Told-confirm phone type entry t other r none h = h
    Told-confirm phone type entry t other r (some q) (u, c, same) =
        (u, confirm-keeps phone type entry t other q u c, same)

    import_entry-keeps :
        (entry : UserConfirmedEntry) (t : Tables) (other : UserConfirmedEntry)
        (r : UserConfirmedResult)
        → IsTold t other r
        → IsTold (imported entry t).0 other r
    unfolding import_entry
    import_entry-keeps entry t other r h =
        elim (Option-cases ((normalize_vietnam_phone entry.phone_raw).normalized)) [
          | inl missing ↦ rw (missing, import_entry) h
          | inr (phone, e) ↦
              rw (e, import_entry)
                (Told-confirm phone (normalize_vietnam_phone entry.phone_raw).type entry t other r
                  ((normalize_vietnam_phone other.phone_raw).normalized) h)
        ]

    import_entry-again :
        (entry : UserConfirmedEntry) (t : Tables) (r : UserConfirmedResult)
        → IsTold t entry r
        → ((imported entry t).1 ≡ r) × (sizes (imported entry t).0 ≡ sizes t)
    unfolding import_entry
    import_entry-again entry t r h =
        elim (Option-cases ((normalize_vietnam_phone entry.phone_raw).normalized)) [
          | inl missing ↦ rw (missing, import_entry) (sym (rw missing at h), refl)
          | inr (phone, e) ↦
              let (u, c, same) = rw e at h in
              let again =
                confirm-again phone (normalize_vietnam_phone entry.phone_raw).type entry t u c in
              rw (e, import_entry) (ap (stored entry phone) again.0 ∙ sym same, again.1)
        ]

  -- The results of a list of entries, one for each.
  AreTold : Tables → List UserConfirmedEntry → List UserConfirmedResult → Type 0
  AreTold t [] [] = Unit
  AreTold t [] (r ∷ rs) = ⊥
  AreTold t (e ∷ es) [] = ⊥
  AreTold t (e ∷ es) (r ∷ rs) = IsTold t e r × AreTold t es rs

  module _ (source_id : Uuid) (fresh : ℕ → Fresh) where
    abbrev all_imported : ℕ → List UserConfirmedEntry → Tables → Tables × List UserConfirmedResult
    all_imported n entries t = import_entries sha256 to_lower_case source_id fresh n entries t

    AreTold-import_entry :
        (n : ℕ) (entry : UserConfirmedEntry) (t : Tables) (es : List UserConfirmedEntry)
        (rs : List UserConfirmedResult)
        → AreTold t es rs
        → AreTold (imported source_id (fresh n) entry t).0 es rs
    unfolding AreTold
    AreTold-import_entry n entry t [] [] h = tt
    AreTold-import_entry n entry t (e ∷ es) (r ∷ rs) (h, hs) = (
      import_entry-keeps source_id (fresh n) entry t e r h,
      AreTold-import_entry n entry t es rs hs,
    )
    AreTold-import_entry n entry t [] (r ∷ rs) h = absurd h
    AreTold-import_entry n entry t (e ∷ es) [] h = absurd h

    import_entries-keeps :
        (n : ℕ) (entries : List UserConfirmedEntry) (t : Tables) (e : UserConfirmedEntry)
        (r : UserConfirmedResult)
        → IsTold t e r
        → IsTold (all_imported n entries t).0 e r
    unfolding import_entries
    import_entries-keeps n [] t e r h = h
    import_entries-keeps n (entry ∷ entries) t e r h =
        import_entries-keeps (n + 1) entries _ e r
          (import_entry-keeps source_id (fresh n) entry t e r h)

    import_entries-AreTold :
        (n : ℕ) (entries : List UserConfirmedEntry) (t : Tables)
        → AreTold (all_imported n entries t).0 entries (all_imported n entries t).1
    unfolding import_entries AreTold
    import_entries-AreTold n [] t = tt
    import_entries-AreTold n (entry ∷ entries) t = (
      import_entries-keeps (n + 1) entries _ entry _
          (import_entry-IsTold source_id (fresh n) entry t),
      import_entries-AreTold (n + 1) entries (imported source_id (fresh n) entry t).0,
    )

    import_entries-again :
        (n : ℕ) (entries : List UserConfirmedEntry) (t : Tables) (rs : List UserConfirmedResult)
        → AreTold t entries rs
        → ((all_imported n entries t).1 ≡ rs) × (sizes (all_imported n entries t).0 ≡ sizes t)
    unfolding import_entries AreTold
    import_entries-again n [] t [] h = (refl, refl)
    import_entries-again n [] t (r ∷ rs) h = absurd h
    import_entries-again n (e ∷ entries) t [] h = absurd h
    import_entries-again n (e ∷ entries) t (r ∷ rs) (h, hs) =
        let first = import_entry-again source_id (fresh n) e t r h in
        let rest =
          import_entries-again (n + 1) entries (imported source_id (fresh n) e t).0 rs
            (AreTold-import_entry n e t entries rs hs) in
        (
          ap (λ x. x ∷ (all_imported (n + 1) entries (imported source_id (fresh n) e t).0).1)
                first.0
              ∙ ap (λ xs. r ∷ xs) rest.0,
          rest.1 ∙ first.1,
        )

  Told-sources :
      (t : Tables) (sources : List DataSource) (e : UserConfirmedEntry) (r : UserConfirmedResult)
      (n : Option Text)
      → Told t e r n
      → Told (record t { data_sources = sources }) e r n
  Told-sources t sources e r none h = h
  Told-sources t sources e r (some q) h = h

  AreTold-sources :
      (t : Tables) (sources : List DataSource) (es : List UserConfirmedEntry)
      (rs : List UserConfirmedResult)
      → AreTold t es rs
      → AreTold (record t { data_sources = sources }) es rs
  unfolding AreTold
  AreTold-sources t sources [] [] h = tt
  AreTold-sources t sources (e ∷ es) (r ∷ rs) (h, hs) = (
    Told-sources t sources e r ((normalize_vietnam_phone e.phone_raw).normalized) h,
    AreTold-sources t sources es rs hs,
  )
  AreTold-sources t sources [] (r ∷ rs) h = absurd h
  AreTold-sources t sources (e ∷ es) [] h = absurd h

-- An import of entries leaves the sources.
import_entry-sources :
    (sha256 to_lower_case : Text → Text) (source_id : Uuid) (fresh : Fresh)
    (entry : UserConfirmedEntry) (t : Tables)
    → (import_entry sha256 to_lower_case source_id fresh entry t).0.data_sources ≡ t.data_sources
unfolding import_entry confirm
import_entry-sources sha256 to_lower_case source_id fresh entry t =
    elim (Option-cases ((normalize_vietnam_phone entry.phone_raw).normalized)) [
      | inl missing ↦ rw (missing, import_entry) refl
      | inr (phone, e) ↦ rw (e, import_entry) refl
    ]

import_entries-sources :
    (sha256 to_lower_case : Text → Text) (source_id : Uuid) (fresh : ℕ → Fresh) (n : ℕ)
    (entries : List UserConfirmedEntry) (t : Tables)
    → (import_entries sha256 to_lower_case source_id fresh n entries t).0.data_sources
      ≡ t.data_sources
unfolding import_entries
import_entries-sources sha256 to_lower_case source_id fresh n [] t = refl
import_entries-sources sha256 to_lower_case source_id fresh n (entry ∷ entries) t =
    import_entries-sources sha256 to_lower_case source_id fresh (n + 1) entries _
    ∙ import_entry-sources sha256 to_lower_case source_id (fresh n) entry t

-- Entries that are imported again, with whatever ids and times the second import would give to new
-- rows, get the same results, the ids of their identities included; and the second import adds no
-- source, no number and no identity.
pub import_user_confirmed_identities-again :
    (sha256 to_lower_case : Text → Text) (new_source new_source' : Uuid) (fresh fresh' : ℕ → Fresh)
    (entries : List UserConfirmedEntry) (t : Tables)
    → let once = import_user_confirmed_identities sha256 to_lower_case new_source fresh entries t in
      let twice =
        import_user_confirmed_identities sha256 to_lower_case new_source' fresh' entries once.0 in
      (twice.1 ≡ once.1)
      × (twice.0.data_sources ≡ once.0.data_sources)
      × (sizes twice.0 ≡ sizes once.0)
unfolding import_user_confirmed_identities
import_user_confirmed_identities-again sha256 to_lower_case new_source new_source' fresh fresh'
      entries t =
    let source = ensure_user_submitted_source new_source t.data_sources in
    let once =
      import_entries sha256 to_lower_case source.1 fresh 0 entries
        (record t { data_sources = source.0 }) in
    let kept =
      import_entries-sources sha256 to_lower_case source.1 fresh 0 entries
        (record t { data_sources = source.0 }) in
    let found =
      ap (ensure_user_submitted_source new_source') kept
      ∙ ensure_again new_source new_source' t.data_sources in
    let again =
      import_entries-again sha256 to_lower_case source.1 fresh' 0 entries
        (record once.0 { data_sources = source.0 }) once.1
        (AreTold-sources sha256 to_lower_case once.0 source.0 entries once.1 (
          import_entries-AreTold sha256 to_lower_case source.1 fresh 0 entries
            (record t { data_sources = source.0 }))) in
    rw found (
      again.0,
      import_entries-sources sha256 to_lower_case source.1 fresh' 0 entries _ ∙ sym kept,
      again.1,
    )
