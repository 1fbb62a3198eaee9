-- ===== src/UserConfirmed/Counts.antt =====
-- The evidence count of a confirmed identity is the number of its evidence rows.
use vn_phone_dp.Prelude.{
  ℕ, ◌+◌, ◌≡◌, ◌⊎◌, inl, inr, refl, sym, ◌∙◌, true, false, List, [], ◌∷◌, ◌++◌, arith, Text,
  text_eq, text_eq_iff, text_eq_refl, any, All, if◌then◌else◌, Bool-cases, Option-cases, All-imp,
}
use vn_phone_dp.Phone.{PhoneType, normalize_vietnam_phone}
use vn_phone_dp.Schema.{Uuid, Timestamp, PhoneIdentity, PhoneIdentityEvidence}
use vn_phone_dp.Directory.{Tables}
use vn_phone_dp.UserConfirmed.{
  UserConfirmedEntry, Fresh, user_claim, is_claim_of, upsert_claim, confirmed_identity, is_pair,
  pair, add_evidence, evidence_rows, recount, confirm, import_entry, import_entries,
  import_user_confirmed_identities,
}

-- The count of a row that this import wrote.
abbrev pub IsCountedRow : List PhoneIdentityEvidence → PhoneIdentity → Type 0
IsCountedRow evidence i =
    text_eq i.claim_source user_claim ≡ true → i.evidence_count ≡ evidence_rows i.id evidence

abbrev pub IsCounted : Tables → Type 0
IsCounted t = All (IsCountedRow t.evidence) t.phone_identities

evidence_rows-snoc :
    (j : Uuid) (evidence : List PhoneIdentityEvidence) (e : PhoneIdentityEvidence)
    → evidence_rows j (evidence ++ e ∷ [])
      ≡ evidence_rows j evidence + (if text_eq e.phone_identity_id j then 1 else 0)
unfolding evidence_rows
evidence_rows-snoc j [] e = ground arith
evidence_rows-snoc j (f ∷ evidence) e = ground (arith, evidence_rows-snoc j evidence e)

-- Evidence of one identity leaves the number of rows of every other one.
evidence_rows-add_evidence :
    (j id o : Uuid) (evidence : List PhoneIdentityEvidence)
    → text_eq j id ≡ false
    → evidence_rows j (add_evidence id o evidence) ≡ evidence_rows j evidence
unfolding add_evidence
evidence_rows-add_evidence j id o evidence ne = elim (Bool-cases (any (is_pair id o) evidence)) [
  | inl old ↦ rw old refl
  | inr new' ↦ rw new' (
      ground (arith, evidence_rows-snoc j evidence (pair id o), text_eq_iff id j, text_eq_iff j id))
]

-- A row of the table after the upsert is the one that it wrote, or stood there before.
All-upsert_claim :
    (P : PhoneIdentity → Type 0) (id : Uuid) (now : Timestamp) (number : Uuid) (name : Text)
    (entry : UserConfirmedEntry) (is : List PhoneIdentity)
    → All P is
    → All
        (λ i. (text_eq i.id (upsert_claim id now number name entry is).1 ≡ true) ⊎ P i)
        (upsert_claim id now number name entry is).0
unfolding upsert_claim confirmed_identity
All-upsert_claim P id now number name entry [] h = (inl (text_eq_refl id), tt)
All-upsert_claim P id now number name entry (i ∷ is) (h, hs) =
    elim (Bool-cases (is_claim_of number name i)) [
      | inl same ↦ rw same (inl (text_eq_refl i.id), All-imp (λ j k. inr k) is hs)
      | inr other ↦ rw other (inr h, All-upsert_claim P id now number name entry is hs)
    ]

All-recount :
    (P Q : PhoneIdentity → Type 0) (id : Uuid) (n : ℕ) (is : List PhoneIdentity)
    → ((i : PhoneIdentity) → text_eq i.id id ≡ false → P i → Q i)
    → ((i : PhoneIdentity) → text_eq i.id id ≡ true → Q (record i { evidence_count = n }))
    → All (λ i. (text_eq i.id id ≡ true) ⊎ P i) is
    → All Q (recount id n is)
unfolding recount
All-recount P Q id n [] keep set h = tt
All-recount P Q id n (i ∷ is) keep set (h, hs) = elim (Bool-cases (text_eq i.id id)) [
  | inl same ↦ rw same (set i same, All-recount P Q id n is keep set hs)
  | inr other ↦ rw other (
    elim h [ inl same ↦ absurd (ground (arith, same, other)) | inr p ↦ keep i other p ],
    All-recount P Q id n is keep set hs,
  )
]

module _ (sha256 to_lower_case : Text → Text) (source_id : Uuid) where
  confirm-IsCounted :
      (fresh : Fresh) (phone : Text) (type : PhoneType) (entry : UserConfirmedEntry) (t : Tables)
      → IsCounted t
      → IsCounted (confirm sha256 to_lower_case source_id fresh phone type entry t).0
  unfolding confirm
  confirm-IsCounted fresh phone type entry t h =
      All-recount (IsCountedRow t.evidence) (IsCountedRow _) _ _ _
        (λ i other counted mine.
          counted mine ∙ sym (evidence_rows-add_evidence i.id _ fresh.observation t.evidence other))
        (λ i same mine. rw ((text_eq_iff i.id _).0 same) refl)
        (All-upsert_claim (IsCountedRow t.evidence) fresh.identity fresh.now _ _ entry
          t.phone_identities h)

  import_entry-IsCounted :
      (fresh : Fresh) (entry : UserConfirmedEntry) (t : Tables)
      → IsCounted t
      → IsCounted (import_entry sha256 to_lower_case source_id fresh entry t).0
  unfolding import_entry
  import_entry-IsCounted fresh entry t h =
      elim (Option-cases ((normalize_vietnam_phone entry.phone_raw).normalized)) [
        | inl none' ↦ rw (none', import_entry) h
        | inr (phone, e) ↦ rw (e, import_entry) (confirm-IsCounted fresh phone _ entry t h)
      ]

  import_entries-IsCounted :
      (fresh : ℕ → Fresh) (n : ℕ) (entries : List UserConfirmedEntry) (t : Tables)
      → IsCounted t
      → IsCounted (import_entries sha256 to_lower_case source_id fresh n entries t).0
  unfolding import_entries
  import_entries-IsCounted fresh n [] t h = h
  import_entries-IsCounted fresh n (entry ∷ entries) t h =
      import_entries-IsCounted fresh (n + 1) entries _ (import_entry-IsCounted (fresh n) entry t h)

-- Where every identity that a user confirmed has as many evidence rows as its count says, so it has
-- after an import, whatever the entries and the ids of the new rows.
pub import_user_confirmed_identities-IsCounted :
    (sha256 to_lower_case : Text → Text) (new_source : Uuid) (fresh : ℕ → Fresh)
    (entries : List UserConfirmedEntry) (t : Tables)
    → IsCounted t
    → IsCounted (import_user_confirmed_identities sha256 to_lower_case new_source fresh entries t).0
unfolding import_user_confirmed_identities
import_user_confirmed_identities-IsCounted sha256 to_lower_case new_source fresh entries t h =
    import_entries-IsCounted sha256 to_lower_case _ fresh 0 entries _ h
