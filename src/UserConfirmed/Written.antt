-- ===== src/UserConfirmed/Written.antt =====
-- The rows that an import leaves in each table.
use mathlib.Core.List.{Memᴰ}
use mathlib.Core.List.Memᴰ
use vn_phone_dp.Prelude.{
  ℕ, ◌≡◌, refl, true, false, List, [], ◌∷◌, arith, Text, text_eq, text_eq_iff, any, if◌then◌else◌,
  Bool-cases, inl, inr,
}
use vn_phone_dp.Prelude.Members.{mem-of_any}
use vn_phone_dp.Phone.{PhoneType}
use vn_phone_dp.Schema.{
  Uuid, Timestamp, DataSource, PhoneNumber, PhoneIdentity, PhoneIdentityEvidence,
}
use vn_phone_dp.Directory.{is_rejected, is_callable, is_trusted_source, entry}
use vn_phone_dp.UserConfirmed.{
  UserConfirmedEntry, source_name, user_claim, is_claim_of, ensure_user_submitted_source,
  upsert_number, upsert_claim, confirmed_identity, add_evidence, is_pair, pair, recount,
}

-- Each upsert leaves a row with the id that it returns.
pub ensure-mem :
    (id : Uuid) (sources : List DataSource)
    → ((ds : DataSource) → Memᴰ ds sources → ds.name ≡ source_name → is_trusted_source ds ≡ true)
    → (ds : DataSource) × Memᴰ ds (ensure_user_submitted_source id sources).0
      × (ds.id ≡ (ensure_user_submitted_source id sources).1)
      × (is_trusted_source ds ≡ true)
unfolding ensure_user_submitted_source is_trusted_source
ensure-mem id [] h = (_, Memᴰ.head refl, refl, refl)
ensure-mem id (ds ∷ sources) h = elim (Bool-cases (text_eq ds.name source_name)) [
  | inl same ↦
      rw same
        (ds, Memᴰ.head refl, refl, h ds (Memᴰ.head refl) ((text_eq_iff ds.name source_name).0 same))
  | inr other ↦
      let (found, m, e, trusted) = ensure-mem id sources (λ d n. h d (Memᴰ.tail n)) in
      rw other (found, Memᴰ.tail m, e, trusted)
]

-- The number's row, which has a type for calls if every row of the number had one.
pub upsert_number-mem :
    (id : Uuid) (now : Timestamp) (phone : Text) (type : PhoneType) (ns : List PhoneNumber)
    → (n : PhoneNumber) × Memᴰ n (upsert_number id now phone type ns).0
      × (n.phone_e164 ≡ phone)
      × (n.id ≡ (upsert_number id now phone type ns).1)
      × (is_callable type ≡ true
          → ((k : PhoneNumber) → Memᴰ k ns → k.phone_e164 ≡ phone → is_callable k.phone_type ≡ true)
          → is_callable n.phone_type ≡ true)
unfolding upsert_number
upsert_number-mem id now phone type [] = (_, Memᴰ.head refl, refl, refl, λ c h. c)
upsert_number-mem id now phone type (n ∷ ns) = elim (Bool-cases (text_eq n.phone_e164 phone)) [
  | inl same ↦
      let e = (text_eq_iff n.phone_e164 phone).0 same in
      rw same (_, Memᴰ.head refl, e, refl, λ c h. h n (Memᴰ.head refl) e)
  | inr other ↦
      let (found, m, e, same, called) = upsert_number-mem id now phone type ns in
      rw other (found, Memᴰ.tail m, e, same, λ c h. called c (λ k p. h k (Memᴰ.tail p)))
]

-- The claim's row has the entry's category, and it is not rejected if no claim of a user was.
pub upsert_claim-mem :
    (id : Uuid) (now : Timestamp) (number : Uuid) (name : Text) (entry : UserConfirmedEntry)
    (is : List PhoneIdentity)
    → (i : PhoneIdentity) × Memᴰ i (upsert_claim id now number name entry is).0
      × (i.phone_number_id ≡ number)
      × (i.id ≡ (upsert_claim id now number name entry is).1)
      × (i.category ≡ entry.category)
      × (((j : PhoneIdentity)
            → Memᴰ j is
            → j.claim_source ≡ user_claim
            → is_rejected j.status ≡ false)
          → is_rejected i.status ≡ false)
unfolding upsert_claim confirmed_identity
upsert_claim-mem id now number name entry [] = (_, Memᴰ.head refl, refl, refl, refl, λ h. refl)
upsert_claim-mem id now number name entry (i ∷ is) = elim (Bool-cases (is_claim_of number name i)) [
  | inl same ↦ rw same (
    _,
    Memᴰ.head refl,
    ground (arith, same, text_eq_iff i.phone_number_id number),
    refl,
    refl,
    λ h. h i (Memᴰ.head refl) (ground (arith, same, text_eq_iff i.claim_source user_claim)),
  )
  | inr other ↦
      let (found, m, e, same, category, live) = upsert_claim-mem id now number name entry is in
      rw other (found, Memᴰ.tail m, e, same, category, λ h. live (λ k p. h k (Memᴰ.tail p)))
]

pub recount-mem :
    (id : Uuid) (n : ℕ) (i : PhoneIdentity) (is : List PhoneIdentity)
    → Memᴰ i is
    → i.id ≡ id
    → Memᴰ (record i { evidence_count = n }) (recount id n is)
unfolding recount
recount-mem id n i is m e =
    let same : text_eq i.id id ≡ true = (text_eq_iff i.id id).1 e in
    rw same at (
      Memᴰ.map
        (λ (j : PhoneIdentity). if text_eq j.id id then record j { evidence_count = n } else j) m)

pub add_evidence-mem :
    (id o : Uuid) (evidence : List PhoneIdentityEvidence)
    → (e : PhoneIdentityEvidence) × Memᴰ e (add_evidence id o evidence)
      × (e.phone_identity_id ≡ id)
      × (e.phone_observation_id ≡ o)
unfolding add_evidence
add_evidence-mem id o evidence = elim (Bool-cases (any (is_pair id o) evidence)) [
  | inl old ↦
      let (e, m, h) = mem-of_any (is_pair id o) evidence old in
      rw old (
        e,
        m,
        ground (arith, h, text_eq_iff e.phone_identity_id id),
        ground (arith, h, text_eq_iff e.phone_observation_id o),
      )
  | inr new' ↦ rw new' (pair id o, Memᴰ.append_right evidence (Memᴰ.head refl), refl, refl)
]
