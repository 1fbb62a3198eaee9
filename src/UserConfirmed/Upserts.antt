-- ===== src/UserConfirmed/Upserts.antt =====
-- What the upserts of an import find, keep and add.
use vn_phone_dp.Prelude.{
  ℕ, ◌≡◌, refl, ap, Option, none, some, List, [], ◌∷◌, arith, Text, text_eq, text_eq_refl, length,
  length-map, if◌then◌else◌, Bool-cases, inl, inr,
}
use vn_phone_dp.Phone.{PhoneType}
use vn_phone_dp.Schema.{Uuid, Timestamp, DataSource, PhoneNumber, PhoneIdentity}
use vn_phone_dp.Aggregation.{phone_id_of}
use vn_phone_dp.UserConfirmed.{
  UserConfirmedEntry, user_claim, is_claim_of, source_name, ensure_user_submitted_source,
  upsert_number, upsert_claim, confirmed_identity, recount,
}

-- The number's upsert finds what it wrote, keeps what stood there, and adds no row for a number that
-- has one.
pub upsert_number-found :
    (id : Uuid) (now : Timestamp) (phone : Text) (type : PhoneType) (ns : List PhoneNumber)
    → phone_id_of (upsert_number id now phone type ns).0 phone
      ≡ some (upsert_number id now phone type ns).1
unfolding upsert_number phone_id_of
upsert_number-found id now phone type [] = rw (text_eq_refl phone) refl
upsert_number-found id now phone type (n ∷ ns) = elim (Bool-cases (text_eq n.phone_e164 phone)) [
  | inl same ↦ rw (same, same) refl
  | inr other ↦ rw (other, other) (upsert_number-found id now phone type ns)
]

pub upsert_number-keeps :
    (id : Uuid) (now : Timestamp) (phone : Text) (type : PhoneType) (ns : List PhoneNumber)
    (q : Text) (u : Uuid)
    → phone_id_of ns q ≡ some u
    → phone_id_of (upsert_number id now phone type ns).0 q ≡ some u
unfolding upsert_number phone_id_of
upsert_number-keeps id now phone type [] q u h = absurd (ground arith)
upsert_number-keeps id now phone type (n ∷ ns) q u h =
    ground (arith, upsert_number-keeps id now phone type ns q u)

pub upsert_number-again :
    (id : Uuid) (now : Timestamp) (phone : Text) (type : PhoneType) (ns : List PhoneNumber)
    (u : Uuid)
    → phone_id_of ns phone ≡ some u
    → ((upsert_number id now phone type ns).1 ≡ u)
      × (length (upsert_number id now phone type ns).0 ≡ length ns)
unfolding upsert_number phone_id_of
upsert_number-again id now phone type [] u h = absurd (ground arith)
upsert_number-again id now phone type (n ∷ ns) u h = (
  ground (arith, upsert_number-again id now phone type ns u),
  ground (arith, upsert_number-again id now phone type ns u),
)

-- The id of the identity that an upsert finds.
abbrev pub claim_id : Uuid → Text → List PhoneIdentity → Option Uuid
claim_id number name [] = none
claim_id number name (i ∷ is) =
    if is_claim_of number name i then some i.id else claim_id number name is

module _ (id : Uuid) (now : Timestamp) (number : Uuid) (name : Text)
    (entry : UserConfirmedEntry) where
  pub upsert_claim-found :
      (is : List PhoneIdentity)
      → claim_id number name (upsert_claim id now number name entry is).0
        ≡ some (upsert_claim id now number name entry is).1
  unfolding upsert_claim confirmed_identity
  upsert_claim-found [] =
      ground (arith, text_eq_refl number, text_eq_refl name, text_eq_refl user_claim)
  upsert_claim-found (i ∷ is) = elim (Bool-cases (is_claim_of number name i)) [
    | inl same ↦ rw (same, same) refl
    | inr other ↦ rw (other, other) (upsert_claim-found is)
  ]

  pub upsert_claim-keeps :
      (is : List PhoneIdentity) (p : Uuid) (other : Text) (u : Uuid)
      → claim_id p other is ≡ some u
      → claim_id p other (upsert_claim id now number name entry is).0 ≡ some u
  unfolding upsert_claim
  upsert_claim-keeps [] p other u h = absurd (ground arith)
  upsert_claim-keeps (i ∷ is) p other u h = ground (arith, upsert_claim-keeps is p other u)

  pub upsert_claim-again :
      (is : List PhoneIdentity) (u : Uuid)
      → claim_id number name is ≡ some u
      → ((upsert_claim id now number name entry is).1 ≡ u)
        × (length (upsert_claim id now number name entry is).0 ≡ length is)
  unfolding upsert_claim
  upsert_claim-again [] u h = absurd (ground arith)
  upsert_claim-again (i ∷ is) u h =
      (ground (arith, upsert_claim-again is u), ground (arith, upsert_claim-again is u))

pub claim_id-recount :
    (id : Uuid) (n : ℕ) (is : List PhoneIdentity) (p : Uuid) (name : Text)
    → claim_id p name (recount id n is) ≡ claim_id p name is
unfolding recount
claim_id-recount id n [] p name = refl
claim_id-recount id n (i ∷ is) p name = elim (Bool-cases (text_eq i.id id)) [
  | inl same ↦ rw same (ground (arith, claim_id-recount id n is p name))
  | inr other ↦ rw other (ground (arith, claim_id-recount id n is p name))
]

-- The source is found again.
pub ensure_again :
    (id id' : Uuid) (sources : List DataSource)
    → ensure_user_submitted_source id' (ensure_user_submitted_source id sources).0
      ≡ ensure_user_submitted_source id sources
unfolding ensure_user_submitted_source
ensure_again id id' [] = rw (text_eq_refl source_name) refl
ensure_again id id' (ds ∷ sources) = elim (Bool-cases (text_eq ds.name source_name)) [
  | inl same ↦ rw (same, same) refl
  | inr other ↦ rw (other, other) (ap (λ r. (ds ∷ r.0, r.1)) (ensure_again id id' sources))
]

pub length-recount :
    (id : Uuid) (n : ℕ) (is : List PhoneIdentity) → length (recount id n is) ≡ length is
unfolding recount
length-recount id n is = length-map _ is
