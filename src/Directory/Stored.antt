-- ===== src/Directory/Stored.antt =====
-- The numbers that stand in the tables: those that the normaliser gave out.
use vn_phone_dp.Prelude.{
  ◌≡◌, ◌≢◌, ◌⊎◌, inl, inr, ap, ◌∙◌, true, none, some, ◌++◌, arith, Text, codes, starts_with,
  is_digit, all, Bool-cases,
}
use vn_phone_dp.Phone.{PhoneType, plus84, normalize_vietnam_phone, NormalizedPhoneResult}
use vn_phone_dp.Phone.Canonical.{normalize_vietnam_phone-canonical}
use vn_phone_dp.Phone.Types.{IsConsistent, normalize_vietnam_phone-IsConsistent}
use vn_phone_dp.Directory.{is_callable}

-- A number that the normaliser gave out.
abbrev pub IsStored : Text → Type 0
IsStored p = (raw : Text) × ((normalize_vietnam_phone raw).normalized ≡ some p)

-- "+84" and digits.
abbrev pub IsE164 : Text → Type 0
IsE164 p = (d : Text) × (p ≡ plus84 ++ d) × (all is_digit d ≡ true)

callable-cases :
    (t : PhoneType) → is_callable t ≡ true → (t ≡ PhoneType.mobile) ⊎ (t ≡ PhoneType.landline)
callable-cases t h = ground arith

callable-E164 :
    (p : Text) (r : NormalizedPhoneResult)
    → IsConsistent r
    → r.normalized ≡ some p
    → is_callable r.type ≡ true
    → IsE164 p
callable-E164 p r ok found h = elim (callable-cases r.type h) [
  | inl t ↦ let (d, is, n) = ok.mobiles.0 t in (d, ground arith, is.digits)
  | inr t ↦ let (d, is, n) = ok.landlines.0 t in (d, ground arith, is.digits)
]

refused-not_callable :
    (r : NormalizedPhoneResult)
    → IsConsistent r
    → r.normalized ≡ none
    → is_callable r.type ≡ true
    → ⊥
refused-not_callable r ok missing h =
    let typed : r.type ≢ PhoneType.unknown = ground arith in
    let (known, _) = ok.valid_known (ok.valid_typed.1 typed) in ground arith

-- A stored number of a type that can call is in E.164.
pub IsStored-E164 :
    (p : Text) → IsStored p → is_callable (normalize_vietnam_phone p).type ≡ true → IsE164 p
IsStored-E164 p (raw, found) h =
    let r = normalize_vietnam_phone p in
    let ok = normalize_vietnam_phone-IsConsistent p in
    let (again, zero) = normalize_vietnam_phone-canonical raw p found in
    elim (Bool-cases (starts_with p (codes "0"))) [
      | inl starts ↦ absurd (refused-not_callable r ok (zero starts) h)
      | inr other ↦
          callable-E164 p r ok
            (ap (λ (x : NormalizedPhoneResult). x.normalized) (again other) ∙ found) h
    ]
