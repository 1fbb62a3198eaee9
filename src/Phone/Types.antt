-- ===== src/Phone/Types.antt =====
-- Which numbers have which type, and what a result promises.
use vn_phone_dp.Prelude.{
  ℕ, ◌≤◌, ◌≡◌, ◌≢◌, ◌↔◌, refl, true, false, ◌||◌, [], ◌∷◌, ◌++◌, arith, Text, codes, is_digit,
  length, take, all, none, some, Option, starts_with, includes, is_some, text_eq, ◌==◌, Bool-cases,
  Option-cases, inl, inr, ◌⊎◌,
}
use vn_phone_dp.Phone.{
  NormalizedPhoneResult, PhoneType, mobile, landline, unknown, Reason, plus84, mobile_prefixes,
  classify_hotline, classify_mobile, classify_landline, classify_national, national_result,
  Classified, classified, landline_2digit_area, accepted, refused, normalize_cleaned,
  only_digits_keep_plus, normalize_vietnam_phone,
}
use vn_phone_dp.Phone.Separators.{normalize_vietnam_phone_lem}
use vn_phone_dp.Phone.Stages.{
  IsHotline, hotline_as, short_as, Stage, rejected, hotline, short, national,
  normalize_cleaned-Stage,
}

-- The nine digits after 0 of a mobile number: a carrier's two, and seven more.
pub record IsMobile (d : Text) : Type 0 where
  pub digits : all is_digit d ≡ true
  pub size : length d ≡ 9
  pub prefix : includes mobile_prefixes (b'0' ∷ take 2 d) ≡ true

-- The ten digits after 0 of a landline number.
pub record IsLandline (d : Text) : Type 0 where
  pub digits : all is_digit d ≡ true
  pub size : length d ≡ 10
  pub area : starts_with d (codes "2") ≡ true

abbrev pub HasType : (Text → Type 0) → PhoneType → NormalizedPhoneResult → Type 0
HasType P t r = (r.type ≡ t) ↔ ((d : Text) × P d × (r.normalized ≡ some (plus84 ++ d)))

not-plus84 : (d e : Text) → all is_digit d ≡ true → d ≢ plus84 ++ e
not-plus84 [] e h = cc
not-plus84 (c ∷ d) e h = ground arith

area-test : (d : Text) → text_eq (take 1 d) (codes "2") ≡ starts_with d (codes "2")
area-test [] = refl
area-test (c ∷ d) = ground arith

-- The three classifiers on a number of digits that starts with 0.
module _ (d : Text) (digits : all is_digit d ≡ true) where
  mobile-national : IsMobile d → classify_national (b'0' ∷ d) ≡ classified mobile 95
  unfolding classify_national classify_hotline classify_mobile
  mobile-national is = ground arith

  landline-national :
      IsLandline d → (c : ℕ) × (classify_national (b'0' ∷ d) ≡ classified landline c) × (c ≤ 85)
  unfolding classify_national classify_hotline classify_mobile classify_landline
  landline-national is = elim (Bool-cases (includes landline_2digit_area (take 2 d))) [
    | inl city ↦ (85, ground arith, omega arith)
    | inr other ↦ (75, ground arith, omega arith)
  ]

  national-cases :
      (c : Classified)
      → classify_national (b'0' ∷ d) ≡ some c
      → (c.valid ≡ true)
        × (c.confidence ≤ 95)
        × (((c.type ≡ mobile) × IsMobile d) ⊎ ((c.type ≡ landline) × IsLandline d))
  unfolding classify_national classify_hotline classify_mobile classify_landline
  national-cases c h = elim (Bool-cases (length d == 9)) [
    | inl nine ↦ (
      ground arith,
      ground arith,
      inl (ground arith, record { digits = digits; size = ground arith; prefix = ground arith }),
    )
    | inr other ↦ (
      ground arith,
      ground arith,
      inr (
        ground arith,
        record { digits = digits; size = ground arith; area = ground (arith, area-test d) },
      ),
    )
  ]

-- What holds of every result, whichever stage it comes from.
pub record IsConsistent (r : NormalizedPhoneResult) : Type 0 where
  pub valid_typed : (r.valid ≡ true) ↔ (r.type ≢ unknown)
  pub valid_known : r.valid ≡ true → (is_some r.normalized ≡ true) × (r.reason ≡ none)
  pub invalid_explained : r.valid ≡ false → is_some r.reason ≡ true
  pub confidence : r.normalization_confidence ≤ 95
  pub mobiles : HasType IsMobile mobile r
  pub landlines : HasType IsLandline landline r

refused-IsConsistent :
    (raw : Text) (c : ℕ) (why : Reason) → c ≤ 10 → IsConsistent (refused raw none c why)
refused-IsConsistent raw c why le = record {
  valid_typed = ground arith;
  valid_known = ground arith;
  invalid_explained = ground arith;
  confidence = omega arith;
  mobiles = ((λ t. absurd (ground arith)), λ x. absurd (ground (arith, x.2)));
  landlines = ((λ t. absurd (ground arith)), λ x. absurd (ground (arith, x.2)));
}

-- A number that is dialed without a prefix has neither national type.
bare-IsConsistent :
    (raw d : Text) (c : Classified)
    → all is_digit d ≡ true
    → c.valid ≡ true
    → c.type ≢ unknown
    → c.type ≢ mobile
    → c.type ≢ landline
    → c.confidence ≤ 95
    → IsConsistent (accepted raw d c)
bare-IsConsistent raw d c h v u m l le = record {
  valid_typed = ground arith;
  valid_known = ground arith;
  invalid_explained = ground arith;
  confidence = omega arith;
  mobiles = ((λ t. absurd (m t)), λ x. absurd (not-plus84 d x.0 h (ground (arith, x.2))));
  landlines = ((λ t. absurd (l t)), λ x. absurd (not-plus84 d x.0 h (ground (arith, x.2))));
}

tail_of_e164 : (d e : Text) → some (plus84 ++ d) ≡ some (plus84 ++ e) → d ≡ e
tail_of_e164 d e h = cc

module _ (raw d : Text) (digits : all is_digit d ≡ true) where
  unclassified-IsConsistent :
      (o : Option Text) (c : ℕ) (why : Reason)
      → c ≤ 95
      → classify_national (b'0' ∷ d) ≡ none
      → ((e : Text) → o ≡ some (plus84 ++ e) → d ≡ e)
      → IsConsistent (refused raw o c why)
  unclassified-IsConsistent o c why le missing same = record {
    valid_typed = ground arith;
    valid_known = ground arith;
    invalid_explained = ground arith;
    confidence = omega arith;
    mobiles = (
      (λ t. absurd (ground arith)),
      λ (e, is, n).
          let found = mobile-national d digits (rw (same e n) is) in absurd (ground arith),
    );
    landlines = (
      (λ t. absurd (ground arith)),
      λ (e, is, n).
          let found = (landline-national d digits (rw (same e n) is)).1 in absurd (ground arith),
    );
  }

  classified-IsConsistent :
      (c : Classified)
      → classify_national (b'0' ∷ d) ≡ some c
      → IsConsistent (accepted raw (plus84 ++ d) c)
  classified-IsConsistent c found =
      let (valid, le, kind) = national-cases d digits c found in
      record {
        valid_typed = ground arith;
        valid_known = ground arith;
        invalid_explained = ground arith;
        confidence = le;
        mobiles = (
          (λ t. (d, ground arith, refl)),
          λ (e, is, n).
              let other = mobile-national d digits (rw (tail_of_e164 d e n) is) in ground arith,
        );
        landlines = (
          (λ t. (d, ground arith, refl)),
          λ (e, is, n).
              let (k, other, _) = landline-national d digits (rw (tail_of_e164 d e n) is) in
              ground arith,
        );
      }

  national-IsConsistent : IsConsistent (national_result raw (b'0' ∷ d))
  unfolding national_result
  national-IsConsistent = elim (Option-cases (classify_national (b'0' ∷ d))) [
    | inl missing ↦
        rw (missing, national_result)
          (elim (Bool-cases (length (b'0' ∷ d) == 10 || length (b'0' ∷ d) == 11)) [
            | inl long ↦ rw long (
                unclassified-IsConsistent (some (plus84 ++ d)) 30 Reason.unrecognized_prefix
                  (omega arith) missing (λ e same. tail_of_e164 d e same))
            | inr other ↦ rw other (
                unclassified-IsConsistent none 10 Reason.invalid_length (omega arith) missing
                  (λ e same. absurd (ground arith)))
          ])
    | inr (c, found) ↦ rw (found, national_result) (classified-IsConsistent c found)
  ]

hotline-type :
    (t : PhoneType) (d : Text) → IsHotline t d → (t ≢ unknown) × (t ≢ mobile) × (t ≢ landline)
hotline-type t d is = ground (arith, is.prefix)

Stage-IsConsistent :
    (raw cleaned : Text) → Stage raw cleaned → IsConsistent (normalize_cleaned raw cleaned)
Stage-IsConsistent raw cleaned (rejected c why le r) = rw r (refused-IsConsistent raw c why le)
Stage-IsConsistent raw cleaned (hotline t d is r) =
    let (u, m, l) = hotline-type t d is in
    rw r (bare-IsConsistent raw d (hotline_as t) is.digits refl u m l (omega arith))
Stage-IsConsistent raw cleaned (short d digits lo hi r) = rw r (
    bare-IsConsistent raw d short_as digits refl (ground arith) (ground arith) (ground arith)
      (omega arith))
Stage-IsConsistent raw cleaned (national d digits r) = rw r (national-IsConsistent raw d digits)

-- Every result is consistent: `valid` is set exactly when the type is not UNKNOWN; a valid result
-- has a number and no reason, and an invalid one has a reason; the confidence is at most 0.95; the
-- type is MOBILE exactly when the number is "+84" with the nine digits of a mobile number, and
-- LANDLINE exactly when it is "+84" with the ten digits of a landline number.
pub normalize_vietnam_phone-IsConsistent : (raw : Text) → IsConsistent (normalize_vietnam_phone raw)
normalize_vietnam_phone-IsConsistent raw = rw (normalize_vietnam_phone_lem raw) (
    Stage-IsConsistent raw (only_digits_keep_plus raw)
      (normalize_cleaned-Stage raw (only_digits_keep_plus raw)))
