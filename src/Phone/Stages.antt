-- ===== src/Phone/Stages.antt =====
-- The stages of `normalizeVietnamPhone` as a view: which of them produced the result.
use vn_phone_dp.Prelude.{
  ℕ, ◌≤◌, ◌≡◌, refl, ◌⊎◌, inl, inr, true, ◌&&◌, none, some, [], ◌∷◌, arith, Text, codes, is_digit,
  starts_with, length, drop, all, Bool-cases, Option-cases, leb,
}
use vn_phone_dp.Phone.{
  PhoneType, hotline_1800, hotline_1900, short_code, Reason, Classified, plus84, is_digits,
  digits_only, dialed_hotline, classify_hotline, classify_short_code, is_uncoded, uncoded,
  to_national_form, national_result, coded, accepted, refused, normalize_cleaned,
}

-- What makes `classify_hotline` answer.
pub record IsHotline (t : PhoneType) (d : Text) : Type 0 where
  pub digits : all is_digit d ≡ true
  pub short : 8 ≤ length d
  pub long : length d ≤ 11
  pub prefix :
      ((t ≡ hotline_1900) × (starts_with d (codes "1900") ≡ true))
      ⊎ ((t ≡ hotline_1800) × (starts_with d (codes "1800") ≡ true))

abbrev pub hotline_as : PhoneType → Classified
hotline_as t = record { type = t; valid = true; confidence = 90 }

abbrev pub short_as : Classified
short_as = record { type = short_code; valid = true; confidence = 50 }

pub data Stage (raw cleaned : Text) : Type 0 where
  rejected :
      (c : ℕ) (why : Reason)
      → c ≤ 10
      → normalize_cleaned raw cleaned ≡ refused raw none c why
      → Stage raw cleaned
  hotline :
      (t : PhoneType) (d : Text)
      → IsHotline t d
      → normalize_cleaned raw cleaned ≡ accepted raw d (hotline_as t)
      → Stage raw cleaned
  short :
      (d : Text)
      → all is_digit d ≡ true
      → 3 ≤ length d
      → length d ≤ 6
      → normalize_cleaned raw cleaned ≡ accepted raw d short_as
      → Stage raw cleaned
  national :
      (d : Text)
      → all is_digit d ≡ true
      → normalize_cleaned raw cleaned ≡ national_result raw (b'0' ∷ d)
      → Stage raw cleaned

is_digits→all : (d : Text) → is_digits d ≡ true → all is_digit d ≡ true
is_digits→all [] h = cc
is_digits→all (c ∷ d) h = h

pub dialed_hotline-IsHotline :
    (d : Text) (c : Classified)
    → dialed_hotline d ≡ some c
    → (t : PhoneType) × (c ≡ hotline_as t) × IsHotline t d
unfolding dialed_hotline classify_hotline
dialed_hotline-IsHotline d c h = elim (Bool-cases (starts_with d (codes "1900"))) [
  | inl a ↦ (
    hotline_1900,
    ground arith,
    record {
      digits = ground (arith, is_digits→all d);
      short = ground arith;
      long = ground arith;
      prefix = inl (refl, a);
    },
  )
  | inr a ↦ (
    hotline_1800,
    ground arith,
    record {
      digits = ground (arith, is_digits→all d);
      short = ground arith;
      long = ground arith;
      prefix = inr (refl, ground arith);
    },
  )
]

pub IsHotline-dialed :
    (t : PhoneType) (d : Text) → IsHotline t d → dialed_hotline d ≡ some (hotline_as t)
unfolding dialed_hotline classify_hotline
IsHotline-dialed t [] h = absurd (omega arith)
IsHotline-dialed t (c ∷ d) h = ground arith

uncoded-Stage :
    (raw cleaned d : Text) → normalize_cleaned raw cleaned ≡ uncoded raw d → Stage raw cleaned
unfolding uncoded classify_short_code
uncoded-Stage raw cleaned d h = elim (Option-cases (classify_short_code d)) [
  | inl missing ↦ rejected 10 Reason.no_recognizable_national_prefix (omega arith) (ground arith)
  | inr (c, found) ↦ short d (ground arith) (ground arith) (ground arith) (ground arith)
]

starts_with-zero : (s : Text) → starts_with s (codes "0") ≡ true → (d : Text) × (s ≡ b'0' ∷ d)
starts_with-zero [] h = cc
starts_with-zero (c ∷ s) h = (s, ground arith)

-- A national form starts with 0.
pub to_national_form-zero : (s n : Text) → to_national_form s ≡ some n → (d : Text) × (n ≡ b'0' ∷ d)
unfolding to_national_form
to_national_form-zero s n h = elim (Bool-cases (starts_with s plus84)) [
  | inl a ↦ (drop 3 s, ground arith)
  | inr a ↦ elim (Bool-cases (starts_with s (codes "84") && leb 11 (length s))) [
    | inl b ↦ (drop 2 s, ground arith)
    | inr b ↦ elim (Bool-cases (starts_with s (codes "0"))) [
      | inl z ↦ let (d, same) = starts_with-zero s z in (d, ground arith)
      | inr z ↦ absurd (ground arith)
    ]
  ]
]

coded-Stage :
    (raw cleaned : Text) → normalize_cleaned raw cleaned ≡ coded raw cleaned → Stage raw cleaned
unfolding coded
coded-Stage raw cleaned h = elim (Option-cases (to_national_form cleaned)) [
  | inl missing ↦ rejected 10 Reason.malformed (omega arith) (ground arith)
  | inr (n, found) ↦ elim (Bool-cases (is_digits n)) [
    | inl digits ↦
        let (d, same) = to_national_form-zero cleaned n found in
        national d (ground arith) (ground (arith))
    | inr other ↦ rejected 10 Reason.malformed (omega arith) (ground arith)
  ]
]

-- Every call ends in one of the four stages.
pub normalize_cleaned-Stage : (raw cleaned : Text) → Stage raw cleaned
unfolding normalize_cleaned
normalize_cleaned-Stage raw [] = rejected 0 Reason.empty_input (omega arith) refl
normalize_cleaned-Stage raw (c ∷ s) = elim (Option-cases (dialed_hotline (digits_only (c ∷ s)))) [
  | inl missing ↦ elim (Bool-cases (is_uncoded (c ∷ s))) [
    | inl a ↦ uncoded-Stage raw (c ∷ s) (digits_only (c ∷ s)) (ground arith)
    | inr a ↦ coded-Stage raw (c ∷ s) (ground arith)
  ]
  | inr (h, found) ↦
      let (t, same, is) = dialed_hotline-IsHotline (digits_only (c ∷ s)) h found in
      hotline t (digits_only (c ∷ s)) is (ground arith)
]
