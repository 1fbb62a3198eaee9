-- ===== src/Phone/Canonical.antt =====
-- Normalising a normalised number again.
use vn_phone_dp.Prelude.{
  ◌≤◌, ◌≡◌, refl, ◌∙◌, true, false, [], ◌∷◌, ◌++◌, arith, Text, codes, is_digit, length, all, none,
  some, starts_with,
}
use vn_phone_dp.Phone.{
  plus84, digits_only, classify_hotline, classify_mobile, classify_landline, dialed_hotline,
  is_uncoded, PhoneType, uncoded, classify_short_code, accepted, classify_national, national_result,
  normalize_cleaned, only_digits_keep_plus, normalize_vietnam_phone, NormalizedPhoneResult,
}
use vn_phone_dp.Phone.Separators.{national_result_raw, normalize_vietnam_phone_lem}
use vn_phone_dp.Phone.Stages.{
  IsHotline, hotline_as, short_as, IsHotline-dialed, Stage, rejected, hotline, short, national,
  normalize_cleaned-Stage,
}
use vn_phone_dp.Phone.Spellings.{cleaned_zero, normalize-dialed, normalize-plus84, all-dialed}

hotline-canonical :
    (t : PhoneType) (d : Text)
    → IsHotline t d
    → normalize_vietnam_phone d ≡ accepted d d (hotline_as t)
unfolding normalize_cleaned digits_only
hotline-canonical t [] h = absurd (omega arith)
hotline-canonical t (c ∷ d) h =
    normalize-dialed (c ∷ d) (all-dialed (c ∷ d) h.digits)
    ∙ ground (arith, IsHotline-dialed t (c ∷ d) h)

digits_only-digits : (d : Text) → all is_digit d ≡ true → digits_only d ≡ d
unfolding digits_only
digits_only-digits [] h = refl
digits_only-digits (c ∷ d) h = ground arith

not_hotline : (d : Text) → length d ≤ 6 → dialed_hotline d ≡ none
unfolding dialed_hotline classify_hotline
not_hotline d h = ground arith

uncoded-short :
    (raw d : Text)
    → all is_digit d ≡ true
    → 3 ≤ length d
    → length d ≤ 6
    → uncoded raw d ≡ accepted raw d short_as
unfolding uncoded classify_short_code
uncoded-short raw d h lo hi = ground arith

is_uncoded-short :
    (d : Text)
    → all is_digit d ≡ true
    → length d ≤ 6
    → starts_with d (codes "0") ≡ false
    → is_uncoded d ≡ true
unfolding is_uncoded
is_uncoded-short [] h hi z = refl
is_uncoded-short (c ∷ d) h hi z = ground arith

short-canonical :
    (d : Text)
    → all is_digit d ≡ true
    → 3 ≤ length d
    → length d ≤ 6
    → starts_with d (codes "0") ≡ false
    → normalize_vietnam_phone d ≡ accepted d d short_as
unfolding normalize_cleaned
short-canonical [] h lo hi z = absurd (omega arith)
short-canonical (c ∷ d) h lo hi z =
    normalize-dialed (c ∷ d) (all-dialed (c ∷ d) h)
    ∙ ground (
      arith,
      digits_only-digits (c ∷ d) h,
      not_hotline (c ∷ d) hi,
      is_uncoded-short (c ∷ d) h hi z,
      uncoded-short (c ∷ d) (c ∷ d) h lo hi,
    )

-- A short code that starts with 0 is taken for a national number and refused for its length.
short-zero :
    (d : Text)
    → all is_digit (b'0' ∷ d) ≡ true
    → length (b'0' ∷ d) ≤ 6
    → (normalize_vietnam_phone (b'0' ∷ d)).normalized ≡ none
unfolding national_result classify_national classify_hotline classify_mobile classify_landline
short-zero d h hi =
    rw (normalize-dialed (b'0' ∷ d) (all-dialed (b'0' ∷ d) h))
      (rw (cleaned_zero (b'0' ∷ d) d h) (ground arith))

national-e164 :
    (raw d n : Text) → (national_result raw (b'0' ∷ d)).normalized ≡ some n → n ≡ plus84 ++ d
unfolding national_result
national-e164 raw d n h = ground arith

-- What a second call makes of the number `n` of a result `r`.
abbrev pub Repeats : NormalizedPhoneResult → Text → Type 0
Repeats r n =
    (starts_with n (codes "0") ≡ false → normalize_vietnam_phone n ≡ record r { raw = n })
    × (starts_with n (codes "0") ≡ true → (normalize_vietnam_phone n).normalized ≡ none)

hotline-Repeats :
    (raw d : Text) (t : PhoneType) → IsHotline t d → Repeats (accepted raw d (hotline_as t)) d
hotline-Repeats raw [] t is = absurd (omega arith)
hotline-Repeats raw (c ∷ d) t is = (λ z. hotline-canonical t (c ∷ d) is, λ z. absurd (ground arith))

short-Repeats :
    (raw d : Text)
    → all is_digit d ≡ true
    → 3 ≤ length d
    → length d ≤ 6
    → Repeats (accepted raw d short_as) d
short-Repeats raw [] h lo hi = absurd (omega arith)
short-Repeats raw (c ∷ d) h lo hi = (
  λ z. short-canonical (c ∷ d) h lo hi z,
  λ z. let same : c ≡ b'0' = ground arith in rw same (short-zero d (rw same at h) hi),
)

national-Repeats :
    (raw d n : Text)
    → all is_digit d ≡ true
    → (national_result raw (b'0' ∷ d)).normalized ≡ some n
    → Repeats (national_result raw (b'0' ∷ d)) n
national-Repeats raw d n digits h =
    let same : n ≡ plus84 ++ d = national-e164 raw d n h in
    rw same
      (λ z. normalize-plus84 d digits ∙ national_result_raw raw (plus84 ++ d) (b'0' ∷ d), λ z. cc)

Stage-Repeats :
    (raw cleaned n : Text)
    → Stage raw cleaned
    → (normalize_cleaned raw cleaned).normalized ≡ some n
    → Repeats (normalize_cleaned raw cleaned) n
Stage-Repeats raw cleaned n (rejected c why le r) h = absurd (ground arith)
Stage-Repeats raw cleaned n (hotline t d is r) h =
    let same : d ≡ n = ground arith in rw (← same) (rw r (hotline-Repeats raw d t is))
Stage-Repeats raw cleaned n (short d digits lo hi r) h =
    let same : d ≡ n = ground arith in rw (← same) (rw r (short-Repeats raw d digits lo hi))
Stage-Repeats raw cleaned n (national d digits r) h =
    rw r (national-Repeats raw d n digits (rw r at h))

-- Normalising a normalised number gives the same result again, but for the copy of the input,
-- unless the number starts with 0; then the second call refuses it.
pub normalize_vietnam_phone-canonical :
    (raw n : Text)
    → (normalize_vietnam_phone raw).normalized ≡ some n
    → Repeats (normalize_vietnam_phone raw) n
normalize_vietnam_phone-canonical raw n h = rw (normalize_vietnam_phone_lem raw) (
    Stage-Repeats raw (only_digits_keep_plus raw) n
      (normalize_cleaned-Stage raw (only_digits_keep_plus raw))
      (rw (normalize_vietnam_phone_lem raw) at h))
