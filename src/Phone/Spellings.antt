-- ===== src/Phone/Spellings.antt =====
-- The national spelling of a number and its two international ones.
use vn_phone_dp.Prelude.{
  ◌≤◌, ◌≡◌, refl, sym, ap, ◌∙◌, true, [], ◌∷◌, ◌++◌, arith, Text, codes, is_digit, length, all,
}
use vn_phone_dp.Phone.{
  plus84, is_dialed, digits_only, dialed_hotline, is_uncoded, to_national_form, national_result,
  coded, normalize_cleaned, normalize_vietnam_phone,
}
use vn_phone_dp.Phone.Separators.{
  normalize_vietnam_phone_lem, only_digits_keep_plus_self, normalize_cleaned_raw,
}

pub all-dialed : (d : Text) → all is_digit d ≡ true → all is_dialed d ≡ true
all-dialed [] h = refl
all-dialed (c ∷ d) h = ground (arith, all-dialed d)

module _ (raw d : Text) (digits : all is_digit d ≡ true) where
  pub cleaned_plus84 : normalize_cleaned raw (plus84 ++ d) ≡ national_result raw (b'0' ∷ d)
  unfolding normalize_cleaned digits_only dialed_hotline is_uncoded coded to_national_form
  cleaned_plus84 = ground arith

  pub cleaned_zero : normalize_cleaned raw (codes "0" ++ d) ≡ national_result raw (b'0' ∷ d)
  unfolding normalize_cleaned digits_only dialed_hotline is_uncoded coded to_national_form
  cleaned_zero = ground arith

  pub cleaned_84 :
      9 ≤ length d → normalize_cleaned raw (codes "84" ++ d) ≡ national_result raw (b'0' ∷ d)
  unfolding normalize_cleaned digits_only dialed_hotline is_uncoded coded to_national_form
  cleaned_84 h = ground arith

-- A text of digits and plus signs reaches the stages unchanged.
pub normalize-dialed :
    (s : Text) → all is_dialed s ≡ true → normalize_vietnam_phone s ≡ normalize_cleaned s s
normalize-dialed s h =
    normalize_vietnam_phone_lem s ∙ ap (normalize_cleaned s) (only_digits_keep_plus_self s h)

module _ (d : Text) (digits : all is_digit d ≡ true) where
  pub normalize-zero :
      (raw : Text)
      → record (normalize_vietnam_phone (codes "0" ++ d)) { raw = raw }
        ≡ national_result raw (b'0' ∷ d)
  normalize-zero raw = rw (normalize-dialed (codes "0" ++ d) (all-dialed d digits)) (
      sym (normalize_cleaned_raw (codes "0" ++ d) raw (codes "0" ++ d)) ∙ cleaned_zero raw d digits)

  pub normalize-plus84 :
      normalize_vietnam_phone (plus84 ++ d) ≡ national_result (plus84 ++ d) (b'0' ∷ d)
  normalize-plus84 =
      normalize-dialed (plus84 ++ d) (all-dialed d digits) ∙ cleaned_plus84 (plus84 ++ d) d digits

  pub normalize-84 :
      9 ≤ length d
      → normalize_vietnam_phone (codes "84" ++ d) ≡ national_result (codes "84" ++ d) (b'0' ∷ d)
  normalize-84 h =
      normalize-dialed (codes "84" ++ d) (all-dialed d digits)
      ∙ cleaned_84 (codes "84" ++ d) d digits h

-- The spelling of a number with "+84" has the result of its spelling with a leading 0, whatever its
-- digits and their number; and so has the one with "84" and no plus sign, if at least nine digits
-- follow. Only the copy of the input differs.
pub international_spellings :
    (d : Text)
    → all is_digit d ≡ true
    → (normalize_vietnam_phone (plus84 ++ d)
        ≡ record (normalize_vietnam_phone (codes "0" ++ d)) { raw = plus84 ++ d })
      × (9 ≤ length d
          → normalize_vietnam_phone (codes "84" ++ d)
            ≡ record (normalize_vietnam_phone (codes "0" ++ d)) { raw = codes "84" ++ d })
international_spellings d h = (
  normalize-plus84 d h ∙ sym (normalize-zero d h (plus84 ++ d)),
  λ long. normalize-84 d h long ∙ sym (normalize-zero d h (codes "84" ++ d)),
)
