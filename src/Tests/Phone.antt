-- ===== src/Tests/Phone.antt =====
-- The cases of apps/api/src/__tests__/vietnamPhone.test.ts.
use vn_phone_dp.Phone.Canonical.{Repeats, normalize_vietnam_phone-canonical}
use vn_phone_dp.Phone.Separators.{IsKept, Erases, normalize_vietnam_phone-separators}
use vn_phone_dp.Phone.Spellings.{international_spellings}
use vn_phone_dp.Phone.Types.{IsConsistent, normalize_vietnam_phone-IsConsistent}
use vn_phone_dp.Prelude.{
  ℕ, ◌∷◌, ltb, ◌||◌, ◌&&◌, not, ◌==◌, is_digit, arith, ◌≤◌, length, ◌≡◌, refl, none, some, true,
  false, codes, Option, Text, Bool,
}
use Prim.Native.String.{String}
use vn_phone_dp.Phone.{
  normalizer, normalize_vietnam_phone, PhoneType, mobile, landline, hotline_1900, hotline_1800,
  short_code, unknown,
}

abbrev outcome : String → Option Text × PhoneType × Bool
outcome s = let r = normalize_vietnam_phone (codes s) in (r.normalized, r.type, r.valid)

mobile_variants :
    (outcome "0912 345 678" ≡ (some (codes "+84912345678"), mobile, true))
    × (outcome "(+84) 912345678" ≡ (some (codes "+84912345678"), mobile, true))
    × (outcome "84912345678" ≡ (some (codes "+84912345678"), mobile, true))
    × (outcome "   0912345678   " ≡ (some (codes "+84912345678"), mobile, true))
unfolding normalizer
mobile_variants = (refl, refl, refl, refl)

landlines :
    (outcome "024 3856 1234" ≡ (some (codes "+842438561234"), landline, true))
    × (outcome "0203 123 4567" ≡ (some (codes "+842031234567"), landline, true))
unfolding normalizer
landlines = (refl, refl)

hotlines :
    (outcome "1900 1234" ≡ (some (codes "19001234"), hotline_1900, true))
    × (outcome "1800 5678" ≡ (some (codes "18005678"), hotline_1800, true))
    × (outcome "1068" ≡ (some (codes "1068"), short_code, true))
unfolding normalizer
hotlines = (refl, refl, refl)

refusals :
    (outcome "" ≡ (none, unknown, false))
    × (outcome "12" ≡ (none, unknown, false))
    × (outcome "091234567890123" ≡ (none, unknown, false))
    × (outcome "0912-ABC-678" ≡ (none, unknown, false))
    × (outcome "0612345678" ≡ (some (codes "+84612345678"), unknown, false))
    × (outcome "84" ≡ (none, unknown, false))
unfolding normalizer
refusals = (refl, refl, refl, refl, refl, refl)

is_kept : {c : ℕ} {s d : Text} → is_digit c ≡ true → Erases s d → Erases (c ∷ s) (c ∷ d)
is_kept h erases = Erases.keeps (IsKept.digit (ground arith) (ground arith)) erases

is_skipped :
    {c : ℕ} {s d : Text}
    → ((ltb c b'0' || ltb b'9' c) && not (c == b'+')) ≡ true
    → Erases s d
    → Erases (c ∷ s) d
is_skipped h erases = Erases.skips (ground arith) (ground arith) erases

normalize_vietnam_phone-separators_example :
    normalize_vietnam_phone (codes "1900-12 (a) 34")
    ≡ record (normalize_vietnam_phone (codes "19001234")) { raw = codes "1900-12 (a) 34" }
normalize_vietnam_phone-separators_example =
    normalize_vietnam_phone-separators (codes "19001234") (codes "1900-12 (a) 34")
      (codes "19001234")
      (is_kept refl (
        is_kept refl (
          is_kept refl (
            is_kept refl
              (is_kept refl (is_kept refl (is_kept refl (is_kept refl Erases.nothing))))))))
      (is_kept refl (
        is_kept refl (
          is_kept refl (
            is_kept refl (
              is_skipped refl (
                is_kept refl (
                  is_kept refl (
                    is_skipped refl (
                      is_skipped refl (
                        is_skipped refl (
                          is_skipped refl (
                            is_skipped refl (is_kept refl (is_kept refl Erases.nothing))))))))))))))

normalize_vietnam_phone-canonical_example :
    Repeats (normalize_vietnam_phone (codes "0912345678")) (codes "+84912345678")
unfolding normalizer
normalize_vietnam_phone-canonical_example =
    normalize_vietnam_phone-canonical (codes "0912345678") (codes "+84912345678") refl

international_spellings_example :
    (normalize_vietnam_phone (codes "+84912345678")
      ≡ record (normalize_vietnam_phone (codes "0912345678")) { raw = codes "+84912345678" })
    × (9 ≤ length (codes "912345678")
        → normalize_vietnam_phone (codes "84912345678")
          ≡ record (normalize_vietnam_phone (codes "0912345678")) { raw = codes "84912345678" })
international_spellings_example = international_spellings (codes "912345678") refl

normalize_vietnam_phone-IsConsistent_example :
    IsConsistent (normalize_vietnam_phone (codes "024 3856 1234"))
normalize_vietnam_phone-IsConsistent_example =
    normalize_vietnam_phone-IsConsistent (codes "024 3856 1234")

-- "+0123" passes for the short code 0123, which is refused when it is read again.
plus_zero :
    (outcome "+0123" ≡ (some (codes "0123"), short_code, true))
    × (outcome "0123" ≡ (none, unknown, false))
unfolding normalizer
plus_zero = (refl, refl)
