-- ===== src/Lookup/Number.antt =====
-- The number that the lookup answers for, and its spellings.
use vn_phone_dp.Prelude.{
  ◌≡◌, refl, sym, ap, false, Option, none, some, List, [], arith, Text, Bool-cases, Option-cases,
  inl, inr,
}
use vn_phone_dp.Prelude.Sorting.{}
use vn_phone_dp.Phone.{NormalizedPhoneResult, only_digits_keep_plus, normalize_vietnam_phone}
use vn_phone_dp.Phone.Separators.{normalize_vietnam_phone-cleaned}
use vn_phone_dp.Phone.Types.{normalize_vietnam_phone-IsConsistent}
use vn_phone_dp.Schema.{PhoneIdentity, SpamReport}
use vn_phone_dp.Spam.Summary.{Group}
use vn_phone_dp.Directory.{Tables}
use vn_phone_dp.Lookup.Answer.{phone_row-mem}
use vn_phone_dp.Lookup.{
  phone_row, no_spam_reports, no_statistics, row_answer, normalized_answer, lookup_phone,
}

normalized_answer_raw :
    (arrange : List PhoneIdentity → List PhoneIdentity) (arrange_groups : List Group → List Group)
    (t : Tables) (reports : List SpamReport) (raw other : Text) (r : NormalizedPhoneResult)
    (n : Option Text)
    → normalized_answer arrange arrange_groups t reports other (record r { raw = other }) n
      ≡ record (normalized_answer arrange arrange_groups t reports raw r n) {
        phone = record (normalized_answer arrange arrange_groups t reports raw r n).phone {
          raw_input = other;
        };
      }
unfolding normalized_answer row_answer
normalized_answer_raw arrange arrange_groups t reports raw other r none = refl
normalized_answer_raw arrange arrange_groups t reports raw other r (some phone) =
    elim (Option-cases (phone_row t.phone_numbers phone)) [
      | inl e ↦ rw e refl
      | inr (row, e) ↦ rw e refl
    ]

-- Two spellings with the same digits and plus signs, in the same order, have the same answer, but
-- for the copy of the input.
pub lookup_phone-separators :
    (arrange : List PhoneIdentity → List PhoneIdentity) (arrange_groups : List Group → List Group)
    (t : Tables) (reports : List SpamReport) (raw other : Text)
    → only_digits_keep_plus raw ≡ only_digits_keep_plus other
    → lookup_phone arrange arrange_groups t reports other
      ≡ record (lookup_phone arrange arrange_groups t reports raw) {
        phone = record (lookup_phone arrange arrange_groups t reports raw).phone {
          raw_input = other;
        };
      }
unfolding lookup_phone
lookup_phone-separators arrange arrange_groups t reports raw other h =
    rw (normalize_vietnam_phone-cleaned raw other h)
      (normalized_answer_raw arrange arrange_groups t reports raw other _ _)

none-invalid :
    (raw : Text)
    → (normalize_vietnam_phone raw).normalized ≡ none
    → (normalize_vietnam_phone raw).valid ≡ false
none-invalid raw e = elim (Bool-cases (normalize_vietnam_phone raw).valid) [
  | inl valid ↦
      absurd (ground (arith, e, ((normalize_vietnam_phone-IsConsistent raw).valid_known valid).0))
  | inr invalid ↦ invalid
]

-- Whatever the tables hold, the answer's number is the normalizer's and it is called valid exactly
-- if the normalizer does; and where the normalizer has no number, nothing is said of it: no times,
-- no identities and no reports.
pub lookup_phone-phone :
    (arrange : List PhoneIdentity → List PhoneIdentity) (arrange_groups : List Group → List Group)
    (t : Tables) (reports : List SpamReport) (raw : Text)
    → ((lookup_phone arrange arrange_groups t reports raw).phone.normalized
        ≡ (normalize_vietnam_phone raw).normalized)
      × ((lookup_phone arrange arrange_groups t reports raw).phone.valid
          ≡ (normalize_vietnam_phone raw).valid)
      × ((normalize_vietnam_phone raw).normalized ≡ none
          → ((lookup_phone arrange arrange_groups t reports raw).statistics ≡ no_statistics)
            × ((lookup_phone arrange arrange_groups t reports raw).identities ≡ [])
            × ((lookup_phone arrange arrange_groups t reports raw).spam ≡ no_spam_reports))
unfolding lookup_phone normalized_answer row_answer
lookup_phone-phone arrange arrange_groups t reports raw =
    elim (Option-cases (normalize_vietnam_phone raw).normalized) [
      | inl e ↦ rw e (refl, sym (none-invalid raw e), λ h. (refl, refl, refl))
      | inr (phone, e) ↦ rw e (elim (Option-cases (phone_row t.phone_numbers phone)) [
        | inl f ↦ rw f (refl, refl, λ h. absurd (ground arith))
        | inr (row, f) ↦
            rw f (ap some (phone_row-mem _ phone row f).1, refl, λ h. absurd (ground arith))
      ])
    ]
