-- ===== src/Routes/Suppressed.antt =====
-- The replies of the routes for the suppressed numbers.
use vn_phone_dp.Prelude.{
  ℕ, ◌≡◌, refl, ◌∙◌, true, false, Option, none, some, List, ◌∷◌, Text, codes, text_eq_refl,
}
use vn_phone_dp.Phone.{normalize_vietnam_phone}
use vn_phone_dp.Schema.{Timestamp, LabelSuppression}
use vn_phone_dp.Suppression.{is_suppressed}
use vn_phone_dp.Suppression.Table.{
  IsUnique, suppress_number-accepted, unsuppress_number-accepted, suppression_refused,
}
use vn_phone_dp.Routes.{
  ok, unprocessable, suppression_reply, post_suppressed_number, delete_suppressed_number,
  get_suppression_status,
}

status_known :
    (rows : List LabelSuppression) (raw phone : Text)
    → (normalize_vietnam_phone raw).normalized ≡ some phone
    → get_suppression_status rows raw ≡ ok (some phone, is_suppressed rows phone)
unfolding get_suppression_status
status_known rows raw phone e = rw (e, get_suppression_status) refl

status_unknown :
    (rows : List LabelSuppression) (raw : Text)
    → (normalize_vietnam_phone raw).normalized ≡ none
    → get_suppression_status rows raw ≡ unprocessable (codes "invalid_phone_format") raw
unfolding get_suppression_status
status_unknown rows raw e = rw (e, get_suppression_status) refl

-- Where a number can be normalized, it is suppressed for the status route after a POST and not after
-- a DELETE, and both reply so, with the number; where it cannot, all three routes reply 422 and the
-- table stays. The table has one row for a number at most, and the text that is sent is not empty.
pub suppressed_number-replies :
    (now : Timestamp) (c : ℕ) (s : Text) (reason : Option Text) (rows : List LabelSuppression)
    → IsUnique rows
    → let raw = c ∷ s in
      let posted = post_suppressed_number now (some raw) reason rows in
      let deleted = delete_suppressed_number raw rows in
      ((phone : Text)
        → (normalize_vietnam_phone raw).normalized ≡ some phone
        → (posted.1 ≡ ok (some phone, true))
          × (get_suppression_status posted.0 raw ≡ ok (some phone, true))
          × (deleted.1 ≡ ok (some phone, false))
          × (get_suppression_status deleted.0 raw ≡ ok (some phone, false)))
      × ((normalize_vietnam_phone raw).normalized ≡ none
          → (posted ≡ (rows, unprocessable (codes "invalid_phone_format") raw))
            × (deleted ≡ (rows, unprocessable (codes "invalid_phone_format") raw))
            × (get_suppression_status rows raw ≡ unprocessable (codes "invalid_phone_format") raw))
unfolding post_suppressed_number delete_suppressed_number suppression_reply
suppressed_number-replies now c s reason rows unique =
    let raw = c ∷ s in
    (
      λ phone e.
          let (on, u, p, v) = suppress_number-accepted now raw reason rows phone e unique in
          let (off, u', p', v') = unsuppress_number-accepted raw rows phone e unique in
          (
            rw (v, p) refl,
            status_known _ raw phone e ∙ rw (on phone, text_eq_refl phone) refl,
            rw (v', p') refl,
            status_known _ raw phone e ∙ rw (off phone, text_eq_refl phone) refl,
          ),
      λ e.
          let (a, b) = suppression_refused now raw reason rows e in
          (rw a refl, rw b refl, status_unknown rows raw e),
    )
