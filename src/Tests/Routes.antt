-- ===== src/Tests/Routes.antt =====
-- Requests to the routes.
use vn_phone_dp.Prelude.{◌≡◌, arith, refl, true, false, none, some, List, [], Text, codes}
use vn_phone_dp.Phone.{normalize_vietnam_phone}
use vn_phone_dp.Schema.{LabelSuppression}
use vn_phone_dp.Suppression.Table.{IsUnique}
use vn_phone_dp.Routes.{
  ok, bad_request, unprocessable, server_error, post_suppressed_number, delete_suppressed_number,
  get_suppression_status, get_search,
}
use vn_phone_dp.Routes.Reports.{
  category_named, report_reply, empty_category, post_report_with, post_report,
}
use vn_phone_dp.Routes.Calls.{is_date}
use vn_phone_dp.Routes.Suppressed.{suppressed_number-replies}
use vn_phone_dp.Tests.Program.{program}

abbrev none_suppressed : List LabelSuppression
none_suppressed = []

nothing_suppressed : IsUnique none_suppressed
unfolding program
nothing_suppressed q = omega arith

-- An empty category is let through by the check, and fails in the database.
empty_category_fails :
    (post_report
      (λ gs. gs)
      (codes "id")
      1
      (record {
        phone_raw = some (codes "0912345678");
        category = some [];
        note = none;
        reporter_ref = none;
      })
      []).1
    ≡ server_error
unfolding program category_named report_reply empty_category post_report_with post_report
empty_category_fails = refl

wrong_category_refused :
    (post_report
      (λ gs. gs)
      (codes "id")
      1
      (record {
        phone_raw = some (codes "0912345678");
        category = some (codes "NICE");
        note = none;
        reporter_ref = none;
      })
      []).1
    ≡ bad_request (codes "invalid_category")
unfolding program category_named report_reply empty_category post_report_with post_report
wrong_category_refused = refl

nothing_searched :
    get_search (λ ns. ns) [] (some (codes "  ")) ≡ bad_request (codes "missing_query_param_q")
unfolding program get_search
nothing_searched = refl

suppressed_number-replies_example :
    let raw = codes "0912345678" in
    let posted = post_suppressed_number 5 (some raw) none none_suppressed in
    let deleted = delete_suppressed_number raw none_suppressed in
    ((phone : Text)
      → (normalize_vietnam_phone raw).normalized ≡ some phone
      → (posted.1 ≡ ok (some phone, true))
        × (get_suppression_status posted.0 raw ≡ ok (some phone, true))
        × (deleted.1 ≡ ok (some phone, false))
        × (get_suppression_status deleted.0 raw ≡ ok (some phone, false)))
    × ((normalize_vietnam_phone raw).normalized ≡ none
        → (posted ≡ (none_suppressed, unprocessable (codes "invalid_phone_format") raw))
          × (deleted ≡ (none_suppressed, unprocessable (codes "invalid_phone_format") raw))
          × (get_suppression_status none_suppressed raw
              ≡ unprocessable (codes "invalid_phone_format") raw))
suppressed_number-replies_example =
    suppressed_number-replies 5 b'0' (codes "912345678") none none_suppressed nothing_suppressed

dates :
    (is_date (codes "2024-02-30") ≡ true)
    × (is_date (codes "2024-2-3") ≡ false)
    × (is_date (codes "2024-02-03T") ≡ false)
unfolding is_date
dates = (refl, refl, refl)
