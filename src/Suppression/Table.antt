-- ===== src/Suppression/Table.antt =====
-- What the three operations do to the table, and what they keep.
use vn_phone_dp.Prelude.{
  ◌≤◌, ◌≡◌, refl, ◌+◌, true, false, not, ◌&&◌, ◌||◌, Option, none, some, List, [], ◌∷◌, arith, Text,
  text_eq, text_eq_iff, includes, if◌then◌else◌,
}
use vn_phone_dp.Prelude.Groups.{count}
use vn_phone_dp.Phone.{normalize_vietnam_phone}
use vn_phone_dp.Schema.{Timestamp, LabelSuppression}
use vn_phone_dp.Suppression.{
  upsert, suppress_number, delete_phone, unsuppress_number, is_suppressed, get_suppressed_set,
}

is_suppressed-upsert :
    (now : Timestamp) (phone : Text) (reason : Option Text) (rows : List LabelSuppression)
    (q : Text)
    → is_suppressed (upsert now phone reason rows) q ≡ (text_eq phone q || is_suppressed rows q)
unfolding is_suppressed upsert
is_suppressed-upsert now phone reason [] q = ground arith
is_suppressed-upsert now phone reason (row ∷ rows) q =
    ground
      (arith, is_suppressed-upsert now phone reason rows q, text_eq_iff row.phone_normalized phone)

is_suppressed-delete_phone :
    (phone : Text) (rows : List LabelSuppression) (q : Text)
    → is_suppressed (delete_phone phone rows) q ≡ (not (text_eq phone q) && is_suppressed rows q)
unfolding is_suppressed delete_phone
is_suppressed-delete_phone phone [] q = ground arith
is_suppressed-delete_phone phone (row ∷ rows) q = ground (
  arith,
  is_suppressed-delete_phone phone rows q,
  text_eq_iff row.phone_normalized phone,
  text_eq_iff row.phone_normalized q,
  text_eq_iff phone q,
)

-- The unique index: no number has two rows.
abbrev pub IsUnique : List LabelSuppression → Type 0
IsUnique rows = (q : Text) → count text_eq q (get_suppressed_set rows) ≤ 1

count-upsert :
    (now : Timestamp) (phone : Text) (reason : Option Text) (rows : List LabelSuppression)
    (q : Text)
    → count text_eq q (get_suppressed_set (upsert now phone reason rows))
      ≡ (if is_suppressed rows phone then 0 else if text_eq q phone then 1 else 0)
        + count text_eq q (get_suppressed_set rows)
unfolding upsert get_suppressed_set is_suppressed
count-upsert now phone reason [] q = ground arith
count-upsert now phone reason (row ∷ rows) q = ground (arith, count-upsert now phone reason rows q)

count-delete_phone :
    (phone : Text) (rows : List LabelSuppression) (q : Text)
    → count text_eq q (get_suppressed_set (delete_phone phone rows))
      ≤ count text_eq q (get_suppressed_set rows)
unfolding delete_phone get_suppressed_set
count-delete_phone phone [] q = ground arith
count-delete_phone phone (row ∷ rows) q = ground (arith, count-delete_phone phone rows q)

count_of_not_suppressed :
    (rows : List LabelSuppression) (q : Text)
    → is_suppressed rows q ≡ false
    → count text_eq q (get_suppressed_set rows) ≡ 0
unfolding is_suppressed get_suppressed_set
count_of_not_suppressed [] q h = refl
count_of_not_suppressed (row ∷ rows) q h = ground (
  arith,
  count_of_not_suppressed rows q,
  text_eq_iff row.phone_normalized q,
  text_eq_iff q row.phone_normalized,
)

upsert-IsUnique :
    (now : Timestamp) (phone : Text) (reason : Option Text) (rows : List LabelSuppression)
    → IsUnique rows
    → IsUnique (upsert now phone reason rows)
upsert-IsUnique now phone reason rows h q =
    rw (count-upsert now phone reason rows q)
      (ground (arith, h q, text_eq_iff q phone, count_of_not_suppressed rows phone))

-- Membership in the exported set is what `isSuppressed` answers.
pub includes-get_suppressed_set :
    (rows : List LabelSuppression) (q : Text)
    → includes (get_suppressed_set rows) q ≡ is_suppressed rows q
unfolding is_suppressed get_suppressed_set
includes-get_suppressed_set [] q = refl
includes-get_suppressed_set (row ∷ rows) q = ground (
  arith,
  includes-get_suppressed_set rows q,
  text_eq_iff row.phone_normalized q,
  text_eq_iff q row.phone_normalized,
)

-- Suppressing an input that normalises to `phone` suppresses that number and no other, and keeps
-- one row to a number.
pub suppress_number-accepted :
    (now : Timestamp) (raw : Text) (reason : Option Text) (rows : List LabelSuppression)
    (phone : Text)
    → (normalize_vietnam_phone raw).normalized ≡ some phone
    → IsUnique rows
    → let (after, reply) = suppress_number now raw reason rows in
      ((q : Text) → is_suppressed after q ≡ (text_eq phone q || is_suppressed rows q))
      × IsUnique after
      × (reply.phone_normalized ≡ some phone)
      × (reply.valid ≡ true)
unfolding suppress_number
suppress_number-accepted now raw reason rows phone h unique =
    rw (h, suppress_number)
      (
        is_suppressed-upsert now phone reason rows,
        upsert-IsUnique now phone reason rows unique,
        refl,
        refl,
      )

-- The same for the removal: that number and no other is released.
pub unsuppress_number-accepted :
    (raw : Text) (rows : List LabelSuppression) (phone : Text)
    → (normalize_vietnam_phone raw).normalized ≡ some phone
    → IsUnique rows
    → let (after, reply) = unsuppress_number raw rows in
      ((q : Text) → is_suppressed after q ≡ (not (text_eq phone q) && is_suppressed rows q))
      × IsUnique after
      × (reply.phone_normalized ≡ some phone)
      × (reply.valid ≡ true)
unfolding unsuppress_number
unsuppress_number-accepted raw rows phone h unique =
    rw (h, unsuppress_number)
      (
        is_suppressed-delete_phone phone rows,
        λ q. omega (arith, count-delete_phone phone rows q, unique q),
        refl,
        refl,
      )

-- An input that does not normalise changes nothing in either, and the reply is not valid.
pub suppression_refused :
    (now : Timestamp) (raw : Text) (reason : Option Text) (rows : List LabelSuppression)
    → (normalize_vietnam_phone raw).normalized ≡ none
    → (suppress_number now raw reason rows
        ≡ (rows, record { phone_normalized = none; valid = false }))
      × (unsuppress_number raw rows ≡ (rows, record { phone_normalized = none; valid = false }))
unfolding suppress_number unsuppress_number
suppression_refused now raw reason rows h =
    rw (h, suppress_number) (rw (h, unsuppress_number) (refl, refl))

-- A number that was not suppressed, suppressed under one spelling and released under any other that
-- normalises to the same number, leaves `isSuppressed` as it was for every number.
pub unsuppress-suppress :
    (now : Timestamp) (raw other : Text) (reason : Option Text) (rows : List LabelSuppression)
    (phone : Text)
    → (normalize_vietnam_phone raw).normalized ≡ some phone
    → (normalize_vietnam_phone other).normalized ≡ some phone
    → is_suppressed rows phone ≡ false
    → (q : Text)
    → is_suppressed (unsuppress_number other (suppress_number now raw reason rows).0).0 q
      ≡ is_suppressed rows q
unfolding suppress_number unsuppress_number
unsuppress-suppress now raw other reason rows phone h k free q =
    rw (h, suppress_number)
      (rw (k, unsuppress_number)
        (rw (is_suppressed-delete_phone phone (upsert now phone reason rows) q) (
          rw (is_suppressed-upsert now phone reason rows q) (ground (arith, text_eq_iff phone q)))))
