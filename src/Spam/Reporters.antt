-- ===== src/Spam/Reporters.antt =====
-- What a submitted report changes, and how reporters are counted.
use mathlib.Core.List.{Permᴰ, append-nil}
use vn_phone_dp.Prelude.{
  ℕ, ◌+◌, ◌≤◌, ◌<◌, ◌≡◌, ◌≢◌, ◌↔◌, inl, inr, refl, sym, ap, ◌∙◌, Bool, true, false, some, List, [],
  ◌∷◌, ◌++◌, map, arith, Text, text_eq, text_eq_iff, text_eq_refl, length, All, any, includes,
  if◌then◌else◌, Bool-cases, filter-append, length-append, any-append,
}
use vn_phone_dp.Prelude.Groups.{distinct, count, count-distinct, total-count, length-distinct-le}
use vn_phone_dp.Prelude.Sorting.{total}
use vn_phone_dp.Phone.{normalize_vietnam_phone}
use vn_phone_dp.Schema.{SpamReport, SpamRiskLevel, Uuid, Timestamp}
use vn_phone_dp.Spam.{
  SubmitSpamReportInput, filtered, is_for, distinct_reporters, by_category, reporter_key, coalesce,
  summarize, get_spam_summary, submit_spam_report, compute_risk_level, report_row,
}
use vn_phone_dp.Spam.Summary.{Group, get_spam_summary-IsSummary}

-- The different values of a list with one more at the end.
module _ {ℓ} {A : Type ℓ} (eq : A → A → Bool) (eq_iff : (x y : A) → (eq x y ≡ true) ↔ (x ≡ y)) where
  length-distinct-snoc :
      (xs : List A) (y : A)
      → length (distinct eq (xs ++ y ∷ []))
        ≡ length (distinct eq xs) + (if any (eq y) xs then 0 else 1)
  unfolding distinct
  length-distinct-snoc [] y = refl
  length-distinct-snoc (x ∷ xs) y =
      ground
        (arith, length-distinct-snoc xs y, any-append (eq x) xs (y ∷ []), eq_iff x y, eq_iff y x)

  total-le :
      (ks xs : List A) → ((k : A) → count eq k xs ≤ 1) → total (λ k. count eq k xs) ks ≤ length ks
  total-le [] xs h = omega arith
  total-le (k ∷ ks) xs h = omega (arith, h k, total-le ks xs h)

  All-distinct : (P : A → Type 0) (xs : List A) → All P xs → All P (distinct eq xs)
  unfolding distinct
  All-distinct P [] h = tt
  All-distinct P (x ∷ xs) (h, hs) = elim (Bool-cases (any (eq x) xs)) [
    | inl again ↦ rw again (All-distinct P xs hs)
    | inr first ↦ rw first (h, All-distinct P xs hs)
  ]

  All-once :
      (ks xs : List A)
      → All (λ x. any (eq x) ks ≡ true) xs
      → All (λ x. count eq x (distinct eq ks) ≡ 1) xs
  All-once ks [] h = tt
  All-once ks (x ∷ xs) (h, hs) = (rw (count-distinct eq eq_iff x ks, h), All-once ks xs hs)

  -- There are no more different values than a list that has them all.
  length-distinct-bound :
      (ks xs : List A) → All (λ x. any (eq x) ks ≡ true) xs → length (distinct eq xs) ≤ length ks
  length-distinct-bound ks xs h =
      let once = All-once ks (distinct eq xs) (All-distinct _ xs h) in
      let below =
        total-le (distinct eq ks) (distinct eq xs)
          (λ k. rw (count-distinct eq eq_iff k xs) (ground arith)) in
      omega (
        arith,
        total-count eq eq_iff (distinct eq ks) (distinct eq xs) once,
        below,
        length-distinct-le eq ks,
      )

-- The reporters of a list of reports.
abbrev pub reporter_keys : List SpamReport → List Text
reporter_keys rows = map (λ r. reporter_key r) rows

reporter_keys-append :
    (rows more : List SpamReport)
    → reporter_keys (rows ++ more) ≡ reporter_keys rows ++ reporter_keys more
reporter_keys-append [] more = refl
reporter_keys-append (r ∷ rows) more =
    ap (λ ks. reporter_key r ∷ ks) (reporter_keys-append rows more)

distinct_reporters-snoc :
    (rows : List SpamReport) (r : SpamReport)
    → distinct_reporters (rows ++ r ∷ [])
      ≡ distinct_reporters rows + (if includes (reporter_keys rows) (reporter_key r) then 0 else 1)
unfolding distinct_reporters
distinct_reporters-snoc rows r =
    ap (λ ks. length (distinct text_eq ks)) (reporter_keys-append rows (r ∷ []))
    ∙ length-distinct-snoc text_eq text_eq_iff (reporter_keys rows) (reporter_key r)

filtered-snoc :
    (phone : Text) (reports : List SpamReport) (r : SpamReport)
    → filtered phone (reports ++ r ∷ [])
      ≡ filtered phone reports ++ (if is_for phone r.phone_normalized then r ∷ [] else [])
unfolding filtered
filtered-snoc phone reports r =
    filter-append (λ q. is_for phone q.phone_normalized) reports (r ∷ [])

-- What the table holds after a report, from what it held before. `key` is the reporter's.
pub record IsAdded (arrange : List Group → List Group) (phone key : Text)
    (before after : List SpamReport) : Type 0 where
  pub reports : length (filtered phone after) ≡ length (filtered phone before) + 1
  pub reporters :
      distinct_reporters (filtered phone after)
      ≡ distinct_reporters (filtered phone before)
        + (if includes (reporter_keys (filtered phone before)) key then 0 else 1)
  pub others :
      (q : Text) → q ≢ phone → get_spam_summary arrange after q ≡ get_spam_summary arrange before q

get_spam_summary-filtered :
    (arrange : List Group → List Group) (after before : List SpamReport) (q : Text)
    → filtered q after ≡ filtered q before
    → get_spam_summary arrange after q ≡ get_spam_summary arrange before q
unfolding get_spam_summary
get_spam_summary-filtered arrange after before q h =
    ap (λ rows. summarize rows (arrange (by_category rows))) h

filtered-other :
    (reports : List SpamReport) (r : SpamReport) (phone q : Text)
    → r.phone_normalized ≡ some phone
    → q ≢ phone
    → filtered q (reports ++ r ∷ []) ≡ filtered q reports
filtered-other reports r phone q h ne =
    let away : is_for q r.phone_normalized ≡ false = rw h (ground (arith, text_eq_iff phone q)) in
    (rw away at (filtered-snoc q reports r)) ∙ append-nil _

module _ (arrange : List Group → List Group) where
  snoc-IsAdded :
      (reports : List SpamReport) (r : SpamReport) (phone : Text)
      → r.phone_normalized ≡ some phone
      → IsAdded arrange phone (reporter_key r) reports (reports ++ r ∷ [])
  snoc-IsAdded reports r phone h =
      let here : is_for phone r.phone_normalized ≡ true = rw h (text_eq_refl phone) in
      let added = rw here at (filtered-snoc phone reports r) in
      record {
        reports = rw added (length-append (filtered phone reports) (r ∷ []));
        reporters = rw added (distinct_reporters-snoc (filtered phone reports) r);
        others = λ q ne.
            get_spam_summary-filtered arrange (reports ++ r ∷ []) reports q
              (filtered-other reports r phone q h ne);
      }

  -- A report on a number that normalises adds one report to that number, and one reporter unless
  -- its reporter had reported the number before; the answers for all other numbers stay. The reply
  -- holds the number's summary after the report.
  pub submit_spam_report-accepted :
      (id : Uuid) (now : Timestamp) (input : SubmitSpamReportInput) (reports : List SpamReport)
      (phone : Text)
      → (normalize_vietnam_phone input.phone_raw).normalized ≡ some phone
      → let (after, reply) = submit_spam_report arrange id now input reports in
        IsAdded arrange phone (coalesce input.reporter_ref id) reports after
        × (reply.valid ≡ true)
        × (reply.phone_normalized ≡ some phone)
        × (reply.summary ≡ some (get_spam_summary arrange after phone))
  unfolding submit_spam_report
  submit_spam_report-accepted id now input reports phone h =
      rw (h, submit_spam_report)
        (snoc-IsAdded reports (report_row id now input phone) phone refl, refl, refl, refl)

  high_iff : (n : ℕ) → (compute_risk_level n ≡ SpamRiskLevel.high) ↔ (10 ≤ n)
  unfolding compute_risk_level
  high_iff n = ground arith

  -- The risk of a number is HIGH exactly when it has ten different reporters or more; so it is not
  -- HIGH while all its reports come from fewer than ten, however many the reports are.
  pub get_spam_summary-high :
      ((groups : List Group) → Permᴰ (arrange groups) groups)
      → (reports : List SpamReport) (phone : Text)
      → let s = get_spam_summary arrange reports phone in
        ((s.risk_level ≡ SpamRiskLevel.high)
          ↔ (10 ≤ length (distinct text_eq (reporter_keys (filtered phone reports)))))
        × ((ks : List Text)
            → All (λ k. includes ks k ≡ true) (reporter_keys (filtered phone reports))
            → length ks < 10
            → s.risk_level ≢ SpamRiskLevel.high)
  unfolding distinct_reporters
  get_spam_summary-high rearranges reports phone =
      let s = get_spam_summary-IsSummary arrange rearranges reports phone in
      (
        (
          λ h. rw (← s.counted_reporters) ((high_iff _).0 (sym s.level ∙ h)),
          λ h. s.level ∙ (high_iff _).1 (rw s.counted_reporters h),
        ),
        λ ks all_in few h.
            let ten = (high_iff _).0 (sym s.level ∙ h) in
            let bound = length-distinct-bound text_eq text_eq_iff ks _ all_in in
            omega (arith, s.counted_reporters),
      )
