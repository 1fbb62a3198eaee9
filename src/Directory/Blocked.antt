-- ===== src/Directory/Blocked.antt =====
-- Which numbers `getBlockedDigits` hands to the blocking list.
use mathlib.Core.List.{Permᴰ, Memᴰ}
use mathlib.Core.List.Permᴰ
use mathlib.Core.List.Memᴰ
use vn_phone_dp.Prelude.{
  ◌≤◌, ◌<◌, ◌≡◌, ◌≢◌, ◌↔◌, ◌⊎◌, inl, inr, refl, ap, subst, ◌++◌, true, false, not, ◌||◌, List, [],
  ◌∷◌, arith, Text, All, any, includes, ltb, Bool-cases,
}
use vn_phone_dp.Prelude.Sorting.{IsOrdered, All-mem, All-of_mem, Memᴰ-perm, sort_by, sort_by-perm}
use vn_phone_dp.Prelude.Groups.{count-zero}
use vn_phone_dp.Phone.{digits_only, normalize_vietnam_phone, plus84}
use vn_phone_dp.Schema.{SpamReportCategory, SpamReport, LabelSuppression}
use vn_phone_dp.Settings.{AppSetting, is_auto_block_high_risk_enabled}
use vn_phone_dp.Suppression.{is_suppressed, get_suppressed_set}
use vn_phone_dp.Suppression.Table.{includes-get_suppressed_set}
use vn_phone_dp.Spam.{filtered, distinct_reporters, categories, category_eq}
use vn_phone_dp.Spam.Summary.{tallied, category_eq_iff}
use vn_phone_dp.Directory.{
  is_callable, big_int, select_blocked, get_blocked_digits, get_spam_flags, known_phones, SpamFlag,
  FlagRow, is_scam,
}
use vn_phone_dp.Directory.Rows.{mem-lookup}
use vn_phone_dp.Directory.Flags.{
  HasUniqueKeys, lookup-mem, get_spam_flags-HasUniqueKeys, get_spam_flags-IsFlag,
  get_spam_flags_complete, get_spam_flags-All,
}
use vn_phone_dp.Directory.Order.{
  IsNumeral, big_int-injective, IsAscending, before, sort_by-IsAscending,
}
use vn_phone_dp.Directory.Stored.{IsStored, IsE164, IsStored-E164}

abbrev Flags : Type 0
Flags = List (Text × SpamFlag)

-- Why `getBlockedDigits` takes a number.
pub record IsBlockable (suppressed : List Text) (p : Text) (f : SpamFlag) : Type 0 where
  pub reporters : 10 ≤ f.distinct_reporters
  pub scam : f.top_category ≡ SpamReportCategory.scam
  pub announced : includes suppressed p ≡ false
  pub callable : is_callable (normalize_vietnam_phone p).type ≡ true

pub is_scam_iff : (c : SpamReportCategory) → (is_scam c ≡ true) ↔ (c ≡ SpamReportCategory.scam)
unfolding is_scam
is_scam_iff c = ground arith

-- One round of the loop.
select_blocked-cases :
    (suppressed : List Text) (p : Text) (f : SpamFlag) (flags : Flags)
    → ((select_blocked suppressed ((p, f) ∷ flags) ≡ select_blocked suppressed flags)
        × ¬ (IsBlockable suppressed p f))
      ⊎ ((select_blocked suppressed ((p, f) ∷ flags)
            ≡ digits_only p ∷ select_blocked suppressed flags)
          × IsBlockable suppressed p f)
unfolding select_blocked
select_blocked-cases suppressed p f flags =
    elim (Bool-cases (ltb f.distinct_reporters 10 || not (is_scam f.top_category))) [
      | inl few ↦ inl (rw few, λ b. ground (arith, b.reporters, b.scam, is_scam_iff f.top_category))
      | inr many ↦ elim (Bool-cases (includes suppressed p)) [
        | inl quiet ↦ inl (rw (many, quiet), λ b. ground (arith, b.announced))
        | inr loud ↦ elim (Bool-cases (is_callable (normalize_vietnam_phone p).type)) [
          | inl callable ↦ inr (
            rw (many, loud, callable),
            record {
              reporters = ground arith;
              scam = (is_scam_iff f.top_category).0 (ground arith);
              announced = loud;
              callable = callable;
            },
          )
          | inr other ↦ inl (rw (many, loud, other), λ b. ground (arith, b.callable))
        ]
      ]
    ]

select_blocked-nil : (suppressed : List Text) → select_blocked suppressed [] ≡ []
unfolding select_blocked
select_blocked-nil suppressed = refl

mem-select_blocked :
    (suppressed : List Text) (flags : Flags) (x : Text)
    → Memᴰ x (select_blocked suppressed flags)
    → (p : Text) × (f : SpamFlag) × Memᴰ (p, f) flags
      × IsBlockable suppressed p f
      × (x ≡ digits_only p)
mem-select_blocked suppressed [] x m =
    absurd (Memᴰ.not-nil (rw (select_blocked-nil suppressed) at m))
mem-select_blocked suppressed ((p, f) ∷ flags) x m =
    let later = mem-select_blocked suppressed flags x in
    elim (select_blocked-cases suppressed p f flags) [
      | inl (same, not_is) ↦
          let (q, g, place, is, e) = later (rw same at m) in (q, g, Memᴰ.tail place, is, e)
      | inr (same, is) ↦ elim (Memᴰ.cases_cons (rw same at m)) [
        | inl e ↦ (p, f, Memᴰ.head refl, is, e)
        | inr rest ↦ let (q, g, place, is', e) = later rest in (q, g, Memᴰ.tail place, is', e)
      ]
    ]

select_blocked-mem :
    (suppressed : List Text) (flags : Flags) (p : Text) (f : SpamFlag)
    → Memᴰ (p, f) flags
    → IsBlockable suppressed p f
    → Memᴰ (digits_only p) (select_blocked suppressed flags)
select_blocked-mem suppressed [] p f m is = absurd (Memᴰ.not-nil m)
select_blocked-mem suppressed ((q, g) ∷ flags) p f (Memᴰ.head e) is =
    elim (select_blocked-cases suppressed q g flags) [
      | inl (same, not_is) ↦
          absurd (not_is (subst (λ (x : Text × SpamFlag). IsBlockable suppressed x.0 x.1) e is))
      | inr (same, _) ↦ rw same (Memᴰ.head (ap (λ (x : Text × SpamFlag). digits_only x.0) e))
    ]
select_blocked-mem suppressed ((q, g) ∷ flags) p f (Memᴰ.tail m) is =
    let later = select_blocked-mem suppressed flags p f m is in
    elim (select_blocked-cases suppressed q g flags) [
      | inl (same, _) ↦ rw same later
      | inr (same, _) ↦ rw same (Memᴰ.tail later)
    ]

-- The digits of an E.164 number are a numeral that determines it.
E164-digits :
    (p : Text)
    → IsE164 p
    → (d : Text) × (p ≡ plus84 ++ d) × (digits_only p ≡ b'8' ∷ b'4' ∷ d) × IsNumeral (digits_only p)
unfolding digits_only
E164-digits p (d, e, h) = rw e (d, refl, refl, ((ground arith), h))

pub big_int-apart :
    (p q : Text) → IsE164 p → IsE164 q → p ≢ q → big_int (digits_only p) ≢ big_int (digits_only q)
big_int-apart p q hp hq ne e =
    let (d, ep, dp, np) = E164-digits p hp in
    let (d', eq, dq, nq) = E164-digits q hq in
    let same = big_int-injective (digits_only p) (digits_only q) np nq e in ne (cc)

-- No two of the chosen numbers have the same value.
select_blocked-apart :
    (suppressed : List Text) (flags : Flags)
    → HasUniqueKeys flags
    → All (λ e. IsStored e.0) flags
    → IsOrdered (λ a b. big_int a ≢ big_int b) (select_blocked suppressed flags)
select_blocked-apart suppressed [] u st = rw (select_blocked-nil suppressed) tt
select_blocked-apart suppressed ((p, f) ∷ flags) (h, hs) (s, st) =
    let later = select_blocked-apart suppressed flags hs st in
    elim (select_blocked-cases suppressed p f flags) [
      | inl (same, _) ↦ rw same later
      | inr (same, is) ↦ rw same (
        All-of_mem (λ b. big_int (digits_only p) ≢ big_int b) (select_blocked suppressed flags)
            (λ x m.
              let (q, g, place, is', e) = mem-select_blocked suppressed flags x m in
              let other = All-mem (λ (e' : Text × SpamFlag). p ≢ e'.0) flags h place in
              let stored = All-mem (λ (e' : Text × SpamFlag). IsStored e'.0) flags st place in
              rw e (
                big_int-apart p q (IsStored-E164 p s is.callable)
                  (IsStored-E164 q stored is'.callable) other)),
        later,
      )
    ]

-- Why a number with these reports is auto-blocked. `top` says that no category has more reports.
pub record IsHighRisk (reports : List SpamReport) (suppressions : List LabelSuppression) (p : Text)
    : Type 0 where
  pub reporters : 10 ≤ distinct_reporters (filtered p reports)
  pub top :
      (k : SpamReportCategory)
      → tallied (filtered p reports) k ≤ tallied (filtered p reports) SpamReportCategory.scam
  pub announced : is_suppressed suppressions p ≡ false
  pub callable : is_callable (normalize_vietnam_phone p).type ≡ true

-- The same where scam reports outnumber those of every other category, so that no order of the
-- rows can put another one at the top.
pub record IsSurelyHighRisk (reports : List SpamReport) (suppressions : List LabelSuppression)
    (p : Text) : Type 0 where
  pub reporters : 10 ≤ distinct_reporters (filtered p reports)
  pub top :
      (k : SpamReportCategory)
      → k ≢ SpamReportCategory.scam
      → tallied (filtered p reports) k < tallied (filtered p reports) SpamReportCategory.scam
  pub announced : is_suppressed suppressions p ≡ false
  pub callable : is_callable (normalize_vietnam_phone p).type ≡ true

counted-any :
    (rows : List SpamReport) (k : SpamReportCategory)
    → 1 ≤ tallied rows k
    → any (category_eq k) (categories rows) ≡ true
counted-any rows k h = elim (Bool-cases (any (category_eq k) (categories rows))) [
  | inl present ↦ present
  | inr absent ↦ absurd (omega (arith, count-zero category_eq k (categories rows) absent))
]

-- Only the category with the most reports can have as many as it.
only_top :
    (rows : List SpamReport) (c : SpamReportCategory)
    → tallied rows SpamReportCategory.scam ≤ tallied rows c
    → ((k : SpamReportCategory)
        → k ≢ SpamReportCategory.scam
        → tallied rows k < tallied rows SpamReportCategory.scam)
    → c ≡ SpamReportCategory.scam
only_top rows c le h = elim (Bool-cases (category_eq c SpamReportCategory.scam)) [
  | inl same ↦ (category_eq_iff c SpamReportCategory.scam).0 same
  | inr other ↦
      let less = h c (λ e. ground (arith, category_eq_iff c SpamReportCategory.scam)) in
      absurd (omega arith)
]

module _ (arrange : List FlagRow → List FlagRow)
    (rearranges : (rows : List FlagRow) → Permᴰ (arrange rows) rows) (settings : List AppSetting)
    (reports : List SpamReport) (suppressions : List LabelSuppression) where
  flags : Flags
  flags = get_spam_flags arrange reports

  select : List Text
  select = select_blocked (get_suppressed_set suppressions) flags

  -- While the setting is off, nothing is blocked.
  get_blocked_digits-off :
      is_auto_block_high_risk_enabled settings ≡ false
      → get_blocked_digits arrange settings reports suppressions ≡ []
  unfolding get_blocked_digits
  get_blocked_digits-off off = rw off

  get_blocked_digits-on :
      is_auto_block_high_risk_enabled settings ≡ true
      → get_blocked_digits arrange settings reports suppressions ≡ sort_by (before (λ x. x)) select
  unfolding get_blocked_digits select flags
  get_blocked_digits-on on = rw on

  -- The list is in strictly ascending numeric order, as a full reload requires, if the reports hold
  -- numbers that the normaliser gave out.
  pub get_blocked_digits-IsAscending :
      All IsStored (known_phones reports)
      → IsAscending (λ x. x) (get_blocked_digits arrange settings reports suppressions)
  unfolding select flags
  get_blocked_digits-IsAscending stored =
      elim (Bool-cases (is_auto_block_high_risk_enabled settings)) [
        | inl on ↦ rw (get_blocked_digits-on on) (
            sort_by-IsAscending (λ x. x) select
              (select_blocked-apart (get_suppressed_set suppressions) flags
                (get_spam_flags-HasUniqueKeys arrange rearranges reports)
                (get_spam_flags-All IsStored arrange rearranges reports stored)))
        | inr off ↦ rw (get_blocked_digits-off off) tt
      ]

  -- A number is on the blocking list only if the setting is on, ten or more different reporters
  -- reported it, no category has more of its reports than SCAM, the owner did not suppress it, and
  -- it is a mobile or landline number.
  pub get_blocked_digits_sound :
      (x : Text)
      → Memᴰ x (get_blocked_digits arrange settings reports suppressions)
      → (is_auto_block_high_risk_enabled settings ≡ true)
        × ((p : Text) × (x ≡ digits_only p) × IsHighRisk reports suppressions p)
  unfolding select flags
  get_blocked_digits_sound x m = elim (Bool-cases (is_auto_block_high_risk_enabled settings)) [
    | inl on ↦
        let m' =
          Memᴰ-perm (sort_by-perm (before (λ y. y)) select) (rw (get_blocked_digits-on on) at m) in
        let (p, f, place, is, e) =
          mem-select_blocked (get_suppressed_set suppressions) flags x m' in
        let found =
          lookup-mem p f flags (get_spam_flags-HasUniqueKeys arrange rearranges reports) place in
        let flag = get_spam_flags-IsFlag arrange rearranges reports p f found in
        (
          on,
          (
            p,
            e,
            record {
              reporters = omega (arith, flag.reporters, is.reporters);
              top = rw is.scam at flag.top;
              announced = rw includes-get_suppressed_set at is.announced;
              callable = is.callable;
            },
          ),
        )
    | inr off ↦ absurd (Memᴰ.not-nil (rw (get_blocked_digits-off off) at m))
  ]

  -- While the setting is on, a mobile or landline number that is not suppressed, with ten or more
  -- different reporters and more SCAM reports than of any other category, is on the list.
  pub get_blocked_digits_complete :
      is_auto_block_high_risk_enabled settings ≡ true
      → (p : Text) → IsSurelyHighRisk reports suppressions p
      → Memᴰ (digits_only p) (get_blocked_digits arrange settings reports suppressions)
  unfolding select flags
  get_blocked_digits_complete on p risk =
      let more = risk.top SpamReportCategory.spam (ground arith) in
      let present = counted-any (filtered p reports) SpamReportCategory.scam (omega arith) in
      let (f, found) =
        get_spam_flags_complete arrange rearranges reports p SpamReportCategory.scam present in
      let flag = get_spam_flags-IsFlag arrange rearranges reports p f found in
      let scam =
        only_top (filtered p reports) f.top_category (flag.top SpamReportCategory.scam) risk.top in
      rw (get_blocked_digits-on on) (
        Memᴰ-perm (Permᴰ.symm (sort_by-perm (before (λ y. y)) select)) (
          select_blocked-mem (get_suppressed_set suppressions) flags p f
            (mem-lookup p flags f found)
            (record {
              reporters = omega (arith, flag.reporters, risk.reporters);
              scam = scam;
              announced = rw includes-get_suppressed_set risk.announced;
              callable = risk.callable;
            })))
