-- ===== src/Spam/Summary.antt =====
-- What `getSpamSummary` answers, in whatever order the groups come.
use mathlib.Core.List.{Permᴰ, append_assoc, append-nil, Memᴰ}
use mathlib.Core.List.Permᴰ
use mathlib.Core.List.Memᴰ
use vn_phone_dp.Prelude.{
  ℕ, ◌+◌, ◌≤◌, ◌<◌, ◌≡◌, ◌≢◌, ◌↔◌, ◌⊎◌, inl, inr, refl, sym, ap, ◌∙◌, true, none, some, List, [],
  ◌∷◌, ◌++◌, map, arith, Text, text_eq, length, length-map, any, All, if◌then◌else◌, Bool-cases,
}
use vn_phone_dp.Prelude.Groups.{
  distinct, count, count-zero, total-distinct, count-distinct, count-append, length-distinct-le,
  length-distinct-pos, mem-distinct, mem-any,
}
use vn_phone_dp.Prelude.Sorting.{total, total-perm, All-perm, All-mem, Memᴰ-perm}
use vn_phone_dp.Schema.{SpamReport, SpamReportCategory, SpamRiskLevel}
use vn_phone_dp.Spam.{
  SpamSummary, category_eq, filtered, distinct_reporters, categories, by_category, assign, Tally,
  empty_tally, tally_row, tally, summarize, get_spam_summary, compute_risk_level, reporter_key,
}

abbrev pub Group : Type 0
Group = SpamReportCategory × ℕ

pub category_eq_iff : (a b : SpamReportCategory) → (category_eq a b ≡ true) ↔ (a ≡ b)
category_eq_iff a b = ground arith

abbrev pub keys : List Group → List SpamReportCategory
keys groups = map (λ g. g.0) groups

-- A key that is new is assigned at the end.
assign-new :
    (k : SpamReportCategory) (v : ℕ) (m : List Group)
    → count category_eq k (keys m) ≡ 0
    → assign k v m ≡ m ++ (k, v) ∷ []
unfolding assign
assign-new k v [] h = refl
assign-new k v ((j, w) ∷ m) h = ground (arith, assign-new k v m)

breakdown-tally_row :
    (t : Tally) (g : Group)
    → (tally_row t g).category_breakdown ≡ assign g.0 g.1 t.category_breakdown
unfolding tally_row
breakdown-tally_row t (c, n) = ground arith

keys-append : (m groups : List Group) → keys (m ++ groups) ≡ keys m ++ keys groups
keys-append [] groups = refl
keys-append (g ∷ m) groups = ap (λ ks. g.0 ∷ ks) (keys-append m groups)

-- No key stands twice in the two lists together.
abbrev HasNewKeys : List Group → List Group → Type 0
HasNewKeys m groups = (k : SpamReportCategory) → count category_eq k (keys (m ++ groups)) ≤ 1

fresh_key :
    (m : List Group) (g : Group) (groups : List Group)
    → HasNewKeys m (g ∷ groups)
    → count category_eq g.0 (keys m) ≡ 0
fresh_key m g groups h =
    let split = keys-append m (g ∷ groups) in
    let sum = count-append category_eq g.0 (keys m) (keys (g ∷ groups)) in
    let whole = rw sum at (rw split at (h g.0)) in ground arith

breakdown-tally :
    (t : Tally) (groups : List Group)
    → HasNewKeys t.category_breakdown groups
    → (tally t groups).category_breakdown ≡ t.category_breakdown ++ groups
unfolding tally
breakdown-tally t [] h = sym (append-nil _)
breakdown-tally t (g ∷ groups) h =
    let fresh : count category_eq g.0 (keys t.category_breakdown) ≡ 0 =
      fresh_key t.category_breakdown g groups h in
    let row = breakdown-tally_row t g ∙ assign-new g.0 g.1 t.category_breakdown fresh in
    let shift = append_assoc t.category_breakdown (g ∷ []) groups in
    breakdown-tally (tally_row t g) groups (λ k. rw row (rw shift (h k)))
    ∙ ap (λ m. m ++ groups) row
    ∙ shift

-- The loop's maximum: no row is above it, and it is the initial one or a row's.
record IsTop (t : Tally) (groups : List Group) (r : Tally) : Type 0 where
  bound : All (λ g. g.1 < r.above) groups
  grows : t.above ≤ r.above
  from :
      ((r.top_category ≡ t.top_category) × (r.above ≡ t.above))
      ⊎ ((g : Group) × Memᴰ g groups × (r.top_category ≡ some g.0) × (r.above ≡ g.1 + 1))

above-tally_row :
    (t : Tally) (g : Group)
    → (g.1 < (tally_row t g).above)
      × (t.above ≤ (tally_row t g).above)
      × (((tally_row t g).top_category ≡ t.top_category) × ((tally_row t g).above ≡ t.above)
          ⊎ ((tally_row t g).top_category ≡ some g.0) × ((tally_row t g).above ≡ g.1 + 1))
unfolding tally_row
above-tally_row t (c, n) = ground arith

tally-IsTop : (t : Tally) (groups : List Group) → IsTop t groups (tally t groups)
unfolding tally
tally-IsTop t [] = record { bound = tt; grows = omega arith; from = inl (refl, refl) }
tally-IsTop t (g ∷ groups) =
    let later = tally-IsTop (tally_row t g) groups in
    let (below, up, choice) = above-tally_row t g in
    record {
      bound = (omega (arith, later.grows), later.bound);
      grows = omega (arith, later.grows);
      from = elim later.from [
        | inl (same, level) ↦ elim choice [
          | inl (old, at) ↦ inl (same ∙ old, level ∙ at)
          | inr (new, at) ↦ inr (g, Memᴰ.head refl, same ∙ new, level ∙ at)
        ]
        | inr (h, m, top, at) ↦ inr (h, Memᴰ.tail m, top, at)
      ];
    }

-- The groups of the query, whatever their order.
module _ (rows : List SpamReport) where
  count-keys :
      (ks : List SpamReportCategory) (f : SpamReportCategory → ℕ)
      → keys (map (λ c. (c, f c)) ks) ≡ ks
  count-keys [] f = refl
  count-keys (k ∷ ks) f = ap (λ l. k ∷ l) (count-keys ks f)

  total-groups :
      (ks : List SpamReportCategory) (f : SpamReportCategory → ℕ)
      → total (λ (g : Group). g.1) (map (λ c. (c, f c)) ks) ≡ total f ks
  total-groups [] f = refl
  total-groups (k ∷ ks) f = omega (arith, total-groups ks f)

  count-le-one : (k : SpamReportCategory) → count category_eq k (keys (by_category rows)) ≤ 1
  unfolding by_category
  count-le-one k =
      rw
        (count-keys (distinct category_eq (categories rows))
          (λ c. count category_eq c (categories rows)))
        (rw (count-distinct category_eq category_eq_iff k (categories rows)) (ground arith))

  total-by_category : total (λ (g : Group). g.1) (by_category rows) ≡ length (categories rows)
  unfolding by_category
  total-by_category =
      total-groups (distinct category_eq (categories rows)) _
      ∙ total-distinct category_eq category_eq_iff (categories rows)

count-keys-total :
    (k : SpamReportCategory) (groups : List Group)
    → count category_eq k (keys groups)
      ≡ total (λ (g : Group). if category_eq k g.0 then 1 else 0) groups
count-keys-total k [] = refl
count-keys-total k (g ∷ groups) = omega (arith, count-keys-total k groups)

-- An answer for the reports on one number.
pub record IsSummary (rows : List SpamReport) (s : SpamSummary) : Type 0 where
  pub counted : s.report_count ≡ length rows
  pub broken_down : total (λ (g : Group). g.1) s.category_breakdown ≡ s.report_count
  pub per_category :
      (c : SpamReportCategory) (n : ℕ)
      → Memᴰ (c, n) s.category_breakdown
      → n ≡ count category_eq c (categories rows)
  pub top :
      (c : SpamReportCategory)
      → s.top_category ≡ some c
      → (k : SpamReportCategory)
      → count category_eq k (categories rows) ≤ count category_eq c (categories rows)
  pub top_none : (s.top_category ≡ none) ↔ (s.report_count ≡ 0)
  pub counted_reporters : s.distinct_reporters ≡ distinct_reporters rows
  pub reporters : s.distinct_reporters ≤ s.report_count
  pub level : s.risk_level ≡ compute_risk_level s.distinct_reporters
  pub quiet : (s.risk_level ≡ SpamRiskLevel.none) ↔ (s.report_count ≡ 0)

module _ (rows : List SpamReport) where
  -- The reports of one category.
  abbrev pub tallied : SpamReportCategory → ℕ
  tallied c = count category_eq c (categories rows)

  counted-map :
      (ks : List SpamReportCategory)
      → All (λ (g : Group). g.1 ≡ tallied g.0) (map (λ c. (c, tallied c)) ks)
  counted-map [] = tt
  counted-map (k ∷ ks) = (refl, counted-map ks)

  pub counted-by_category : All (λ (g : Group). g.1 ≡ tallied g.0) (by_category rows)
  unfolding by_category
  counted-by_category = counted-map (distinct category_eq (categories rows))

  pub mem-by_category :
      (k : SpamReportCategory)
      → any (category_eq k) (categories rows) ≡ true
      → Memᴰ (k, tallied k) (by_category rows)
  unfolding by_category
  mem-by_category k h =
      Memᴰ.map (λ c. (c, tallied c))
        ((mem-distinct category_eq category_eq_iff k (categories rows)).0
          (mem-any category_eq category_eq_iff k (categories rows) h))

  distinct_reporters-le : distinct_reporters rows ≤ length rows
  unfolding distinct_reporters
  distinct_reporters-le = omega (
    arith,
    length-distinct-le text_eq (map (λ r. reporter_key r) rows),
    length-map (λ (r : SpamReport). reporter_key r) rows,
  )

distinct_reporters-pos :
    (r : SpamReport) (rows : List SpamReport) → 1 ≤ distinct_reporters (r ∷ rows)
unfolding distinct_reporters
distinct_reporters-pos r rows =
    length-distinct-pos text_eq (reporter_key r) (map (λ q. reporter_key q) rows)

module _ (rows : List SpamReport) {groups : List Group}
    (rearranged : Permᴰ groups (by_category rows)) where
  total-arranged : total (λ (g : Group). g.1) groups ≡ length rows
  total-arranged =
      total-perm (λ (g : Group). g.1) rearranged
      ∙ total-by_category rows
      ∙ length-map (λ (r : SpamReport). r.category) rows

  arranged-HasNewKeys : HasNewKeys [] groups
  arranged-HasNewKeys k = rw (count-keys-total k groups) (
      rw (total-perm (λ (g : Group). if category_eq k g.0 then 1 else 0) rearranged)
        (rw (← count-keys-total k (by_category rows)) (count-le-one rows k)))

  arranged-counted : All (λ (g : Group). g.1 ≡ tallied rows g.0) groups
  arranged-counted = All-perm _ (Permᴰ.symm rearranged) (counted-by_category rows)

  breakdown-arranged : (tally empty_tally groups).category_breakdown ≡ groups
  breakdown-arranged = breakdown-tally empty_tally groups arranged-HasNewKeys

  top-arranged :
      (c : SpamReportCategory)
      → (tally empty_tally groups).top_category ≡ some c
      → (k : SpamReportCategory) → tallied rows k ≤ tallied rows c
  top-arranged c h k =
      let t = tally-IsTop empty_tally groups in
      elim t.from [
        | inl (same, level) ↦ absurd (ground arith)
        | inr (g, m, found, level) ↦
            let counted = All-mem _ groups arranged-counted m in
            let same : g.0 ≡ c = ground arith in
            rw (← same) (elim (Bool-cases (any (category_eq k) (categories rows))) [
              | inl present ↦
                  let place = Memᴰ-perm (Permᴰ.symm rearranged) (mem-by_category rows k present) in
                  let below = All-mem _ groups t.bound place in omega arith
              | inr absent ↦ omega (arith, count-zero category_eq k (categories rows) absent)
            ])
      ]

reporters-pos :
    (rows : List SpamReport) (r : SpamReport) (rest : List SpamReport)
    → rows ≡ r ∷ rest
    → 1 ≤ distinct_reporters rows
reporters-pos rows r rest e = rw e (distinct_reporters-pos r rest)

-- With no reports there are no groups, and the other way round.
no-groups : (rows : List SpamReport) → Permᴰ [] (by_category rows) → rows ≡ []
no-groups [] p = refl
no-groups (r ∷ rows) p = absurd (omega (arith, total-arranged (r ∷ rows) p))

some-groups :
    (rows : List SpamReport) (g : Group) (groups : List Group)
    → Permᴰ (g ∷ groups) (by_category rows)
    → (r : SpamReport) × (rest : List SpamReport) × (rows ≡ r ∷ rest)
unfolding by_category distinct
some-groups [] g groups p = absurd (omega (arith, total-perm (λ (x : Group). 1) p))
some-groups (r ∷ rows) g groups p = (r, rows, refl)

top-tally_row : (g : Group) → (tally_row empty_tally g).top_category ≡ some g.0
unfolding tally_row
top-tally_row (c, n) = ground arith

-- The first row is above the initial -1, and no later row takes the category away.
top-tally : (g : Group) (groups : List Group) → (tally empty_tally (g ∷ groups)).top_category ≢ none
unfolding tally
top-tally g groups h = elim (tally-IsTop (tally_row empty_tally g) groups).from [
  | inl (same, level) ↦ cc (same, top-tally_row g, h)
  | inr (x, m, found, level) ↦ cc (found, h)
]

quiet_iff : (n : ℕ) → (compute_risk_level n ≡ SpamRiskLevel.none) ↔ (n ≡ 0)
unfolding compute_risk_level
quiet_iff n = ground arith

summarize-IsSummary :
    (rows : List SpamReport) (groups : List Group)
    → Permᴰ groups (by_category rows)
    → IsSummary rows (summarize rows groups)
unfolding summarize
summarize-IsSummary rows [] p = rw (no-groups rows p) (record {
  counted = refl;
  broken_down = refl;
  per_category = λ c n m. absurd (Memᴰ.not-nil m);
  top = λ c h k. absurd (ground arith);
  top_none = ((λ _. refl), λ _. refl);
  counted_reporters = unfold distinct_reporters distinct in refl;
  reporters = omega arith;
  level = unfold compute_risk_level in refl;
  quiet = ((λ _. refl), λ _. refl);
})
summarize-IsSummary rows (g ∷ groups) p =
    let (r, rest, nonempty) = some-groups rows g groups p in
    record {
      counted = refl;
      broken_down =
          ap (total (λ (x : Group). x.1)) (breakdown-arranged rows p) ∙ total-arranged rows p;
      per_category = λ c n m.
          All-mem _ (g ∷ groups) (arranged-counted rows p) (rw (breakdown-arranged rows p) at m);
      top = top-arranged rows p;
      top_none =
          ((λ h. absurd (top-tally g groups h)), λ h. absurd (omega (arith, ap length nonempty)));
      counted_reporters = refl;
      reporters = distinct_reporters-le rows;
      level = refl;
      quiet = (
        (λ h. absurd (
            omega (
              arith,
              (quiet_iff (distinct_reporters rows)).0 h,
              reporters-pos rows r rest nonempty,
            ))),
        λ h. absurd (omega (arith, ap length nonempty)),
      );
    }

-- The answer for any number, whatever the order in which the groups come: all reports on it are
-- counted; the breakdown adds up to their number, and each of its entries is the number of reports of that category; the top
-- category is absent exactly when there are no reports, and otherwise no category has more reports;
-- there are at most as many reporters as reports; and the risk is NONE exactly when there are none.
pub get_spam_summary-IsSummary :
    (arrange : List Group → List Group)
    → ((groups : List Group) → Permᴰ (arrange groups) groups)
    → (reports : List SpamReport) (phone : Text)
    → IsSummary (filtered phone reports) (get_spam_summary arrange reports phone)
unfolding get_spam_summary
get_spam_summary-IsSummary arrange rearranges reports phone =
    let rows = filtered phone reports in
    summarize-IsSummary rows (arrange (by_category rows)) (rearranges (by_category rows))
