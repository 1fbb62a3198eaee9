-- ===== src/Directory/Flags.antt =====
-- What `getSpamFlags` knows of each number, in whatever order the rows come.
use mathlib.Core.List.{Permᴰ, Memᴰ}
use mathlib.Core.List.Permᴰ
use mathlib.Core.List.Memᴰ
use vn_phone_dp.Prelude.{
  ◌≤◌, ◌<◌, ◌≡◌, ◌≢◌, inl, inr, refl, true, Option, none, some, List, [], ◌∷◌, map, arith, Text,
  text_eq, text_eq_iff, text_eq_refl, All, any, Bool-cases, Option-cases, All-append,
}
use vn_phone_dp.Prelude.Groups.{distinct, count-zero, mem-distinct, mem-any}
use vn_phone_dp.Prelude.Sorting.{All-perm, All-mem, All-of_mem, Memᴰ-perm, IsOrdered}
use vn_phone_dp.Schema.{SpamReport, SpamReportCategory}
use vn_phone_dp.Spam.{filtered, distinct_reporters, by_category, categories, category_eq}
use vn_phone_dp.Spam.Summary.{tallied, counted-by_category, mem-by_category}
use vn_phone_dp.Directory.{
  FlagRow, TopFlag, SpamFlag, spam_flag, known_phones, phone_rows, rows_of, flag_rows, top_flag,
  note_row, note_rows, get_spam_flags, lookup,
}
use vn_phone_dp.Prelude.Members.{All-map}
use vn_phone_dp.Directory.Rows.{level, IsBest, note_rows-IsBest}

-- The rows of the query, in any order.
module _ (reports : List SpamReport) where
  record IsCounted (r : FlagRow) : Type 0 where
    reporters : r.distinct_reporters ≡ distinct_reporters (filtered r.phone_normalized reports)
    count : r.category_count ≡ tallied (filtered r.phone_normalized reports) r.category

  phone_rows-IsCounted : (phone : Text) → All IsCounted (phone_rows reports phone)
  unfolding phone_rows
  phone_rows-IsCounted phone = All-map _ IsCounted (by_category (filtered phone reports)) (
      All-of_mem _ _ (λ g m. record {
        reporters = refl;
        count =
            All-mem _ (by_category (filtered phone reports))
              (counted-by_category (filtered phone reports)) m;
      }))

  rows_of-IsCounted : (phones : List Text) → All IsCounted (rows_of reports phones)
  rows_of-IsCounted [] = tt
  rows_of-IsCounted (phone ∷ phones) =
      All-append IsCounted (phone_rows reports phone) (rows_of reports phones)
        (phone_rows-IsCounted phone) (rows_of-IsCounted phones)

  mem-rows_of :
      (phone : Text) (phones : List Text) (r : FlagRow)
      → Memᴰ phone phones
      → Memᴰ r (phone_rows reports phone)
      → Memᴰ r (rows_of reports phones)
  mem-rows_of phone [] r m h = absurd (Memᴰ.not-nil m)
  mem-rows_of phone (p ∷ phones) r (Memᴰ.head e) h = Memᴰ.append_left _ (rw e at h)
  mem-rows_of phone (p ∷ phones) r (Memᴰ.tail m) h =
      Memᴰ.append_right (phone_rows reports p) (mem-rows_of phone phones r m h)

known-filtered :
    (reports : List SpamReport) (phone : Text) (k : SpamReportCategory)
    → any (category_eq k) (categories (filtered phone reports)) ≡ true
    → any (text_eq phone) (known_phones reports) ≡ true
unfolding filtered known_phones
known-filtered [] phone k h = absurd (ground arith)
known-filtered (r ∷ reports) phone k h = elim (Option-cases r.phone_normalized) [
  | inl missing ↦ rw missing (known-filtered reports phone k (rw missing at h))
  | inr (p, found) ↦
      rw found
        (ground (arith, known-filtered reports phone k, text_eq_iff p phone, text_eq_iff phone p))
]

mem-flag_rows :
    (reports : List SpamReport) (phone : Text) (k : SpamReportCategory)
    → any (category_eq k) (categories (filtered phone reports)) ≡ true
    → (r : FlagRow) × Memᴰ r (flag_rows reports)
      × (r.phone_normalized ≡ phone)
      × (r.category_count ≡ tallied (filtered phone reports) k)
unfolding flag_rows phone_rows
mem-flag_rows reports phone k h =
    let key = (mem-distinct text_eq text_eq_iff phone (known_phones reports)).0 (
      mem-any text_eq text_eq_iff phone (known_phones reports)
        (known-filtered reports phone k h)) in
    let group = mem-by_category (filtered phone reports) k h in
    (_, mem-rows_of reports phone _ _ key (Memᴰ.map _ group), refl, refl)

-- What a flag says of the reports on its number.
pub record IsFlag (rows : List SpamReport) (f : SpamFlag) : Type 0 where
  pub reporters : f.distinct_reporters ≡ distinct_reporters rows
  pub top : (k : SpamReportCategory) → tallied rows k ≤ tallied rows f.top_category

lookup-map {ℓ κ} :
    {V : Type ℓ} {W : Type κ} (f : V → W) (key : Text) (m : List (Text × V))
    → lookup key (map (λ e. (e.0, f e.1)) m)
      ≡ elim (lookup key m) [ none ↦ none | some v ↦ some (f v) ]
unfolding lookup
lookup-map f key [] = refl
lookup-map f key ((k, v) ∷ m) = ground (arith, lookup-map f key m)

-- No key has two entries.
abbrev pub HasUniqueKeys {ℓ} : {V : Type ℓ} → List (Text × V) → Type 0
HasUniqueKeys {V} m = IsOrdered (λ (a b : Text × V). a.0 ≢ b.0) m

note_row-apart :
    (p : Text) (flags : List (Text × TopFlag)) (row : FlagRow)
    → p ≢ row.phone_normalized
    → All (λ e. p ≢ e.0) flags
    → All (λ e. p ≢ e.0) (note_row flags row)
unfolding note_row
note_row-apart p [] row ne h = (ne, tt)
note_row-apart p ((q, f) ∷ flags) row ne (h, hs) =
    elim (Bool-cases (text_eq q row.phone_normalized)) [
      | inl same ↦ rw same (h, hs)
      | inr other ↦ rw other (h, note_row-apart p flags row ne hs)
    ]

note_row-HasUniqueKeys :
    (flags : List (Text × TopFlag)) (row : FlagRow)
    → HasUniqueKeys flags
    → HasUniqueKeys (note_row flags row)
unfolding note_row
note_row-HasUniqueKeys [] row h = (tt, tt)
note_row-HasUniqueKeys ((q, f) ∷ flags) row (h, hs) =
    elim (Bool-cases (text_eq q row.phone_normalized)) [
      | inl same ↦ rw same (h, hs)
      | inr other ↦ rw other (
        note_row-apart q flags row (ground (arith, text_eq_iff q row.phone_normalized)) h,
        note_row-HasUniqueKeys flags row hs,
      )
    ]

note_rows-HasUniqueKeys :
    (flags : List (Text × TopFlag)) (rows : List FlagRow)
    → HasUniqueKeys flags
    → HasUniqueKeys (note_rows flags rows)
unfolding note_rows
note_rows-HasUniqueKeys flags [] h = h
note_rows-HasUniqueKeys flags (row ∷ rows) h =
    note_rows-HasUniqueKeys (note_row flags row) rows (note_row-HasUniqueKeys flags row h)

apart-map {ℓ κ} :
    {V : Type ℓ} {W : Type κ} (f : V → W) (p : Text) (m : List (Text × V))
    → All (λ (e : Text × V). p ≢ e.0) m
    → All (λ (e : Text × W). p ≢ e.0) (map (λ e. (e.0, f e.1)) m)
apart-map f p [] h = tt
apart-map f p (e ∷ m) (h, hs) = (h, apart-map f p m hs)

HasUniqueKeys-map {ℓ κ} :
    {V : Type ℓ} {W : Type κ} (f : V → W) (m : List (Text × V))
    → HasUniqueKeys m
    → HasUniqueKeys {V = W} (map (λ e. (e.0, f e.1)) m)
HasUniqueKeys-map f [] h = tt
HasUniqueKeys-map f (e ∷ m) (h, hs) = (apart-map f e.0 m h, HasUniqueKeys-map f m hs)

module _ (arrange : List FlagRow → List FlagRow)
    (rearranges : (rows : List FlagRow) → Permᴰ (arrange rows) rows)
    (reports : List SpamReport) where
  pub get_spam_flags-HasUniqueKeys : HasUniqueKeys (get_spam_flags arrange reports)
  unfolding get_spam_flags
  get_spam_flags-HasUniqueKeys =
      HasUniqueKeys-map spam_flag _ (note_rows-HasUniqueKeys [] (arrange (flag_rows reports)) tt)

  best : (key : Text) → Option TopFlag
  best key = lookup key (note_rows [] (arrange (flag_rows reports)))

  best-IsBest : (key : Text) → IsBest key (arrange (flag_rows reports)) none (best key)
  unfolding best lookup
  best-IsBest key = note_rows-IsBest key [] (arrange (flag_rows reports))

  arranged-IsCounted : All (IsCounted reports) (arrange (flag_rows reports))
  unfolding flag_rows
  arranged-IsCounted =
      All-perm (IsCounted reports) (Permᴰ.symm (rearranges (flag_rows reports)))
        (rows_of-IsCounted reports (distinct text_eq (known_phones reports)))

  -- A category with a report has a row, which the entry's count bounds.
  best-bound :
      (key : Text) (k : SpamReportCategory)
      → any (category_eq k) (categories (filtered key reports)) ≡ true
      → tallied (filtered key reports) k < level (best key)
  best-bound key k h =
      let (r, m, is, counted) = mem-flag_rows reports key k h in
      let place = Memᴰ-perm (Permᴰ.symm (rearranges (flag_rows reports))) m in
      let below = All-mem _ (arrange (flag_rows reports)) (best-IsBest key).bound place in
      let here : text_eq r.phone_normalized key ≡ true = rw is (text_eq_refl key) in
      omega (arith, below here, counted)

  best-IsFlag :
      (key : Text) (t : TopFlag) → best key ≡ some t → IsFlag (filtered key reports) (spam_flag t)
  best-IsFlag key t h = elim (best-IsBest key).from [
    | inl missing ↦ absurd (ground arith)
    | inr (r, m, is, found) ↦
        let counted =
          All-mem (IsCounted reports) (arrange (flag_rows reports)) arranged-IsCounted m in
        let here : r.phone_normalized ≡ key = (text_eq_iff r.phone_normalized key).0 is in
        let same : top_flag r ≡ t = ground arith in
        rw (← same) (record {
          reporters = rw here at counted.reporters;
          top = λ k. elim (Bool-cases (any (category_eq k) (categories (filtered key reports)))) [
            | inl present ↦
                let below = rw found at (best-bound key k present) in
                let size = rw here at counted.count in omega arith
            | inr absent ↦
                omega (arith, count-zero category_eq k (categories (filtered key reports)) absent)
          ];
        })
  ]

  lookup-get_spam_flags :
      (key : Text)
      → lookup key (get_spam_flags arrange reports)
        ≡ elim (best key) [ none ↦ none | some t ↦ some (spam_flag t) ]
  unfolding get_spam_flags best
  lookup-get_spam_flags key = lookup-map spam_flag key (note_rows [] (arrange (flag_rows reports)))

  -- The flag of a number has its count of different reporters, and a category with no fewer
  -- reports than any other.
  pub get_spam_flags-IsFlag :
      (key : Text) (f : SpamFlag)
      → lookup key (get_spam_flags arrange reports) ≡ some f
      → IsFlag (filtered key reports) f
  get_spam_flags-IsFlag key f h =
      let e = lookup-get_spam_flags key in
      elim (Option-cases (best key)) [
        | inl missing ↦ absurd (ground arith)
        | inr (t, found) ↦
            let same : spam_flag t ≡ f = ground arith in rw (← same) (best-IsFlag key t found)
      ]

  -- A number with a report has a flag.
  pub get_spam_flags_complete :
      (key : Text) (k : SpamReportCategory)
      → any (category_eq k) (categories (filtered key reports)) ≡ true
      → (f : SpamFlag) × (lookup key (get_spam_flags arrange reports) ≡ some f)
  get_spam_flags_complete key k h =
      let e = lookup-get_spam_flags key in
      elim (Option-cases (best key)) [
        | inl missing ↦ absurd (omega (arith, rw missing at (best-bound key k h)))
        | inr (t, found) ↦ (spam_flag t, ground arith)
      ]

-- What holds of every number that a report names holds of every key.
module _ (P : Text → Type 0) where
  note_row-All :
      (flags : List (Text × TopFlag)) (row : FlagRow)
      → P row.phone_normalized
      → All (λ e. P e.0) flags
      → All (λ e. P e.0) (note_row flags row)
  unfolding note_row
  note_row-All [] row p h = (p, tt)
  note_row-All ((q, f) ∷ flags) row p (h, hs) = elim (Bool-cases (text_eq q row.phone_normalized)) [
    | inl same ↦ rw same (h, hs)
    | inr other ↦ rw other (h, note_row-All flags row p hs)
  ]

  note_rows-All :
      (flags : List (Text × TopFlag)) (rows : List FlagRow)
      → All (λ r. P r.phone_normalized) rows
      → All (λ e. P e.0) flags
      → All (λ e. P e.0) (note_rows flags rows)
  unfolding note_rows
  note_rows-All flags [] ps h = h
  note_rows-All flags (row ∷ rows) (p, ps) h =
      note_rows-All (note_row flags row) rows ps (note_row-All flags row p h)

  rows_of-All :
      (reports : List SpamReport) (phones : List Text)
      → All P phones
      → All (λ r. P r.phone_normalized) (rows_of reports phones)
  unfolding phone_rows
  rows_of-All reports [] h = tt
  rows_of-All reports (phone ∷ phones) (h, hs) =
      All-append _ (phone_rows reports phone) (rows_of reports phones)
        (All-map _ _ (by_category (filtered phone reports)) (All-of_mem _ _ (λ g m. h)))
        (rows_of-All reports phones hs)

  pub get_spam_flags-All :
      (arrange : List FlagRow → List FlagRow)
      → ((rows : List FlagRow) → Permᴰ (arrange rows) rows)
      → (reports : List SpamReport) → All P (known_phones reports)
      → All (λ e. P e.0) (get_spam_flags arrange reports)
  unfolding get_spam_flags flag_rows
  get_spam_flags-All arrange rearranges reports h =
      let phones = distinct text_eq (known_phones reports) in
      let keys = All-of_mem P phones (λ q m.
        All-mem P (known_phones reports) h
          ((mem-distinct text_eq text_eq_iff q (known_phones reports)).1 m)) in
      All-map _ _ (note_rows [] (arrange (rows_of reports phones))) (
        note_rows-All [] (arrange (rows_of reports phones))
          (All-perm _ (Permᴰ.symm (rearranges (rows_of reports phones)))
            (rows_of-All reports phones keys))
          tt)

-- An entry of a map with unique keys is what the map has for its key.
pub lookup-mem {ℓ} :
    {V : Type ℓ} (key : Text) (v : V) (entries : List (Text × V))
    → HasUniqueKeys entries
    → Memᴰ (key, v) entries
    → lookup key entries ≡ some v
unfolding lookup
lookup-mem key v [] u m = absurd (Memᴰ.not-nil m)
lookup-mem key v ((k, w) ∷ entries) (h, hs) (Memᴰ.head e) = ground (arith, text_eq_iff k key)
lookup-mem key v ((k, w) ∷ entries) (h, hs) (Memᴰ.tail m) =
    let other = All-mem _ entries h m in
    ground (arith, text_eq_iff k key, lookup-mem key v entries hs m)
