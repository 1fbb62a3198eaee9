-- ===== src/Directory/Labels.antt =====
-- What the label of an exported number says, by its reports.
use mathlib.Core.List.{Permᴰ, Memᴰ}
use mathlib.Core.List.Memᴰ
use vn_phone_dp.Prelude.{
  ◌≡◌, ◌≢◌, ◌⊎◌, ◌∙◌, leb, text_eq, ◌≤◌, ◌<◌, refl, sym, ap, false, none, some, List, [], ◌∷◌, ◌++◌,
  map, Text, codes, arith, Bool-cases, Option-cases, inl, inr, text_eq_refl,
}
use vn_phone_dp.Prelude.Groups.{distinct, length-distinct-pos}
use vn_phone_dp.Prelude.Sorting.{All-mem, All-of_mem}
use vn_phone_dp.Prelude.Members.{mem-filter}
use vn_phone_dp.Schema.{SpamReport, SpamReportCategory}
use vn_phone_dp.Spam.{filtered, distinct_reporters, reporter_key}
use vn_phone_dp.Spam.Summary.{tallied, category_eq_iff}
use vn_phone_dp.Directory.{
  FlagRow, SpamFlag, is_scam, best_label, spam_label, label_of, lookup, decimal, known_phones,
  get_spam_flags,
}
use vn_phone_dp.Directory.Blocked.{is_scam_iff}
use vn_phone_dp.Directory.Rows.{mem-lookup}
use vn_phone_dp.Directory.Flags.{
  get_spam_flags-IsFlag, get_spam_flags_complete, get_spam_flags-All, IsFlag,
}

-- The text of a warning: "LỪA ĐẢO" where the top category is SCAM, one with no fewer reports than any
-- other, else "SPAM"; and the number of different reporters.
pub record IsWarning (rows : List SpamReport) (label : Text) : Type 0 where
  pub top : SpamReportCategory
  pub most : (k : SpamReportCategory) → tallied rows k ≤ tallied rows top
  pub scam :
      top ≡ SpamReportCategory.scam
      → label
        ≡ 0x26a0 ∷ 0xfe0f ∷ codes " Nghi ngờ LỪA ĐẢO ("
          ++ (decimal (distinct_reporters rows) ++ codes " báo cáo)")
  pub spam :
      top ≢ SpamReportCategory.scam
      → label
        ≡ 0x26a0 ∷ 0xfe0f ∷ codes " Nghi ngờ SPAM ("
          ++ (decimal (distinct_reporters rows) ++ codes " báo cáo)")

-- The label of a number with an identity of this name and these reports.
pub data IsLabel (rows : List SpamReport) (name label : Text) : Type 0 where
  unreported : rows ≡ [] → label ≡ best_label name → IsLabel rows name label
  marked :
      1 ≤ distinct_reporters rows
      → distinct_reporters rows < 10
      → label ≡ 0x26a0 ∷ 0xfe0f ∷ 0x20 ∷ best_label name
      → IsLabel rows name label
  warned : 10 ≤ distinct_reporters rows → IsWarning rows label → IsLabel rows name label

pub spam_label-IsWarning :
    (rows : List SpamReport) (f : SpamFlag) → IsFlag rows f → IsWarning rows (spam_label f)
unfolding spam_label is_scam
spam_label-IsWarning rows f is = record {
  top = f.top_category;
  most = is.top;
  scam = λ e. rw (is.reporters, e) refl;
  spam = λ other.
      let not_scam : is_scam f.top_category ≡ false = elim (Bool-cases (is_scam f.top_category)) [
        | inl same ↦ absurd (other ((is_scam_iff f.top_category).0 same))
        | inr differ ↦ differ
      ] in
      rw (is.reporters, not_scam) refl;
}

reporters-pos :
    (rows : List SpamReport) (r : SpamReport) → Memᴰ r rows → 1 ≤ distinct_reporters rows
unfolding distinct_reporters
reporters-pos [] r m = absurd (Memᴰ.not-nil m)
reporters-pos (s ∷ rows) r m =
    length-distinct-pos text_eq (reporter_key s) (map (λ r. reporter_key r) rows)

-- A number that a report names has a report among those of the number.
mem-known_phones :
    (p : Text) (reports : List SpamReport)
    → Memᴰ p (known_phones reports)
    → (r : SpamReport) × Memᴰ r reports × (r.phone_normalized ≡ some p)
unfolding known_phones
mem-known_phones p [] m = absurd (Memᴰ.not-nil m)
mem-known_phones p (r ∷ reports) m =
    let later : Memᴰ p (known_phones reports)
        → (s : SpamReport) × Memᴰ s (r ∷ reports) × (s.phone_normalized ≡ some p) =
      λ n. let (s, place, e) = mem-known_phones p reports n in (s, Memᴰ.tail place, e) in
    elim (Option-cases r.phone_normalized) [
      | inl missing ↦ later (rw missing at m)
      | inr (q, found) ↦ elim (Memᴰ.cases_cons (rw found at m)) [
        | inl e ↦ (r, Memᴰ.head refl, found ∙ ap some (sym e))
        | inr n ↦ later n
      ]
    ]

known-reported :
    (p : Text) (reports : List SpamReport)
    → Memᴰ p (known_phones reports)
    → 1 ≤ distinct_reporters (filtered p reports)
unfolding filtered
known-reported p reports m =
    let (r, place, e) = mem-known_phones p reports m in
    reporters-pos _ r (mem-filter _ reports place (rw e (text_eq_refl p)))

List-cases {ℓ} :
    {A : Type ℓ} (xs : List A) → (xs ≡ []) ⊎ ((x : A) × (rest : List A) × (xs ≡ x ∷ rest))
List-cases [] = inl refl
List-cases (x ∷ xs) = inr (x, xs, refl)

module _ (arrange : List FlagRow → List FlagRow)
    (rearranges : (rows : List FlagRow) → Permᴰ (arrange rows) rows)
    (reports : List SpamReport) where
  pub flag-reported :
      (phone : Text) (flag : SpamFlag)
      → Memᴰ (phone, flag) (get_spam_flags arrange reports)
      → 1 ≤ distinct_reporters (filtered phone reports)
  flag-reported phone flag m =
      All-mem (λ (e : Text × SpamFlag). 1 ≤ distinct_reporters (filtered e.0 reports)) _
        (get_spam_flags-All (λ p. 1 ≤ distinct_reporters (filtered p reports)) arrange rearranges
          reports (All-of_mem _ (known_phones reports) (λ p n. known-reported p reports n)))
        m

  pub reported-flag :
      (phone : Text) (r : SpamReport) (rest : List SpamReport)
      → filtered phone reports ≡ r ∷ rest
      → (f : SpamFlag) × (lookup phone (get_spam_flags arrange reports) ≡ some f)
  reported-flag phone r rest e =
      get_spam_flags_complete arrange rearranges reports phone r.category
        (rw e (ground (arith, (category_eq_iff r.category r.category).1 refl)))

  no_reports :
      (phone : Text)
      → lookup phone (get_spam_flags arrange reports) ≡ none
      → filtered phone reports ≡ []
  no_reports phone missing = elim (List-cases (filtered phone reports)) [
    | inl nil ↦ nil
    | inr (r, rest, e) ↦
        let (f, found) = reported-flag phone r rest e in absurd (ground (arith, missing, found))
  ]

  pub label_of-IsLabel :
      (phone name : Text)
      → IsLabel
          (filtered phone reports)
          name
          (label_of (lookup phone (get_spam_flags arrange reports)) name)
  unfolding label_of
  label_of-IsLabel phone name =
      elim (Option-cases (lookup phone (get_spam_flags arrange reports))) [
        | inl missing ↦ rw missing (IsLabel.unreported (no_reports phone missing) refl)
        | inr (f, found) ↦
            let is = get_spam_flags-IsFlag arrange rearranges reports phone f found in
            let some' = flag-reported phone f (mem-lookup phone _ f found) in
            elim (Bool-cases (leb 10 f.distinct_reporters)) [
              | inl many ↦
                  rw (found, many)
                    (IsLabel.warned (ground (arith, is.reporters))
                      (spam_label-IsWarning (filtered phone reports) f is))
              | inr few ↦ rw (found, few) (IsLabel.marked some' (ground (arith, is.reporters)) refl)
            ]
      ]

  -- A number that a report names has a flag.
  pub known-flag :
      (phone : Text)
      → Memᴰ phone (known_phones reports)
      → (f : SpamFlag) × (lookup phone (get_spam_flags arrange reports) ≡ some f)
  unfolding distinct_reporters distinct
  known-flag phone m = elim (List-cases (filtered phone reports)) [
    | inl nil ↦ absurd (omega (arith, rw nil at (known-reported phone reports m)))
    | inr (r, rest, e) ↦ reported-flag phone r rest e
  ]
