-- ===== src/Directory/Entries.antt =====
-- The labelled entries: what is exported, and in which order.
use mathlib.Core.List.{Memᴰ}
use mathlib.Core.List.Permᴰ
use mathlib.Core.List.Memᴰ
use vn_phone_dp.Prelude.{
  ◌≡◌, ◌≢◌, ◌↔◌, ap, subst, true, false, refl, not, List, [], ◌∷◌, ◌++◌, map, arith, Text, text_eq,
  text_eq_iff, includes, filter, ltb, Bool-cases, inl, inr,
}
use vn_phone_dp.Prelude.Groups.{any-mem, mem-any}
use vn_phone_dp.Prelude.Members.{mem-filter, mem-of_filter}
use vn_phone_dp.Prelude.Sorting.{sort_by-perm, Memᴰ-perm}
use vn_phone_dp.Schema.{SpamReport, LabelSuppression, PhoneIdentity}
use vn_phone_dp.Suppression.{get_suppressed_set}
use vn_phone_dp.Phone.{normalize_vietnam_phone}
use vn_phone_dp.Directory.{
  CallDirectoryEntry, FlagRow, SpamFlag, Tables, big_int, is_visible, known_entries,
  flagged_entries, spam_label, is_callable, identity_rows, get_spam_flags,
  get_call_directory_entries, entry, label_of, lookup,
}

-- No suppression is for the number of the entry.
abbrev pub IsUnsuppressed : List LabelSuppression → CallDirectoryEntry → Type 0
IsUnsuppressed suppressions e =
    (s : LabelSuppression) → Memᴰ s suppressions → s.phone_normalized ≢ b'+' ∷ e.phone_digits

visible_iff :
    (suppressions : List LabelSuppression) (e : CallDirectoryEntry)
    → (is_visible (get_suppressed_set suppressions) e ≡ true) ↔ IsUnsuppressed suppressions e
unfolding is_visible get_suppressed_set
visible_iff suppressions e =
    let phones = map (λ (s : LabelSuppression). s.phone_normalized) suppressions in
    let number = b'+' ∷ e.phone_digits in
    (
      λ visible s m same.
          let listed = any-mem text_eq text_eq_iff number phones (
            subst (λ p. Memᴰ p phones) same
              (Memᴰ.map (λ (x : LabelSuppression). x.phone_normalized) m)) in
          absurd (ground (arith, listed, visible)),
      λ free. elim (Bool-cases (includes phones number)) [
        | inl listed ↦
            let found =
              Memᴰ.of_map (λ (x : LabelSuppression). x.phone_normalized) suppressions
                (mem-any text_eq text_eq_iff number phones listed) in
            absurd (free found.0 found.1 found.2)
        | inr hidden ↦ ap not hidden
      ],
    )

flagged_entries-mem :
    (seen : List Text) (flags : List (Text × SpamFlag)) (phone : Text) (flag : SpamFlag)
    → Memᴰ (phone, flag) flags
    → includes seen phone ≡ false
    → is_callable (normalize_vietnam_phone phone).type ≡ true
    → Memᴰ (entry phone (spam_label flag)) (flagged_entries seen flags)
unfolding flagged_entries
flagged_entries-mem seen [] phone flag m unseen callable = absurd (Memᴰ.not-nil m)
flagged_entries-mem seen ((q, g) ∷ flags) phone flag (Memᴰ.head e) unseen callable =
    let here = ap (λ (x : Text × SpamFlag). x.0) e in
    let unseen' = subst (λ p. includes seen p ≡ false) here unseen in
    let callable' =
      subst (λ p. is_callable (normalize_vietnam_phone p).type ≡ true) here callable in
    rw (unseen', callable')
      (Memᴰ.head (ap (λ (x : Text × SpamFlag). entry (x.0) (spam_label (x.1))) e))
flagged_entries-mem seen ((q, g) ∷ flags) phone flag (Memᴰ.tail m) unseen callable =
    let rest = flagged_entries-mem seen flags phone flag m unseen callable in
    elim (Bool-cases (includes seen q)) [
      | inl old ↦ rw old rest
      | inr new ↦ elim (Bool-cases (is_callable (normalize_vietnam_phone q).type)) [
        | inl called ↦ rw (new, called) (Memᴰ.tail rest)
        | inr other ↦ rw (new, other) rest
      ]
    ]

-- Where the entries of the flags come from.
pub mem-flagged_entries :
    (seen : List Text) (flags : List (Text × SpamFlag)) (e : CallDirectoryEntry)
    → Memᴰ e (flagged_entries seen flags)
    → (phone : Text) × (flag : SpamFlag) × Memᴰ (phone, flag) flags
      × (includes seen phone ≡ false)
      × (is_callable (normalize_vietnam_phone phone).type ≡ true)
      × (e ≡ entry phone (spam_label flag))
unfolding flagged_entries
mem-flagged_entries seen [] e m = absurd (Memᴰ.not-nil m)
mem-flagged_entries seen ((q, g) ∷ flags) e m =
    let later : Memᴰ e (flagged_entries seen flags)
        → (phone : Text) × (flag : SpamFlag) × Memᴰ (phone, flag) ((q, g) ∷ flags)
          × (includes seen phone ≡ false)
          × (is_callable (normalize_vietnam_phone phone).type ≡ true)
          × (e ≡ entry phone (spam_label flag)) =
      λ n.
        let (phone, flag, place, unseen, called, same) = mem-flagged_entries seen flags e n in
        (phone, flag, Memᴰ.tail place, unseen, called, same) in
    elim (Bool-cases (includes seen q)) [
      | inl old ↦ later (rw old at m)
      | inr new ↦ elim (Bool-cases (is_callable (normalize_vietnam_phone q).type)) [
        | inl called ↦ elim (Memᴰ.cases_cons (rw (new, called) at m)) [
          | inl e' ↦ (q, g, Memᴰ.head refl, new, called, e')
          | inr n ↦ later n
        ]
        | inr other ↦ later (rw (new, other) at m)
      ]
    ]

module _ (arrange_identities : List PhoneIdentity → List PhoneIdentity)
    (arrange : List FlagRow → List FlagRow) (t : Tables) (reports : List SpamReport)
    (suppressions : List LabelSuppression) where
  abbrev rows : List (Text × Text)
  rows = identity_rows arrange_identities t t.phone_numbers

  abbrev flags : List (Text × SpamFlag)
  flags = get_spam_flags arrange reports

  abbrev pub exported : List CallDirectoryEntry
  exported = get_call_directory_entries arrange_identities arrange t reports suppressions

  pub exported-mem :
      (e : CallDirectoryEntry)
      → Memᴰ e exported ↔ (
          Memᴰ e (known_entries flags rows ++ flagged_entries (map (λ r. r.0) rows) flags)
          × IsUnsuppressed suppressions e)
  unfolding get_call_directory_entries
  exported-mem e =
      let all_entries = known_entries flags rows ++ flagged_entries (map (λ r. r.0) rows) flags in
      let same =
        sort_by-perm
          (λ (a b : CallDirectoryEntry). ltb (big_int a.phone_digits) (big_int b.phone_digits))
          (filter (is_visible (get_suppressed_set suppressions)) all_entries) in
      (
        λ m.
            let kept = mem-of_filter _ all_entries (Memᴰ-perm same m) in
            (kept.0, (visible_iff suppressions e).0 kept.1),
        λ h.
            Memᴰ-perm (Permᴰ.symm same)
              (mem-filter _ all_entries h.0 ((visible_iff suppressions e).1 h.1)),
      )

  -- A number of the identity query that is not suppressed has an entry with its label.
  pub exported-row :
      (phone name : Text)
      → Memᴰ (phone, name) (identity_rows arrange_identities t t.phone_numbers)
      → IsUnsuppressed suppressions (entry phone name)
      → Memᴰ (entry phone (label_of (lookup phone (get_spam_flags arrange reports)) name)) exported
  unfolding known_entries
  exported-row phone name m free = (exported-mem _).1 (
    Memᴰ.append_left _
        (Memᴰ.map (λ (r : Text × Text). entry r.0 (label_of (lookup r.0 flags) r.1)) m),
    free,
  )

  -- A reported number that can call, that is not suppressed and that the query has no row for, has
  -- an entry with the warning.
  pub exported-flag :
      (phone : Text) (flag : SpamFlag)
      → Memᴰ (phone, flag) (get_spam_flags arrange reports)
      → includes (map (λ r. r.0) (identity_rows arrange_identities t t.phone_numbers)) phone ≡ false
      → is_callable (normalize_vietnam_phone phone).type ≡ true
      → IsUnsuppressed suppressions (entry phone [])
      → Memᴰ (entry phone (spam_label flag)) exported
  exported-flag phone flag m unseen callable free = (exported-mem _).1 (
    Memᴰ.append_right (known_entries flags rows)
        (flagged_entries-mem (map (λ r. r.0) rows) flags phone flag m unseen callable),
    free,
  )
