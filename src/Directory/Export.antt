-- ===== src/Directory/Export.antt =====
-- The order and the contents of the export for the call directory.
use mathlib.Core.List.{Permᴰ, Memᴰ}
use mathlib.Core.List.Memᴰ
use vn_phone_dp.Prelude.{
  ◌≡◌, ◌≢◌, ◌≤◌, ◌⊎◌, ◌∙◌, sym, refl, ap, subst, true, false, List, [], ◌∷◌, ◌++◌, map, Text,
  text_eq, text_eq_iff, includes, All, arith, Bool-cases, inl, inr,
}
use vn_phone_dp.Prelude.Groups.{any-mem, mem-any}
use vn_phone_dp.Prelude.Sorting.{IsOrdered, All-mem, All-of_mem}
use vn_phone_dp.Prelude.Members.{mem-of_append, IsOrdered-map, IsOrdered-append, IsOrdered-filter}
use vn_phone_dp.Phone.{digits_only, normalize_vietnam_phone}
use vn_phone_dp.Schema.{SpamReport, LabelSuppression, PhoneIdentity, PhoneNumber}
use vn_phone_dp.Spam.{filtered, distinct_reporters}
use vn_phone_dp.Suppression.{get_suppressed_set}
use vn_phone_dp.Directory.{
  CallDirectoryEntry, FlagRow, SpamFlag, Tables, big_int, is_visible, is_callable, known_phones,
  known_entries, flagged_entries, identity_rows, get_spam_flags, get_call_directory_entries, entry,
  label_of, lookup, spam_label,
}
use vn_phone_dp.Directory.Rows.{mem-lookup}
use vn_phone_dp.Directory.Flags.{
  HasUniqueKeys, get_spam_flags-HasUniqueKeys, get_spam_flags-All, get_spam_flags-IsFlag,
}
use vn_phone_dp.Directory.Order.{IsAscending, sort_by-IsAscending}
use vn_phone_dp.Directory.Stored.{IsStored, IsE164, IsStored-E164}
use vn_phone_dp.Directory.Blocked.{big_int-apart}
use vn_phone_dp.Directory.Identity.{identity_rows-apart, mem-identity_rows}
use vn_phone_dp.Directory.Labels.{
  IsLabel, IsWarning, label_of-IsLabel, flag-reported, known-flag, spam_label-IsWarning,
}
use vn_phone_dp.Directory.Entries.{
  IsUnsuppressed, exported-mem, exported-row, exported-flag, mem-flagged_entries,
}

-- The values of two entries differ.
abbrev Differ : CallDirectoryEntry → CallDirectoryEntry → Type 0
Differ a b = big_int a.phone_digits ≢ big_int b.phone_digits

rows-apart :
    (rows : List (Text × Text))
    → IsOrdered (λ (a b : Text × Text). a.0 ≢ b.0) rows
    → ((r : Text × Text) → Memᴰ r rows → IsE164 r.0)
    → IsOrdered (λ (a b : Text × Text). big_int (digits_only a.0) ≢ big_int (digits_only b.0)) rows
rows-apart [] h st = tt
rows-apart (r ∷ rows) (h, hs) st = (
  All-of_mem _ rows (λ s m.
      big_int-apart r.0 s.0 (st r (Memᴰ.head refl)) (st s (Memᴰ.tail m)) (All-mem _ rows h m)),
  rows-apart rows hs (λ s m. st s (Memᴰ.tail m)),
)

known_entries-apart :
    (flags : List (Text × SpamFlag)) (rows : List (Text × Text))
    → IsOrdered (λ (a b : Text × Text). a.0 ≢ b.0) rows
    → ((r : Text × Text) → Memᴰ r rows → IsE164 r.0)
    → IsOrdered Differ (known_entries flags rows)
unfolding known_entries
known_entries-apart flags rows h st =
    IsOrdered-map (λ (r : Text × Text). entry r.0 (label_of (lookup r.0 flags) r.1)) Differ rows
      (rows-apart rows h st)

flagged_entries-apart :
    (seen : List Text) (flags : List (Text × SpamFlag))
    → HasUniqueKeys flags
    → All (λ e. IsStored e.0) flags
    → IsOrdered Differ (flagged_entries seen flags)
unfolding flagged_entries
flagged_entries-apart seen [] u st = tt
flagged_entries-apart seen ((p, f) ∷ flags) (h, hs) (s, st) =
    let later = flagged_entries-apart seen flags hs st in
    elim (Bool-cases (includes seen p)) [
      | inl old ↦ rw old later
      | inr new ↦ elim (Bool-cases (is_callable (normalize_vietnam_phone p).type)) [
        | inr other ↦ rw (new, other) later
        | inl called ↦
            rw (new, called)
              (
                All-of_mem (Differ (entry p (spam_label f))) (flagged_entries seen flags) (λ e m.
                    let (q, g, place, unseen, called', same) = mem-flagged_entries seen flags e m in
                    let apart = All-mem (λ (x : Text × SpamFlag). p ≢ x.0) flags h place in
                    let stored = All-mem (λ (x : Text × SpamFlag). IsStored x.0) flags st place in
                    rw same (
                      big_int-apart p q (IsStored-E164 p s called) (IsStored-E164 q stored called')
                        apart)),
                later,
              )
      ]
    ]

seen-apart :
    (rows : List (Text × Text)) (q : Text)
    → includes (map (λ (r : Text × Text). r.0) rows) q ≡ false
    → (r : Text × Text) → Memᴰ r rows
    → r.0 ≢ q
seen-apart rows q unseen r m e =
    let phones = map (λ (x : Text × Text). x.0) rows in
    let seen =
      any-mem text_eq text_eq_iff q phones
        (subst (λ p. Memᴰ p phones) e (Memᴰ.map (λ (x : Text × Text). x.0) m)) in
    absurd (ground (arith, seen, unseen))

unseen-apart :
    (rows : List (Text × Text)) (q : Text)
    → ((r : Text × Text) → Memᴰ r rows → r.0 ≢ q)
    → includes (map (λ (r : Text × Text). r.0) rows) q ≡ false
unseen-apart rows q h = elim (Bool-cases (includes (map (λ (r : Text × Text). r.0) rows) q)) [
  | inl seen ↦
      let (r, m, e) =
        Memᴰ.of_map (λ (x : Text × Text). x.0) rows (mem-any text_eq text_eq_iff q _ seen) in
      absurd (h r m e)
  | inr new ↦ new
]

mem-known_entries :
    (flags : List (Text × SpamFlag)) (rows : List (Text × Text)) (e : CallDirectoryEntry)
    → Memᴰ e (known_entries flags rows)
    → (r : Text × Text) × Memᴰ r rows × (digits_only r.0 ≡ e.phone_digits)
unfolding known_entries
mem-known_entries flags rows e m =
    let (r, place, same) = Memᴰ.of_map _ rows m in
    (r, place, ap (λ (x : CallDirectoryEntry). x.phone_digits) same)

-- The entry is for a callable number of the table, or for a callable number that somebody reported.
abbrev pub IsCallable : Tables → List SpamReport → CallDirectoryEntry → Type 0
IsCallable t reports e =
    ((pn : PhoneNumber) × Memᴰ pn t.phone_numbers
      × (is_callable pn.phone_type ≡ true)
      × (digits_only pn.phone_e164 ≡ e.phone_digits))
    ⊎ ((phone : Text) × (1 ≤ distinct_reporters (filtered phone reports))
        × (is_callable (normalize_vietnam_phone phone).type ≡ true)
        × (digits_only phone ≡ e.phone_digits))

module _ (arrange_identities : List PhoneIdentity → List PhoneIdentity)
    (arrange : List FlagRow → List FlagRow)
    (rearranges : (rows : List FlagRow) → Permᴰ (arrange rows) rows) (t : Tables)
    (reports : List SpamReport) (suppressions : List LabelSuppression) where
  abbrev rows : List (Text × Text)
  rows = identity_rows arrange_identities t t.phone_numbers

  abbrev flags : List (Text × SpamFlag)
  flags = get_spam_flags arrange reports

  abbrev seen : List Text
  seen = map (λ r. r.0) rows

  entries-apart :
      ((r : Text × Text) → Memᴰ r rows → IsE164 r.0)
      → All IsStored (known_phones reports)
      → IsOrdered Differ (known_entries flags rows ++ flagged_entries seen flags)
  entries-apart st stored =
      let keys = get_spam_flags-All IsStored arrange rearranges reports stored in
      IsOrdered-append Differ (known_entries flags rows) (flagged_entries seen flags)
        (known_entries-apart flags rows (identity_rows-apart t arrange_identities t.phone_numbers)
          st)
        (flagged_entries-apart seen flags (get_spam_flags-HasUniqueKeys arrange rearranges reports)
          keys)
        (λ a b m n.
          let (r, place, here) = mem-known_entries flags rows a m in
          let (q, g, place', unseen, called, same) = mem-flagged_entries seen flags b n in
          let e164 =
            IsStored-E164 q (All-mem (λ (x : Text × SpamFlag). IsStored x.0) flags keys place')
              called in
          let apart = seen-apart rows q unseen r place in
          rw (← here, same) (big_int-apart r.0 q (st r place) e164 apart))

  get_call_directory_entries-IsAscending :
      ((pn : PhoneNumber)
        → Memᴰ pn t.phone_numbers
        → is_callable pn.phone_type ≡ true
        → IsE164 pn.phone_e164)
      → All IsStored (known_phones reports)
      → IsAscending
          (λ e. e.phone_digits)
          (get_call_directory_entries arrange_identities arrange t reports suppressions)
  unfolding get_call_directory_entries
  get_call_directory_entries-IsAscending numbers stored =
      sort_by-IsAscending (λ (e : CallDirectoryEntry). e.phone_digits) _
        (IsOrdered-filter Differ (is_visible (get_suppressed_set suppressions)) _ (
          entries-apart
            (λ r m.
              let (pn, place, called, e) =
                mem-identity_rows t arrange_identities t.phone_numbers r m in
              subst IsE164 e (numbers pn place called))
            stored))

  exported-IsCallable :
      (e : CallDirectoryEntry)
      → Memᴰ e (known_entries flags rows ++ flagged_entries seen flags)
        × IsUnsuppressed suppressions e
      → IsUnsuppressed suppressions e × IsCallable t reports e
  exported-IsCallable e (m, free) = (
    free,
    elim (mem-of_append (known_entries flags rows) (flagged_entries seen flags) m) [
      | inl known ↦
          let (r, place, here) = mem-known_entries flags rows e known in
          let (pn, row, called, same) =
            mem-identity_rows t arrange_identities t.phone_numbers r place in
          inl (pn, row, called, ap digits_only same ∙ here)
      | inr flagged ↦
          let (phone, flag, place, unseen, called, same) =
            mem-flagged_entries seen flags e flagged in
          inr (
            phone,
            flag-reported arrange rearranges reports phone flag place,
            called,
            ap (λ (x : CallDirectoryEntry). x.phone_digits) (sym same),
          )
    ],
  )

  -- Where the callable numbers of the table are "+84" and digits, and the reports hold numbers that
  -- the normaliser gave out: the exported entries are in strictly ascending numeric order, as a full
  -- reload requires. None is for a suppressed number, and each is for a mobile or landline number of
  -- the table or of a report. Each number of the identity query that is
  -- not suppressed has an entry: its label is the name without reports, the name after a warning
  -- sign with fewer than ten different reporters, and the warning from ten on. Each reported number
  -- that can call, that the query does not have and that is not suppressed has an entry with the
  -- warning.
  pub get_call_directory_entries-accepted :
      ((pn : PhoneNumber)
        → Memᴰ pn t.phone_numbers
        → is_callable pn.phone_type ≡ true
        → IsE164 pn.phone_e164)
      → All IsStored (known_phones reports)
      → let list = get_call_directory_entries arrange_identities arrange t reports suppressions in
        IsAscending (λ e. e.phone_digits) list
        × ((e : CallDirectoryEntry)
            → Memᴰ e list
            → IsUnsuppressed suppressions e × IsCallable t reports e)
        × ((phone name : Text)
            → Memᴰ (phone, name) (identity_rows arrange_identities t t.phone_numbers)
            → IsUnsuppressed suppressions (entry phone name)
            → (label : Text) × Memᴰ (entry phone label) list
              × IsLabel (filtered phone reports) name label)
        × ((phone : Text)
            → Memᴰ phone (known_phones reports)
            → is_callable (normalize_vietnam_phone phone).type ≡ true
            → ((r : Text × Text)
                → Memᴰ r (identity_rows arrange_identities t t.phone_numbers)
                → r.0 ≢ phone)
            → IsUnsuppressed suppressions (entry phone [])
            → (label : Text) × Memᴰ (entry phone label) list
              × IsWarning (filtered phone reports) label)
  get_call_directory_entries-accepted numbers stored = (
    get_call_directory_entries-IsAscending numbers stored,
    λ e m.
        exported-IsCallable e
          ((exported-mem arrange_identities arrange t reports suppressions e).0 m),
    λ phone name m free. (
      label_of (lookup phone flags) name,
      exported-row arrange_identities arrange t reports suppressions phone name m free,
      label_of-IsLabel arrange rearranges reports phone name,
    ),
    λ phone m called apart free.
        let (f, found) = known-flag arrange rearranges reports phone m in
        (
          spam_label f,
          exported-flag arrange_identities arrange t reports suppressions phone f
              (mem-lookup phone flags f found) (unseen-apart rows phone apart) called free,
          spam_label-IsWarning (filtered phone reports) f
              (get_spam_flags-IsFlag arrange rearranges reports phone f found),
        ),
  )
