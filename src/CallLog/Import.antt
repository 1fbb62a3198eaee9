-- ===== src/CallLog/Import.antt =====
-- What an import stores, and what its results say of the list of unknown numbers.
use mathlib.Core.List.{Permᴰ, Memᴰ, append_assoc, append-nil, map-append, map-map}
use vn_phone_dp.Phone.{normalize_vietnam_phone}
use mathlib.Core.List.Permᴰ
use mathlib.Core.List.Memᴰ
use vn_phone_dp.Prelude.{
  ℕ, zero, suc, pos, negsuc, ◌≡◌, ◌≤◌, ◌<◌, ◌∙◌, sym, none, ◌↔◌, refl, ap, subst, false, Option,
  some, List, [], ◌∷◌, ◌++◌, map, arith, Text, length, All, is_some,
}
use vn_phone_dp.Prelude.Sorting.{Memᴰ-perm}
use vn_phone_dp.Schema.{Day, Timestamp, PersonalCallLog, PhoneIdentity}
use vn_phone_dp.Directory.{highest}
use vn_phone_dp.CallLog.{
  Orders, Identities, CallLogImportEntry, CallLogImportResult, JsonNumber, integer_column,
  add_result, call_count_of, log_row, import_result, import_call_log_entries, identities_of,
  best_identity, name_of, get_unknown_numbers,
}
use vn_phone_dp.CallLog.Summary.{IsOrders}
use vn_phone_dp.CallLog.Unknown.{listed, logged, get_unknown_numbers-mem}

-- A result for a number says `known` exactly when the number is not in a list of unknown numbers.
abbrev pub IsTold : List (Option Text) → CallLogImportResult → Type 0
IsTold unknown r =
    (phone : Text) → r.phone_normalized ≡ some phone → (r.known ≡ false) ↔ Memᴰ (some phone) unknown

-- The calls that an entry counts for: one without a count or with one that is not positive, and else
-- its count, a whole number that an INTEGER holds.
pub data IsCounted : Option JsonNumber → ℕ → Type 0 where
  missing : IsCounted none 1
  zero_calls : IsCounted (some (JsonNumber.whole (pos 0))) 1
  negative : (n : ℕ) → IsCounted (some (JsonNumber.whole (negsuc n))) 1
  negative_fraction : (n : ℕ) → IsCounted (some (JsonNumber.fraction_above (negsuc n))) 1
  positive : (n : ℕ) → 1 ≤ n → n ≤ 2147483647 → IsCounted (some (JsonNumber.whole (pos n))) n

-- A count that an INTEGER does not hold.
pub data IsRefused : Option JsonNumber → Type 0 where
  too_large : (n : ℕ) → 2147483647 < n → IsRefused (some (JsonNumber.whole (pos n)))
  positive_fraction : (n : ℕ) → IsRefused (some (JsonNumber.fraction_above (pos n)))

pub data AreCounted : List CallLogImportEntry → List ℕ → Type 0 where
  nothing : AreCounted [] []
  next :
      {e : CallLogImportEntry} {entries : List CallLogImportEntry} {n : ℕ} {counts : List ℕ}
      → IsCounted e.call_count n
      → AreCounted entries counts
      → AreCounted (e ∷ entries) (n ∷ counts)

call_count_of-IsCounted : (c : Option JsonNumber) (n : ℕ) → IsCounted c n → call_count_of c ≡ some n
unfolding call_count_of integer_column
call_count_of-IsCounted _ _ IsCounted.missing = refl
call_count_of-IsCounted _ _ IsCounted.zero_calls = refl
call_count_of-IsCounted _ _ (IsCounted.negative m) = refl
call_count_of-IsCounted _ _ (IsCounted.negative_fraction m) = refl
call_count_of-IsCounted _ _ (IsCounted.positive zero low high) = absurd (omega arith)
call_count_of-IsCounted _ _ (IsCounted.positive (suc m) low high) = ground arith

call_count_of-IsRefused : (c : Option JsonNumber) → IsRefused c → call_count_of c ≡ none
unfolding call_count_of integer_column
call_count_of-IsRefused _ (IsRefused.too_large zero h) = absurd (omega arith)
call_count_of-IsRefused _ (IsRefused.too_large (suc n) h) = ground arith
call_count_of-IsRefused _ (IsRefused.positive_fraction n) = refl

-- One value for each entry and its count.
abbrev pub zip_entries {ℓ} :
    {A : Type ℓ} → (CallLogImportEntry → ℕ → A) → List CallLogImportEntry → List ℕ → List A
zip_entries f [] counts = []
zip_entries f (e ∷ entries) [] = []
zip_entries f (e ∷ entries) (n ∷ counts) = f e n ∷ zip_entries f entries counts

-- The number and the count of a row, and of an entry.
abbrev pub calls_of : PersonalCallLog → Text × ℕ
calls_of r = (r.phone_raw, r.call_count)

abbrev pub with_count : CallLogImportEntry → ℕ → Text × ℕ
with_count e n = (e.phone_raw, n)

zip_entries-mem {ℓ} :
    {A : Type ℓ} (f : CallLogImportEntry → A) (entries : List CallLogImportEntry) (counts : List ℕ)
    → AreCounted entries counts
    → zip_entries (λ e n. f e) entries counts ≡ map f entries
zip_entries-mem f [] (n ∷ counts) h = elim h [ ]
zip_entries-mem f (e ∷ entries) [] h = elim h [ ]
zip_entries-mem f [] [] AreCounted.nothing = refl
zip_entries-mem f (e ∷ entries) (n ∷ counts) (AreCounted.next h hs) =
    ap (λ xs. f e ∷ xs) (zip_entries-mem f entries counts hs)

known-none : (is : List PhoneIdentity) → (is_some (name_of (highest is)) ≡ false) ↔ (is ≡ [])
known-none [] = (λ h. refl, λ h. refl)
known-none (i ∷ is) = (
  λ h. absurd (ground arith),
  λ h. absurd (ground (arith, ap (λ (xs : List PhoneIdentity). length xs) h)),
)

perm-empty {ℓ} : {A : Type ℓ} {xs ys : List A} → Permᴰ xs ys → xs ≡ [] → ys ≡ []
perm-empty {xs = xs} {ys = []} p h = refl
perm-empty {A = A} {xs = xs} {ys = y ∷ ys} p h =
    absurd (Memᴰ.not-nil (subst (λ zs. Memᴰ y zs) h (Memᴰ-perm (Permᴰ.symm p) (Memᴰ.head refl))))

abbrev phone_of : CallLogImportEntry → Option Text
phone_of e = (normalize_vietnam_phone e.phone_raw).normalized

module _ (o : Orders) (orders : IsOrders o) (t : Identities) where
  known-identities :
      (entry : CallLogImportEntry) (phone : Text)
      → (import_result o t entry).phone_normalized ≡ some phone
      → ((import_result o t entry).known ≡ false) ↔ (identities_of t phone ≡ [])
  unfolding import_result best_identity
  known-identities entry phone h = rw h (
    λ k. perm-empty (orders.identities _) ((known-none _).0 k),
    λ e. (known-none _).1 (perm-empty (Permᴰ.symm (orders.identities _)) e),
  )

  module _ (now : ℕ → Timestamp) (call_date : Day) (batch_notes : Option Text) where
    abbrev after : List CallLogImportEntry → List PersonalCallLog → List PersonalCallLog
    after entries logs = (import_call_log_entries o t now call_date batch_notes entries logs).0

    import_next :
        (e : CallLogImportEntry) (n : ℕ) (entries : List CallLogImportEntry)
        (logs : List PersonalCallLog)
        → IsCounted e.call_count n
        → let row = log_row (now (length logs)) call_date batch_notes e n in
          let rest =
            import_call_log_entries o t now call_date batch_notes entries (logs ++ row ∷ []) in
          import_call_log_entries o t now call_date batch_notes (e ∷ entries) logs
          ≡ (rest.0, add_result (import_result o t e) rest.1)
    unfolding import_call_log_entries
    import_next e n entries logs h =
        rw (call_count_of-IsCounted e.call_count n h, import_call_log_entries) refl

    -- The rows of an import stand after the others, one for each entry.
    import-rows {ℓ} :
        {A : Type ℓ} (f : PersonalCallLog → A) (g : CallLogImportEntry → ℕ → A)
        → ((at : Timestamp) (e : CallLogImportEntry) (n : ℕ)
            → f (log_row at call_date batch_notes e n) ≡ g e n)
        → (entries : List CallLogImportEntry) (counts : List ℕ) (logs : List PersonalCallLog)
        → AreCounted entries counts
        → map f (after entries logs) ≡ map f logs ++ zip_entries g entries counts
    unfolding import_call_log_entries
    import-rows f g same [] (n ∷ counts) logs h = elim h [ ]
    import-rows f g same (e ∷ entries) [] logs h = elim h [ ]
    import-rows f g same [] [] logs AreCounted.nothing = sym (append-nil (map f logs))
    import-rows f g same (e ∷ entries) (n ∷ counts) logs (AreCounted.next h hs) =
        let row = log_row (now (length logs)) call_date batch_notes e n in
        ap (λ (p : List PersonalCallLog × Option (List CallLogImportResult)). map f p.0)
          (import_next e n entries logs h)
        ∙ import-rows f g same entries counts (logs ++ row ∷ []) hs
        ∙ ap (λ xs. xs ++ zip_entries g entries counts) (map-append f logs (row ∷ []))
        ∙ append_assoc (map f logs) (f row ∷ []) (zip_entries g entries counts)
        ∙ ap (λ x. map f logs ++ x ∷ zip_entries g entries counts) (same _ e n)

    import-results :
        (entries : List CallLogImportEntry) (counts : List ℕ) (logs : List PersonalCallLog)
        → AreCounted entries counts
        → (import_call_log_entries o t now call_date batch_notes entries logs).1
          ≡ some (map (λ e. import_result o t e) entries)
    unfolding import_call_log_entries
    import-results [] (n ∷ counts) logs h = elim h [ ]
    import-results (e ∷ entries) [] logs h = elim h [ ]
    import-results [] [] logs AreCounted.nothing = refl
    import-results (e ∷ entries) (n ∷ counts) logs (AreCounted.next h hs) =
        let row = log_row (now (length logs)) call_date batch_notes e n in
        ap (λ (p : List PersonalCallLog × Option (List CallLogImportResult)). p.1)
          (import_next e n entries logs h)
        ∙ ap (add_result (import_result o t e))
            (import-results entries counts (logs ++ row ∷ []) hs)

    import-refused :
        (entries : List CallLogImportEntry) (counts : List ℕ) (logs : List PersonalCallLog)
        (refused : CallLogImportEntry) (later : List CallLogImportEntry)
        → AreCounted entries counts
        → IsRefused refused.call_count
        → import_call_log_entries o t now call_date batch_notes (entries ++ refused ∷ later) logs
          ≡ (after entries logs, none)
    unfolding import_call_log_entries
    import-refused [] (n ∷ counts) logs refused later h k = elim h [ ]
    import-refused (e ∷ entries) [] logs refused later h k = elim h [ ]
    import-refused [] [] logs refused later AreCounted.nothing h =
        rw (call_count_of-IsRefused refused.call_count h, import_call_log_entries) refl
    import-refused (e ∷ entries) (n ∷ counts) logs refused later (AreCounted.next k ks) h =
        let row = log_row (now (length logs)) call_date batch_notes e n in
        import_next e n (entries ++ refused ∷ later) logs k
        ∙ ap
            (λ (p : List PersonalCallLog × Option (List CallLogImportResult)).
              (p.0, add_result (import_result o t e) p.1))
            (import-refused entries counts (logs ++ row ∷ []) refused later ks h)
        ∙ ap (λ (p : List PersonalCallLog × Option (List CallLogImportResult)). (p.0, none))
            (sym (import_next e n entries logs k))

    All-IsTold :
        (entries : List CallLogImportEntry) (final : List PersonalCallLog)
        → ((e : CallLogImportEntry)
            → Memᴰ e entries
            → Memᴰ (import_result o t e).phone_normalized (logged final))
        → All
            (IsTold (listed (get_unknown_numbers o t final)))
            (map (λ e. import_result o t e) entries)
    All-IsTold [] final h = tt
    All-IsTold (e ∷ entries) final h = (
      λ phone same.
          let listed_iff = get_unknown_numbers-mem o orders t final phone in
          let known_iff = known-identities e phone same in
          (
            λ k.
                listed_iff.1
                  (subst (λ n. Memᴰ n (logged final)) same (h e (Memᴰ.head refl)), known_iff.0 k),
            λ m. known_iff.1 (listed_iff.0 m).1,
          ),
      All-IsTold entries final (λ f m. h f (Memᴰ.tail m)),
    )

    import-logged :
        (entries : List CallLogImportEntry) (counts : List ℕ) (logs : List PersonalCallLog)
        → AreCounted entries counts
        → (e : CallLogImportEntry) → Memᴰ e entries
        → Memᴰ (import_result o t e).phone_normalized (logged (after entries logs))
    unfolding import_result log_row
    import-logged entries counts logs h e m =
        let rows =
          import-rows (λ r. r.phone_normalized) (λ e n. phone_of e) (λ at e n. refl) entries counts
            logs h
          ∙ ap (λ xs. logged logs ++ xs) (zip_entries-mem phone_of entries counts h) in
        subst (λ ns. Memᴰ (phone_of e) ns) (sym rows)
          (Memᴰ.append_right (logged logs) (Memᴰ.map phone_of m))

    -- For orders that only rearrange rows, an import of entries whose counts are missing, not positive
    -- or whole numbers that an INTEGER holds adds a row for each entry to the log, in order, with its
    -- count, or 1 where that is missing or not positive. It gives one result for each entry, in order;
    -- and a result for a number says that the number is not known exactly when the list of unknown
    -- numbers has it after the import. With an entry of another count after them, there are no
    -- results, and the log is as after the entries before it.
    pub import_call_log_entries-accepted :
        (entries : List CallLogImportEntry) (counts : List ℕ) (logs : List PersonalCallLog)
        (refused : CallLogImportEntry) (later : List CallLogImportEntry)
        → AreCounted entries counts
        → IsRefused refused.call_count
        → let (stored, replies) =
            import_call_log_entries o t now call_date batch_notes entries logs in
          (map calls_of stored ≡ map calls_of logs ++ zip_entries with_count entries counts)
          × ((results : List CallLogImportResult) × (replies ≡ some results)
              × (map (λ r. r.phone_raw) results ≡ map (λ e. e.phone_raw) entries)
              × All (IsTold (listed (get_unknown_numbers o t stored))) results)
          × (import_call_log_entries o t now call_date batch_notes (entries ++ refused ∷ later) logs
              ≡ (stored, none))
    unfolding log_row import_result
    import_call_log_entries-accepted entries counts logs refused later h k = (
      import-rows calls_of with_count (λ at e n. refl) entries counts logs h,
      (
        map (λ e. import_result o t e) entries,
        import-results entries counts logs h,
        map-map (λ r. r.phone_raw) (λ e. import_result o t e) entries,
        All-IsTold entries (after entries logs) (import-logged entries counts logs h),
      ),
      import-refused entries counts logs refused later h k,
    )
