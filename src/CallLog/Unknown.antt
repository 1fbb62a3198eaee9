-- ===== src/CallLog/Unknown.antt =====
-- Which numbers the list of unknown numbers has.
use mathlib.Core.List.{Permᴰ, Memᴰ}
use mathlib.Core.List.Permᴰ
use mathlib.Core.List.Memᴰ
use vn_phone_dp.Prelude.{
  ◌≡◌, ◌≢◌, Bool, false, any, ◌&&◌, text_eq, text_eq_iff, Bool-cases, ◌↔◌, ◌⊎◌, ◌==◌, refl, sym, ap,
  ◌∙◌, subst, true, Option, some, List, [], ◌∷◌, map, arith, Text, length, filter, inl, inr,
}
use vn_phone_dp.Prelude.Groups.{distinct, mem-distinct}
use vn_phone_dp.Prelude.Sorting.{sort_by-perm, Memᴰ-perm}
use vn_phone_dp.Prelude.Members.{mem-filter, mem-of_filter, any-of_mem, mem-of_any}
use vn_phone_dp.Schema.{PersonalCallLog, PhoneIdentity, PhoneNumber, IdentityStatus}
use vn_phone_dp.Directory.{is_rejected}
use vn_phone_dp.CallLog.{
  Orders, Identities, CallGroup, GroupKey, key_eq, group_key, of_key, add_group, call_group,
  groups_of, grouped, keys, identities_of, is_unknown, get_unknown_numbers,
}
use vn_phone_dp.CallLog.Summary.{IsOrders, key_eq_iff}

-- The numbers of the groups, and those of the rows.
abbrev pub listed : List CallGroup → List (Option Text)
listed groups = map (λ g. g.phone_normalized) groups

abbrev pub logged : List PersonalCallLog → List (Option Text)
logged logs = map (λ r. r.phone_normalized) logs

listed-add_group :
    (n : Option Text) (rows : List PersonalCallLog) (groups : List CallGroup)
    → Memᴰ n (listed (add_group rows groups))
    → Memᴰ n (logged rows) ⊎ Memᴰ n (listed groups)
unfolding call_group
listed-add_group n [] groups m = inr m
listed-add_group n (r ∷ rows) groups (Memᴰ.head e) = inl (Memᴰ.head e)
listed-add_group n (r ∷ rows) groups (Memᴰ.tail m) = inr m

add_group-tail :
    (n : Option Text) (rows : List PersonalCallLog) (groups : List CallGroup)
    → Memᴰ n (listed groups)
    → Memᴰ n (listed (add_group rows groups))
unfolding call_group
add_group-tail n [] groups m = m
add_group-tail n (r ∷ rows) groups m = Memᴰ.tail m

-- A group that is not empty is listed with the number of its key.
add_group-head :
    (k : GroupKey) (r : PersonalCallLog) (rows : List PersonalCallLog) (groups : List CallGroup)
    → Memᴰ r rows
    → ((s : PersonalCallLog) → Memᴰ s rows → k ≡ group_key s)
    → Memᴰ (k.1) (listed (add_group rows groups))
unfolding call_group group_key
add_group-head k r [] groups m h = absurd (Memᴰ.not-nil m)
add_group-head k r (s ∷ rows) groups m h =
    Memᴰ.head (ap (λ (x : GroupKey). x.1) (h s (Memᴰ.head refl)))

empty_of_length : (is : List PhoneIdentity) → (length is == 0) ≡ true → is ≡ []
empty_of_length [] h = refl
empty_of_length (i ∷ is) h = absurd (ground arith)

-- Every identity of the number is rejected.
abbrev pub HasOnlyRejected : Identities → Text → Type 0
HasOnlyRejected t phone =
    (pn : PhoneNumber) (pi : PhoneIdentity)
    → Memᴰ pn t.phone_numbers
    → Memᴰ pi t.phone_identities
    → pn.phone_e164 ≡ phone
    → pi.phone_number_id ≡ pn.id
    → pi.status ≡ IdentityStatus.rejected

is_rejected_iff : (s : IdentityStatus) → (is_rejected s ≡ true) ↔ (s ≡ IdentityStatus.rejected)
is_rejected_iff IdentityStatus.rejected = (λ h. refl, λ h. refl)
is_rejected_iff s =
    (λ h. absurd (ground arith), λ h. subst (λ x. is_rejected x ≡ true) (sym h) refl)

abbrev has_row : Identities → Text → PhoneIdentity → Bool
has_row t phone pi =
    any (λ pn. text_eq pn.id pi.phone_number_id && text_eq pn.phone_e164 phone) t.phone_numbers

joined :
    (phone : Text) (pn : PhoneNumber) (pi : PhoneIdentity)
    → pn.phone_e164 ≡ phone
    → pi.phone_number_id ≡ pn.id
    → (text_eq pn.id pi.phone_number_id && text_eq pn.phone_e164 phone) ≡ true
joined phone pn pi same id =
    rw ((text_eq_iff pn.id pi.phone_number_id).1 (sym id), (text_eq_iff pn.phone_e164 phone).1 same)
      refl

joined_iff :
    (phone : Text) (pn : PhoneNumber) (pi : PhoneIdentity)
    → (text_eq pn.id pi.phone_number_id && text_eq pn.phone_e164 phone) ≡ true
    → (pi.phone_number_id ≡ pn.id) × (pn.phone_e164 ≡ phone)
joined_iff phone pn pi h =
    let id : text_eq pn.id pi.phone_number_id ≡ true = ground arith in
    let same : text_eq pn.phone_e164 phone ≡ true = ground arith in
    (sym ((text_eq_iff pn.id pi.phone_number_id).0 id), (text_eq_iff pn.phone_e164 phone).0 same)

true-false : true ≢ false
true-false h = ground arith

nothing-filter {ℓ} :
    {A : Type ℓ} (p : A → Bool) (xs : List A)
    → ((x : A) → Memᴰ x xs → p x ≡ false)
    → filter p xs ≡ []
nothing-filter p [] h = refl
nothing-filter p (x ∷ xs) h =
    rw (h x (Memᴰ.head refl)) (nothing-filter p xs (λ y m. h y (Memᴰ.tail m)))

identities_of-empty :
    (t : Identities) (phone : Text) → (identities_of t phone ≡ []) ↔ HasOnlyRejected t phone
unfolding identities_of
identities_of-empty t phone = (
  λ e pn pi m n same of_pn. elim (Bool-cases (is_rejected pi.status)) [
    | inl gone ↦ (is_rejected_iff pi.status).0 gone
    | inr kept ↦ absurd (
        Memᴰ.not-nil (
          subst (λ is. Memᴰ pi is) e
            (mem-filter _ t.phone_identities n
              (rw kept (any-of_mem _ t.phone_numbers m (joined phone pn pi same of_pn))))))
  ],
  λ h. nothing-filter _ t.phone_identities (λ pi n. elim (Bool-cases (is_rejected pi.status)) [
    | inl gone ↦ rw gone refl
    | inr kept ↦ elim (Bool-cases (has_row t phone pi)) [
      | inl here ↦
          let (pn, m, of_pn) = mem-of_any _ t.phone_numbers here in
          let (id, same) = joined_iff phone pn pi of_pn in
          absurd (true-false (sym ((is_rejected_iff pi.status).1 (h pn pi m n same id)) ∙ kept))
      | inr missing ↦ rw (kept, missing) refl
    ]
  ]),
)

module _ (o : Orders) (orders : IsOrders o) where
  groups_of-logged :
      (n : Option Text) (logs : List PersonalCallLog) (ks : List GroupKey)
      → Memᴰ n (listed (groups_of o logs ks))
      → Memᴰ n (logged logs)
  unfolding groups_of
  groups_of-logged n logs [] m = absurd (Memᴰ.not-nil m)
  groups_of-logged n logs (k ∷ ks) m =
      elim (listed-add_group n (o.logs (of_key k logs)) (groups_of o logs ks) m) [
        | inl here ↦
            let found = Memᴰ.of_map (λ r. r.phone_normalized) (o.logs (of_key k logs)) here in
            let row = Memᴰ-perm (orders.logs (of_key k logs)) found.1 in
            subst (λ x. Memᴰ x (logged logs)) found.2
              (Memᴰ.map (λ r. r.phone_normalized) (mem-of_filter _ logs row).0)
        | inr later ↦ groups_of-logged n logs ks later
      ]

  logged-groups_of :
      (r : PersonalCallLog) (logs : List PersonalCallLog) (ks : List GroupKey)
      → Memᴰ r logs
      → Memᴰ (group_key r) ks
      → Memᴰ r.phone_normalized (listed (groups_of o logs ks))
  unfolding groups_of group_key
  logged-groups_of r logs [] m k = absurd (Memᴰ.not-nil k)
  logged-groups_of r logs (k ∷ ks) m (Memᴰ.head e) =
      subst (λ (x : GroupKey). Memᴰ (x.1) (listed (groups_of o logs (k ∷ ks)))) (sym e)
        (add_group-head k r (o.logs (of_key k logs)) (groups_of o logs ks)
          (Memᴰ-perm (Permᴰ.symm (orders.logs (of_key k logs)))
            (mem-filter _ logs m ((key_eq_iff k (group_key r)).1 (sym e))))
          (λ s n.
            (key_eq_iff k (group_key s)).0
              (mem-of_filter _ logs (Memᴰ-perm (orders.logs (of_key k logs)) n)).1))
  logged-groups_of r logs (k ∷ ks) m (Memᴰ.tail n) =
      add_group-tail r.phone_normalized (o.logs (of_key k logs)) (groups_of o logs ks)
        (logged-groups_of r logs ks m n)

  grouped-mem :
      (g : CallGroup) (logs : List PersonalCallLog)
      → Memᴰ g (grouped o logs) ↔ Memᴰ g (groups_of o logs (distinct key_eq (keys logs)))
  unfolding grouped
  grouped-mem g logs =
      let same = Permᴰ.trans (sort_by-perm _ _) (orders.groups _) in
      (λ m. Memᴰ-perm same m, λ m. Memᴰ-perm (Permᴰ.symm same) m)

  -- The groups have the numbers of the rows, NULL included.
  pub listed-grouped :
      (n : Option Text) (logs : List PersonalCallLog)
      → Memᴰ n (listed (grouped o logs)) ↔ Memᴰ n (logged logs)
  listed-grouped n logs = (
    λ m.
        let found = Memᴰ.of_map (λ g. g.phone_normalized) (grouped o logs) m in
        groups_of-logged n logs (distinct key_eq (keys logs)) (
          subst (λ x. Memᴰ x (listed (groups_of o logs (distinct key_eq (keys logs))))) found.2
            (Memᴰ.map (λ g. g.phone_normalized) ((grouped-mem found.0 logs).0 found.1))),
    λ m.
        let row = Memᴰ.of_map (λ r. r.phone_normalized) logs m in
        let key =
          (mem-distinct key_eq key_eq_iff (group_key row.0) (keys logs)).0
            (Memᴰ.map (λ r. group_key r) row.1) in
        let group =
          Memᴰ.of_map (λ g. g.phone_normalized) _ (logged-groups_of row.0 logs _ row.1 key) in
        subst (λ x. Memᴰ x (listed (grouped o logs))) (group.2 ∙ row.2)
          (Memᴰ.map (λ g. g.phone_normalized) ((grouped-mem group.0 logs).1 group.1)),
  )

  pub get_unknown_numbers-mem :
      (t : Identities) (logs : List PersonalCallLog) (phone : Text)
      → Memᴰ (some phone) (listed (get_unknown_numbers o t logs))
        ↔ (Memᴰ (some phone) (logged logs) × (identities_of t phone ≡ []))
  unfolding get_unknown_numbers is_unknown
  get_unknown_numbers-mem t logs phone =
      let kept = filter (λ r. is_unknown t r.phone_normalized) logs in
      (
        λ m.
            let row =
              Memᴰ.of_map (λ r. r.phone_normalized) kept ((listed-grouped (some phone) kept).0 m) in
            let here = mem-of_filter (λ r. is_unknown t r.phone_normalized) logs row.1 in
            (
              subst (λ x. Memᴰ x (logged logs)) row.2 (Memᴰ.map (λ r. r.phone_normalized) here.0),
              empty_of_length (identities_of t phone)
                  (subst (λ n. is_unknown t n ≡ true) row.2 here.1),
            ),
        λ h.
            let row = Memᴰ.of_map (λ r. r.phone_normalized) logs h.0 in
            (listed-grouped (some phone) kept).1 (
              subst (λ x. Memᴰ x (logged kept)) row.2
                (Memᴰ.map (λ r. r.phone_normalized)
                  (mem-filter _ logs row.1 (
                    subst (λ n. is_unknown t n ≡ true) (sym row.2)
                      (ap (λ is. length is == 0) h.1))))),
      )

  -- For orders that only rearrange rows, a number stands in the list of unknown numbers exactly when
  -- a call of it is logged and every identity of every row of the number is a rejected one.
  pub get_unknown_numbers-listed :
      (t : Identities) (logs : List PersonalCallLog) (phone : Text)
      → Memᴰ (some phone) (listed (get_unknown_numbers o t logs))
        ↔ (Memᴰ (some phone) (logged logs) × HasOnlyRejected t phone)
  get_unknown_numbers-listed t logs phone =
      let same = get_unknown_numbers-mem t logs phone in
      let empty = identities_of-empty t phone in
      (λ m. ((same.0 m).0, empty.0 (same.0 m).1), λ h. same.1 (h.0, empty.1 h.1))
