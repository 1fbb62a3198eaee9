-- ===== src/Monitoring/Exported.antt =====
-- The growth of the data counts what the call directory exports.
use mathlib.Core.List.{Permᴰ, Memᴰ}
use mathlib.Core.List.Permᴰ
use mathlib.Core.List.Memᴰ
use vn_phone_dp.Prelude.{
  ℕ, suc, ◌≤◌, ◌≡◌, ◌↔◌, refl, sym, ap, ◌∙◌, Bool, true, false, not, ◌&&◌, ◌==◌, Option, List, [],
  ◌∷◌, map, Text, text_eq, text_eq_iff, All, ◌≢◌, subst, arith, length, length-map, length-filter,
  filter, any, leb, Bool-cases, inl, inr,
}
use vn_phone_dp.Prelude.Groups.{distinct, count, total-distinct}
use vn_phone_dp.Prelude.Sorting.{sort_by-perm, total, total-perm, Memᴰ-perm, All-mem, All-of_mem}
use vn_phone_dp.Prelude.Members.{
  mem-filter, mem-of_filter, mem-of_any, total-map, length-perm, length-filter_imp,
}
use vn_phone_dp.Schema.{Timestamp, PhoneNumber, PhoneIdentity}
use vn_phone_dp.Directory.{
  Tables, is_callable, is_rejected, has_trusted_evidence, candidates, highest, add_row, joined,
  callable_phones, rows_on, identity_rows,
}
use mathlib.Core.List.{append-nil}
use vn_phone_dp.Directory.Identity.{AreApart, distinct-apart, joined_other}
use vn_phone_dp.Lookup.Answer.{HasUniqueNumbers}
use vn_phone_dp.Monitoring.Growth.{
  is_production, productions, is_within, added_within, hour_of, GrowthBucket, get_data_growth,
  get_data_growth_time_series,
}

length-add_row :
    (phone : Text) (is : List PhoneIdentity) (i : PhoneIdentity) (rest : List (Text × Text))
    → Memᴰ i is
    → length (add_row phone (highest is) rest) ≡ suc (length rest)
length-add_row phone [] i rest m = absurd (Memᴰ.not-nil m)
length-add_row phone (j ∷ is) i rest m = refl

empty {ℓ} : {A : Type ℓ} (xs : List A) → length xs ≡ 0 → xs ≡ []
empty [] h = refl
empty (x ∷ xs) h = absurd (omega arith)

filter_none {ℓ} : {A : Type ℓ} (p : A → Bool) (xs : List A) → any p xs ≡ false → filter p xs ≡ []
filter_none p [] h = refl
filter_none p (x ∷ xs) h = ground (arith, filter_none p xs)

module _ (arrange : List PhoneIdentity → List PhoneIdentity)
    (perm : (is : List PhoneIdentity) → Permᴰ (arrange is) is) (t : Tables) where
  -- In a table without two rows for a number, the query joins a number with its own row.
  joined-own :
      (pns : List PhoneNumber) (pn : PhoneNumber)
      → HasUniqueNumbers pns
      → Memᴰ pn pns
      → is_callable pn.phone_type ≡ true
      → joined t pn.phone_e164 pns ≡ candidates t pn
  unfolding joined
  joined-own [] pn u m c = absurd (Memᴰ.not-nil m)
  joined-own (qn ∷ pns) pn (u, us) (Memᴰ.head e) c =
      let c' = subst (λ (n : PhoneNumber). is_callable n.phone_type ≡ true) e c in
      let same =
        (text_eq_iff qn.phone_e164 pn.phone_e164).1
          (ap (λ (n : PhoneNumber). n.phone_e164) (sym e)) in
      let none = joined_other t pn.phone_e164 pns (
        subst (λ (p : Text). All (λ (n : PhoneNumber). p ≢ n.phone_e164) pns)
          (ap (λ (n : PhoneNumber). n.phone_e164) (sym e)) u) in
      rw (c', same, none) (append-nil (candidates t qn) ∙ ap (candidates t) (sym e))
  joined-own (qn ∷ pns) pn (u, us) (Memᴰ.tail m) c =
      let apart = All-mem _ pns u m in
      let other : text_eq qn.phone_e164 pn.phone_e164 ≡ false =
        elim (Bool-cases (text_eq qn.phone_e164 pn.phone_e164)) [
          | inl same ↦ absurd (apart ((text_eq_iff qn.phone_e164 pn.phone_e164).0 same))
          | inr differ ↦ differ
        ] in
      elim (Bool-cases (is_callable qn.phone_type)) [
        | inl called ↦ rw (called, other) (joined-own pns pn us m c)
        | inr not_called ↦ rw not_called (joined-own pns pn us m c)
      ]

  -- Of numbers of such a table, those that the dashboard counts are as many as the rows.
  length-rows_on :
      (pns qns : List PhoneNumber)
      → HasUniqueNumbers pns
      → ((qn : PhoneNumber) → Memᴰ qn qns → Memᴰ qn pns)
      → length (rows_on arrange t pns (callable_phones qns)) ≡ length (filter (is_production t) qns)
  unfolding rows_on is_production candidates
  length-rows_on pns [] u sub = refl
  length-rows_on pns (pn ∷ qns) u sub = elim (Bool-cases (is_callable pn.phone_type)) [
    | inr other ↦ rw other (length-rows_on pns qns u (λ qn m. sub qn (Memᴰ.tail m)))
    | inl called ↦
        let rest = length-rows_on pns qns u (λ qn m. sub qn (Memᴰ.tail m)) in
        let own = joined-own pns pn u (sub pn (Memᴰ.head refl)) called in
        let chosen = λ (pi : PhoneIdentity).
          text_eq pi.phone_number_id pn.id
          && not (is_rejected pi.status)
          && has_trusted_evidence t pi in
        elim (Bool-cases (any chosen t.phone_identities)) [
          | inl some' ↦
              let (i, m, e) = mem-of_any chosen t.phone_identities some' in
              rw (called, own, some')
                (length-add_row pn.phone_e164 _ i (rows_on arrange t pns (callable_phones qns)) (
                    Memᴰ-perm (Permᴰ.symm (perm (filter chosen t.phone_identities)))
                      (mem-filter chosen t.phone_identities m e))
                  ∙ ap suc rest)
          | inr none' ↦
              let nil = filter_none chosen t.phone_identities none' in
              let nil' = empty (arrange []) (length-perm (perm [])) in
              rw (called, own, none', nil, nil') rest
        ]
  ]

  callable_phones-apart :
      (pns : List PhoneNumber) → HasUniqueNumbers pns → AreApart (callable_phones pns)
  callable_phones-apart [] u = tt
  callable_phones-apart (pn ∷ pns) (u, us) = elim (Bool-cases (is_callable pn.phone_type)) [
    | inr other ↦ rw other (callable_phones-apart pns us)
    | inl called ↦ rw called (
      All-of_mem _ (callable_phones pns) (λ q m.
          let (n, row, e) = Memᴰ.of_map (λ (x : PhoneNumber). x.phone_e164) _ m in
          rw (← e) (All-mem _ pns u (mem-of_filter _ pns row).0)),
      callable_phones-apart pns us,
    )
  ]

  length-identity_rows :
      (pns : List PhoneNumber)
      → HasUniqueNumbers pns
      → length (identity_rows arrange t pns) ≡ length (filter (is_production t) pns)
  unfolding identity_rows
  length-identity_rows pns u =
      ap (λ phones. length (rows_on arrange t pns phones))
        (distinct-apart (callable_phones pns) (callable_phones-apart pns u))
      ∙ length-rows_on pns pns u (λ qn m. m)

added_within-monotone :
    (now : Timestamp) (h k : ℕ) (t : Tables) → h ≤ k → added_within now h t ≤ added_within now k t
added_within-monotone now h k t le =
    length-filter_imp (λ (pn : PhoneNumber). is_within now h pn.first_seen_at)
      (λ pn. is_within now k pn.first_seen_at) (productions t) (λ pn e. ground arith)

eq_iff : (x y : ℕ) → ((x == y) ≡ true) ↔ (x ≡ y)
eq_iff x y = (λ h. ground arith, λ h. ground arith)

time_series-total :
    (window now : ℕ) (t : Tables)
    → total (λ b. b.count) (get_data_growth_time_series window now t) ≡ added_within now window t
unfolding get_data_growth_time_series
time_series-total window now t =
    let within =
      filter (λ (pn : PhoneNumber). is_within now window pn.first_seen_at) (productions t) in
    let hours = map (λ (pn : PhoneNumber). hour_of pn.first_seen_at) within in
    let eq : ℕ → ℕ → Bool = λ a b. a == b in
    let bucket : ℕ → GrowthBucket = λ h. record { bucket = h; count = count eq h hours } in
    total-perm (λ (b : GrowthBucket). b.count)
      (sort_by-perm (λ (a b : GrowthBucket). leb a.bucket b.bucket)
        (map bucket (distinct eq hours)))
    ∙ total-map bucket (λ (b : GrowthBucket). b.count) (distinct eq hours)
    ∙ total-distinct eq eq_iff hours
    ∙ length-map (λ (pn : PhoneNumber). hour_of pn.first_seen_at) within

-- In tables without two rows for a number, which the unique index on it rules out: the dashboard's
-- total is the number of rows of the identity query, from which the call directory is
-- exported; the counts of longer times include those of shorter ones, and none exceeds the total; and
-- the hours of the last day add up to the count of the last day.
pub get_data_growth-counted :
    (arrange : List PhoneIdentity → List PhoneIdentity)
    (perm : (is : List PhoneIdentity) → Permᴰ (arrange is) is) (started_at : Option Timestamp)
    (now : Timestamp) (t : Tables)
    → HasUniqueNumbers t.phone_numbers
    → ((get_data_growth started_at now t).total_numbers
        ≡ length (identity_rows arrange t t.phone_numbers))
      × ((get_data_growth started_at now t).added_1h ≤ (get_data_growth started_at now t).added_3h)
      × ((get_data_growth started_at now t).added_3h ≤ (get_data_growth started_at now t).added_6h)
      × ((get_data_growth started_at now t).added_6h ≤ (get_data_growth started_at now t).added_9h)
      × ((get_data_growth started_at now t).added_9h ≤ (get_data_growth started_at now t).added_12h)
      × ((get_data_growth started_at now t).added_12h
          ≤ (get_data_growth started_at now t).added_24h)
      × ((get_data_growth started_at now t).added_24h
          ≤ (get_data_growth started_at now t).total_numbers)
      × (total (λ b. b.count) (get_data_growth_time_series 24 now t)
          ≡ (get_data_growth started_at now t).added_24h)
unfolding get_data_growth
get_data_growth-counted arrange perm started_at now t unique = (
  sym (length-identity_rows arrange perm t t.phone_numbers unique),
  added_within-monotone now 1 3 t (omega arith),
  added_within-monotone now 3 6 t (omega arith),
  added_within-monotone now 6 9 t (omega arith),
  added_within-monotone now 9 12 t (omega arith),
  added_within-monotone now 12 24 t (omega arith),
  length-filter (λ (pn : PhoneNumber). is_within now 24 pn.first_seen_at) (productions t),
  time_series-total 24 now t,
)
