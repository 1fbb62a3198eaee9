-- ===== src/Directory/Identity.antt =====
-- The rows of the identity query of `getCallDirectoryEntries`.
use mathlib.Core.List.{Permᴰ, Memᴰ}
use mathlib.Core.List.Permᴰ
use mathlib.Core.List.Memᴰ
use vn_phone_dp.Prelude.{
  ◌≡◌, ◌≢◌, refl, sym, ap, subst, true, ◌&&◌, Option, none, some, List, [], ◌∷◌, Text, text_eq,
  text_eq_iff, any, arith, All, Bool-cases, inl, inr, ◌⊎◌,
}
use vn_phone_dp.Prelude.Groups.{distinct, mem-distinct, any-mem, mem-any}
use vn_phone_dp.Prelude.Sorting.{IsOrdered, Memᴰ-perm, All-mem, All-of_mem}
use vn_phone_dp.Prelude.Members.{mem-filter, mem-of_filter}
use vn_phone_dp.Schema.{PhoneNumber, PhoneIdentity}
use vn_phone_dp.Directory.{
  Tables, is_callable, candidates, highest, add_row, joined, callable_phones, rows_on,
  identity_rows,
}

-- No text stands twice in a list.
abbrev pub AreApart : List Text → Type 0
AreApart = IsOrdered (λ (p q : Text). p ≢ q)

pub distinct-AreApart : (ps : List Text) → AreApart (distinct text_eq ps)
unfolding distinct
distinct-AreApart [] = tt
distinct-AreApart (p ∷ ps) = elim (Bool-cases (any (text_eq p) ps)) [
  | inl again ↦ rw again (distinct-AreApart ps)
  | inr new ↦ rw new (
    All-of_mem (λ q. p ≢ q) (distinct text_eq ps)
        (λ q m e.
          let old = (mem-distinct text_eq text_eq_iff q ps).1 m in
          let here = any-mem text_eq text_eq_iff p ps (subst (λ x. Memᴰ x ps) (sym e) old) in
          absurd (ground (arith, here, new))),
    distinct-AreApart ps,
  )
]

pub distinct-apart : (ps : List Text) → AreApart ps → distinct text_eq ps ≡ ps
unfolding distinct
distinct-apart [] h = refl
distinct-apart (p ∷ ps) (h, hs) = elim (Bool-cases (any (text_eq p) ps)) [
  | inl again ↦ absurd (All-mem _ ps h (mem-any text_eq text_eq_iff p ps again) refl)
  | inr new ↦ rw new (ap (λ qs. p ∷ qs) (distinct-apart ps hs))
]

module _ (t : Tables) where
  pub joined-mem :
      (pns : List PhoneNumber) (pn : PhoneNumber) (i : PhoneIdentity)
      → Memᴰ pn pns
      → is_callable pn.phone_type ≡ true
      → Memᴰ i (candidates t pn)
      → Memᴰ i (joined t pn.phone_e164 pns)
  unfolding joined
  joined-mem [] pn i m c h = absurd (Memᴰ.not-nil m)
  joined-mem (qn ∷ pns) pn i (Memᴰ.head e) c h =
      let c' = subst (λ (n : PhoneNumber). is_callable n.phone_type ≡ true) e c in
      let same =
        (text_eq_iff qn.phone_e164 pn.phone_e164).1
          (ap (λ (n : PhoneNumber). n.phone_e164) (sym e)) in
      rw (c', same)
        (Memᴰ.append_left (joined t pn.phone_e164 pns) (subst (λ n. Memᴰ i (candidates t n)) e h))
  joined-mem (qn ∷ pns) pn i (Memᴰ.tail m) c h =
      let rest = joined-mem pns pn i m c h in
      elim (Bool-cases (is_callable qn.phone_type && text_eq qn.phone_e164 pn.phone_e164)) [
        | inl here ↦ rw here (Memᴰ.append_right (candidates t qn) rest)
        | inr other ↦ rw other rest
      ]

  -- A number that has one row joins with that row alone.
  pub joined_other :
      (phone : Text) (pns : List PhoneNumber)
      → All (λ (pn : PhoneNumber). phone ≢ pn.phone_e164) pns
      → joined t phone pns ≡ []
  unfolding joined
  joined_other phone [] h = refl
  joined_other phone (pn ∷ pns) (h, hs) =
      ground (arith, joined_other phone pns hs, text_eq_iff pn.phone_e164 phone, h)

  mem-add_row :
      (phone : Text) (is : List PhoneIdentity) (i : PhoneIdentity) (rest : List (Text × Text))
      → Memᴰ i is
      → (name : Text) × Memᴰ (phone, name) (add_row phone (highest is) rest)
  mem-add_row phone [] i rest m = absurd (Memᴰ.not-nil m)
  mem-add_row phone (j ∷ is) i rest m = (_, Memᴰ.head refl)

  mem-add_row_rest :
      (phone : Text) (best : Option PhoneIdentity) (r : Text × Text) (rest : List (Text × Text))
      → Memᴰ r rest
      → Memᴰ r (add_row phone best rest)
  mem-add_row_rest phone none r rest m = m
  mem-add_row_rest phone (some i) r rest m = Memᴰ.tail m

  mem-of_add_row :
      (phone : Text) (best : Option PhoneIdentity) (r : Text × Text) (rest : List (Text × Text))
      → Memᴰ r (add_row phone best rest)
      → (r.0 ≡ phone) ⊎ Memᴰ r rest
  mem-of_add_row phone none r rest m = inr m
  mem-of_add_row phone (some i) r rest (Memᴰ.head e) = inl (ap (λ (x : Text × Text). x.0) e)
  mem-of_add_row phone (some i) r rest (Memᴰ.tail m) = inr m

  add_row-apart :
      (phone : Text) (best : Option PhoneIdentity) (rest : List (Text × Text))
      → All (λ (r : Text × Text). phone ≢ r.0) rest
      → IsOrdered (λ (a b : Text × Text). a.0 ≢ b.0) rest
      → IsOrdered (λ (a b : Text × Text). a.0 ≢ b.0) (add_row phone best rest)
  add_row-apart phone none rest h hs = hs
  add_row-apart phone (some i) rest h hs = (h, hs)

  module _ (arrange : List PhoneIdentity → List PhoneIdentity) (pns : List PhoneNumber) where
    mem-rows_on :
        (phones : List Text) (r : Text × Text)
        → Memᴰ r (rows_on arrange t pns phones)
        → Memᴰ (r.0) phones
    unfolding rows_on
    mem-rows_on [] r m = absurd (Memᴰ.not-nil m)
    mem-rows_on (phone ∷ phones) r m =
        elim (mem-of_add_row phone _ r (rows_on arrange t pns phones) m) [
          | inl e ↦ Memᴰ.head e
          | inr later ↦ Memᴰ.tail (mem-rows_on phones r later)
        ]

    rows_on-apart :
        (phones : List Text)
        → AreApart phones
        → IsOrdered (λ (a b : Text × Text). a.0 ≢ b.0) (rows_on arrange t pns phones)
    unfolding rows_on
    rows_on-apart [] h = tt
    rows_on-apart (phone ∷ phones) (h, hs) =
        add_row-apart phone _ (rows_on arrange t pns phones)
          (All-of_mem _ (rows_on arrange t pns phones)
            (λ r m. All-mem _ phones h (mem-rows_on phones r m)))
          (rows_on-apart phones hs)

    -- No number has two rows of the query, and a row's number is a callable one of the table.
    pub identity_rows-apart :
        IsOrdered (λ (a b : Text × Text). a.0 ≢ b.0) (identity_rows arrange t pns)
    unfolding identity_rows
    identity_rows-apart = rows_on-apart _ (distinct-AreApart (callable_phones pns))

    pub mem-identity_rows :
        (r : Text × Text)
        → Memᴰ r (identity_rows arrange t pns)
        → (pn : PhoneNumber) × Memᴰ pn pns
          × (is_callable pn.phone_type ≡ true)
          × (pn.phone_e164 ≡ r.0)
    unfolding identity_rows
    mem-identity_rows r m =
        let listed =
          (mem-distinct text_eq text_eq_iff (r.0) (callable_phones pns)).1 (mem-rows_on _ r m) in
        let (pn, row, e) = Memᴰ.of_map (λ (n : PhoneNumber). n.phone_e164) _ listed in
        let (here, called) = mem-of_filter _ pns row in (pn, here, called, e)

    module _ (perm : (is : List PhoneIdentity) → Permᴰ (arrange is) is) where
      rows_on-mem :
          (phones : List Text) (phone : Text) (i : PhoneIdentity)
          → Memᴰ phone phones
          → Memᴰ i (joined t phone pns)
          → (name : Text) × Memᴰ (phone, name) (rows_on arrange t pns phones)
      unfolding rows_on
      rows_on-mem [] phone i m h = absurd (Memᴰ.not-nil m)
      rows_on-mem (q ∷ phones) phone i (Memᴰ.head e) h = rw e (
          mem-add_row q (arrange (joined t q pns)) i (rows_on arrange t pns phones) (
            Memᴰ-perm (Permᴰ.symm (perm (joined t q pns)))
              (subst (λ p. Memᴰ i (joined t p pns)) e h)))
      rows_on-mem (q ∷ phones) phone i (Memᴰ.tail m) h =
          let (name, row) = rows_on-mem phones phone i m h in (name, mem-add_row_rest q _ _ _ row)

      -- A callable number with a candidate has a row.
      pub identity_rows-mem :
          (pn : PhoneNumber) (i : PhoneIdentity)
          → Memᴰ pn pns
          → is_callable pn.phone_type ≡ true
          → Memᴰ i (candidates t pn)
          → (name : Text) × Memᴰ (pn.phone_e164, name) (identity_rows arrange t pns)
      unfolding identity_rows
      identity_rows-mem pn i m c h =
          rows_on-mem _ pn.phone_e164 i
            ((mem-distinct text_eq text_eq_iff pn.phone_e164 (callable_phones pns)).0
              (Memᴰ.map (λ (n : PhoneNumber). n.phone_e164) (mem-filter _ pns m c)))
            (joined-mem pns pn i m c h)
