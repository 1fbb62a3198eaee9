-- ===== src/Lookup/Answer.antt =====
-- The identities that the lookup answers with.
use mathlib.Core.List.{Permᴰ, Memᴰ}
use mathlib.Core.List.Permᴰ
use mathlib.Core.List.Memᴰ
use vn_phone_dp.Prelude.{
  ◌≤◌, ◌≡◌, ◌≢◌, ◌↔◌, sym, ap, ◌∙◌, subst, none, some, List, [], ◌∷◌, arith, Text, text_eq,
  text_eq_iff, filter, leb, Bool-cases, Option-cases, inl, inr,
}
use vn_phone_dp.Prelude.Sorting.{sort_by-perm, sort_by-IsOrdered, IsOrdered, Memᴰ-perm, All-mem}
use vn_phone_dp.Prelude.Members.{mem-filter, mem-of_filter, IsOrdered-map}
use vn_phone_dp.Phone.{normalize_vietnam_phone}
use vn_phone_dp.Schema.{Uuid, PhoneNumber, PhoneIdentity, SpamReport}
use vn_phone_dp.Spam.Summary.{Group}
use vn_phone_dp.Directory.{Tables}
use vn_phone_dp.Lookup.{
  IdentityAnswer, phone_row, identity_answer, identity_answers, row_answer, normalized_answer,
  lookup_phone,
}

-- The row that is found has the number, and none is found only where there is none.
pub phone_row-mem :
    (ns : List PhoneNumber) (phone : Text) (row : PhoneNumber)
    → phone_row ns phone ≡ some row
    → Memᴰ row ns × (row.phone_e164 ≡ phone)
unfolding phone_row
phone_row-mem [] phone row h = absurd (ground arith)
phone_row-mem (n ∷ ns) phone row h = elim (Bool-cases (text_eq n.phone_e164 phone)) [
  | inl same ↦
      let e : n ≡ row = ground (arith, rw same at h) in
      (
        Memᴰ.head (sym e),
        subst (λ (r : PhoneNumber). r.phone_e164 ≡ phone) e ((text_eq_iff _ _).0 same),
      )
  | inr other ↦ let (m, e) = phone_row-mem ns phone row (rw other at h) in (Memᴰ.tail m, e)
]

phone_row-none :
    (ns : List PhoneNumber) (phone : Text) (n : PhoneNumber)
    → phone_row ns phone ≡ none
    → Memᴰ n ns
    → n.phone_e164 ≢ phone
unfolding phone_row
phone_row-none [] phone n h m = absurd (Memᴰ.not-nil m)
phone_row-none (k ∷ ns) phone n h m = elim (Bool-cases (text_eq k.phone_e164 phone)) [
  | inl same ↦ absurd (ground (arith, rw same at h))
  | inr other ↦ elim m [
    | Memᴰ.head e ↦ λ same. absurd (
        ground (
          arith,
          other,
          text_eq_iff k.phone_e164 phone,
          ap (λ (x : PhoneNumber). x.phone_e164) e,
          same,
        ))
    | Memᴰ.tail m' ↦ phone_row-none ns phone n (rw other at h) m'
  ]
]

-- No number has two rows, as the unique index on `phone_e164` has it.
abbrev pub HasUniqueNumbers : List PhoneNumber → Type 0
HasUniqueNumbers ns = IsOrdered (λ (a b : PhoneNumber). a.phone_e164 ≢ b.phone_e164) ns

unique-row :
    (ns : List PhoneNumber) (a b : PhoneNumber)
    → HasUniqueNumbers ns
    → Memᴰ a ns
    → Memᴰ b ns
    → a.phone_e164 ≡ b.phone_e164
    → a ≡ b
unique-row [] a b u m n e = absurd (Memᴰ.not-nil m)
unique-row (k ∷ ns) a b (u, us) (Memᴰ.head p) (Memᴰ.head q) e = p ∙ sym q
unique-row (k ∷ ns) a b (u, us) (Memᴰ.head p) (Memᴰ.tail n) e =
    absurd (All-mem _ ns u n (ap (λ (x : PhoneNumber). x.phone_e164) (sym p) ∙ e))
unique-row (k ∷ ns) a b (u, us) (Memᴰ.tail m) (Memᴰ.head q) e =
    absurd (All-mem _ ns u m (ap (λ (x : PhoneNumber). x.phone_e164) (sym q) ∙ sym e))
unique-row (k ∷ ns) a b (u, us) (Memᴰ.tail m) (Memᴰ.tail n) e = unique-row ns a b us m n e

module _ (arrange : List PhoneIdentity → List PhoneIdentity)
    (perm : (is : List PhoneIdentity) → Permᴰ (arrange is) is) where
  -- The answers are those of the identities with the number's id.
  pub identity_answers-mem :
      (id : Uuid) (is : List PhoneIdentity) (a : IdentityAnswer)
      → Memᴰ a (identity_answers arrange id is)
        ↔ ((i : PhoneIdentity) × Memᴰ i is × (i.phone_number_id ≡ id) × (identity_answer i ≡ a))
  unfolding identity_answers
  identity_answers-mem id is a =
      let own = filter (λ (i : PhoneIdentity). text_eq i.phone_number_id id) is in
      let same =
        Permᴰ.trans
          (sort_by-perm (λ (x y : PhoneIdentity). leb y.confidence x.confidence) (arrange own))
          (perm own) in
      (
        λ m.
            let (i, n, e) = Memᴰ.of_map identity_answer _ m in
            let kept = mem-of_filter _ is (Memᴰ-perm same n) in
            (i, kept.0, (text_eq_iff _ _).0 kept.1, e),
        λ h.
            subst (λ b. Memᴰ b (identity_answers arrange id is)) h.3
              (Memᴰ.map identity_answer (
                Memᴰ-perm (Permᴰ.symm same)
                  (mem-filter _ is h.1 ((text_eq_iff h.0.phone_number_id id).1 h.2)))),
      )

  identity_answers-IsOrdered :
      (id : Uuid) (is : List PhoneIdentity)
      → IsOrdered (λ a b. b.confidence ≤ a.confidence) (identity_answers arrange id is)
  unfolding identity_answers
  identity_answers-IsOrdered id is =
      IsOrdered-map identity_answer (λ a b. b.confidence ≤ a.confidence) _
        (sort_by-IsOrdered _ _ (λ x y z h k. omega arith) (λ x y h. ground arith)
          (λ x y h. ground arith) _)

-- An identity is in the answer exactly if it is one of the number asked for.
abbrev pub IsIdentityOf : Tables → Text → IdentityAnswer → Type 0
IsIdentityOf t phone a =
    (n : PhoneNumber) × (i : PhoneIdentity) × Memᴰ n t.phone_numbers
    × (n.phone_e164 ≡ phone)
    × Memᴰ i t.phone_identities
    × (i.phone_number_id ≡ n.id)
    × (identity_answer i ≡ a)

-- The identities of an answer to a number that is normalized to `phone` are exactly those that the
-- tables hold for a row of `phone`, the most confident first, where no number has two rows and
-- PostgreSQL returns the rows in any order.
pub lookup_phone-identities :
    (arrange : List PhoneIdentity → List PhoneIdentity)
    (perm : (is : List PhoneIdentity) → Permᴰ (arrange is) is)
    (arrange_groups : List Group → List Group) (t : Tables) (reports : List SpamReport)
    (raw phone : Text)
    → HasUniqueNumbers t.phone_numbers
    → (normalize_vietnam_phone raw).normalized ≡ some phone
    → ((a : IdentityAnswer)
        → Memᴰ a (lookup_phone arrange arrange_groups t reports raw).identities
          ↔ IsIdentityOf t phone a)
      × IsOrdered
          (λ a b. b.confidence ≤ a.confidence)
          (lookup_phone arrange arrange_groups t reports raw).identities
unfolding lookup_phone normalized_answer row_answer
lookup_phone-identities arrange perm arrange_groups t reports raw phone unique h =
    rw h (elim (Option-cases (phone_row t.phone_numbers phone)) [
      | inl e ↦ rw e (
        λ a. (
          λ m. absurd (Memᴰ.not-nil m),
          λ (n, i, mn, same, mi, own, e'). absurd (phone_row-none _ phone n e mn same),
        ),
        tt,
      )
      | inr (row, e) ↦
          let (mr, er) = phone_row-mem _ phone row e in
          rw e (
            λ a. (
              λ m.
                  let (i, mi, own, same) = (identity_answers-mem arrange perm row.id _ a).0 m in
                  (row, i, mr, er, mi, own, same),
              λ (n, i, mn, en, mi, own, e').
                  let r = unique-row _ n row unique mn mr (en ∙ sym er) in
                  (identity_answers-mem arrange perm row.id _ a).1
                    (i, mi, own ∙ ap (λ (x : PhoneNumber). x.id) r, e'),
            ),
            identity_answers-IsOrdered arrange perm row.id _,
          )
    ])
