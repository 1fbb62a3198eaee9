-- ===== src/Prelude/Members.antt =====
-- Members of filtered lists, and what `map` and grouping keep.
use mathlib.Core.List.{Memᴰ, Permᴰ}
use mathlib.Core.List.Memᴰ
use Prim.Native.Nat.{ℕ, ◌+◌, ◌≤◌}
use mathlib.Core.Path.{◌≡◌, refl, sym, subst, ◌∙◌}
use mathlib.Core.Logic.{◌↔◌, ◌⊎◌, inl, inr}
use mathlib.Core.Bool.{Bool, true}
use mathlib.Core.List.{List, [], ◌∷◌, ◌++◌, map}
use native.Mathlib.Omega.{arith}
use vn_phone_dp.Prelude.Tests.{if◌then◌else◌, Bool-cases}
use vn_phone_dp.Prelude.Lists.{All, All-append, filter, any, length}
use vn_phone_dp.Prelude.Sorting.{total, IsOrdered, All-of_mem, All-mem}
use vn_phone_dp.Prelude.Groups.{count, distinct, count-distinct, any-mem, eq_comm}

module _ {ℓ} {A : Type ℓ} (p : A → Bool) where
  pub mem-filter : {x : A} (xs : List A) → Memᴰ x xs → p x ≡ true → Memᴰ x (filter p xs)
  mem-filter [] m h = absurd (Memᴰ.not-nil m)
  mem-filter (y ∷ ys) (Memᴰ.head e) h = rw (subst (λ z. p z ≡ true) e h) (Memᴰ.head e)
  mem-filter (y ∷ ys) (Memᴰ.tail m) h = elim (Bool-cases (p y)) [
    | inl kept ↦ rw kept (Memᴰ.tail (mem-filter ys m h))
    | inr left ↦ rw left (mem-filter ys m h)
  ]

  pub mem-of_filter : {x : A} (xs : List A) → Memᴰ x (filter p xs) → Memᴰ x xs × (p x ≡ true)
  mem-of_filter [] m = absurd (Memᴰ.not-nil m)
  mem-of_filter {x} (y ∷ ys) m = elim (Bool-cases (p y)) [
    | inl kept ↦ elim (rw kept at m) [
      | Memᴰ.head e ↦ (Memᴰ.head e, subst (λ z. p z ≡ true) (sym e) kept)
      | Memᴰ.tail n ↦ (Memᴰ.tail (mem-of_filter ys n).0, (mem-of_filter ys n).1)
    ]
    | inr left ↦
        let m' = rw left at m in (Memᴰ.tail (mem-of_filter ys m').0, (mem-of_filter ys m').1)
  ]

  -- A member that passes the test.
  pub any-of_mem : {x : A} (xs : List A) → Memᴰ x xs → p x ≡ true → any p xs ≡ true
  any-of_mem [] m h = absurd (Memᴰ.not-nil m)
  any-of_mem (y ∷ ys) (Memᴰ.head e) h = rw (subst (λ z. p z ≡ true) e h) refl
  any-of_mem (y ∷ ys) (Memᴰ.tail m) h = ground (arith, any-of_mem ys m h)

  pub mem-of_any : (xs : List A) → any p xs ≡ true → (x : A) × Memᴰ x xs × (p x ≡ true)
  mem-of_any [] h = absurd (ground arith)
  mem-of_any (x ∷ xs) h = elim (Bool-cases (p x)) [
    | inl here ↦ (x, Memᴰ.head refl, here)
    | inr other ↦ let (y, m, k) = mem-of_any xs (rw other at h) in (y, Memᴰ.tail m, k)
  ]

module _ {ℓ κ} {A : Type ℓ} {B : Type κ} (f : A → B) where
  pub total-map : (g : B → ℕ) (xs : List A) → total g (map f xs) ≡ total (λ x. g (f x)) xs
  total-map g [] = refl
  total-map g (x ∷ xs) = omega (arith, total-map g xs)

  pub All-map {ι} : (P : B → Type ι) (xs : List A) → All (λ x. P (f x)) xs → All P (map f xs)
  All-map P [] h = tt
  All-map P (x ∷ xs) (h, hs) = (h, All-map P xs hs)

  pub IsOrdered-map {ι} :
      (R : B → B → Type ι) (xs : List A)
      → IsOrdered (λ x y. R (f x) (f y)) xs
      → IsOrdered R (map f xs)
  IsOrdered-map R [] h = tt
  IsOrdered-map R (x ∷ xs) (h, hs) = (All-map (R (f x)) xs h, IsOrdered-map R xs hs)

module _ {ℓ κ} {A : Type ℓ} {B : Type κ} (eq : A → A → Bool)
    (eq_iff : (x y : A) → (eq x y ≡ true) ↔ (x ≡ y)) (key : B → A) (f : B → ℕ) where
  total_at_none :
      (x : A) (v : ℕ) (ks : List A)
      → count eq x ks ≡ 0
      → total (λ k. if eq x k then v else 0) ks ≡ 0
  total_at_none x v [] h = refl
  total_at_none x v (k ∷ ks) h = ground (arith, total_at_none x v ks)

  total_at_one :
      (x : A) (v : ℕ) (ks : List A)
      → count eq x ks ≡ 1
      → total (λ k. if eq x k then v else 0) ks ≡ v
  total_at_one x v [] h = absurd (ground arith)
  total_at_one x v (k ∷ ks) h = ground (arith, total_at_one x v ks, total_at_none x v ks)

  -- The sum of `f` over the elements with a key.
  abbrev pub group_total : List B → A → ℕ
  group_total bs k = total f (filter (λ b. eq k (key b)) bs)

  group_total-cons :
      (b : B) (bs : List B) (ks : List A)
      → total (group_total (b ∷ bs)) ks
        ≡ total (λ k. if eq (key b) k then f b else 0) ks + total (group_total bs) ks
  group_total-cons b bs [] = refl
  group_total-cons b bs (k ∷ ks) =
      ground (arith, group_total-cons b bs ks, eq_comm eq eq_iff k (key b))

  group_total-nil : (ks : List A) → total (group_total []) ks ≡ 0
  group_total-nil [] = refl
  group_total-nil (k ∷ ks) = omega (arith, group_total-nil ks)

  total-once :
      (ks : List A) (bs : List B)
      → All (λ b. count eq (key b) ks ≡ 1) bs
      → total (group_total bs) ks ≡ total f bs
  total-once ks [] h = group_total-nil ks
  total-once ks (b ∷ bs) (h, hs) =
      omega (arith, group_total-cons b bs ks, total_at_one (key b) (f b) ks h, total-once ks bs hs)

  -- The sums of the groups of a list add up to the sum over the list.
  pub total-groups : (bs : List B) → total (group_total bs) (distinct eq (map key bs)) ≡ total f bs
  total-groups bs = total-once (distinct eq (map key bs)) bs (
      All-of_mem _ bs (λ b m.
        rw
          (
            count-distinct eq eq_iff (key b) (map key bs),
            any-mem eq eq_iff (key b) (map key bs) (Memᴰ.map key m),
          )
          refl))

pub length-mem {ℓ} : {A : Type ℓ} {a : A} (xs : List A) → Memᴰ a xs → 1 ≤ length xs
length-mem [] m = absurd (Memᴰ.not-nil m)
length-mem (x ∷ xs) m = ground arith

pub length-perm {ℓ} : {A : Type ℓ} {xs ys : List A} → Permᴰ xs ys → length xs ≡ length ys
length-perm Permᴰ.nil = refl
length-perm (Permᴰ.cons e p) = omega (arith, length-perm p)
length-perm (Permᴰ.swap e e') = omega arith
length-perm (Permᴰ.trans p q) = length-perm p ∙ length-perm q

-- A test that implies another keeps no more elements.
pub length-filter_imp {ℓ} :
    {A : Type ℓ} (p q : A → Bool) (xs : List A)
    → ((x : A) → p x ≡ true → q x ≡ true)
    → length (filter p xs) ≤ length (filter q xs)
length-filter_imp p q [] h = omega arith
length-filter_imp p q (x ∷ xs) h = ground (arith, h x, length-filter_imp p q xs h)

-- Two lists that are ordered, each of the first before each of the second, and a part of an ordered
-- list.
module _ {ℓ κ} {A : Type ℓ} (R : A → A → Type κ) where
  pub IsOrdered-append :
      (xs ys : List A)
      → IsOrdered R xs
      → IsOrdered R ys
      → ((x y : A) → Memᴰ x xs → Memᴰ y ys → R x y)
      → IsOrdered R (xs ++ ys)
  IsOrdered-append [] ys h k r = k
  IsOrdered-append (x ∷ xs) ys (h, hs) k r = (
    All-append (R x) xs ys h (All-of_mem (R x) ys (λ y m. r x y (Memᴰ.head refl) m)),
    IsOrdered-append xs ys hs k (λ z y m n. r z y (Memᴰ.tail m) n),
  )

  pub IsOrdered-filter : (p : A → Bool) (xs : List A) → IsOrdered R xs → IsOrdered R (filter p xs)
  IsOrdered-filter p [] h = tt
  IsOrdered-filter p (x ∷ xs) (h, hs) = elim (Bool-cases (p x)) [
    | inl kept ↦ rw kept (
      All-of_mem (R x) (filter p xs) (λ y m. All-mem (R x) xs h (mem-of_filter p xs m).0),
      IsOrdered-filter p xs hs,
    )
    | inr gone ↦ rw gone (IsOrdered-filter p xs hs)
  ]

pub mem-of_append {ℓ} :
    {A : Type ℓ} {x : A} (xs ys : List A) → Memᴰ x (xs ++ ys) → Memᴰ x xs ⊎ Memᴰ x ys
mem-of_append [] ys m = inr m
mem-of_append (z ∷ xs) ys (Memᴰ.head e) = inl (Memᴰ.head e)
mem-of_append (z ∷ xs) ys (Memᴰ.tail m) = elim (mem-of_append xs ys m) [
  | inl here ↦ inl (Memᴰ.tail here)
  | inr later ↦ inr later
]
