-- ===== src/Prelude/Groups.antt =====
-- `COUNT(DISTINCT …)` and `GROUP BY … COUNT(*)` over lists, for any type with a Boolean equality.
use Prim.Native.Nat.{ℕ, zero, suc, ◌+◌, ◌≤◌}
use mathlib.Core.Path.{◌≡◌, refl, ap}
use mathlib.Core.Logic.{◌↔◌, inl, inr}
use mathlib.Core.Bool.{Bool, true, false}
use mathlib.Core.List.{List, [], ◌∷◌, ◌++◌, Memᴰ}
use mathlib.Core.List.Memᴰ
use native.Mathlib.Omega.{arith}
use vn_phone_dp.Prelude.Tests.{if◌then◌else◌, Bool-cases}
use vn_phone_dp.Prelude.Lists.{All, length, any}
use vn_phone_dp.Prelude.Sorting.{total, All-of_mem}

module _ {ℓ} {A : Type ℓ} (eq : A → A → Bool) where
  -- The different values of a list.
  unfoldable pub distinct : List A → List A
  distinct [] = []
  distinct (x ∷ xs) = if any (eq x) xs then distinct xs else x ∷ distinct xs

  -- How often a value stands in a list.
  abbrev pub count : A → List A → ℕ
  count x [] = 0
  count x (y ∷ ys) = (if eq x y then 1 else 0) + count x ys

  pub length-distinct-le : (xs : List A) → length (distinct xs) ≤ length xs
  unfolding distinct
  length-distinct-le [] = omega arith
  length-distinct-le (x ∷ xs) = ground (arith, length-distinct-le xs)

  pub length-distinct-pos : (x : A) (xs : List A) → suc zero ≤ length (distinct (x ∷ xs))
  unfolding distinct
  length-distinct-pos x [] = omega arith
  length-distinct-pos x (y ∷ ys) = ground (arith, length-distinct-pos y ys)

  pub count-zero : (x : A) (ys : List A) → any (eq x) ys ≡ false → count x ys ≡ 0
  count-zero x [] h = refl
  count-zero x (y ∷ ys) h = ground (arith, count-zero x ys)

  pub count-append : (x : A) (ys zs : List A) → count x (ys ++ zs) ≡ count x ys + count x zs
  count-append x [] zs = omega arith
  count-append x (y ∷ ys) zs = omega (arith, count-append x ys zs)

module _ {ℓ} {A : Type ℓ} (eq : A → A → Bool) (eq_iff : (x y : A) → (eq x y ≡ true) ↔ (x ≡ y)) where
  -- A value that equals one of the list occurs in it.
  any-eq : (z x : A) (xs : List A) → eq z x ≡ true → any (eq z) xs ≡ any (eq x) xs
  any-eq z x xs h = ap (λ (y : A). any (eq y) xs) ((eq_iff z x).0 h)

  any-distinct : (z : A) (xs : List A) → any (eq z) (distinct eq xs) ≡ any (eq z) xs
  unfolding distinct
  any-distinct z [] = refl
  any-distinct z (x ∷ xs) = ground (arith, any-eq z x xs, any-distinct z xs)

  -- Each value of the list stands once among the different values, and no other does.
  pub count-distinct :
      (z : A) (xs : List A) → count eq z (distinct eq xs) ≡ (if any (eq z) xs then 1 else 0)
  unfolding distinct
  count-distinct z [] = refl
  count-distinct z (x ∷ xs) = ground (arith, any-eq z x xs, count-distinct z xs)

  pub eq_comm : (x y : A) → eq x y ≡ eq y x
  eq_comm x y = ground (arith, eq_iff x y, eq_iff y x)

  -- One more element adds one to the count of each equal key.
  total-count-cons :
      (ks : List A) (x : A) (xs : List A)
      → total (λ k. count eq k (x ∷ xs)) ks ≡ count eq x ks + total (λ k. count eq k xs) ks
  total-count-cons [] x xs = omega arith
  total-count-cons (k ∷ ks) x xs = ground (arith, total-count-cons ks x xs, eq_comm k x)

  total-count-zero : (ks : List A) → total (λ k. count eq k []) ks ≡ 0
  total-count-zero [] = refl
  total-count-zero (k ∷ ks) = omega (arith, total-count-zero ks)

  -- The counts of keys that each stand once among `ks` add up to the length.
  pub total-count :
      (ks xs : List A) → All (λ x. count eq x ks ≡ 1) xs → total (λ k. count eq k xs) ks ≡ length xs
  total-count ks [] h = total-count-zero ks
  total-count ks (x ∷ xs) (h, hs) = omega (arith, total-count-cons ks x xs, h, total-count ks xs hs)

  All-once :
      (ys xs : List A)
      → All (λ x. any (eq x) ys ≡ true) xs
      → All (λ x. count eq x (distinct eq ys) ≡ 1) xs
  All-once ys [] h = tt
  All-once ys (x ∷ xs) (h, hs) = (rw (count-distinct x ys, h), All-once ys xs hs)

  pub any-mem : (x : A) (xs : List A) → Memᴰ x xs → any (eq x) xs ≡ true
  any-mem x [] m = absurd (Memᴰ.not-nil m)
  any-mem x (y ∷ ys) (Memᴰ.head e) = ground (arith, eq_iff x y)
  any-mem x (y ∷ ys) (Memᴰ.tail m) = ground (arith, any-mem x ys m)

  pub mem-any : (x : A) (xs : List A) → any (eq x) xs ≡ true → Memᴰ x xs
  mem-any x [] h = absurd (ground arith)
  mem-any x (y ∷ ys) h = elim (Bool-cases (eq x y)) [
    | inl same ↦ Memᴰ.head ((eq_iff x y).0 same)
    | inr other ↦ Memᴰ.tail (mem-any x ys (ground arith))
  ]

  pub mem-distinct : (x : A) (xs : List A) → Memᴰ x xs ↔ Memᴰ x (distinct eq xs)
  mem-distinct x xs = (
    λ m. mem-any x (distinct eq xs) (rw (any-distinct x xs) (any-mem x xs m)),
    λ m. mem-any x xs (rw (any-distinct x xs) at (any-mem x (distinct eq xs) m)),
  )

  -- The groups of a list have as many rows as the list.
  pub total-distinct : (xs : List A) → total (λ k. count eq k xs) (distinct eq xs) ≡ length xs
  total-distinct xs =
      total-count (distinct eq xs) xs (All-once xs xs (All-of_mem _ xs (λ x m. any-mem x xs m)))
