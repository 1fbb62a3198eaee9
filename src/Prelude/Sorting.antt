-- ===== src/Prelude/Sorting.antt =====
-- `Array.prototype.sort` as a stable insertion sort, and rearrangements of lists. `le a b` says that
-- the comparator puts `a` no later than `b`.
use Prim.Native.Nat.{ℕ, ◌+◌}
use mathlib.Core.Path.{◌≡◌, refl, ap, subst, sym}
use mathlib.Core.Bool.{Bool, true, false}
use mathlib.Core.List.{List, [], ◌∷◌, Permᴰ, Memᴰ}
use mathlib.Core.List.Permᴰ
use mathlib.Core.List.Memᴰ
use native.Mathlib.Omega.{arith}
use vn_phone_dp.Prelude.Tests.{if◌then◌else◌, Bool-cases}
use mathlib.Core.Logic.{inl, inr}
use vn_phone_dp.Prelude.Lists.{All}

module _ {ℓ} {A : Type ℓ} where
  unfoldable pub insert_by : (A → A → Bool) → A → List A → List A
  insert_by le x [] = x ∷ []
  insert_by le x (y ∷ ys) = if le x y then x ∷ y ∷ ys else y ∷ insert_by le x ys

  unfoldable pub sort_by : (A → A → Bool) → List A → List A
  unfolding insert_by
  sort_by le [] = []
  sort_by le (x ∷ xs) = insert_by le x (sort_by le xs)

  pub insert_by-perm :
      (le : A → A → Bool) (x : A) (ys : List A) → Permᴰ (insert_by le x ys) (x ∷ ys)
  unfolding insert_by
  insert_by-perm le x [] = Permᴰ.refl (x ∷ [])
  insert_by-perm le x (y ∷ ys) = elim (Bool-cases (le x y)) [
    | inl here ↦ rw here (Permᴰ.refl (x ∷ y ∷ ys))
    | inr later ↦
        rw later (Permᴰ.trans (Permᴰ.cons refl (insert_by-perm le x ys)) (Permᴰ.swap refl refl))
  ]

  pub sort_by-perm : (le : A → A → Bool) (xs : List A) → Permᴰ (sort_by le xs) xs
  unfolding sort_by
  sort_by-perm le [] = Permᴰ.nil
  sort_by-perm le (x ∷ xs) =
      Permᴰ.trans (insert_by-perm le x (sort_by le xs)) (Permᴰ.cons refl (sort_by-perm le xs))

  -- The sum of `f` over a list.
  abbrev pub total : (A → ℕ) → List A → ℕ
  total f [] = 0
  total f (x ∷ xs) = f x + total f xs

  pub total-perm : (f : A → ℕ) {xs ys : List A} → Permᴰ xs ys → total f xs ≡ total f ys
  total-perm f Permᴰ.nil = refl
  total-perm f (Permᴰ.cons e p) = omega (arith, ap f e, total-perm f p)
  total-perm f (Permᴰ.swap e e') = omega (arith, ap f e, ap f e')
  total-perm f (Permᴰ.trans p q) = omega (arith, total-perm f p, total-perm f q)

  pub Memᴰ-perm : {x : A} {xs ys : List A} → Permᴰ xs ys → Memᴰ x xs → Memᴰ x ys
  Memᴰ-perm Permᴰ.nil m = m
  Memᴰ-perm (Permᴰ.cons e p) (Memᴰ.head h) = Memᴰ.head (rw h e)
  Memᴰ-perm (Permᴰ.cons e p) (Memᴰ.tail m) = Memᴰ.tail (Memᴰ-perm p m)
  Memᴰ-perm (Permᴰ.swap e e') (Memᴰ.head h) = Memᴰ.tail (Memᴰ.head (rw h e))
  Memᴰ-perm (Permᴰ.swap e e') (Memᴰ.tail (Memᴰ.head h)) = Memᴰ.head (rw h e')
  Memᴰ-perm (Permᴰ.swap e e') (Memᴰ.tail (Memᴰ.tail m)) = Memᴰ.tail (Memᴰ.tail m)
  Memᴰ-perm (Permᴰ.trans p q) m = Memᴰ-perm q (Memᴰ-perm p m)

module _ {ℓ κ} {A : Type ℓ} (P : A → Type κ) where
  pub All-perm : {xs ys : List A} → Permᴰ xs ys → All P xs → All P ys
  All-perm Permᴰ.nil h = h
  All-perm (Permᴰ.cons e p) (h, hs) = (subst P e h, All-perm p hs)
  All-perm (Permᴰ.swap e e') (h, (k, hs)) = (subst P e' k, (subst P e h, hs))
  All-perm (Permᴰ.trans p q) h = All-perm q (All-perm p h)

  pub All-mem : {x : A} (xs : List A) → All P xs → Memᴰ x xs → P x
  All-mem (y ∷ ys) (h, hs) (Memᴰ.head e) = subst P (sym e) h
  All-mem (y ∷ ys) (h, hs) (Memᴰ.tail m) = All-mem ys hs m
  All-mem [] h m = absurd (Memᴰ.not-nil m)

  pub All-of_mem : (xs : List A) → ((x : A) → Memᴰ x xs → P x) → All P xs
  All-of_mem [] h = tt
  All-of_mem (x ∷ xs) h = (h x (Memᴰ.head refl), All-of_mem xs (λ y m. h y (Memᴰ.tail m)))

-- Every earlier element is related to every later one.
abbrev pub IsOrdered {ℓ κ} : {A : Type ℓ} → (A → A → Type κ) → List A → Type κ
IsOrdered R [] = Unit
IsOrdered R (x ∷ xs) = All (R x) xs × IsOrdered R xs

module _ {ℓ κ} {A : Type ℓ} (R : A → A → Type κ) (le : A → A → Bool)
    (trans : (x y z : A) → R x y → R y z → R x z) (sound : (x y : A) → le x y ≡ true → R x y)
    (total_order : (x y : A) → le x y ≡ false → R y x) where
  All-below : (x y : A) (zs : List A) → R x y → All (R y) zs → All (R x) zs
  All-below x y [] h k = tt
  All-below x y (z ∷ zs) h (k, ks) = (trans x y z h k, All-below x y zs h ks)

  insert_by-IsOrdered : (x : A) (ys : List A) → IsOrdered R ys → IsOrdered R (insert_by le x ys)
  unfolding insert_by
  insert_by-IsOrdered x [] h = (tt, tt)
  insert_by-IsOrdered x (y ∷ ys) (h, hs) = elim (Bool-cases (le x y)) [
    | inl here ↦ rw here ((sound x y here, All-below x y ys (sound x y here) h), (h, hs))
    | inr later ↦ rw later (
      All-perm (R y) (Permᴰ.symm (insert_by-perm le x ys)) (total_order x y later, h),
      insert_by-IsOrdered x ys hs,
    )
  ]

  -- The sort puts the elements in order.
  pub sort_by-IsOrdered : (xs : List A) → IsOrdered R (sort_by le xs)
  unfolding sort_by
  sort_by-IsOrdered [] = tt
  sort_by-IsOrdered (x ∷ xs) = insert_by-IsOrdered x (sort_by le xs) (sort_by-IsOrdered xs)

module _ {ℓ κ} {A : Type ℓ} (R : A → A → Type κ) (symmetric : (x y : A) → R x y → R y x) where
  -- For a symmetric relation the order does not matter.
  pub IsOrdered-perm : {xs ys : List A} → Permᴰ xs ys → IsOrdered R xs → IsOrdered R ys
  IsOrdered-perm Permᴰ.nil h = h
  IsOrdered-perm (Permᴰ.cons {l₂ = ys} e p) (h, hs) =
      (subst (λ x. All (R x) ys) e (All-perm (R _) p h), IsOrdered-perm p hs)
  IsOrdered-perm (Permᴰ.swap {a = a} {b = b} {a' = c} {b' = d} {l = l} e e') ((ab, ha), (hb, hs)) =
      (
        (
          subst (λ y. R c y) e (subst (λ x. R x a) e' (symmetric a b ab)),
          subst (λ x. All (R x) l) e' hb,
        ),
        (subst (λ x. All (R x) l) e ha, hs),
      )
  IsOrdered-perm (Permᴰ.trans p q) h = IsOrdered-perm q (IsOrdered-perm p h)

module _ {ℓ κ ι ο} {A : Type ℓ} (R : A → A → Type κ) (S : A → A → Type ι) (T : A → A → Type ο)
    (both : (x y : A) → R x y → S x y → T x y) where
  All-both : (x : A) (ys : List A) → All (R x) ys → All (S x) ys → All (T x) ys
  All-both x [] h k = tt
  All-both x (y ∷ ys) (h, hs) (k, ks) = (both x y h k, All-both x ys hs ks)

  pub IsOrdered-both : (xs : List A) → IsOrdered R xs → IsOrdered S xs → IsOrdered T xs
  IsOrdered-both [] h k = tt
  IsOrdered-both (x ∷ xs) (h, hs) (k, ks) = (All-both x xs h k, IsOrdered-both xs hs ks)
