-- ===== src/Directory/Order.antt =====
-- `BigInt` of a numeral, and the order of the exported lists.
use mathlib.Core.List.Permᴰ
use vn_phone_dp.Prelude.{
  ℕ, ◌+◌, ◌-◌, ◌*◌, ◌≤◌, ◌<◌, ◌≡◌, ◌≢◌, inl, inr, refl, sym, Bool, true, List, [], ◌∷◌, arith, Text,
  is_digit, length, all, ltb, Bool-cases,
}
use vn_phone_dp.Prelude.Sorting.{
  sort_by, sort_by-perm, sort_by-IsOrdered, IsOrdered, IsOrdered-perm, IsOrdered-both,
}
use vn_phone_dp.Directory.{big_int_from, big_int}

le-big_int_from : (n : ℕ) (s : Text) → n ≤ big_int_from n s
unfolding big_int_from
le-big_int_from n [] = omega arith
le-big_int_from n (c ∷ s) = omega (arith, le-big_int_from (n * 10 + (c - b'0')) s)

big_int_from-longer :
    (n m : ℕ) (s t : Text)
    → all is_digit s ≡ true
    → length s < length t
    → n + 1 ≤ 10 * m
    → big_int_from n s < big_int_from m t
unfolding big_int_from
big_int_from-longer n m s [] h lt le = absurd (omega arith)
big_int_from-longer n m [] (d ∷ t) h lt le = omega (arith, le-big_int_from (m * 10 + (d - b'0')) t)
big_int_from-longer n m (c ∷ s) (d ∷ t) h lt le =
    big_int_from-longer (n * 10 + (c - b'0')) (m * 10 + (d - b'0')) s t (ground arith) (omega arith)
      (ground arith)

big_int_from-same :
    (n m : ℕ) (s t : Text)
    → all is_digit s ≡ true
    → all is_digit t ≡ true
    → length s ≡ length t
    → big_int_from n s ≡ big_int_from m t
    → (n ≡ m) × (s ≡ t)
unfolding big_int_from
big_int_from-same n m [] [] h k l e = (e, refl)
big_int_from-same n m [] (d ∷ t) h k l e = absurd (omega arith)
big_int_from-same n m (c ∷ s) [] h k l e = absurd (omega arith)
big_int_from-same n m (c ∷ s) (d ∷ t) h k l e =
    let (lead, rest) =
      big_int_from-same (n * 10 + (c - b'0')) (m * 10 + (d - b'0')) s t (ground arith)
        (ground arith) (omega arith) e in
    (ground arith, ground arith)

-- A numeral: decimal digits, the first of them not 0.
abbrev pub IsNumeral : Text → Type 0
IsNumeral [] = ⊥
IsNumeral (c ∷ s) = (c ≢ b'0') × (all is_digit (c ∷ s) ≡ true)

-- Two numerals have the same value only if they are the same text.
pub big_int-injective : (s t : Text) → IsNumeral s → IsNumeral t → big_int s ≡ big_int t → s ≡ t
unfolding big_int big_int_from
big_int-injective [] t h k e = absurd h
big_int-injective s [] h k e = absurd k
big_int-injective (c ∷ s) (d ∷ t) (nc, h) (nd, k) e =
    let n = 0 * 10 + (c - b'0') in
    let m = 0 * 10 + (d - b'0') in
    elim (Bool-cases (ltb (length s) (length t))) [
      | inl lt ↦
          absurd (
            omega (arith, big_int_from-longer n m s t (ground arith) (ground arith) (ground arith)))
      | inr ge ↦ elim (Bool-cases (ltb (length t) (length s))) [
        | inl gt ↦ absurd (
            omega (arith, big_int_from-longer m n t s (ground arith) (ground arith) (ground arith)))
        | inr le ↦
            let (lead, rest) =
              big_int_from-same n m s t (ground arith) (ground arith) (ground arith) e in
            ground arith
      ]
    ]

-- The comparator `BigInt(a) < BigInt(b) ? -1 : 1` by a key.
module _ {ℓ} {A : Type ℓ} (key : A → Text) where
  abbrev pub before : A → A → Bool
  before a b = ltb (big_int (key a)) (big_int (key b))

  abbrev pub IsAscending : List A → Type 0
  IsAscending = IsOrdered (λ a b. big_int (key a) < big_int (key b))

  -- If no two values are the same, the sorted list is strictly ascending.
  pub sort_by-IsAscending :
      (xs : List A)
      → IsOrdered (λ a b. big_int (key a) ≢ big_int (key b)) xs
      → IsAscending (sort_by before xs)
  sort_by-IsAscending xs apart =
      IsOrdered-both (λ a b. big_int (key a) ≤ big_int (key b))
        (λ a b. big_int (key a) ≢ big_int (key b)) (λ a b. big_int (key a) < big_int (key b))
        (λ a b le ne. omega arith) (sort_by before xs)
        (sort_by-IsOrdered (λ a b. big_int (key a) ≤ big_int (key b)) before
          (λ a b c h k. omega arith) (λ a b h. ground arith) (λ a b h. ground arith) xs)
        (IsOrdered-perm (λ a b. big_int (key a) ≢ big_int (key b)) (λ a b ne e. ne (sym e))
          (Permᴰ.symm (sort_by-perm before xs)) apart)
