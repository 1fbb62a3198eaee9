-- ===== src/Extractor/Shape.antt =====
-- The texts that the pattern of a phone number describes, and the runs of digits in it.
use vn_phone_dp.Prelude.{
  ℕ, zero, suc, ◌+◌, ◌≡◌, ◌≤◌, refl, subst, true, false, ◌&&◌, some, [], ◌∷◌, ◌++◌, Text, codes,
  length, take, drop, is_digit, is_space, arith, Option-cases, Bool-cases, inl, inr,
}
use vn_phone_dp.Matches.Scan.{length-drop}
use vn_phone_dp.Extractor.{is_separator, unit, units}

-- A text of n digits, each with at most one separator before it.
pub data Units : ℕ → Text → Type 0 where
  nothing : Units zero []
  digit : {n d : ℕ} {s : Text} → is_digit d ≡ true → Units n s → Units (suc n) (d ∷ s)
  separated :
      {n c d : ℕ} {s : Text}
      → is_separator c ≡ true
      → is_digit d ≡ true
      → Units n s
      → Units (suc n) (c ∷ d ∷ s)

-- Between `least` and `most` of them after a prefix.
abbrev pub IsPrefixed : ℕ → ℕ → Text → Text → Type 0
IsPrefixed least most prefix s =
    (n : ℕ) × (u : Text) × (least ≤ n) × (n ≤ most) × Units n u × (s ≡ prefix ++ u)

-- What the extractor looks for: eight to ten digits after +84, 84 or 0, or four to seven after 1800
-- or 1900.
pub data IsPhoneLike (s : Text) : Type 0 where
  international : IsPrefixed 8 10 (codes "+84") s → IsPhoneLike s
  country : IsPrefixed 8 10 (codes "84") s → IsPhoneLike s
  national : IsPrefixed 8 10 (codes "0") s → IsPhoneLike s
  free : IsPrefixed 4 7 (codes "1800") s → IsPhoneLike s
  charged : IsPrefixed 4 7 (codes "1900") s → IsPhoneLike s

separator-other : (c : ℕ) → is_separator c ≡ true → is_digit c ≡ false
unfolding is_separator is_space
separator-other c h = ground arith

unit-length : (s : Text) (n : ℕ) → unit s ≡ some n → (1 ≤ n) × (n ≤ length s)
unfolding unit
unit-length [] n h = absurd (ground arith)
unit-length (c ∷ []) n h = (ground arith, ground arith)
unit-length (c ∷ d ∷ s) n h = (ground arith, ground arith)

-- One unit more, at the front.
unit-Units :
    (s : Text) (n k m : ℕ)
    → unit s ≡ some n
    → Units k (take m (drop n s))
    → Units (suc k) (take (n + m) s)
unfolding unit
unit-Units [] n k m h us = absurd (ground arith)
unit-Units (c ∷ []) n k m h us = elim (Bool-cases (is_digit c)) [
  | inl isd ↦
      let e : n ≡ 1 = ground (arith, rw isd at h) in
      let size : n + m ≡ suc m = omega arith in rw size (digit isd (rw e at us))
  | inr other ↦ absurd (ground (arith, rw other at h))
]
unit-Units (c ∷ d ∷ s) n k m h us = elim (Bool-cases (is_digit c)) [
  | inl isd ↦
      let e : n ≡ 1 = ground (arith, rw isd at h) in
      let size : n + m ≡ suc m = omega arith in rw size (digit isd (rw e at us))
  | inr other ↦ elim (Bool-cases (is_separator c && is_digit d)) [
    | inl both ↦
        let e : n ≡ 2 = ground (arith, rw (other, both) at h) in
        let size : n + m ≡ suc (suc m) = omega arith in
        let sep : is_separator c ≡ true = ground (arith, both) in
        let isd : is_digit d ≡ true = ground (arith, both) in
        rw size (separated sep isd (rw e at us))
    | inr neither ↦ absurd (ground (arith, rw (other, neither) at h))
  ]
]

-- The run that is found is one of units, as many as it says.
pub units-Units :
    (most : ℕ) (s : Text)
    → Units (units most s).0 (take (units most s).1 s)
      × ((units most s).0 ≤ most)
      × ((units most s).1 ≤ length s)
unfolding units
units-Units zero s = (nothing, omega arith, omega arith)
units-Units (suc most) s = elim (Option-cases (unit s)) [
  | inl e ↦ rw (e, units) (nothing, omega arith, omega arith)
  | inr (n, e) ↦
      let (us, most', fits) = units-Units most (drop n s) in
      let size = length-drop n s in
      let whole = unit-length s n e in
      rw (e, units)
        (
          subst (λ k. Units k (take (n + (units most (drop n s)).1) s)) (omega arith)
              (unit-Units s n (units most (drop n s)).0 (units most (drop n s)).1 e us),
          omega arith,
          omega arith,
        )
]

unit-digit : (d : ℕ) (s : Text) → is_digit d ≡ true → unit (d ∷ s) ≡ some 1
unfolding unit
unit-digit d [] h = rw h refl
unit-digit d (c ∷ s) h = rw h refl

unit-separated :
    (c d : ℕ) (s : Text) → is_separator c ≡ true → is_digit d ≡ true → unit (c ∷ d ∷ s) ≡ some 2
unfolding unit
unit-separated c d s sep isd = rw (separator-other c sep, sep, isd) refl

-- No run is longer than the one that is found.
pub units-most :
    (most n : ℕ) (u rest : Text) → Units n u → n ≤ most → n ≤ (units most (u ++ rest)).0
unfolding units unit
units-most most zero u rest us h = omega arith
units-most zero (suc n) u rest us h = absurd (omega arith)
units-most (suc most) (suc n) [] rest us h = elim us [ ]
units-most (suc most) (suc n) (d ∷ s) rest (digit isd us) h =
    rw (unit-digit d (s ++ rest) isd, units)
      (omega (arith, units-most most n s rest us (omega arith)))
units-most (suc most) (suc n) (c ∷ d ∷ s) rest (separated sep isd us) h =
    rw (unit-separated c d (s ++ rest) sep isd, units)
      (omega (arith, units-most most n s rest us (omega arith)))
