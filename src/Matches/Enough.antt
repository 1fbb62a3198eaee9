-- ===== src/Matches/Enough.antt =====
-- The fuel of a scan is enough.
use vn_phone_dp.Prelude.{
  ℕ, zero, suc, ◌+◌, ◌≡◌, ◌≤◌, refl, ap, Option, [], ◌∷◌, ◌++◌, Text, length, take, drop, arith,
  Option-cases, inl, inr,
}
use vn_phone_dp.Matches.{match_from, match_all, replace_from, replace_all, IsExpression}
use vn_phone_dp.Matches.Scan.{length-drop}

module _ (expression : Text → Option ℕ) (proper : IsExpression expression) where
  match_from-enough :
      (f g pos : ℕ) (s : Text)
      → length s ≤ f
      → length s ≤ g
      → match_from expression f pos s ≡ match_from expression g pos s
  unfolding match_from
  match_from-enough zero zero pos s h k = refl
  match_from-enough zero (suc g) pos [] h k = refl
  match_from-enough zero (suc g) pos (c ∷ s) h k = absurd (omega arith)
  match_from-enough (suc f) zero pos [] h k = refl
  match_from-enough (suc f) zero pos (c ∷ s) h k = absurd (omega arith)
  match_from-enough (suc f) (suc g) pos [] h k = refl
  match_from-enough (suc f) (suc g) pos (c ∷ s) h k = elim (Option-cases (expression (c ∷ s))) [
    | inl e ↦ rw (e, match_from) (match_from-enough f g (pos + 1) s (omega arith) (omega arith))
    | inr (n, e) ↦
        let size = length-drop n (c ∷ s) in
        let apart = proper (c ∷ s) n e in
        rw (e, match_from)
          (ap (λ ms. record { index = pos; text = take n (c ∷ s) } ∷ ms)
            (match_from-enough f g (pos + n) (drop n (c ∷ s)) (omega arith) (omega arith)))
  ]

  replace_from-enough :
      (by : Text) (f g : ℕ) (s : Text)
      → length s ≤ f
      → length s ≤ g
      → replace_from expression by f s ≡ replace_from expression by g s
  unfolding replace_from
  replace_from-enough by zero zero s h k = refl
  replace_from-enough by zero (suc g) [] h k = refl
  replace_from-enough by zero (suc g) (c ∷ s) h k = absurd (omega arith)
  replace_from-enough by (suc f) zero [] h k = refl
  replace_from-enough by (suc f) zero (c ∷ s) h k = absurd (omega arith)
  replace_from-enough by (suc f) (suc g) [] h k = refl
  replace_from-enough by (suc f) (suc g) (c ∷ s) h k = elim (Option-cases (expression (c ∷ s))) [
    | inl e ↦
        rw (e, replace_from)
          (ap (λ t. c ∷ t) (replace_from-enough by f g s (omega arith) (omega arith)))
    | inr (n, e) ↦
        let size = length-drop n (c ∷ s) in
        let apart = proper (c ∷ s) n e in
        rw (e, replace_from)
          (ap (λ t. by ++ t)
            (replace_from-enough by f g (drop n (c ∷ s)) (omega arith) (omega arith)))
  ]

  -- The length of a text is fuel enough to find every match of an expression in it, and to replace
  -- every match: with more fuel the matches and the text are the same. The expression matches no
  -- empty text.
  pub scan-enough :
      (by : Text) (fuel : ℕ) (s : Text)
      → length s ≤ fuel
      → (match_from expression fuel 0 s ≡ match_all expression s)
        × (replace_from expression by fuel s ≡ replace_all expression by s)
  unfolding match_all replace_all
  scan-enough by fuel s h = (
    match_from-enough fuel (length s) 0 s h (omega arith),
    replace_from-enough by fuel (length s) s h (omega arith),
  )
