-- ===== src/Matches/Scan.antt =====
-- The matches of an expression in a text.
use mathlib.Core.List.{Memᴰ}
use mathlib.Core.List.Memᴰ
use vn_phone_dp.Prelude.{
  ℕ, zero, suc, ◌+◌, ◌-◌, ◌≡◌, ◌≤◌, ◌<◌, refl, sym, ap, ◌∙◌, Option, none, some, [], ◌∷◌, Text,
  length, take, drop, All, All-imp, arith, Option-cases, ◌⊎◌, leb, Bool-cases, inl, inr,
}
use vn_phone_dp.Prelude.Sorting.{All-of_mem, IsOrdered}
use vn_phone_dp.Matches.{Match, match_from, IsExpression}

pub length-take : (n : ℕ) (s : Text) → n ≤ length s → length (take n s) ≡ n
length-take zero s h = refl
length-take (suc n) [] h = absurd (omega arith)
length-take (suc n) (c ∷ s) h = omega (arith, length-take n s (omega arith))

pub length-drop : (n : ℕ) (s : Text) → length (drop n s) ≡ length s - n
length-drop zero s = omega arith
length-drop (suc n) [] = omega arith
length-drop (suc n) (c ∷ s) = omega (arith, length-drop n s)

le_or_lt : (a b : ℕ) → (a ≤ b) ⊎ (b < a)
le_or_lt a b = elim (Bool-cases (leb a b)) [
  | inl h ↦ inl (ground arith)
  | inr h ↦ inr (ground arith)
]

drop_nil : (n : ℕ) → drop {A = ℕ} n [] ≡ []
drop_nil zero = refl
drop_nil (suc n) = refl

pub drop_add : (n k : ℕ) (s : Text) → drop (n + k) s ≡ drop k (drop n s)
drop_add zero k s = ap (λ m. drop m s) (omega arith)
drop_add (suc n) k [] = drop_nil (suc n + k) ∙ sym (drop_nil k)
drop_add (suc n) k (c ∷ s) =
    let e : suc n + k ≡ suc (n + k) = omega arith in ap (λ m. drop m (c ∷ s)) e ∙ drop_add n k s

module _ (expression : Text → Option ℕ) (proper : IsExpression expression) where
  -- Where a match is found, the expression matches, and the match is that part of the text.
  pub match_from-placed :
      (fuel pos : ℕ) (s : Text) (m : Match)
      → Memᴰ m (match_from expression fuel pos s)
      → (k : ℕ) × (m.index ≡ pos + k)
        × (expression (drop k s) ≡ some (length m.text))
        × (m.text ≡ take (length m.text) (drop k s))
  unfolding match_from
  match_from-placed zero pos s m h = absurd (Memᴰ.not-nil h)
  match_from-placed (suc fuel) pos [] m h = absurd (Memᴰ.not-nil h)
  match_from-placed (suc fuel) pos (c ∷ s) m h = elim (Option-cases (expression (c ∷ s))) [
    | inl e ↦
        let (k, i, at', t) = match_from-placed fuel (pos + 1) s m (rw (e, match_from) at h) in
        (suc k, omega arith, at', t)
    | inr (n, e) ↦ elim (rw (e, match_from) at h) [
      | Memᴰ.head q ↦
          let size : length m.text ≡ n =
            ap (λ (x : Match). length x.text) q ∙ length-take n (c ∷ s) (proper (c ∷ s) n e).1 in
          (
            0,
            ap (λ (x : Match). x.index) q ∙ omega arith,
            e ∙ ap some (sym size),
            ap (λ (x : Match). x.text) q ∙ ap (λ l. take l (c ∷ s)) (sym size),
          )
      | Memᴰ.tail h' ↦
          let (k, i, at', t) = match_from-placed fuel (pos + n) (drop n (c ∷ s)) m h' in
          (n + k, omega arith, rw (drop_add n k (c ∷ s)) at', rw (drop_add n k (c ∷ s)) t)
    ]
  ]

  match_from-after :
      (fuel pos : ℕ) (s : Text)
      → All (λ (m : Match). pos ≤ m.index) (match_from expression fuel pos s)
  match_from-after fuel pos s =
      All-of_mem (λ (m : Match). pos ≤ m.index) (match_from expression fuel pos s)
        (λ m h. let (k, i, e, t) = match_from-placed fuel pos s m h in omega arith)

  -- No two matches overlap, and they are in the order of the text.
  pub match_from-IsOrdered :
      (fuel pos : ℕ) (s : Text)
      → IsOrdered
          (λ (a b : Match). a.index + length a.text ≤ b.index)
          (match_from expression fuel pos s)
  unfolding match_from
  match_from-IsOrdered zero pos s = tt
  match_from-IsOrdered (suc fuel) pos [] = tt
  match_from-IsOrdered (suc fuel) pos (c ∷ s) = elim (Option-cases (expression (c ∷ s))) [
    | inl e ↦ rw (e, match_from) (match_from-IsOrdered fuel (pos + 1) s)
    | inr (n, e) ↦
        rw (e, match_from)
          (
            All-imp
                (λ (m : Match) after.
                  omega (arith, length-take n (c ∷ s) (proper (c ∷ s) n e).1, after))
                _ (match_from-after fuel (pos + n) (drop n (c ∷ s))),
            match_from-IsOrdered fuel (pos + n) (drop n (c ∷ s)),
          )
  ]

  covers_next :
      (fuel pos c : ℕ) (s : Text) (q n : ℕ)
      → expression (c ∷ s) ≡ none
      → expression (drop q (c ∷ s)) ≡ some n
      → ((r : ℕ)
          → expression (drop r s) ≡ some n
          → (m : Match) × Memᴰ m (match_from expression fuel (pos + 1) s)
            × (m.index ≤ pos + 1 + r)
            × (pos + 1 + r < m.index + length m.text))
      → (m : Match) × Memᴰ m (match_from expression fuel (pos + 1) s)
        × (m.index ≤ pos + q)
        × (pos + q < m.index + length m.text)
  covers_next fuel pos c s zero n none' e rest = absurd (ground (arith, none', e))
  covers_next fuel pos c s (suc r) n none' e rest =
      let (m, h, low, high) = rest r e in (m, h, omega arith, omega arith)

  -- Wherever the expression matches, there is a match that covers the place.
  pub match_from-covers :
      (fuel pos : ℕ) (s : Text) (q n : ℕ)
      → length s ≤ fuel
      → expression (drop q s) ≡ some n
      → (m : Match) × Memᴰ m (match_from expression fuel pos s)
        × (m.index ≤ pos + q)
        × (pos + q < m.index + length m.text)
  unfolding match_from
  match_from-covers zero pos [] q n enough e =
      absurd (omega (arith, proper (drop q []) n e, length-drop q []))
  match_from-covers zero pos (c ∷ s) q n enough e = absurd (omega arith)
  match_from-covers (suc fuel) pos [] q n enough e =
      absurd (omega (arith, proper (drop q []) n e, length-drop q []))
  match_from-covers (suc fuel) pos (c ∷ s) q n enough e = elim (Option-cases (expression (c ∷ s))) [
    | inl none' ↦
        rw (none', match_from)
          (covers_next fuel pos c s q n none' e
            (λ r e'. match_from-covers fuel (pos + 1) s r n (omega arith) e'))
    | inr (k, e') ↦
        let size = length-drop k (c ∷ s) in
        let apart = proper (c ∷ s) k e' in
        rw (e', match_from)
          (elim (le_or_lt k q) [
            | inr within ↦ (
              record { index = pos; text = take k (c ∷ s) },
              Memᴰ.head refl,
              omega arith,
              omega (arith, length-take k (c ∷ s) apart.1),
            )
            | inl after ↦
                let e'' : expression (drop (q - k) (drop k (c ∷ s))) ≡ some n =
                  rw⁻¹ (drop_add k (q - k) (c ∷ s))
                    (ap (λ l. expression (drop l (c ∷ s))) (omega arith) ∙ e) in
                let (m, h, low, high) =
                  match_from-covers fuel (pos + k) (drop k (c ∷ s)) (q - k) n (omega arith) e'' in
                (m, Memᴰ.tail h, omega arith, omega arith)
          ])
  ]
