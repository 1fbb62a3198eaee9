-- ===== src/Matches.antt =====
-- Global matching of a regular expression, as `s.matchAll(/…/g)` and `s.replace(/…/g, t)` do it. The
-- expression is a function that gives the length of its match at the beginning of a text; its
-- matches are not empty.
pub mod Scan
pub mod Enough
use vn_phone_dp.Prelude.{
  ℕ, zero, suc, ◌+◌, ◌≡◌, ◌≤◌, Option, none, some, List, [], ◌∷◌, ◌++◌, Text, length, take, drop,
}

-- `match.index` and `match[0]`
pub record Match : Type 0 where
  pub index : ℕ
  pub text : Text

-- From position `pos` on, of which `s` is the rest of the text.
unfoldable pub match_from : (Text → Option ℕ) → ℕ → ℕ → Text → List Match
match_from expression zero pos s = []
match_from expression (suc fuel) pos [] = []
match_from expression (suc fuel) pos (c ∷ s) = elim (expression (c ∷ s)) [
  | none ↦ match_from expression fuel (pos + 1) s
  | some n ↦
      record { index = pos; text = take n (c ∷ s) }
      ∷ match_from expression fuel (pos + n) (drop n (c ∷ s))
]

-- The fuel is the length of the text.
unfoldable pub match_all : (Text → Option ℕ) → Text → List Match
match_all expression s = match_from expression (length s) 0 s

unfoldable pub replace_from : (Text → Option ℕ) → Text → ℕ → Text → Text
replace_from expression by zero s = s
replace_from expression by (suc fuel) [] = []
replace_from expression by (suc fuel) (c ∷ s) = elim (expression (c ∷ s)) [
  | none ↦ c ∷ replace_from expression by fuel s
  | some n ↦ by ++ replace_from expression by fuel (drop n (c ∷ s))
]

unfoldable pub replace_all : (Text → Option ℕ) → Text → Text → Text
replace_all expression by s = replace_from expression by (length s) s

-- The matches are not empty and end with the text at the latest.
abbrev pub IsExpression : (Text → Option ℕ) → Type 0
IsExpression expression = (s : Text) (n : ℕ) → expression s ≡ some n → (1 ≤ n) × (n ≤ length s)
