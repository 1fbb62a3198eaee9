-- ===== src/Prelude/Trim.antt =====
-- What `trim` keeps.
use Prim.Native.Nat.{ℕ, ◌+◌, ◌≤◌}
use mathlib.Core.Path.{◌≡◌, refl, sym, ap, ◌∙◌}
use mathlib.Core.Bool.{false}
use mathlib.Core.List.{[], ◌∷◌, ◌++◌, reverse, reverse_aux, reverse-append, reverse-reverse}
use native.Mathlib.Omega.{arith}
use vn_phone_dp.Prelude.Lists.{length}
use vn_phone_dp.Prelude.Texts.{Text, is_space, trim_start, trim}

length-reverse_aux : (s r : Text) → length (reverse_aux s r) ≡ length s + length r
length-reverse_aux [] r = omega arith
length-reverse_aux (c ∷ s) r = omega (arith, length-reverse_aux s (c ∷ r))

length-reverse : (s : Text) → length (reverse s) ≡ length s
length-reverse s = omega (arith, length-reverse_aux s [])

length-trim_start : (s : Text) → length (trim_start s) ≤ length s
unfolding trim_start
length-trim_start [] = omega arith
length-trim_start (c ∷ s) = ground (arith, length-trim_start s)

-- Nothing is added.
pub length-trim : (s : Text) → length (trim s) ≤ length s
unfolding trim
length-trim s = omega (
  arith,
  length-reverse (trim_start (reverse (trim_start s))),
  length-trim_start (reverse (trim_start s)),
  length-reverse (trim_start s),
  length-trim_start s,
)

trim_start_self : (c : ℕ) (s : Text) → is_space c ≡ false → trim_start (c ∷ s) ≡ c ∷ s
unfolding trim_start
trim_start_self c s h = rw h refl

-- A text that neither begins nor ends with white space is kept.
pub trim_self :
    (c d : ℕ) (s v : Text)
    → is_space c ≡ false
    → is_space d ≡ false
    → c ∷ s ≡ v ++ d ∷ []
    → trim (c ∷ s) ≡ c ∷ s
unfolding trim
trim_self c d s v first last e = rw (trim_start_self c s first) (
    ap (λ (t : Text). reverse (trim_start t)) (ap reverse e ∙ reverse-append v (d ∷ []))
    ∙ ap reverse (trim_start_self d (reverse v) last)
    ∙ ap reverse (sym (ap reverse e ∙ reverse-append v (d ∷ [])))
    ∙ reverse-reverse (c ∷ s))
