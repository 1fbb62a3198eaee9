-- ===== src/Phone/Separators.antt =====
-- The normaliser reads only the digits and the plus signs of its input.
use mathlib.Core.List.{append-nil, reverse, reverse-cons, reverse-reverse}
use vn_phone_dp.Prelude.{
  ℕ, ◌≡◌, ◌≢◌, ◌≤◌, ◌<◌, ◌⊎◌, refl, Bool, true, false, List, [], ◌∷◌, arith, Text, is_space,
  trim_start, trim, filter, filter-append, filter_of_all, all, Bool-cases, Option-cases, inl, inr,
  sym, ap, ◌∙◌,
}
use vn_phone_dp.Phone.{
  is_dialed, digits_only, uncoded, coded, to_national_form, national_result, only_digits_keep_plus,
  normalize_cleaned, normalize_vietnam_phone,
}

filter-reverse {ℓ} :
    {A : Type ℓ} (p : A → Bool) (xs : List A) → filter p (reverse xs) ≡ reverse (filter p xs)
filter-reverse p [] = refl
filter-reverse p (x ∷ xs) = elim (Bool-cases (p x)) [
  | inl kept ↦
      rw reverse-cons
        (rw filter-append (rw (kept, filter-reverse p xs) (sym (reverse-cons x (filter p xs)))))
  | inr gone ↦ rw reverse-cons (rw filter-append (rw (gone, filter-reverse p xs) (append-nil _)))
]

dialed-not-space : (c : ℕ) → is_space c ≡ true → is_dialed c ≡ false
unfolding is_space
dialed-not-space c h = ground arith

filter-trim_start : (s : Text) → filter is_dialed (trim_start s) ≡ filter is_dialed s
unfolding trim_start
filter-trim_start [] = refl
filter-trim_start (c ∷ s) = elim (Bool-cases (is_space c)) [
  | inl space ↦ rw (space, dialed-not-space c space) (filter-trim_start s)
  | inr other ↦ rw other
]

-- Trimming first makes no difference.
pub only_digits_keep_plus-trim :
    (s : Text) → only_digits_keep_plus (trim s) ≡ only_digits_keep_plus s
unfolding only_digits_keep_plus trim
only_digits_keep_plus-trim s =
    filter-reverse is_dialed (trim_start (reverse (trim_start s)))
    ∙ ap reverse (filter-trim_start (reverse (trim_start s)))
    ∙ ap reverse (filter-reverse is_dialed (trim_start s))
    ∙ reverse-reverse (filter is_dialed (trim_start s))
    ∙ filter-trim_start s

pub normalize_vietnam_phone_lem :
    (raw : Text) → normalize_vietnam_phone raw ≡ normalize_cleaned raw (only_digits_keep_plus raw)
unfolding normalize_vietnam_phone
normalize_vietnam_phone_lem raw = ap (normalize_cleaned raw) (only_digits_keep_plus-trim raw)

-- A number of digits and plus signs alone passes the cleaning as it is.
pub only_digits_keep_plus_self : (s : Text) → all is_dialed s ≡ true → only_digits_keep_plus s ≡ s
unfolding only_digits_keep_plus
only_digits_keep_plus_self s h = filter_of_all is_dialed s h

uncoded_raw :
    (raw other digits : Text) → uncoded other digits ≡ record (uncoded raw digits) { raw = other }
unfolding uncoded
uncoded_raw raw other digits = ground arith

pub national_result_raw :
    (raw other national : Text)
    → national_result other national ≡ record (national_result raw national) { raw = other }
unfolding national_result
national_result_raw raw other national = ground arith

coded_raw :
    (raw other cleaned : Text) → coded other cleaned ≡ record (coded raw cleaned) { raw = other }
unfolding coded
coded_raw raw other cleaned = elim (Option-cases (to_national_form cleaned)) [
  | inl missing ↦ rw (missing, coded)
  | inr (national, found) ↦
      rw (found, coded) (ground (arith, national_result_raw raw other national))
]

-- The result, but for the copy of the input, is a function of the cleaned text.
pub normalize_cleaned_raw :
    (raw other cleaned : Text)
    → normalize_cleaned other cleaned ≡ record (normalize_cleaned raw cleaned) { raw = other }
unfolding normalize_cleaned
normalize_cleaned_raw raw other [] = refl
normalize_cleaned_raw raw other (c ∷ s) =
    ground (arith, uncoded_raw raw other (digits_only (c ∷ s)), coded_raw raw other (c ∷ s))

-- An input with the same cleaned text has the same result, but for the copy of the input.
pub normalize_vietnam_phone-cleaned :
    (raw other : Text)
    → only_digits_keep_plus raw ≡ only_digits_keep_plus other
    → normalize_vietnam_phone other ≡ record (normalize_vietnam_phone raw) { raw = other }
normalize_vietnam_phone-cleaned raw other h =
    rw (normalize_vietnam_phone_lem other)
      (rw (← h) (rw (normalize_vietnam_phone_lem raw) (normalize_cleaned_raw raw other _)))

-- A digit or a plus sign.
pub data IsKept : ℕ → Type 0 where
  digit : {c : ℕ} → b'0' ≤ c → c ≤ b'9' → IsKept c
  plus : IsKept b'+'

-- The second text is the first without the characters that are neither digits nor plus signs.
pub data Erases : Text → Text → Type 0 where
  nothing : Erases [] []
  keeps : {c : ℕ} {s d : Text} → IsKept c → Erases s d → Erases (c ∷ s) (c ∷ d)
  skips : {c : ℕ} {s d : Text} → (c < b'0') ⊎ (b'9' < c) → c ≢ b'+' → Erases s d → Erases (c ∷ s) d

IsKept-dialed : (c : ℕ) → IsKept c → is_dialed c ≡ true
IsKept-dialed c (IsKept.digit low high) = ground arith
IsKept-dialed c IsKept.plus = refl

skipped-dialed : (c : ℕ) → (c < b'0') ⊎ (b'9' < c) → c ≢ b'+' → is_dialed c ≡ false
skipped-dialed c out other = ground arith

only_digits_keep_plus-Erases : (s d : Text) → Erases s d → only_digits_keep_plus s ≡ d
unfolding only_digits_keep_plus
only_digits_keep_plus-Erases [] [] Erases.nothing = refl
only_digits_keep_plus-Erases [] (_ ∷ d) erases = elim erases [ ]
only_digits_keep_plus-Erases (c ∷ s) (_ ∷ d) (Erases.keeps kept erases) =
    rw (IsKept-dialed c kept) (ap (λ t. c ∷ t) (only_digits_keep_plus-Erases s d erases))
only_digits_keep_plus-Erases (c ∷ s) d (Erases.skips out other erases) =
    rw (skipped-dialed c out other) (only_digits_keep_plus-Erases s d erases)

-- Two spellings that are the same text once all characters but digits and plus signs are erased have
-- the same result, but for the copy of the input: spaces, dots, dashes, brackets and letters anywhere
-- in the input make no difference.
pub normalize_vietnam_phone-separators :
    (raw other digits : Text)
    → Erases raw digits
    → Erases other digits
    → normalize_vietnam_phone other ≡ record (normalize_vietnam_phone raw) { raw = other }
normalize_vietnam_phone-separators raw other digits h k =
    normalize_vietnam_phone-cleaned raw other (
      only_digits_keep_plus-Erases raw digits h ∙ sym (only_digits_keep_plus-Erases other digits k))
