-- ===== src/Extractor/Lines.antt =====
-- What trimming and clamping to a paragraph keep.
use mathlib.Core.List.{append_assoc}
use vn_phone_dp.Prelude.{
  ℕ, zero, suc, ◌≡◌, ◌≢◌, ◌⊎◌, ◌≤◌, refl, sym, ap, ◌∙◌, Bool, true, false, [], ◌∷◌, ◌++◌, map, Text,
  codes, is_digit, is_space, not, trim, any, arith, Bool-cases, inl, inr, ◌==◌,
}
use vn_phone_dp.Prelude.Trim.{trim_self}
use vn_phone_dp.Matches.{IsExpression}
use vn_phone_dp.Matches.Scan.{}
use vn_phone_dp.Extractor.{phone_candidate, newline, first_paragraph, last_paragraph, to_space}
use vn_phone_dp.Extractor.Pattern.{phone_candidate_sound}
use vn_phone_dp.Extractor.Shape.{Units, IsPrefixed, IsPhoneLike}

-- A phone-like text ends with a digit, and begins with a digit or a plus sign.
Units-last :
    (n : ℕ) (u : Text)
    → Units (suc n) u
    → (v : Text) × (d : ℕ) × (is_digit d ≡ true) × (u ≡ v ++ d ∷ [])
Units-last n [] us = elim us [ ]
Units-last zero (d ∷ []) (Units.digit isd us) = ([], d, isd, refl)
Units-last zero (c ∷ d ∷ s) (Units.digit isd us) = elim us [ ]
Units-last (suc n) (d ∷ s) (Units.digit isd us) =
    let (v, e, ise, same) = Units-last n s us in (d ∷ v, e, ise, ap (λ t. d ∷ t) same)
Units-last zero (c ∷ d ∷ s) (Units.separated sep isd Units.nothing) = (c ∷ [], d, isd, refl)
Units-last (suc n) (c ∷ d ∷ s) (Units.separated sep isd us) =
    let (v, e, ise, same) = Units-last n s us in (c ∷ d ∷ v, e, ise, ap (λ t. c ∷ d ∷ t) same)

digit-space : (d : ℕ) → is_digit d ≡ true → is_space d ≡ false
unfolding is_space
digit-space d h = ground arith

IsPrefixed-trim :
    (least most c : ℕ) (p s : Text)
    → 1 ≤ least
    → is_space c ≡ false
    → IsPrefixed least most (c ∷ p) s
    → trim s ≡ s
IsPrefixed-trim least most c p s h first (zero, u, low, high, us, e) = absurd (omega arith)
IsPrefixed-trim least most c p s h first (suc n, u, low, high, us, e) =
    let (v, d, isd, same) = Units-last n u us in
    rw e (
      trim_self c d (p ++ u) (c ∷ p ++ v) first (digit-space d isd)
        (ap (λ t. c ∷ p ++ t) same ∙ sym (append_assoc (c ∷ p) v (d ∷ []))))

pub IsPhoneLike-trim : (s : Text) → IsPhoneLike s → trim s ≡ s
unfolding is_space
IsPhoneLike-trim s (IsPhoneLike.international like) =
    IsPrefixed-trim 8 10 b'+' (codes "84") s (omega arith) refl like
IsPhoneLike-trim s (IsPhoneLike.country like) =
    IsPrefixed-trim 8 10 b'8' (codes "4") s (omega arith) refl like
IsPhoneLike-trim s (IsPhoneLike.national like) =
    IsPrefixed-trim 8 10 b'0' [] s (omega arith) refl like
IsPhoneLike-trim s (IsPhoneLike.free like) =
    IsPrefixed-trim 4 7 b'1' (codes "800") s (omega arith) refl like
IsPhoneLike-trim s (IsPhoneLike.charged like) =
    IsPrefixed-trim 4 7 b'1' (codes "900") s (omega arith) refl like

pub phone_candidate-IsExpression : IsExpression phone_candidate
phone_candidate-IsExpression s n h =
    let (like, some', fits) = phone_candidate_sound s n h in (some', fits)

-- No line end.
abbrev pub is_line : Text → Bool
is_line s = not (any (λ c. c == newline) s)

not-true : (b : Bool) → not b ≡ true → b ≡ false
not-true b h = ground arith

true-false : true ≢ false
true-false h = ground arith

is_newline : (c : ℕ) → (c == newline) ≡ true → c ≡ newline
is_newline c h = ground arith

-- A part before which the line begins, and one after which it ends.
abbrev pub EndsLine : Text → Type 0
EndsLine u = (u ≡ []) ⊎ ((w : Text) × (u ≡ w ++ newline ∷ []))

abbrev pub StartsLine : Text → Type 0
StartsLine v = (v ≡ []) ⊎ ((w : Text) × (v ≡ newline ∷ w))

EndsLine-cons :
    (c : ℕ) (u v : Text)
    → any (λ d. d == newline) (u ++ v) ≡ true
    → is_line v ≡ true
    → EndsLine u
    → EndsLine (c ∷ u)
EndsLine-cons c u v more line (inl none) = absurd (
    true-false (
      sym more
      ∙ ap (λ t. any (λ d. d == newline) (t ++ v)) none
      ∙ not-true (any (λ d. d == newline) v) line))
EndsLine-cons c u v more line (inr (w, e)) = inr (c ∷ w, ap (λ t. c ∷ t) e)

pub last_paragraph-line :
    (s : Text)
    → (u : Text) × (s ≡ u ++ last_paragraph s) × (is_line (last_paragraph s) ≡ true) × EndsLine u
unfolding last_paragraph
last_paragraph-line [] = ([], refl, refl, inl refl)
last_paragraph-line (c ∷ s) = elim (Bool-cases (any (λ d. d == newline) s)) [
  | inl more ↦
      let (u, e, line, ends) = last_paragraph-line s in
      let has = ap (any (λ d. d == newline)) (sym e) ∙ more in
      rw (more, last_paragraph)
        (c ∷ u, ap (λ t. c ∷ t) e, line, EndsLine-cons c u (last_paragraph s) has line ends)
  | inr last ↦ elim (Bool-cases (c == newline)) [
    | inl end ↦
        rw (last, end, last_paragraph)
          (c ∷ [], refl, rw last refl, inr ([], ap (λ d. d ∷ []) (is_newline c end)))
    | inr inside ↦ rw (last, inside, last_paragraph) ([], refl, rw (inside, last) refl, inl refl)
  ]
]

pub first_paragraph-line :
    (s : Text)
    → (v : Text) × (s ≡ first_paragraph s ++ v)
      × (is_line (first_paragraph s) ≡ true)
      × StartsLine v
unfolding first_paragraph
first_paragraph-line [] = ([], refl, refl, inl refl)
first_paragraph-line (c ∷ s) = elim (Bool-cases (c == newline)) [
  | inl end ↦ rw end (c ∷ s, refl, refl, inr (s, ap (λ d. d ∷ s) (is_newline c end)))
  | inr inside ↦
      let (v, e, line, starts) = first_paragraph-line s in
      rw inside (v, ap (λ t. c ∷ t) e, rw inside line, starts)
]

pub to_space_line : (s : Text) → is_line s ≡ true → map to_space s ≡ s
to_space_line [] h = refl
to_space_line (c ∷ s) h =
    let inside : (c == newline) ≡ false = ground arith in
    let rest : is_line s ≡ true = ground arith in rw inside (ap (λ t. c ∷ t) (to_space_line s rest))
