-- ===== src/Extractor/Pattern.antt =====
-- The pattern of a phone number matches the phone-like texts.
use vn_phone_dp.Prelude.{
  ℕ, suc, ◌+◌, ◌≡◌, ◌≤◌, refl, ap, ◌∙◌, true, some, [], ◌∷◌, ◌++◌, Text, codes, length,
  length-append, take, drop, starts_with, leb, arith, Bool-cases, inl, inr,
}
use mathlib.Core.List.{append_assoc}
use vn_phone_dp.Extractor.{units, prefixed, phone_candidate}
use vn_phone_dp.Extractor.Shape.{
  IsPrefixed, IsPhoneLike, international, country, national, free, charged, units-Units, units-most,
}

take-append : (p s : Text) (m : ℕ) → take (length p + m) (p ++ s) ≡ p ++ take m s
take-append [] s m = ap (λ l. take l s) (omega arith)
take-append (c ∷ p) s m =
    let e : length (c ∷ p) + m ≡ suc (length p + m) = omega arith in
    rw e (ap (λ t. c ∷ t) (take-append p s m))

pub drop-append : (p s : Text) → drop (length p) (p ++ s) ≡ s
drop-append [] s = refl
drop-append (c ∷ p) s = drop-append p s

starts_with-split : (s p : Text) → starts_with s p ≡ true → s ≡ p ++ drop (length p) s
starts_with-split s [] h = refl
starts_with-split [] (d ∷ p) h = absurd (ground arith)
starts_with-split (c ∷ s) (d ∷ p) h =
    let e : c ≡ d = ground arith in
    rw (← e) (ap (λ t. c ∷ t) (starts_with-split s p (ground arith)))

module _ (least most : ℕ) (p : Text) where
  prefixed_sound :
      (s : Text) (n : ℕ)
      → starts_with s p ≡ true
      → prefixed least most (length p) s ≡ some n
      → IsPrefixed least most p (take n s) × (length p ≤ n) × (n ≤ length s)
  unfolding prefixed
  prefixed_sound s n starts h =
      let (us, most', fits) = units-Units most (drop (length p) s) in
      let enough : least ≤ (units most (drop (length p) s)).0 = ground arith in
      let size : n ≡ length p + (units most (drop (length p) s)).1 = ground arith in
      let split = starts_with-split s p starts in
      (
        (
          _,
          _,
          enough,
          most',
          us,
          ap (λ l. take l s) size
              ∙ ap (take (length p + (units most (drop (length p) s)).1)) split
              ∙ take-append p (drop (length p) s) _,
        ),
        omega (arith, size),
        omega (arith, fits, ap (λ (t : Text). length t) split, length-append p (drop (length p) s)),
      )

  prefixed_complete :
      (s rest : Text)
      → IsPrefixed least most p s
      → (n : ℕ) × (prefixed least most (length p) (s ++ rest) ≡ some n)
  unfolding prefixed
  prefixed_complete s rest (n, u, low, high, us, e) =
      let found = units-most most n u rest us high in
      let place : drop (length p) (s ++ rest) ≡ u ++ rest =
        ap (λ (t : Text). drop (length p) (t ++ rest)) e
        ∙ ap (drop (length p)) (append_assoc p u rest)
        ∙ drop-append p (u ++ rest) in
      let enough : leb least (units most (u ++ rest)).0 ≡ true = ground arith in
      (length p + (units most (u ++ rest)).1, rw (place, enough) refl)

-- A match is phone-like.
pub phone_candidate_sound :
    (s : Text) (n : ℕ)
    → phone_candidate s ≡ some n
    → IsPhoneLike (take n s) × (1 ≤ n) × (n ≤ length s)
unfolding phone_candidate
phone_candidate_sound s n h = elim (Bool-cases (starts_with s (codes "+84"))) [
  | inl a ↦
      let (like, long, fits) = prefixed_sound 8 10 (codes "+84") s n a (rw a at h) in
      (international like, omega arith, fits)
  | inr a ↦ elim (Bool-cases (starts_with s (codes "84"))) [
    | inl b ↦
        let (like, long, fits) = prefixed_sound 8 10 (codes "84") s n b (rw (a, b) at h) in
        (country like, omega arith, fits)
    | inr b ↦ elim (Bool-cases (starts_with s (codes "0"))) [
      | inl c ↦
          let (like, long, fits) = prefixed_sound 8 10 (codes "0") s n c (rw (a, b, c) at h) in
          (national like, omega arith, fits)
      | inr c ↦ elim (Bool-cases (starts_with s (codes "1800"))) [
        | inl d ↦
            let (like, long, fits) =
              prefixed_sound 4 7 (codes "1800") s n d (rw (a, b, c, d) at h) in
            (free like, omega arith, fits)
        | inr d ↦ elim (Bool-cases (starts_with s (codes "1900"))) [
          | inl e ↦
              let (like, long, fits) =
                prefixed_sound 4 7 (codes "1900") s n e (rw (a, b, c, d, e) at h) in
              (charged like, omega arith, fits)
          | inr e ↦ absurd (ground (arith, rw (a, b, c, d, e) at h))
        ]
      ]
    ]
  ]
]

-- A text that begins with a phone-like text has a match at its beginning.
pub phone_candidate_complete :
    (s rest : Text) → IsPhoneLike s → (n : ℕ) × (phone_candidate (s ++ rest) ≡ some n)
unfolding phone_candidate
phone_candidate_complete s rest (international like) =
    let (n, e) = prefixed_complete 8 10 (codes "+84") s rest like in
    let same = like.5 in (n, rw same (rw same at e))
phone_candidate_complete s rest (country like) =
    let (n, e) = prefixed_complete 8 10 (codes "84") s rest like in
    let same = like.5 in (n, rw same (rw same at e))
phone_candidate_complete s rest (national like) =
    let (n, e) = prefixed_complete 8 10 (codes "0") s rest like in
    let same = like.5 in (n, rw same (rw same at e))
phone_candidate_complete s rest (free like) =
    let (n, e) = prefixed_complete 4 7 (codes "1800") s rest like in
    let same = like.5 in (n, rw same (rw same at e))
phone_candidate_complete s rest (charged like) =
    let (n, e) = prefixed_complete 4 7 (codes "1900") s rest like in
    let same = like.5 in (n, rw same (rw same at e))
