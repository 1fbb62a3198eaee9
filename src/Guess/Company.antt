-- ===== src/Guess/Company.antt =====
-- What a match of the company name is, and which category a text gets.
use mathlib.Core.List.{append_assoc}
use vn_phone_dp.Prelude.{
  ℕ, zero, suc, ◌≤◌, ◌≡◌, refl, ap, subst, ◌∙◌, true, ◌&&◌, some, List, [], ◌∷◌, ◌++◌, arith, Text,
  length, take, drop, any, leb, Bool-cases, Option-cases, inl, inr, and-true, length-append, leb→le,
  All,
}
use vn_phone_dp.Guess.{
  begins_with, company_at, company_match, company_keywords, name_run, is_name_code,
}

take-drop : (n : ℕ) (s : Text) → take n s ++ drop n s ≡ s
take-drop zero s = refl
take-drop (suc n) [] = refl
take-drop (suc n) (c ∷ s) = ap (λ r. c ∷ r) (take-drop n s)

begins_with-nil : (canonicalize : ℕ → ℕ) (s : Text) → begins_with canonicalize s [] ≡ true
unfolding begins_with
begins_with-nil canonicalize [] = refl
begins_with-nil canonicalize (c ∷ s) = refl

-- The run is a prefix of at most n code units.
name_run-prefix :
    (n : ℕ) (s : Text) → (after : Text) × (name_run n s ++ after ≡ s) × (length (name_run n s) ≤ n)
unfolding name_run
name_run-prefix zero s = (s, refl, omega arith)
name_run-prefix (suc n) [] = ([], refl, omega arith)
name_run-prefix (suc n) (c ∷ s) =
    let (after, e, le) = name_run-prefix n s in
    elim (Bool-cases (is_name_code c)) [
      | inl inside ↦ rw inside (after, ap (λ r. c ∷ r) e, omega arith)
      | inr outside ↦ rw outside (c ∷ s, refl, omega arith)
    ]

length-take : (n : ℕ) (s : Text) → length (take n s) ≤ n
length-take zero s = omega arith
length-take (suc n) [] = omega arith
length-take (suc n) (c ∷ s) = omega (arith, length-take n s)

begins_with-take :
    (canonicalize : ℕ → ℕ) (s k after : Text)
    → begins_with canonicalize s k ≡ true
    → begins_with canonicalize (take (length k) s ++ after) k ≡ true
unfolding begins_with
begins_with-take canonicalize s [] after h = begins_with-nil canonicalize after
begins_with-take canonicalize [] (d ∷ k) after h = absurd (ground arith)
begins_with-take canonicalize (c ∷ s) (d ∷ k) after h =
    ground (arith, begins_with-take canonicalize s k after)

-- A match of a company name in a text: a piece of it, which starts with a keyword.
pub record IsCompanyName (canonicalize : ℕ → ℕ) (keywords : List Text) (s m : Text) : Type 0 where
  pub before : Text
  pub after : Text
  pub piece : before ++ (m ++ after) ≡ s
  pub keyword : any (begins_with canonicalize m) keywords ≡ true
  pub at_least : 2 ≤ length m
  pub at_most : length m ≤ 72

company_at-IsCompanyName :
    (canonicalize : ℕ → ℕ) (keywords : List Text) (s m : Text)
    → All (λ k. length k ≤ 12) keywords
    → company_at canonicalize keywords s ≡ some m
    → IsCompanyName canonicalize keywords s m
unfolding company_at
company_at-IsCompanyName canonicalize [] s m short h = absurd (ground arith)
company_at-IsCompanyName canonicalize (k ∷ keywords) s m (short, shorts) h =
    let name = name_run 60 (drop (length k) s) in
    let (rest, prefix, bound) = name_run-prefix 60 (drop (length k) s) in
    elim (Bool-cases (begins_with canonicalize s k && leb 2 (length name))) [
      | inl here ↦
          let e = rw here at h in
          let (starts, long) = and-true (begins_with canonicalize s k) (leb 2 (length name)) here in
          subst (IsCompanyName canonicalize (k ∷ keywords) s) (ground (arith, e)) (record {
            before = [];
            after = rest;
            piece =
                append_assoc (take (length k) s) name rest
                ∙ ap (λ r. take (length k) s ++ r) prefix
                ∙ take-drop (length k) s;
            keyword = ground (arith, begins_with-take canonicalize s k name starts);
            at_least =
                omega (arith, leb→le 2 (length name) long, length-append (take (length k) s) name);
            at_most = omega (
              arith,
              bound,
              short,
              length-take (length k) s,
              length-append (take (length k) s) name,
            );
          })
      | inr later ↦
          let found = company_at-IsCompanyName canonicalize keywords s m shorts (rw later at h) in
          record {
            before = found.before;
            after = found.after;
            piece = found.piece;
            keyword = ground (arith, found.keyword);
            at_least = found.at_least;
            at_most = found.at_most;
          }
    ]

-- A company name that is found in a text is a piece of the text of 2 to 72 code units that starts
-- with one of the keywords.
pub company_match-IsCompanyName :
    (canonicalize : ℕ → ℕ) (s m : Text)
    → company_match canonicalize s ≡ some m
    → IsCompanyName canonicalize company_keywords s m
unfolding company_match
company_match-IsCompanyName canonicalize [] m h = absurd (ground arith)
company_match-IsCompanyName canonicalize (c ∷ s) m h =
    elim (Option-cases (company_at canonicalize company_keywords (c ∷ s))) [
      | inl nowhere ↦
          let found = company_match-IsCompanyName canonicalize s m (rw nowhere at h) in
          record {
            before = c ∷ found.before;
            after = found.after;
            piece = ap (λ r. c ∷ r) found.piece;
            keyword = found.keyword;
            at_least = found.at_least;
            at_most = found.at_most;
          }
      | inr (n, here) ↦
          company_at-IsCompanyName canonicalize company_keywords (c ∷ s) m
            (omega arith, (omega arith, (omega arith, tt))) (here ∙ (rw here at h))
    ]
