-- ===== src/Extractor/Found.antt =====
-- The candidates of a text: where they stand, and that none is missed.
use mathlib.Core.List.{Memᴰ}
use mathlib.Core.List.Memᴰ
use vn_phone_dp.Prelude.{
  ℕ, zero, suc, ◌+◌, ◌-◌, min, ◌≡◌, ◌≤◌, ◌<◌, refl, subst, sym, ap, ◌∙◌, true, [], ◌∷◌, ◌++◌, Text,
  length, length-append, take, drop, slice, trim, arith,
}
use vn_phone_dp.Prelude.Sorting.{IsOrdered}
use vn_phone_dp.Prelude.Members.{IsOrdered-map}
use vn_phone_dp.Prelude.Trim.{length-trim}
use vn_phone_dp.Matches.{Match, match_all}
use vn_phone_dp.Matches.Scan.{
  length-drop, match_from-placed, match_from-IsOrdered, match_from-covers,
}
use vn_phone_dp.Extractor.{
  PhoneExtractionCandidate, phone_candidate, candidate_at, extract_phone_candidates_from_text,
  first_paragraph, clamp_to_paragraph,
}
use vn_phone_dp.Extractor.Pattern.{phone_candidate_sound, phone_candidate_complete, drop-append}
use vn_phone_dp.Extractor.Shape.{IsPhoneLike}
use vn_phone_dp.Extractor.Lines.{
  IsPhoneLike-trim, phone_candidate-IsExpression, is_line, EndsLine, StartsLine,
  last_paragraph-line, first_paragraph-line, to_space_line,
}

-- A context is the part of a window of 80 code units from the number to the next line end, or to the
-- end of the window when it has no line end, without the white space at the ends of that part.
pub record IsCandidateOf (text : Text) (c : PhoneExtractionCandidate) : Type 0 where
  pub shape : IsPhoneLike c.phone_raw
  pub raw : c.phone_raw ≡ slice c.position_start c.position_end text
  pub ends : c.position_end ≡ c.position_start + length c.phone_raw
  pub inside : c.position_end ≤ length text
  pub before :
      (u : Text) × (v : Text) × (slice (c.position_start - 80) c.position_start text ≡ u ++ v)
      × (is_line v ≡ true)
      × EndsLine u
      × (c.context_before ≡ trim v)
      × (length c.context_before ≤ 80)
  pub after :
      (u : Text) × (v : Text) × (slice c.position_end (min (length text) (c.position_end + 80)) text
        ≡ u ++ v)
      × (is_line u ≡ true)
      × StartsLine v
      × (c.context_after ≡ trim u)
      × (length c.context_after ≤ 80)

length-take_le : (n : ℕ) (s : Text) → length (take n s) ≤ n
length-take_le zero s = omega arith
length-take_le (suc n) [] = omega arith
length-take_le (suc n) (c ∷ s) = omega (arith, length-take_le n s)

-- The part of a window that is kept is no longer than the window.
part-short :
    (n : ℕ) (w s u v : Text)
    → w ≡ take n s
    → w ≡ u ++ v
    → (length (trim u) ≤ n) × (length (trim v) ≤ n)
part-short n w s u v e e' =
    let size = ap (λ (t : Text). length t) e in
    let size' = ap (λ (t : Text). length t) e' in
    let total = length-append u v in
    (
      omega (arith, length-take_le n s, size, size', total, length-trim u),
      omega (arith, length-take_le n s, size, size', total, length-trim v),
    )

module _ (canonicalize : ℕ → ℕ) (text extraction_method : Text) where
  candidate_at-IsCandidateOf :
      (m : Match)
      → Memᴰ m (match_all phone_candidate text)
      → IsCandidateOf text (candidate_at canonicalize text extraction_method m)
  unfolding candidate_at match_all clamp_to_paragraph
  candidate_at-IsCandidateOf m h =
      let (k, i, found, t) =
        match_from-placed phone_candidate phone_candidate-IsExpression (length text) 0 text m h in
      let (like, some', fits) = phone_candidate_sound (drop k text) (length m.text) found in
      let like' : IsPhoneLike m.text = subst IsPhoneLike (sym t) like in
      let raw = IsPhoneLike-trim m.text like' in
      let count : length m.text ≡ m.index + length m.text - m.index = omega arith in
      let place : m.index ≡ k = omega arith in
      let size = length-drop k text in
      let (u, e, line, ends) = last_paragraph-line (slice (m.index - 80) m.index text) in
      let end = m.index + length m.text in
      let (v, e', line', starts) =
        first_paragraph-line (slice end (min (length text) (end + 80)) text) in
      let kept = ap trim (to_space_line _ line) in
      let kept' = ap trim (to_space_line _ line') in
      let short = part-short (m.index - (m.index - 80)) _ _ u _ refl e in
      let short' =
        part-short (min (length text) (end + 80) - end) _ _ (first_paragraph _) v refl e' in
      record {
        shape = rw raw like';
        raw =
            raw
            ∙ t
            ∙ ap (λ l. take l (drop k text)) count
            ∙ ap (λ j. take (end - m.index) (drop j text)) (sym place);
        ends = rw raw refl;
        inside = omega arith;
        before =
            (u, _, e, line, ends, kept, omega (arith, short.1, ap (λ (x : Text). length x) kept));
        after = (
          _,
          v,
          e',
          line',
          starts,
          kept',
          omega (arith, short'.0, ap (λ (x : Text). length x) kept'),
        );
      }

-- Every candidate of a text is a phone-like part of it, which its positions delimit. Its contexts are
-- the parts of the windows of 80 code units on either side up to the nearest line end, or the whole
-- windows where they have none, trimmed. The candidates are in the order of the text and do not
-- overlap.
pub extract_phone_candidates_from_text-IsCandidateOf :
    (canonicalize : ℕ → ℕ) (text extraction_method : Text)
    → ((c : PhoneExtractionCandidate)
        → Memᴰ c (extract_phone_candidates_from_text canonicalize text extraction_method)
        → IsCandidateOf text c)
      × IsOrdered
          (λ a b. a.position_end ≤ b.position_start)
          (extract_phone_candidates_from_text canonicalize text extraction_method)
unfolding extract_phone_candidates_from_text candidate_at match_all
extract_phone_candidates_from_text-IsCandidateOf canonicalize text extraction_method = (
  λ c h.
      let (m, n, e) =
        Memᴰ.of_map (candidate_at canonicalize text extraction_method)
          (match_all phone_candidate text) h in
      subst (IsCandidateOf text) e
        (candidate_at-IsCandidateOf canonicalize text extraction_method m n),
  IsOrdered-map (candidate_at canonicalize text extraction_method)
      (λ a b. a.position_end ≤ b.position_start) (match_all phone_candidate text)
      (match_from-IsOrdered phone_candidate phone_candidate-IsExpression (length text) 0 text),
)

-- Wherever a phone-like text stands in a text, there is a candidate that covers its first code unit.
pub extract_phone_candidates_from_text-covers :
    (canonicalize : ℕ → ℕ) (extraction_method u w v : Text)
    → IsPhoneLike w
    → (c : PhoneExtractionCandidate) × Memᴰ c
        (extract_phone_candidates_from_text canonicalize (u ++ (w ++ v)) extraction_method)
      × (c.position_start ≤ length u)
      × (length u < c.position_end)
unfolding extract_phone_candidates_from_text candidate_at match_all
extract_phone_candidates_from_text-covers canonicalize extraction_method u w v like =
    let (n, e) = phone_candidate_complete w v like in
    let (m, h, low, high) =
      match_from-covers phone_candidate phone_candidate-IsExpression (length (u ++ (w ++ v))) 0
        (u ++ (w ++ v)) (length u) n (omega arith) (rw (drop-append u (w ++ v)) e) in
    (
      candidate_at canonicalize (u ++ (w ++ v)) extraction_method m,
      Memᴰ.map (candidate_at canonicalize (u ++ (w ++ v)) extraction_method) h,
      omega arith,
      omega arith,
    )
