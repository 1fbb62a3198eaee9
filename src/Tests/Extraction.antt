-- ===== src/Tests/Extraction.antt =====
-- Runs of apps/api/src/__tests__/phoneExtractor.test.ts.
use vn_phone_dp.Prelude.{◌≡◌, ◌≤◌, ◌<◌, refl, [], ◌∷◌, ◌++◌, map, arith, Text, codes, length}
use vn_phone_dp.Prelude.Sorting.{IsOrdered}
use mathlib.Core.List.{Memᴰ}
use vn_phone_dp.Extractor.{PhoneExtractionCandidate, extract_phone_candidates_from_text}
use vn_phone_dp.Extractor.{is_separator}
use vn_phone_dp.Prelude.{is_space}
use vn_phone_dp.Extractor.Shape.{Units, IsPhoneLike}
use vn_phone_dp.Extractor.Found.{
  IsCandidateOf, extract_phone_candidates_from_text-IsCandidateOf,
  extract_phone_candidates_from_text-covers,
}
use vn_phone_dp.Extractor.Html.{extract_phone_candidates_from_html}
use vn_phone_dp.Tests.Program.{program}
use vn_phone_dp.Tests.Identities.{lower}

abbrev hotline_text : Text
hotline_text = codes "Cty ABC.\n Hotline: 0912 345 678. Ha Noi\nx"

one_number :
    map
      (λ c. c.phone_raw)
      (extract_phone_candidates_from_text lower hotline_text (codes "REGEX_TEXT"))
    ≡ codes "0912 345 678" ∷ []
unfolding program
one_number = refl

its_context :
    map
      (λ c. c.context_text)
      (extract_phone_candidates_from_text lower hotline_text (codes "REGEX_TEXT"))
    ≡ codes "Hotline: 0912 345 678 . Ha Noi" ∷ []
unfolding program
its_context = refl

its_confidence :
    map
      (λ c. c.confidence)
      (extract_phone_candidates_from_text lower hotline_text (codes "REGEX_TEXT"))
    ≡ 90 ∷ []
unfolding program
its_confidence = refl

two_numbers :
    map
      (λ c. (c.phone_raw))
      (extract_phone_candidates_from_text lower
        (codes "Liên hệ 0912345678 hoặc 0987654321 để được tư vấn.")
        (codes "REGEX_TEXT"))
    ≡ codes "0912345678" ∷ codes "0987654321" ∷ []
unfolding program
two_numbers = refl

embedded_hotline :
    map
      (λ c. c.phone_raw)
      (extract_phone_candidates_from_text lower (codes "1900 1234 24/7.") (codes "REGEX_TEXT"))
    ≡ codes "1900 1234 24" ∷ []
unfolding program
embedded_hotline = refl

abbrev page : Text
page =
    codes
      "<title>Gọi 0912345678</title><style>0999999999</style><a href=\"tel:0912345670\">x</a><p>Tel 0912345671</p><script>0888888888</script>"

of_page :
    map (λ c. c.phone_raw) (extract_phone_candidates_from_html lower page)
    ≡ codes "0912345670" ∷ codes "0912345678" ∷ codes "0912345671" ∷ codes "0912345678" ∷ []
unfolding program
of_page = refl

of_description :
    map
      (λ c. c.extraction_method)
      (extract_phone_candidates_from_html lower
        (codes "<meta name=\"description\" content=\"Gọi 0912345678 để đặt hàng\">"))
    ≡ codes "REGEX_META_DESCRIPTION" ∷ []
unfolding program
of_description = refl

extract_phone_candidates_from_text-IsCandidateOf_example :
    ((c : PhoneExtractionCandidate)
      → Memᴰ c (extract_phone_candidates_from_text lower hotline_text (codes "REGEX_TEXT"))
      → IsCandidateOf hotline_text c)
    × IsOrdered
        (λ a b. a.position_end ≤ b.position_start)
        (extract_phone_candidates_from_text lower hotline_text (codes "REGEX_TEXT"))
extract_phone_candidates_from_text-IsCandidateOf_example =
    extract_phone_candidates_from_text-IsCandidateOf lower hotline_text (codes "REGEX_TEXT")

dialed : IsPhoneLike (codes "0 91.2345678")
unfolding is_separator is_space
dialed = IsPhoneLike.national (
  9,
  codes " 91.2345678",
  omega arith,
  omega arith,
  Units.separated refl refl (
      Units.digit refl (
        Units.separated refl refl (
          Units.digit refl (
            Units.digit refl (
              Units.digit refl
                (Units.digit refl (Units.digit refl (Units.digit refl Units.nothing)))))))),
  refl,
)

extract_phone_candidates_from_text-covers_example :
    (c : PhoneExtractionCandidate) × Memᴰ c (
      extract_phone_candidates_from_text lower
        (codes "tel " ++ (codes "0 91.2345678" ++ codes " x"))
        (codes "REGEX_TEXT"))
    × (c.position_start ≤ length (codes "tel "))
    × (length (codes "tel ") < c.position_end)
extract_phone_candidates_from_text-covers_example =
    extract_phone_candidates_from_text-covers lower (codes "REGEX_TEXT") (codes "tel ")
      (codes "0 91.2345678") (codes " x") dialed
