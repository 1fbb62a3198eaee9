-- ===== src/Extractor/Html.antt =====
-- extractPhoneCandidatesFromHtml: the text that a page shows, its links that dial, its title and its
-- description. Of each regular expression the parts are functions that give the length of a match;
-- where a part can match in one way only, its greed makes no difference.
use vn_phone_dp.Prelude.{
  ℕ, suc, ◌+◌, ◌-◌, Bool, not, ◌||◌, Option, none, some, List, [], ◌∷◌, ◌++◌, map, Text, codes,
  is_space, trim, length, take, drop, or_else, ◌==◌, if◌then◌else◌,
}
use vn_phone_dp.Guess.{begins_with}
use vn_phone_dp.Matches.{Match, match_all, replace_all}
use vn_phone_dp.Extractor.{PhoneExtractionCandidate, newline, extract_phone_candidates_from_text}

-- A literal part, with the flag `i` by the case mapping.
unfoldable pub literal : (ℕ → ℕ) → Text → Text → Option ℕ
literal canonicalize keyword s =
    if begins_with canonicalize s keyword then some (length keyword) else none

-- How many code units at the beginning are of a class.
unfoldable pub span : (ℕ → Bool) → Text → ℕ
span p [] = 0
span p (c ∷ s) = let rest = span p s in if p c then suc rest else 0

-- `[…]*` and `[…]+`, followed by nothing of the class
unfoldable pub many : (ℕ → Bool) → Text → Option ℕ
many p s = some (span p s)

unfoldable pub many1 : (ℕ → Bool) → Text → Option ℕ
many1 p [] = none
many1 p (c ∷ s) = if p c then some (suc (span p s)) else none

-- One part after another.
unfoldable pub sequence : (Text → Option ℕ) → (Text → Option ℕ) → Text → Option ℕ
sequence first second s = elim (first s) [
  | none ↦ none
  | some n ↦ elim (second (drop n s)) [ none ↦ none | some m ↦ some (n + m) ]
]

unfoldable pub alternatives : List (Text → Option ℕ) → Text → Option ℕ
alternatives [] s = none
alternatives (part ∷ parts) s = or_else (part s) (alternatives parts s)

abbrev longer : Option ℕ → Option ℕ
longer none = none
longer (some n) = some (suc n)

-- `[\s\S]*?` and a part: up to the first match of the part.
unfoldable pub lazily : (Text → Option ℕ) → Text → Option ℕ
lazily part [] = part []
lazily part (c ∷ s) = let rest = lazily part s in or_else (part (c ∷ s)) (longer rest)

-- `["']`
abbrev pub is_quote : ℕ → Bool
is_quote c = c == b'"' || c == b'\''

abbrev pub not_greater : ℕ → Bool
not_greater c = not (c == b'>')

unfoldable pub quote : Text → Option ℕ
quote [] = none
quote (c ∷ s) = if is_quote c then some 1 else none

module _ (canonicalize : ℕ → ℕ) where
  -- `<script[\s\S]*?<\/script>`, and so for `style`
  unfoldable pub element_of : Text → Text → Option ℕ
  element_of tag =
      sequence (literal canonicalize (codes "<" ++ tag))
        (lazily (literal canonicalize (codes "</" ++ tag ++ codes ">")))

  -- `\/?`
  unfoldable pub slash : Text → Option ℕ
  slash s = or_else (literal canonicalize (codes "/") s) (some 0)

  -- `<br\s*\/?>`
  unfoldable pub line_break : Text → Option ℕ
  line_break =
      sequence (literal canonicalize (codes "<br"))
        (sequence (many is_space) (sequence slash (literal canonicalize (codes ">"))))

  -- `<\/(p|li|h[1-6]|div|tr|td|th|section|article|header|footer)>`
  unfoldable pub block_end : Text → Option ℕ
  block_end = alternatives (
      map (λ tag. literal canonicalize (codes "</" ++ tag ++ codes ">"))
        (codes "p"
          ∷ codes "li"
          ∷ codes "h1"
          ∷ codes "h2"
          ∷ codes "h3"
          ∷ codes "h4"
          ∷ codes "h5"
          ∷ codes "h6"
          ∷ codes "div"
          ∷ codes "tr"
          ∷ codes "td"
          ∷ codes "th"
          ∷ codes "section"
          ∷ codes "article"
          ∷ codes "header"
          ∷ codes "footer"
          ∷ []))

  -- `href=["']tel:([^"']+)["']`
  unfoldable pub tel_href : Text → Option ℕ
  tel_href = sequence (literal canonicalize (codes "href=")) (
      sequence quote (
        sequence (literal canonicalize (codes "tel:"))
          (sequence (many1 (λ c. not (is_quote c))) quote)))

  -- `<title[^>]*>`
  unfoldable pub title_start : Text → Option ℕ
  title_start =
      sequence (literal canonicalize (codes "<title"))
        (sequence (many not_greater) (literal canonicalize (codes ">")))

  -- `<title[^>]*>([\s\S]*?)<\/title>`
  unfoldable pub title_element : Text → Option ℕ
  title_element = sequence title_start (lazily (literal canonicalize (codes "</title>")))

  -- The group of a match of `title_element`.
  unfoldable pub title_text : Text → Text
  title_text s = elim (title_start s) [ none ↦ [] | some n ↦ take (length s - n - 8) (drop n s) ]

-- `<[^>]+>`
unfoldable pub tag : Text → Option ℕ
tag =
    sequence (literal (λ c. c) (codes "<"))
      (sequence (many1 not_greater) (literal (λ c. c) (codes ">")))

abbrev is_blank : ℕ → Bool
is_blank c = c == b' ' || c == 9

abbrev is_blank_space : ℕ → Bool
is_blank_space c = c == b' '

-- ` *\n *`
unfoldable pub padded_newline : Text → Option ℕ
padded_newline =
    sequence (many is_blank_space)
      (sequence (literal (λ c. c) (newline ∷ [])) (many is_blank_space))

unfoldable pub strip_html_to_visible_text : (ℕ → ℕ) → Text → Text
strip_html_to_visible_text canonicalize html =
    let html = replace_all (element_of canonicalize (codes "script")) (codes " ") html in
    let html = replace_all (element_of canonicalize (codes "style")) (codes " ") html in
    let html = replace_all (line_break canonicalize) (newline ∷ []) html in
    let html = replace_all (block_end canonicalize) (newline ∷ []) html in
    let html = replace_all tag (codes " ") html in
    let html = replace_all (literal (λ c. c) (codes "&nbsp;")) (codes " ") html in
    let html = replace_all (literal (λ c. c) (codes "&amp;")) (codes "&") html in
    let html = replace_all (many1 is_blank) (codes " ") html in
    let html = replace_all padded_newline (newline ∷ []) html in
    let html = replace_all (many1 (λ c. c == newline)) (newline ∷ []) html in trim html

-- `[^>]+` and what follows: as many code units as leave a match of the rest.
unfoldable pub greedily : (Text → Option Text) → Text → Option Text
greedily next [] = none
greedily next (c ∷ s) =
    let more = greedily next s in if not_greater c then or_else more (next s) else none

-- `content=["']([^"']*)["']`: the group.
unfoldable pub content_value : (ℕ → ℕ) → Text → Option Text
content_value canonicalize s = elim (sequence (literal canonicalize (codes "content=")) quote s) [
  | none ↦ none
  | some n ↦
      let value = take (span (λ c. not (is_quote c)) (drop n s)) (drop n s) in
      elim (quote (drop (length value) (drop n s))) [ none ↦ none | some one ↦ some value ]
]

-- `name=["']description["'][^>]+content=["']([^"']*)["']`
unfoldable pub description_value : (ℕ → ℕ) → Text → Option Text
description_value canonicalize s =
    elim (sequence (literal canonicalize (codes "name="))
      (sequence quote (sequence (literal canonicalize (codes "description")) quote)) s) [
        | none ↦ none
        | some n ↦ greedily (content_value canonicalize) (drop n s)
      ]

-- The group of the first match of `<meta[^>]+` and the rest.
unfoldable pub meta_description : (ℕ → ℕ) → Text → Option Text
meta_description canonicalize [] = none
meta_description canonicalize (c ∷ s) =
    let rest = meta_description canonicalize s in
    elim (literal canonicalize (codes "<meta") (c ∷ s)) [
      | none ↦ rest
      | some n ↦ or_else (greedily (description_value canonicalize) (drop n (c ∷ s))) rest
    ]

-- The group of a match of `tel_href`, between ten code units and the last one.
unfoldable pub tel_candidate : Match → PhoneExtractionCandidate
tel_candidate m =
    let phone_raw = trim (take (length m.text - 11) (drop 10 m.text)) in
    record {
      phone_raw = phone_raw;
      context_text = phone_raw;
      context_before = [];
      context_after = [];
      extraction_method = codes "TEL_HREF";
      position_start = m.index;
      position_end = m.index + length m.text;
      confidence = 90;
    }

abbrev from_part : (ℕ → ℕ) → Option Text → Text → List PhoneExtractionCandidate
from_part canonicalize none extraction_method = []
from_part canonicalize (some text) extraction_method =
    extract_phone_candidates_from_text canonicalize text extraction_method

abbrev first_match : List Match → Option Match
first_match [] = none
first_match (m ∷ ms) = some m

abbrev title_of : (ℕ → ℕ) → Option Match → Option Text
title_of canonicalize none = none
title_of canonicalize (some m) = some (title_text canonicalize m.text)

unfoldable pub extract_phone_candidates_from_html : (ℕ → ℕ) → Text → List PhoneExtractionCandidate
extract_phone_candidates_from_html canonicalize html =
    let from_body =
      extract_phone_candidates_from_text canonicalize (strip_html_to_visible_text canonicalize html)
        (codes "REGEX_TEXT") in
    let tel_href_candidates = map tel_candidate (match_all (tel_href canonicalize) html) in
    let title = title_of canonicalize (first_match (match_all (title_element canonicalize) html)) in
    let from_title = from_part canonicalize title (codes "REGEX_TITLE") in
    let from_meta =
      from_part canonicalize (meta_description canonicalize html)
        (codes "REGEX_META_DESCRIPTION") in
    tel_href_candidates ++ from_body ++ from_title ++ from_meta
