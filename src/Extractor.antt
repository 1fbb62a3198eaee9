-- ===== src/Extractor.antt =====
-- apps/api/src/extractors/phoneExtractor.ts: the numbers that a text mentions, with their context. The
-- case mapping of a code unit, by which a regular expression with the flag `i` compares, is a
-- parameter `canonicalize`. `confidence` in hundredths.
pub mod Shape
pub mod Pattern
pub mod Lines
pub mod Found
pub mod Html
use vn_phone_dp.Prelude.{
  ℕ, zero, suc, ◌+◌, ◌-◌, min, Bool, true, false, not, ◌&&◌, ◌||◌, Option, none, some, List, [],
  ◌∷◌, ◌++◌, map, Text, codes, is_digit, is_space, trim, starts_with, slice, length, drop, any, leb,
  ◌==◌, if◌then◌else◌,
}
use vn_phone_dp.Guess.{mentions}
use vn_phone_dp.Matches.{Match, match_all}

pub record PhoneExtractionCandidate : Type 0 where
  pub phone_raw : Text
  pub context_text : Text
  pub context_before : Text
  pub context_after : Text
  pub extraction_method : Text
  pub position_start : ℕ
  pub position_end : ℕ
  pub confidence : ℕ

-- `[\s.-]`
unfoldable pub is_separator : ℕ → Bool
is_separator c = is_space c || c == b'.' || c == b'-'

-- The length of a match of `[\s.-]?\d`, which no text has two of.
unfoldable pub unit : Text → Option ℕ
unit [] = none
unit (c ∷ []) = if is_digit c then some 1 else none
unit (c ∷ d ∷ s) =
    if is_digit c then some 1 else if is_separator c && is_digit d then some 2 else none

-- `(?:[\s.-]?\d)` as often as it matches, and `most` times at most: how often, and the length.
unfoldable pub units : ℕ → Text → ℕ × ℕ
units zero s = (0, 0)
units (suc most) s = elim (unit s) [
  | none ↦ (0, 0)
  | some n ↦ let rest = units most (drop n s) in (rest.0 + 1, n + rest.1)
]

-- A prefix of a given length, and from `least` to `most` units.
unfoldable pub prefixed : ℕ → ℕ → ℕ → Text → Option ℕ
prefixed least most prefix s =
    let run = units most (drop prefix s) in if leb least run.0 then some (prefix + run.1) else none

-- PHONE_CANDIDATE_REGEX at the beginning of a text: the length of the match.
unfoldable pub phone_candidate : Text → Option ℕ
phone_candidate s =
    if starts_with s (codes "+84")
    then prefixed 8 10 3 s
    else if starts_with s (codes "84")
    then prefixed 8 10 2 s
    else if starts_with s (codes "0")
    then prefixed 8 10 1 s
    else if starts_with s (codes "1800") || starts_with s (codes "1900")
    then prefixed 4 7 4 s
    else none

abbrev pub context_window_chars : ℕ
context_window_chars = 80

abbrev pub newline : ℕ
newline = 10

-- `s.slice(0, s.indexOf("\n"))`, all of `s` where there is none
unfoldable pub first_paragraph : Text → Text
first_paragraph [] = []
first_paragraph (c ∷ s) = if c == newline then [] else c ∷ first_paragraph s

-- `s.slice(s.lastIndexOf("\n") + 1)`, all of `s` where there is none
unfoldable pub last_paragraph : Text → Text
last_paragraph [] = []
last_paragraph (c ∷ s) =
    let rest = last_paragraph s in
    if any (λ d. d == newline) s then rest else if c == newline then s else c ∷ s

pub data Side : Type 0 where
  before after : Side

abbrev pub to_space : ℕ → ℕ
to_space c = if c == newline then 32 else c

unfoldable pub clamp_to_paragraph : Text → Side → Text
clamp_to_paragraph s before = trim (map to_space (last_paragraph s))
clamp_to_paragraph s after = trim (map to_space (first_paragraph s))

abbrev pub context_keywords : List Text
context_keywords =
    codes "hotline"
    ∷ codes "đt"
    ∷ codes "đường dây"
    ∷ codes "liên hệ"
    ∷ codes "sđt"
    ∷ codes "tel"
    ∷ codes "phone"
    ∷ codes "gọi"
    ∷ []

abbrev pub confidence_of : (ℕ → ℕ) → Text → Text → ℕ
confidence_of canonicalize phone_raw context_text =
    min
      (50
        + (if any is_separator phone_raw then 20 else 0)
        + (if mentions canonicalize context_keywords context_text then 20 else 0))
      95

-- The body of the loop.
unfoldable pub candidate_at : (ℕ → ℕ) → Text → Text → Match → PhoneExtractionCandidate
candidate_at canonicalize text extraction_method m =
    let phone_raw = trim m.text in
    let end = m.index + length m.text in
    let context_before =
      clamp_to_paragraph (slice (m.index - context_window_chars) m.index text) before in
    let context_after =
      clamp_to_paragraph (slice end (min (length text) (end + context_window_chars)) text) after in
    let context_text =
      trim (context_before ++ codes " " ++ phone_raw ++ codes " " ++ context_after) in
    record {
      phone_raw = phone_raw;
      context_text = context_text;
      context_before = context_before;
      context_after = context_after;
      extraction_method = extraction_method;
      position_start = m.index;
      position_end = end;
      confidence = confidence_of canonicalize phone_raw context_text;
    }

unfoldable pub extract_phone_candidates_from_text :
    (ℕ → ℕ) → Text → Text → List PhoneExtractionCandidate
extract_phone_candidates_from_text canonicalize text extraction_method =
    map (candidate_at canonicalize text extraction_method) (match_all phone_candidate text)
