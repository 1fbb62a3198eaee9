-- ===== src/Guess.antt =====
-- The reading of a name and a category out of the text around a number, in
-- apps/api/src/services/aggregation.ts. The case mappings of ECMAScript are parameters:
-- `canonicalize` of a code unit, by which a regular expression with the flag `i` compares, and
-- `to_lower_case` of a string.
pub mod Company
use vn_phone_dp.Prelude.{
  or_else, ℕ, zero, suc, ◌+◌, Bool, true, false, not, ◌&&◌, ◌||◌, Option, none, some, List, [], ◌∷◌,
  ◌++◌, Text, codes, is_space, trim, length, take, drop, all, any, leb, ◌==◌, if◌then◌else◌,
}
use vn_phone_dp.Schema.{IdentityType, IdentityCategory}

-- `^keyword` with the flag `i`.
unfoldable pub begins_with : (ℕ → ℕ) → Text → Text → Bool
begins_with canonicalize s [] = true
begins_with canonicalize [] (d ∷ k) = false
begins_with canonicalize (c ∷ s) (d ∷ k) =
    canonicalize c == canonicalize d && begins_with canonicalize s k

-- `/keyword/i.test(s)`
unfoldable pub contains : (ℕ → ℕ) → Text → Text → Bool
contains canonicalize [] keyword = begins_with canonicalize [] keyword
contains canonicalize (c ∷ s) keyword =
    begins_with canonicalize (c ∷ s) keyword || contains canonicalize s keyword

-- `/k1|k2|…/i.test(s)`
unfoldable pub mentions : (ℕ → ℕ) → List Text → Text → Bool
mentions canonicalize keywords s = any (contains canonicalize s) keywords

abbrev pub hotline_keywords : List Text
hotline_keywords = codes "hotline" ∷ codes "tổng đài" ∷ codes "đường dây nóng" ∷ []

abbrev pub company_keywords : List Text
company_keywords = codes "Công ty" ∷ codes "Cty" ∷ codes "Doanh nghiệp" ∷ []

abbrev pub category_keywords : List (List Text × IdentityCategory)
category_keywords =
    (codes "ngân hàng" ∷ codes "bank" ∷ [], IdentityCategory.bank)
    ∷ (codes "bảo hiểm" ∷ codes "insurance" ∷ [], IdentityCategory.insurance)
    ∷ (
      codes "viễn thông"
          ∷ codes "telecom"
          ∷ codes "mobifone"
          ∷ codes "vinaphone"
          ∷ codes "viettel"
          ∷ [],
      IdentityCategory.telecom,
    )
    ∷ (
      codes "bệnh viện" ∷ codes "phòng khám" ∷ codes "hospital" ∷ codes "clinic" ∷ [],
      IdentityCategory.hospital,
    )
    ∷ (
      codes "uỷ ban"
          ∷ codes "ủy ban"
          ∷ codes "sở "
          ∷ codes "bộ "
          ∷ codes "chính phủ"
          ∷ codes "government"
          ∷ [],
      IdentityCategory.government,
    )
    ∷ (
      codes "giao hàng" ∷ codes "ship" ∷ codes "delivery" ∷ codes "vận chuyển" ∷ [],
      IdentityCategory.delivery,
    )
    ∷ (
      codes "thương mại điện tử" ∷ codes "ecommerce" ∷ codes "sàn tmđt" ∷ [],
      IdentityCategory.ecommerce,
    )
    ∷ (
      codes "bất động sản" ∷ codes "real estate" ∷ codes "chung cư" ∷ codes "căn hộ" ∷ [],
      IdentityCategory.real_estate,
    )
    ∷ (
      codes "telesale" ∷ codes "tư vấn viên" ∷ codes "quảng cáo" ∷ codes "marketing" ∷ [],
      IdentityCategory.telemarketing,
    )
    ∷ (codes "lừa đảo" ∷ codes "scam" ∷ codes "chiếm đoạt" ∷ [], IdentityCategory.scam)
    ∷ (codes "spam" ∷ codes "làm phiền" ∷ codes "rác" ∷ [], IdentityCategory.spam)
    ∷ []

-- The first category of which the text has a keyword.
unfoldable pub category_of :
    (ℕ → ℕ) → List (List Text × IdentityCategory) → Text → Option IdentityCategory
category_of canonicalize [] s = none
category_of canonicalize ((keywords, category) ∷ rest) s =
    let later = category_of canonicalize rest s in
    if mentions canonicalize keywords s then some category else later

-- What `[^.,:;\n]` matches.
abbrev pub is_name_code : ℕ → Bool
is_name_code c = not (c == b'.' || c == b',' || c == b':' || c == b';' || c == 10)

-- The longest run of at most n of them at the start.
unfoldable pub name_run : ℕ → Text → Text
name_run zero s = []
name_run (suc n) [] = []
name_run (suc n) (c ∷ s) = let rest = name_run n s in if is_name_code c then c ∷ rest else []

-- The match at the start of the text for one of the keywords.
unfoldable pub company_at : (ℕ → ℕ) → List Text → Text → Option Text
company_at canonicalize [] s = none
company_at canonicalize (keyword ∷ keywords) s =
    let later = company_at canonicalize keywords s in
    let name = name_run 60 (drop (length keyword) s) in
    if begins_with canonicalize s keyword && leb 2 (length name)
    then some (take (length keyword) s ++ name)
    else later

-- `s.match(COMPANY_NAME_REGEX)`: the match that starts first.
unfoldable pub company_match : (ℕ → ℕ) → Text → Option Text
company_match canonicalize [] = none
company_match canonicalize (c ∷ s) =
    or_else (company_at canonicalize company_keywords (c ∷ s)) (company_match canonicalize s)

abbrev pub is_connector : ℕ → Bool
is_connector c = is_space c || c == b'-' || c == b':'

abbrev pub connector_words : List Text
connector_words = codes "đt" ∷ codes "sđt" ∷ codes "hotline" ∷ codes "tel" ∷ codes "liên hệ" ∷ []

-- After the longest run of connectors comes the end, or a word and white space. No word starts with
-- a connector, so a shorter run leaves no other way to match.
unfoldable pub is_junk_rest : (ℕ → ℕ) → Text → Bool
is_junk_rest canonicalize [] = true
is_junk_rest canonicalize (c ∷ s) =
    let rest = is_junk_rest canonicalize s in
    if is_connector c
    then rest
    else any
        (λ word. begins_with canonicalize (c ∷ s) word && all is_space (drop (length word) (c ∷ s)))
        connector_words

-- `s.replace(/[\s\-:]+(đt|sđt|hotline|tel|liên hệ)?\s*$/i, "")`: cut where the match starts first.
unfoldable pub cut_junk : (ℕ → ℕ) → Text → Text
cut_junk canonicalize [] = []
cut_junk canonicalize (c ∷ s) =
    let rest = c ∷ cut_junk canonicalize s in
    if is_connector c && is_junk_rest canonicalize s then [] else rest

-- `cleaned || companyMatch[0].trim()`
abbrev non_empty : Text → Text → Text
non_empty [] fallback = fallback
non_empty (c ∷ s) fallback = c ∷ s

-- `s.replace(/\s+/g, " ")`. The first argument says that the code unit before was white space.
unfoldable pub collapse : Bool → Text → Text
collapse after_space [] = []
collapse after_space (c ∷ s) =
    let spaced = collapse true s in
    let plain = c ∷ collapse false s in
    if is_space c then (if after_space then spaced else b' ' ∷ spaced) else plain

unfoldable pub normalize_name_key : (Text → Text) → Text → Text
normalize_name_key to_lower_case name = collapse false (trim (to_lower_case name))

pub record Guess : Type 0 where
  pub display_name : Text
  pub identity_type : IdentityType
  pub category : Option IdentityCategory

unfoldable pub guess_identity : (ℕ → ℕ) → Text → Text → Text → Text → Guess
guess_identity canonicalize context_text context_before context_after source_name =
    let category = category_of canonicalize category_keywords context_text in
    elim (company_match canonicalize (context_before ++ b' ' ∷ context_after)) [
      | some m ↦ record {
        display_name = non_empty (trim (cut_junk canonicalize m)) (trim m);
        identity_type = IdentityType.business;
        category = category;
      }
      | none ↦
          if mentions canonicalize hotline_keywords context_text
          then record {
            display_name = source_name ++ codes " Hotline";
            identity_type = IdentityType.hotline;
            category = category;
          }
          else record {
            display_name = codes "Unknown (" ++ (source_name ++ codes ")");
            identity_type = IdentityType.unknown;
            category = category;
          }
    ]
