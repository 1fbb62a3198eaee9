-- ===== src/Tests/Identities.antt =====
-- A run of the aggregation over two observations of a number.
use Prim.Native.String.{String}
use vn_phone_dp.Prelude.{
  ℕ, ◌+◌, ◌≤◌, ◌≡◌, min, refl, true, false, ◌&&◌, none, some, List, [], ◌∷◌, ◌++◌, map, arith, Text,
  codes, text_eq, leb, All, if◌then◌else◌,
}
use vn_phone_dp.Prelude.Groups.{count}
use vn_phone_dp.Prelude.Sorting.{IsOrdered}
use vn_phone_dp.Phone.{PhoneType}
use vn_phone_dp.Schema.{SourceType, TrustLevel, PhoneObservation, IdentityType, Uuid}
use vn_phone_dp.Directory.{Tables, get_call_directory_entries}
use vn_phone_dp.Guess.{guess_identity, company_match, company_keywords}
use vn_phone_dp.Guess.Company.{IsCompanyName, company_match-IsCompanyName}
use vn_phone_dp.Candidates.{
  ObservationRow, IdentityCandidate, compute_score, merge, candidates_by_key,
}
use vn_phone_dp.Aggregation.{run_aggregation}
use vn_phone_dp.Candidates.Scores.{
  evidence_of, IsApart, IsScored, compute_score-merge, candidates_by_key-accepted,
}
use vn_phone_dp.Aggregation.Rerun.{run_aggregation-again}
use vn_phone_dp.Tests.Program.{program}

-- The case mappings of the letters A to Z.
abbrev pub lower : ℕ → ℕ
lower c = if leb 65 c && leb c 90 then c + 32 else c

abbrev pub lower_case : Text → Text
lower_case s = map lower s

abbrev nearby : Text
nearby = codes "Cty ABC - hotline"

-- The connector and the word at the end are cut.
company : company_match lower (codes "goi Cty ABC - tel") ≡ some (codes "Cty ABC - tel")
unfolding program
company = refl

guessed :
    (guess_identity lower (codes "Hotline ngân hàng") nearby [] (codes "web")).display_name
    ≡ codes "Cty ABC"
unfolding program
guessed = refl

company_match-IsCompanyName_example :
    IsCompanyName lower company_keywords (codes "goi Cty ABC - tel") (codes "Cty ABC - tel")
company_match-IsCompanyName_example =
    company_match-IsCompanyName lower (codes "goi Cty ABC - tel") (codes "Cty ABC - tel") company

abbrev row : String → Text → ObservationRow
row id context = record {
  observation_id = codes id;
  phone_normalized = codes "+84912345678";
  context_text = context;
  context_before = context;
  context_after = [];
  source_id = codes "s";
  source_name = codes "web";
  source_type = SourceType.official_website;
  trust_level = TrustLevel.high;
}

abbrev rows : List ObservationRow
rows = row "1" nearby ∷ row "2" (codes "goi ngay") ∷ row "3" nearby ∷ []

candidate_scores :
    map (λ c. compute_score c) (candidates_by_key lower lower_case [] rows) ≡ 90 ∷ 50 ∷ []
unfolding program
candidate_scores = refl

candidates_by_key-accepted_example :
    ((id : Text)
      → evidence_of id (candidates_by_key lower lower_case [] rows)
        ≡ count text_eq id (map (λ r. r.observation_id) rows))
    × IsOrdered IsApart (candidates_by_key lower lower_case [] rows)
    × All IsScored (candidates_by_key lower lower_case [] rows)
candidates_by_key-accepted_example = candidates_by_key-accepted lower lower_case rows

abbrev observed : String → IdentityCandidate
observed id = record {
  display_name = codes "Cty ABC";
  normalized_name = codes "cty abc";
  identity_type = IdentityType.business;
  category = none;
  observation_ids = codes id ∷ [];
  source_is_official = true;
  source_trust_high = false;
  has_hotline_keyword = false;
  has_cong_ty_keyword = true;
}

compute_score-merge_example :
    (min 100 (compute_score (observed "1") + 10)
      ≤ compute_score (merge (observed "1") (observed "2")))
    × (compute_score (merge (observed "1") (observed "2")) ≤ 100)
compute_score-merge_example = compute_score-merge (observed "1") (observed "2") (omega arith)

abbrev observation : String → Text → PhoneObservation
observation id context = record {
  id = codes id;
  raw_document_id = codes "d";
  phone_raw = codes "0912345678";
  phone_normalized = some (codes "+84912345678");
  context_text = context;
  context_before = context;
  context_after = [];
  extraction_method = codes "regex";
  confidence = 9500;
  position_start = 0;
  position_end = 10;
}

abbrev tables : Tables
tables = record {
  phone_numbers =
      record {
        id = codes "n";
        phone_e164 = codes "+84912345678";
        country_code = codes "VN";
        national_number = codes "0912345678";
        phone_type = PhoneType.mobile;
        first_seen_at = 0;
        last_seen_at = 0;
        observation_count = 2;
      }
      ∷ [];
  phone_identities = [];
  evidence = [];
  observations = observation "1" nearby ∷ observation "2" nearby ∷ [];
  raw_documents =
      record {
        id = codes "d";
        source_id = codes "s";
        url = codes "u";
        final_url = codes "u";
        title = none;
        content_type = none;
        http_status = some 200;
        content_hash = codes "h";
        raw_content = nearby;
        fetched_at = 0;
      }
      ∷ [];
  data_sources =
      record {
        id = codes "s";
        name = codes "web";
        base_url = codes "u";
        source_type = SourceType.official_website;
        trust_level = TrustLevel.high;
        is_active = true;
        country = codes "VN";
        robots_checked = true;
        license_notes = none;
      }
      ∷ [];
}

abbrev ids : ℕ → Uuid
ids n = codes "identity" ++ n ∷ []

first_run :
    (run_aggregation lower lower_case ids (λ n. n) (λ rs. rs) tables).1.evidence_links_created ≡ 2
unfolding program
first_run = refl

run_aggregation-again_example :
    ((run_aggregation lower lower_case ids
        (λ n. n + 9)
        (λ rs. rs)
        (run_aggregation lower lower_case ids
          (λ n. n)
          (λ rs. rs)
          tables).0).1.evidence_links_created
      ≡ 0)
    × ((run_aggregation lower lower_case ids
          (λ n. n + 9)
          (λ rs. rs)
          (run_aggregation lower lower_case ids (λ n. n) (λ rs. rs) tables).0).0.evidence
        ≡ (run_aggregation lower lower_case ids (λ n. n) (λ rs. rs) tables).0.evidence)
run_aggregation-again_example =
    run_aggregation-again lower lower_case ids ids (λ n. n) (λ n. n + 9) (λ rs. rs) tables

-- The tables after the first run, and their export.
abbrev pub after : Tables
after = (run_aggregation lower lower_case ids (λ n. n) (λ rs. rs) tables).0

first_export :
    map (λ e. e.label) (get_call_directory_entries (λ is. is) (λ fs. fs) after [] [])
    ≡ codes "Cty ABC" ∷ []
unfolding program
first_export = refl
