-- ===== src/Tests/Calls.antt =====
-- Runs of the call log, and its theorems at a log of three calls.
use mathlib.Core.List.{Permᴰ, Memᴰ}
use mathlib.Core.List.Permᴰ
use Prim.Native.String.{String}
use vn_phone_dp.Prelude.{
  inr, ℕ, ◌+◌, ◌*◌, ◌≤◌, ◌≡◌, ◌↔◌, refl, ◌++◌, ◌&&◌, Option, none, some, List, [], ◌∷◌, map, arith,
  Text, codes, filter, leb, All, pos, negsuc,
}
use vn_phone_dp.Prelude.Sorting.{total, IsOrdered}
use vn_phone_dp.Phone.{PhoneType}
use vn_phone_dp.Schema.{PersonalCallLog, IdentityType, IdentityStatus, Day}
use vn_phone_dp.CallLog.{
  Orders, Identities, CallGroup, CallLogImportEntry, JsonNumber, CallLogImportResult,
  import_call_log_entries, get_call_log_summary, get_unknown_numbers, scored, priority_score,
  get_unknown_numbers_priority,
}
use vn_phone_dp.CallLog.Summary.{IsOrders, get_call_log_summary-total}
use vn_phone_dp.CallLog.Unknown.{listed, logged, HasOnlyRejected, get_unknown_numbers-listed}
use vn_phone_dp.CallLog.Priority.{
  called_more, repeated_more, call_step, repeat_step, priority_score-steps,
  get_unknown_numbers_priority-IsRanked,
}
use vn_phone_dp.CallLog.Import.{
  IsCounted, IsRefused, AreCounted, zip_entries, calls_of, with_count, IsTold,
  import_call_log_entries-accepted,
}
use vn_phone_dp.Tests.Program.{program}

abbrev as_is : Orders
as_is = record { identities = λ xs. xs; logs = λ xs. xs; groups = λ xs. xs }

abbrev as_is-IsOrders : IsOrders as_is
as_is-IsOrders = record { identities = Permᴰ.refl; logs = Permᴰ.refl; groups = Permᴰ.refl }

-- One number has an identity.
abbrev bank : Identities
bank = record {
  phone_numbers =
      record {
        id = codes "n";
        phone_e164 = codes "+84912345678";
        country_code = codes "VN";
        national_number = codes "0912345678";
        phone_type = PhoneType.mobile;
        first_seen_at = 0;
        last_seen_at = 0;
        observation_count = 1;
      }
      ∷ [];
  phone_identities =
      record {
        id = codes "i";
        phone_number_id = codes "n";
        display_name = codes "Bank";
        normalized_name = codes "bank";
        identity_type = IdentityType.business;
        category = none;
        claim_source = codes "rule_based_aggregation_v1";
        confidence = 4500;
        evidence_count = 1;
        last_seen_at = 0;
        status = IdentityStatus.candidate;
      }
      ∷ [];
}

abbrev entry : String → Option JsonNumber → CallLogImportEntry
entry phone n = record { phone_raw = codes phone; call_count = n; notes = none }

abbrev entries : List CallLogImportEntry
entries =
    entry "0912345678" (some (JsonNumber.whole (pos 2)))
    ∷ entry "0987 654 321" none
    ∷ entry "+84987654321" (some (JsonNumber.whole (negsuc 4)))
    ∷ []

abbrev imported : List PersonalCallLog
imported = (import_call_log_entries as_is bank (λ n. n) 20 none entries []).0

abbrev unknown_phone : Text
unknown_phone = codes "+84987654321"

-- The unknown number comes in two spellings, and is one group of two calls.
unknown_calls :
    (map (λ g. g.phone_raw) (get_unknown_numbers as_is bank imported) ≡ codes "+84987654321" ∷ [])
    × (map (λ g. g.total_calls) (get_unknown_numbers as_is bank imported) ≡ 2 ∷ [])
unfolding program
unknown_calls = (refl, refl)

get_unknown_numbers-listed_example :
    Memᴰ (some unknown_phone) (listed (get_unknown_numbers as_is bank imported))
    ↔ (Memᴰ (some unknown_phone) (logged imported) × HasOnlyRejected bank unknown_phone)
get_unknown_numbers-listed_example =
    get_unknown_numbers-listed as_is as_is-IsOrders bank imported unknown_phone

abbrev counts : List ℕ
counts = 2 ∷ 1 ∷ 1 ∷ []

abbrev half : CallLogImportEntry
half = entry "0912345678" (some (JsonNumber.fraction_above (pos 0)))

import_call_log_entries-accepted_example :
    let (stored, replies) = import_call_log_entries as_is bank (λ n. n) 20 none entries imported in
    (map calls_of stored ≡ map calls_of imported ++ zip_entries with_count entries counts)
    × ((results : List CallLogImportResult) × (replies ≡ some results)
        × (map (λ r. r.phone_raw) results ≡ map (λ e. e.phone_raw) entries)
        × All (IsTold (listed (get_unknown_numbers as_is bank stored))) results)
    × (import_call_log_entries as_is bank (λ n. n) 20 none (entries ++ half ∷ entries) imported
        ≡ (stored, none))
import_call_log_entries-accepted_example =
    import_call_log_entries-accepted as_is as_is-IsOrders bank (λ n. n) 20 none entries counts
      imported half entries
      (AreCounted.next (IsCounted.positive 2 (omega arith) (omega arith)) (
        AreCounted.next IsCounted.missing
          (AreCounted.next (IsCounted.negative 4) AreCounted.nothing)))
      (IsRefused.positive_fraction 0)

get_call_log_summary-total_example :
    (total (λ s. s.calls.total_calls) (get_call_log_summary as_is bank imported 19 21)
      ≡ total (λ r. r.call_count) (filter (λ r. leb 19 r.call_date && leb r.call_date 21) imported))
    × IsOrdered
        (λ a b. b.calls.total_calls ≤ a.calls.total_calls)
        (get_call_log_summary as_is bank imported 19 21)
get_call_log_summary-total_example =
    get_call_log_summary-total as_is as_is-IsOrders bank imported 19 21

abbrev start_of : Day → ℕ
start_of d = d * 86400000

get_unknown_numbers_priority-IsRanked_example :
    Permᴰ
      (get_unknown_numbers_priority start_of (start_of 25) as_is bank imported)
      (map (scored start_of (start_of 25)) (get_unknown_numbers as_is bank imported))
    × All
        (λ p.
          (p.priority_score ≡ priority_score start_of (start_of 25) p.calls)
          × (p.priority_score ≤ 100))
        (get_unknown_numbers_priority start_of (start_of 25) as_is bank imported)
    × IsOrdered
        (λ a b. b.priority_score ≤ a.priority_score)
        (get_unknown_numbers_priority start_of (start_of 25) as_is bank imported)
get_unknown_numbers_priority-IsRanked_example =
    get_unknown_numbers_priority-IsRanked start_of (start_of 25) as_is bank imported

abbrev called : ℕ → ℕ → Day → CallGroup
called calls days last = record {
  phone_raw = unknown_phone;
  phone_normalized = some unknown_phone;
  total_calls = calls;
  days_called = days;
  first_call_date = 1;
  last_call_date = last;
}

priority_score-steps_example :
    let r = called 9 6 20 in
    let score = priority_score start_of (start_of 25) in
    (score (called 0 0 20) ≡ 25)
    × (score (called_more r) ≡ score r + call_step 9)
    × (score (repeated_more r) ≡ score r + repeat_step 6)
priority_score-steps_example =
    priority_score-steps start_of (start_of 25) (called 9 6 20) 5 (inr (omega arith), omega arith)
