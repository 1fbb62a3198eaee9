-- ===== src/Tests/Export.antt =====
-- The export for the call directory, of a number with an identity and a reported one.
use mathlib.Core.List.{Memᴰ}
use mathlib.Core.List.Permᴰ
use vn_phone_dp.Prelude.{◌≡◌, ◌≢◌, refl, true, List, [], ◌∷◌, map, Text, codes}
use vn_phone_dp.Prelude.Sorting.{All-mem}
use vn_phone_dp.Phone.{normalize_vietnam_phone}
use vn_phone_dp.Schema.{PhoneNumber}
use vn_phone_dp.Spam.{filtered}
use vn_phone_dp.Aggregation.{run_aggregation}
use vn_phone_dp.Directory.{
  CallDirectoryEntry, is_callable, known_phones, identity_rows, get_call_directory_entries, entry,
}
use vn_phone_dp.Directory.Order.{IsAscending}
use vn_phone_dp.Directory.Stored.{IsE164}
use vn_phone_dp.Directory.Entries.{IsUnsuppressed}
use vn_phone_dp.Directory.Labels.{IsLabel, IsWarning}
use vn_phone_dp.Directory.Export.{IsCallable, get_call_directory_entries-accepted}
use vn_phone_dp.Tests.Identities.{after}
use vn_phone_dp.Tests.Directory.{two_reports, two_reports-IsStored}
use vn_phone_dp.Tests.Program.{program}

abbrev exported : List CallDirectoryEntry
exported = get_call_directory_entries (λ is. is) (λ fs. fs) after two_reports []

two_exported :
    (map (λ e. e.phone_digits) exported ≡ codes "84399000444" ∷ codes "84912345678" ∷ [])
    × (map (λ e. e.label) exported
        ≡ (0x26a0 ∷ 0xfe0f ∷ codes " Nghi ngờ LỪA ĐẢO (1 báo cáo)")
          ∷ (0x26a0 ∷ 0xfe0f ∷ codes " Cty ABC")
          ∷ [])
unfolding program
two_exported = (refl, refl)

after_numbers :
    (pn : PhoneNumber)
    → Memᴰ pn after.phone_numbers
    → is_callable pn.phone_type ≡ true
    → IsE164 pn.phone_e164
unfolding run_aggregation
after_numbers pn m called =
    All-mem (λ (n : PhoneNumber). IsE164 n.phone_e164) _ ((codes "912345678", refl, refl), tt) m

get_call_directory_entries-accepted_example :
    let list = get_call_directory_entries (λ is. is) (λ fs. fs) after two_reports [] in
    IsAscending (λ e. e.phone_digits) list
    × ((e : CallDirectoryEntry)
        → Memᴰ e list
        → IsUnsuppressed [] e × IsCallable after two_reports e)
    × ((phone name : Text)
        → Memᴰ (phone, name) (identity_rows (λ is. is) after after.phone_numbers)
        → IsUnsuppressed [] (entry phone name)
        → (label : Text) × Memᴰ (entry phone label) list
          × IsLabel (filtered phone two_reports) name label)
    × ((phone : Text)
        → Memᴰ phone (known_phones two_reports)
        → is_callable (normalize_vietnam_phone phone).type ≡ true
        → ((r : Text × Text)
            → Memᴰ r (identity_rows (λ is. is) after after.phone_numbers)
            → r.0 ≢ phone)
        → IsUnsuppressed [] (entry phone [])
        → (label : Text) × Memᴰ (entry phone label) list
          × IsWarning (filtered phone two_reports) label)
get_call_directory_entries-accepted_example =
    get_call_directory_entries-accepted (λ is. is) (λ fs. fs) Permᴰ.refl after two_reports []
      after_numbers two_reports-IsStored
