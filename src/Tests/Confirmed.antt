-- ===== src/Tests/Confirmed.antt =====
-- Runs of apps/api/src/__tests__/userConfirmedIdentity.test.ts.
use vn_phone_dp.Prelude.{
  ℕ, ◌+◌, ◌≤◌, ◌≡◌, ◌↔◌, refl, true, false, Option, none, some, List, [], ◌∷◌, ◌++◌, map, Text,
  codes,
}
use vn_phone_dp.Prelude.Sorting.{IsOrdered}
use mathlib.Core.List.{Memᴰ}
use mathlib.Core.List.Permᴰ
use mathlib.Core.List.Memᴰ
use vn_phone_dp.Phone.{normalize_vietnam_phone}
use vn_phone_dp.Schema.{IdentityType, IdentityCategory}
use vn_phone_dp.Directory.{
  Tables, entry, label_of, lookup, get_spam_flags, get_call_directory_entries,
}
use vn_phone_dp.UserConfirmed.{UserConfirmedEntry, Fresh, import_user_confirmed_identities}
use vn_phone_dp.UserConfirmed.Counts.{IsCounted, import_user_confirmed_identities-IsCounted}
use vn_phone_dp.UserConfirmed.Resubmit.{sizes, import_user_confirmed_identities-again}
use vn_phone_dp.UserConfirmed.Export.{IsExportable, import_user_confirmed_identities-exported}
use vn_phone_dp.UserConfirmed.Found.{import_user_confirmed_identities-found}
use vn_phone_dp.Lookup.{IdentityAnswer, lookup_phone, search_phones}
use vn_phone_dp.Lookup.Answer.{IsIdentityOf, lookup_phone-identities}
use vn_phone_dp.Tests.Program.{program}
use vn_phone_dp.Tests.Identities.{lower_case}

abbrev nothing : Tables
nothing = record {
  phone_numbers = [];
  phone_identities = [];
  evidence = [];
  observations = [];
  raw_documents = [];
  data_sources = [];
}

abbrev test_phone : Text
test_phone = codes "0399000111"

abbrev confirmed_as : Option IdentityCategory → UserConfirmedEntry
confirmed_as category = record {
  phone_raw = test_phone;
  display_name = codes "Test User";
  identity_type = some IdentityType.business;
  category = category;
  note_source = some (codes "Truecaller");
}

abbrev not_a_phone : UserConfirmedEntry
not_a_phone = record (confirmed_as none) { phone_raw = codes "not-a-phone" }

abbrev fresh_from : ℕ → ℕ → Fresh
fresh_from start n = record {
  document = codes "d" ++ (start + n) ∷ [];
  observation = codes "o" ++ (start + n) ∷ [];
  number = codes "n" ++ (start + n) ∷ [];
  identity = codes "i" ++ (start + n) ∷ [];
  now = start + n;
  clock = start + n;
}

abbrev delivery : List UserConfirmedEntry
delivery = confirmed_as (some IdentityCategory.delivery) ∷ []

abbrev once : Tables
once =
    (import_user_confirmed_identities (λ s. s) lower_case (codes "s") (fresh_from 0) delivery
      nothing).0

abbrev twice : Tables
twice =
    (import_user_confirmed_identities (λ s. s) lower_case (codes "s2") (fresh_from 100)
      (confirmed_as (some IdentityCategory.spam) ∷ []) once).0

-- The identity is found by a lookup; the second submission changes its category and counts.
found_twice :
    map {B = Option IdentityCategory × ℕ × ℕ}
      (λ a. (a.category, a.evidence_count, a.confidence))
      (lookup_phone (λ is. is) (λ gs. gs) twice [] test_phone).identities
    ≡ (some IdentityCategory.spam, 2, 9500) ∷ []
unfolding program
found_twice = refl

skips :
    map
      (λ r. r.valid)
      (import_user_confirmed_identities
        (λ s. s)
        lower_case
        (codes "s")
        (fresh_from 0)
        (not_a_phone ∷ delivery)
        nothing).1
    ≡ false ∷ true ∷ []
unfolding program
skips = refl

searched :
    map (λ p. p.phone_e164) (search_phones (λ ns. ns) twice.phone_numbers (codes "399-00") 20)
    ≡ codes "+84399000111" ∷ []
unfolding program
searched = refl

-- A number that the normalizer does not call valid is stored, and its result is called valid.
abbrev unassigned : UserConfirmedEntry
unassigned = record (confirmed_as none) { phone_raw = codes "0123456789" }

stored_unassigned :
    ((normalize_vietnam_phone unassigned.phone_raw).valid ≡ false)
    × (map
          (λ r. r.valid)
          (import_user_confirmed_identities
            (λ s. s)
            lower_case
            (codes "s")
            (fresh_from 0)
            (unassigned ∷ [])
            nothing).1
        ≡ true ∷ [])
unfolding program
stored_unassigned = (refl, refl)

import_user_confirmed_identities-IsCounted_example : IsCounted twice
import_user_confirmed_identities-IsCounted_example =
    import_user_confirmed_identities-IsCounted (λ s. s) lower_case (codes "s2") (fresh_from 100)
      (confirmed_as (some IdentityCategory.spam) ∷ []) once
      (import_user_confirmed_identities-IsCounted (λ s. s) lower_case (codes "s") (fresh_from 0)
        delivery nothing tt)

import_user_confirmed_identities-again_example :
    let again =
      import_user_confirmed_identities
        (λ s. s)
        lower_case
        (codes "s2")
        (fresh_from 100)
        delivery
        once in
    (again.1
      ≡ (import_user_confirmed_identities
          (λ s. s)
          lower_case
          (codes "s")
          (fresh_from 0)
          delivery
          nothing).1)
    × (again.0.data_sources ≡ once.data_sources)
    × (sizes again.0 ≡ sizes once)
import_user_confirmed_identities-again_example =
    import_user_confirmed_identities-again (λ s. s) lower_case (codes "s") (codes "s2")
      (fresh_from 0) (fresh_from 100) delivery nothing

normalized : (normalize_vietnam_phone test_phone).normalized ≡ some (codes "+84399000111")
unfolding program
normalized = refl

nothing-IsExportable : IsExportable nothing test_phone (codes "+84399000111")
unfolding program
nothing-IsExportable = record {
  normalized = refl;
  callable = refl;
  sources = λ ds m e. absurd (Memᴰ.not-nil m);
  numbers = λ n m e. absurd (Memᴰ.not-nil m);
  claims = λ i m e. absurd (Memᴰ.not-nil m);
}

import_user_confirmed_identities-exported_example :
    (name : Text) × Memᴰ
      (entry
        (codes "+84399000111")
        (label_of (lookup (codes "+84399000111") (get_spam_flags (λ fs. fs) [])) name))
      (get_call_directory_entries (λ is. is) (λ fs. fs) once [] [])
import_user_confirmed_identities-exported_example =
    import_user_confirmed_identities-exported (λ s. s) lower_case (codes "s") (fresh_from 0)
      (λ is. is) (λ is. Permᴰ.refl is) (λ fs. fs) (confirmed_as (some IdentityCategory.delivery))
      nothing [] [] (codes "+84399000111") nothing-IsExportable (λ s m e. Memᴰ.not-nil m)

import_user_confirmed_identities-found_example :
    (a : IdentityAnswer) × Memᴰ a (lookup_phone (λ is. is) (λ gs. gs) once [] test_phone).identities
    × (a.category ≡ some IdentityCategory.delivery)
    × (1 ≤ a.evidence_count)
import_user_confirmed_identities-found_example =
    import_user_confirmed_identities-found (λ s. s) lower_case (codes "s") (fresh_from 0) (λ is. is)
      (λ is. Permᴰ.refl is) (λ gs. gs) (confirmed_as (some IdentityCategory.delivery)) nothing []
      (codes "+84399000111") tt normalized

lookup_phone-identities_example :
    ((a : IdentityAnswer)
      → Memᴰ a (lookup_phone (λ is. is) (λ gs. gs) twice [] test_phone).identities
        ↔ IsIdentityOf twice (codes "+84399000111") a)
    × IsOrdered
        (λ a b. b.confidence ≤ a.confidence)
        (lookup_phone (λ is. is) (λ gs. gs) twice [] test_phone).identities
unfolding program
lookup_phone-identities_example =
    lookup_phone-identities (λ is. is) (λ is. Permᴰ.refl is) (λ gs. gs) twice [] test_phone
      (codes "+84399000111") (tt, tt) normalized
