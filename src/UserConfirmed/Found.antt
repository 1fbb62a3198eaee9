-- ===== src/UserConfirmed/Found.antt =====
-- A confirmed name in the answer to a lookup of its number.
use mathlib.Core.List.{Permᴰ, Memᴰ}
use vn_phone_dp.Prelude.{
  All, ◌≤◌, ◌≢◌, ℕ, ◌≡◌, refl, sym, ◌∙◌, some, List, [], ◌∷◌, arith, Text, text_eq, text_eq_iff,
  Bool-cases, inl, inr,
}
use vn_phone_dp.Prelude.Members.{length-mem, mem-filter}
use vn_phone_dp.Phone.{PhoneType, normalize_vietnam_phone}
use vn_phone_dp.Schema.{
  Uuid, Timestamp, PhoneNumber, PhoneIdentity, PhoneIdentityEvidence, SpamReport,
}
use vn_phone_dp.Directory.{Tables}
use vn_phone_dp.UserConfirmed.{
  UserConfirmedEntry, Fresh, upsert_number, confirm, import_entry, import_entries,
  import_user_confirmed_identities,
}
use vn_phone_dp.Lookup.{IdentityAnswer, lookup_phone, identity_answer}
use vn_phone_dp.Lookup.Answer.{HasUniqueNumbers, lookup_phone-identities}
use vn_phone_dp.Spam.Summary.{Group}
use vn_phone_dp.UserConfirmed.{evidence_rows}
use vn_phone_dp.UserConfirmed.Written.{
  upsert_number-mem, upsert_claim-mem, recount-mem, add_evidence-mem,
}
use vn_phone_dp.Guess.{normalize_name_key}

-- No number gets a second row.
upsert_number-All :
    (id : Uuid) (now : Timestamp) (phone : Text) (type : PhoneType) (ns : List PhoneNumber)
    (q : Text)
    → All (λ (n : PhoneNumber). q ≢ n.phone_e164) ns
    → q ≢ phone
    → All (λ (n : PhoneNumber). q ≢ n.phone_e164) (upsert_number id now phone type ns).0
unfolding upsert_number
upsert_number-All id now phone type [] q h ne = (ne, tt)
upsert_number-All id now phone type (n ∷ ns) q (h, hs) ne =
    elim (Bool-cases (text_eq n.phone_e164 phone)) [
      | inl same ↦ rw same (h, hs)
      | inr other ↦ rw other (h, upsert_number-All id now phone type ns q hs ne)
    ]

pub upsert_number-HasUniqueNumbers :
    (id : Uuid) (now : Timestamp) (phone : Text) (type : PhoneType) (ns : List PhoneNumber)
    → HasUniqueNumbers ns
    → HasUniqueNumbers (upsert_number id now phone type ns).0
unfolding upsert_number
upsert_number-HasUniqueNumbers id now phone type [] h = (tt, tt)
upsert_number-HasUniqueNumbers id now phone type (n ∷ ns) (u, us) =
    elim (Bool-cases (text_eq n.phone_e164 phone)) [
      | inl same ↦ rw same (u, us)
      | inr other ↦ rw other (
        upsert_number-All id now phone type ns n.phone_e164 u
            (λ e. absurd (ground (arith, other, text_eq_iff n.phone_e164 phone, e))),
        upsert_number-HasUniqueNumbers id now phone type ns us,
      )
    ]

evidence_rows-mem :
    (id : Uuid) (evidence : List PhoneIdentityEvidence) (e : PhoneIdentityEvidence)
    → Memᴰ e evidence
    → e.phone_identity_id ≡ id
    → 1 ≤ evidence_rows id evidence
unfolding evidence_rows
evidence_rows-mem id evidence e m h =
    length-mem _ (mem-filter _ evidence m ((text_eq_iff e.phone_identity_id id).1 h))

-- A number whose owner's name was just confirmed is answered with an identity of the confirmed
-- category that has at least one piece of evidence, whatever the tables held before, where no number
-- had two rows.
pub import_user_confirmed_identities-found :
    (sha256 to_lower_case : Text → Text) (new_source : Uuid) (fresh : ℕ → Fresh)
    (arrange : List PhoneIdentity → List PhoneIdentity)
    (perm : (is : List PhoneIdentity) → Permᴰ (arrange is) is)
    (arrange_groups : List Group → List Group) (e : UserConfirmedEntry) (t : Tables)
    (reports : List SpamReport) (phone : Text)
    → HasUniqueNumbers t.phone_numbers
    → (normalize_vietnam_phone e.phone_raw).normalized ≡ some phone
    → (a : IdentityAnswer) × Memᴰ a
        (lookup_phone arrange arrange_groups
          (import_user_confirmed_identities sha256 to_lower_case new_source fresh (e ∷ []) t).0
          reports
          e.phone_raw).identities
      × (a.category ≡ e.category)
      × (1 ≤ a.evidence_count)
unfolding import_user_confirmed_identities import_entries import_entry confirm
import_user_confirmed_identities-found sha256 to_lower_case new_source fresh arrange perm
      arrange_groups e t reports phone unique h =
    let (n, mn, en, idn, called) =
      upsert_number-mem (fresh 0).number (fresh 0).now phone
        (normalize_vietnam_phone e.phone_raw).type t.phone_numbers in
    let (i, mi, num, idi, category, live) =
      upsert_claim-mem (fresh 0).identity (fresh 0).now _
        (normalize_name_key to_lower_case e.display_name) e t.phone_identities in
    let (p, mp, own, obs) = add_evidence-mem _ (fresh 0).observation t.evidence in
    let i' : PhoneIdentity = record i { evidence_count = _ } in
    rw (h, import_entry)
      (
        identity_answer i',
        ((lookup_phone-identities arrange perm arrange_groups _ reports e.phone_raw phone
                (upsert_number-HasUniqueNumbers (fresh 0).number (fresh 0).now phone _ _ unique)
                h).0
              (identity_answer i')).1
            (n, i', mn, en, recount-mem _ _ i _ mi idi, num ∙ sym idn, refl),
        category,
        evidence_rows-mem _ _ p mp own,
      )
