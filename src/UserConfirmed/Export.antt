-- ===== src/UserConfirmed/Export.antt =====
-- A confirmed number on the export for the call directory.
use mathlib.Core.List.{Permᴰ, Memᴰ}
use mathlib.Core.List.Memᴰ
use vn_phone_dp.Prelude.{
  ℕ, ◌≡◌, refl, sym, ◌∙◌, subst, true, false, some, List, [], ◌∷◌, Text, text_eq, text_eq_iff,
  text_eq_refl,
}
use vn_phone_dp.Prelude.Members.{mem-filter, any-of_mem}
use vn_phone_dp.Phone.{PhoneType, normalize_vietnam_phone}
use vn_phone_dp.Schema.{
  Uuid, DataSource, RawDocument, PhoneObservation, PhoneNumber, PhoneIdentity,
  PhoneIdentityEvidence, SpamReport, LabelSuppression,
}
use vn_phone_dp.Directory.{
  Tables, FlagRow, is_rejected, is_callable, is_trusted_source, has_trusted_evidence, candidates,
  identity_rows, entry, label_of, lookup, get_spam_flags, get_call_directory_entries,
}
use vn_phone_dp.Directory.Identity.{identity_rows-mem}
use vn_phone_dp.Directory.Entries.{IsUnsuppressed, exported-row}
use vn_phone_dp.UserConfirmed.{
  UserConfirmedEntry, Fresh, source_name, user_claim, ensure_user_submitted_source, confirm,
  document_of, observation_of, import_entry, import_entries, import_user_confirmed_identities,
}
use vn_phone_dp.UserConfirmed.Written.{
  ensure-mem, upsert_number-mem, upsert_claim-mem, recount-mem, add_evidence-mem,
}

-- The rows that the identity query walks through.
module _ (t : Tables) (i : PhoneIdentity) (e : PhoneIdentityEvidence) (po : PhoneObservation)
    (rd : RawDocument) (ds : DataSource) where
  has_trusted_evidence_of :
      Memᴰ e t.evidence
      → text_eq e.phone_identity_id i.id ≡ true
      → Memᴰ po t.observations
      → text_eq po.id e.phone_observation_id ≡ true
      → Memᴰ rd t.raw_documents
      → text_eq rd.id po.raw_document_id ≡ true
      → Memᴰ ds t.data_sources
      → text_eq ds.id rd.source_id ≡ true
      → is_trusted_source ds ≡ true
      → has_trusted_evidence t i ≡ true
  unfolding has_trusted_evidence
  has_trusted_evidence_of me he mo ho md hd ms hs trusted = any-of_mem _ t.evidence me (
      rw he (
        any-of_mem _ t.observations mo (
          rw ho (
            any-of_mem _ t.raw_documents md
              (rw hd (any-of_mem _ t.data_sources ms (rw hs trusted)))))))

module _ (sha256 to_lower_case : Text → Text) (arrange : List PhoneIdentity → List PhoneIdentity)
    (perm : (is : List PhoneIdentity) → Permᴰ (arrange is) is) where
  -- After the loop's body the number is a row of the identity query.
  confirm-row :
      (source_id : Uuid) (fresh : Fresh) (phone : Text) (type : PhoneType)
      (entry : UserConfirmedEntry) (t : Tables) (ds : DataSource)
      → Memᴰ ds t.data_sources
      → ds.id ≡ source_id
      → is_trusted_source ds ≡ true
      → is_callable type ≡ true
      → ((n : PhoneNumber)
          → Memᴰ n t.phone_numbers
          → n.phone_e164 ≡ phone
          → is_callable n.phone_type ≡ true)
      → ((i : PhoneIdentity)
          → Memᴰ i t.phone_identities
          → i.claim_source ≡ user_claim
          → is_rejected i.status ≡ false)
      → (name : Text) × Memᴰ
          (phone, name)
          (identity_rows arrange
            (confirm sha256 to_lower_case source_id fresh phone type entry t).0
            (confirm sha256 to_lower_case source_id fresh phone type entry t).0.phone_numbers)
  unfolding confirm candidates document_of observation_of
  confirm-row source_id fresh phone type entry t ds ms es trusted callable numbers claims =
      let (n, mn, en, idn, called) =
        upsert_number-mem fresh.number fresh.now phone type t.phone_numbers in
      let (i, mi, num, idi, category, live) =
        upsert_claim-mem fresh.identity fresh.now _ _ entry t.phone_identities in
      let (e, me, ide, ido) = add_evidence-mem _ fresh.observation t.evidence in
      let t' = (confirm sha256 to_lower_case source_id fresh phone type entry t).0 in
      let i' : PhoneIdentity = record i { evidence_count = _ } in
      let mi' : Memᴰ i' t'.phone_identities = recount-mem _ _ i _ mi idi in
      let trusted' : has_trusted_evidence t' i' ≡ true =
        has_trusted_evidence_of t' i' e (observation_of fresh phone entry)
          (document_of sha256 fresh source_id phone entry) ds me
          ((text_eq_iff _ _).1 (ide ∙ sym idi)) (Memᴰ.append_right t.observations (Memᴰ.head refl))
          ((text_eq_iff _ _).1 (sym ido)) (Memᴰ.append_right t.raw_documents (Memᴰ.head refl))
          (text_eq_refl fresh.document) ms ((text_eq_iff _ _).1 es) trusted in
      let (name, row) =
        identity_rows-mem t' arrange t'.phone_numbers perm n i' mn (called callable numbers) (
          mem-filter _ t'.phone_identities mi'
            (rw ((text_eq_iff i.phone_number_id n.id).1 (num ∙ sym idn), live claims) trusted')) in
      (name, subst (λ p. Memᴰ (p, name) (identity_rows arrange t' t'.phone_numbers)) en row)

-- What the tables and the call must be for a confirmed number to be exported: the number is a mobile
-- or landline number, here and where the tables have it already; a source of the user's name that is
-- there already is trusted, and no identity that a user confirmed was rejected since.
pub record IsExportable (t : Tables) (raw phone : Text) : Type 0 where
  pub normalized : (normalize_vietnam_phone raw).normalized ≡ some phone
  pub callable : is_callable (normalize_vietnam_phone raw).type ≡ true
  pub sources :
      (ds : DataSource)
      → Memᴰ ds t.data_sources
      → ds.name ≡ source_name
      → is_trusted_source ds ≡ true
  pub numbers :
      (n : PhoneNumber)
      → Memᴰ n t.phone_numbers
      → n.phone_e164 ≡ phone
      → is_callable n.phone_type ≡ true
  pub claims :
      (i : PhoneIdentity)
      → Memᴰ i t.phone_identities
      → i.claim_source ≡ user_claim
      → is_rejected i.status ≡ false

-- A number that is exportable, and that is not suppressed, is on the export after its owner's name
-- has been confirmed, whatever the other tables hold: the import's source, document, observation and
-- evidence are what the export's query asks for.
pub import_user_confirmed_identities-exported :
    (sha256 to_lower_case : Text → Text) (new_source : Uuid) (fresh : ℕ → Fresh)
    (arrange : List PhoneIdentity → List PhoneIdentity)
    (perm : (is : List PhoneIdentity) → Permᴰ (arrange is) is)
    (arrange_flags : List FlagRow → List FlagRow) (e : UserConfirmedEntry) (t : Tables)
    (reports : List SpamReport) (suppressions : List LabelSuppression) (phone : Text)
    → IsExportable t e.phone_raw phone
    → IsUnsuppressed suppressions (entry phone [])
    → (name : Text) × Memᴰ
        (entry phone (label_of (lookup phone (get_spam_flags arrange_flags reports)) name))
        (get_call_directory_entries arrange arrange_flags
          (import_user_confirmed_identities sha256 to_lower_case new_source fresh (e ∷ []) t).0
          reports
          suppressions)
unfolding import_user_confirmed_identities import_entries import_entry
import_user_confirmed_identities-exported sha256 to_lower_case new_source fresh arrange perm
      arrange_flags e t reports suppressions phone h free =
    let source = ensure_user_submitted_source new_source t.data_sources in
    let (ds, ms, es, trusted) = ensure-mem new_source t.data_sources h.sources in
    let (name, row) =
      confirm-row sha256 to_lower_case arrange perm source.1 (fresh 0) phone
        (normalize_vietnam_phone e.phone_raw).type e (record t { data_sources = source.0 }) ds ms es
        trusted h.callable h.numbers h.claims in
    rw (h.normalized, import_entry)
      (name, exported-row arrange arrange_flags _ reports suppressions phone name row free)
