-- ===== src/Routes/Calls.antt =====
-- routes/callLog.ts: the import. `day` is PostgreSQL's reading of a date, which refuses a text of the
-- right form that is no day of the calendar.
use vn_phone_dp.Prelude.{
  ℕ, Bool, not, ◌&&◌, ◌==◌, Option, none, some, List, [], ◌∷◌, Text, codes, text_eq, is_digit, all,
  filter, length, slice, if◌then◌else◌,
}
use vn_phone_dp.Schema.{Timestamp, Day, PersonalCallLog}
use vn_phone_dp.CallLog.{
  Orders, Identities, CallLogImportEntry, CallLogImportResult, import_call_log_entries,
}
use vn_phone_dp.Routes.{Reply, ok, bad_request, server_error}

-- `/^\d{4}-\d{2}-\d{2}$/.test(s)`
unfoldable pub is_date : Text → Bool
is_date s =
    length s == 10
    && all is_digit (slice 0 4 s)
    && text_eq (slice 4 5 s) (codes "-")
    && all is_digit (slice 5 7 s)
    && text_eq (slice 7 8 s) (codes "-")
    && all is_digit (slice 8 10 s)

pub record CallLogReply : Type 0 where
  pub imported : ℕ
  pub known : ℕ
  pub unknown : ℕ
  pub results : List CallLogImportResult

-- The reply to an import; an error of the service is a 500.
abbrev import_reply : Option (List CallLogImportResult) → Reply CallLogReply
import_reply none = server_error
import_reply (some results) = ok (record {
  imported = length results;
  known = length (filter (λ r. r.known) results);
  unknown = length (filter (λ r. not r.known) results);
  results = results;
})

module _ (o : Orders) (t : Identities) (day : Text → Option Day) (now : ℕ → Timestamp) where
  -- With a date of the right form.
  unfoldable pub import_dated :
      Text
      → Option Text
      → Option (List CallLogImportEntry)
      → List PersonalCallLog
      → List PersonalCallLog × Reply CallLogReply
  import_dated call_date notes none logs =
      (logs, bad_request (codes "entries must be a non-empty array"))
  import_dated call_date notes (some []) logs =
      (logs, bad_request (codes "entries must be a non-empty array"))
  import_dated call_date notes (some (e ∷ entries)) logs = elim (day call_date) [
    | none ↦ (logs, server_error)
    | some date ↦
        let done = import_call_log_entries o t now date notes (e ∷ entries) logs in
        (done.0, import_reply done.1)
  ]

  unfoldable pub post_call_log :
      Option Text
      → Option Text
      → Option (List CallLogImportEntry)
      → List PersonalCallLog
      → List PersonalCallLog × Reply CallLogReply
  post_call_log none notes entries logs = (logs, bad_request (codes "call_date must be YYYY-MM-DD"))
  post_call_log (some call_date) notes entries logs =
      if is_date call_date
      then import_dated call_date notes entries logs
      else (logs, bad_request (codes "call_date must be YYYY-MM-DD"))
