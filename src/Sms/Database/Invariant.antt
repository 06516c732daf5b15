-- ===== src/Sms/Database/Invariant.antt =====
-- The tables that the operations of `SMSDatabase` can lead to.
pub mod Rows
pub mod Preserved
use sms_server.Base.{
  ℕ, suc, ◌<◌, ◌≡◌, refl, ◌∙◌, Bool, true, false, List, [], ◌∷◌, map, Option, none, some, arith,
  All, Bool-cases, Result-cases, inl, inr, Text, Bytes,
}
use sms_server.Text.{equal}
use sms_server.Text.Laws.{equal_sym}
use sms_server.Sms.Database.Names.{find_name-put_name, find_name-remove_name}
use sms_server.Sms.Types.{SmsMessage}
use sms_server.Sms.Encryption.{SmsEncryption, encrypt}
use sms_server.Sms.Database.Schema.{
  MessageRow, SendFailureRow, ReportRow, Tables, empty_tables, has_message, has_failure,
  next_report_id, largest_report_id, find_name, put_name, remove_name,
}
use sms_server.Sms.Database.{
  Statement, insert_message, insert_send_failure, insert_delivery_report, update_message_status,
  update_friendly_name, update_row, executed,
}

-- What a sequence of calls makes of a new database: whatever the statements' outcomes and times.
pub data Reachable (e : SmsEncryption) : Tables → Type 0 where
  start : Reachable e empty_tables
  by_insert_message :
      {t : Tables} (nonce : Bytes) (s : Statement) (m : SmsMessage) (is_final : Bool)
      → Reachable e t
      → Reachable e (insert_message e nonce s t m is_final).0
  by_insert_send_failure :
      {t : Tables} (s : Statement) (id : ℕ) (text : Text)
      → Reachable e t
      → Reachable e (insert_send_failure s t id text).0
  by_insert_delivery_report :
      {t : Tables} (s : Statement) (id status : ℕ) (is_final : Bool)
      → Reachable e t
      → Reachable e (insert_delivery_report s t id status is_final).0
  by_update_message_status :
      {t : Tables} (s : Statement) (id status : ℕ) (completed : Bool)
      → Reachable e t
      → Reachable e (update_message_status s t id status completed).0
  by_update_friendly_name :
      {t : Tables} (s : Statement) (number : Text) (name : Option Text)
      → Reachable e t
      → Reachable e (update_friendly_name s t number name).0

-- The numbers fall from row to row, and lie between zero and the bound.
abbrev pub IsDescending : ℕ → List MessageRow → Type 0
IsDescending bound [] = 0 < bound
IsDescending bound (row ∷ rows) = (row.message_id < bound) × IsDescending row.message_id rows

abbrev ReportsDescend : ℕ → List ReportRow → Type 0
ReportsDescend bound [] = 0 < bound
ReportsDescend bound (row ∷ rows) = (row.report_id < bound) × ReportsDescend row.report_id rows

-- No message has two rows here.
abbrev OnePerMessage : List SendFailureRow → Type 0
OnePerMessage [] = Unit
OnePerMessage (row ∷ rows) = (has_failure row.message_id rows ≡ false) × OnePerMessage rows

abbrev pub DistinctNumbers : List (Text × Text) → Type 0
DistinctNumbers [] = Unit
DistinctNumbers ((n, name) ∷ names) = (find_name n names ≡ none) × DistinctNumbers names

-- Numbers are unique and rise with time, up to the sequence; a report and a failure refer to a
-- message that is there, at most one failure to each; a phone number has at most one name.
pub record WellFormed (t : Tables) : Type 0 where
  pub descending : IsDescending (suc t.sequence) t.messages
  pub reports_descend : ReportsDescend (next_report_id t.delivery_reports) t.delivery_reports
  pub reports_refer : All (λ r. has_message r.message_id t.messages ≡ true) t.delivery_reports
  pub failures_refer : All (λ f. has_message f.message_id t.messages ≡ true) t.send_failures
  pub one_failure : OnePerMessage t.send_failures
  pub distinct_numbers : DistinctNumbers t.friendly_names
