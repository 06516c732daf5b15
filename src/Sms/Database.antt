-- ===== src/Sms/Database.antt =====
-- `SMSDatabase` of src/sms/database.rs on the tables of src/sms/schemas/sqlite.sql: each statement
-- as what SQL says it does to the tables. Every call of a statement may also fail as a whole.
--
-- A row's number is a natural number, since SQLite assigns them from 1.
pub mod Schema
pub mod Queries
pub mod Invariant
pub mod Names
pub mod Reports
pub mod Messages
pub mod Latest
pub mod Samples
mod Tests
use sms_server.Base.{
  ℕ, suc, Bool, true, false, List, [], ◌∷◌, map, Option, none, some, Result, ok, err, ◌==◌,
  if◌then◌else◌, Text, Bytes,
}
use sms_server.Text.{message, equal}
use sms_server.Sms.Types.{SmsMessage}
use sms_server.Sms.Encryption.{SmsEncryption, encrypt}
use Schema.{
  MessageRow, SendFailureRow, ReportRow, Tables, has_message, next_report_id, put_name, remove_name,
  has_failure,
}

-- Whether the statement fails for a reason of its own (a lock, the disk), and `unixepoch()`.
pub record Statement : Type 0 where
  pub fails : Bool
  pub now : ℕ

-- What a statement that changes the tables gives: `none` is a constraint that is violated. The
-- text of any failure is its context.
abbrev executed {ℓ} :
    {A : Type ℓ} → Statement → Text → Tables → Option (Tables × A) → Tables × Result A
executed s context t none = (t, err context)
executed s context t (some (t', a)) = if s.fails then (t, err context) else (t', ok a)

abbrev pub completion : Statement → Bool → Option ℕ
completion s true = some s.now
completion s false = none

-- The row of a new message, under the next number of the sequence.
abbrev pub new_row : Statement → Tables → SmsMessage → Text → Bool → MessageRow
new_row s t m encrypted_content is_final = record {
  message_id = suc t.sequence;
  phone_number = m.phone_number;
  message_content = encrypted_content;
  message_reference = m.message_reference;
  is_outgoing = m.is_outgoing;
  status = m.status;
  created_at = s.now;
  completed_at = completion s is_final;
}

abbrev add_message_row : MessageRow → Tables → Tables × ℕ
add_message_row row t =
    (record t { messages = row ∷ t.messages; sequence = row.message_id }, row.message_id)

abbrev insert_encrypted : Statement → Tables → SmsMessage → Bool → Result Text → Tables × Result ℕ
insert_encrypted s t m is_final (err e) = (t, err e)
insert_encrypted s t m is_final (ok encrypted_content) =
    executed s (message "Failed to insert SmsMessage") t
      (some (add_message_row (new_row s t m encrypted_content is_final) t))

-- `insert_message`, with the nonce that `encrypt` draws.
unfoldable pub insert_message :
    SmsEncryption → Bytes → Statement → Tables → SmsMessage → Bool → Tables × Result ℕ
insert_message e nonce s t m is_final =
    insert_encrypted s t m is_final (encrypt e nonce m.message_content)

-- The primary key is the message's, which must exist.
unfoldable pub insert_send_failure : Statement → Tables → ℕ → Text → Tables × Result ℕ
insert_send_failure s t message_id error_message =
    let row : SendFailureRow = record {
      message_id = message_id;
      error_message = error_message;
      created_at = s.now;
    } in
    executed s (message "Failed to insert send failure") t (
      if has_failure message_id t.send_failures
      then none
      else if has_message message_id t.messages
      then some (record t { send_failures = row ∷ t.send_failures }, message_id)
      else none)

unfoldable pub insert_delivery_report : Statement → Tables → ℕ → ℕ → Bool → Tables × Result ℕ
insert_delivery_report s t message_id status is_final =
    let row : ReportRow = record {
      report_id = next_report_id t.delivery_reports;
      message_id = message_id;
      status = status;
      is_final = is_final;
      created_at = s.now;
    } in
    executed s (message "Failed to insert delivery report") t (
      if has_message message_id t.messages
      then some (record t { delivery_reports = row ∷ t.delivery_reports }, row.report_id)
      else none)

-- The two statements of `update_message_status` on one row.
abbrev set_row_status : Statement → ℕ → Bool → MessageRow → MessageRow
set_row_status s status true row = record row { status = some status; completed_at = some s.now }
set_row_status s status false row = record row { status = some status }

abbrev pub update_row : Statement → ℕ → ℕ → Bool → MessageRow → MessageRow
update_row s message_id status completed row =
    if row.message_id == message_id then set_row_status s status completed row else row

unfoldable pub update_message_status :
    Statement → Tables → ℕ → ℕ → Bool → Tables × Result (Unit {0})
update_message_status s t message_id status completed =
    executed s (message "Failed to update message status") t
      (some (record t { messages = map (update_row s message_id status completed) t.messages }, tt))

unfoldable pub update_friendly_name :
    Statement → Tables → Text → Option Text → Tables × Result (Unit {0})
update_friendly_name s t phone_number (some name) =
    executed s (message "Failed to insert friendly name") t
      (some (record t { friendly_names = put_name phone_number name t.friendly_names }, tt))
update_friendly_name s t phone_number none =
    executed s (message "Failed to delete friendly name") t
      (some (record t { friendly_names = remove_name phone_number t.friendly_names }, tt))
