-- ===== src/Sms/Database/Schema.antt =====
-- The tables of src/sms/schemas/sqlite.sql, the newest row first.
use sms_server.Base.{
  ℕ, suc, Bool, false, ◌||◌, List, [], ◌∷◌, Option, none, some, ltb, ◌==◌, if◌then◌else◌, Text,
}
use sms_server.Text.{equal}

pub record MessageRow : Type 0 where
  pub message_id : ℕ
  pub phone_number : Text
  pub message_content : Text
  pub message_reference : Option ℕ
  pub is_outgoing : Bool
  pub status : Option ℕ
  pub created_at : ℕ
  pub completed_at : Option ℕ

pub record SendFailureRow : Type 0 where
  pub message_id : ℕ
  pub error_message : Text
  pub created_at : ℕ

pub record ReportRow : Type 0 where
  pub report_id : ℕ
  pub message_id : ℕ
  pub status : ℕ
  pub is_final : Bool
  pub created_at : ℕ

-- `friendly_names` holds pairs of a phone number, the primary key, and a name. `sequence` is the
-- last number given to a message, which AUTOINCREMENT keeps.
pub record Tables : Type 0 where
  pub messages : List MessageRow
  pub sequence : ℕ
  pub friendly_names : List (Text × Text)
  pub send_failures : List SendFailureRow
  pub delivery_reports : List ReportRow

-- `init_tables` on a new file.
abbrev pub empty_tables : Tables
empty_tables = record {
  messages = [];
  sequence = 0;
  friendly_names = [];
  send_failures = [];
  delivery_reports = [];
}

-- The foreign key of the two tables that refer to a message.
unfoldable pub has_message : ℕ → List MessageRow → Bool
has_message id [] = false
has_message id (row ∷ rows) = row.message_id == id || has_message id rows

unfoldable pub has_failure : ℕ → List SendFailureRow → Bool
has_failure id [] = false
has_failure id (row ∷ rows) = row.message_id == id || has_failure id rows

abbrev larger : ℕ → ℕ → ℕ
larger m n = if ltb m n then n else m

unfoldable pub largest_report_id : List ReportRow → ℕ
largest_report_id [] = 0
largest_report_id (row ∷ rows) = larger row.report_id (largest_report_id rows)

-- A rowid without AUTOINCREMENT: one more than the largest there is.
unfoldable pub next_report_id : List ReportRow → ℕ
unfolding largest_report_id
next_report_id rows = suc (largest_report_id rows)

-- An insertion, or the update on a conflict of the primary key.
unfoldable pub put_name : Text → Text → List (Text × Text) → List (Text × Text)
put_name number name [] = (number, name) ∷ []
put_name number name ((n, old) ∷ names) =
    if equal n number then (n, name) ∷ names else (n, old) ∷ put_name number name names

unfoldable pub remove_name : Text → List (Text × Text) → List (Text × Text)
remove_name number [] = []
remove_name number ((n, old) ∷ names) =
    let rest = remove_name number names in if equal n number then rest else (n, old) ∷ rest

unfoldable pub find_name : Text → List (Text × Text) → Option Text
find_name number [] = none
find_name number ((n, name) ∷ names) = if equal n number then some name else find_name number names
