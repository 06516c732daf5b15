-- ===== src/Sms/Database/Queries.antt =====
-- The statements of src/sms/database.rs that only read.
use sms_server.Base.{
  ℕ, ◌^◌, Bool, true, false, not, ◌&&◌, List, [], ◌∷◌, ◌++◌, map, Option, none, some, Result, ok,
  err, ◌>>=◌, select, take, drop, ltb, ◌==◌, if◌then◌else◌, Text,
}
use sms_server.Text.{codes, message, equal, is_some}
use sms_server.Text.Number.{decimal}
use sms_server.Sms.Types.{SmsMessage}
use sms_server.Sms.Encryption.{SmsEncryption, decrypt}
use sms_server.Sms.Database.Schema.{MessageRow, ReportRow, Tables, find_name}

-- The two things that the source leaves to SQLite and `sqlx`: in what order ORDER BY puts rows
-- with the same key, and what `row.get::<u8, _>` does with NULL, where an error is its panic.
pub record Sqlite : Type 1 where
  pub order_by : {A : Type 0} → (A → ℕ) → Bool → List A → List A
  pub get_u8 : Option ℕ → Result ℕ

abbrev limit_clause : Option ℕ → Text
limit_clause none = []
limit_clause (some limit_val) = codes " LIMIT " ++ decimal limit_val

abbrev offset_clause : Option ℕ → Text
offset_clause none = []
offset_clause (some offset_val) = codes " OFFSET " ++ decimal offset_val

-- The text of a query, which `paged` below gives the meaning of.
unfoldable pub build_pagination_query : Text → Text → Option ℕ → Option ℕ → Bool → Text
build_pagination_query base_query order_by limit offset reverse =
    base_query
    ++ codes " ORDER BY "
    ++ order_by
    ++ codes " "
    ++ (if reverse then codes "ASC" else codes "DESC")
    ++ limit_clause limit
    ++ offset_clause offset

-- A literal that is no 64-bit integer is no limit.
abbrev is_i64 : ℕ → Bool
is_i64 n = ltb n (2 ^ 63)

-- The clauses LIMIT and OFFSET. An OFFSET without LIMIT is a syntax error.
unfoldable pub page {ℓ} : {A : Type ℓ} → Option ℕ → Option ℕ → List A → Option (List A)
page none none rows = some rows
page (some limit) none rows = if is_i64 limit then some (take limit rows) else none
page (some limit) (some offset) rows =
    if is_i64 limit && is_i64 offset then some (take limit (drop offset rows)) else none
page none (some offset) rows = none

abbrev fetched {ℓ} : {A : Type ℓ} → Bool → Text → Option A → Result A
fetched fails context none = err context
fetched fails context (some a) = if fails then err context else ok a

-- A row that a report may be for.
abbrev pub is_target : Text → ℕ → MessageRow → Bool
is_target phone_number reference_id row =
    not (is_some row.completed_at)
    && row.is_outgoing
    && equal row.phone_number phone_number
    && elim row.message_reference [ none ↦ false | some r ↦ r == reference_id ]

abbrev newer : MessageRow → Option MessageRow → Option MessageRow
newer row none = some row
newer row (some other) = if ltb row.message_id other.message_id then some other else some row

-- `ORDER BY message_id DESC LIMIT 1`
unfoldable pub newest : List MessageRow → Option MessageRow
newest [] = none
newest (row ∷ rows) = newer row (newest rows)

abbrev pub id_of : Option MessageRow → Option ℕ
id_of none = none
id_of (some row) = some row.message_id

unfoldable pub get_delivery_report_target_message : Bool → Tables → Text → ℕ → Result (Option ℕ)
unfolding newest
get_delivery_report_target_message fails t phone_number reference_id =
    fetched fails (message "Failed to query appropriate target message for delivery report")
      (some (id_of (newest (select (is_target phone_number reference_id) t.messages))))

unfoldable pub get_friendly_name : Bool → Tables → Text → Result (Option Text)
get_friendly_name fails t phone_number =
    fetched fails (message "Failed to query friendly name")
      (some (find_name phone_number t.friendly_names))

abbrev pub contains_number : Text → List Text → Bool
contains_number number [] = false
contains_number number (n ∷ ns) = if equal n number then true else contains_number number ns

-- `GROUP BY m.phone_number`
unfoldable pub numbers_of : List MessageRow → List Text
numbers_of [] = []
numbers_of (row ∷ rows) =
    let rest = numbers_of rows in
    if contains_number row.phone_number rest then rest else row.phone_number ∷ rest

-- `MAX(m.created_at)` of a group
unfoldable pub latest : Text → List MessageRow → ℕ
latest number [] = 0
latest number (row ∷ rows) =
    let rest = latest number rows in
    if equal row.phone_number number
    then (if ltb rest row.created_at then row.created_at else rest)
    else rest

module _ (q : Sqlite) where
  unfoldable pub read_row : SmsEncryption → MessageRow → Result SmsMessage
  read_row e row = do
    content ← decrypt e row.message_content
    status ← q.get_u8 row.status
    ok (record {
      message_id = some row.message_id;
      phone_number = row.phone_number;
      message_content = content;
      message_reference = row.message_reference;
      is_outgoing = row.is_outgoing;
      status = some status;
      created_at = some row.created_at;
      completed_at = row.completed_at;
    })

  -- `collect` stops at the first error.
  unfoldable pub read_rows : SmsEncryption → List MessageRow → Result (List SmsMessage)
  read_rows e [] = ok []
  read_rows e (row ∷ rows) = do m ← read_row e row; ms ← read_rows e rows; ok (m ∷ ms)

-- Whether the order is ascending comes last in `paged`, as in `order_by`.
module _ (q : Sqlite) (fails : Bool) where
  -- What SQLite selects, for the query of `build_pagination_query`, of the rows of its base query.
  unfoldable pub paged :
      {A : Type 0} → List A → (A → ℕ) → Option ℕ → Option ℕ → Bool → Option (List A)
  paged rows order_by limit offset reverse = page limit offset (q.order_by order_by reverse rows)

  unfoldable pub get_latest_numbers :
      Tables → Option ℕ → Option ℕ → Bool → Result (List (Text × Option Text))
  get_latest_numbers t limit offset reverse = do
    numbers ←
        fetched fails (message "Failed to query latest numbers")
          (paged (numbers_of t.messages) (λ n. latest n t.messages) limit offset reverse)
    ok (map (λ n. (n, find_name n t.friendly_names)) numbers)

  unfoldable pub get_messages :
      SmsEncryption → Tables → Text → Option ℕ → Option ℕ → Bool → Result (List SmsMessage)
  get_messages e t phone_number limit offset reverse = do
    rows ← fetched fails (message "Failed to query SmsMessage's") (
        paged (select (λ row. equal row.phone_number phone_number) t.messages)
          (λ row. row.created_at) limit offset reverse)
    read_rows q e rows

  unfoldable pub get_delivery_reports :
      Tables → ℕ → Option ℕ → Option ℕ → Bool → Result (List ReportRow)
  get_delivery_reports t message_id limit offset reverse =
      fetched fails (message "Failed to query delivery reports") (
        paged (select (λ row. row.message_id == message_id) t.delivery_reports)
          (λ row. row.created_at) limit offset reverse)
