-- ===== src/Sms/Database/Reports.antt =====
-- Which message a delivery report is for.
use sms_server.Base.{
  select, ℕ, suc, ◌≤◌, ◌≡◌, ◌≢◌, refl, ◌∙◌, ap, Bool, true, false, List, [], ◌∷◌, some, ok, arith,
  All, Bool-cases, Option-cases, inl, inr, some_injective, ltb, Text, Bytes,
}
use sms_server.Text.Laws.{equal_refl}
use sms_server.Sms.Types.{SmsMessage}
use sms_server.Sms.Encryption.{SmsEncryption, encrypt}
use sms_server.Sms.Database.Schema.{MessageRow, Tables}
use sms_server.Sms.Database.{Statement, insert_message, new_row}
use sms_server.Sms.Database.Queries.{is_target, newest, id_of, get_delivery_report_target_message}
use sms_server.Sms.Database.Invariant.{IsDescending, WellFormed}

IsDescending-le :
    (a b : ℕ) (rows : List MessageRow) → a ≤ b → IsDescending a rows → IsDescending b rows
IsDescending-le a b [] le h = omega arith
IsDescending-le a b (row ∷ rows) le (h, hs) = (omega arith, hs)

pub select-IsDescending :
    (p : MessageRow → Bool) (b : ℕ) (rows : List MessageRow)
    → IsDescending b rows
    → IsDescending b (select p rows)
select-IsDescending p b [] h = h
select-IsDescending p b (row ∷ rows) (h, hs) = elim (Bool-cases (p row)) [
  | inl q ↦ rw q (h, select-IsDescending p row.message_id rows hs)
  | inr q ↦ rw q (
      IsDescending-le row.message_id b (select p rows) (omega arith)
        (select-IsDescending p row.message_id rows hs))
]

pub newest-cons :
    (b : ℕ) (row : MessageRow) (rows : List MessageRow)
    → IsDescending b (row ∷ rows)
    → newest (row ∷ rows) ≡ some row
unfolding newest
newest-cons b row [] h = refl
newest-cons b row (next ∷ rows) h =
    rw (newest-cons row.message_id next rows h.1) (ground (arith, h.1.0))

pub newest-select :
    (p : MessageRow → Bool) (b : ℕ) (row : MessageRow) (rows : List MessageRow)
    → p row ≡ true
    → IsDescending b (row ∷ rows)
    → newest (select p (row ∷ rows)) ≡ some row
newest-select p b row rows q (h, hs) =
    rw q (newest-cons b row (select p rows) (h, select-IsDescending p row.message_id rows hs))

module _ (number : Text) (reference : ℕ) where
  -- Where the tables are well formed, a message that `insert_message` has stored as outgoing,
  -- not final and with a reference gets the next number, and is the target of the reports on its
  -- phone number and that reference, whatever messages were stored before it.
  pub get_delivery_report_target_message-insert_message :
      (e : SmsEncryption) (nonce : Bytes) (s : Statement) (t : Tables) (m : SmsMessage)
      (content : Text)
      → WellFormed t
      → s.fails ≡ false
      → encrypt e nonce m.message_content ≡ ok content
      → m.phone_number ≡ number
      → m.is_outgoing ≡ true
      → m.message_reference ≡ some reference
      → let (t', result) = insert_message e nonce s t m false in
        (result ≡ ok (suc t.sequence))
        × (get_delivery_report_target_message false t' number reference
            ≡ ok (some (suc t.sequence)))
  unfolding insert_message get_delivery_report_target_message
  get_delivery_report_target_message-insert_message e nonce s t m content w fine sealed to outgoing
        known =
      let row = new_row s t m content false in
      let chosen : is_target number reference row ≡ true =
        rw (to, outgoing, known) (ground (arith, equal_refl number)) in
      rw (sealed, fine)
        (
          refl,
          ap (λ o. ok (id_of o))
              (newest-select (is_target number reference) (suc (suc t.sequence)) row t.messages
                chosen (omega arith, w.descending)),
        )

pub newest-ne :
    (id : ℕ) (rows : List MessageRow)
    → All (λ row. row.message_id ≢ id) rows
    → id_of (newest rows) ≢ some id
unfolding newest
newest-ne id [] h = λ q. cc
newest-ne id (row ∷ rows) (h, hs) = elim (Option-cases (newest rows)) [
  | inl e ↦ rw e λ q. h (some_injective q)
  | inr (other, e) ↦ elim (Bool-cases (ltb row.message_id other.message_id)) [
    | inl less ↦ rw (e, less) λ q. newest-ne id rows hs (ap id_of e ∙ q)
    | inr more ↦ rw (e, more) λ q. h (some_injective q)
  ]
]
