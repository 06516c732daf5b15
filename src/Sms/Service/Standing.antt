-- ===== src/Sms/Service/Standing.antt =====
-- A message stays the target of its reports until it is completed or another one takes its place.
use sms_server.Base.{
  ℕ, suc, ◌≡◌, ◌∙◌, Bool, true, false, not, ◌&&◌, ◌||◌, List, [], ◌∷◌, map, Option, none, some, ok,
  arith, all, select, Bool-cases, Option-cases, Result-cases, inl, inr, ap, ◌==◌, if◌then◌else◌,
  Text, Bytes,
}
use sms_server.Text.{equal}
use sms_server.Text.Laws.{equal_refl}
use sms_server.Sms.Types.{
  SmsMessage, Action, insert_message, insert_send_failure, insert_delivery_report,
  update_message_status, broadcast,
}
use sms_server.Sms.Encryption.{SmsEncryption, encrypt}
use sms_server.Sms.Database.Schema.{MessageRow, Tables}
use sms_server.Sms.Database.{Statement, update_row, new_row}
use sms_server.Sms.Database
use sms_server.Sms.Database.Queries.{is_target, newest, id_of, get_delivery_report_target_message}
use sms_server.Sms.Database.Invariant.{IsDescending, WellFormed}
use sms_server.Sms.Database.Invariant.Preserved.{
  insert_message-WellFormed, insert_send_failure-WellFormed, insert_delivery_report-WellFormed,
  update_message_status-WellFormed,
}
use sms_server.Sms.Database.Reports.{newest-select}
use sms_server.Sms.Service.{Call, perform, perform_all}

-- The reference of a message is the given one.
abbrev refers : ℕ → Option ℕ → Bool
refers reference none = false
refers reference (some r) = r == reference

-- An action that does not complete the message `id`, and stores no other outgoing message, which
-- is not final, to the number and with the reference.
abbrev pub leaves : Text → ℕ → ℕ → Action → Bool
leaves number reference id (insert_message m is_final) =
    is_final
    || not m.is_outgoing
    || not (equal m.phone_number number)
    || not (refers reference m.message_reference)
leaves number reference id (update_message_status other status completed) =
    not (completed && other == id)
leaves number reference id _ = true

module _ (number : Text) (reference id : ℕ) where
  -- The first row that a report may be for is the message's.
  abbrev pub leads : List MessageRow → Bool
  leads [] = false
  leads (row ∷ rows) = if is_target number reference row then row.message_id == id else leads rows

  leads-update_row :
      (s : Statement) (other status : ℕ) (completed : Bool) (rows : List MessageRow)
      → not (completed && other == id) ≡ true
      → leads rows ≡ true
      → leads (map (update_row s other status completed) rows) ≡ true
  leads-update_row s other status completed [] free h = h
  leads-update_row s other status true (row ∷ rows) free h =
      ground (arith, free, h, leads-update_row s other status true rows free)
  leads-update_row s other status false (row ∷ rows) free h =
      ground (arith, free, h, leads-update_row s other status false rows free)

  leads-new_row :
      (s : Statement) (t : Tables) (m : SmsMessage) (content : Text) (is_final : Bool)
      → leaves number reference id (insert_message m is_final) ≡ true
      → is_target number reference (new_row s t m content is_final) ≡ false
  leads-new_row s t m content true free = ground (arith, free)
  leads-new_row s t m content false free = elim (Option-cases m.message_reference) [
    | inl e ↦ rw e (ground (arith, rw e at free))
    | inr (r, e) ↦ rw e (ground (arith, rw e at free))
  ]

  leads-newest :
      (bound : ℕ) (rows : List MessageRow)
      → IsDescending bound rows
      → leads rows ≡ true
      → id_of (newest (select (is_target number reference) rows)) ≡ some id
  leads-newest bound [] h l = absurd (ground (arith, l))
  leads-newest bound (row ∷ rows) h l = elim (Bool-cases (is_target number reference row)) [
    | inr other ↦ rw other (leads-newest row.message_id rows h.1 (rw other at l))
    | inl target ↦
        ap id_of (newest-select (is_target number reference) bound row rows target h)
        ∙ ap some (ground (arith, rw target at l))
  ]

-- A message that is stored as outgoing and not final, with a reference, leads.
pub insert_message-leads :
    (number : Text) (reference : ℕ) (e : SmsEncryption) (nonce : Bytes) (s : Statement) (t : Tables)
    (m : SmsMessage) (content : Text)
    → s.fails ≡ false
    → encrypt e nonce m.message_content ≡ ok content
    → m.phone_number ≡ number
    → m.is_outgoing ≡ true
    → m.message_reference ≡ some reference
    → leads number reference
        (suc t.sequence)
        (Database.insert_message e nonce s t m false).0.messages
      ≡ true
unfolding Database.insert_message
insert_message-leads number reference e nonce s t m content fine sealed to outgoing known =
    rw (sealed, fine, to, outgoing, known) (ground (arith, equal_refl number))

pub perform-WellFormed :
    (e : SmsEncryption) (c : Call) (t : Tables) (action : Action)
    → WellFormed t
    → WellFormed (perform e c t action)
perform-WellFormed e c t (broadcast event) w = w
perform-WellFormed e c t (insert_message m final) w =
    insert_message-WellFormed t w e c.nonce c.statement m final
perform-WellFormed e c t (insert_send_failure m text) w =
    insert_send_failure-WellFormed t w c.statement m text
perform-WellFormed e c t (insert_delivery_report m status final) w =
    insert_delivery_report-WellFormed t w c.statement m status final
perform-WellFormed e c t (update_message_status m status completed) w =
    update_message_status-WellFormed t w c.statement m status completed

module _ (e : SmsEncryption) (number : Text) (reference id : ℕ) where
  perform-leads :
      (c : Call) (t : Tables) (action : Action)
      → leaves number reference id action ≡ true
      → leads number reference id t.messages ≡ true
      → leads number reference id (perform e c t action).messages ≡ true
  unfolding Database.insert_message Database.insert_send_failure Database.insert_delivery_report
      Database.update_message_status
  perform-leads c t (broadcast event) free h = h
  perform-leads c t (insert_send_failure m text) free h = ground (arith, h)
  perform-leads c t (insert_delivery_report m status final) free h = ground (arith, h)
  perform-leads c t (update_message_status m status completed) free h = ground (
    arith,
    h,
    leads-update_row number reference id c.statement m status completed t.messages free h,
  )
  perform-leads c t (insert_message m final) free h =
      elim (Result-cases (encrypt e c.nonce m.message_content)) [
        | inl (content, q) ↦
            rw (q, perform)
              (ground
                (arith, h, leads-new_row number reference id c.statement t m content final free))
        | inr (reason, q) ↦ rw (q, perform) h
      ]

  -- A message that leads among those a report may be for is the target of the report, after any
  -- actions that leave it so.
  pub get_delivery_report_target_message-perform_all :
      (calls : ℕ → Call) (t : Tables) (i : ℕ) (actions : List Action)
      → WellFormed t
      → leads number reference id t.messages ≡ true
      → all (leaves number reference id) actions ≡ true
      → get_delivery_report_target_message false (perform_all e calls t i actions) number reference
        ≡ ok (some id)
  unfolding get_delivery_report_target_message
  get_delivery_report_target_message-perform_all calls t i [] w h free =
      ap ok (leads-newest number reference id (suc t.sequence) t.messages w.descending h)
  get_delivery_report_target_message-perform_all calls t i (a ∷ actions) w h free =
      get_delivery_report_target_message-perform_all calls (perform e (calls i) t a) (suc i) actions
        (perform-WellFormed e (calls i) t a w)
        (perform-leads (calls i) t a (ground (arith, free)) h) (ground (arith, free))
