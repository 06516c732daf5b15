-- ===== src/Sms/Service/Laws.antt =====
-- From a sent message to the reports on it.
use sms_server.Base.{
  ℕ, suc, ◌≤◌, ◌≡◌, ◌≢◌, refl, ◌∙◌, Bool, true, false, List, ◌∷◌, ◌++◌, none, some, ok, arith, all,
  if◌then◌else◌, length, Bool-cases, inl, inr, Text,
}
use sms_server.Modem.Types.{Crates, ModemRequest, send_result, SmsPartialDeliveryReport}
use sms_server.Modem.Sender.{Encoder, Exchange, create_sms_requests}
use sms_server.Modem.Sender.Laws.{all_succeed, last_response}
use sms_server.Sms.Types.{
  SmsOutgoingMessage, announce, Event, outgoing_message, Action, insert_message,
  insert_delivery_report, update_message_status,
}
use sms_server.Sms.Manager.{Surroundings, manager_send_sms}
use sms_server.Sms.Manager.Laws.{manager_send_sms_stored}
use sms_server.Sms.Receiver.{ReportSurroundings, is_final, handle_delivery_report}
use sms_server.Sms.Encryption.{SmsEncryption, encrypt}
use sms_server.Sms.Database.Schema.{Tables}
use sms_server.Sms.Database
use sms_server.Sms.Database.Queries.{get_delivery_report_target_message}
use sms_server.Sms.Database.Invariant.{WellFormed}
use sms_server.Sms.Database.Reports.{get_delivery_report_target_message-insert_message}
use sms_server.Sms.Service.{Call, perform, perform_all}
use sms_server.Sms.Service.Completed.{
  IsCompleted, perform_all-IsCompleted, update_message_status-IsCompleted,
  sequence-insert_delivery_report, get_delivery_report_target_message-IsCompleted, stored_target,
}
use sms_server.Sms.Service.Standing.{
  leaves, insert_message-leads, perform-WellFormed, get_delivery_report_target_message-perform_all,
}

announce-leaves :
    (number : Text) (reference id : ℕ) (b : Bool) (event : Event) (later : List Action)
    → all (leaves number reference id) later ≡ true
    → all (leaves number reference id) (announce b event ++ later) ≡ true
announce-leaves number reference id true event later h = h
announce-leaves number reference id false event later h = h

module _ (e : SmsEncryption) (calls : ℕ → Call) (t : Tables) where
  -- A message's parts are all answered well, the last with the reference `r`, and its insertion
  -- into well-formed tables succeeds; the crate's conversion keeps the receiver and the content,
  -- and marks it as outgoing. Then it is the message that a report from its receiver with that
  -- reference is for: at once, and after any later actions of the manager and the receiver, as
  -- long as none of them completes it or stores, not final, another message to that receiver
  -- with that reference.
  pub manager_send_sms-target :
      {x : Crates} (s : Surroundings) (p : Encoder) (exchange : ℕ → Exchange x) (counter : ℕ)
      (m : SmsOutgoingMessage) (requests : List ModemRequest) (r : ℕ) (encrypted : Text)
      (later : List Action)
      → WellFormed t
      → create_sms_requests p m ≡ ok requests
      → all_succeed exchange 0 (length requests) ≡ true
      → last_response exchange 0 (length requests) none ≡ some (send_result r)
      → (s.conversions.from_outgoing m).phone_number ≡ m.to
      → (s.conversions.from_outgoing m).message_content ≡ m.content
      → (s.conversions.from_outgoing m).is_outgoing ≡ true
      → encrypt e (calls 0).nonce m.content ≡ ok encrypted
      → (calls 0).statement.fails ≡ false
      → s.row
        ≡ (Database.insert_message e
            (calls 0).nonce
            (calls 0).statement
            t
            (record (s.conversions.from_outgoing m) { message_reference = some r })
            false).1
      → all (leaves m.to r (suc t.sequence)) later ≡ true
      → let (sent, managed) = manager_send_sms s p exchange counter m in
        (managed.result ≡ ok (some (suc t.sequence), send_result r))
        × (get_delivery_report_target_message false
              (perform_all e calls t 0 (managed.actions ++ later))
              m.to
              r
            ≡ ok (some (suc t.sequence)))
  manager_send_sms-target s p exchange counter m requests r encrypted later w c a l to content
        outgoing sealed fine row free =
      let message = record (s.conversions.from_outgoing m) { message_reference = some r } in
      let inserted : encrypt e (calls 0).nonce message.message_content ≡ ok encrypted =
        rw content sealed in
      let announced : Event =
        outgoing_message (record message { message_id = some (suc t.sequence) }) in
      let (number, target) =
        get_delivery_report_target_message-insert_message m.to r e (calls 0).nonce
          (calls 0).statement t message encrypted w fine inserted to outgoing refl in
      rw
        (manager_send_sms_stored s p exchange counter m requests r (suc t.sequence) c a l
          (row ∙ number))
        (
          refl,
          get_delivery_report_target_message-perform_all e m.to r (suc t.sequence) calls
              (perform e (calls 0) t (insert_message message false)) 1
              (announce s.has_broadcaster announced ++ later)
              (perform-WellFormed e (calls 0) t (insert_message message false) w)
              (insert_message-leads m.to r e (calls 0).nonce (calls 0).statement t message encrypted
                fine inserted to outgoing refl)
              (announce-leaves m.to r (suc t.sequence) s.has_broadcaster announced later free),
        )

  -- The two actions on a final report, at any place, and any later ones.
  reported_for_good :
      (i id status : ℕ) (later : List Action) (number : Text) (reference : ℕ)
      → id ≤ t.sequence
      → (calls (suc i)).statement.fails ≡ false
      → get_delivery_report_target_message false
          (perform_all e calls t i
            (insert_delivery_report id status true ∷ update_message_status id status true ∷ later))
          number
          reference
        ≢ ok (some id)
  reported_for_good i id status later number reference known fine =
      let reported : Tables = perform e (calls i) t (insert_delivery_report id status true) in
      let updated : Tables =
        perform e (calls (suc i)) reported (update_message_status id status true) in
      let same = sequence-insert_delivery_report (calls i).statement t id status true in
      let completed : IsCompleted id updated =
        update_message_status-IsCompleted (calls (suc i)).statement reported id status fine
          (omega (arith, known, same)) in
      get_delivery_report_target_message-IsCompleted number reference id
        (perform_all e calls updated (suc (suc i)) later)
        (perform_all-IsCompleted e id calls updated (suc (suc i)) later completed)

  -- A report whose status is final, and whose target is looked up in well-formed tables, completes
  -- that message for good: if the insertion of the report and the update of the message succeed,
  -- then no report is for the message, be it at once or after any later actions of the manager and
  -- the receiver.
  pub handle_delivery_report-target :
      (s : ReportSurroundings) (report : SmsPartialDeliveryReport) (id : ℕ) (later : List Action)
      → WellFormed t
      → s.target_message report.phone_number report.reference_id
        ≡ get_delivery_report_target_message false t report.phone_number report.reference_id
      → get_delivery_report_target_message false t report.phone_number report.reference_id
        ≡ ok (some id)
      → is_final s (s.from_u8 report.status) ≡ true
      → s.inserted ≡ ok tt
      → (calls (if s.announces then 2 else 1)).statement.fails ≡ false
      → (number : Text) (reference : ℕ)
      → get_delivery_report_target_message false
          (perform_all e calls t 0 ((handle_delivery_report s report).actions ++ later))
          number
          reference
        ≢ ok (some id)
  unfolding handle_delivery_report
  handle_delivery_report-target s report id later w asked found final inserted fine number
        reference =
      let known : id ≤ t.sequence =
        omega (arith, stored_target report.phone_number report.reference_id id t w found) in
      rw (asked ∙ found, final, inserted)
        (elim (Bool-cases s.announces) [
          | inl announces ↦ rw announces (
              reported_for_good 1 id report.status later number reference known
                (rw announces at fine))
          | inr silent ↦ rw silent (
              reported_for_good 0 id report.status later number reference known (rw silent at fine))
        ])
