-- ===== src/Sms/Service/Tests.antt =====
-- The theorems on the service at one message and one report.
use sms_server.Base.{
  ℕ, ◌+◌, ◌==◌, ◌≡◌, ◌≢◌, refl, true, false, List, [], ◌∷◌, ◌++◌, some, ok, arith,
}
use sms_server.Text.{codes, equal}
use sms_server.Text.Utf8.{as_bytes}
use sms_server.Modem.Types.{send_result, SmsPartialDeliveryReport}
use sms_server.Sms.Samples.{
  conversions, encryption, encoder, outgoing, accepting, requests, created,
}
use sms_server.Sms.Manager.{Surroundings, manager_send_sms}
use sms_server.Sms.Receiver.{ReportSurroundings, handle_delivery_report}
use sms_server.Sms.Encryption.{encrypt}
use sms_server.Sms.Database.Schema.{empty_tables, next_report_id, largest_report_id}
use sms_server.Sms.Database.{insert_message}
use sms_server.Sms.Database.Queries.{get_delivery_report_target_message}
use sms_server.Sms.Types.{Action, update_message_status}
use sms_server.Sms.Database.Invariant.{Reachable, WellFormed}
use sms_server.Sms.Database.Invariant.Preserved.{Reachable-WellFormed}
use sms_server.Sms.Database.Samples.{fine_at, nonce, one_message}
use sms_server.Sms.Service.{Call, perform_all}
use sms_server.Sms.Service.Laws.{manager_send_sms-target, handle_delivery_report-target}

abbrev calls : ℕ → Call
calls i = record { nonce = nonce; statement = fine_at (100 + i) }

-- The insertion into the empty tables gives the row 1.
abbrev connected : Surroundings
connected = record { conversions = conversions; row = ok 1; has_broadcaster = true }

sealed : encrypt encryption nonce outgoing.content ≡ ok (nonce ++ 99 ∷ 104 ∷ 105 ∷ [])
unfolding encrypt as_bytes
sealed = refl

inserted :
    ok 1
    ≡ (insert_message encryption nonce
        (fine_at 100)
        empty_tables
        (record (conversions.from_outgoing outgoing) { message_reference = some 61 })
        false).1
unfolding insert_message encrypt as_bytes
inserted = refl

-- A temporary status of the message, and the completion of another.
abbrev later : List Action
later = update_message_status 1 32 false ∷ update_message_status 2 0 true ∷ []

manager_send_sms-target_example :
    let (sent, managed) = manager_send_sms connected encoder accepting 1 outgoing in
    (managed.result ≡ ok (some 1, send_result 61))
    × (get_delivery_report_target_message false
          (perform_all encryption calls empty_tables 0 (managed.actions ++ later))
          (codes "+441234")
          61
        ≡ ok (some 1))
manager_send_sms-target_example =
    manager_send_sms-target encryption calls empty_tables connected encoder accepting 1 outgoing
      requests 61 _ later (Reachable-WellFormed encryption empty_tables Reachable.start) created
      refl refl refl refl refl sealed refl inserted refl

-- Status 0 is a success.
abbrev reports : ReportSurroundings
reports = record {
  MessageStatus = ℕ;
  from_u8 = some;
  is_success = λ status. status == 0;
  is_permanent_error = λ status. false;
  target_message =
      λ number reference. get_delivery_report_target_message false one_message number reference;
  inserted = ok tt;
  updated = ok tt;
  announces = true;
}

abbrev report : SmsPartialDeliveryReport
report = record { status = 0; phone_number = codes "+44"; reference_id = 5 }

found : get_delivery_report_target_message false one_message (codes "+44") 5 ≡ ok (some 1)
unfolding get_delivery_report_target_message equal
found = refl

one_message-WellFormed : WellFormed one_message
unfolding next_report_id largest_report_id
one_message-WellFormed = record {
  descending = ground arith;
  reports_descend = ground arith;
  reports_refer = tt;
  failures_refer = tt;
  one_failure = tt;
  distinct_numbers = tt;
}

handle_delivery_report-target_example :
    get_delivery_report_target_message false
      (perform_all encryption calls one_message 0
        ((handle_delivery_report reports report).actions ++ later))
      (codes "+44")
      5
    ≢ ok (some 1)
handle_delivery_report-target_example =
    handle_delivery_report-target encryption calls one_message reports report 1 later
      one_message-WellFormed refl found refl refl refl (codes "+44") 5
