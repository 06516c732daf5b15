-- ===== src/Sms/Manager/Tests.antt =====
-- The theorems on `SMSManager` at a concrete message of two parts.
use sms_server.Base.{◌≡◌, refl, true, false, ◌∷◌, some, ok, all}
use sms_server.Modem.Types.{send_result}
use sms_server.Sms.Types.{outgoing_message, insert_message, announce}
use sms_server.Sms.Manager.{manager_send_sms}
use sms_server.Sms.Manager.Laws.{
  is_no_failure, manager_send_sms_no_failure, manager_send_sms_stored,
}
use sms_server.Sms.Samples.{
  conversions, surroundings, encoder, outgoing, accepting, failing, requests, created,
}

manager_send_sms_no_failure_example :
    all is_no_failure (manager_send_sms surroundings encoder failing 1 outgoing).1.actions ≡ true
manager_send_sms_no_failure_example =
    manager_send_sms_no_failure surroundings encoder failing 1 outgoing

manager_send_sms_stored_example :
    let stored = record (conversions.from_outgoing outgoing) { message_reference = some 61 } in
    (manager_send_sms surroundings encoder accepting 1 outgoing).1 ≡ record {
      actions =
          insert_message stored false
          ∷ announce true (outgoing_message (record stored { message_id = some 7 }));
      result = ok (some 7, send_result 61);
    }
manager_send_sms_stored_example =
    manager_send_sms_stored surroundings encoder accepting 1 outgoing requests 61 7 created refl
      refl refl
