-- ===== src/Sms/Manager.antt =====
-- `SMSManager` of src/sms/mod.rs: a message is sent, stored and announced.
pub mod Laws
mod Tests
use sms_server.Base.{
  ℕ, Bool, true, false, List, [], ◌∷◌, ◌++◌, Option, none, some, Result, ok, err, Text,
}
use sms_server.Text.{message}
use sms_server.Modem.Types.{Crates, ModemResponse, send_result, error}
use sms_server.Modem.Commands.{OutgoingCommand}
use sms_server.Modem.Sender.{Encoder, Exchange, Sending, sender_send_sms}
use sms_server.Sms.Types.{
  SmsMessage, SmsOutgoingMessage, Conversions, Event, outgoing_message, Action, insert_message,
  insert_send_failure, announce,
}

-- `row` is what `insert_message` of the database returns.
pub record Surroundings : Type 0 where
  pub conversions : Conversions
  pub row : Result ℕ
  pub has_broadcaster : Bool

pub record Managed {ℓ} (A : Type ℓ) : Type ℓ where
  pub actions : List Action
  pub result : Result A

abbrev failure_of : ℕ → Option Text → List Action
failure_of id none = []
failure_of id (some e) = insert_send_failure id e ∷ []

abbrev is_failure : Option Text → Bool
is_failure none = false
is_failure (some e) = true

module _ {x : Crates} (s : Surroundings) where
  abbrev inserted :
      SmsMessage → Option Text → ModemResponse x → Result ℕ → Managed (Option ℕ × ModemResponse x)
  inserted new_message failure response (err e) = record { actions = []; result = err e }
  inserted new_message failure response (ok id) = record {
    actions =
        failure_of id failure
        ++ announce s.has_broadcaster
            (outgoing_message (record new_message { message_id = some id }));
    result = ok (some id, response);
  }

  abbrev keep : SmsMessage → Option Text → ModemResponse x → Managed (Option ℕ × ModemResponse x)
  keep new_message failure response =
      let rest = inserted new_message failure response s.row in
      record rest { actions = insert_message new_message (is_failure failure) ∷ rest.actions }

  -- What becomes of the last response when all went well.
  abbrev keep_response : SmsOutgoingMessage → ModemResponse x → Managed (Option ℕ × ModemResponse x)
  keep_response m (send_result reference_id) =
      keep (record (s.conversions.from_outgoing m) { message_reference = some reference_id }) none
        (send_result reference_id)
  keep_response m (error e) =
      keep (record (s.conversions.from_outgoing m) { status = none }) (some e) (error e)
  keep_response m other = record {
    actions = [];
    result = err (message "Got invalid ModemResponse back from sending SMS message!");
  }

  unfoldable pub after_sending :
      SmsOutgoingMessage
      → Result (Bool × Option (ModemResponse x))
      → Managed (Option ℕ × ModemResponse x)
  after_sending m (err e) = record { actions = []; result = err e }
  after_sending m (ok (success, none)) = record {
    actions = [];
    result = err (message "Missing any valid SendSMS response!");
  }
  after_sending m (ok (false, some response)) = record {
    actions = [];
    result = ok (none, response);
  }
  after_sending m (ok (true, some response)) = keep_response m response

  -- `SMSManager::send_sms`: what `ModemSender::send_sms` does, and what follows it.
  unfoldable pub manager_send_sms :
      Encoder
      → (ℕ → Exchange x)
      → ℕ
      → SmsOutgoingMessage
      → Sending (Bool × Option (ModemResponse x)) × Managed (Option ℕ × ModemResponse x)
  manager_send_sms p exchange counter m =
      let sent = sender_send_sms p exchange counter m in (sent, after_sending m sent.result)
