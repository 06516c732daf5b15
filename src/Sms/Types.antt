-- ===== src/Sms/Types.antt =====
-- The message types of the crate `sms-types` as src/sms uses them.
use sms_server.Base.{ℕ, Bool, true, false, List, [], ◌∷◌, Option, Text}
use sms_server.Modem.Types.{SmsIncomingMessage, SmsPartialDeliveryReport}

-- `SmsMessage`: the columns of a stored message, with a row's number once it has one.
pub record SmsMessage : Type 0 where
  pub message_id : Option ℕ
  pub phone_number : Text
  pub message_content : Text
  pub message_reference : Option ℕ
  pub is_outgoing : Bool
  pub status : Option ℕ
  pub created_at : Option ℕ
  pub completed_at : Option ℕ

-- `SmsOutgoingMessage`
pub record SmsOutgoingMessage : Type 0 where
  pub to : Text
  pub content : Text
  pub flash : Option Bool
  pub validity_period : Option ℕ
  pub timeout : Option ℕ

-- The conversions `SmsMessage::from` of that crate.
pub record Conversions : Type 0 where
  pub from_incoming : SmsIncomingMessage → SmsMessage
  pub from_outgoing : SmsOutgoingMessage → SmsMessage

-- `Event` of that crate, as far as src/sms sends it.
pub data Event : Type 0 where
  outgoing_message incoming_message : SmsMessage → Event
  delivery_report : ℕ → SmsPartialDeliveryReport → Event

-- What reaches the database and the broadcaster, in order: `insert_message` with whether the
-- message is final, `insert_send_failure`, `insert_delivery_report`, `update_message_status`.
pub data Action : Type 0 where
  insert_message : SmsMessage → Bool → Action
  insert_send_failure : ℕ → Text → Action
  insert_delivery_report update_message_status : ℕ → ℕ → Bool → Action
  broadcast : Event → Action

-- A broadcast, if there is a broadcaster.
abbrev pub announce : Bool → Event → List Action
announce true event = broadcast event ∷ []
announce false event = []
