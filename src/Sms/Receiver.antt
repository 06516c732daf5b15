-- ===== src/Sms/Receiver.antt =====
-- `SMSReceiver` of src/sms/mod.rs: incoming messages and delivery reports.
--
-- The map of the groups of parts is a function of its key. Its lock is held through each
-- operation on it, so that the operations follow one another.
pub mod Groups
pub mod Cleanup
pub mod Incoming
pub mod Whole
mod Tests
use sms_server.Base.{
  ℕ, Bool, true, false, not, ◌&&◌, ◌||◌, List, [], ◌∷◌, ◌++◌, Option, none, some, Result, ok, err,
  ◌==◌, if◌then◌else◌, Text,
}
use sms_server.Text.{message, equal}
use sms_server.Modem.Types.{SmsMultipartHeader, SmsIncomingMessage, SmsPartialDeliveryReport}
use sms_server.Sms.Types.{
  SmsMessage, Conversions, Event, incoming_message, delivery_report, Action, insert_message,
  insert_delivery_report, update_message_status, broadcast, announce,
}
use sms_server.Sms.Multipart.{SmsMultipartMessages, with_capacity, add_message, compile, is_stalled}
use sms_server.Sms.Manager.{Surroundings, Managed}

pub record MultipartReference : Type 0 where
  pub phone_number : Text
  pub message_reference : ℕ

abbrev pub Groups : Type 0
Groups = MultipartReference → Option SmsMultipartMessages

abbrev pub same_key : MultipartReference → MultipartReference → Bool
same_key k l = equal k.phone_number l.phone_number && k.message_reference == l.message_reference

unfoldable pub update : MultipartReference → Option SmsMultipartMessages → Groups → Groups
update key value groups = λ k. if same_key key k then value else groups k

-- The key of a message, if it is part of a larger one.
abbrev pub key_of : SmsIncomingMessage → SmsMultipartHeader → MultipartReference
key_of m header = record {
  phone_number = m.phone_number;
  message_reference = header.message_reference;
}

module _ (c : Conversions) where
  -- What is kept of a group, and what is passed on, behind `add_message`.
  abbrev pub settled :
      SmsMultipartMessages × Bool → Option SmsMultipartMessages × Option (Result SmsMessage)
  settled (group, true) = (none, some (compile c group))
  settled (group, false) = (some group, none)

  abbrev pub entered : ℕ → SmsMultipartHeader → Option SmsMultipartMessages → SmsMultipartMessages
  entered now header none = with_capacity now header.total
  entered now header (some group) = group

  -- The two branches on the map's entry: a new group that is complete at once is not inserted.
  unfoldable pub entry_part :
      ℕ
      → SmsIncomingMessage
      → SmsMultipartHeader
      → Option SmsMultipartMessages
      → Option SmsMultipartMessages × Option (Result SmsMessage)
  entry_part now m header entry =
      settled (add_message now (entered now header entry) m header.index)

  abbrev with_header :
      ℕ
      → Groups
      → SmsIncomingMessage
      → Option SmsMultipartHeader
      → Groups × Option (Result SmsMessage)
  with_header now groups m none = (groups, some (ok (c.from_incoming m)))
  with_header now groups m (some header) =
      let (kept, passed) = entry_part now m header (groups (key_of m header)) in
      (update (key_of m header) kept groups, passed)

  unfoldable pub get_incoming_sms_message :
      ℕ → Groups → SmsIncomingMessage → Groups × Option (Result SmsMessage)
  get_incoming_sms_message now groups m = with_header now groups m m.user_data_header

-- `retain`
unfoldable pub cleanup_stalled_multipart : ℕ → Groups → Groups
cleanup_stalled_multipart now groups = λ k. elim (groups k) [
  | none ↦ none
  | some group ↦ if is_stalled now group then none else some group
]

abbrev pub to_option : Result ℕ → Option ℕ
to_option (ok id) = some id
to_option (err e) = none

module _ (s : Surroundings) where
  abbrev store_incoming : Option (Result SmsMessage) → List Action × Option (Result ℕ)
  store_incoming none = ([], none)
  store_incoming (some (err e)) = ([], some (err e))
  store_incoming (some (ok m)) = (
    insert_message m false
        ∷ announce s.has_broadcaster (incoming_message (record m { message_id = to_option s.row })),
    some s.row,
  )

  -- The groups, what was done, and the row's number, if there is one.
  unfoldable pub handle_incoming_sms :
      ℕ → Groups → SmsIncomingMessage → Groups × List Action × Option (Result ℕ)
  handle_incoming_sms now groups m =
      let (groups', passed) = get_incoming_sms_message s.conversions now groups m in
      let (actions, result) = store_incoming passed in (groups', actions, result)

-- What the database answers on a report, and `MessageStatus` of `sms-pdu`.
pub record ReportSurroundings : Type 1 where
  pub MessageStatus : Type 0
  pub from_u8 : ℕ → Option MessageStatus
  pub is_success : MessageStatus → Bool
  pub is_permanent_error : MessageStatus → Bool
  pub target_message : Text → ℕ → Result (Option ℕ)
  pub inserted : Result (Unit {0})
  pub updated : Result (Unit {0})
  pub announces : Bool

module _ (s : ReportSurroundings) where
  abbrev pub is_final : Option (s.MessageStatus) → Bool
  is_final none = true
  is_final (some status) = s.is_success status || s.is_permanent_error status

  abbrev updated_status : ℕ → Result (Unit {0}) → Result ℕ
  updated_status id (ok u) = ok id
  updated_status id (err e) = err e

  abbrev inserted_report : ℕ → ℕ → Bool → Result (Unit {0}) → Managed ℕ
  inserted_report id status final (err e) = record {
    actions = insert_delivery_report id status final ∷ [];
    result = err e;
  }
  inserted_report id status final (ok u) = record {
    actions = insert_delivery_report id status final ∷ update_message_status id status final ∷ [];
    result = updated_status id s.updated;
  }

  abbrev report_for : SmsPartialDeliveryReport → Result (Option ℕ) → Managed ℕ
  report_for report (err e) = record { actions = []; result = err e }
  report_for report (ok none) = record {
    actions = [];
    result = err (message "Could not find target message for delivery report!");
  }
  report_for report (ok (some id)) =
      let rest = inserted_report id report.status (is_final (s.from_u8 report.status)) s.inserted in
      record rest { actions = announce s.announces (delivery_report id report) ++ rest.actions }

  unfoldable pub handle_delivery_report : SmsPartialDeliveryReport → Managed ℕ
  handle_delivery_report report =
      report_for report (s.target_message report.phone_number report.reference_id)
