-- ===== src/Modem/Types.antt =====
-- src/modem/types.rs, and the types of the crates `sms-types` and `sms-pdu` as the modem uses them.
use sms_server.Base.{
  ℕ, ◌*◌, Bool, true, false, ◌||◌, List, Option, none, some, Result, if◌then◌else◌, Text, Bytes,
}
use sms_server.Base.Int.{ℤ}
use sms_server.Text.{codes, equal, starts_with}

-- The part of a concatenated message that a piece is: `SmsMultipartHeader` of `sms-types`.
pub record SmsMultipartHeader : Type 0 where
  pub message_reference : ℕ
  pub total : ℕ
  pub index : ℕ

-- `SmsIncomingMessage` of `sms-types`
pub record SmsIncomingMessage : Type 0 where
  pub phone_number : Text
  pub user_data_header : Option SmsMultipartHeader
  pub content : Text

-- `SmsPartialDeliveryReport` of `sms-types`
pub record SmsPartialDeliveryReport : Type 0 where
  pub status : ℕ
  pub phone_number : Text
  pub reference_id : ℕ

-- A component of a user data header, and a decoded message, of `sms-pdu`.
pub record UdhComponent : Type 0 where
  pub id : ℕ
  pub bytes : Bytes

pub record DecodedMessage : Type 0 where
  pub udh : Option (List UdhComponent)
  pub text : Text

-- The fields of `StatusReportPdu` that are read.
pub record StatusReport : Type 0 where
  pub status : ℕ
  pub recipient_address : Text
  pub message_reference : ℕ

-- What the program calls of the crates `hex`, `sms-pdu` and `sms-types`. An error is its text.
pub record Crates : Type 1 where
  pub FixStatus : Type 0
  pub PositionReport : Type 0
  pub DeliverPdu : Type 0
  pub fix_status : Text → Result FixStatus
  pub position_report : List Text → Result PositionReport
  pub hex_decode : Text → Result Bytes
  pub deliver_pdu : Bytes → Result DeliverPdu
  pub decode_message : DeliverPdu → Result DecodedMessage
  pub originating_address : DeliverPdu → Text
  pub multipart_header : Bytes → Result SmsMultipartHeader
  pub status_report : Bytes → Result StatusReport

pub data ModemRequest : Type 0 where
  send_sms : ℕ → Text → ModemRequest
  get_network_status get_signal_strength get_network_operator get_service_provider : ModemRequest
  get_battery_level get_gnss_status get_gnss_location : ModemRequest

-- A duration, in nanoseconds.
abbrev pub from_secs : ℕ → ℕ
from_secs s = s * 1_000_000_000

abbrev timeout_sms : ℕ
timeout_sms = from_secs 30

abbrev timeout_default : ℕ
timeout_default = from_secs 5

abbrev pub get_default_timeout : ModemRequest → ℕ
get_default_timeout (send_sms len pdu) = timeout_sms
get_default_timeout _ = timeout_default

unfoldable pub expected_response_prefix : ModemRequest → Text
expected_response_prefix (send_sms len pdu) = codes "+CMGS:"
expected_response_prefix get_network_status = codes "+CREG:"
expected_response_prefix get_signal_strength = codes "+CSQ:"
expected_response_prefix get_network_operator = codes "+COPS:"
expected_response_prefix get_service_provider = codes "+CSPN:"
expected_response_prefix get_battery_level = codes "+CBC:"
expected_response_prefix get_gnss_status = codes "+CGPSSTATUS:"
expected_response_prefix get_gnss_location = codes "+CGNSINF:"

-- The battery's voltage is kept in millivolts: the division by 1000 in `f32` is left out.
pub data ModemResponse (x : Crates) : Type 0 where
  send_result : ℕ → ModemResponse x
  network_status : ℕ → ℕ → ModemResponse x
  signal_strength : ℤ → ℤ → ModemResponse x
  network_operator : ℕ → ℕ → Text → ModemResponse x
  service_provider : Text → ModemResponse x
  battery_level : ℕ → ℕ → ℕ → ModemResponse x
  gnss_status : x.FixStatus → ModemResponse x
  gnss_location : x.PositionReport → ModemResponse x
  error : Text → ModemResponse x

pub data ModemStatus : Type 0 where
  startup online shutting_down offline : ModemStatus

pub data UnsolicitedMessageKind : Type 0 where
  incoming_sms delivery_report network_status_change shutting_down_notice : UnsolicitedMessageKind
  gnss_position_report : UnsolicitedMessageKind

pub data ModemEvent : Type 0 where
  unsolicited_message : UnsolicitedMessageKind → Text → ModemEvent
  command_response : Text → ModemEvent
  data_line : Text → ModemEvent
  prompt : Text → ModemEvent

unfoldable pub from_header : Text → Option UnsolicitedMessageKind
from_header header =
    if starts_with (codes "+CMT") header
    then some incoming_sms
    else if starts_with (codes "+CDS") header
    then some delivery_report
    else if starts_with (codes "+CGREG:") header
    then some network_status_change
    else if starts_with (codes "+UGNSINF") header
    then some gnss_position_report
    else if equal header (codes "NORMAL POWER DOWN")
        || equal header (codes "POWER DOWN")
        || equal header (codes "SHUTDOWN")
        || equal header (codes "POWERING DOWN")
    then some shutting_down_notice
    else none

abbrev pub has_next_line : UnsolicitedMessageKind → Bool
has_next_line shutting_down_notice = false
has_next_line gnss_position_report = false
has_next_line _ = true

pub data ModemIncomingMessage (x : Crates) : Type 0 where
  sms : SmsIncomingMessage → ModemIncomingMessage x
  report : SmsPartialDeliveryReport → ModemIncomingMessage x
  modem_status_update : ModemStatus → ModemStatus → ModemIncomingMessage x
  network_change : ℕ → ModemIncomingMessage x
  position : x.PositionReport → ModemIncomingMessage x
