-- ===== src/Modem/Handlers/Responses.antt =====
-- The parts of src/modem/handlers.rs that only decode: messages, reports and command responses.
use sms_server.Base.{
  false, not, List, [], ◌∷◌, Option, none, some, Result, ok, err, ◌>>=◌, ◌==◌, if◌then◌else◌, Text,
  Bytes,
}
use sms_server.Text.{codes, message, equal, ends_with, trim_end}
use sms_server.Modem.Types.{
  Crates, SmsMultipartHeader, SmsIncomingMessage, SmsPartialDeliveryReport, UdhComponent,
  ModemRequest, send_sms, get_network_status, get_signal_strength, get_network_operator,
  get_service_provider, get_battery_level, get_gnss_status, get_gnss_location, ModemResponse,
  send_result, network_status, signal_strength, network_operator, service_provider, battery_level,
  gnss_status, gnss_location,
}
use sms_server.Modem.Parsers.{
  parse_cmgs_result, parse_creg_response, parse_csq_response, parse_cops_response,
  parse_cspn_response, parse_cbc_response, parse_cgpsstatus_response, parse_cgnsinf_response,
}

-- Alphanumeric sender of automated test messages.
unfoldable pub get_real_number : Text → Text
get_real_number phone_number =
    if equal phone_number (codes "ASDAmobile") then codes "2732" else phone_number

-- `.context(…)`: the error shows the context alone.
abbrev context {ℓ} : {A : Type ℓ} → Text → Result A → Result A
context c (ok a) = ok a
context c (err e) = err c

-- `.find(|c| c.id == 0x00)`
find_component : List UdhComponent → Option Bytes
find_component [] = none
find_component (c ∷ cs) = let rest = find_component cs in if c.id == 0 then some c.bytes else rest

module _ (x : Crates) where
  abbrev header_of : Option Bytes → Result (Option SmsMultipartHeader)
  header_of none = ok none
  header_of (some bytes) = do h ← x.multipart_header bytes; ok (some h)

  -- The multipart header in a user data header, if there is one.
  abbrev multipart_of : Option (List UdhComponent) → Result (Option SmsMultipartHeader)
  multipart_of none = ok none
  multipart_of (some components) = header_of (find_component components)

  -- The branch of `handle_unsolicited_message` for an incoming message.
  unfoldable pub incoming_sms_message : Text → Result SmsIncomingMessage
  unfolding find_component
  incoming_sms_message content = do
    content_hex ←
        context (message "Failed to decode IncomingSMS hex content") (x.hex_decode content)
    deliver_pdu ← x.deliver_pdu content_hex
    msg ← x.decode_message deliver_pdu
    user_data_header ← multipart_of msg.udh
    ok (record {
      phone_number = get_real_number (x.originating_address deliver_pdu);
      user_data_header = user_data_header;
      content = msg.text;
    })

  -- The branch of `handle_unsolicited_message` for a delivery report.
  unfoldable pub delivery_report_of : Text → Result SmsPartialDeliveryReport
  delivery_report_of content = do
    content_hex ← x.hex_decode content
    pdu ← x.status_report content_hex
    ok (record {
      status = pdu.status;
      phone_number = get_real_number pdu.recipient_address;
      reference_id = pdu.message_reference;
    })

  -- The `match` of `command_responder`.
  unfoldable pub response_for : ModemRequest → Text → Result (ModemResponse x)
  response_for (send_sms len pdu) response = do
    reference ← parse_cmgs_result response
    ok (send_result reference)
  response_for get_network_status response = do
    (registration, technology) ← parse_creg_response response
    ok (network_status registration technology)
  response_for get_signal_strength response = do
    (rssi, ber) ← parse_csq_response response
    ok (signal_strength rssi ber)
  response_for get_network_operator response = do
    (status, format, operator) ← parse_cops_response response
    ok (network_operator status format operator)
  response_for get_service_provider response = do
    operator ← parse_cspn_response response
    ok (service_provider operator)
  response_for get_battery_level response = do
    (status, charge, voltage) ← parse_cbc_response response
    ok (battery_level status charge voltage)
  response_for get_gnss_status response = do
    status ← parse_cgpsstatus_response x response
    ok (gnss_status status)
  response_for get_gnss_location response = do
    location ← parse_cgnsinf_response x response false
    ok (gnss_location location)

  unfoldable pub command_responder : ModemRequest → Text → Result (ModemResponse x)
  unfolding response_for
  command_responder request response =
      if not (ends_with (codes "OK") (trim_end response))
      then err (message "Modem response does not end with OK")
      else response_for request response
