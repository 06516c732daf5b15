-- ===== src/Modem/Handlers.antt =====
-- src/modem/handlers.rs: what is written to the modem, and what its answers are turned into.
mod Responses
unfoldable pub use Responses.{
  get_real_number, incoming_sms_message, delivery_report_of, response_for, command_responder,
}
use sms_server.Base.{
  ℕ, Bool, true, false, List, [], ◌∷◌, ◌++◌, Option, none, some, if◌then◌else◌, Text, Bytes,
}
use sms_server.Text.{codes, message}
use sms_server.Text.Utf8.{as_bytes}
use sms_server.Text.Number.{decimal}
use sms_server.Modem.Types.{
  Crates, ModemRequest, send_sms, get_network_status, get_signal_strength, get_network_operator,
  get_service_provider, get_battery_level, get_gnss_status, get_gnss_location, ModemStatus,
  shutting_down, UnsolicitedMessageKind, incoming_sms, delivery_report, network_status_change,
  shutting_down_notice, gnss_position_report, ModemIncomingMessage, sms, report, network_change,
  position,
}
use sms_server.Modem.Commands.{
  Output, Act, Env, CommandState, waiting_for_prompt, waiting_for_ok, waiting_for_data, pure, fail,
  tell, lift, after, ◌>>=◌, ◌>>◌,
}
use sms_server.Modem.Parsers.{parse_cgnsinf_response}

-- The command line of a query, with its terminator.
unfoldable pub query_command : ModemRequest → Text
query_command (send_sms len pdu) = codes "AT+CMGS=" ++ decimal len ++ codes "\r\n"
query_command get_network_status = codes "AT+CREG?\r\n"
query_command get_signal_strength = codes "AT+CSQ\r\n"
query_command get_network_operator = codes "AT+COPS?\r\n"
query_command get_service_provider = codes "AT+CSPN?\r\n"
query_command get_battery_level = codes "AT+CBC\r\n"
query_command get_gnss_status = codes "AT+CGPSSTATUS?\r\n"
query_command get_gnss_location = codes "AT+CGNSINF\r\n"

module _ {x : Crates} (env : Env x) where
  write : Bytes → Act x (Unit {0})
  write bytes =
      if env.worker_open
      then tell (Output.write bytes)
      else fail (message "Failed to send write command event")

  set_status : ModemStatus → Act x (Unit {0})
  set_status status =
      if env.worker_open
      then tell (Output.set_status status)
      else fail (message "Failed to send status change event")

  abbrev state_after_send : ModemRequest → CommandState
  state_after_send (send_sms len pdu) = waiting_for_prompt
  state_after_send _ = waiting_for_data

  unfoldable pub command_sender : ModemRequest → Act x CommandState
  unfolding write
  command_sender request = do
    write (as_bytes (query_command request))
    pure (state_after_send request)

  -- The PDU, and control-Z to submit it.
  unfoldable pub prompt_handler : ModemRequest → Act x (Option CommandState)
  unfolding write
  prompt_handler (send_sms len pdu) = do
    write (as_bytes pdu ++ 0x1a ∷ [])
    pure (some waiting_for_ok)
  prompt_handler _ = pure none

  unfoldable pub handle_unsolicited_message :
      UnsolicitedMessageKind → Text → Act x (Option (ModemIncomingMessage x))
  unfolding set_status
  handle_unsolicited_message incoming_sms content = do
    message ← lift (incoming_sms_message x content)
    pure (some (sms message))
  handle_unsolicited_message delivery_report content = do
    r ← lift (delivery_report_of x content)
    pure (some (report r))
  handle_unsolicited_message network_status_change content = pure (some (network_change 0))
  handle_unsolicited_message shutting_down_notice content = do set_status shutting_down; pure none
  handle_unsolicited_message gnss_position_report content = do
    location ← lift (parse_cgnsinf_response x content true)
    pure (some (position location))
