-- ===== src/Http/SendRoute.antt =====
-- `sms_send` of src/http/routes.rs.
pub mod Laws
mod Tests
use sms_server.Base.{
  ℕ, Bool, true, false, not, ◌&&◌, ◌||◌, List, [], ◌∷◌, Option, none, some, Result, ok, err,
  if◌then◌else◌, Text,
}
use sms_server.Text.{codes, message, equal}
use sms_server.Modem.Types.{Crates, ModemResponse}
use sms_server.Modem.Commands.{OutgoingCommand}
use sms_server.Modem.Sender.{Encoder, Exchange, Sending}
use sms_server.Sms.Types.{SmsOutgoingMessage, Action}
use sms_server.Sms.Manager.{Surroundings, Managed, manager_send_sms}
use sms_server.Http.Types.{
  HttpError, HttpResult, success, failure, ◌>>=◌, bad_request, internal_server_error, or_status,
  SendSmsRequest, SmsSendResponse,
}
use sms_server.Http.ModemRoutes.{modem_extract, pick_send_result}

-- `PduAddress` of `sms-pdu`
pub record Addresses : Type 1 where
  pub PduAddress : Type 0
  pub from_str : Text → Result PduAddress
  pub is_international : PduAddress → Bool
  pub to_string : PduAddress → Text

-- What a request to send leaves: the sequence counter, the commands that were queued, what was
-- done to the database and the broadcaster, and the response.
pub record Sent : Type 0 where
  pub counter : ℕ
  pub queued : List OutgoingCommand
  pub actions : List Action
  pub response : HttpResult SmsSendResponse

module _ (a : Addresses) where
  abbrev checked_number : Text → HttpResult Text
  checked_number to =
      if equal to (codes "+") || equal to (codes "")
      then failure (record { status = bad_request; message = message "Invalid phone number!" })
      else success to

  -- The checks in front of the message: the number that is sent to, or the error.
  abbrev pub receiver : Bool → Text → HttpResult Text
  receiver send_international_format_only to = do
    address ← or_status bad_request (a.from_str to)
    if send_international_format_only && not (a.is_international address)
        then failure (record {
          status = bad_request;
          message = message "Sending phone number must be in international format!";
        })
        else checked_number (a.to_string address)

-- The message of a request, for the number that was checked.
abbrev pub outgoing_of : SendSmsRequest → Text → SmsOutgoingMessage
outgoing_of payload to = record {
  to = to;
  content = payload.content;
  flash = payload.flash;
  validity_period = payload.validity_period;
  timeout = payload.timeout;
}

module _ {x : Crates} (show : ModemResponse x → Text) where
  abbrev id_or_error : Option ℕ → HttpResult ℕ
  id_or_error (some id) = success id
  id_or_error none = failure (record {
    status = internal_server_error;
    message = message "Message sent but no message ID returned";
  })

  abbrev send_response : Result (Option ℕ × ModemResponse x) → HttpResult SmsSendResponse
  send_response result = do
    (message_id_opt, response) ← or_status internal_server_error result
    message_id ← id_or_error message_id_opt
    reference_id ← modem_extract show (message "SendResult") pick_send_result response
    success (record { message_id = message_id; reference_id = reference_id })

  abbrev send_to :
      Surroundings → Encoder → (ℕ → Exchange x) → ℕ → SendSmsRequest → HttpResult Text → Sent
  send_to s p exchange counter payload (failure e) = record {
    counter = counter;
    queued = [];
    actions = [];
    response = failure e;
  }
  send_to s p exchange counter payload (success to) =
      let (sent, managed) = manager_send_sms s p exchange counter (outgoing_of payload to) in
      record {
        counter = sent.counter;
        queued = sent.queued;
        actions = managed.actions;
        response = send_response managed.result;
      }

  unfoldable pub post_sms_send :
      Addresses → Bool → Surroundings → Encoder → (ℕ → Exchange x) → ℕ → SendSmsRequest → Sent
  post_sms_send a send_international_format_only s p exchange counter payload =
      send_to s p exchange counter payload (receiver a send_international_format_only payload.to)
