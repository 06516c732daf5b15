-- ===== src/Modem/Sender.antt =====
-- src/modem/sender.rs: the callers' side of the command queue.
--
-- What the queue and the response channel do with a request is given with it: `Exchange`.
pub mod Laws
mod Tests
use sms_server.Base.{
  ℕ, ◌+◌, Bool, true, false, List, [], ◌∷◌, ◌++◌, map, Option, none, some, Result, ok, err, ◌>>=◌,
  if◌then◌else◌, Text, Bytes,
}
use sms_server.Text.{message}
use sms_server.Text.Number.{decimal}
use sms_server.Modem.Types.{Crates, ModemRequest, send_sms, ModemResponse, error, from_secs}
use sms_server.Modem.Commands.{Sender, OutgoingCommand, new, next_command_sequence}
use sms_server.Sms.Types.{SmsOutgoingMessage}

-- `SEND_TIMEOUT`
abbrev send_timeout : ℕ
send_timeout = from_secs 90

-- What `create_sms_requests` uses of the crates `sms-pdu`, `hex` and `sms-types`: `submit_pdu` is
-- the PDU of a piece of the message, and its size, for the given destination, class and validity
-- period, with a status report asked for.
pub record Encoder : Type 1 where
  pub Address : Type 0
  pub Period : Type 0
  pub MessageData : Type 0
  pub parse_address : Text → Result Address
  pub get_validity_period : SmsOutgoingMessage → Period
  pub encode_message : Text → List MessageData
  pub submit_pdu : Address → Bool → Period → MessageData → Bytes × ℕ
  pub hex_encode : Bytes → Text

abbrev unwrap_or_false : Option Bool → Bool
unwrap_or_false none = false
unwrap_or_false (some b) = b

unfoldable pub create_sms_requests : Encoder → SmsOutgoingMessage → Result (List ModemRequest)
create_sms_requests p m = do
  destination ← p.parse_address m.to
  ok (
      map
        (λ data_part.
          let silent = unwrap_or_false m.flash in
          let (bytes, size) = p.submit_pdu destination silent (p.get_validity_period m) data_part in
          send_sms size (p.hex_encode bytes))
        (p.encode_message m.content))

-- `try_send` finds the queue full or closed; or the command is queued, and the caller gets a
-- response, or finds the channel closed, or stops waiting.
pub data Outcome (x : Crates) : Type 0 where
  full closed channel_closed timed_out : Outcome x
  answered : ModemResponse x → Outcome x

pub record Exchange (x : Crates) : Type 0 where
  pub response_tx : Sender
  pub outcome : Outcome x

-- How long `send_request` waits for the response.
unfoldable pub response_timeout : Option ℕ → ℕ
response_timeout none = send_timeout
response_timeout (some s) = from_secs (s + 1)

-- The sequence counter, the commands that were queued, in order, and the result.
pub record Sending {ℓ} (A : Type ℓ) : Type ℓ where
  pub counter : ℕ
  pub queued : List OutgoingCommand
  pub result : Result A

abbrev about : ℕ → Text → Text
about sequence what = message "Command sequence " ++ decimal sequence ++ what

module _ {x : Crates} where
  abbrev received : ℕ → Outcome x → Result (ModemResponse x)
  received sequence full = err (message "Command queue is full! The modem may be overwhelmed")
  received sequence closed = err (message "Command queue is closed")
  received sequence (answered response) = ok response
  received sequence channel_closed = err (about sequence (message " response channel closed"))
  received sequence timed_out = err (about sequence (message " timed out waiting for response"))

  abbrev queue : OutgoingCommand → Outcome x → List OutgoingCommand
  queue c full = []
  queue c closed = []
  queue c _ = c ∷ []

  unfoldable pub send_request : ℕ → Exchange x → ModemRequest → Option ℕ → Sending (ModemResponse x)
  send_request counter exchange request timeout =
      let (sequence, counter') = next_command_sequence counter in
      record {
        counter = counter';
        queued = queue (new sequence exchange.response_tx request timeout) exchange.outcome;
        result = received sequence exchange.outcome;
      }

  abbrev pub is_error : ModemResponse x → Bool
  is_error (error e) = true
  is_error _ = false

  abbrev continue :
      Sending (ModemResponse x)
      → Result (ModemResponse x)
      → (Option (ModemResponse x) → Sending (Bool × Option (ModemResponse x)))
      → Sending (Bool × Option (ModemResponse x))
  continue sent (err e) rest = record {
    counter = sent.counter;
    queued = sent.queued;
    result = err e;
  }
  continue sent (ok response) rest = elim (is_error response) [
    | true ↦ record {
      counter = sent.counter;
      queued = sent.queued;
      result = ok (false, some response);
    }
    | false ↦
        let later = rest (some response) in record later { queued = sent.queued ++ later.queued }
  ]

  -- The loop of `send_sms`; the `i`th request has the `i`th exchange.
  unfoldable pub send_requests :
      (ℕ → Exchange x)
      → Option ℕ
      → ℕ
      → ℕ
      → List ModemRequest
      → Option (ModemResponse x)
      → Sending (Bool × Option (ModemResponse x))
  send_requests exchange timeout i counter [] last = record {
    counter = counter;
    queued = [];
    result = ok (true, last);
  }
  send_requests exchange timeout i counter (request ∷ requests) last =
      let sent = send_request counter (exchange i) request timeout in
      continue sent sent.result (send_requests exchange timeout (i + 1) sent.counter requests)

  abbrev pub send_created :
      (ℕ → Exchange x)
      → Option ℕ
      → ℕ
      → Result (List ModemRequest)
      → Sending (Bool × Option (ModemResponse x))
  send_created exchange timeout counter (err e) = record {
    counter = counter;
    queued = [];
    result = err e;
  }
  send_created exchange timeout counter (ok requests) =
      send_requests exchange timeout 0 counter requests none

  -- `ModemSender::send_sms`
  unfoldable pub sender_send_sms :
      Encoder
      → (ℕ → Exchange x)
      → ℕ
      → SmsOutgoingMessage
      → Sending (Bool × Option (ModemResponse x))
  sender_send_sms p exchange counter m =
      send_created exchange m.timeout counter (create_sms_requests p m)
