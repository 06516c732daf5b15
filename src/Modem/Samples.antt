-- ===== src/Modem/Samples.antt =====
-- Concrete crates and channels, and a few lines of a modem, for the tests.
use sms_server.Base.{ℕ, true, List, [], none, ok, Text, Bytes}
use sms_server.Text.{codes}
use sms_server.Modem.Types.{Crates, ModemEvent}
use sms_server.Modem.Commands.{Env}
use sms_server.Modem.StateMachine.{StateMachineState}

-- Bytes stand for themselves, in place of their hex digits and of what a PDU encodes.
abbrev pub crates : Crates
crates = record {
  FixStatus = Text;
  PositionReport = List Text;
  DeliverPdu = Bytes;
  fix_status = ok;
  position_report = ok;
  hex_decode = ok;
  deliver_pdu = ok;
  decode_message = λ pdu. ok (record { udh = none; text = pdu });
  originating_address = λ pdu. codes "+441234";
  multipart_header = λ bytes. ok (record { message_reference = 1; total = 2; index = 1 });
  status_report =
      λ bytes. ok (record { status = 0; recipient_address = codes "2732"; message_reference = 9 });
}

-- Every channel is open.
abbrev pub env_at : ℕ → Env crates
env_at now = record {
  now = now;
  worker_open = true;
  listening = λ tx. true;
  show_response = λ response. [];
}

abbrev pub show : StateMachineState → ModemEvent → Text
show state event = codes "state"
