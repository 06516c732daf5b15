-- ===== src/Sms/Samples.antt =====
-- Concrete conversions and surroundings for the tests.
use sms_server.Base.{
  ℕ, ◌+◌, ◌≡◌, List, Text, true, false, none, ok, err, Result, [], ◌∷◌, refl, ap, sym, ok_injective,
  Bytes,
}
use sms_server.Sms.Encryption.{SmsEncryption}
use sms_server.Sms.Encryption.RoundTrip.{IsLawful}
use sms_server.Text.{codes}
use sms_server.Modem.Types.{ModemRequest, send_sms, send_result, error}
use sms_server.Modem.Sender.{Encoder, Exchange, answered, create_sms_requests}
use sms_server.Modem.Samples.{crates}
use sms_server.Sms.Types.{Conversions, SmsOutgoingMessage}
use sms_server.Sms.Manager.{Surroundings}

abbrev pub conversions : Conversions
conversions = record {
  from_incoming = λ m. record {
    message_id = none;
    phone_number = m.phone_number;
    message_content = m.content;
    message_reference = none;
    is_outgoing = false;
    status = none;
    created_at = none;
    completed_at = none;
  };
  from_outgoing = λ m. record {
    message_id = none;
    phone_number = m.to;
    message_content = m.content;
    message_reference = none;
    is_outgoing = true;
    status = none;
    created_at = none;
    completed_at = none;
  };
}

-- The insertion gives the row 7.
abbrev pub surroundings : Surroundings
surroundings = record { conversions = conversions; row = ok 7; has_broadcaster = true }

abbrev open_tagged : Bytes → Result Bytes
open_tagged [] = err []
open_tagged (c ∷ cs) = ok cs

-- A cipher that puts a tag in front of the plaintext, in an encoding that changes nothing.
abbrev pub encryption : SmsEncryption
encryption = record {
  primitives = record {
    base64_encode = λ bytes. bytes;
    base64_decode = ok;
    seal = λ key nonce bytes. ok (99 ∷ bytes);
    unseal = λ key nonce sealed. open_tagged sealed;
  };
  key = [];
}

pub encryption-IsLawful : IsLawful encryption.primitives
encryption-IsLawful = record {
  decode-encode = λ bytes. refl;
  unseal-seal = λ key nonce bytes sealed h. ap open_tagged (sym (ok_injective h));
}

-- Two pieces of every message, which are their own PDUs.
abbrev pub encoder : Encoder
encoder = record {
  Address = Text;
  Period = ℕ;
  MessageData = Text;
  parse_address = ok;
  get_validity_period = λ m. 167;
  encode_message = λ content. content ∷ content ∷ [];
  submit_pdu = λ to silent period piece. (piece, 21);
  hex_encode = λ bytes. bytes;
}

abbrev pub outgoing : SmsOutgoingMessage
outgoing = record {
  to = codes "+441234";
  content = codes "hi";
  flash = none;
  validity_period = none;
  timeout = none;
}

abbrev pub accepting : ℕ → Exchange crates
accepting i = record { response_tx = 20 + i; outcome = answered (send_result (60 + i)) }

abbrev pub failing : ℕ → Exchange crates
failing i = record { response_tx = 20 + i; outcome = answered (error (codes "ERROR")) }

abbrev pub requests : List ModemRequest
requests = send_sms 21 (codes "hi") ∷ send_sms 21 (codes "hi") ∷ []

pub created : create_sms_requests encoder outgoing ≡ ok requests
unfolding create_sms_requests
created = refl
