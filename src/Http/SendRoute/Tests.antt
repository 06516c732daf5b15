-- ===== src/Http/SendRoute/Tests.antt =====
-- The send route at one message of two parts.
use sms_server.Base.{◌==◌, ◌≡◌, refl, Bool, true, false, [], ◌∷◌, none, ok, Text}
use sms_server.Text.{codes, message, equal}
use sms_server.Modem.Types.{ModemResponse, send_sms}
use sms_server.Modem.Samples.{crates}
use sms_server.Sms.Samples.{surroundings, encoder, failing, created}
use sms_server.Http.Types.{success, failure, internal_server_error, SendSmsRequest}
use sms_server.Http.SendRoute.{Addresses, post_sms_send, receiver}
use sms_server.Http.SendRoute.Laws.{post_sms_send_refused}

-- An address is its text, and international with a plus in front.
abbrev is_plus : Text → Bool
is_plus [] = false
is_plus (c ∷ cs) = c == 43

abbrev addresses : Addresses
addresses = record {
  PduAddress = Text;
  from_str = ok;
  is_international = is_plus;
  to_string = λ s. s;
}

abbrev show : ModemResponse crates → Text
show response = codes "response"

abbrev payload : Text → SendSmsRequest
payload to = record {
  to = to;
  content = codes "hi";
  flash = none;
  validity_period = none;
  timeout = none;
}

valid : receiver addresses true (codes "+441234") ≡ success (codes "+441234")
unfolding equal
valid = refl

post_sms_send_refused_example :
    let sent =
      post_sms_send show addresses true surroundings encoder failing 1
        (payload (codes "+441234")) in
    (sent.response
      ≡ failure (record {
        status = internal_server_error;
        message = message "Message sent but no message ID returned";
      }))
    × (sent.actions ≡ [])
post_sms_send_refused_example =
    post_sms_send_refused show addresses true surroundings encoder failing 1
      (payload (codes "+441234")) (codes "+441234") [] (send_sms 21 (codes "hi") ∷ [])
      (send_sms 21 (codes "hi")) (codes "ERROR") valid created refl refl
