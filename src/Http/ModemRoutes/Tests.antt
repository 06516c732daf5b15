-- ===== src/Http/ModemRoutes/Tests.antt =====
-- The routes at concrete responses.
use sms_server.Base.{ℕ, ◌+◌, ◌≡◌, refl, Text}
use sms_server.Base.Int.{pos}
use sms_server.Text.{codes, message}
use sms_server.Modem.Types.{ModemResponse, signal_strength}
use sms_server.Modem.Sender.{Exchange, answered, send_request}
use sms_server.Modem.Samples.{crates}
use sms_server.Http.Types.{failure}
use sms_server.Http.ModemRoutes.{sms_get_battery_level}

abbrev show : ModemResponse crates → Text
show response = codes "response"

abbrev strength : ℕ → Exchange crates
strength i = record { response_tx = 20 + i; outcome = answered (signal_strength (pos 17) (pos 0)) }

wrong_kind :
    (sms_get_battery_level show 1 (strength 0)).response
    ≡ failure (record {
      status = 500;
      message = codes "Unexpected response: expected BatteryLevel, got response";
    })
unfolding sms_get_battery_level send_request message
wrong_kind = refl
