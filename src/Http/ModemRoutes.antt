-- ===== src/Http/ModemRoutes.antt =====
-- The routes of src/http/routes.rs that ask the modem.
pub mod Laws
mod Tests
use sms_server.Base.{
  ℕ, suc, Bool, true, false, List, [], ◌∷◌, ◌++◌, Option, none, some, Result, ok, err, Text,
}
use sms_server.Base.Int.{ℤ}
use sms_server.Text.{message}
use sms_server.Modem.Types.{
  Crates, ModemRequest, get_network_status, get_signal_strength, get_network_operator,
  get_service_provider, get_battery_level, get_gnss_status, get_gnss_location, ModemResponse,
  network_status, signal_strength, network_operator, service_provider, battery_level, gnss_status,
  gnss_location, send_result, error,
}
use sms_server.Modem.Sender.{Exchange, Sending, send_request}
use sms_server.Http.Types.{
  HttpResult, success, failure, ◌>>=◌, internal_server_error, or_status, to_option,
  NetworkStatusResponse, SignalStrengthResponse, NetworkOperatorResponse, BatteryLevelResponse,
  DeviceInfoResponse, Handled,
}

-- The patterns of the variants.
module _ {x : Crates} where
  abbrev pick_network_status : ModemResponse x → Option NetworkStatusResponse
  pick_network_status (network_status r t) = some (record { registration = r; technology = t })
  pick_network_status _ = none

  abbrev pick_signal_strength : ModemResponse x → Option SignalStrengthResponse
  pick_signal_strength (signal_strength r b) = some (record { rssi = r; ber = b })
  pick_signal_strength _ = none

  abbrev pick_network_operator : ModemResponse x → Option NetworkOperatorResponse
  pick_network_operator (network_operator s f o) =
      some (record { status = s; format = f; operator = o })
  pick_network_operator _ = none

  abbrev pick_service_provider : ModemResponse x → Option Text
  pick_service_provider (service_provider s) = some s
  pick_service_provider _ = none

  abbrev pick_battery_level : ModemResponse x → Option BatteryLevelResponse
  pick_battery_level (battery_level s c v) = some (record { status = s; charge = c; voltage = v })
  pick_battery_level _ = none

  abbrev pick_gnss_status : ModemResponse x → Option (x.FixStatus)
  pick_gnss_status (gnss_status s) = some s
  pick_gnss_status _ = none

  abbrev pick_gnss_location : ModemResponse x → Option (x.PositionReport)
  pick_gnss_location (gnss_location p) = some p
  pick_gnss_location _ = none

  abbrev pub pick_send_result : ModemResponse x → Option ℕ
  pick_send_result (send_result r) = some r
  pick_send_result _ = none

-- `{:?}` of a response is a parameter.
module _ {x : Crates} (show : ModemResponse x → Text) where
  abbrev refuse {ℓ} : {A : Type ℓ} → Text → ModemResponse x → HttpResult A
  refuse variant (error e) = failure (record { status = internal_server_error; message = e })
  refuse variant other = failure (record {
    status = internal_server_error;
    message = message "Unexpected response: expected " ++ variant ++ message ", got " ++ show other;
  })

  -- `modem_extract!` on a response: `pick` is the pattern of the variant.
  abbrev pub modem_extract {ℓ} :
      {A : Type ℓ} → Text → (ModemResponse x → Option A) → ModemResponse x → HttpResult A
  modem_extract variant pick response = elim (pick response) [
    | some a ↦ success a
    | none ↦ refuse variant response
  ]

  -- `modem_extract!` on a request, which `SMSManager::send_command` sends.
  abbrev pub ask {ℓ} :
      {A : Type ℓ} → ModemRequest → Text → (ModemResponse x → Option A) → ℕ → Exchange x → Handled A
  ask request variant pick counter exchange =
      let sent = send_request counter exchange request none in
      record {
        counter = sent.counter;
        queued = sent.queued;
        response = or_status internal_server_error sent.result >>= modem_extract variant pick;
      }

  unfoldable pub sms_get_network_status : ℕ → Exchange x → Handled NetworkStatusResponse
  sms_get_network_status = ask get_network_status (message "NetworkStatus") pick_network_status

  unfoldable pub sms_get_signal_strength : ℕ → Exchange x → Handled SignalStrengthResponse
  sms_get_signal_strength = ask get_signal_strength (message "SignalStrength") pick_signal_strength

  unfoldable pub sms_get_network_operator : ℕ → Exchange x → Handled NetworkOperatorResponse
  sms_get_network_operator =
      ask get_network_operator (message "NetworkOperator") pick_network_operator

  unfoldable pub sms_get_service_provider : ℕ → Exchange x → Handled Text
  sms_get_service_provider =
      ask get_service_provider (message "ServiceProvider") pick_service_provider

  unfoldable pub sms_get_battery_level : ℕ → Exchange x → Handled BatteryLevelResponse
  sms_get_battery_level = ask get_battery_level (message "BatteryLevel") pick_battery_level

  unfoldable gnss_get_status : ℕ → Exchange x → Handled (x.FixStatus)
  gnss_get_status = ask get_gnss_status (message "GNSSStatus") pick_gnss_status

  unfoldable gnss_get_location : ℕ → Exchange x → Handled (x.PositionReport)
  gnss_get_location = ask get_gnss_location (message "GNSSLocation") pick_gnss_location

  -- The five questions one after the other; the `i`th has the `i`th exchange. No error is passed on.
  unfoldable pub sms_get_device_info :
      Text → Option Text → ℕ → (ℕ → Exchange x) → Handled DeviceInfoResponse
  sms_get_device_info version phone_number counter exchange =
      let provider =
        ask get_service_provider (message "ServiceProvider") pick_service_provider counter
          (exchange 0) in
      let operator =
        ask get_network_operator (message "NetworkOperator") pick_network_operator provider.counter
          (exchange 1) in
      let network =
        ask get_network_status (message "NetworkStatus") pick_network_status operator.counter
          (exchange 2) in
      let battery =
        ask get_battery_level (message "BatteryLevel") pick_battery_level network.counter
          (exchange 3) in
      let signal =
        ask get_signal_strength (message "SignalStrength") pick_signal_strength battery.counter
          (exchange 4) in
      record {
        counter = signal.counter;
        queued =
            provider.queued ++ operator.queued ++ network.queued ++ battery.queued ++ signal.queued;
        response = success (record {
          version = version;
          phone_number = phone_number;
          service_provider = to_option provider.response;
          network_operator = to_option operator.response;
          network_status = to_option network.response;
          battery = to_option battery.response;
          signal = to_option signal.response;
        });
      }
