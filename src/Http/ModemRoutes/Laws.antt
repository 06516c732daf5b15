-- ===== src/Http/ModemRoutes/Laws.antt =====
-- What the routes give for what the modem answers.
use sms_server.Base.{
  ℕ, ◌≡◌, refl, ap, ◌∙◌, ◌≢◌, [], ◌∷◌, Option, none, some, Option-cases, inl, inr, arith, Text,
}
use sms_server.Modem.Types.{Crates, ModemRequest, ModemResponse, error}
use sms_server.Modem.Commands.{new, next_command_sequence}
use sms_server.Modem.Sender.{
  Exchange, Outcome, answered, full, closed, channel_closed, timed_out, send_request,
}
use sms_server.Http.Types.{success, to_option}
use sms_server.Http.ModemRoutes.{
  ask, modem_extract, refuse, sms_get_network_status, sms_get_signal_strength,
  sms_get_network_operator, sms_get_service_provider, sms_get_battery_level, sms_get_device_info,
}

module _ {x : Crates} (show : ModemResponse x → Text) where
  success_injective : {A : Type 0} {a b : A} → success a ≡ success b → a ≡ b
  success_injective h = cc

  modem_extract-success :
      {A : Type 0} (variant : Text) (pick : ModemResponse x → Option A) (response : ModemResponse x)
      (a : A)
      → modem_extract show variant pick response ≡ success a
      → pick response ≡ some a
  modem_extract-success variant pick response a h = elim (Option-cases (pick response)) [
    | inl q ↦ absurd (refuse_success response (rw (modem_extract, q) at h))
    | inr (b, q) ↦ q ∙ ap some (success_injective (rw (modem_extract, q) at h))
  ]
    where
      refuse_success : (r : ModemResponse x) → refuse show variant r ≢ success a
      refuse_success (error e) = λ q. cc
      refuse_success _ = λ q. cc

  -- A question to the modem succeeds only if its one command was queued and was answered by a
  -- response of the kind that the route asks for, which then is the result.
  ask-success :
      {A : Type 0} (request : ModemRequest) (variant : Text) (pick : ModemResponse x → Option A)
      (counter : ℕ) (exchange : Exchange x) (a : A)
      → (ask show request variant pick counter exchange).response ≡ success a
      → (response : ModemResponse x) × (exchange.outcome ≡ answered response)
        × (pick response ≡ some a)
        × ((ask show request variant pick counter exchange).queued
            ≡ new counter exchange.response_tx request none ∷ [])
  unfolding send_request next_command_sequence
  ask-success request variant pick counter exchange a h = by_outcome exchange.outcome refl
    where
      by_outcome :
          (o : Outcome x)
          → exchange.outcome ≡ o
          → (response : ModemResponse x) × (exchange.outcome ≡ answered response)
            × (pick response ≡ some a)
            × ((ask show request variant pick counter exchange).queued
                ≡ new counter exchange.response_tx request none ∷ [])
      by_outcome full e = absurd (ground (arith, rw e at h))
      by_outcome closed e = absurd (ground (arith, rw e at h))
      by_outcome channel_closed e = absurd (ground (arith, rw e at h))
      by_outcome timed_out e = absurd (ground (arith, rw e at h))
      by_outcome (answered response) e =
          (response, e, modem_extract-success variant pick response a (rw e at h), rw e refl)

  -- The device information never fails, and each of its fields is what the route of that name
  -- gives, the routes asked one after the other, or nothing where that route fails.
  sms_get_device_info-routes :
      (version : Text) (phone_number : Option Text) (counter : ℕ) (exchange : ℕ → Exchange x)
      → let provider = sms_get_service_provider show counter (exchange 0) in
        let operator = sms_get_network_operator show provider.counter (exchange 1) in
        let network = sms_get_network_status show operator.counter (exchange 2) in
        let battery = sms_get_battery_level show network.counter (exchange 3) in
        let signal = sms_get_signal_strength show battery.counter (exchange 4) in
        let info = sms_get_device_info show version phone_number counter exchange in
        (info.counter ≡ signal.counter)
        × (info.response
            ≡ success (record {
              version = version;
              phone_number = phone_number;
              service_provider = to_option provider.response;
              network_operator = to_option operator.response;
              network_status = to_option network.response;
              battery = to_option battery.response;
              signal = to_option signal.response;
            }))
  unfolding sms_get_device_info sms_get_service_provider sms_get_network_operator
      sms_get_network_status sms_get_battery_level sms_get_signal_strength
  sms_get_device_info-routes version phone_number counter exchange = (refl, refl)
