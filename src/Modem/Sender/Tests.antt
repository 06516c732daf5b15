-- ===== src/Modem/Sender/Tests.antt =====
-- The theorems on the callers' side of the queue at concrete requests.
use sms_server.Base.{ℕ, zero, suc, ◌+◌, ◌≡◌, refl, false, [], ◌∷◌, none, some, ok}
use sms_server.Text.{codes}
use sms_server.Modem.Types.{ModemRequest, send_sms, send_result, error}
use sms_server.Modem.Sender.{Exchange, answered, send_requests}
use sms_server.Modem.Sender.Laws.{commands, send_requests-error}
use sms_server.Modem.Samples.{crates}

-- The first part is accepted, those behind it are refused.
abbrev refusing : ℕ → Exchange crates
refusing zero = record { response_tx = 20; outcome = answered (send_result 0) }
refusing (suc i) = record {
  response_tx = 21 + i;
  outcome = answered (error (codes "+CMS ERROR: 42"));
}

abbrev accepting : ℕ → Exchange crates
accepting i = record { response_tx = 20 + i; outcome = answered (send_result i) }

abbrev piece : ℕ → ModemRequest
piece n = send_sms n (codes "0011")

send_requests-error_example :
    let s = send_requests refusing none 0 5 (piece 1 ∷ piece 2 ∷ piece 3 ∷ []) none in
    (s.queued ≡ commands refusing none 0 5 (piece 1 ∷ piece 2 ∷ []))
    × (s.result ≡ ok (false, some (error (codes "+CMS ERROR: 42"))))
send_requests-error_example =
    send_requests-error refusing none (codes "+CMS ERROR: 42") (piece 1 ∷ []) (piece 2)
      (piece 3 ∷ []) 0 5 none refl refl
