-- ===== src/Modem/Worker/Startup/Tests.antt =====
-- The theorems on the start at a concrete modem, which refuses the third command.
use sms_server.Base.{ℕ, zero, suc, ◌≡◌, refl, true, false, List, [], ◌∷◌, none, some, Text}
use sms_server.Text.{codes, message, contains}
use sms_server.Text.Utf8.{as_bytes, from_utf8_lossy}
use sms_server.Text.Number.{decimal}
use sms_server.Modem.Types.{
  get_signal_strength, startup, online, offline, modem_status_update, error,
}
use sms_server.Modem.Commands.{Env, OutgoingCommand, Output, notify, respond}
use sms_server.Modem.Worker.{
  Arm, incoming_command, reconnect_tick, read_closed, serial, sent, run, turn, reject,
  change_status,
}
use sms_server.Modem.Worker.Startup.{
  ModemConfig, Reply, received, initialize, initialize_and_run, initialize_modem,
  initialization_commands, send_commands, test_connection, read_response_until_ok,
}
use sms_server.Modem.Worker.Startup.Waiting.{waiting}
use sms_server.Modem.Samples.{crates, env_at, show}

abbrev saying : Text → Reply
saying text = record { write_error = none; reads = received text ∷ [] }

abbrev reply : ℕ → Reply
reply zero = record {
  write_error = none;
  reads = received (codes "O") ∷ received (codes "K\r\n") ∷ [];
}
reply (suc zero) = saying (codes "OK\r\n")
reply (suc (suc i)) = saying (codes "ERROR\r\n")

abbrev show_text : Text → Text
show_text text = text

abbrev config : ModemConfig
config = record { line_buffer_size = 4096; gnss_enabled = true; gnss_report_interval = 10 }

-- The second command is answered with an error, so that the others are not sent.
abbrev query : OutgoingCommand
query = record { sequence = 1; request = get_signal_strength; timeout = none; response_tx = some 8 }

abbrev waits : List (Env crates × Arm)
waits =
    (env_at 5, incoming_command query)
    ∷ (env_at 6, reconnect_tick true false)
    ∷ (env_at 7, read_closed)
    ∷ []

refused_start : initialize_and_run show show_text config (saying (codes "OK\r\n")) reply waits ≡ (
  waiting config,
  serial (codes "AT\r\n")
      ∷ serial (codes "ATZ\r\n")
      ∷ serial (codes "ATE0\r\n")
      ∷ serial (codes "AT+CMGF=0\r\n")
      ∷ sent (notify (modem_status_update startup offline))
      ∷ sent (Output.reply 8 (error (message "Modem is offline")))
      ∷ [],
)
unfolding initialize_and_run run initialize turn test_connection change_status initialize_modem
    send_commands initialization_commands read_response_until_ok contains from_utf8_lossy reject
    as_bytes respond
refused_start = refl

-- Every command of the initialization, with the satellites' receiver.
all_written :
    (initialize {x = crates} show_text config
      (saying (codes "OK\r\n"))
      (λ i. saying (codes "+CPMS: OK\r\n"))).1
    ≡ serial (codes "AT\r\n")
      ∷ serial (codes "ATZ\r\n")
      ∷ serial (codes "ATE0\r\n")
      ∷ serial (codes "AT+CMGF=0\r\n")
      ∷ serial (codes "AT+CSCS=\"GSM\"\r\n")
      ∷ serial (codes "AT+CNMI=2,2,0,1,0\r\n")
      ∷ serial (codes "AT+CSMP=49,167,0,0\r\n")
      ∷ serial (codes "AT+CPMS=\"ME\",\"ME\",\"ME\"\r\n")
      ∷ serial (codes "AT+CGNSPWR=1\r\n")
      ∷ serial (codes "AT+CGPSRST=0\r\n")
      ∷ serial (codes "AT+CGNSURC=10\r\n")
      ∷ sent (notify (modem_status_update startup online))
      ∷ []
unfolding initialize test_connection initialize_modem send_commands initialization_commands
    read_response_until_ok contains from_utf8_lossy as_bytes change_status decimal
all_written = refl
