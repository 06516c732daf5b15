-- ===== src/Modem/Worker/Startup.antt =====
-- src/modem/worker.rs: the modem is tested and initialized before the loop, and to reconnect.
--
-- What the port does with a command is given with it: `Reply`.
pub mod Waiting
pub mod Lifetime
mod Tests
use sms_server.Base.{
  ℕ, ◌+◌, Bool, true, false, not, ◌||◌, List, [], ◌∷◌, ◌++◌, map, Option, none, some, Result, ok,
  err, if◌then◌else◌, Text, Bytes,
}
use sms_server.Text.{codes, message, contains, trim}
use sms_server.Text.Utf8.{as_bytes, from_utf8_lossy}
use sms_server.Text.Number.{decimal}
use sms_server.Modem.Types.{Crates, ModemStatus, startup, online, offline, ModemEvent}
use sms_server.Modem.Buffer.{with_max_size}
use sms_server.Modem.Commands.{Env}
use sms_server.Modem.StateMachine.{StateMachineState, idle}
use sms_server.Modem.Worker.{Worker, Effect, serial, ◌and_then◌, change_status, Arm, run}

-- The fields of `ModemConfig` that the worker reads here.
pub record ModemConfig : Type 0 where
  pub line_buffer_size : ℕ
  pub gnss_enabled : Bool
  pub gnss_report_interval : ℕ

pub data PortRead : Type 0 where
  received : Bytes → PortRead
  closed : PortRead
  failed : Text → PortRead

-- Whether the write fails, and the reads within the time limit.
pub record Reply : Type 0 where
  pub write_error : Option Text
  pub reads : List PortRead

abbrev is_done : Text → Bool
is_done response = contains (codes "OK\r\n") response || contains (codes "ERROR") response

-- The first argument is the error of the time limit; `response` is what was read before.
unfoldable pub read_response_until_ok : Text → Bytes → List PortRead → Result Bytes
read_response_until_ok late response [] = err late
read_response_until_ok late response (closed ∷ reads) =
    err (message "Serial port closed during initialization")
read_response_until_ok late response (failed e ∷ reads) =
    err (message "Read error during initialization")
read_response_until_ok late response (received bytes ∷ reads) =
    let rest = read_response_until_ok late (response ++ bytes) reads in
    if is_done (from_utf8_lossy (response ++ bytes)) then ok (response ++ bytes) else rest

abbrev late_response : Text
late_response = message "Timeout waiting for response"

abbrev gnss_commands : ModemConfig → List (Text × Text)
gnss_commands config =
    if config.gnss_enabled
    then (codes "AT+CGNSPWR=1\r\n", codes "OK")
      ∷ (codes "AT+CGPSRST=0\r\n", codes "OK")
      ∷ (codes "AT+CGNSURC=" ++ decimal config.gnss_report_interval ++ codes "\r\n", codes "OK")
      ∷ []
    else []

-- Each command with what its response must contain.
unfoldable pub initialization_commands : ModemConfig → List (Text × Text)
initialization_commands config =
    (codes "ATZ\r\n", codes "OK")
    ∷ (codes "ATE0\r\n", codes "OK")
    ∷ (codes "AT+CMGF=0\r\n", codes "OK")
    ∷ (codes "AT+CSCS=\"GSM\"\r\n", codes "OK")
    ∷ (codes "AT+CNMI=2,2,0,1,0\r\n", codes "OK")
    ∷ (codes "AT+CSMP=49,167,0,0\r\n", codes "OK")
    ∷ (codes "AT+CPMS=\"ME\",\"ME\",\"ME\"\r\n", codes "+CPMS:")
    ∷ gnss_commands config

-- `show` is the derived `Debug` of a string.
abbrev checked : (Text → Text) → Text → Text → Result Bytes → Result (Unit {0})
checked show command expected (err e) = err e
checked show command expected (ok response) =
    if contains expected (from_utf8_lossy response)
    then ok tt
    else err (
        message "Initialization command '"
        ++ show command
        ++ message "' failed. Expected: '"
        ++ expected
        ++ message "', Got: '"
        ++ trim (from_utf8_lossy response)
        ++ message "'")

abbrev pub send_command : (Text → Text) → Text → Text → Reply → Result (Unit {0})
send_command show command expected reply = elim reply.write_error [
  | some e ↦ err e
  | none ↦ checked show command expected (read_response_until_ok late_response [] reply.reads)
]

abbrev after_command :
    Bytes → Result (Unit {0}) → List Bytes × Result (Unit {0}) → List Bytes × Result (Unit {0})
after_command bytes (err e) rest = (bytes ∷ [], err e)
after_command bytes (ok u) rest = (bytes ∷ rest.0, rest.1)

-- What is written, in order, and the result; the `i`th command has the `i`th reply.
unfoldable pub send_commands :
    (Text → Text) → (ℕ → Reply) → ℕ → List (Text × Text) → List Bytes × Result (Unit {0})
send_commands show reply i [] = ([], ok tt)
send_commands show reply i ((command, expected) ∷ commands) =
    let rest = send_commands show reply (i + 1) commands in
    after_command (as_bytes command) (send_command show command expected (reply i)) rest

unfoldable pub initialize_modem :
    (Text → Text) → ModemConfig → (ℕ → Reply) → List Bytes × Result (Unit {0})
initialize_modem show config reply = send_commands show reply 0 (initialization_commands config)

abbrev tested : Result Bytes → Result (Unit {0})
tested (err e) = err e
tested (ok response) =
    if contains (codes "OK") (from_utf8_lossy response)
    then ok tt
    else err (
        message "Connection test failed: received '"
        ++ trim (from_utf8_lossy response)
        ++ message "'")

unfoldable pub test_connection : Reply → List Bytes × Result (Unit {0})
test_connection reply = elim reply.write_error [
  | some e ↦ (codes "AT\r\n" ∷ [], err e)
  | none ↦ (
    codes "AT\r\n" ∷ [],
    tested (read_response_until_ok (message "Connection test timed out") [] reply.reads),
  )
]

-- `ModemWorker::new`, with the line buffer that `run` makes.
abbrev pub new_worker : ModemConfig → Worker
new_worker config = record {
  status = startup;
  machine = idle;
  events = [];
  line_buffer = with_max_size config.line_buffer_size;
}

abbrev pub status_for : Result (Unit {0}) → ModemStatus
status_for (ok u) = online
status_for (err e) = offline

module _ {x : Crates} where
  abbrev pub written : List Bytes → List (Effect x)
  written bytes = map serial bytes

  -- What the loop starts with, and what was sent before it. A failed test only toggles the power
  -- pin.
  unfoldable pub initialize :
      (Text → Text) → ModemConfig → Reply → (ℕ → Reply) → Worker × List (Effect x)
  initialize show_text config test reply =
      let (test_bytes, _) = test_connection test in
      let (bytes, result) = initialize_modem show_text config reply in
      (new_worker config, written (test_bytes ++ bytes)) and_then λ w.
      change_status w (status_for result)

unfoldable pub initialize_and_run :
    {x : Crates}
    → (StateMachineState → ModemEvent → Text)
    → (Text → Text)
    → ModemConfig
    → Reply
    → (ℕ → Reply)
    → List (Env x × Arm)
    → Worker × List (Effect x)
initialize_and_run show show_text config test reply arms =
    initialize show_text config test reply and_then λ w. run show w arms
