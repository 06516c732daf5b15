-- ===== src/Modem/Worker/Startup/Lifetime.antt =====
-- The worker from its start: the commands that initialize the modem, and any run behind them.
use sms_server.Base.{
  ℕ, ◌+◌, ◌≡◌, Bool, true, false, ◌&&◌, List, [], ◌∷◌, ◌++◌, map, Result, ok, err, length, Text,
  Bytes,
}
use sms_server.Text.{codes}
use sms_server.Text.Utf8.{as_bytes}
use sms_server.Modem.Types.{Crates, ModemStatus, startup, modem_status_update}
use sms_server.Modem.Commands.{notify}
use sms_server.Modem.Worker.{Effect, serial, sent}
use sms_server.Modem.Worker.Startup.{Reply, send_command}

-- The bytes of the commands' lines.
abbrev pub lines_of : List (Text × Text) → List Bytes
lines_of [] = []
lines_of ((command, expected) ∷ commands) = as_bytes command ∷ lines_of commands

abbrev is_ok : Result (Unit {0}) → Bool
is_ok (ok u) = true
is_ok (err e) = false

module _ (show_text : Text → Text) (reply : ℕ → Reply) where
  -- The commands from the `i`th on all succeed.
  abbrev pub all_ok : ℕ → List (Text × Text) → Bool
  all_ok i [] = true
  all_ok i ((command, expected) ∷ commands) =
      is_ok (send_command show_text command expected (reply i)) && all_ok (i + 1) commands

  -- The first command that fails, from the `i`th on, and its error.
  pub record FirstFailure (i : ℕ) (commands : List (Text × Text)) : Type 0 where
    pub before : List (Text × Text)
    pub command : Text
    pub expected : Text
    pub after : List (Text × Text)
    pub reason : Text
    pub split : commands ≡ before ++ (command, expected) ∷ after
    pub good : all_ok i before ≡ true
    pub bad : send_command show_text command expected (reply (i + length before)) ≡ err reason

-- What is sent before the loop: the test, the lines, and the change of the status.
abbrev pub opening : {x : Crates} → List Bytes → ModemStatus → List (Effect x)
opening lines status =
    map serial (codes "AT\r\n" ∷ lines) ++ sent (notify (modem_status_update startup status)) ∷ []
