-- ===== src/Modem/StateMachine/Timeout.antt =====
-- How long a command may take.
use sms_server.Base.{ℕ, ◌+◌, ◌≡◌, true, false, [], ◌∷◌, Option, ok, arith, ltb, if◌then◌else◌}
use sms_server.Text.{message}
use sms_server.Modem.Types.{Crates, ModemRequest, error}
use sms_server.Modem.Commands.{reply, Sender, Env, new, get_request_timeout, respond}
use sms_server.Modem.Handlers.{command_sender}
use sms_server.Modem.StateMachine.{idle, start_command, handle_command_timeout, new_execution}

-- A command that is started when the worker's channel is open, at the time `e.now`, is left alone
-- by the timeout check at the time `l.now` before its own timeout has passed; from then on, if
-- its caller listens, the check answers the caller with an error, once, and the machine is idle.
pub start_command-handle_command_timeout :
    {x : Crates} (e l : Env x) (sequence : ℕ) (tx : Sender) (request : ModemRequest)
    (timeout : Option ℕ)
    → e.worker_open ≡ true
    → l.listening tx ≡ true
    → let c = new sequence tx request timeout in
      let started = (start_command e idle c).state in
      handle_command_timeout l started ≡ (
        if ltb l.now (e.now + get_request_timeout c)
        then record { state = started; outputs = []; result = ok false }
        else record {
          state = idle;
          outputs = reply tx (error (message "Command timed out!")) ∷ [];
          result = ok true;
        })
unfolding start_command handle_command_timeout command_sender new_execution respond new
start_command-handle_command_timeout e l sequence tx request timeout w listens = ground arith
