-- ===== src/Modem/StateMachine.antt =====
-- src/modem/state_machine.rs: the state machine that pairs commands with what the modem sends.
pub mod Answers
pub mod Accounting
pub mod Unsolicited
pub mod Timeout
pub mod Errors
pub mod Lines
pub mod Session
pub mod SmsSession
pub mod Holds
mod Tests
use sms_server.Base.{
  ℕ, ◌+◌, Bool, true, false, not, ◌||◌, List, [], ◌∷◌, ◌++◌, Option, none, some, Result, ok, err,
  leb, if◌then◌else◌, Text,
}
use sms_server.Text.{codes, message, equal, starts_with, trim}
use sms_server.Modem.Types.{
  Crates, ModemRequest, expected_response_prefix, ModemResponse, error, ModemEvent,
  unsolicited_message, command_response, data_line, prompt, UnsolicitedMessageKind, from_header,
  has_next_line, ModemIncomingMessage,
}
use sms_server.Modem.Buffer.{LineEvent}
use sms_server.Modem.Commands.{
  Output, notify, Act, Env, CommandState, CommandContext, OutgoingCommand, is_complete,
  get_request_timeout, respond, pure, fail, tell, after, ◌>>=◌, ◌>>◌,
}
use sms_server.Modem.Handlers.{
  command_sender, prompt_handler, handle_unsolicited_message, command_responder,
}

pub record CommandExecution : Type 0 where
  pub context : CommandContext
  pub command : OutgoingCommand
  pub timeout_at : ℕ

-- `CommandExecution::new`; the first argument is the clock.
unfoldable pub new_execution : ℕ → OutgoingCommand → CommandState → CommandExecution
new_execution now command state = record {
  context = record { sequence = command.sequence; state = state; response_buffer = [] };
  command = command;
  timeout_at = now + get_request_timeout command;
}

abbrev is_timed_out : ℕ → CommandExecution → Bool
is_timed_out now execution = leb execution.timeout_at now

pub data StateMachineState : Type 0 where
  idle : StateMachineState
  command : CommandExecution → StateMachineState
  unsolicited : UnsolicitedMessageKind → Option CommandExecution → StateMachineState

abbrev pub can_accept_command : StateMachineState → Bool
can_accept_command idle = true
can_accept_command _ = false

unfoldable pub reset_to_idle : StateMachineState → StateMachineState
reset_to_idle state = idle

-- What a method leaves behind: the new state, what was sent, and its result.
pub record Step {ℓ} (x : Crates) (A : Type ℓ) : Type ℓ where
  pub state : StateMachineState
  pub outputs : List (Output x)
  pub result : Result A

abbrev pub stay {ℓ} : {x : Crates} {A : Type ℓ} → StateMachineState → Act x A → Step x A
stay s act = record { state = s; outputs = act.outputs; result = act.result }

-- The new state if the call succeeds; `take` has left `Idle` behind if it does not.
abbrev pub settle : {x : Crates} → List (Output x) → Result StateMachineState → Step x (Unit {0})
settle sent (ok s) = record { state = s; outputs = sent; result = ok tt }
settle sent (err e) = record { state = idle; outputs = sent; result = err e }

module _ {x : Crates} (env : Env x) where
  -- `let _ = execution.command.respond(…)`: the result is dropped.
  abbrev fail_execution : CommandExecution → Text → Step x (Unit {0})
  fail_execution execution reason = record {
    state = idle;
    outputs = (respond env execution.command (error reason)).1.outputs;
    result = ok tt;
  }

  unfoldable pub fail_active_command : StateMachineState → Text → Step x (Unit {0})
  fail_active_command (command execution) reason = fail_execution execution reason
  fail_active_command (unsolicited kind (some execution)) reason = fail_execution execution reason
  fail_active_command other reason = stay other (pure tt)

  -- `?` on the handler's error leaves the state as it was.
  abbrev begin :
      StateMachineState
      → OutgoingCommand
      → List (Output x)
      → Result CommandState
      → Step x (Unit {0})
  begin s cmd sent (ok state) = record {
    state = command (new_execution env.now cmd state);
    outputs = sent;
    result = ok tt;
  }
  begin s cmd sent (err e) = record { state = s; outputs = sent; result = err e }

  unfoldable pub start_command : StateMachineState → OutgoingCommand → Step x (Unit {0})
  start_command s cmd =
      let sender = command_sender env cmd.request in begin s cmd sender.outputs sender.result

  unfoldable pub handle_command_timeout : StateMachineState → Step x Bool
  handle_command_timeout (command execution) =
      if not (is_timed_out env.now execution)
      then stay (command execution) (pure false)
      else stay idle
          (do (respond env execution.command (error (message "Command timed out!"))).1; pure true)
  handle_command_timeout other = stay other (pure false)

  abbrev forward : Option (ModemIncomingMessage x) → List (Output x)
  forward none = []
  forward (some message) = notify message ∷ []

  abbrev sent_on : Result (Option (ModemIncomingMessage x)) → List (Output x)
  sent_on (ok message) = forward message
  sent_on (err e) = []

  -- An error is logged and dropped.
  unfoldable pub handle_unsolicited : UnsolicitedMessageKind → Text → Act x (Unit {0})
  handle_unsolicited kind content =
      let act = handle_unsolicited_message env kind content in
      record { outputs = act.outputs ++ sent_on act.result; result = ok tt }

  -- `respond(…).await?`, then idle.
  abbrev finish : CommandExecution → ModemResponse x → Act x StateMachineState
  finish execution response = do (respond env execution.command response).1; pure idle

  abbrev set_command_state : CommandExecution → CommandState → CommandExecution
  set_command_state execution state = record execution {
    context = record (execution.context) { state = state };
  }

  abbrev prompted :
      CommandExecution → List (Output x) → Result (Option CommandState) → Act x StateMachineState
  prompted execution sent (ok (some new_state)) = record {
    outputs = sent;
    result = ok (command (set_command_state execution new_state));
  }
  prompted execution sent (ok none) =
      let done = finish execution (error (message "Command completed during prompt handling")) in
      record { outputs = sent ++ done.outputs; result = done.result }
  prompted execution sent (err e) =
      let done = finish execution (error (message "Prompt handler error: " ++ e)) in
      record { outputs = sent ++ done.outputs; result = done.result }

  abbrev answer : Result (ModemResponse x) → ModemResponse x
  answer (ok response) = response
  answer (err e) = error e

  abbrev add_line : CommandExecution → Text → CommandExecution
  add_line execution content = record execution {
    context = record (execution.context) {
      response_buffer = execution.context.response_buffer ++ content ++ b'\n' ∷ [];
    };
  }

  -- The branch of `process_command` for a response or a line.
  unfoldable pub process_line : CommandExecution → Text → Act x StateMachineState
  process_line execution content =
      let e = add_line execution content in
      if is_complete e.context.state content
      then finish e (answer (command_responder x e.command.request e.context.response_buffer))
      else pure (command e)

  -- An unsolicited message does not get here: `process_event` takes it first. The source ends
  -- that branch by `unreachable!`.
  unfoldable pub process_command : CommandExecution → ModemEvent → Act x StateMachineState
  process_command execution (prompt content) =
      let handler = prompt_handler env execution.command.request in
      prompted execution handler.outputs handler.result
  process_command execution (command_response content) = process_line execution content
  process_command execution (data_line content) = process_line execution content
  process_command execution (unsolicited_message kind header) =
      fail (message "Unsolicited messages during a command should have already been handled!")

  abbrev resume : Option CommandExecution → StateMachineState
  resume none = idle
  resume (some execution) = command execution

  -- A message of one line is handled at once; for any other the next line is awaited.
  abbrev start_unsolicited :
      StateMachineState
      → Option CommandExecution
      → UnsolicitedMessageKind
      → Text
      → Act x StateMachineState
  start_unsolicited back interrupted kind header =
      if not (has_next_line kind)
      then (do handle_unsolicited kind header; pure back)
      else pure (unsolicited kind interrupted)

  module _ (show : StateMachineState → ModemEvent → Text) where
    unfoldable pub process_event : StateMachineState → ModemEvent → Act x StateMachineState
    process_event (unsolicited kind interrupted) (data_line content) = do
      handle_unsolicited kind content
      pure (resume interrupted)
    process_event (command execution) (unsolicited_message kind header) =
        start_unsolicited (command execution) (some execution) kind header
    process_event idle (unsolicited_message kind header) = start_unsolicited idle none kind header
    process_event (command execution) event = process_command execution event
    process_event idle (prompt content) = pure idle
    process_event idle (command_response content) = pure idle
    process_event idle (data_line content) = pure idle
    process_event state event = fail (message "Invalid state transition: " ++ show state event)

    abbrev classify_trimmed : StateMachineState → Text → Option UnsolicitedMessageKind → ModemEvent
    classify_trimmed state trimmed (some kind) = unsolicited_message kind trimmed
    classify_trimmed (command execution) trimmed none =
        if equal trimmed (codes "OK")
          || equal trimmed (codes "ERROR")
          || starts_with (expected_response_prefix execution.command.request) trimmed
          || starts_with (codes "+CME ERROR:") trimmed
          || starts_with (codes "+CMS ERROR:") trimmed
        then command_response trimmed
        else data_line trimmed
    classify_trimmed state trimmed none = data_line trimmed

    unfoldable pub classify_line : StateMachineState → Text → ModemEvent
    classify_line state content = classify_trimmed state (trim content) (from_header (trim content))

    abbrev event_of : StateMachineState → LineEvent → ModemEvent
    event_of state (LineEvent.line content) = classify_line state content
    event_of state (LineEvent.prompt content) = prompt content

    unfoldable pub transition_state : StateMachineState → LineEvent → Step x (Unit {0})
    transition_state state line_event =
        let act = process_event state (event_of state line_event) in settle act.outputs act.result
