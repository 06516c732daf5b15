-- ===== src/Modem/StateMachine/Accounting.antt =====
-- Every command's response channel is used at most once, over any run of the state machine.
use sms_server.Base.{
  ℕ, ◌+◌, ◌≤◌, ◌≡◌, refl, ap, inl, inr, List, [], ◌++◌, Option, none, some, Result, ok, err, arith,
  Bool-cases, Text,
}
use sms_server.Modem.Types.{
  Crates, ModemResponse, ModemEvent, unsolicited_message, command_response, data_line, prompt,
  UnsolicitedMessageKind, error, has_next_line,
}
use sms_server.Modem.Buffer.{LineEvent}
use sms_server.Modem.Commands.{
  Output, Sender, Act, Env, CommandState, OutgoingCommand, respond, is_complete,
}
use sms_server.Text.{message}
use sms_server.Modem.Handlers.{command_responder, prompt_handler}
use sms_server.Modem.StateMachine.{
  CommandExecution, StateMachineState, idle, command, unsolicited, new_execution,
  fail_active_command, start_command, handle_command_timeout, handle_unsolicited, process_line,
  process_command, process_event, transition_state, finish, prompted, add_line, answer,
  start_unsolicited, event_of, settle,
}
use sms_server.Modem.StateMachine.Answers.{
  to_list, held, count, answered, answered-append, answered-respond, answered-command_sender,
  answered-prompt_handler, answered-handle_unsolicited,
}

-- The channels that a call's result still holds: none if it failed.
abbrev held_after : Result StateMachineState → List Sender
held_after (ok s) = held s
held_after (err e) = []

module _ {x : Crates} (env : Env x) (tx : Sender) where
  -- What was answered and what is still held come from what was held.
  abbrev Spends : List Sender → Act x StateMachineState → Type 0
  Spends before act = answered tx act.outputs + count tx (held_after act.result) ≤ count tx before

  finish-Spends :
      (e : CommandExecution) (response : ModemResponse x)
      → Spends (to_list e.command.response_tx) (finish env e response)
  unfolding respond
  finish-Spends e response = ground arith

  prompted-Spends :
      (e : CommandExecution) (sent : List (Output x)) (r : Result (Option CommandState))
      → answered tx sent ≡ 0
      → Spends (to_list e.command.response_tx) (prompted env e sent r)
  prompted-Spends e sent (ok (some state)) h = omega arith
  prompted-Spends e sent (ok none) h =
      let response : ModemResponse x = error (message "Command completed during prompt handling") in
      omega
        (arith, finish-Spends e response, answered-append tx sent (finish env e response).outputs)
  prompted-Spends e sent (err text) h =
      let response : ModemResponse x = error (message "Prompt handler error: " ++ text) in
      omega
        (arith, finish-Spends e response, answered-append tx sent (finish env e response).outputs)

  process_line-Spends :
      (e : CommandExecution) (content : Text)
      → Spends (to_list e.command.response_tx) (process_line env e content)
  unfolding process_line
  process_line-Spends e content =
      let e' = add_line env e content in
      let response =
        answer env (command_responder x e.command.request e'.context.response_buffer) in
      elim (Bool-cases (is_complete e.context.state content)) [
        | inl done ↦ rw done (finish-Spends e' response)
        | inr more ↦ rw more (omega arith)
      ]

  process_command-Spends :
      (e : CommandExecution) (event : ModemEvent)
      → Spends (to_list e.command.response_tx) (process_command env e event)
  unfolding process_command
  process_command-Spends e (command_response content) = process_line-Spends e content
  process_command-Spends e (data_line content) = process_line-Spends e content
  process_command-Spends e (unsolicited_message kind header) = omega arith
  process_command-Spends e (prompt content) =
      let handler = prompt_handler env e.command.request in
      prompted-Spends e handler.outputs handler.result
        (answered-prompt_handler env tx e.command.request)

  start_unsolicited-Spends :
      (back : StateMachineState) (interrupted : Option CommandExecution)
      (kind : UnsolicitedMessageKind) (header : Text)
      → held back ≡ held (unsolicited kind interrupted)
      → Spends (held back) (start_unsolicited env back interrupted kind header)
  start_unsolicited-Spends back interrupted kind header h =
      let quiet = answered-handle_unsolicited env tx kind header in
      let none_more = answered-append tx (handle_unsolicited env kind header).outputs [] in
      elim (Bool-cases (has_next_line kind)) [
        | inl more ↦ rw more (omega (arith, ap (count tx) h))
        | inr done ↦ rw done (unfold handle_unsolicited in omega (arith, quiet, none_more))
      ]

  process_event-Spends :
      (show : StateMachineState → ModemEvent → Text) (s : StateMachineState) (event : ModemEvent)
      → Spends (held s) (process_event env show s event)
  unfolding process_event
  process_event-Spends show (unsolicited kind none) (data_line content) =
      unfold handle_unsolicited in
      omega (
        arith,
        answered-handle_unsolicited env tx kind content,
        answered-append tx (handle_unsolicited env kind content).outputs [],
      )
  process_event-Spends show (unsolicited kind (some e)) (data_line content) =
      unfold handle_unsolicited in
      omega (
        arith,
        answered-handle_unsolicited env tx kind content,
        answered-append tx (handle_unsolicited env kind content).outputs [],
      )
  process_event-Spends show (command e) (unsolicited_message kind header) =
      start_unsolicited-Spends (command e) (some e) kind header refl
  process_event-Spends show idle (unsolicited_message kind header) =
      start_unsolicited-Spends idle none kind header refl
  process_event-Spends show (command e) event = process_command-Spends e event
  process_event-Spends show s event = omega arith

  -- One line of the modem never answers a channel that is not held, nor one twice.
  pub transition_state-accounts :
      (show : StateMachineState → ModemEvent → Text) (s : StateMachineState) (arrived : LineEvent)
      → let step = transition_state env show s arrived in
        answered tx step.outputs + count tx (held step.state) ≤ count tx (held s)
  unfolding transition_state
  transition_state-accounts show s arrived =
      let act = process_event env show s (event_of env show s arrived) in
      settle-accounts act.outputs act.result
        (process_event-Spends show s (event_of env show s arrived))
    where
      settle-accounts :
          (sent : List (Output x)) (r : Result StateMachineState) {n : ℕ}
          → answered tx sent + count tx (held_after r) ≤ n
          → answered tx (settle sent r).outputs + count tx (held (settle sent r).state) ≤ n
      settle-accounts sent (ok s) h = h
      settle-accounts sent (err e) h = h

  pub fail_active_command-accounts :
      (s : StateMachineState) (reason : Text)
      → let step = fail_active_command env s reason in
        answered tx step.outputs + count tx (held step.state) ≤ count tx (held s)
  unfolding fail_active_command
  fail_active_command-accounts idle reason = omega arith
  fail_active_command-accounts (command e) reason =
      omega (arith, answered-respond env tx e.command (error reason))
  fail_active_command-accounts (unsolicited kind none) reason = omega arith
  fail_active_command-accounts (unsolicited kind (some e)) reason =
      omega (arith, answered-respond env tx e.command (error reason))

  pub handle_command_timeout-accounts :
      (s : StateMachineState)
      → let step = handle_command_timeout env s in
        answered tx step.outputs + count tx (held step.state) ≤ count tx (held s)
  unfolding handle_command_timeout respond
  handle_command_timeout-accounts idle = omega arith
  handle_command_timeout-accounts (command e) = ground arith
  handle_command_timeout-accounts (unsolicited kind interrupted) = omega arith

  pub start_command-accounts :
      (s : StateMachineState) (c : OutgoingCommand)
      → let step = start_command env s c in
        answered tx step.outputs + count tx (held step.state)
        ≤ count tx (held s) + count tx (to_list c.response_tx)
  unfolding start_command new_execution
  start_command-accounts s c = ground (arith, answered-command_sender env tx c.request)
