-- ===== src/Modem/StateMachine/Holds.antt =====
-- The calls of the state machine keep or drop a command, and ask the worker for no change of its
-- status but to shut down.
use sms_server.Base.{
  ◌≡◌, refl, Bool, true, false, not, ◌&&◌, List, [], ◌∷◌, ◌++◌, inl, inr, Option, none, some,
  Result, ok, err, All, arith, Bool-cases, Text,
}
use sms_server.Text.{message}
use sms_server.Modem.Types.{
  Crates, ModemRequest, send_sms, ModemResponse, error, shutting_down, ModemEvent,
  unsolicited_message, command_response, data_line, prompt, UnsolicitedMessageKind, incoming_sms,
  has_next_line, ModemIncomingMessage,
}
use sms_server.Modem.Buffer.{LineEvent}
use sms_server.Modem.Commands.{
  Output, write, set_status, reply, notify, Act, CommandState, Env, OutgoingCommand, respond,
  is_complete,
}
use sms_server.Modem.Handlers.{command_sender, prompt_handler, handle_unsolicited_message}
use sms_server.Modem.StateMachine.{
  CommandExecution, StateMachineState, idle, command, unsolicited, fail_active_command,
  start_command, handle_command_timeout, transition_state, process_event, process_command,
  process_line, handle_unsolicited, sent_on, finish, prompted, add_line, start_unsolicited,
  event_of, settle,
}

abbrev pub holds_command : StateMachineState → Bool
holds_command idle = false
holds_command (command e) = true
holds_command (unsolicited kind none) = false
holds_command (unsolicited kind (some e)) = true

module _ {x : Crates} where
  abbrev is_own : Output x → Bool
  is_own (set_status shutting_down) = true
  is_own (set_status _) = false
  is_own (write bytes) = true
  is_own (reply tx response) = true
  is_own (notify message) = true

  abbrev pub Own : List (Output x) → Type 0
  Own = All (λ o. is_own o ≡ true)

  Own-append : (os ps : List (Output x)) → Own os → Own ps → Own (os ++ ps)
  Own-append [] ps h k = k
  Own-append (o ∷ os) ps h k = (h.0, Own-append os ps h.1 k)

-- A result holds a command only if one was held.
abbrev Within : Bool → Result StateMachineState → Type 0
Within b (ok s) = (holds_command s && not b) ≡ false
Within b (err e) = Unit

module _ {x : Crates} (env : Env x) where
  abbrev Tame : Bool → Act x StateMachineState → Type 0
  Tame b act = Own act.outputs × Within b act.result

  Own-respond : (c : OutgoingCommand) (r : ModemResponse x) → Own (respond env c r).1.outputs
  unfolding respond
  Own-respond c r = ground arith

  Own-handle_unsolicited_message :
      (kind : UnsolicitedMessageKind) (content : Text)
      → Own (handle_unsolicited_message env kind content).outputs
  unfolding handle_unsolicited_message
  Own-handle_unsolicited_message incoming_sms content = ground arith
  Own-handle_unsolicited_message _ content = ground arith

  Own-sent_on : (r : Result (Option (ModemIncomingMessage x))) → Own (sent_on env r)
  Own-sent_on (ok none) = tt
  Own-sent_on (ok (some message)) = (refl, tt)
  Own-sent_on (err e) = tt

  Own-handle_unsolicited :
      (kind : UnsolicitedMessageKind) (content : Text)
      → Own (handle_unsolicited env kind content).outputs
  unfolding handle_unsolicited
  Own-handle_unsolicited kind content =
      let act = handle_unsolicited_message env kind content in
      Own-append act.outputs (sent_on env act.result) (Own-handle_unsolicited_message kind content)
        (Own-sent_on act.result)

  Own-prompt_handler : (request : ModemRequest) → Own (prompt_handler env request).outputs
  unfolding prompt_handler
  Own-prompt_handler (send_sms len pdu) = ground arith
  Own-prompt_handler _ = tt

  pub start_command-Own :
      (s : StateMachineState) (c : OutgoingCommand) → Own (start_command env s c).outputs
  unfolding start_command command_sender
  start_command-Own s c = ground arith

  finish-Tame : (b : Bool) (e : CommandExecution) (r : ModemResponse x) → Tame b (finish env e r)
  unfolding respond
  finish-Tame b e r = ground arith

  prompted-Tame :
      (e : CommandExecution) (sent : List (Output x)) (r : Result (Option CommandState))
      → Own sent
      → Tame true (prompted env e sent r)
  prompted-Tame e sent (ok (some state)) h = (h, refl)
  prompted-Tame e sent (ok none) h =
      let t = finish-Tame true e (error (message "Command completed during prompt handling")) in
      (Own-append sent _ h t.0, t.1)
  prompted-Tame e sent (err text) h =
      let t = finish-Tame true e (error (message "Prompt handler error: " ++ text)) in
      (Own-append sent _ h t.0, t.1)

  process_line-Tame :
      (e : CommandExecution) (content : Text) → Tame true (process_line env e content)
  unfolding process_line
  process_line-Tame e content = elim (Bool-cases (is_complete e.context.state content)) [
    | inl done ↦ rw done (finish-Tame true (add_line env e content) _)
    | inr more ↦ rw more (tt, refl)
  ]

  process_command-Tame :
      (e : CommandExecution) (event : ModemEvent) → Tame true (process_command env e event)
  unfolding process_command
  process_command-Tame e (command_response content) = process_line-Tame e content
  process_command-Tame e (data_line content) = process_line-Tame e content
  process_command-Tame e (unsolicited_message kind header) = (tt, tt)
  process_command-Tame e (prompt content) =
      let handler = prompt_handler env e.command.request in
      prompted-Tame e handler.outputs handler.result (Own-prompt_handler e.command.request)

  start_unsolicited-Tame :
      (back : StateMachineState) (interrupted : Option CommandExecution)
      (kind : UnsolicitedMessageKind) (header : Text)
      → holds_command back ≡ holds_command (unsolicited kind interrupted)
      → Tame (holds_command back) (start_unsolicited env back interrupted kind header)
  start_unsolicited-Tame back interrupted kind header h = elim (Bool-cases (has_next_line kind)) [
    | inl more ↦ rw more (tt, ground arith)
    | inr done ↦ rw done (
        unfold handle_unsolicited in
        (Own-append _ [] (Own-handle_unsolicited kind header) tt, ground arith))
  ]

  process_event-Tame :
      (show : StateMachineState → ModemEvent → Text) (s : StateMachineState) (event : ModemEvent)
      → Tame (holds_command s) (process_event env show s event)
  unfolding process_event handle_unsolicited
  process_event-Tame show (unsolicited kind none) (data_line content) =
      (Own-append _ [] (Own-handle_unsolicited kind content) tt, refl)
  process_event-Tame show (unsolicited kind (some e)) (data_line content) =
      (Own-append _ [] (Own-handle_unsolicited kind content) tt, refl)
  process_event-Tame show (command e) (unsolicited_message kind header) =
      start_unsolicited-Tame (command e) (some e) kind header refl
  process_event-Tame show idle (unsolicited_message kind header) =
      start_unsolicited-Tame idle none kind header refl
  process_event-Tame show (command e) event = process_command-Tame e event
  process_event-Tame show idle event = (tt, refl)
  process_event-Tame show s event = (tt, tt)

  pub transition_state-Own :
      (show : StateMachineState → ModemEvent → Text) (s : StateMachineState) (arrived : LineEvent)
      → Own (transition_state env show s arrived).outputs
  unfolding transition_state
  transition_state-Own show s arrived =
      let act = process_event env show s (event_of env show s arrived) in
      Own-settle act.outputs act.result (process_event-Tame show s (event_of env show s arrived)).0
    where
      Own-settle :
          (os : List (Output x)) (r : Result StateMachineState) → Own os → Own (settle os r).outputs
      Own-settle os (ok t) h = h
      Own-settle os (err e) h = h

  -- A line gives no command to a machine that holds none.
  pub holds_command-transition_state :
      (show : StateMachineState → ModemEvent → Text) (s : StateMachineState) (arrived : LineEvent)
      → holds_command s ≡ false
      → holds_command (transition_state env show s arrived).state ≡ false
  unfolding transition_state
  holds_command-transition_state show s arrived h =
      let act = process_event env show s (event_of env show s arrived) in
      holds-settle act.outputs act.result
        (process_event-Tame show s (event_of env show s arrived)).1
    where
      holds-settle :
          (os : List (Output x)) (r : Result StateMachineState)
          → Within (holds_command s) r
          → holds_command (settle os r).state ≡ false
      holds-settle os (ok t) k = ground arith
      holds-settle os (err e) k = refl

  pub fail_active_command-Own :
      (s : StateMachineState) (reason : Text) → Own (fail_active_command env s reason).outputs
  unfolding fail_active_command
  fail_active_command-Own idle reason = tt
  fail_active_command-Own (command e) reason = Own-respond e.command (error reason)
  fail_active_command-Own (unsolicited kind none) reason = tt
  fail_active_command-Own (unsolicited kind (some e)) reason = Own-respond e.command (error reason)

  pub holds_command-fail_active_command :
      (s : StateMachineState) (reason : Text)
      → holds_command (fail_active_command env s reason).state ≡ false
  unfolding fail_active_command
  holds_command-fail_active_command idle reason = refl
  holds_command-fail_active_command (command e) reason = refl
  holds_command-fail_active_command (unsolicited kind none) reason = refl
  holds_command-fail_active_command (unsolicited kind (some e)) reason = refl

  pub handle_command_timeout-Own :
      (s : StateMachineState) → Own (handle_command_timeout env s).outputs
  unfolding handle_command_timeout respond
  handle_command_timeout-Own idle = tt
  handle_command_timeout-Own (command e) = ground arith
  handle_command_timeout-Own (unsolicited kind interrupted) = tt
