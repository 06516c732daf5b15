-- ===== src/Modem/StateMachine/Errors.antt =====
-- What the modem's final result codes with an error number do to a command.
use sms_server.Base.{
  ◌≡◌, refl, Bool, true, false, [], ◌∷◌, ◌++◌, none, some, ok, ◌∙◌, inl, inr, Bool-cases,
  if◌then◌else◌, Text,
}
use sms_server.Text.{codes, trim, equal, starts_with}
use sms_server.Modem.Types.{Crates, ModemEvent, from_header}
use sms_server.Modem.Buffer.{LineEvent}
use sms_server.Modem.Commands.{
  reply, Sender, Env, CommandState, waiting_for_ok, waiting_for_prompt, waiting_for_data,
  is_complete,
}
use sms_server.Modem.Handlers.{command_responder}
use sms_server.Modem.StateMachine.{
  CommandExecution, StateMachineState, idle, command, transition_state, answer,
}
use sms_server.Modem.StateMachine.Lines.{with_buffer, transition_quiet}
use sms_server.Modem.StateMachine.Session.{transition_last}

-- The text of a final result code with an error number.
pub data IsErrorLine : Text → Type 0 where
  cme : (rest : Text) → IsErrorLine (codes "+CME ERROR:" ++ rest)
  cms : (rest : Text) → IsErrorLine (codes "+CMS ERROR:" ++ rest)

abbrev is_waiting_for_ok : CommandState → Bool
is_waiting_for_ok waiting_for_ok = true
is_waiting_for_ok _ = false

IsErrorLine-no_header : {t : Text} → IsErrorLine t → from_header t ≡ none
unfolding from_header starts_with equal
IsErrorLine-no_header (cme rest) = refl
IsErrorLine-no_header (cms rest) = refl

IsErrorLine-is_complete :
    (state : CommandState) {t : Text}
    → IsErrorLine t
    → is_complete state t ≡ is_waiting_for_ok state
unfolding is_complete starts_with equal
IsErrorLine-is_complete waiting_for_ok (cme rest) = refl
IsErrorLine-is_complete waiting_for_ok (cms rest) = refl
IsErrorLine-is_complete waiting_for_prompt (cme rest) = refl
IsErrorLine-is_complete waiting_for_prompt (cms rest) = refl
IsErrorLine-is_complete waiting_for_data (cme rest) = refl
IsErrorLine-is_complete waiting_for_data (cms rest) = refl

-- A line with the code `+CME ERROR:` or `+CMS ERROR:` ends a command whose caller listens only if
-- the command waits for OK: its caller gets what the responder makes of the lines so far, and the
-- machine is idle. A command that waits for the prompt or for data stays active, with the line
-- kept and nothing sent.
pub transition_error_line :
    {x : Crates} (env : Env x) (show : StateMachineState → ModemEvent → Text) (e : CommandExecution)
    (tx : Sender) (line : Text)
    → e.command.response_tx ≡ some tx
    → env.listening tx ≡ true
    → IsErrorLine (trim line)
    → let buffer = e.context.response_buffer ++ trim line ++ b'\n' ∷ [] in
      transition_state env show (command e) (LineEvent.line line) ≡ (
        if is_waiting_for_ok e.context.state
        then record {
          state = idle;
          outputs = reply tx (answer env (command_responder x e.command.request buffer)) ∷ [];
          result = ok tt;
        }
        else record { state = command (with_buffer e buffer); outputs = []; result = ok tt })
transition_error_line env show e tx line t h error =
    let complete = IsErrorLine-is_complete e.context.state error in
    let header = IsErrorLine-no_header error in
    elim (Bool-cases (is_waiting_for_ok e.context.state)) [
      | inl waits ↦ rw waits (
          transition_last env show e tx line t h
            (record { no_header = header; ends = complete ∙ waits }))
      | inr other ↦ rw other (
          transition_quiet env show e line
            (record { no_header = header; no_end = complete ∙ other }))
    ]
