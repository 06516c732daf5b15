-- ===== src/Modem/StateMachine/Session.antt =====
-- A query's whole exchange, from the command to the answer.
use sms_server.Base.{
  ℕ, ◌≡◌, refl, ap, ◌∙◌, Bool, true, false, List, [], ◌∷◌, ◌++◌, Option, none, some, ok, All, arith,
  Text,
}
use sms_server.Text.{trim}
use sms_server.Text.Utf8.{as_bytes}
use sms_server.Modem.Types.{Crates, ModemRequest, send_sms, ModemEvent, from_header}
use sms_server.Modem.Buffer.{LineEvent}
use sms_server.Modem.Commands.{
  write, reply, Sender, Env, CommandState, waiting_for_data, OutgoingCommand, new, is_complete,
  respond,
}
use sms_server.Modem.Handlers.{query_command, command_sender, command_responder}
use sms_server.Modem.StateMachine.{
  CommandExecution, StateMachineState, idle, command, Step, start_command, new_execution,
  transition_state, process_event, process_command, process_line, classify_line, answer,
}
use sms_server.Modem.StateMachine.Lines.{
  IsQuiet, unlines, with_buffer, feed_lines, feed_lines-append,
}

abbrev is_query : ModemRequest → Bool
is_query (send_sms len pdu) = false
is_query _ = true

-- A line that ends a command in this state.
pub record IsLast (state : CommandState) (line : Text) : Type 0 where
  pub no_header : from_header (trim line) ≡ none
  pub ends : is_complete state (trim line) ≡ true

module _ {x : Crates} (env : Env x) (show : StateMachineState → ModemEvent → Text) where
  pub transition_last :
      (e : CommandExecution) (tx : Sender) (line : Text)
      → e.command.response_tx ≡ some tx
      → env.listening tx ≡ true
      → IsLast e.context.state line
      → transition_state env show (command e) (LineEvent.line line) ≡ record {
        state = idle;
        outputs =
            reply tx (
              answer env (
                command_responder x e.command.request
                  (e.context.response_buffer ++ trim line ++ b'\n' ∷ [])))
            ∷ [];
        result = ok tt;
      }
  unfolding transition_state process_event process_command process_line classify_line respond
  transition_last e tx line t h q = ground (arith, q.no_header, q.ends)

  -- The lines of an answer, of which only the last ends the command: the caller gets, once, what
  -- the responder makes of all the lines together, and the machine is idle.
  pub exchange :
      (e : CommandExecution) (tx : Sender) (lines : List Text) (line : Text)
      → e.command.response_tx ≡ some tx
      → env.listening tx ≡ true
      → All (IsQuiet e.context.state) lines
      → IsLast e.context.state line
      → feed_lines env show (command e) (lines ++ line ∷ []) ≡ record {
        state = idle;
        outputs =
            reply tx (
              answer env (
                command_responder x e.command.request
                  ((e.context.response_buffer ++ unlines lines) ++ trim line ++ b'\n' ∷ [])))
            ∷ [];
        result = ok tt;
      }
  unfolding feed_lines
  exchange e tx lines line t h q last =
      feed_lines-append env show lines (line ∷ []) e q
      ∙ rw (
          transition_last (with_buffer e (e.context.response_buffer ++ unlines lines)) tx line t h
            last)

  start_query :
      (c : OutgoingCommand)
      → env.worker_open ≡ true
      → is_query c.request ≡ true
      → start_command env idle c ≡ record {
        state = command (new_execution env.now c waiting_for_data);
        outputs = write (as_bytes (query_command c.request)) ∷ [];
        result = ok tt;
      }
  unfolding start_command command_sender
  start_query c w q = ground arith

  -- A query that is started while the worker's channel is open writes its command line. When the
  -- modem then sends lines that are no unsolicited headers, and of which only the last ends a
  -- command, the caller, who listens, gets one response: what the responder makes of all the
  -- lines, trimmed and in order, or its error. The machine is idle again.
  pub query_session :
      (sequence : ℕ) (tx : Sender) (request : ModemRequest) (timeout : Option ℕ) (lines : List Text)
      (line : Text)
      → env.worker_open ≡ true
      → env.listening tx ≡ true
      → is_query request ≡ true
      → All (IsQuiet waiting_for_data) lines
      → IsLast waiting_for_data line
      → let started = start_command env idle (new sequence tx request timeout) in
        (started.outputs ≡ write (as_bytes (query_command request)) ∷ [])
        × (feed_lines env show started.state (lines ++ line ∷ []) ≡ record {
          state = idle;
          outputs =
              reply tx (
                answer env (command_responder x request (unlines lines ++ trim line ++ b'\n' ∷ [])))
              ∷ [];
          result = ok tt;
        })
  query_session sequence tx request timeout lines line w h q quiet last =
      let c = new sequence tx request timeout in
      let started = start_query c w (unfold new in q) in
      (
        ap (λ (s : Step x (Unit {0})). s.outputs) started ∙ (unfold new in refl),
        rw started (
            unfold new new_execution in
            exchange (new_execution env.now c waiting_for_data) tx lines line refl h quiet last),
      )
