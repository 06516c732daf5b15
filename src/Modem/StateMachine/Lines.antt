-- ===== src/Modem/StateMachine/Lines.antt =====
-- Several lines of the modem, one after the other, up to the first that fails.
use sms_server.Base.{
  ◌≡◌, false, List, [], ◌∷◌, ◌++◌, append-nil, append_assoc, none, Result, ok, err, All, arith,
  Text,
}
use sms_server.Text.{trim}
use sms_server.Modem.Types.{Crates, ModemEvent, from_header}
use sms_server.Modem.Buffer.{LineEvent}
use sms_server.Modem.Commands.{Env, CommandState, is_complete}
use sms_server.Modem.StateMachine.{
  CommandExecution, StateMachineState, command, Step, transition_state, process_event,
  process_command, process_line, classify_line,
}

-- A line that neither is the header of an unsolicited message nor ends a command in this state.
pub record IsQuiet (state : CommandState) (line : Text) : Type 0 where
  pub no_header : from_header (trim line) ≡ none
  pub no_end : is_complete state (trim line) ≡ false

-- The lines as they are kept.
abbrev pub unlines : List Text → Text
unlines [] = []
unlines (l ∷ ls) = trim l ++ (b'\n' ∷ unlines ls)

abbrev pub with_buffer : CommandExecution → Text → CommandExecution
with_buffer e buffer = record e { context = record (e.context) { response_buffer = buffer } }

module _ {x : Crates} (env : Env x) (show : StateMachineState → ModemEvent → Text) where
  abbrev followed : Step x (Unit {0}) → Result (Unit {0}) → Step x (Unit {0}) → Step x (Unit {0})
  followed step (ok u) rest = record rest { outputs = step.outputs ++ rest.outputs }
  followed step (err e) rest = step

  unfoldable pub feed_lines : StateMachineState → List Text → Step x (Unit {0})
  feed_lines s [] = record { state = s; outputs = []; result = ok tt }
  feed_lines s (l ∷ ls) =
      let step = transition_state env show s (LineEvent.line l) in
      let rest = feed_lines step.state ls in followed step step.result rest

  pub transition_quiet :
      (e : CommandExecution) (line : Text)
      → IsQuiet e.context.state line
      → transition_state env show (command e) (LineEvent.line line) ≡ record {
        state = command (with_buffer e (e.context.response_buffer ++ trim line ++ b'\n' ∷ []));
        outputs = [];
        result = ok tt;
      }
  unfolding transition_state process_event process_command process_line classify_line
  transition_quiet e line q = ground (arith, q.no_header, q.no_end)

  -- Quiet lines are kept in order, and nothing is sent.
  pub feed_lines-append :
      (lines rest : List Text) (e : CommandExecution)
      → All (IsQuiet e.context.state) lines
      → feed_lines (command e) (lines ++ rest)
        ≡ feed_lines (command (with_buffer e (e.context.response_buffer ++ unlines lines))) rest
  unfolding feed_lines
  feed_lines-append [] rest e q = rw append-nil
  feed_lines-append (l ∷ ls) rest e q =
      let e' = with_buffer e (e.context.response_buffer ++ trim l ++ b'\n' ∷ []) in
      rw (transition_quiet e l q.0, feed_lines-append ls rest e' q.1) (simp append_assoc)
