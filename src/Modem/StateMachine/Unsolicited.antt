-- ===== src/Modem/StateMachine/Unsolicited.antt =====
-- An unsolicited message in the middle of a command leaves the command as it was.
use sms_server.Base.{
  ◌≡◌, true, false, [], ◌∷◌, append-nil, Option, none, some, ok, Bool-cases, inl, inr,
  if◌then◌else◌, Text,
}
use sms_server.Text.{trim}
use sms_server.Modem.Types.{Crates, ModemEvent, UnsolicitedMessageKind, from_header, has_next_line}
use sms_server.Modem.Buffer.{LineEvent}
use sms_server.Modem.Commands.{Env}
use sms_server.Modem.StateMachine.Lines.{feed_lines}
use sms_server.Modem.StateMachine.{
  CommandExecution, StateMachineState, unsolicited, handle_unsolicited, process_event,
  transition_state, classify_line, resume,
}

module _ {x : Crates} (env : Env x) (show : StateMachineState → ModemEvent → Text) where
  -- The header of a message that has a line of its own behind it.
  header_awaits :
      (interrupted : Option CommandExecution) (kind : UnsolicitedMessageKind) (header : Text)
      → from_header (trim header) ≡ some kind
      → has_next_line kind ≡ true
      → transition_state env show (resume env interrupted) (LineEvent.line header)
        ≡ record { state = unsolicited kind interrupted; outputs = []; result = ok tt }
  unfolding transition_state process_event classify_line
  header_awaits none kind header h n = rw (h, n)
  header_awaits (some e) kind header h n = rw (h, n)

  -- The line behind it.
  content_resumes :
      (interrupted : Option CommandExecution) (kind : UnsolicitedMessageKind) (content : Text)
      → from_header (trim content) ≡ none
      → transition_state env show (unsolicited kind interrupted) (LineEvent.line content) ≡ record {
        state = resume env interrupted;
        outputs = (handle_unsolicited env kind (trim content)).outputs;
        result = ok tt;
      }
  unfolding transition_state process_event classify_line handle_unsolicited
  content_resumes interrupted kind content h = rw (h, append-nil)

  header_resumes :
      (interrupted : Option CommandExecution) (kind : UnsolicitedMessageKind) (header : Text)
      → from_header (trim header) ≡ some kind
      → has_next_line kind ≡ false
      → transition_state env show (resume env interrupted) (LineEvent.line header) ≡ record {
        state = resume env interrupted;
        outputs = (handle_unsolicited env kind (trim header)).outputs;
        result = ok tt;
      }
  unfolding transition_state process_event classify_line handle_unsolicited
  header_resumes none kind header h n = rw (h, n, append-nil)
  header_resumes (some e) kind header h n = rw (h, n, append-nil)

  -- Whether a command is active or not, an unsolicited message leaves the machine in the state in
  -- which it found it, and succeeds. It is its header and, if its kind has a next line, one more
  -- line that is no header itself; what is sent is what the handler sends for the content, which
  -- is that line, or else the header.
  pub unsolicited_transparent :
      (interrupted : Option CommandExecution) (kind : UnsolicitedMessageKind)
      (header content : Text)
      → from_header (trim header) ≡ some kind
      → from_header (trim content) ≡ none
      → let state = resume env interrupted in
        let handled = trim (if has_next_line kind then content else header) in
        feed_lines env show state (header ∷ (if has_next_line kind then content ∷ [] else []))
        ≡ record {
          state = state;
          outputs = (handle_unsolicited env kind handled).outputs;
          result = ok tt;
        }
  unfolding feed_lines
  unsolicited_transparent interrupted kind header content h c =
      elim (Bool-cases (has_next_line kind)) [
        | inl n ↦ rw (
          n,
          header_awaits interrupted kind header h n,
          content_resumes interrupted kind content c,
          append-nil,
        )
        | inr n ↦ rw (n, header_resumes interrupted kind header h n, append-nil)
      ]
