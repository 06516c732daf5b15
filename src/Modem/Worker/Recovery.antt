-- ===== src/Modem/Worker/Recovery.antt =====
-- What the read loop of src/modem/worker.rs makes of a failed transition.
use sms_server.Base.{◌≡◌, refl, Bool, true, false, [], append-nil, Option, none, some, Text}
use sms_server.Text.{trim}
use sms_server.Modem.Types.{Crates, ModemEvent, UnsolicitedMessageKind, from_header}
use sms_server.Modem.Buffer.{LineEvent}
use sms_server.Modem.Commands.{Env}
use sms_server.Modem.StateMachine.{
  CommandExecution, StateMachineState, idle, unsolicited, transition_state, process_event,
  classify_line, fail_active_command, reset_to_idle,
}
use sms_server.Modem.Worker.{Worker, handle_line_event}

abbrev is_header : Option UnsolicitedMessageKind → Bool
is_header none = false
is_header (some kind) = true

-- A prompt, or the header of an unsolicited message.
abbrev pub is_intruder : LineEvent → Bool
is_intruder (LineEvent.prompt content) = true
is_intruder (LineEvent.line content) = is_header (from_header (trim content))

-- While the second line of an unsolicited message is awaited in the middle of a command, a prompt
-- or the header of another unsolicited message drops the command: the machine becomes idle,
-- nothing else of the worker changes, and nothing is sent, to the command's caller neither.
pub handle_line_event-is_intruder :
    {x : Crates} (env : Env x) (show : StateMachineState → ModemEvent → Text) (w : Worker)
    (kind : UnsolicitedMessageKind) (e : CommandExecution) (event : LineEvent)
    → w.machine ≡ unsolicited kind (some e)
    → is_intruder event ≡ true
    → handle_line_event env show w event ≡ (record w { machine = idle }, [])
unfolding handle_line_event transition_state process_event classify_line fail_active_command
    reset_to_idle
handle_line_event-is_intruder env show w kind e (LineEvent.prompt content) m i =
    rw m (simp append-nil)
handle_line_event-is_intruder env show w kind e (LineEvent.line content) m i =
    known (from_header (trim content)) refl i
  where
    known :
        (found : Option UnsolicitedMessageKind)
        → from_header (trim content) ≡ found
        → is_header found ≡ true
        → handle_line_event env show w (LineEvent.line content) ≡ (record w { machine = idle }, [])
    known none q i = cc
    known (some other) q i = rw (m, q) (simp append-nil)
