-- ===== src/Modem/StateMachine/Tests.antt =====
-- The theorems on the state machine at concrete commands and lines.
use sms_server.Base.{
  ◌+◌, ◌≡◌, refl, [], ◌∷◌, ◌++◌, arith, none, some, ok, ltb, if◌then◌else◌, Text, true, false,
}
use sms_server.Text.{codes, message, trim, is_whitespace, starts_with, equal}
use sms_server.Text.Utf8.{as_bytes}
use sms_server.Text.Number.{decimal}
use sms_server.Modem.Types.{
  get_signal_strength, send_sms, send_result, error, incoming_sms, from_header,
}
use sms_server.Modem.Buffer.{LineEvent}
use sms_server.Modem.Commands.{
  write, reply, waiting_for_data, is_complete, new, get_request_timeout,
}
use sms_server.Modem.Handlers.{query_command, command_responder}
use sms_server.Modem.StateMachine.{
  CommandExecution, idle, command, start_command, handle_command_timeout, handle_unsolicited,
  transition_state, answer,
}
use sms_server.Modem.StateMachine.Lines.{IsQuiet, feed_lines, with_buffer}
use sms_server.Modem.StateMachine.Session.{IsLast, query_session}
use sms_server.Modem.StateMachine.SmsSession.{sms_session, confirmation}
use sms_server.Modem.StateMachine.Timeout.{start_command-handle_command_timeout}
use sms_server.Modem.StateMachine.Unsolicited.{unsolicited_transparent}
use sms_server.Modem.StateMachine.Errors.{IsErrorLine, cme, transition_error_line}
use sms_server.Modem.Samples.{crates, env_at, show}

abbrev csq : Text
csq = codes "+CSQ: 15,99"

csq-IsQuiet : IsQuiet waiting_for_data csq
unfolding trim is_whitespace from_header starts_with equal is_complete
csq-IsQuiet = record { no_header = refl; no_end = refl }

ok-IsLast_data : IsLast waiting_for_data (codes "OK\r")
unfolding trim is_whitespace from_header starts_with equal is_complete
ok-IsLast_data = record { no_header = refl; ends = refl }

query_session_example :
    let started = start_command (env_at 5) idle (new 1 8 get_signal_strength none) in
    (started.outputs ≡ write (as_bytes (query_command get_signal_strength)) ∷ [])
    × (feed_lines (env_at 5) show started.state (csq ∷ codes "OK\r" ∷ []) ≡ record {
      state = idle;
      outputs =
          reply 8 (
            answer (env_at 5) (
              command_responder crates get_signal_strength
                ((trim csq ++ codes "\n") ++ trim (codes "OK\r") ++ codes "\n")))
          ∷ [];
      result = ok tt;
    })
query_session_example =
    query_session (env_at 5) show 1 8 get_signal_strength none (csq ∷ []) (codes "OK\r") refl refl
      refl (csq-IsQuiet, tt) ok-IsLast_data

sms_session_example :
    let started = start_command (env_at 5) idle (new 1 8 (send_sms 21 (codes "0011")) none) in
    let prompted = transition_state (env_at 5) show started.state (LineEvent.prompt (codes ">")) in
    let done = feed_lines (env_at 5) show prompted.state (confirmation 44 ∷ codes "OK" ∷ []) in
    (started.outputs ≡ write (as_bytes (codes "AT+CMGS=" ++ decimal 21 ++ codes "\r\n")) ∷ [])
    × (started.result ≡ ok tt)
    × (prompted.outputs ≡ write (as_bytes (codes "0011") ++ 0x1a ∷ []) ∷ [])
    × (prompted.result ≡ ok tt)
    × (done ≡ record { state = idle; outputs = reply 8 (send_result 44) ∷ []; result = ok tt })
sms_session_example =
    sms_session (env_at 5) show 1 8 21 (codes "0011") none (codes ">") 44 refl refl (ground arith)

abbrev waiting : CommandExecution
waiting = record {
  context = record { sequence = 1; state = waiting_for_data; response_buffer = [] };
  command = record {
    sequence = 1;
    request = get_signal_strength;
    timeout = none;
    response_tx = some 8;
  };
  timeout_at = 5_000_000_005;
}

start_command-handle_command_timeout_example :
    let c = new 1 8 get_signal_strength (some 2) in
    let started = (start_command (env_at 5) idle c).state in
    handle_command_timeout (env_at 3_000_000_000) started ≡ (
      if ltb 3_000_000_000 (5 + get_request_timeout c)
      then record { state = started; outputs = []; result = ok false }
      else record {
        state = idle;
        outputs = reply 8 (error (message "Command timed out!")) ∷ [];
        result = ok true;
      })
start_command-handle_command_timeout_example =
    start_command-handle_command_timeout (env_at 5) (env_at 3_000_000_000) 1 8 get_signal_strength
      (some 2) refl refl

cmt_header : from_header (trim (codes "+CMT: ,24")) ≡ some incoming_sms
unfolding trim is_whitespace from_header starts_with equal
cmt_header = refl

cmt_content : from_header (trim (codes "07911326040000F0")) ≡ none
unfolding trim is_whitespace from_header starts_with equal
cmt_content = refl

unsolicited_transparent_example :
    feed_lines (env_at 5) show (command waiting) (codes "+CMT: ,24" ∷ codes "07911326040000F0" ∷ [])
    ≡ record {
      state = command waiting;
      outputs =
          (handle_unsolicited (env_at 5) incoming_sms (trim (codes "07911326040000F0"))).outputs;
      result = ok tt;
    }
unsolicited_transparent_example =
    unsolicited_transparent (env_at 5) show (some waiting) incoming_sms (codes "+CMT: ,24")
      (codes "07911326040000F0") cmt_header cmt_content

error_text : IsErrorLine (trim (codes "+CME ERROR: 10"))
unfolding trim is_whitespace
error_text = cme (codes " 10")

transition_error_line_example :
    transition_state (env_at 5) show (command waiting) (LineEvent.line (codes "+CME ERROR: 10"))
    ≡ record {
      state = command (with_buffer waiting (trim (codes "+CME ERROR: 10") ++ codes "\n"));
      outputs = [];
      result = ok tt;
    }
transition_error_line_example =
    transition_error_line (env_at 5) show waiting 8 (codes "+CME ERROR: 10") refl refl error_text
