-- ===== src/Modem/Worker/Tests.antt =====
-- The theorems on the worker at a concrete run.
use sms_server.Base.{◌+◌, ◌≤◌, ◌≡◌, refl, true, List, [], ◌∷◌, none, some}
use sms_server.Text.{codes, trim, is_whitespace, starts_with, equal}
use sms_server.Modem.Types.{get_signal_strength, online, incoming_sms, from_header}
use sms_server.Modem.Buffer.{LineEvent}
use sms_server.Modem.Commands.{Env, waiting_for_data, OutgoingCommand}
use sms_server.Modem.StateMachine.{CommandExecution, idle, unsolicited}
use sms_server.Modem.StateMachine.Answers.{held, count}
use sms_server.Modem.Worker.{
  Worker, Arm, incoming_command, worker_event, read_bytes, read_closed, handle_line_event, run,
}
use sms_server.Modem.Worker.Replies.{replied}
use sms_server.Modem.Worker.Accounting.{run-accounts}
use sms_server.Modem.Worker.Invariant.{Inv}
use sms_server.Modem.Worker.Offline.{run-Inv}
use sms_server.Modem.Worker.Recovery.{is_intruder, handle_line_event-is_intruder}
use sms_server.Modem.Samples.{crates, env_at, show}

abbrev worker : Worker
worker = record {
  status = online;
  machine = idle;
  events = [];
  line_buffer = record { buffer = []; max_buffer_size = 64 };
}

abbrev query : OutgoingCommand
query = record { sequence = 1; request = get_signal_strength; timeout = none; response_tx = some 8 }

-- A query, its answer, another query that the port's end cuts short, and one that is rejected.
abbrev arms : List (Env crates × Arm)
arms =
    (env_at 5, incoming_command query)
    ∷ (env_at 6, worker_event none)
    ∷ (env_at 7, read_bytes (codes "+CSQ: 15,99\r\nOK\r\n"))
    ∷ (env_at 8, incoming_command query)
    ∷ (env_at 9, worker_event none)
    ∷ (env_at 10, read_closed)
    ∷ (env_at 11, incoming_command query)
    ∷ []

run-accounts_example :
    replied 8 (run show worker arms).1 + count 8 (held (run show worker arms).0.machine) ≤ 3
run-accounts_example = run-accounts show 8 worker arms

run-Inv_example : Inv (run show worker arms).0
run-Inv_example = run-Inv show worker arms (record { own = tt; offline_empty = refl })

abbrev interrupted : CommandExecution
interrupted = record {
  context = record { sequence = 1; state = waiting_for_data; response_buffer = [] };
  command = query;
  timeout_at = 5_000_000_005;
}

abbrev awaiting : Worker
awaiting = record worker { machine = unsolicited incoming_sms (some interrupted) }

next_header : is_intruder (LineEvent.line (codes "+CMT: ,24")) ≡ true
unfolding trim is_whitespace from_header starts_with equal
next_header = refl

handle_line_event-is_intruder_example :
    handle_line_event (env_at 5) show awaiting (LineEvent.line (codes "+CMT: ,24"))
    ≡ (record awaiting { machine = idle }, [])
handle_line_event-is_intruder_example =
    handle_line_event-is_intruder (env_at 5) show awaiting incoming_sms interrupted
      (LineEvent.line (codes "+CMT: ,24")) refl next_header
