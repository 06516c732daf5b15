-- ===== src/Modem/Worker/Offline.antt =====
-- While the modem is offline the state machine holds no command.
use sms_server.Base.{
  ◌≡◌, refl, sym, subst, Bool, true, false, List, [], ◌∷◌, inl, inr, Option, none, Bool-cases, Text,
}
use sms_server.Text.{message}
use sms_server.Modem.Types.{
  Crates, ModemStatus, startup, online, shutting_down, offline, ModemEvent,
}
use sms_server.Modem.Buffer.{process_data}
use sms_server.Modem.Commands.{Env, OutgoingCommand}
use sms_server.Modem.StateMachine.{
  StateMachineState, start_command, handle_command_timeout, reset_to_idle, can_accept_command,
}
use sms_server.Modem.StateMachine.Holds.{start_command-Own, handle_command_timeout-Own}
use sms_server.Modem.Worker.{
  WorkerEvent, Worker, stepped, change_status, Arm, worker_event, incoming_command, read_bytes,
  read_closed, read_failed, timeout_tick, shut_down, reconnect_tick, give_up, handle_worker_event,
  read, drain_events, reject, online_arm, turn, run, no_event, reset, next_event, reconnect,
  shut_down_all,
}
use sms_server.Modem.Worker.Invariant.{
  AllOwn, Inv, Empty, Empty-Inv, change_status-Empty, change_status-Inv, stepped-Own, give_up-Empty,
  go_offline-Empty, handle_worker_event-Inv, handle_line_events-Inv,
}

module _ {x : Crates} (env : Env x) (show : StateMachineState → ModemEvent → Text) where
  drain_events-Inv :
      (w : Worker) (events : List WorkerEvent)
      → AllOwn events
      → Inv w
      → Inv (drain_events env show w events).0
  unfolding drain_events
  drain_events-Inv w [] o h = h
  drain_events-Inv w (event ∷ events) o h =
      drain_events-Inv (handle_worker_event env show w event none).0 events o.1
        (handle_worker_event-Inv env show w event none o.0 h)

  reject-same :
      (reason : Text) (w : Worker) (cs : List OutgoingCommand) → (reject env show reason w cs).0 ≡ w
  unfolding reject
  reject-same reason w [] = refl
  reject-same reason w (c ∷ cs) = reject-same reason w cs

  reset-Empty : (w : Worker) → AllOwn w.events → Empty (reset env show w).0
  reset-Empty w h = record { own = h; empty = unfold reset_to_idle in refl }

  next_event-Inv :
      (w : Worker) (events : List WorkerEvent) (port : Option Text)
      → AllOwn events
      → Inv w
      → Inv (next_event env show w events port).0
  next_event-Inv w [] port o h = h
  next_event-Inv w (event ∷ events) port o h =
      handle_worker_event-Inv env show (record w { events = events }) event port o.0
        (record { own = o.1; offline_empty = h.offline_empty })

  reconnect-Inv :
      (w : Worker) (connected initialized : Bool)
      → Inv w
      → Inv (reconnect env show w connected initialized).0
  reconnect-Inv w true true h = Empty-Inv env show (
      reset-Empty (change_status {x = x} w online).0
        (change_status-Inv env show w online refl h).own)
  reconnect-Inv w true false h = h
  reconnect-Inv w false initialized h = h

  shut_down_all-Inv :
      (w : Worker) (pending : List OutgoingCommand)
      → Inv w
      → Inv (shut_down_all env show w pending).0
  shut_down_all-Inv w pending h =
      let shutting = message "Modem is shutting down" in
      let drained = (drain_events env show (record w { events = [] }) w.events).0 in
      let given_up = (give_up env show drained shutting).0 in
      let d : Inv drained =
        drain_events-Inv (record w { events = [] }) w.events h.own
          (record { own = tt; offline_empty = h.offline_empty }) in
      let r : Empty (reject env show shutting given_up pending).0 =
        subst Empty (sym (reject-same shutting given_up pending))
          (give_up-Empty env show drained shutting d.own) in
      Empty-Inv env show (reset-Empty _ (change_status-Empty env show _ offline r).own)

  start_command-Inv :
      (w : Worker) (c : OutgoingCommand)
      → w.status ≡ online
      → Inv w
      → Inv (stepped w (start_command env w.machine c)).0
  start_command-Inv w c on h = record {
    own =
        stepped-Own env show w (start_command env w.machine c) h.own
          (start_command-Own env w.machine c);
    offline_empty = rw on refl;
  }

  online_arm-Inv :
      (w : Worker) (arm : Arm) → w.status ≡ online → Inv w → Inv (online_arm env show w arm).0
  unfolding online_arm read
  online_arm-Inv w (incoming_command c) on h = elim (Bool-cases (can_accept_command w.machine)) [
    | inl free ↦ rw free (start_command-Inv w c on h)
    | inr busy ↦ rw busy h
  ]
  online_arm-Inv w (read_bytes bytes) on h =
      let r = process_data w.line_buffer bytes in
      handle_line_events-Inv env show (record w { line_buffer = r.0 }) r.1
        (record { own = h.own; offline_empty = h.offline_empty })
  online_arm-Inv w read_closed on h = Empty-Inv env show (go_offline-Empty env show w _ h.own)
  online_arm-Inv w (read_failed e) on h = Empty-Inv env show (go_offline-Empty env show w _ h.own)
  online_arm-Inv w timeout_tick on h = record {
    own =
        stepped-Own env show w (handle_command_timeout env w.machine) h.own
          (handle_command_timeout-Own env w.machine);
    offline_empty = rw on refl;
  }
  online_arm-Inv w (worker_event port) on h = h
  online_arm-Inv w (shut_down pending) on h = h
  online_arm-Inv w (reconnect_tick connected initialized) on h = h

  turn-Inv :
      (status : ModemStatus) (w : Worker) (arm : Arm)
      → w.status ≡ status
      → Inv w
      → Inv (turn env show status w arm).0
  unfolding turn
  turn-Inv online w (worker_event port) on h = next_event-Inv w w.events port h.own h
  turn-Inv online w arm on h = elim (Bool-cases (no_event env show w.events)) [
    | inl free ↦ rw free (online_arm-Inv w arm on h)
    | inr busy ↦ rw busy h
  ]
  turn-Inv shutting_down w (shut_down pending) on h = shut_down_all-Inv w pending h
  turn-Inv offline w (worker_event port) on h = next_event-Inv w w.events port h.own h
  turn-Inv offline w (incoming_command c) on h =
      subst Inv (sym (reject-same (message "Modem is offline") w (c ∷ []))) h
  turn-Inv offline w (reconnect_tick connected initialized) on h =
      reconnect-Inv w connected initialized h
  turn-Inv startup w arm on h = h
  turn-Inv _ w arm on h = h

-- A run of the worker keeps the invariant `Inv`: among the worker's queued events the only change
-- of the status is to shut down, and while the status is offline the machine holds no command,
-- neither active nor interrupted.
pub run-Inv :
    {x : Crates} (show : StateMachineState → ModemEvent → Text) (w : Worker)
    (arms : List (Env x × Arm))
    → Inv w
    → Inv (run show w arms).0
unfolding run
run-Inv show w [] h = h
run-Inv show w ((env, arm) ∷ arms) h =
    run-Inv show (turn env show w.status w arm).0 arms (turn-Inv env show w.status w arm refl h)
