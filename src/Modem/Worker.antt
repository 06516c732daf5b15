-- ===== src/Modem/Worker.antt =====
-- src/modem/worker.rs: the task that owns the serial port, arm by arm of its `select!`.
--
-- What the serial port and the channels do is given with each arm. The worker's own event channel
-- is the queue `events`, which its handlers fill and which the arm of worker events empties.
pub mod Replies
pub mod Spending
pub mod Accounting
pub mod Invariant
pub mod Offline
pub mod Recovery
pub mod Startup
mod Tests
use sms_server.Base.{
  ℕ, Bool, true, false, not, ◌&&◌, List, [], ◌∷◌, ◌++◌, Option, none, some, Result, ok, err,
  if◌then◌else◌, Text, Bytes,
}
use sms_server.Text.{message}
use sms_server.Modem.Types.{
  Crates, ModemResponse, error, ModemStatus, startup, online, shutting_down, offline, ModemEvent,
  modem_status_update,
}
use sms_server.Modem.Buffer.{LineEvent, LineBuffer, with_max_size, clear, process_data}
use sms_server.Modem.Commands.{
  Output, write, set_status, reply, notify, Env, OutgoingCommand, respond,
}
use sms_server.Modem.StateMachine.{
  StateMachineState, idle, can_accept_command, reset_to_idle, Step, fail_active_command,
  start_command, handle_command_timeout, transition_state,
}

pub data WorkerEvent : Type 0 where
  status_event : ModemStatus → WorkerEvent
  write_command : Bytes → WorkerEvent

-- `status`, `state_machine` and `worker_event_rx` of `ModemWorker`, and `line_buffer` of `run`.
pub record Worker : Type 0 where
  pub status : ModemStatus
  pub machine : StateMachineState
  pub events : List WorkerEvent
  pub line_buffer : LineBuffer

-- What leaves the worker: bytes on the serial port, or an answer or a message as it is sent.
pub data Effect (x : Crates) : Type 0 where
  serial : Bytes → Effect x
  sent : Output x → Effect x

abbrev pub same_status : ModemStatus → ModemStatus → Bool
same_status startup startup = true
same_status online online = true
same_status shutting_down shutting_down = true
same_status offline offline = true
same_status _ _ = false

module _ {x : Crates} where
  -- The worker's own events among what the state machine sends.
  abbrev pub queued : List (Output x) → List WorkerEvent
  queued [] = []
  queued (write bytes ∷ os) = write_command bytes ∷ queued os
  queued (set_status to ∷ os) = status_event to ∷ queued os
  queued (reply tx response ∷ os) = queued os
  queued (notify message ∷ os) = queued os

  -- The rest of it.
  abbrev pub leaving : List (Output x) → List (Effect x)
  leaving [] = []
  leaving (write bytes ∷ os) = leaving os
  leaving (set_status to ∷ os) = leaving os
  leaving (reply tx response ∷ os) = sent (reply tx response) ∷ leaving os
  leaving (notify message ∷ os) = sent (notify message) ∷ leaving os

  -- The worker behind a call of the state machine.
  abbrev pub stepped {ℓ} : {A : Type ℓ} → Worker → Step x A → Worker × List (Effect x)
  stepped w step = (
    record w { machine = step.state; events = w.events ++ queued step.outputs },
    leaving step.outputs,
  )

  unfoldable pub change_status : Worker → ModemStatus → Worker × List (Effect x)
  change_status w status =
      if same_status w.status status
      then (w, [])
      else (record w { status = status }, sent (notify (modem_status_update w.status status)) ∷ [])

  -- One part of an arm, then the next.
  infixl 5 ◌and_then◌
  abbrev pub ◌and_then◌ :
      Worker × List (Effect x) → (Worker → Worker × List (Effect x)) → Worker × List (Effect x)
  r and_then f = ((f r.0).0, r.1 ++ (f r.0).1)

-- What the environment does, and which arm it wakes. A write to the port, or a read, may fail
-- with an error's text.
pub data Arm : Type 0 where
  worker_event : Option Text → Arm
  incoming_command : OutgoingCommand → Arm
  read_bytes : Bytes → Arm
  read_closed : Arm
  read_failed : Text → Arm
  timeout_tick : Arm
  shut_down : List OutgoingCommand → Arm
  reconnect_tick : Bool → Bool → Arm

module _ {x : Crates} (env : Env x) (show : StateMachineState → ModemEvent → Text) where
  abbrev pub give_up : Worker → Text → Worker × List (Effect x)
  give_up w reason = stepped w (fail_active_command env w.machine reason)

  abbrev write_failed : Worker → Text → Worker × List (Effect x)
  write_failed w e = give_up w (message "Write failed: " ++ e) and_then λ v. change_status v offline

  abbrev port_write : Worker → Bytes → Option Text → Worker × List (Effect x)
  port_write w bytes none = (w, serial bytes ∷ [])
  port_write w bytes (some e) = write_failed w e

  -- `handle_worker_event`, with `write` and its check of the status; the last argument is the
  -- error of the port, if the write fails.
  unfoldable pub handle_worker_event : Worker → WorkerEvent → Option Text → Worker × List (Effect x)
  unfolding change_status
  handle_worker_event w (status_event status) port = change_status w status
  handle_worker_event w (write_command bytes) port =
      if not (same_status w.status online)
      then write_failed w (message "Modem is offline")
      else port_write w bytes port

  abbrev recover : Worker → Result (Unit {0}) → Worker × List (Effect x)
  recover w (ok u) = (w, [])
  recover w (err e) = give_up w (message "State machine error: " ++ e) and_then λ v.
      (record v { machine = reset_to_idle v.machine }, [])

  -- One line event of a read: the transition, and what the loop does if it fails.
  unfoldable pub handle_line_event : Worker → LineEvent → Worker × List (Effect x)
  handle_line_event w event =
      let step = transition_state env show w.machine event in
      stepped w step and_then λ v. recover v step.result

  unfoldable pub handle_line_events : Worker → List LineEvent → Worker × List (Effect x)
  handle_line_events w [] = (w, [])
  handle_line_events w (event ∷ events) =
      handle_line_event w event and_then λ v. handle_line_events v events

  unfoldable pub read : Worker → Bytes → Worker × List (Effect x)
  read w bytes =
      let (line_buffer, events) = process_data w.line_buffer bytes in
      handle_line_events (record w { line_buffer = line_buffer }) events

  -- `while let Ok(event) = try_recv()`: the handlers add no event of their own.
  unfoldable pub drain_events : Worker → List WorkerEvent → Worker × List (Effect x)
  drain_events w [] = (w, [])
  drain_events w (event ∷ events) =
      handle_worker_event w event none and_then λ v. drain_events v events

  unfoldable pub reject : Text → Worker → List OutgoingCommand → Worker × List (Effect x)
  reject reason w [] = (w, [])
  reject reason w (c ∷ cs) =
      (w, leaving (respond env c (error reason)).1.outputs) and_then λ v. reject reason v cs

  -- What `handle_command_timeout` returned, with an error as `false`.
  abbrev clear_if : Result Bool → LineBuffer → LineBuffer
  clear_if (ok true) b = clear b
  clear_if (ok false) b = b
  clear_if (err e) b = b

  abbrev reset : Worker → Worker × List (Effect x)
  reset w = (record w { machine = reset_to_idle w.machine; line_buffer = clear w.line_buffer }, [])

  -- `try_reconnect`, for the results of the connection test and of the initialization, and what
  -- the loop does if it succeeds.
  abbrev reconnect : Worker → Bool → Bool → Worker × List (Effect x)
  reconnect w connected initialized =
      if connected && initialized then change_status w online and_then reset else (w, [])

  abbrev next_event : Worker → List WorkerEvent → Option Text → Worker × List (Effect x)
  next_event w [] port = (w, [])
  next_event w (event ∷ events) port = handle_worker_event (record w { events = events }) event port

  abbrev go_offline : Worker → Text → Worker × List (Effect x)
  go_offline w reason = give_up w reason and_then λ v. change_status v offline

  -- The arms of the loop while online, behind that of the worker's own events.
  unfoldable pub online_arm : Worker → Arm → Worker × List (Effect x)
  online_arm w (incoming_command c) =
      if can_accept_command w.machine then stepped w (start_command env w.machine c) else (w, [])
  online_arm w (read_bytes bytes) = read w bytes
  online_arm w read_closed = go_offline w (message "Serial port closed")
  online_arm w (read_failed e) = go_offline w (message "Read error: " ++ e)
  online_arm w timeout_tick =
      let step = handle_command_timeout env w.machine in
      stepped w step and_then λ v.
      (record v { line_buffer = clear_if step.result v.line_buffer }, [])
  online_arm w _ = (w, [])

  abbrev no_event : List WorkerEvent → Bool
  no_event [] = true
  no_event (e ∷ es) = false

  abbrev shut_down_all : Worker → List OutgoingCommand → Worker × List (Effect x)
  shut_down_all w pending =
      drain_events (record w { events = [] }) w.events
      and_then (λ v. give_up v (message "Modem is shutting down"))
      and_then (λ v. reject (message "Modem is shutting down") v pending)
      and_then (λ v. change_status v offline)
      and_then reset

  -- One turn of the loop. `biased`: no other arm runs while one of the worker's own events is
  -- queued. An arm that the status rules out does nothing.
  unfoldable pub turn : ModemStatus → Worker → Arm → Worker × List (Effect x)
  turn online w (worker_event port) = next_event w w.events port
  turn online w arm = if no_event w.events then online_arm w arm else (w, [])
  turn shutting_down w (shut_down pending) = shut_down_all w pending
  turn offline w (worker_event port) = next_event w w.events port
  turn offline w (incoming_command c) = reject (message "Modem is offline") w (c ∷ [])
  turn offline w (reconnect_tick connected initialized) = reconnect w connected initialized
  turn _ w _ = (w, [])

-- `run`, over any sequence of arms, each with the clock and the channels as they are then.
unfoldable pub run :
    {x : Crates}
    → (StateMachineState → ModemEvent → Text)
    → Worker
    → List (Env x × Arm)
    → Worker × List (Effect x)
run show w [] = (w, [])
run show w ((env, arm) ∷ arms) = turn env show w.status w arm and_then λ v. run show v arms
