-- ===== src/Modem/Worker/Accounting.antt =====
-- Over any run of the worker, a command's caller is answered at most once.
use sms_server.Base.{
  ◌+◌, ◌≤◌, inl, inr, Bool, true, false, List, [], ◌∷◌, ◌++◌, Option, none, arith, Bool-cases, Text,
}
use sms_server.Text.{message}
use sms_server.Modem.Types.{
  Crates, error, ModemStatus, startup, online, shutting_down, offline, ModemEvent,
}
use sms_server.Modem.Buffer.{process_data}
use sms_server.Modem.Commands.{Sender, Env, OutgoingCommand, respond}
use sms_server.Modem.StateMachine.{
  StateMachineState, start_command, handle_command_timeout, reset_to_idle, can_accept_command,
}
use sms_server.Modem.StateMachine.Answers.{to_list, held, count, answered-respond}
use sms_server.Modem.StateMachine.Accounting.{
  handle_command_timeout-accounts, start_command-accounts,
}
use sms_server.Modem.Worker.{
  WorkerEvent, Worker, leaving, change_status, ◌and_then◌, Arm, worker_event, incoming_command,
  read_bytes, read_closed, read_failed, timeout_tick, shut_down, reconnect_tick, give_up,
  handle_worker_event, read, drain_events, reject, online_arm, turn, run, no_event, reset,
  next_event, reconnect, shut_down_all,
}
use sms_server.Modem.Worker.Replies.{
  replied, replied-append, replied-leaving, brought_by, brought, all_brought, count-append,
}
use sms_server.Modem.Worker.Spending.{
  spent, spent-and_then, spent-change_status, spent-stepped, spent-give_up, spent-go_offline,
  spent-handle_worker_event, spent-handle_line_events,
}

module _ {x : Crates} (env : Env x) (show : StateMachineState → ModemEvent → Text)
    (tx : Sender) where
  spent-drain_events :
      (w : Worker) (events : List WorkerEvent)
      → spent env show tx (drain_events env show w events) ≤ count tx (held w.machine)
  unfolding drain_events
  spent-drain_events w [] = omega arith
  spent-drain_events w (event ∷ events) = omega (
    arith,
    spent-and_then env show tx (handle_worker_event env show w event none)
        (λ v. drain_events env show v events) _ 0
        (spent-handle_worker_event env show tx w event none)
        (λ v. omega (arith, spent-drain_events v events)),
  )

  spent-reject :
      (reason : Text) (w : Worker) (cs : List OutgoingCommand)
      → spent env show tx (reject env show reason w cs)
        ≤ count tx (held w.machine) + count tx (brought_by cs)
  unfolding reject
  spent-reject reason w [] = omega arith
  spent-reject reason w (c ∷ cs) =
      let response = respond env c (error reason) in
      omega (
        arith,
        spent-and_then env show tx (w, leaving response.1.outputs)
            (λ v. reject env show reason v cs)
            (count tx (held w.machine) + count tx (to_list c.response_tx))
            (count tx (brought_by cs))
            (omega (
              arith,
              replied-leaving tx response.1.outputs,
              answered-respond env tx c (error reason),
            ))
            (λ v. spent-reject reason v cs),
        count-append tx (to_list c.response_tx) (brought_by cs),
      )

  spent-reset : (w : Worker) → spent env show tx (reset env show w) ≤ count tx (held w.machine)
  spent-reset w = unfold reset_to_idle in omega arith

  spent-next_event :
      (w : Worker) (events : List WorkerEvent) (port : Option Text)
      → spent env show tx (next_event env show w events port) ≤ count tx (held w.machine)
  spent-next_event w [] port = omega arith
  spent-next_event w (event ∷ events) port =
      spent-handle_worker_event env show tx (record w { events = events }) event port

  spent-reconnect :
      (w : Worker) (connected initialized : Bool)
      → spent env show tx (reconnect env show w connected initialized) ≤ count tx (held w.machine)
  spent-reconnect w true true = omega (
    arith,
    spent-and_then env show tx (change_status w online) (reset env show) _ 0
        (spent-change_status env show tx w online) (λ v. omega (arith, spent-reset v)),
  )
  spent-reconnect w true false = omega arith
  spent-reconnect w false initialized = omega arith

  spent-shut_down_all :
      (w : Worker) (pending : List OutgoingCommand)
      → spent env show tx (shut_down_all env show w pending)
        ≤ count tx (held w.machine) + count tx (brought_by pending)
  spent-shut_down_all w pending =
      let shutting = message "Modem is shutting down" in
      let r₁ = drain_events env show (record w { events = [] }) w.events in
      let r₂ = r₁ and_then (λ v. give_up env show v shutting) in
      let r₃ = r₂ and_then (λ v. reject env show shutting v pending) in
      let r₄ = r₃ and_then (λ v. change_status v offline) in
      let drained = spent-drain_events (record w { events = [] }) w.events in
      let given_up : spent env show tx r₂ ≤ _ =
        spent-and_then env show tx r₁ (λ v. give_up env show v shutting) _ 0 drained
          (λ v. omega (arith, spent-give_up env show tx v shutting)) in
      let rejected : spent env show tx r₃ ≤ _ =
        spent-and_then env show tx r₂ (λ v. reject env show shutting v pending) _
          (count tx (brought_by pending)) given_up (λ v. spent-reject shutting v pending) in
      let down : spent env show tx r₄ ≤ _ =
        spent-and_then env show tx r₃ (λ v. change_status v offline) _ 0 rejected
          (λ v. omega (arith, spent-change_status env show tx v offline)) in
      omega (
        arith,
        spent-and_then env show tx r₄ (reset env show) _ 0 down (λ v. omega (arith, spent-reset v)),
      )

  spent-online_arm :
      (w : Worker) (arm : Arm)
      → spent env show tx (online_arm env show w arm)
        ≤ count tx (held w.machine) + count tx (brought arm)
  unfolding online_arm read
  spent-online_arm w (incoming_command c) = elim (Bool-cases (can_accept_command w.machine)) [
    | inl free ↦ rw free (
        spent-stepped env show tx w (start_command env w.machine c) _
          (start_command-accounts env tx w.machine c))
    | inr busy ↦ rw busy (omega arith)
  ]
  spent-online_arm w (read_bytes bytes) =
      let r = process_data w.line_buffer bytes in
      omega (arith, spent-handle_line_events env show tx (record w { line_buffer = r.0 }) r.1)
  spent-online_arm w read_closed =
      omega (arith, spent-go_offline env show tx w (message "Serial port closed"))
  spent-online_arm w (read_failed e) =
      omega (arith, spent-go_offline env show tx w (message "Read error: " ++ e))
  spent-online_arm w timeout_tick =
      let step = handle_command_timeout env w.machine in
      omega (
        arith,
        replied-append tx (leaving step.outputs) [],
        spent-stepped env show tx w step _ (handle_command_timeout-accounts env tx w.machine),
      )
  spent-online_arm w (worker_event port) = omega arith
  spent-online_arm w (shut_down pending) = omega arith
  spent-online_arm w (reconnect_tick connected initialized) = omega arith

  -- One turn of the loop.
  spent-turn :
      (status : ModemStatus) (w : Worker) (arm : Arm)
      → spent env show tx (turn env show status w arm)
        ≤ count tx (held w.machine) + count tx (brought arm)
  unfolding turn
  spent-turn online w (worker_event port) = omega (arith, spent-next_event w w.events port)
  spent-turn online w arm = elim (Bool-cases (no_event env show w.events)) [
    | inl free ↦ rw free (spent-online_arm w arm)
    | inr busy ↦ rw busy (omega arith)
  ]
  spent-turn shutting_down w (shut_down pending) = spent-shut_down_all w pending
  spent-turn offline w (worker_event port) = omega (arith, spent-next_event w w.events port)
  spent-turn offline w (incoming_command c) = omega (
    arith,
    spent-reject (message "Modem is offline") w (c ∷ []),
    count-append tx (to_list c.response_tx) [],
  )
  spent-turn offline w (reconnect_tick connected initialized) =
      omega (arith, spent-reconnect w connected initialized)
  spent-turn startup w arm = omega arith
  spent-turn _ w arm = omega arith

-- Over any run of the worker, whatever the modem, the port, the clock and the callers do: the
-- responses on a channel and the commands that still hold it are together at most as many as
-- those that held it at first and the commands that came in with it.
pub run-accounts :
    {x : Crates} (show : StateMachineState → ModemEvent → Text) (tx : Sender) (w : Worker)
    (arms : List (Env x × Arm))
    → let r = run show w arms in
      replied tx r.1 + count tx (held r.0.machine)
      ≤ count tx (held w.machine) + count tx (all_brought arms)
unfolding run
run-accounts show tx w [] = omega arith
run-accounts show tx w ((env, arm) ∷ arms) =
    let first = turn env show w.status w arm in
    omega (
      arith,
      spent-turn env show tx w.status w arm,
      run-accounts show tx first.0 arms,
      replied-append tx first.1 (run show first.0 arms).1,
      count-append tx (brought arm) (all_brought arms),
    )
