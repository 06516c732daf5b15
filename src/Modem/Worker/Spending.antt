-- ===== src/Modem/Worker/Spending.antt =====
-- What is answered and what is still held, through the parts of an arm.
use sms_server.Base.{
  ℕ, ◌+◌, ◌≤◌, inl, inr, List, [], ◌∷◌, ◌++◌, Option, none, some, Result, ok, err, arith,
  Bool-cases, Text,
}
use sms_server.Text.{message}
use sms_server.Modem.Types.{Crates, ModemStatus, online, offline, ModemEvent}
use sms_server.Modem.Buffer.{LineEvent}
use sms_server.Modem.Commands.{Sender, Env}
use sms_server.Modem.StateMachine.{
  StateMachineState, Step, fail_active_command, transition_state, reset_to_idle,
}
use sms_server.Modem.StateMachine.Answers.{held, count, answered}
use sms_server.Modem.StateMachine.Accounting.{
  fail_active_command-accounts, transition_state-accounts,
}
use sms_server.Modem.Worker.{
  WorkerEvent, status_event, write_command, Worker, Effect, stepped, change_status, ◌and_then◌,
  same_status, give_up, handle_worker_event, handle_line_event, handle_line_events, go_offline,
  port_write, recover,
}
use sms_server.Modem.Worker.Replies.{replied, replied-append, replied-leaving}

module _ {x : Crates} (env : Env x) (show : StateMachineState → ModemEvent → Text)
    (tx : Sender) where
  -- What was answered and what is still held, in all.
  abbrev pub spent : Worker × List (Effect x) → ℕ
  spent r = replied tx r.1 + count tx (held r.0.machine)

  pub spent-and_then :
      (r : Worker × List (Effect x)) (f : Worker → Worker × List (Effect x)) (m n : ℕ)
      → spent r ≤ m
      → ((w : Worker) → spent (f w) ≤ count tx (held w.machine) + n)
      → spent (r and_then f) ≤ m + n
  spent-and_then r f m n h k = omega (arith, replied-append tx r.1 (f r.0).1, k r.0)

  pub spent-change_status :
      (w : Worker) (status : ModemStatus)
      → spent (change_status {x = x} w status) ≤ count tx (held w.machine)
  unfolding change_status
  spent-change_status w status = elim (Bool-cases (same_status w.status status)) [
    | inl same ↦ rw same (omega arith)
    | inr other ↦ rw other (omega arith)
  ]

  pub spent-stepped {ℓ} :
      {A : Type ℓ} (w : Worker) (step : Step x A) (n : ℕ)
      → answered tx step.outputs + count tx (held step.state) ≤ n
      → spent (stepped w step) ≤ n
  spent-stepped w step n h = omega (arith, replied-leaving tx step.outputs)

  pub spent-give_up :
      (w : Worker) (reason : Text) → spent (give_up env show w reason) ≤ count tx (held w.machine)
  spent-give_up w reason =
      spent-stepped w (fail_active_command env w.machine reason) _
        (fail_active_command-accounts env tx w.machine reason)

  pub spent-go_offline :
      (w : Worker) (reason : Text)
      → spent (go_offline env show w reason) ≤ count tx (held w.machine)
  spent-go_offline w reason = omega (
    arith,
    spent-and_then (give_up env show w reason) (λ v. change_status v offline) _ 0
        (spent-give_up w reason) (λ v. omega (arith, spent-change_status v offline)),
  )

  pub spent-handle_worker_event :
      (w : Worker) (event : WorkerEvent) (port : Option Text)
      → spent (handle_worker_event env show w event port) ≤ count tx (held w.machine)
  unfolding handle_worker_event
  spent-handle_worker_event w (status_event to) port = spent-change_status w to
  spent-handle_worker_event w (write_command bytes) port =
      elim (Bool-cases (same_status w.status online)) [
        | inl on ↦ rw on (spent-port_write port)
        | inr off ↦ rw off (spent-go_offline w _)
      ]
    where
      spent-port_write :
          (port : Option Text)
          → spent (port_write env show w bytes port) ≤ count tx (held w.machine)
      spent-port_write none = omega arith
      spent-port_write (some e) = spent-go_offline w _

  spent-recover :
      (w : Worker) (r : Result (Unit {0}))
      → spent (recover env show w r) ≤ count tx (held w.machine)
  spent-recover w (ok u) = omega arith
  spent-recover w (err e) = omega (
    arith,
    spent-and_then (give_up env show w (message "State machine error: " ++ e))
        (λ v. (record v { machine = reset_to_idle v.machine }, [])) _ 0 (spent-give_up w _)
        (λ v. unfold reset_to_idle in omega arith),
  )

  spent-handle_line_event :
      (w : Worker) (event : LineEvent)
      → spent (handle_line_event env show w event) ≤ count tx (held w.machine)
  unfolding handle_line_event
  spent-handle_line_event w event =
      let step = transition_state env show w.machine event in
      omega (
        arith,
        spent-and_then (stepped w step) (λ v. recover env show v step.result) _ 0
            (spent-stepped w step _ (transition_state-accounts env tx show w.machine event))
            (λ v. omega (arith, spent-recover v step.result)),
      )

  pub spent-handle_line_events :
      (w : Worker) (events : List LineEvent)
      → spent (handle_line_events env show w events) ≤ count tx (held w.machine)
  unfolding handle_line_events
  spent-handle_line_events w [] = omega arith
  spent-handle_line_events w (event ∷ events) = omega (
    arith,
    spent-and_then (handle_line_event env show w event) (λ v. handle_line_events env show v events)
        _ 0 (spent-handle_line_event w event)
        (λ v. omega (arith, spent-handle_line_events v events)),
  )
