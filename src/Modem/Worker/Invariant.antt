-- ===== src/Modem/Worker/Invariant.antt =====
-- The worker's invariant, and the parts of an arm that keep it.
use sms_server.Base.{
  ◌≡◌, refl, Bool, true, false, ◌&&◌, List, [], ◌∷◌, ◌++◌, inl, inr, Option, none, some, Result, ok,
  err, All, arith, Bool-cases, Text, Bytes,
}
use sms_server.Text.{message}
use sms_server.Modem.Types.{
  Crates, ModemStatus, startup, online, shutting_down, offline, ModemEvent,
}
use sms_server.Modem.Buffer.{LineEvent}
use sms_server.Modem.Commands.{Output, write, set_status, reply, notify, Env}
use sms_server.Modem.StateMachine.{
  StateMachineState, Step, fail_active_command, transition_state, reset_to_idle,
}
use sms_server.Modem.StateMachine.Holds.{
  holds_command, Own, transition_state-Own, holds_command-transition_state, fail_active_command-Own,
  holds_command-fail_active_command,
}
use sms_server.Modem.Worker.{
  WorkerEvent, status_event, write_command, Worker, queued, stepped, change_status, same_status,
  give_up, handle_worker_event, handle_line_event, handle_line_events, go_offline, port_write,
  recover,
}

-- The handlers ask for no other change of the status than to shut down.
abbrev is_own_event : WorkerEvent → Bool
is_own_event (write_command bytes) = true
is_own_event (status_event shutting_down) = true
is_own_event (status_event _) = false

abbrev pub AllOwn : List WorkerEvent → Type 0
AllOwn = All (λ e. is_own_event e ≡ true)

AllOwn-append : (xs ys : List WorkerEvent) → AllOwn xs → AllOwn ys → AllOwn (xs ++ ys)
AllOwn-append [] ys h k = k
AllOwn-append (x ∷ xs) ys h k = (h.0, AllOwn-append xs ys h.1 k)

queued-AllOwn : {x : Crates} (os : List (Output x)) → Own os → AllOwn (queued os)
queued-AllOwn [] h = tt
queued-AllOwn (write bytes ∷ os) h = (refl, queued-AllOwn os h.1)
queued-AllOwn (set_status shutting_down ∷ os) h = (refl, queued-AllOwn os h.1)
queued-AllOwn (set_status startup ∷ os) h = cc
queued-AllOwn (set_status online ∷ os) h = cc
queued-AllOwn (set_status offline ∷ os) h = cc
queued-AllOwn (reply tx response ∷ os) h = queued-AllOwn os h.1
queued-AllOwn (notify message ∷ os) h = queued-AllOwn os h.1

-- Every queued event is the handlers' own, and an offline modem has no command to answer.
pub record Inv (w : Worker) : Type 0 where
  pub own : AllOwn w.events
  pub offline_empty : (same_status w.status offline && holds_command w.machine) ≡ false

-- A machine that holds no command, whatever the status.
pub record Empty (w : Worker) : Type 0 where
  pub own : AllOwn w.events
  pub empty : holds_command w.machine ≡ false

module _ {x : Crates} (env : Env x) (show : StateMachineState → ModemEvent → Text) where
  pub Empty-Inv : {w : Worker} → Empty w → Inv w
  Empty-Inv e = record { own = e.own; offline_empty = ground (arith, e.empty) }

  pub change_status-Empty :
      (w : Worker) (to : ModemStatus) → Empty w → Empty (change_status {x = x} w to).0
  unfolding change_status
  change_status-Empty w to e = record {
    own = ground (arith, e.own);
    empty = ground (arith, e.empty);
  }

  pub change_status-Inv :
      (w : Worker) (to : ModemStatus)
      → same_status to offline ≡ false
      → Inv w
      → Inv (change_status {x = x} w to).0
  unfolding change_status
  change_status-Inv w to n h = record {
    own = ground (arith, h.own);
    offline_empty = ground (arith, h.offline_empty);
  }

  pub stepped-Own {ℓ} :
      {A : Type ℓ} (w : Worker) (step : Step x A)
      → AllOwn w.events
      → Own step.outputs
      → AllOwn (stepped w step).0.events
  stepped-Own w step h k =
      AllOwn-append w.events (queued step.outputs) h (queued-AllOwn step.outputs k)

  pub give_up-Empty :
      (w : Worker) (reason : Text) → AllOwn w.events → Empty (give_up env show w reason).0
  give_up-Empty w reason h = record {
    own =
        stepped-Own w (fail_active_command env w.machine reason) h
          (fail_active_command-Own env w.machine reason);
    empty = holds_command-fail_active_command env w.machine reason;
  }

  pub go_offline-Empty :
      (w : Worker) (reason : Text) → AllOwn w.events → Empty (go_offline env show w reason).0
  go_offline-Empty w reason h = change_status-Empty _ offline (give_up-Empty w reason h)

  port_write-Inv :
      (w : Worker) (bytes : Bytes) (port : Option Text)
      → Inv w
      → Inv (port_write env show w bytes port).0
  port_write-Inv w bytes none h = h
  port_write-Inv w bytes (some e) h = Empty-Inv (go_offline-Empty w _ h.own)

  pub handle_worker_event-Inv :
      (w : Worker) (event : WorkerEvent) (port : Option Text)
      → is_own_event event ≡ true
      → Inv w
      → Inv (handle_worker_event env show w event port).0
  unfolding handle_worker_event
  handle_worker_event-Inv w (status_event shutting_down) port o h =
      change_status-Inv w shutting_down refl h
  handle_worker_event-Inv w (status_event startup) port o h = cc
  handle_worker_event-Inv w (status_event online) port o h = cc
  handle_worker_event-Inv w (status_event offline) port o h = cc
  handle_worker_event-Inv w (write_command bytes) port o h =
      elim (Bool-cases (same_status w.status online)) [
        | inl on ↦ rw on (port_write-Inv w bytes port h)
        | inr off ↦ rw off (Empty-Inv (go_offline-Empty w _ h.own))
      ]

  recover-Inv : (w : Worker) (r : Result (Unit {0})) → Inv w → Inv (recover env show w r).0
  recover-Inv w (ok u) h = h
  recover-Inv w (err e) h = Empty-Inv (record {
    own = (give_up-Empty w (message "State machine error: " ++ e) h.own).own;
    empty = unfold reset_to_idle in refl;
  })

  transition-Inv :
      (w : Worker) (event : LineEvent)
      → Inv w
      → Inv (stepped w (transition_state env show w.machine event)).0
  transition-Inv w event h = record {
    own =
        stepped-Own w (transition_state env show w.machine event) h.own
          (transition_state-Own env show w.machine event);
    offline_empty =
        ground (arith, h.offline_empty, holds_command-transition_state env show w.machine event);
  }

  handle_line_event-Inv :
      (w : Worker) (event : LineEvent) → Inv w → Inv (handle_line_event env show w event).0
  unfolding handle_line_event
  handle_line_event-Inv w event h = recover-Inv _ _ (transition-Inv w event h)

  pub handle_line_events-Inv :
      (w : Worker) (events : List LineEvent) → Inv w → Inv (handle_line_events env show w events).0
  unfolding handle_line_events
  handle_line_events-Inv w [] h = h
  handle_line_events-Inv w (event ∷ events) h =
      handle_line_events-Inv (handle_line_event env show w event).0 events
        (handle_line_event-Inv w event h)
