-- ===== src/Modem/Worker/Startup/Waiting.antt =====
-- The worker's loop behind an initialization that failed.
use sms_server.Base.{
  ◌≡◌, refl, Bool, true, not, ◌&&◌, List, [], ◌∷◌, ◌++◌, append_assoc, Option, none, some, arith,
  all, Text, Bool-cases, Option-cases, inl, inr, if◌then◌else◌,
}
use sms_server.Text.{message}
use sms_server.Modem.Types.{Crates, ModemEvent, offline, error}
use sms_server.Modem.Commands.{Env, OutgoingCommand, Sender, reply, respond}
use sms_server.Modem.StateMachine.{StateMachineState}
use sms_server.Modem.Worker.{
  Worker, Effect, sent, ◌and_then◌, Arm, worker_event, incoming_command, read_bytes, read_closed,
  read_failed, timeout_tick, shut_down, reconnect_tick, turn, run, reject,
}
use sms_server.Modem.Worker.Startup.{ModemConfig, new_worker}

-- Any arm but a reconnection that succeeds.
abbrev pub is_waiting : {x : Crates} → Env x × Arm → Bool
is_waiting (env, reconnect_tick connected initialized) = not (connected && initialized)
is_waiting _ = true

-- The new worker, offline.
abbrev pub waiting : ModemConfig → Worker
waiting config = record (new_worker config) { status = offline }

module _ {x : Crates} where
  abbrev refusal : Env x → Option Sender → List (Effect x)
  refusal env none = []
  refusal env (some tx) =
      if env.listening tx then sent (reply tx (error (message "Modem is offline"))) ∷ [] else []

  -- One error for each command whose caller listens.
  abbrev pub refusals : List (Env x × Arm) → List (Effect x)
  refusals [] = []
  refusals ((env, incoming_command c) ∷ arms) = refusal env c.response_tx ++ refusals arms
  refusals (_ ∷ arms) = refusals arms

  module _ (show : StateMachineState → ModemEvent → Text) (config : ModemConfig) where
    turn-refusal :
        (env : Env x) (c : OutgoingCommand)
        → turn env show offline (waiting config) (incoming_command c)
          ≡ (waiting config, refusal env c.response_tx)
    unfolding turn reject respond
    turn-refusal env c = elim (Option-cases c.response_tx) [
      | inl e ↦ rw e refl
      | inr (tx, e) ↦ elim (Bool-cases (env.listening tx)) [
        | inl h ↦ rw (e, h) refl
        | inr h ↦ rw (e, h) refl
      ]
    ]

    pub run-refusals :
        (arms later : List (Env x × Arm))
        → all is_waiting arms ≡ true
        → run show (waiting config) (arms ++ later)
          ≡ ((waiting config, refusals arms) and_then λ w. run show w later)
    unfolding run turn
    run-refusals [] later h = refl
    run-refusals ((env, incoming_command c) ∷ arms) later h =
        rw (turn-refusal env c, run-refusals arms later h) (simp append_assoc)
    run-refusals ((env, worker_event port) ∷ arms) later h = run-refusals arms later h
    run-refusals ((env, read_bytes bytes) ∷ arms) later h = run-refusals arms later h
    run-refusals ((env, read_closed) ∷ arms) later h = run-refusals arms later h
    run-refusals ((env, read_failed e) ∷ arms) later h = run-refusals arms later h
    run-refusals ((env, timeout_tick) ∷ arms) later h = run-refusals arms later h
    run-refusals ((env, shut_down pending) ∷ arms) later h = run-refusals arms later h
    run-refusals ((env, reconnect_tick connected initialized) ∷ arms) later h =
        elim (Bool-cases (connected && initialized)) [
          | inl there ↦ absurd (ground (arith, there, h))
          | inr not_yet ↦ rw not_yet (run-refusals arms later (ground (arith, h)))
        ]
