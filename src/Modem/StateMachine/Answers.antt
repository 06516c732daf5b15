-- ===== src/Modem/StateMachine/Answers.antt =====
-- How often a response channel is answered, and which channels a state holds.
use sms_server.Base.{
  ℕ, ◌+◌, ◌≤◌, ◌≡◌, refl, List, [], ◌∷◌, ◌++◌, Option, none, some, Result, ok, err, arith, ◌==◌,
  if◌then◌else◌, Text,
}
use sms_server.Modem.Types.{
  Crates, ModemRequest, send_sms, ModemResponse, UnsolicitedMessageKind, incoming_sms,
  ModemIncomingMessage,
}
use sms_server.Modem.Commands.{
  Output, write, set_status, reply, notify, Sender, Env, OutgoingCommand, respond,
}
use sms_server.Text.{message}
use sms_server.Modem.Handlers.{command_sender, prompt_handler, handle_unsolicited_message}
use sms_server.Modem.StateMachine.{
  StateMachineState, idle, command, unsolicited, handle_unsolicited, sent_on,
}

abbrev pub to_list {ℓ} : {A : Type ℓ} → Option A → List A
to_list none = []
to_list (some a) = a ∷ []

-- The response channels that the state holds.
abbrev pub held : StateMachineState → List Sender
held idle = []
held (command e) = to_list e.command.response_tx
held (unsolicited kind none) = []
held (unsolicited kind (some e)) = to_list e.command.response_tx

abbrev pub count : Sender → List Sender → ℕ
count tx [] = 0
count tx (t ∷ ts) = (if t == tx then 1 else 0) + count tx ts

module _ {x : Crates} where
  -- How often a channel was answered.
  abbrev pub answered : Sender → List (Output x) → ℕ
  answered tx [] = 0
  answered tx (reply t response ∷ os) = (if t == tx then 1 else 0) + answered tx os
  answered tx (write bytes ∷ os) = answered tx os
  answered tx (set_status to ∷ os) = answered tx os
  answered tx (notify message ∷ os) = answered tx os

  pub answered-append :
      (tx : Sender) (os ps : List (Output x))
      → answered tx (os ++ ps) ≡ answered tx os + answered tx ps
  answered-append tx [] ps = omega arith
  answered-append tx (write bytes ∷ os) ps = answered-append tx os ps
  answered-append tx (set_status to ∷ os) ps = answered-append tx os ps
  answered-append tx (notify message ∷ os) ps = answered-append tx os ps
  answered-append tx (reply t response ∷ os) ps = omega (arith, answered-append tx os ps)

module _ {x : Crates} (env : Env x) (tx : Sender) where
  pub answered-respond :
      (c : OutgoingCommand) (response : ModemResponse x)
      → answered tx (respond env c response).1.outputs ≤ count tx (to_list c.response_tx)
  unfolding respond
  answered-respond c response = ground arith

  pub answered-command_sender :
      (request : ModemRequest) → answered tx (command_sender env request).outputs ≡ 0
  unfolding command_sender
  answered-command_sender request = ground arith

  pub answered-prompt_handler :
      (request : ModemRequest) → answered tx (prompt_handler env request).outputs ≡ 0
  unfolding prompt_handler
  answered-prompt_handler (send_sms len pdu) = ground arith
  answered-prompt_handler _ = refl

  answered-handle_unsolicited_message :
      (kind : UnsolicitedMessageKind) (content : Text)
      → answered tx (handle_unsolicited_message env kind content).outputs ≡ 0
  unfolding handle_unsolicited_message
  answered-handle_unsolicited_message incoming_sms content = ground arith
  answered-handle_unsolicited_message _ content = ground arith

  answered-sent_on :
      (r : Result (Option (ModemIncomingMessage x))) → answered tx (sent_on env r) ≡ 0
  answered-sent_on (ok none) = refl
  answered-sent_on (ok (some message)) = refl
  answered-sent_on (err e) = refl

  pub answered-handle_unsolicited :
      (kind : UnsolicitedMessageKind) (content : Text)
      → answered tx (handle_unsolicited env kind content).outputs ≡ 0
  unfolding handle_unsolicited
  answered-handle_unsolicited kind content =
      let act = handle_unsolicited_message env kind content in
      omega (
        arith,
        answered-append tx act.outputs (sent_on env act.result),
        answered-handle_unsolicited_message kind content,
        answered-sent_on act.result,
      )
