-- ===== src/Modem/Commands.antt =====
-- src/modem/commands.rs: a command on its way, and what its caller is told.
--
-- An operation that talks to the rest of the program returns what it sent, in order, with its
-- result: `Act`. The state of the channels at that moment is `Env`.
use sms_server.Base.{
  ℕ, ◌+◌, ◌%◌, ◌^◌, Bool, false, ◌||◌, List, [], ◌∷◌, ◌++◌, Option, none, some, Result, ok, err,
  if◌then◌else◌, Text, Bytes,
}
use sms_server.Text.{codes, equal, message, starts_with}
use sms_server.Text.Number.{decimal}
use sms_server.Modem.Types.{
  Crates, ModemRequest, ModemResponse, ModemStatus, ModemIncomingMessage, get_default_timeout,
  from_secs,
}

-- The sending half of a oneshot channel, by the channel's number.
abbrev pub Sender : Type 0
Sender = ℕ

-- What leaves the modem's task: an event for the worker itself (`write`, `set_status`), the
-- response on a command's channel, or a message to the rest of the program.
pub data Output (x : Crates) : Type 0 where
  write : Bytes → Output x
  set_status : ModemStatus → Output x
  reply : Sender → ModemResponse x → Output x
  notify : ModemIncomingMessage x → Output x

pub record Act {ℓ} (x : Crates) (A : Type ℓ) : Type ℓ where
  pub outputs : List (Output x)
  pub result : Result A

abbrev pub pure {ℓ} : {x : Crates} {A : Type ℓ} → A → Act x A
pure a = record { outputs = []; result = ok a }

abbrev pub fail {ℓ} : {x : Crates} {A : Type ℓ} → Text → Act x A
fail e = record { outputs = []; result = err e }

abbrev pub tell : {x : Crates} → Output x → Act x (Unit {0})
tell o = record { outputs = o ∷ []; result = ok tt }

abbrev pub lift {ℓ} : {x : Crates} {A : Type ℓ} → Result A → Act x A
lift r = record { outputs = []; result = r }

abbrev pub after {ℓ κ} :
    {x : Crates} {A : Type ℓ} {B : Type κ} → List (Output x) → Result A → (A → Act x B) → Act x B
after sent (ok a) f = record { outputs = sent ++ (f a).outputs; result = (f a).result }
after sent (err e) f = record { outputs = sent; result = err e }

infixl 5 ◌>>=◌ ◌>>◌
abbrev pub ◌>>=◌ {ℓ κ} : {x : Crates} {A : Type ℓ} {B : Type κ} → Act x A → (A → Act x B) → Act x B
m >>= f = after m.outputs m.result f

abbrev pub ◌>>◌ {κ} : {x : Crates} {B : Type κ} → Act x (Unit {0}) → Act x B → Act x B
m >> k = m >>= λ _. k

-- `now` is the clock in nanoseconds, `worker_open` says that the worker's event channel has a
-- receiver, `listening` that the caller behind a channel still waits. `show_response` is the
-- derived `Debug` of a response, which stands in an error's text.
pub record Env (x : Crates) : Type 0 where
  pub now : ℕ
  pub worker_open : Bool
  pub listening : Sender → Bool
  pub show_response : ModemResponse x → Text

-- `COMMAND_SEQUENCE.fetch_add(1)`: the number given out, and the counter, which wraps.
unfoldable pub next_command_sequence : ℕ → ℕ × ℕ
next_command_sequence counter = (counter, (counter + 1) % 2 ^ 32)

pub data CommandState : Type 0 where
  waiting_for_ok waiting_for_prompt waiting_for_data : CommandState

unfoldable pub is_complete : CommandState → Text → Bool
is_complete waiting_for_ok content =
    equal content (codes "OK")
    || equal content (codes "ERROR")
    || starts_with (codes "+CME ERROR:") content
    || starts_with (codes "+CMS ERROR:") content
is_complete waiting_for_prompt content = false
is_complete waiting_for_data content =
    starts_with (codes "+CMGS:") content
    || equal content (codes "OK")
    || equal content (codes "ERROR")

pub record CommandContext : Type 0 where
  pub sequence : ℕ
  pub state : CommandState
  pub response_buffer : Text

pub record OutgoingCommand : Type 0 where
  pub sequence : ℕ
  pub request : ModemRequest
  pub timeout : Option ℕ
  pub response_tx : Option Sender

unfoldable pub new : ℕ → Sender → ModemRequest → Option ℕ → OutgoingCommand
new sequence response_tx request timeout = record {
  sequence = sequence;
  request = request;
  timeout = timeout;
  response_tx = some response_tx;
}

unfoldable pub get_request_timeout : OutgoingCommand → ℕ
get_request_timeout c = elim c.timeout [
  | none ↦ get_default_timeout c.request
  | some t ↦ from_secs t
]

module _ {x : Crates} (env : Env x) where
  send : ℕ → Option Sender → ModemResponse x → Act x (Unit {0})
  send sequence none response = fail (
      message "Attempted to respond to command #"
      ++ decimal sequence
      ++ message " but response channel was already used")
  send sequence (some tx) response =
      if env.listening tx
      then tell (reply tx response)
      else fail (
          message "Failed to respond to command #"
          ++ decimal sequence
          ++ message " with: "
          ++ env.show_response response)

  -- The response channel is taken, whether the caller still listens or not.
  unfoldable pub respond : OutgoingCommand → ModemResponse x → OutgoingCommand × Act x (Unit {0})
  unfolding send
  respond c response = (record c { response_tx = none }, send c.sequence c.response_tx response)
