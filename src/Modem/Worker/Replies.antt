-- ===== src/Modem/Worker/Replies.antt =====
-- The responses that leave the worker, and the channels that come in with commands, counted.
use sms_server.Base.{ℕ, ◌+◌, ◌≡◌, refl, List, [], ◌∷◌, ◌++◌, arith, ◌==◌, if◌then◌else◌}
use sms_server.Text.{message}
use sms_server.Modem.Types.{Crates}
use sms_server.Modem.Commands.{
  Output, write, set_status, reply, notify, Sender, Env, OutgoingCommand,
}
use sms_server.Modem.StateMachine.Answers.{to_list, count, answered}
use sms_server.Modem.Worker.{Effect, serial, sent, leaving, Arm, incoming_command, shut_down}

module _ {x : Crates} where
  -- How often a channel was answered.
  abbrev pub replied : Sender → List (Effect x) → ℕ
  replied tx [] = 0
  replied tx (serial bytes ∷ es) = replied tx es
  replied tx (sent (reply t response) ∷ es) = (if t == tx then 1 else 0) + replied tx es
  replied tx (sent (write bytes) ∷ es) = replied tx es
  replied tx (sent (set_status to) ∷ es) = replied tx es
  replied tx (sent (notify message) ∷ es) = replied tx es

  pub replied-append :
      (tx : Sender) (es fs : List (Effect x))
      → replied tx (es ++ fs) ≡ replied tx es + replied tx fs
  replied-append tx [] fs = omega arith
  replied-append tx (serial bytes ∷ es) fs = replied-append tx es fs
  replied-append tx (sent (reply t response) ∷ es) fs = omega (arith, replied-append tx es fs)
  replied-append tx (sent (write bytes) ∷ es) fs = replied-append tx es fs
  replied-append tx (sent (set_status to) ∷ es) fs = replied-append tx es fs
  replied-append tx (sent (notify message) ∷ es) fs = replied-append tx es fs

  pub replied-leaving :
      (tx : Sender) (os : List (Output x)) → replied tx (leaving os) ≡ answered tx os
  replied-leaving tx [] = refl
  replied-leaving tx (reply t response ∷ os) = omega (arith, replied-leaving tx os)
  replied-leaving tx (write bytes ∷ os) = replied-leaving tx os
  replied-leaving tx (set_status to ∷ os) = replied-leaving tx os
  replied-leaving tx (notify message ∷ os) = replied-leaving tx os

-- The channels of the commands that an arm brings.
abbrev pub brought_by : List OutgoingCommand → List Sender
brought_by [] = []
brought_by (c ∷ cs) = to_list c.response_tx ++ brought_by cs

abbrev pub brought : Arm → List Sender
brought (incoming_command c) = to_list c.response_tx
brought (shut_down pending) = brought_by pending
brought _ = []

abbrev pub all_brought : {x : Crates} → List (Env x × Arm) → List Sender
all_brought [] = []
all_brought ((env, arm) ∷ arms) = brought arm ++ all_brought arms

pub count-append :
    (tx : Sender) (ts us : List Sender) → count tx (ts ++ us) ≡ count tx ts + count tx us
count-append tx [] us = omega arith
count-append tx (t ∷ ts) us = omega (arith, count-append tx ts us)
