-- ===== src/Modem/Manager.antt =====
-- `ModemManager` of src/modem/mod.rs: the start of the worker, and the sender that is handed out.
mod Tests
use sms_server.Base.{
  ℕ, suc, ◌+◌, ◌≤◌, ◌≡◌, refl, Bool, true, false, List, [], ◌∷◌, Option, none, some, Option-cases,
  inl, inr, arith, Result, ok, err, ◌>>=◌, Text,
}
use sms_server.Text.{message}

-- The sender's end of a command queue is a number.
pub record ModemManager : Type 0 where
  pub command_tx : Option ℕ

abbrev pub new_manager : ModemManager
new_manager = record { command_tx = none }

-- `start`, where the new queue is `tx`, and the port and the worker may fail to be made. The queue
-- is kept before either is tried.
unfoldable pub start :
    ℕ → Result (Unit {0}) → Result (Unit {0}) → ModemManager → ModemManager × Result (Unit {0})
start tx port worker m = (record { command_tx = some tx }, (do opened ← port; worker))

abbrev taken : Option ℕ → Result ℕ
taken (some tx) = ok tx
taken none = err (
    message
      "Could not get ModemSender, command_tx channel has already been taken or the modem hasn't been started!")

unfoldable get_sender : ModemManager → ModemManager × Result ℕ
get_sender m = (record { command_tx = none }, taken m.command_tx)

-- The calls of a manager.
pub data ManagerCall : Type 0 where
  start_call : ℕ → Result (Unit {0}) → Result (Unit {0}) → ManagerCall
  get_sender_call : ManagerCall

abbrev sender_of : Result ℕ → List ℕ → List ℕ
sender_of (ok tx) txs = tx ∷ txs
sender_of (err e) txs = txs

-- The senders that a sequence of calls hands out.
unfoldable pub senders : ModemManager → List ManagerCall → List ℕ
unfolding start get_sender
senders m [] = []
senders m (start_call tx port worker ∷ calls) = senders (start tx port worker m).0 calls
senders m (get_sender_call ∷ calls) =
    let (m', result) = get_sender m in sender_of result (senders m' calls)

abbrev pub waiting : Option ℕ → List ℕ → List ℕ
waiting none txs = txs
waiting (some tx) txs = tx ∷ txs

-- The queues that the starts among the calls make.
abbrev pub started : List ManagerCall → List ℕ
started [] = []
started (start_call tx port worker ∷ calls) = tx ∷ started calls
started (get_sender_call ∷ calls) = started calls

-- The items of the first list are among those of the second, in order, each at a place of its own.
pub data Within : List ℕ → List ℕ → Type 0 where
  nothing : {ys : List ℕ} → Within [] ys
  here : {x : ℕ} {xs ys : List ℕ} → Within xs ys → Within (x ∷ xs) (x ∷ ys)
  later : {y : ℕ} {xs ys : List ℕ} → Within xs ys → Within xs (y ∷ ys)

senders-Within :
    (m : ModemManager) (calls : List ManagerCall)
    → Within (senders m calls) (waiting m.command_tx (started calls))
unfolding senders start get_sender
senders-Within m [] = nothing
senders-Within m (start_call tx port worker ∷ calls) = elim (Option-cases m.command_tx) [
  | inl h ↦ rw h (senders-Within (record { command_tx = some tx }) calls)
  | inr (old, h) ↦ rw h (later (senders-Within (record { command_tx = some tx }) calls))
]
senders-Within m (get_sender_call ∷ calls) = elim (Option-cases m.command_tx) [
  | inl h ↦ rw h (senders-Within new_manager calls)
  | inr (tx, h) ↦ rw h (here (senders-Within new_manager calls))
]

-- Over any calls, each start leads to at most one sender, that of its own queue, and the senders
-- come in the order of the starts: no queue has two.
new_manager-senders :
    (calls : List ManagerCall) → Within (senders new_manager calls) (started calls)
new_manager-senders calls = senders-Within new_manager calls
