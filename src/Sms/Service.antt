-- ===== src/Sms/Service.antt =====
-- The calls that `SMSManager` and `SMSReceiver` of src/sms/mod.rs make of the database, carried out
-- on its tables.
pub mod Completed
pub mod Standing
pub mod Laws
mod Tests
use sms_server.Base.{ℕ, suc, List, [], ◌∷◌, Bytes}
use sms_server.Sms.Types.{
  Action, insert_message, insert_send_failure, insert_delivery_report, update_message_status,
  broadcast,
}
use sms_server.Sms.Encryption.{SmsEncryption}
use sms_server.Sms.Database.Schema.{Tables}
use sms_server.Sms.Database.{Statement}
use sms_server.Sms.Database

-- What a call meets: the outcome of its statement, and the nonce, if it encrypts.
pub record Call : Type 0 where
  pub nonce : Bytes
  pub statement : Statement

abbrev pub perform : SmsEncryption → Call → Tables → Action → Tables
perform e c t (insert_message m is_final) =
    (Database.insert_message e c.nonce c.statement t m is_final).0
perform e c t (insert_send_failure id text) = (Database.insert_send_failure c.statement t id text).0
perform e c t (insert_delivery_report id status is_final) =
    (Database.insert_delivery_report c.statement t id status is_final).0
perform e c t (update_message_status id status completed) =
    (Database.update_message_status c.statement t id status completed).0
perform e c t (broadcast event) = t

-- The actions in order; `calls i` is what the one at the place `i` meets.
abbrev pub perform_all : SmsEncryption → (ℕ → Call) → Tables → ℕ → List Action → Tables
perform_all e calls t i [] = t
perform_all e calls t i (a ∷ actions) =
    perform_all e calls (perform e (calls i) t a) (suc i) actions
