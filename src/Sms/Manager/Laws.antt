-- ===== src/Sms/Manager/Laws.antt =====
-- What `SMSManager` stores of the messages that are sent.
use sms_server.Base.{
  ℕ, ◌≡◌, refl, Bool, true, false, not, List, ◌∷◌, Option, none, some, Result, ok, err, arith, all,
  length,
}
use sms_server.Modem.Types.{Crates, ModemRequest, ModemResponse, send_result, error}
use sms_server.Modem.Sender.{Encoder, Exchange, create_sms_requests, send_created, sender_send_sms}
use sms_server.Modem.Sender.Laws.{
  is_fine, send_requests-is_fine, all_succeed, last_response, send_requests-all_succeed,
}
use sms_server.Sms.Types.{
  SmsOutgoingMessage, outgoing_message, Action, insert_message, insert_send_failure, announce,
}
use sms_server.Sms.Manager.{Surroundings, after_sending, manager_send_sms}

-- The action is no record of a failure: neither a failure's row nor a message that is final as
-- soon as it is stored.
abbrev pub is_no_failure : Action → Bool
is_no_failure (insert_send_failure id e) = false
is_no_failure (insert_message m is_final) = not is_final
is_no_failure _ = true

module _ {x : Crates} (s : Surroundings) where
  inserted_no_failure :
      (m : SmsOutgoingMessage) (response : ModemResponse x)
      → is_fine (ok (true, some response)) ≡ true
      → all is_no_failure (after_sending s m (ok (true, some response))).actions ≡ true
  unfolding after_sending
  inserted_no_failure m (send_result reference) h = ground arith
  inserted_no_failure m (error e) h = cc
  inserted_no_failure m _ h = refl

  after_sending_no_failure :
      (m : SmsOutgoingMessage) (result : Result (Bool × Option (ModemResponse x)))
      → is_fine result ≡ true
      → all is_no_failure (after_sending s m result).actions ≡ true
  unfolding after_sending
  after_sending_no_failure m (err e) h = refl
  after_sending_no_failure m (ok (true, none)) h = refl
  after_sending_no_failure m (ok (false, none)) h = refl
  after_sending_no_failure m (ok (false, some response)) h = refl
  after_sending_no_failure m (ok (true, some response)) h = inserted_no_failure m response h

  send_created-is_fine :
      (exchange : ℕ → Exchange x) (timeout : Option ℕ) (counter : ℕ)
      (requests : Result (List ModemRequest))
      → is_fine (send_created exchange timeout counter requests).result ≡ true
  send_created-is_fine exchange timeout counter (err e) = refl
  send_created-is_fine exchange timeout counter (ok requests) =
      send_requests-is_fine exchange timeout requests 0 counter none refl

  -- Whatever the modem answers, `send_sms` of the manager records no failure: it inserts no
  -- failure's row, and no message as final.
  pub manager_send_sms_no_failure :
      (p : Encoder) (exchange : ℕ → Exchange x) (counter : ℕ) (m : SmsOutgoingMessage)
      → all is_no_failure (manager_send_sms s p exchange counter m).1.actions ≡ true
  unfolding manager_send_sms sender_send_sms
  manager_send_sms_no_failure p exchange counter m =
      after_sending_no_failure m _
        (send_created-is_fine exchange m.timeout counter (create_sms_requests p m))

  -- A message whose parts are all answered with responses that are no errors, the last with the
  -- reference `r`, is stored once, not final and with that reference, and then announced with
  -- the row's number, if there is a broadcaster; that number and the response are the result.
  pub manager_send_sms_stored :
      (p : Encoder) (exchange : ℕ → Exchange x) (counter : ℕ) (m : SmsOutgoingMessage)
      (requests : List ModemRequest) (r id : ℕ)
      → create_sms_requests p m ≡ ok requests
      → all_succeed exchange 0 (length requests) ≡ true
      → last_response exchange 0 (length requests) none ≡ some (send_result r)
      → s.row ≡ ok id
      → let stored = record (s.conversions.from_outgoing m) { message_reference = some r } in
        (manager_send_sms s p exchange counter m).1 ≡ record {
          actions =
              insert_message stored false
              ∷ announce s.has_broadcaster
                  (outgoing_message (record stored { message_id = some id }));
          result = ok (some id, send_result r);
        }
  unfolding manager_send_sms sender_send_sms after_sending
  manager_send_sms_stored p exchange counter m requests r id c a l row =
      let sent = send_requests-all_succeed exchange m.timeout requests 0 counter none a in
      rw (c, sent.1, l, row) refl
